-- ===== src/Library/Chars/Order.antt =====
-- compare_char of quuz-lib.c orders chars as signed bytes.
use quuz.Prelude.{ℕ, ◌+◌, ◌%◌, ◌<◌, ◌≡◌, ltb, ◌==◌, if◌then◌else◌, arith}
use quuz.Object.Tag.{from_char}
use quuz.Library.Numbers.{sign_of}
use quuz.Library.Chars.{compare_char}

-- The place of a char in the order of signed bytes: those from 128 on come first.
abbrev pub rank : ℕ → ℕ
rank c = (c + 128) % 256

-- compare_char of two chars has the sign of their order as signed bytes: EQUAL (2) for one char, LESS
-- (1) if the first comes before the second, and else GREATER (4).
pub compare_char-rank :
    (c d : ℕ)
    → c < 256
    → d < 256
    → sign_of (compare_char (from_char c) (from_char d))
      ≡ (if rank c == rank d then 2 else if ltb (rank c) (rank d) then 1 else 4)
unfolding compare_char sign_of from_char
compare_char-rank c d lc ld = ground arith
