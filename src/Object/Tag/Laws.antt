-- ===== src/Object/Tag/Laws.antt =====
-- The tagged encoding: values come back as they went in, and no word has two kinds.
use quuz.Prelude.{ℕ, ◌+◌, ◌-◌, ◌%◌, ◌^◌, ◌<◌, ◌≤◌, ◌≡◌, ◌⊎◌, Bool, true, false, arith}
use quuz.Object.Tag.{
  Obj, is_fixnum, is_cell, is_cfun, is_sym, is_bool, is_char, is_eof, is_none, to_fixnum, to_bool,
  to_char, to_cell, from_cell, from_fixnum, from_bool, from_char,
}

-- The pattern of an integer of 62 bits: what a fixnum can hold.
pub record IsFixnumRange (i : ℕ) : Type 0 where
  pub word : i < 2 ^ 64
  pub fits : (i < 2 ^ 61) ⊎ (2 ^ 64 - 2 ^ 61 ≤ i)

-- An integer of 62 bits comes back from a fixnum as it went in, and the word is a fixnum.
pub to_fixnum-from_fixnum :
    (i : ℕ) → IsFixnumRange i → (to_fixnum (from_fixnum i) ≡ i) × (is_fixnum (from_fixnum i) ≡ true)
unfolding to_fixnum from_fixnum is_fixnum
to_fixnum-from_fixnum i h = (ground arith, ground arith)

-- A word of 64 bits that is a fixnum is the fixnum of the integer read from it, and that integer has
-- 62 bits.
pub from_fixnum-to_fixnum :
    (obj : Obj)
    → obj < 2 ^ 64
    → is_fixnum obj ≡ true
    → (from_fixnum (to_fixnum obj) ≡ obj) × IsFixnumRange (to_fixnum obj)
unfolding to_fixnum from_fixnum is_fixnum
from_fixnum-to_fixnum obj w h = (ground arith, record { word = ground arith; fits = ground arith })

-- A char comes back from its object as it went in, and the word is a char.
pub to_char-from_char :
    (c : ℕ) → c < 256 → (to_char (from_char c) ≡ c) × (is_char (from_char c) ≡ true)
unfolding to_char from_char is_char
to_char-from_char c h = (ground arith, ground arith)

pub to_bool-from_bool :
    (b : ℕ) → b < 2 → (to_bool (from_bool b) ≡ b) × (is_bool (from_bool b) ≡ true)
unfolding to_bool from_bool is_bool
to_bool-from_bool b h = (ground arith, ground arith)

abbrev pub to_nat : Bool → ℕ
to_nat true = 1
to_nat false = 0

-- How many of the eight kinds a word has.
abbrev pub kinds : Obj → ℕ
kinds obj =
    to_nat (is_fixnum obj)
    + to_nat (is_cell obj)
    + to_nat (is_cfun obj)
    + to_nat (is_sym obj)
    + to_nat (is_bool obj)
    + to_nat (is_char obj)
    + to_nat (is_eof obj)
    + to_nat (is_none obj)

-- At most one of the eight kinds claims a word.
pub kinds-le-one : (obj : Obj) → kinds obj ≤ 1
unfolding is_fixnum is_cell is_cfun is_sym is_bool is_char is_eof is_none
kinds-le-one obj = ground arith

pub to_cell-from_cell : (p : ℕ) → p % 8 ≡ 0 → to_cell (from_cell p) ≡ p
unfolding to_cell from_cell
to_cell-from_cell p h = ground arith

pub is_cell-from_cell : (p : ℕ) → p % 8 ≡ 0 → is_cell (from_cell p) ≡ true
unfolding is_cell from_cell
is_cell-from_cell p h = ground arith
