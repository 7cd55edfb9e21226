-- ===== src/Library/Numbers/Order.antt =====
-- What compare_fixnum orders, and where its `int` result goes wrong.
use quuz.Prelude.{ℕ, ◌*◌, ◌^◌, ◌<◌, ◌≡◌, ◌==◌, if◌then◌else◌, arith}
use quuz.Object.Tag.{from_fixnum}
use quuz.Library.Numbers.{sign_of, compare_fixnum, add64}

-- For d below 2 ^ 29, compare_fixnum orders the fixnums of i + d and of i, both cut to 62 bits: the
-- sign of its result is EQUAL (2) when d is 0, else GREATER (4) with i + d first and LESS (1) with i
-- first.
pub compare_fixnum-near :
    (i d : ℕ)
    → i < 2 ^ 64
    → d < 2 ^ 29
    → (sign_of (compare_fixnum (from_fixnum (add64 i d)) (from_fixnum i))
        ≡ (if d == 0 then 2 else 4))
      × (sign_of (compare_fixnum (from_fixnum i) (from_fixnum (add64 i d)))
          ≡ (if d == 0 then 2 else 1))
unfolding compare_fixnum sign_of from_fixnum
compare_fixnum-near i d w h = (ground arith, ground arith)

-- Two fixnums that differ by a multiple of 2 ^ 30 compare as EQUAL (2), in both orders.
pub compare_fixnum-far :
    (i m : ℕ)
    → i < 2 ^ 64
    → (sign_of (compare_fixnum (from_fixnum (add64 i (2 ^ 30 * m))) (from_fixnum i)) ≡ 2)
      × (sign_of (compare_fixnum (from_fixnum i) (from_fixnum (add64 i (2 ^ 30 * m)))) ≡ 2)
unfolding compare_fixnum sign_of from_fixnum
compare_fixnum-far i m w = (ground arith, ground arith)
