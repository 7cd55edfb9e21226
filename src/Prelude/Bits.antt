-- ===== src/Prelude/Bits.antt =====
-- `&` and `|` on words made of adjacent bit fields. The native operations are recursions on binary
-- digits; each law goes from half a word to the word.
use Prim.Native.Nat.{
  ℕ, zero, suc, ◌+◌, ◌-◌, ◌*◌, ◌/◌, ◌%◌, ◌^◌, ◌≤◌, ◌<◌, min, max, bit_and, bit_or, digits,
  bit_and-bitwise, bit_or-bitwise,
}
use mathlib.Core.Path.{◌≡◌, refl, ap}
use native.Mathlib.Nat.{pow-suc, one-le-pow}
use native.Mathlib.Omega.{arith}

-- The fuel of `digits` does not matter once it covers the first argument.
module _ (g : ℕ → ℕ) (f : ℕ → ℕ → ℕ) where
  digits-eq : (k l a b : ℕ) → a ≤ k → a ≤ l → digits g f k a b ≡ digits g f l a b
  digits-eq zero zero a b p q = refl
  digits-eq (suc k) zero zero b p q = refl
  digits-eq zero (suc l) zero b p q = refl
  digits-eq (suc k) (suc l) zero b p q = refl
  digits-eq zero l (suc a) b p q = absurd (omega arith)
  digits-eq (suc k) zero (suc a) b p q = absurd (omega arith)
  digits-eq (suc k) (suc l) (suc a) b p q =
      ap (λ (t : ℕ). t * 2 + f (suc a % 2) (b % 2))
        (digits-eq k l (suc a / 2) (b / 2) (omega arith) (omega arith))

pub and_digit : (a b : ℕ) → bit_and a b ≡ bit_and (a / 2) (b / 2) * 2 + min (a % 2) (b % 2)
and_digit zero b = omega (arith, bit_and-bitwise 0 b, bit_and-bitwise 0 (b / 2))
and_digit (suc a) b = omega (
  arith,
  bit_and-bitwise (suc a) b,
  bit_and-bitwise (suc a / 2) (b / 2),
  digits-eq (λ _. 0) min a (suc a / 2) (suc a / 2) (b / 2) (omega arith) (omega arith),
)

pub or_digit : (a b : ℕ) → bit_or a b ≡ bit_or (a / 2) (b / 2) * 2 + max (a % 2) (b % 2)
or_digit zero b = omega (arith, bit_or-bitwise 0 b, bit_or-bitwise 0 (b / 2))
or_digit (suc a) b = omega (
  arith,
  bit_or-bitwise (suc a) b,
  bit_or-bitwise (suc a / 2) (b / 2),
  digits-eq (λ y. y) max a (suc a / 2) (suc a / 2) (b / 2) (omega arith) (omega arith),
)

double_shift : (q k : ℕ) → q * 2 ^ suc k ≡ 2 * (q * 2 ^ k)
double_shift q k = omega (arith, ap (λ (t : ℕ). q * t) (pow-suc 2 k))

or_none_fuel : (n a : ℕ) → a ≤ n → bit_or a 0 ≡ a
or_none_fuel n zero h = refl
or_none_fuel zero (suc a) h = absurd (omega arith)
or_none_fuel (suc n) (suc a) h =
    omega (arith, or_digit (suc a) 0, or_none_fuel n (suc a / 2) (omega arith))

-- `a | 0`
pub or_none : (a : ℕ) → bit_or a 0 ≡ a
or_none a = or_none_fuel a a (omega arith)

and_none_fuel : (n a : ℕ) → a ≤ n → bit_and a 0 ≡ 0
and_none_fuel n zero h = refl
and_none_fuel zero (suc a) h = absurd (omega arith)
and_none_fuel (suc n) (suc a) h =
    omega (arith, and_digit (suc a) 0, and_none_fuel n (suc a / 2) (omega arith))

-- `a & 0`
pub and_none : (a : ℕ) → bit_and a 0 ≡ 0
and_none a = and_none_fuel a a (omega arith)

-- A mask of ones over the whole width changes nothing.
pub and_ones : (k a : ℕ) → a < 2 ^ k → bit_and a (2 ^ k - 1) ≡ a
and_ones zero a h = omega (arith, and_none a)
and_ones (suc k) a h = ground (
  arith,
  pow-suc 2 k,
  one-le-pow k 2,
  and_digit a (2 ^ suc k - 1),
  and_ones k (a / 2) (omega (arith, pow-suc 2 k)),
)

-- A mask of `k` low bits keeps the field of `k` low bits.
pub and_low : (k q r : ℕ) → r < 2 ^ k → bit_and (q * 2 ^ k + r) (2 ^ k - 1) ≡ r
and_low zero q r h = omega (arith, and_none (q * 2 ^ 0 + r))
and_low (suc k) q r h = ground (
  arith,
  double_shift q k,
  pow-suc 2 k,
  one-le-pow k 2,
  and_digit (q * 2 ^ suc k + r) (2 ^ suc k - 1),
  and_low k q (r / 2) (omega (arith, pow-suc 2 k)),
)

-- Clear the low `k` bits by a mask `m` of the higher ones, and put `v` there.
pub put_low :
    (k q r m v : ℕ)
    → r < 2 ^ k
    → v < 2 ^ k
    → bit_or (bit_and (q * 2 ^ k + r) (m * 2 ^ k)) v ≡ bit_and q m * 2 ^ k + v
put_low zero q r m v h l = ground (arith, or_none (bit_and q m))
put_low (suc k) q r m v h l = ground (
  arith,
  double_shift q k,
  double_shift m k,
  double_shift (bit_and q m) k,
  pow-suc 2 k,
  and_digit (q * 2 ^ suc k + r) (m * 2 ^ suc k),
  or_digit (bit_and (q * 2 ^ suc k + r) (m * 2 ^ suc k)) v,
  put_low k q (r / 2) m (v / 2) (omega (arith, pow-suc 2 k)) (omega (arith, pow-suc 2 k)),
)

-- A change above bit `k` that keeps the low `k` bits.
pub put_above :
    (k q r m v : ℕ)
    → r < 2 ^ k
    → bit_or (bit_and (q * 2 ^ k + r) (m * 2 ^ k + (2 ^ k - 1))) (v * 2 ^ k)
      ≡ bit_or (bit_and q m) v * 2 ^ k + r
put_above zero q r m v h = ground arith
put_above (suc k) q r m v h = ground (
  arith,
  double_shift q k,
  double_shift m k,
  double_shift v k,
  double_shift (bit_or (bit_and q m) v) k,
  pow-suc 2 k,
  one-le-pow k 2,
  and_digit (q * 2 ^ suc k + r) (m * 2 ^ suc k + (2 ^ suc k - 1)),
  or_digit (bit_and (q * 2 ^ suc k + r) (m * 2 ^ suc k + (2 ^ suc k - 1))) (v * 2 ^ suc k),
  put_above k q (r / 2) m v (omega (arith, pow-suc 2 k)),
)
