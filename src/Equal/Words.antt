-- ===== src/Equal/Words.antt =====
-- What qz_equal does when its first argument is a word that is no cell.
use quuz.Prelude.{ℕ, suc, ◌-◌, ◌%◌, ◌<◌, ◌≡◌, ap, ◌∙◌, inl, inr, false, ◌==◌, arith, Bool-cases}
use quuz.Object.Tag.{Obj, is_cell}
use quuz.Machine.Store.{State}
use quuz.Machine.Outcome.{ok}
use quuz.Equal.{equal, qz_equal}

pub equal-word :
    (n a b : ℕ) (st : State) → is_cell a ≡ false → equal (suc n) a b st ≡ ok (a == b) st
unfolding equal is_cell
equal-word n a b st word = elim (Bool-cases (a == b)) [
  | inl t ↦ rw t
  | inr f ↦ elim (Bool-cases (a % 8 == b % 8)) [ inl u ↦ rw (f, u, word) | inr v ↦ rw (f, v) ]
]

pub qz_equal-word :
    (a b : Obj) (st : State) → is_cell a ≡ false → 0 < st.brk → qz_equal a b st ≡ ok (a == b) st
unfolding qz_equal
qz_equal-word a b st word h =
    let e : st.brk ≡ suc (st.brk - 1) = omega arith in
    ap (λ (n : ℕ). equal n a b st) e ∙ equal-word (st.brk - 1) a b st word
