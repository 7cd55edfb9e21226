-- ===== src/Equal/Pairs.antt =====
-- What qz_equal does on two pairs.
use quuz.Prelude.{
  ℕ, suc, ◌≤◌, ◌≡◌, refl, inl, inr, ap, ◌∙◌, ◌-◌, ◌%◌, Bool, true, false, ◌||◌, ◌==◌, arith,
  Bool-cases, ==_refl,
}
use quuz.Object.Tag.{Obj, is_cell, to_cell}
use quuz.Object.CellType
use quuz.Object.PointerTag
use quuz.Machine.Store.{State}
use quuz.Machine.Outcome.{ok, M}
use quuz.Machine.Cell.{cell_ptr}
use quuz.Machine.Cell.Laws.{load-ok}
use quuz.Machine.Chain.{IsPairAt, pair_at-ok}
use quuz.Equal.{equal, equal_cells, qz_equal}
use quuz.Equal.Words.{equal-word}

module _ (st : State) (a b x y xs ys : Obj) (p : IsPairAt st a x xs) (q : IsPairAt st b y ys)
    (word : is_cell x ≡ false) where
  equal_cells-pairs :
      (rec : Obj → Obj → M Bool)
      → rec x y st ≡ ok (x == y) st
      → rec ys ys st ≡ ok true st
      → equal_cells rec CellType.pair (to_cell a) (to_cell b) st ≡ ok (x == y) st
  unfolding equal_cells
  equal_cells-pairs rec e r = elim (Bool-cases (x == y)) [
    | inl t ↦ rw (pair_at-ok st a x xs p) (rw (pair_at-ok st b y ys q) (rw e (rw t r)))
    | inr f ↦ rw (pair_at-ok st a x xs p) (rw (pair_at-ok st b y ys q) (rw e (rw f refl)))
  ]

  same_tag : (a % 8 == b % 8) ≡ true
  unfolding is_cell
  same_tag = ground (arith, p.cell, q.cell)

  cell_tag : (a % 8 == PointerTag.cell) ≡ true
  unfolding is_cell
  cell_tag = p.cell

  equal-pairs :
      (m : ℕ)
      → equal m x y st ≡ ok (x == y) st
      → equal m ys ys st ≡ ok true st
      → equal (suc m) a b st ≡ ok ((a == b) || (x == y)) st
  unfolding equal cell_ptr
  equal-pairs m e r = elim (Bool-cases (a == b)) [
    | inl same ↦ rw same refl
    | inr apart ↦
        rw (apart, same_tag, cell_tag, p.cell, q.cell)
          (rw (load-ok st (to_cell a) p.holds) (
            rw (load-ok st (to_cell b) q.holds)
              (rw (p.type, q.type) (equal_cells-pairs (equal m) e r))))
  ]

  equal_same : (n : ℕ) → equal (suc n) ys ys st ≡ ok true st
  unfolding equal
  equal_same n = rw (==_refl ys) refl

  -- Of two pairs, where the first member of the one is a value that is no cell, qz_equal answers
  -- whether they are one pair or have equal first members, whatever their rests are. The heap has at
  -- least two addresses.
  pub qz_equal-pairs : 2 ≤ st.brk → qz_equal a b st ≡ ok ((a == b) || (x == y)) st
  unfolding qz_equal
  qz_equal-pairs h =
      let m = st.brk - 2 in
      let e : st.brk ≡ suc (suc m) = omega arith in
      ap (λ (n : ℕ). equal n a b st) e
      ∙ equal-pairs (suc m) (equal-word m x y st word) (equal_same m)
