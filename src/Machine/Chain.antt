-- ===== src/Machine/Chain.antt =====
-- Pairs and lists in the heap, and what the tests and accessors do on them.
use quuz.Prelude.{ℕ, ◌≡◌, refl, true, false, some, List, [], ◌∷◌, ◌==◌}
use quuz.Object.Tag.{Obj, is_cell, to_cell}
use quuz.Object.Info.{cell_type}
use quuz.Object.CellType
use quuz.Machine.Store.{State, pair}
use quuz.Machine.Outcome.{ok}
use quuz.Machine.Cell.{cell_of_type, pair_at, to_pair, rest, cell_ptr}
use quuz.Machine.Cell.Laws.{load-ok}

-- `obj` is a pair with these members.
pub record IsPairAt (st : State) (obj front back : Obj) : Type 0 where
  pub cell : is_cell obj ≡ true
  pub present : (to_cell obj == 0) ≡ false
  pub info : ℕ
  pub holds : st.heap (to_cell obj) ≡ some (record { info = info; value = pair front back })
  pub type : cell_type info ≡ CellType.pair

-- `obj` is a list of pairs with the elements `xs`, that ends in `last`.
abbrev pub IsChain : State → Obj → List Obj → Obj → Type 0
IsChain st obj [] last = obj ≡ last
IsChain st obj (x ∷ xs) last = (next : Obj) × IsPairAt st obj x next × IsChain st next xs last

module _ (st : State) (obj front back : Obj) (at : IsPairAt st obj front back) where
  pub is_pair-ok : cell_of_type obj CellType.pair st ≡ ok true st
  unfolding cell_of_type
  is_pair-ok = rw (at.cell, at.present) (rw (load-ok st (to_cell obj) at.holds, at.type) refl)

  pub pair_at-ok : pair_at (to_cell obj) st ≡ ok (front, back) st
  unfolding pair_at
  pair_at-ok = rw (load-ok st (to_cell obj) at.holds) refl

  pub to_pair-ok : to_pair obj st ≡ ok (front, back) st
  unfolding to_pair
  to_pair-ok = rw is_pair-ok pair_at-ok

  pub rest-ok : rest obj st ≡ ok back st
  unfolding rest cell_ptr
  rest-ok = rw at.cell (rw pair_at-ok refl)
