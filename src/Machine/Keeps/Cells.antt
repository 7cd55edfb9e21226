-- ===== src/Machine/Keeps/Cells.antt =====
-- The accessors and constructors of cells leave the control state alone.
use quuz.Prelude.{ℕ, refl}
use quuz.Object.Tag.{Obj, is_cell, to_cell}
use quuz.Object.CellType
use quuz.Machine.Store.{Payload, pair}
use quuz.Machine.Cell.{
  put, cell_of_type, cell_ptr, first, rest, to_pair, set_rest, make_cell, make_pair,
}
use quuz.Machine.Keeps.{
  Keeps, Keeps-bind, Keeps-then, Keeps-if, Keeps-pure, Keeps-assert, Keeps-load, Keeps-store,
  Keeps-pair_at,
}

pub Keeps-put : (p : ℕ) (v : Payload) → Keeps (put p v)
unfolding put
Keeps-put p v = Keeps-bind (Keeps-load p) (λ c. Keeps-store p _)

pub Keeps-cell_of_type : (obj : Obj) (type : ℕ) → Keeps (cell_of_type obj type)
unfolding cell_of_type
Keeps-cell_of_type obj type =
    Keeps-if (is_cell obj)
      (Keeps-if _ (Keeps-pure _) (Keeps-bind (Keeps-load (to_cell obj)) (λ c. Keeps-pure _)))
      (Keeps-pure _)

pub Keeps-cell_ptr : (obj : Obj) → Keeps (cell_ptr obj)
unfolding cell_ptr
Keeps-cell_ptr obj = Keeps-then (Keeps-assert (is_cell obj)) (Keeps-pure (to_cell obj))

pub Keeps-first : (obj : Obj) → Keeps (first obj)
unfolding first
Keeps-first obj =
    Keeps-bind (Keeps-cell_ptr obj) (λ p. Keeps-bind (Keeps-pair_at p) (λ m. Keeps-pure m.0))

pub Keeps-rest : (obj : Obj) → Keeps (rest obj)
unfolding rest
Keeps-rest obj =
    Keeps-bind (Keeps-cell_ptr obj) (λ p. Keeps-bind (Keeps-pair_at p) (λ m. Keeps-pure m.1))

pub Keeps-to_pair : (obj : Obj) → Keeps (to_pair obj)
unfolding to_pair
Keeps-to_pair obj =
    Keeps-bind (Keeps-cell_of_type obj CellType.pair)
      (λ b. Keeps-then (Keeps-assert b) (Keeps-pair_at (to_cell obj)))

pub Keeps-set_rest : (obj v : Obj) → Keeps (set_rest obj v)
unfolding set_rest
Keeps-set_rest obj v = Keeps-bind (Keeps-to_pair obj) (λ m. Keeps-put (to_cell obj) _)

pub Keeps-make_cell : (type : ℕ) (value : Payload) → Keeps (make_cell type value)
unfolding make_cell
Keeps-make_cell type value = record { kept = λ st. refl }

pub Keeps-make_pair : (a b : Obj) → Keeps (make_pair a b)
unfolding make_pair
Keeps-make_pair a b = Keeps-bind (Keeps-make_cell CellType.pair (pair a b)) (λ p. Keeps-pure _)
