-- ===== src/Machine/Array/Laws.antt =====
-- What accesses to arrays do where the array is there, and vectors with a last element.
use quuz.Prelude.{
  ℕ, suc, ◌-◌, ◌≡◌, refl, ap, ◌∙◌, true, false, some, List, [], ◌∷◌, ◌++◌, length, get_elem?, set,
  ◌==◌, arith,
}
use quuz.Object.Tag.{Obj, is_cell, to_cell}
use quuz.Object.Info.{cell_type}
use quuz.Object.CellType
use quuz.Machine.Store.{State, bytes, objs}
use quuz.Machine.Outcome.{ok}
use quuz.Machine.Cell.{cell_of_type, cell_ptr}
use quuz.Machine.Cell.Laws.{load-ok, put-ok, with_cell, with_cell_self}
use quuz.Machine.Array.{Place, bytes_at, objs_at, fetch, read_place, write_place, vector_tail_ptr}

module _ {ℓ} {A : Type ℓ} (x : A) where
  pub get_elem?-last : (below : List A) → get_elem? (below ++ x ∷ []) (length below) ≡ some x
  get_elem?-last [] = refl
  get_elem?-last (y ∷ below) = get_elem?-last below

  pub set-last : (below : List A) (v : A) → set (below ++ x ∷ []) (length below) v ≡ below ++ v ∷ []
  set-last [] v = refl
  set-last (y ∷ below) v = ap (λ zs. y ∷ zs) (set-last below v)

  pub length-last : (below : List A) → length (below ++ x ∷ []) ≡ suc (length below)
  length-last [] = refl
  length-last (y ∷ below) = ap suc (length-last below)

pub cell_of_type-ok :
    (st : State) (obj type : ℕ) {info : ℕ} {value : _}
    → is_cell obj ≡ true
    → (to_cell obj == 0) ≡ false
    → st.heap (to_cell obj) ≡ some (record { info = info; value = value })
    → cell_of_type obj type st ≡ ok (cell_type info == type) st
unfolding cell_of_type
cell_of_type-ok st obj type cell present holds =
    rw (cell, present) (rw (load-ok st (to_cell obj) holds) refl)

pub objs_at-ok :
    (st : State) (p : ℕ) {info capacity : ℕ} {xs : List Obj}
    → st.heap p ≡ some (record { info = info; value = objs capacity xs })
    → objs_at p st ≡ ok (capacity, xs) st
unfolding objs_at
objs_at-ok st p holds = rw (load-ok st p holds) refl

pub bytes_at-ok :
    (st : State) (p : ℕ) {info capacity : ℕ} {xs : List ℕ}
    → st.heap p ≡ some (record { info = info; value = bytes capacity xs })
    → bytes_at p st ≡ ok (capacity, xs) st
unfolding bytes_at
bytes_at-ok st p holds = rw (load-ok st p holds) refl

-- `stack` is a vector of objects with `top` as the last.
pub record IsStack (st : State) (stack : Obj) (below : List Obj) (top : Obj) : Type 0 where
  pub cell : is_cell stack ≡ true
  pub present : (to_cell stack == 0) ≡ false
  pub info : ℕ
  pub capacity : ℕ
  pub holds :
      st.heap (to_cell stack)
      ≡ some (record { info = info; value = objs capacity (below ++ top ∷ []) })
  pub type : cell_type info ≡ CellType.vector

-- The stack in another state that has its cell.
pub IsStack-frame :
    (st st' : State) (stack top : Obj) (below : List Obj)
    → IsStack st stack below top
    → st'.heap (to_cell stack) ≡ st.heap (to_cell stack)
    → IsStack st' stack below top
IsStack-frame st st' stack top below at e = record {
  cell = at.cell;
  present = at.present;
  info = at.info;
  capacity = at.capacity;
  holds = e ∙ at.holds;
  type = at.type;
}

-- The state with `v` in place of the top.
abbrev pub with_top : State → (stack v : Obj) (info capacity : ℕ) → List Obj → State
with_top st stack v info capacity below =
    with_cell st (to_cell stack) (record { info = info; value = objs capacity (below ++ v ∷ []) })

pub with_top-IsStack :
    (st : State) (stack top v : Obj) (below : List Obj) (at : IsStack st stack below top)
    → IsStack (with_top st stack v at.info at.capacity below) stack below v
with_top-IsStack st stack top v below at = record {
  cell = at.cell;
  present = at.present;
  info = at.info;
  capacity = at.capacity;
  holds = with_cell_self st (to_cell stack) _;
  type = at.type;
}

abbrev pub top_place : Obj → List Obj → Place
top_place stack below = record { cell = to_cell stack; index = length below }

module _ (st : State) (stack top : Obj) (below : List Obj) (at : IsStack st stack below top) where
  pub vector_tail_ptr-ok : vector_tail_ptr stack st ≡ ok (top_place stack below) st
  unfolding vector_tail_ptr cell_ptr
  vector_tail_ptr-ok =
      rw (cell_of_type-ok st stack CellType.vector at.cell at.present at.holds, at.type)
        (rw at.cell (
          rw (objs_at-ok st (to_cell stack) at.holds)
            (rw (length-last top below, nonempty, before) refl)))
    where
      nonempty : (suc (length below) == 0) ≡ false
      nonempty = ground arith

      before : suc (length below) - 1 ≡ length below
      before = omega arith

  pub read_place-ok : read_place (top_place stack below) st ≡ ok top st
  unfolding read_place
  read_place-ok =
      rw (objs_at-ok st (to_cell stack) at.holds) (ap (λ o. fetch o st) (get_elem?-last top below))

  pub write_place-ok :
      (v : Obj)
      → write_place (top_place stack below) v st
        ≡ ok tt (with_top st stack v at.info at.capacity below)
  unfolding write_place
  write_place-ok v =
      rw (objs_at-ok st (to_cell stack) at.holds)
        (rw (set-last top below v) (put-ok st (to_cell stack) at.holds _))
