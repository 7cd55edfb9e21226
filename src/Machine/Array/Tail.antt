-- ===== src/Machine/Array/Tail.antt =====
-- qz_list_tail of quuz-object.c walks to the last pair of a list.
use quuz.Prelude.{ℕ, zero, suc, ◌<◌, ◌≡◌, refl, List, [], ◌∷◌, length, arith}
use quuz.Object.Tag.{Obj, is_null, to_cell}
use quuz.Machine.Store.{State}
use quuz.Machine.Outcome.{ok}
use quuz.Machine.Cell.{cell_ptr, pair_at}
use quuz.Machine.Chain.{IsChain, is_pair-ok, pair_at-ok}
use quuz.Machine.Pairs.{is_pair-ne-null}
use quuz.Machine.Array.{list_tail_cell, list_tail_ptr, list_tail}

abbrev pub last_of : Obj → List Obj → Obj
last_of x [] = x
last_of x (y ∷ ys) = last_of y ys

list_tail_cell-last :
    (st : State) (n : ℕ) (obj x : Obj) (xs : List Obj)
    → length xs < n
    → IsChain st obj (x ∷ xs) 2
    → (p : ℕ) × (back : Obj) × (list_tail_cell n (to_cell obj) st ≡ ok p st)
      × (pair_at p st ≡ ok (last_of x xs, back) st)
unfolding list_tail_cell is_null cell_ptr
list_tail_cell-last st zero obj x xs lt chain = absurd (omega arith)
list_tail_cell-last st (suc n) obj x [] lt (next, at, end) =
    (to_cell obj, next, rw (pair_at-ok st obj x next at) (rw end refl), pair_at-ok st obj x next at)
list_tail_cell-last st (suc n) obj x (y ∷ ys) lt (next, at, more) =
    let r = list_tail_cell-last st n next y ys (omega arith) more in
    let next_at = more.1 in
    (
      r.0,
      r.1,
      rw (pair_at-ok st obj x next at)
          (rw (is_pair-ne-null st next y more.0 next_at) (rw next_at.cell r.2)),
      r.3,
    )

-- qz_list_tail of a list that ends in the empty list terminates, returns its last element and leaves the
-- state alone. The list is shorter than the heap is large.
pub list_tail-last :
    (st : State) (obj x : Obj) (xs : List Obj)
    → length xs < st.brk
    → IsChain st obj (x ∷ xs) 2
    → list_tail obj st ≡ ok (last_of x xs) st
unfolding list_tail list_tail_ptr cell_ptr
list_tail-last st obj x xs lt chain =
    let at = chain.1 in
    let r = list_tail_cell-last st st.brk obj x xs lt chain in
    rw (is_pair-ok st obj x chain.0 at) (rw at.cell (rw r.2 (rw r.3 refl)))
