-- ===== src/Collector/Control.antt =====
-- The collector raises no error and leaves the control state alone.
use quuz.Prelude.{
  refl, ℕ, zero, suc, ◌+◌, Option, none, some, List, [], ◌∷◌, ◌++◌, length, get_elem?, ltb, ◌==◌,
}
use quuz.Object.Tag.{Obj, to_cell}
use quuz.Machine.Store.{State, Payload, objs, table}
use quuz.Machine.Outcome.{M, pure, crash, skip}
use quuz.Machine.Keeps.{
  Kept, Keeps, Keeps-bind, Keeps-then, Keeps-if, Keeps-pure, Keeps-crash, Keeps-fuel, Keeps-gets,
  Keeps-assert, Keeps-load, Keeps-release, Keeps-update_info, Keeps-pair_at,
}
use quuz.Collector.{
  root_buffer_capacity, ChildFunc, pair_slots, call_if_valid_cell, vector_slots, hash_slots,
  each_slot, pair_children, array_children, all_children, free_cell, decr_and_mark_gray, mark_gray,
  mark_roots_loop, set_root_buffer, mark_roots, incr_and_scan_black, scan_black, scan, for_each,
  scan_roots, collect_white, collect_root, free_root, collect_roots, collect_with, collect,
  possible_root, increment, release_cell, decrement, ref, unref,
}

-- Every call of the function keeps the control state.
abbrev pub KeepsAll : ChildFunc → Type 0
KeepsAll func = (cell : ℕ) → Keeps (func cell)

Keeps-skip : Keeps skip
Keeps-skip = Keeps-pure tt

pub call_if_valid_cell-Keeps :
    (obj : Obj) (func : ChildFunc) → KeepsAll func → Keeps (call_if_valid_cell obj func)
unfolding call_if_valid_cell
call_if_valid_cell-Keeps obj func k = Keeps-if _ (k (to_cell obj)) Keeps-skip

vector_slots-Keeps : (cell : ℕ) → Keeps (vector_slots cell)
unfolding vector_slots
vector_slots-Keeps cell = Keeps-bind (Keeps-load cell) (λ c. of_payload c.value)
  where
    of_payload : (v : Payload) → Keeps {A = List Obj} (elim v [ objs _ xs ↦ pure xs | _ ↦ crash ])
    of_payload (objs c xs) = Keeps-pure xs
    of_payload _ = Keeps-crash

hash_slots-Keeps : (cell : ℕ) → Keeps (hash_slots cell)
unfolding hash_slots
hash_slots-Keeps cell = Keeps-bind (Keeps-load cell) (λ c. of_payload c.value)
  where
    of_payload :
        (v : Payload)
        → Keeps {A = List Obj} (elim v [ table _ ps ↦ pure (pair_slots ps) | _ ↦ crash ])
    of_payload (table c ps) = Keeps-pure (pair_slots ps)
    of_payload _ = Keeps-crash

module _ (func : ChildFunc) (k : KeepsAll func) where
  slot-Keeps :
      (o : Option Obj)
      → Keeps {A = Unit {0}} (elim o [ none ↦ crash | some obj ↦ call_if_valid_cell obj func ])
  slot-Keeps none = Keeps-crash
  slot-Keeps (some obj) = call_if_valid_cell-Keeps obj func k

  each_slot-Keeps :
      (slots : M (List Obj)) → Keeps slots → (n i : ℕ) → Keeps (each_slot slots func n i)
  unfolding each_slot
  each_slot-Keeps slots s zero i = Keeps-skip
  each_slot-Keeps slots s (suc n) i =
      Keeps-bind s
        (λ xs. Keeps-then (slot-Keeps (get_elem? xs i)) (each_slot-Keeps slots s n (i + 1)))

  array_children-Keeps : (slots : M (List Obj)) → Keeps slots → Keeps (array_children slots func)
  unfolding array_children
  array_children-Keeps slots s =
      Keeps-bind s
        (λ xs. Keeps-then (each_slot-Keeps slots s (length xs) 0) (Keeps-bind s (λ ys. Keeps-skip)))

  pair_children-Keeps : (cell : ℕ) → Keeps (pair_children cell func)
  unfolding pair_children
  pair_children-Keeps cell = Keeps-bind (Keeps-pair_at cell) (λ a.
      Keeps-then (call_if_valid_cell-Keeps a.0 func k)
        (Keeps-bind (Keeps-pair_at cell) (λ b. call_if_valid_cell-Keeps b.1 func k)))

  all_children-Keeps : (cell : ℕ) → Keeps (all_children cell func)
  unfolding all_children
  all_children-Keeps cell = Keeps-bind (Keeps-load cell) (λ c.
      Keeps-if _ (pair_children-Keeps cell) (
        Keeps-if _ (array_children-Keeps _ (vector_slots-Keeps cell))
          (Keeps-if _ (array_children-Keeps _ (hash_slots-Keeps cell)) Keeps-skip)))

free_cell-Keeps : (cell : ℕ) → Keeps (free_cell cell)
unfolding free_cell
free_cell-Keeps cell = Keeps-release cell

for_each-Keeps : (func : ChildFunc) → KeepsAll func → (cells : List ℕ) → Keeps (for_each func cells)
unfolding for_each
for_each-Keeps func k [] = Keeps-skip
for_each-Keeps func k (c ∷ cells) = Keeps-then (k c) (for_each-Keeps func k cells)

set_root_buffer-Keeps : (cells : List ℕ) → Keeps (set_root_buffer cells)
unfolding set_root_buffer
set_root_buffer-Keeps cells = record { kept = λ st. refl }

decr_and_mark_gray-Keeps : (mark : ChildFunc) → KeepsAll mark → KeepsAll (decr_and_mark_gray mark)
unfolding decr_and_mark_gray
decr_and_mark_gray-Keeps mark k cell =
    Keeps-bind (Keeps-load cell)
      (λ c. Keeps-then (Keeps-assert _) (Keeps-then (Keeps-update_info cell _) (k cell)))

mark_gray-Keeps : (n cell : ℕ) → Keeps (mark_gray n cell)
unfolding mark_gray
mark_gray-Keeps zero cell = Keeps-fuel
mark_gray-Keeps (suc n) cell = Keeps-bind (Keeps-load cell) (λ c. Keeps-if _ Keeps-skip (
    Keeps-then (Keeps-update_info cell _)
      (all_children-Keeps _ (decr_and_mark_gray-Keeps (mark_gray n) (mark_gray-Keeps n)) cell)))

mark_roots_loop-Keeps : (n : ℕ) (cells : List ℕ) → Keeps (mark_roots_loop n cells)
unfolding mark_roots_loop
mark_roots_loop-Keeps n [] = Keeps-pure []
mark_roots_loop-Keeps n (cell ∷ cells) = Keeps-bind (Keeps-load cell) (λ c.
    Keeps-bind
      (Keeps-if _ (Keeps-then (mark_gray-Keeps n cell) (Keeps-pure (cell ∷ []))) (
        Keeps-then (Keeps-update_info cell _)
          (Keeps-then (Keeps-if _ (free_cell-Keeps cell) Keeps-skip) (Keeps-pure []))))
      (λ keep. Keeps-bind (mark_roots_loop-Keeps n cells) (λ kept. Keeps-pure _)))

mark_roots-Keeps : (n : ℕ) → Keeps (mark_roots n)
unfolding mark_roots
mark_roots-Keeps n =
    Keeps-bind (Keeps-gets (λ (st : State). st.root_buffer))
      (λ cells. Keeps-bind (mark_roots_loop-Keeps n cells) (λ kept. set_root_buffer-Keeps kept))

incr_and_scan_black-Keeps :
    (black : ChildFunc) → KeepsAll black → KeepsAll (incr_and_scan_black black)
unfolding incr_and_scan_black
incr_and_scan_black-Keeps black k cell =
    Keeps-then (Keeps-update_info cell _)
      (Keeps-bind (Keeps-load cell) (λ c. Keeps-if _ Keeps-skip (k cell)))

scan_black-Keeps : (n cell : ℕ) → Keeps (scan_black n cell)
unfolding scan_black
scan_black-Keeps zero cell = Keeps-fuel
scan_black-Keeps (suc n) cell =
    Keeps-then (Keeps-update_info cell _)
      (all_children-Keeps _ (incr_and_scan_black-Keeps (scan_black n) (scan_black-Keeps n)) cell)

scan-Keeps : (n cell : ℕ) → Keeps (scan n cell)
unfolding scan
scan-Keeps zero cell = Keeps-fuel
scan-Keeps (suc n) cell = Keeps-bind (Keeps-load cell) (λ c.
    Keeps-if _
      (Keeps-if _ (scan_black-Keeps n cell)
        (Keeps-then (Keeps-update_info cell _) (all_children-Keeps (scan n) (scan-Keeps n) cell)))
      Keeps-skip)

collect_white-Keeps : (n cell : ℕ) → Keeps (collect_white n cell)
unfolding collect_white
collect_white-Keeps zero cell = Keeps-fuel
collect_white-Keeps (suc n) cell = Keeps-bind (Keeps-load cell) (λ c.
    Keeps-if _
      (Keeps-then (Keeps-update_info cell _) (
        Keeps-then (all_children-Keeps (collect_white n) (collect_white-Keeps n) cell)
          (free_cell-Keeps cell)))
      Keeps-skip)

collect_root-Keeps : (n : ℕ) → KeepsAll (collect_root n)
unfolding collect_root
collect_root-Keeps n cell = Keeps-then (Keeps-update_info cell _) (
    Keeps-bind (Keeps-load cell) (λ c.
      Keeps-if _
        (Keeps-then (Keeps-update_info cell _)
          (all_children-Keeps (collect_white n) (collect_white-Keeps n) cell))
        Keeps-skip))

free_root-Keeps : KeepsAll free_root
unfolding free_root
free_root-Keeps cell =
    Keeps-bind (Keeps-load cell) (λ c. Keeps-if _ (free_cell-Keeps cell) Keeps-skip)

collect_with-Keeps : (n : ℕ) → Keeps (collect_with n)
unfolding collect_with scan_roots collect_roots
collect_with-Keeps n = Keeps-then (mark_roots-Keeps n) (
    Keeps-then
      (Keeps-bind (Keeps-gets (λ (st : State). st.root_buffer))
        (λ cells. for_each-Keeps (scan n) (scan-Keeps n) cells))
      (Keeps-bind (Keeps-gets (λ (st : State). st.root_buffer)) (λ cells.
        Keeps-then (for_each-Keeps _ (collect_root-Keeps n) cells)
          (Keeps-then (for_each-Keeps _ free_root-Keeps cells) (set_root_buffer-Keeps [])))))

collect-Keeps : Keeps collect
unfolding collect
collect-Keeps = record { kept = λ st. (collect_with-Keeps st.brk).kept st }

possible_root-Keeps : KeepsAll possible_root
unfolding possible_root
possible_root-Keeps cell = Keeps-bind (Keeps-load cell) (λ c. Keeps-if _ Keeps-skip (
    Keeps-then (Keeps-update_info cell _) (
      Keeps-if _
        (Keeps-then (Keeps-update_info cell _) (
          Keeps-bind (Keeps-gets (λ (st : State). st.root_buffer)) (λ cells.
            Keeps-then (Keeps-assert (ltb (length cells) root_buffer_capacity)) (
              Keeps-then (set_root_buffer-Keeps (cells ++ cell ∷ []))
                (Keeps-if (length cells + 1 == root_buffer_capacity) collect-Keeps Keeps-skip)))))
        Keeps-skip)))

release_cell-Keeps : (decr : ChildFunc) → KeepsAll decr → KeepsAll (release_cell decr)
unfolding release_cell
release_cell-Keeps decr k cell = Keeps-then (all_children-Keeps decr k cell) (
    Keeps-then (Keeps-update_info cell _)
      (Keeps-bind (Keeps-load cell) (λ c. Keeps-if _ (free_cell-Keeps cell) Keeps-skip)))

decrement-Keeps : (n cell : ℕ) → Keeps (decrement n cell)
unfolding decrement
decrement-Keeps zero cell = Keeps-fuel
decrement-Keeps (suc n) cell = Keeps-bind (Keeps-load cell) (λ c. Keeps-then (Keeps-assert _) (
    Keeps-then (Keeps-update_info cell _) (
      Keeps-if _ (release_cell-Keeps (decrement n) (decrement-Keeps n) cell)
        (possible_root-Keeps cell))))

increment-Keeps : KeepsAll increment
unfolding increment
increment-Keeps cell = Keeps-then (Keeps-update_info cell _) (Keeps-update_info cell _)

pub ref-Keeps : (obj : Obj) → Keeps (ref obj)
unfolding ref
ref-Keeps obj = Keeps-then (call_if_valid_cell-Keeps obj increment increment-Keeps) (Keeps-pure obj)

-- qz_unref of any object in any state, with all that it sets off (the release of children, the
-- buffering of roots and a collection of cycles), raises no error, and if it returns it leaves the
-- safety buffer, the jump target, the environment, the error handler and the error object alone.
pub unref-Keeps : (obj : Obj) (st : State) → Kept st (unref obj st)
unfolding unref
unref-Keeps obj st =
    (call_if_valid_cell-Keeps obj (decrement st.brk) (decrement-Keeps st.brk)).kept st
