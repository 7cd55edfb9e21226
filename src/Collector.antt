-- ===== src/Collector.antt =====
-- quuz-collector.c: reference counts and the synchronous cycle collector.
--
-- A function of the source that recurs on cells is split here: the function itself, on fuel, and its
-- other half, which takes the recursive call as an argument. The fuel is one for each level of
-- recursion; the public functions give `st->brk`, which is more than the cells that exist.
pub mod Cycle
pub mod Freed
pub mod Counts
pub mod Control
use quuz.Prelude.{
  ℕ, zero, suc, ◌+◌, ◌-◌, not, ◌&&◌, none, some, List, [], ◌∷◌, ◌++◌, length, get_elem?, ltb, leb,
  ◌==◌, if◌then◌else◌,
}
use quuz.Object.Tag.{Obj, is_cell, is_null, to_cell}
use quuz.Object.Info.{refcount, cell_type, color, buffered, set_refcount, set_color, set_buffered}
use quuz.Object.CellType
use quuz.Object.Color
use quuz.Machine.Store.{objs, table, Pair}
use quuz.Machine.Outcome.{out_of_fuel, M, pure, ◌>>=◌, ◌>>◌, crash, assert, gets, modify, skip}
use quuz.Machine.Cell.{load, release_memory, update_info, pair_at}

-- QZ_ROOT_BUFFER_CAPACITY
abbrev pub root_buffer_capacity : ℕ
root_buffer_capacity = 16

abbrev pub ChildFunc : Type 0
ChildFunc = ℕ → M (Unit {0})

unfoldable pub call_if_valid_cell : Obj → ChildFunc → M (Unit {0})
call_if_valid_cell obj func = if is_cell obj && not (is_null obj) then func (to_cell obj) else skip

-- The objects of an array of pairs, in the order of the loop.
abbrev pub pair_slots : List Pair → List Obj
pair_slots [] = []
pair_slots (p ∷ ps) = p.first ∷ p.rest ∷ pair_slots ps

-- What the loops of all_children read; a cell of another shape than its type says is a fault.
unfoldable pub vector_slots : ℕ → M (List Obj)
unfolding load
vector_slots cell = do c ← load cell; elim c.value [ objs _ xs ↦ pure xs | _ ↦ crash ]

unfoldable pub hash_slots : ℕ → M (List Obj)
unfolding load
hash_slots cell = do c ← load cell; elim c.value [ table _ ps ↦ pure (pair_slots ps) | _ ↦ crash ]

-- The loops of all_children: the cell is read anew in each round, since `func` may have changed it.
unfoldable pub each_slot : M (List Obj) → ChildFunc → (rounds i : ℕ) → M (Unit {0})
unfolding call_if_valid_cell
each_slot slots func zero i = skip
each_slot slots func (suc rounds) i = do
  xs ← slots
  elim (get_elem? xs i) [ none ↦ crash | some obj ↦ call_if_valid_cell obj func ]
  each_slot slots func rounds (i + 1)

unfoldable pub pair_children : ℕ → ChildFunc → M (Unit {0})
unfolding pair_at call_if_valid_cell
pair_children cell func = do
  a ← pair_at cell
  call_if_valid_cell a.0 func
  b ← pair_at cell
  call_if_valid_cell b.1 func

unfoldable pub array_children : M (List Obj) → ChildFunc → M (Unit {0})
unfolding each_slot
array_children slots func = do xs ← slots; each_slot slots func (length xs) 0; ys ← slots; skip

unfoldable pub all_children : ℕ → ChildFunc → M (Unit {0})
unfolding load pair_children array_children vector_slots hash_slots
all_children cell func = do
  c ← load cell
  if leb (cell_type c.info) CellType.error
      then pair_children cell func
      else if cell_type c.info == CellType.vector
      then array_children (vector_slots cell) func
      else if cell_type c.info == CellType.hash
      then array_children (hash_slots cell) func
      else skip

-- `fclose` of a port's file changes nothing that is modelled.
unfoldable pub free_cell : ℕ → M (Unit {0})
unfolding release_memory
free_cell cell = release_memory cell

-- mark_roots related
unfoldable pub decr_and_mark_gray : ChildFunc → ℕ → M (Unit {0})
unfolding load update_info
decr_and_mark_gray mark cell = do
  c ← load cell
  assert (not (refcount c.info == 0))
  update_info cell (λ info. set_refcount info (refcount info - 1))
  mark cell

unfoldable pub mark_gray : ℕ → ℕ → M (Unit {0})
unfolding load update_info all_children decr_and_mark_gray
mark_gray zero cell st = out_of_fuel
mark_gray (suc n) cell st =
    (do
      c ← load cell
      if color c.info == Color.gray then skip else do
        update_info cell (λ info. set_color info Color.gray)
        all_children cell (decr_and_mark_gray (mark_gray n)))
      st

-- The loop of mark_roots: the roots that stay in the buffer, in order.
unfoldable pub mark_roots_loop : ℕ → List ℕ → M (List ℕ)
unfolding mark_gray load update_info free_cell
mark_roots_loop n [] = pure []
mark_roots_loop n (cell ∷ cells) = do
  c ← load cell
  keep ←
      (if color c.info == Color.purple then (do mark_gray n cell; pure (cell ∷ [])) else do
        update_info cell (λ info. set_buffered info 0)
        (if (color c.info == Color.black) && (refcount c.info == 0) then free_cell cell else skip)
        pure [])
  kept ← mark_roots_loop n cells
  pure (keep ++ kept)

unfoldable pub set_root_buffer : List ℕ → M (Unit {0})
set_root_buffer cells = modify (λ st. record st { root_buffer = cells })

unfoldable pub mark_roots : ℕ → M (Unit {0})
unfolding mark_roots_loop set_root_buffer
mark_roots n = do
  cells ← gets (λ st. st.root_buffer)
  kept ← mark_roots_loop n cells
  set_root_buffer kept

-- scan_roots related
unfoldable pub incr_and_scan_black : ChildFunc → ℕ → M (Unit {0})
unfolding load update_info
incr_and_scan_black black cell = do
  update_info cell (λ info. set_refcount info (refcount info + 1))
  c ← load cell
  if color c.info == Color.black then skip else black cell

unfoldable pub scan_black : ℕ → ℕ → M (Unit {0})
unfolding update_info all_children incr_and_scan_black
scan_black zero cell st = out_of_fuel
scan_black (suc n) cell st =
    (do
      update_info cell (λ info. set_color info Color.black)
      all_children cell (incr_and_scan_black (scan_black n)))
      st

unfoldable pub scan : ℕ → ℕ → M (Unit {0})
unfolding load update_info all_children scan_black
scan zero cell st = out_of_fuel
scan (suc n) cell st =
    (do
      c ← load cell
      if color c.info == Color.gray
          then (if ltb 0 (refcount c.info) then scan_black n cell else do
            update_info cell (λ info. set_color info Color.white)
            all_children cell (scan n))
          else skip)
      st

unfoldable pub for_each : ChildFunc → List ℕ → M (Unit {0})
for_each func [] = skip
for_each func (cell ∷ cells) = do func cell; for_each func cells

unfoldable pub scan_roots : ℕ → M (Unit {0})
unfolding scan for_each
scan_roots n = do cells ← gets (λ st. st.root_buffer); for_each (scan n) cells

-- collect_roots related
unfoldable pub collect_white : ℕ → ℕ → M (Unit {0})
unfolding load update_info all_children free_cell
collect_white zero cell st = out_of_fuel
collect_white (suc n) cell st =
    (do
      c ← load cell
      if (color c.info == Color.white) && (buffered c.info == 0)
          then (do
            update_info cell (λ info. set_color info Color.black)
            all_children cell (collect_white n)
            free_cell cell)
          else skip)
      st

-- The body of the first loop of collect_roots.
unfoldable pub collect_root : ℕ → ℕ → M (Unit {0})
unfolding load update_info all_children collect_white
collect_root n cell = do
  update_info cell (λ info. set_buffered info 0)
  c ← load cell
  if color c.info == Color.white
      then (do
        update_info cell (λ info. set_color info Color.black)
        all_children cell (collect_white n))
      else skip

-- The body of the second loop.
unfoldable pub free_root : ℕ → M (Unit {0})
unfolding load free_cell
free_root cell = do
  c ← load cell
  if (color c.info == Color.black) && (refcount c.info == 0) then free_cell cell else skip

unfoldable pub collect_roots : ℕ → M (Unit {0})
unfolding for_each collect_root free_root set_root_buffer
collect_roots n = do
  cells ← gets (λ st. st.root_buffer)
  for_each (collect_root n) cells
  for_each free_root cells
  set_root_buffer []

unfoldable pub collect_with : ℕ → M (Unit {0})
unfolding mark_roots scan_roots collect_roots
collect_with n = do mark_roots n; scan_roots n; collect_roots n

-- `qz_collect`
unfoldable pub collect : M (Unit {0})
unfolding collect_with
collect st = collect_with st.brk st

unfoldable pub possible_root : ℕ → M (Unit {0})
unfolding load update_info set_root_buffer collect
possible_root cell = do
  c ← load cell
  if color c.info == Color.purple then skip else do
    update_info cell (λ info. set_color info Color.purple)
    if buffered c.info == 0
        then (do
          update_info cell (λ info. set_buffered info 1)
          cells ← gets (λ st. st.root_buffer)
          assert (ltb (length cells) root_buffer_capacity)
          set_root_buffer (cells ++ cell ∷ [])
          (if length cells + 1 == root_buffer_capacity then collect else skip))
        else skip

unfoldable pub increment : ℕ → M (Unit {0})
unfolding update_info
increment cell = do
  update_info cell (λ info. set_refcount info (refcount info + 1))
  update_info cell (λ info. set_color info Color.black)

unfoldable pub release_cell : ChildFunc → ℕ → M (Unit {0})
unfolding all_children update_info load free_cell
release_cell decr cell = do
  all_children cell decr
  update_info cell (λ info. set_color info Color.black)
  c ← load cell
  if buffered c.info == 0 then free_cell cell else skip

unfoldable pub decrement : ℕ → ℕ → M (Unit {0})
unfolding load update_info release_cell possible_root
decrement zero cell st = out_of_fuel
decrement (suc n) cell st =
    (do
      c ← load cell
      assert (not (refcount c.info == 0))
      update_info cell (λ info. set_refcount info (refcount c.info - 1))
      if refcount c.info - 1 == 0 then release_cell (decrement n) cell else possible_root cell)
      st

-- `qz_ref`
unfoldable pub ref : Obj → M Obj
unfolding call_if_valid_cell increment
ref obj = do call_if_valid_cell obj increment; pure obj

-- `qz_unref`
unfoldable pub unref : Obj → M (Unit {0})
unfolding call_if_valid_cell decrement
unref obj st = call_if_valid_cell obj (decrement st.brk) st

-- `qz_obliterate`
unfoldable pub obliterate : Obj → M (Unit {0})
unfolding free_cell
obliterate obj = if is_cell obj then free_cell (to_cell obj) else skip
