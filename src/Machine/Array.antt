-- ===== src/Machine/Array.antt =====
-- Arrays in the heap: the elements of strings, bytevectors and vectors, and of quuz-object.c
-- qz_make_string_with_size, the ends of lists and of vectors, as places.
pub mod Laws
pub mod Tail
use quuz.Prelude.{
  ℕ, zero, suc, ◌+◌, ◌-◌, not, Option, none, some, List, length, get_elem?, set, take, ◌==◌,
  if◌then◌else◌,
}
use quuz.Object.Tag.{Obj, is_null, from_cell}
use quuz.Object.CellType
use quuz.Machine.Store.{Cell, Payload, bytes, objs}
use quuz.Machine.Outcome.{ok, out_of_fuel, M, pure, ◌>>=◌, ◌>>◌, crash, assert}
use quuz.Machine.Cell.{load, put, update, make_cell, is_pair, is_vector, cell_ptr, pair_at}

-- `value.array.size`
abbrev array_size : Payload → M ℕ
array_size (bytes _ xs) = pure (length xs)
array_size (objs _ xs) = pure (length xs)
array_size _ = crash

unfoldable pub size_at : ℕ → M ℕ
unfolding load
size_at cell = do c ← load cell; array_size c.value

-- The elements, with the capacity.
unfoldable pub bytes_at : ℕ → M (ℕ × List ℕ)
unfolding load
bytes_at cell = do
  c ← load cell
  elim c.value [ bytes capacity xs ↦ pure (capacity, xs) | _ ↦ crash ]

unfoldable pub objs_at : ℕ → M (ℕ × List Obj)
unfolding load
objs_at cell = do c ← load cell; elim c.value [ objs capacity xs ↦ pure (capacity, xs) | _ ↦ crash ]

-- `malloc`, with a cell that the caller writes in full.
unfoldable pub malloc : Cell → M ℕ
malloc c st = ok st.brk (record st { heap = update st.heap st.brk (some c); brk = st.brk + 8 })

-- `qz_make_string_with_size`
unfoldable pub make_string_with_size : List ℕ → ℕ → M Obj
unfolding make_cell
make_string_with_size str size = do
  cell ← make_cell CellType.string (bytes size (take size str))
  pure (from_cell cell)

-- A pointer to an element of a vector.
pub record Place : Type 0 where
  pub cell : ℕ
  pub index : ℕ

-- An element read from an array; beyond the size there is none.
abbrev pub fetch : Option Obj → M Obj
fetch none = crash
fetch (some obj) = pure obj

-- `*place`
unfoldable pub read_place : Place → M Obj
unfolding objs_at
read_place p = do a ← objs_at p.cell; fetch (get_elem? a.1 p.index)

-- `*place = obj`
unfoldable pub write_place : Place → Obj → M (Unit {0})
unfolding objs_at put
write_place p obj = do a ← objs_at p.cell; put p.cell (objs a.0 (set a.1 p.index obj))

unfoldable pub vector_head_ptr : Obj → M Place
unfolding cell_ptr objs_at
vector_head_ptr obj = do
  b ← is_vector obj
  assert b
  cell ← cell_ptr obj
  a ← objs_at cell
  assert (not (length a.1 == 0))
  pure (record { cell = cell; index = 0 })

unfoldable pub vector_tail_ptr : Obj → M Place
unfolding cell_ptr objs_at
vector_tail_ptr obj = do
  b ← is_vector obj
  assert b
  cell ← cell_ptr obj
  a ← objs_at cell
  assert (not (length a.1 == 0))
  pure (record { cell = cell; index = length a.1 - 1 })

unfoldable pub vector_head : Obj → M Obj
unfolding vector_head_ptr read_place
vector_head obj = do p ← vector_head_ptr obj; read_place p

unfoldable pub vector_tail : Obj → M Obj
unfolding vector_tail_ptr read_place
vector_tail obj = do p ← vector_tail_ptr obj; read_place p

-- The loop of qz_list_tail_ptr, from a cell to the last one.
unfoldable pub list_tail_cell : ℕ → ℕ → M ℕ
unfolding pair_at cell_ptr
list_tail_cell zero cell st = out_of_fuel
list_tail_cell (suc n) cell st =
    (do
      m ← pair_at cell
      if is_null m.1 then pure cell else (do next ← cell_ptr m.1; list_tail_cell n next))
      st

-- qz_list_tail_ptr: the cell whose `first` the pointer leads to.
unfoldable pub list_tail_ptr : ℕ → Obj → M ℕ
unfolding cell_ptr list_tail_cell
list_tail_ptr n obj = do b ← is_pair obj; assert b; cell ← cell_ptr obj; list_tail_cell n cell

-- `qz_list_tail`: the last element.
unfoldable pub list_tail : Obj → M Obj
unfolding list_tail_ptr pair_at
list_tail obj st = (do cell ← list_tail_ptr st.brk obj; m ← pair_at cell; pure m.0) st
