-- ===== src/Reader.antt =====
-- quuz-read.c: the stack on which the reader builds objects. The stack `g_stack` is passed along: a
-- function that may replace it returns it.
pub mod Actions
pub mod Chain
pub mod Elide
pub mod Numbers
pub mod Text
use quuz.Prelude.{
  ℕ, zero, suc, ◌+◌, ◌-◌, ◌*◌, ◌%◌, ◌^◌, Bool, not, ◌&&◌, Option, none, some, List, [], ◌∷◌, ◌++◌,
  length, get_elem?, take, ltb, ◌==◌, if◌then◌else◌,
}
use quuz.Prelude.Text.{codes}
use quuz.Object.Tag.{
  Obj, qz_null, qz_none, is_cell, is_null, from_bool, from_char, from_fixnum, from_cell,
}
use quuz.Object.CellType
use quuz.Object.Info.{refcount}
use quuz.Machine.Store.{Payload, bytes, objs}
use quuz.Machine.Outcome.{M, out_of_fuel, pure, ◌>>=◌, ◌>>◌, crash, assert, gets}
use quuz.Machine.Cell.{
  load, put, release_memory, make_cell, make_pair, is_pair, is_string, is_vector, cell_ptr, to_pair,
  set_first, set_rest,
}
use quuz.Machine.Array.{
  bytes_at, objs_at, malloc, read_place, write_place, vector_tail_ptr, vector_head,
}
use quuz.Collector.{ref, unref, obliterate}
use quuz.Hash.{CityHash}
use quuz.Runtime.{list_head}
use quuz.Symbol.{make_sym}

-- INITIAL_CAPACITY
abbrev pub initial_capacity : ℕ
initial_capacity = 16

unfoldable pub make_array : ℕ → Payload → M Obj
unfolding make_cell
make_array type empty = do cell ← make_cell type empty; pure (from_cell cell)

-- An array with twice the capacity and the same elements.
abbrev pub doubled : Payload → M Payload
doubled (bytes capacity xs) = pure (bytes (capacity * 2 % 2 ^ 64) xs)
doubled (objs capacity xs) = pure (objs (capacity * 2 % 2 ^ 64) xs)
doubled _ = crash

unfoldable pub grow_array : ℕ → M ℕ
unfolding load malloc release_memory
grow_array cell = do
  c ← load cell
  assert (refcount c.info == 1)
  value ← doubled c.value
  new_cell ← malloc (record { info = c.info; value = value })
  assert (new_cell % 8 == 0)
  release_memory cell
  pure new_cell

-- `if(size == capacity) { cell = grow_array(cell, ...); obj = qz_from_cell(cell); }`: the object
-- with room for one more element.
unfoldable pub with_room : Bool → Obj → M Obj
unfolding cell_ptr grow_array
with_room full obj =
    if full
    then (do cell ← cell_ptr obj; new_cell ← grow_array cell; pure (from_cell new_cell))
    else pure obj

-- `QZ_CELL_DATA(cell, char)[cell->value.array.size++] = c`, with the lines above it that make room.
unfoldable pub add_byte : Obj → ℕ → M Obj
unfolding cell_ptr bytes_at with_room put
add_byte obj c = do
  cell ← cell_ptr obj
  a ← bytes_at cell
  obj' ← with_room (length a.1 == a.0) obj
  cell' ← cell_ptr obj'
  b ← bytes_at cell'
  put cell' (bytes b.0 (b.1 ++ c ∷ []))
  pure obj'

-- The same for a vector.
unfoldable pub add_obj : Obj → Obj → M Obj
unfolding cell_ptr objs_at with_room put
add_obj obj value = do
  cell ← cell_ptr obj
  a ← objs_at cell
  obj' ← with_room (length a.1 == a.0) obj
  cell' ← cell_ptr obj'
  b ← objs_at cell'
  put cell' (objs b.0 (b.1 ++ value ∷ []))
  pure obj'

unfoldable pub concat_string : Obj → ℕ → M (Unit {0})
unfolding vector_tail_ptr read_place write_place add_byte
concat_string stack c = do
  place ← vector_tail_ptr stack
  obj ← read_place place
  obj' ← add_byte obj (c % 256)
  write_place place obj'

unfoldable pub concat_bytevector : Obj → ℕ → M (Unit {0})
unfolding vector_tail_ptr read_place write_place add_byte
concat_bytevector stack b = do
  place ← vector_tail_ptr stack
  obj ← read_place place
  obj' ← add_byte obj (b % 256)
  write_place place obj'

-- The loop of `append`: the last pair of a list.
unfoldable pub last_pair : ℕ → Obj → M Obj
unfolding to_pair
last_pair zero obj st = out_of_fuel
last_pair (suc n) obj st =
    (do m ← to_pair obj; if is_null m.1 then pure obj else last_pair n m.1) st

-- What `append` makes of the container at the top of the stack.
unfoldable pub append_to : Obj → Obj → M Obj
unfolding make_pair last_pair set_rest add_obj
append_to obj value = if is_null obj then make_pair value qz_null else (do
  pair ← is_pair obj
  vector ← is_vector obj
  if pair
      then (do
        n ← gets (λ st. st.brk)
        last ← last_pair n obj
        p ← make_pair value qz_null
        set_rest last p
        pure obj)
      else (if vector then add_obj obj value else crash))

unfoldable pub append : Obj → Obj → M (Unit {0})
unfolding vector_tail_ptr read_place append_to write_place
append stack value = do
  place ← vector_tail_ptr stack
  obj ← read_place place
  obj' ← append_to obj value
  write_place place obj'

unfoldable pub push : Obj → Obj → M Obj
unfolding add_obj
push stack obj = add_obj stack obj

-- The first lines of pop and pop_sym: take the object at the top off the stack. A string gets room
-- for a '\0' after its text.
unfoldable pub take_top : Obj → M Obj
unfolding cell_ptr objs_at read_place put bytes_at with_room
take_top stack = do
  cell ← cell_ptr stack
  a ← objs_at cell
  assert (ltb 1 (length a.1))
  obj ← read_place (record { cell = cell; index = length a.1 - 1 })
  put cell (objs a.0 (take (length a.1 - 1) a.1))
  string ← is_string obj
  (if string
      then (do text ← cell_ptr obj; t ← bytes_at text; with_room (length t.1 == t.0) obj)
      else pure obj)

unfoldable pub pop : Obj → M (Unit {0})
unfolding take_top append
pop stack = do obj ← take_top stack; append stack obj

-- The loop of elide_pair. `prev` is not set in the first round.
unfoldable pub elide_loop : ℕ → Option Obj → Obj → M (Unit {0})
unfolding to_pair set_rest set_first obliterate
elide_loop zero prev curr st = out_of_fuel
elide_loop (suc n) prev curr st =
    (do
      m ← to_pair curr
      if is_null m.1
          then elim prev [
            | none ↦ crash
            | some p ↦ do set_rest p m.0; set_first curr qz_null; obliterate curr
          ]
          else elide_loop n (some curr) m.1)
      st

-- (a b c) -> (a b . c)
unfoldable pub elide_pair : Obj → M (Unit {0})
unfolding cell_ptr objs_at read_place elide_loop
elide_pair stack = do
  cell ← cell_ptr stack
  a ← objs_at cell
  curr ← read_place (record { cell = cell; index = length a.1 - 1 })
  n ← gets (λ st. st.brk)
  elide_loop n none curr

unfoldable pub push_pair : Obj → M Obj
unfolding push
push_pair stack = push stack qz_null

unfoldable pub push_vector : Obj → M Obj
unfolding push make_array
push_vector stack = do obj ← make_array CellType.vector (objs initial_capacity []); push stack obj

unfoldable pub push_bytevector : Obj → M Obj
unfolding push make_array
push_bytevector stack = do
  obj ← make_array CellType.bytevector (bytes initial_capacity [])
  push stack obj

unfoldable pub push_string : Obj → M Obj
unfolding push make_array
push_string stack = do obj ← make_array CellType.string (bytes initial_capacity []); push stack obj

unfoldable pub append_char : Obj → ℕ → M (Unit {0})
unfolding append from_char
append_char stack c = append stack (from_char c)

unfoldable pub append_number : Obj → ℕ → M (Unit {0})
unfolding append from_fixnum
append_number stack i = append stack (from_fixnum i)

unfoldable pub append_bool : Obj → ℕ → M (Unit {0})
unfolding append from_bool
append_bool stack b = append stack (from_bool b)

-- The loop of append_sym.
unfoldable pub concat_text : Obj → List ℕ → M (Unit {0})
unfolding concat_string
concat_text stack [] = pure tt
concat_text stack (c ∷ cs) = do concat_string stack c; concat_text stack cs
