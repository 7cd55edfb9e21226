-- ===== src/Machine/Cell.antt =====
-- Memory access, and the cell functions of quuz-object.c: cell_of_type and the qz_is_* tests that
-- look into a cell, qz_make_cell and the constructors, qz_first, qz_rest and qz_to_pair.
pub mod Laws
use quuz.Prelude.{
  ℕ, ◌+◌, ◌*◌, ◌^◌, Bool, false, none, some, List, length, bit_or, ◌==◌, if◌then◌else◌,
}
use quuz.Object.Tag.{Obj, is_cell, to_cell, from_cell}
use quuz.Object.Info.{cell_type, refcount_bits}
use quuz.Object.CellType
use quuz.Machine.Store.{Cell, Payload, pair, bytes, Port, port}
use quuz.Machine.Outcome.{ok, fault, M, pure, ◌>>=◌, ◌>>◌, crash, assert}

abbrev pub update {ℓ} : {A : Type ℓ} → (ℕ → A) → ℕ → A → ℕ → A
update f p v q = if q == p then v else f q

-- The cell that a pointer leads to.
unfoldable pub load : ℕ → M Cell
load p st = elim (st.heap p) [ none ↦ fault | some c ↦ ok c st ]

unfoldable pub store : ℕ → Cell → M (Unit {0})
store p c st = elim (st.heap p) [
  | none ↦ fault
  | some _ ↦ ok tt (record st { heap = update st.heap p (some c) })
]

-- `free`
unfoldable pub release_memory : ℕ → M (Unit {0})
release_memory p st = elim (st.heap p) [
  | none ↦ fault
  | some _ ↦ ok tt (record st { heap = update st.heap p none })
]

-- An update of the `info` of a cell.
unfoldable pub update_info : ℕ → (ℕ → ℕ) → M (Unit {0})
unfolding load store
update_info p f = do c ← load p; store p (record c { info = f c.info })

-- An update of what a cell holds.
unfoldable pub put : ℕ → Payload → M (Unit {0})
unfolding load store
put p v = do c ← load p; store p (record c { value = v })

unfoldable pub cell_of_type : Obj → ℕ → M Bool
unfolding load
cell_of_type obj type =
    if is_cell obj
    then (if to_cell obj == 0
        then pure false
        else do c ← load (to_cell obj); pure (cell_type c.info == type))
    else pure false

abbrev pub is_pair : Obj → M Bool
is_pair obj = cell_of_type obj CellType.pair

abbrev pub is_fun : Obj → M Bool
is_fun obj = cell_of_type obj CellType.fun

abbrev pub is_promise : Obj → M Bool
is_promise obj = cell_of_type obj CellType.promise

abbrev pub is_error : Obj → M Bool
is_error obj = cell_of_type obj CellType.error

abbrev pub is_string : Obj → M Bool
is_string obj = cell_of_type obj CellType.string

abbrev pub is_vector : Obj → M Bool
is_vector obj = cell_of_type obj CellType.vector

abbrev pub is_bytevector : Obj → M Bool
is_bytevector obj = cell_of_type obj CellType.bytevector

abbrev pub is_hash : Obj → M Bool
is_hash obj = cell_of_type obj CellType.hash

abbrev pub is_record : Obj → M Bool
is_record obj = cell_of_type obj CellType.record_type

abbrev pub is_port : Obj → M Bool
is_port obj = cell_of_type obj CellType.port

abbrev pub is_real : Obj → M Bool
is_real obj = cell_of_type obj CellType.real

-- `malloc` and the first write of `info`. The payload that the callers of qz_make_cell write next is
-- given at once.
unfoldable pub make_cell : ℕ → Payload → M ℕ
make_cell type value st = ok st.brk (record st {
  heap =
      update st.heap st.brk
        (some (record { info = bit_or 1 (type * 2 ^ refcount_bits); value = value }));
  brk = st.brk + 8;
})

-- The size is that of the text.
unfoldable pub make_string : List ℕ → M Obj
unfolding make_cell
make_string str = do
  cell ← make_cell CellType.string (bytes (length str) str)
  pure (from_cell cell)

unfoldable pub make_pair : Obj → Obj → M Obj
unfolding make_cell
make_pair first rest = do cell ← make_cell CellType.pair (pair first rest); pure (from_cell cell)

-- The two members of `value.pair` of a cell, whatever its type says.
unfoldable pub pair_at : ℕ → M (Obj × Obj)
unfolding load
pair_at p = do c ← load p; elim c.value [ pair a b ↦ pure (a, b) | _ ↦ crash ]

-- `qz_to_cell(obj)`, with its assertion
unfoldable pub cell_ptr : Obj → M ℕ
cell_ptr obj = do assert (is_cell obj); pure (to_cell obj)

unfoldable pub first : Obj → M Obj
unfolding cell_ptr pair_at
first obj = do p ← cell_ptr obj; m ← pair_at p; pure m.0

unfoldable pub rest : Obj → M Obj
unfolding cell_ptr pair_at
rest obj = do p ← cell_ptr obj; m ← pair_at p; pure m.1

-- The assertion of qz_to_pair, and the members that the pointer gives.
unfoldable pub to_pair : Obj → M (Obj × Obj)
unfolding cell_of_type pair_at
to_pair obj = do b ← is_pair obj; assert b; pair_at (to_cell obj)

-- `qz_to_pair(obj)->first = v`
unfoldable pub set_first : Obj → Obj → M (Unit {0})
unfolding to_pair put
set_first obj v = do m ← to_pair obj; put (to_cell obj) (pair v m.1)

-- `qz_to_pair(obj)->rest = v`
unfoldable pub set_rest : Obj → Obj → M (Unit {0})
unfolding to_pair put
set_rest obj v = do m ← to_pair obj; put (to_cell obj) (pair m.0 v)

unfoldable pub to_port : Obj → M Port
unfolding cell_of_type load
to_port obj = do
  b ← is_port obj
  assert b
  c ← load (to_cell obj)
  elim c.value [ port p ↦ pure p | _ ↦ crash ]
