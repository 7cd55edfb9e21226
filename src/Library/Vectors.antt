-- ===== src/Library/Vectors.antt =====
-- quuz-lib.c, sections 6.8 to 6.10: vectors and bytevectors that are made, copied or converted from
-- lists, and procedure?.
use quuz.Prelude.{
  ℕ, zero, suc, ◌+◌, ◌-◌, ◌%◌, ◌^◌, Bool, true, none, some, List, [], ◌∷◌, length, get_elem?,
  replicate, ltb, leb, if◌then◌else◌,
}
use quuz.Prelude.Text.{codes}
use quuz.Object.Tag.{Obj, qz_none, is_none, is_cfun, to_cell, to_fixnum, from_cell}
use quuz.Object.CellType
use quuz.Machine.Store.{bytes, objs, uninit}
use quuz.Machine.Outcome.{M, pure, ◌>>=◌, ◌>>◌, crash}
use quuz.Machine.Cell.{make_cell, is_vector, is_bytevector, is_fun, first, rest}
use quuz.Machine.Array.{objs_at}
use quuz.Collector.{ref, unref}
use quuz.Runtime.{push_safety, qz_error}
use quuz.Eval.{Cfun}
use quuz.Eval.Args.{Kind, get_arg, get_args, get_args2, required, optional, any, fixnum}
use quuz.Library.Numbers.{predicate}
use quuz.Library.Lists.{list_length}
use quuz.Library.Strings.{Memory, fresh_bytes}

unfoldable pub scm_vector_q : Cfun → Cfun
unfolding predicate
scm_vector_q ev = predicate ev is_vector

-- The loop of scm_make_vector that takes references of `fill`.
unfoldable pub ref_times : (rounds : ℕ) → Obj → M (Unit {0})
unfolding ref
ref_times zero obj = pure tt
ref_times (suc rounds) obj = do o ← ref obj; ref_times rounds obj

-- The new cell has the type of strings. Its elements are objects: `words` is what fresh memory holds.
unfoldable pub scm_make_vector : Memory → Cfun → Cfun
unfolding get_args2 to_fixnum unref qz_error make_cell ref_times
scm_make_vector words ev args = do
  (k, fill, _) ← get_args2 ev (required fixnum) (optional any) args
  if leb (2 ^ 63) (to_fixnum k)
      then (do unref fill; qz_error (codes "bad vector length") (k ∷ []))
      else do
        let size = to_fixnum k
        cell ←
            make_cell CellType.string
              (objs size (if is_none fill then fresh_bytes words size else replicate size fill))
        (if is_none fill then pure tt else do ref_times size fill; unref fill)
        pure (from_cell cell)

-- The loop of scm_list_a_vector; nothing reads what it writes.
unfoldable pub ref_elems : (rounds : ℕ) → (elem : Obj) → M (Unit {0})
unfolding first ref rest
ref_elems zero elem = pure tt
ref_elems (suc rounds) elem = do
  x ← first elem
  o ← ref x
  elem' ← rest elem
  ref_elems rounds elem'

-- The size and the capacity of the new vector are not set.
unfoldable pub scm_list_a_vector : Cfun → Cfun
unfolding get_arg list_length push_safety qz_error make_cell ref_elems unref
scm_list_a_vector ev args = do
  (list, _) ← get_arg ev (required any) args
  len ← list_length list
  elim len [
    | none ↦ do push_safety list; qz_error (codes "expected list") (list ∷ [])
    | some n ↦ do
      cell ← make_cell CellType.vector uninit
      ref_elems n list
      unref list
      pure (from_cell cell)
  ]

-- `a > b`, of two patterns of 64 bits
abbrev pub greater64 : ℕ → ℕ → Bool
greater64 a b = ltb ((b + 2 ^ 63) % 2 ^ 64) ((a + 2 ^ 63) % 2 ^ 64)

-- The element at `i + start`, a `size_t`, and QZ_NONE behind the end.
abbrev pub copied : List Obj → ℕ → Obj
copied xs k = elim (get_elem? xs k) [ none ↦ qz_none | some x ↦ x ]

-- The loop of scm_vector_copy: the elements of the copy from index `i` on.
unfoldable pub copy_elems : (xs : List Obj) → (start rounds i : ℕ) → M (List Obj)
unfolding ref
copy_elems xs start zero i = pure []
copy_elems xs start (suc rounds) i = do
  x ← ref (copied xs ((i + start) % 2 ^ 64))
  more ← copy_elems xs start rounds (i + 1)
  pure (x ∷ more)

-- The copy is written element by element; nothing else happens in between.
unfoldable pub copy_range : (vec start end : Obj) → (xs : List Obj) → (first last : ℕ) → M Obj
unfolding unref qz_error copy_elems make_cell
copy_range vec start end xs first last =
    if greater64 first last
    then (do unref vec; qz_error (codes "invalid range") (start ∷ end ∷ []))
    else do
      let out_len = (last + 2 ^ 64 - first) % 2 ^ 64
      ys ← copy_elems xs first out_len 0
      out ← make_cell CellType.vector (objs out_len ys)
      unref vec
      pure (from_cell out)

unfoldable pub scm_vector_copy : Cfun → Cfun
unfolding get_args objs_at to_fixnum copy_range
scm_vector_copy ev args = do
  (got, _) ←
      get_args ev (required Kind.vector ∷ optional fixnum ∷ optional fixnum ∷ optional any ∷ [])
        args
  elim got [
    | vec ∷ start ∷ end ∷ fill ∷ [] ↦ do
      a ← objs_at (to_cell vec)
      copy_range vec start end a.1 (if is_none start then 0 else to_fixnum start)
          (if is_none end then length a.1 else to_fixnum end)
    | _ ↦ crash
  ]

unfoldable pub scm_bytevector_q : Cfun → Cfun
unfolding predicate
scm_bytevector_q ev = predicate ev is_bytevector

unfoldable pub scm_make_bytevector : Memory → Cfun → Cfun
unfolding get_args2 to_fixnum qz_error make_cell
scm_make_bytevector memory ev args = do
  (k, fill, _) ← get_args2 ev (required fixnum) (optional fixnum) args
  if leb (2 ^ 63) (to_fixnum k) then qz_error (codes "bad bytevector length") (k ∷ []) else do
    let size = to_fixnum k
    cell ← make_cell CellType.bytevector (
        bytes size
          (if is_none fill then fresh_bytes memory size else replicate size (to_fixnum fill % 256)))
    pure (from_cell cell)

unfoldable pub is_procedure : Obj → M Bool
is_procedure obj = if is_cfun obj then pure true else is_fun obj

unfoldable pub scm_procedure_q : Cfun → Cfun
unfolding predicate is_procedure
scm_procedure_q ev = predicate ev is_procedure
