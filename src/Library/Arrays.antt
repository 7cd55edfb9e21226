-- ===== src/Library/Arrays.antt =====
-- quuz-lib.c, sections 6.7 to 6.9: strings, vectors and bytevectors, and the generic array functions.
use quuz.Prelude.{
  ℕ, ◌%◌, ◌^◌, Bool, ◌||◌, none, some, List, [], ◌∷◌, map, length, get_elem?, set, leb, ◌==◌,
  if◌then◌else◌,
}
use quuz.Prelude.Text.{codes}
use quuz.Object.Tag.{
  Obj, qz_null, qz_none, is_char, to_fixnum, to_char, from_fixnum, from_char, to_cell, from_cell,
}
use quuz.Object.CellType
use quuz.Machine.Store.{bytes, objs}
use quuz.Machine.Outcome.{M, pure, ◌>>=◌, ◌>>◌, crash}
use quuz.Machine.Cell.{make_cell, make_pair, put}
use quuz.Machine.Array.{size_at, bytes_at, objs_at}
use quuz.Collector.{ref, unref}
use quuz.Runtime.{push_safety, Builder, no_elements, add_elem, qz_error}
use quuz.Eval.{Cfun}
use quuz.Eval.Args.{Kind, get_arg, get_args2, get_args3, required, any, fixnum, char}

-- `k < 0 || k >= size`, for a pattern of 64 bits
abbrev pub out_of_bounds : ℕ → ℕ → Bool
out_of_bounds k size = leb (2 ^ 63) k || leb size k

abbrev pub GetElem : Type 0
GetElem = (cell i : ℕ) → M Obj

abbrev pub SetElem : Type 0
SetElem = (cell i : ℕ) → Obj → M (Unit {0})

unfoldable pub array_ref : Cfun → Kind → GetElem → Cfun
unfolding get_args2 push_safety size_at qz_error
array_ref ev kind gef args = do
  (arr, k, _) ← get_args2 ev (required kind) (required fixnum) args
  push_safety arr
  size ← size_at (to_cell arr)
  if out_of_bounds (to_fixnum k) size
      then qz_error (codes "index out of bounds") (arr ∷ k ∷ [])
      else gef (to_cell arr) (to_fixnum k)

unfoldable pub array_set : Cfun → Kind → Kind → SetElem → Cfun
unfolding get_args3 push_safety size_at qz_error
array_set ev kind elem_kind sef args = do
  (arr, k, obj, _) ← get_args3 ev (required kind) (required fixnum) (required elem_kind) args
  push_safety arr
  size ← size_at (to_cell arr)
  if out_of_bounds (to_fixnum k) size
      then qz_error (codes "index out of bounds") (arr ∷ k ∷ [])
      else (do sef (to_cell arr) (to_fixnum k) obj; pure qz_none)

unfoldable pub string_ref : GetElem
unfolding bytes_at
string_ref cell i = do
  a ← bytes_at cell
  elim (get_elem? a.1 i) [ none ↦ crash | some c ↦ pure (from_char c) ]

unfoldable pub scm_string_ref : Cfun → Cfun
unfolding array_ref string_ref
scm_string_ref ev = array_ref ev Kind.string string_ref

unfoldable pub string_set : SetElem
unfolding bytes_at put
string_set cell i obj = do a ← bytes_at cell; put cell (bytes a.0 (set a.1 i (to_char obj)))

unfoldable pub scm_string_set_b : Cfun → Cfun
unfolding array_set string_set
scm_string_set_b ev = array_set ev Kind.string char string_set

unfoldable pub vector_ref : GetElem
unfolding objs_at ref
vector_ref cell i = do
  a ← objs_at cell
  elim (get_elem? a.1 i) [ none ↦ crash | some obj ↦ ref obj ]

unfoldable pub scm_vector_ref : Cfun → Cfun
unfolding array_ref vector_ref
scm_vector_ref ev = array_ref ev Kind.vector vector_ref

unfoldable pub vector_set : SetElem
unfolding objs_at unref put
vector_set cell i obj = do
  a ← objs_at cell
  elim (get_elem? a.1 i) [ none ↦ crash | some old ↦ unref old ]
  b ← objs_at cell
  put cell (objs b.0 (set b.1 i obj))

unfoldable pub scm_vector_set_b : Cfun → Cfun
unfolding array_set vector_set
scm_vector_set_b ev = array_set ev Kind.vector any vector_set

unfoldable pub bytevector_ref : GetElem
unfolding bytes_at
bytevector_ref cell i = do
  a ← bytes_at cell
  elim (get_elem? a.1 i) [ none ↦ crash | some b ↦ pure (from_fixnum b) ]

unfoldable pub scm_bytevector_u8_ref : Cfun → Cfun
unfolding array_ref bytevector_ref
scm_bytevector_u8_ref ev = array_ref ev Kind.bytevector bytevector_ref

unfoldable pub bytevector_set : SetElem
unfolding bytes_at put
bytevector_set cell i obj = do
  a ← bytes_at cell
  put cell (bytes a.0 (set a.1 i (to_fixnum obj % 256)))

unfoldable pub scm_bytevector_u8_set_b : Cfun → Cfun
unfolding array_set bytevector_set
scm_bytevector_u8_set_b ev = array_set ev Kind.bytevector fixnum bytevector_set

unfoldable pub array_length : Cfun → Kind → Cfun
unfolding get_arg size_at unref from_fixnum
array_length ev kind args = do
  (obj, _) ← get_arg ev (required kind) args
  len ← size_at (to_cell obj)
  unref obj
  pure (from_fixnum len)

-- `xcf` is `toupper`, `tolower` or the identity, on a `char`.
unfoldable pub transform_string : Cfun → (ℕ → ℕ) → Cfun
unfolding get_arg bytes_at make_cell unref
transform_string ev xcf args = do
  (str, _) ← get_arg ev (required Kind.string) args
  a ← bytes_at (to_cell str)
  out ← make_cell CellType.string (bytes (length a.1) (map xcf a.1))
  unref str
  pure (from_cell out)

-- The loop of scm_string_a_list.
unfoldable pub chars_list : Builder → List ℕ → M Obj
unfolding make_pair add_elem
chars_list b [] = pure b.result
chars_list b (c ∷ cs) = do
  inner_elem ← make_pair (from_char c) qz_null
  b' ← add_elem b inner_elem
  chars_list b' cs

unfoldable pub scm_string_a_list : Cfun → Cfun
unfolding get_arg bytes_at chars_list unref
scm_string_a_list ev args = do
  (str, _) ← get_arg ev (required Kind.string) args
  a ← bytes_at (to_cell str)
  result ← chars_list no_elements a.1
  unref str
  pure result

-- The loop of scm_vector_a_list; it takes references while it builds.
unfoldable pub objs_list : Builder → List Obj → M Obj
unfolding ref make_pair add_elem
objs_list b [] = pure b.result
objs_list b (x ∷ xs) = do
  o ← ref x
  inner_elem ← make_pair o qz_null
  b' ← add_elem b inner_elem
  objs_list b' xs

-- An empty vector is not released.
unfoldable pub scm_vector_a_list : Cfun → Cfun
unfolding get_arg objs_at objs_list unref
scm_vector_a_list ev args = do
  (vec, _) ← get_arg ev (required Kind.vector) args
  a ← objs_at (to_cell vec)
  if length a.1 == 0
      then pure qz_null
      else do result ← objs_list no_elements a.1; unref vec; pure result

-- The new vector is filled character by character; nothing happens in between.
unfoldable pub scm_string_a_vector : Cfun → Cfun
unfolding get_arg bytes_at make_cell unref
scm_string_a_vector ev args = do
  (str, _) ← get_arg ev (required Kind.string) args
  a ← bytes_at (to_cell str)
  out ← make_cell CellType.vector (objs (length a.1) (map from_char a.1))
  unref str
  pure (from_cell out)

-- The loop of scm_vector_a_string: the characters, or the first element that is none. In the latter
-- case the new string is released with what was written to it.
pub data Chars : Type 0 where
  chars : List ℕ → Chars
  not_char : Obj → Chars

abbrev pub cons_char : ℕ → Chars → Chars
cons_char c (chars cs) = chars (c ∷ cs)
cons_char c (not_char obj) = not_char obj

unfoldable pub to_chars : List Obj → Chars
unfolding to_char
to_chars [] = chars []
to_chars (ch ∷ obs) =
    let more = to_chars obs in if is_char ch then cons_char (to_char ch) more else not_char ch

unfoldable pub scm_vector_a_string : Cfun → Cfun
unfolding get_arg objs_at to_chars push_safety qz_error make_cell unref
scm_vector_a_string ev args = do
  (vec, _) ← get_arg ev (required Kind.vector) args
  a ← objs_at (to_cell vec)
  elim (to_chars a.1) [
    | not_char ch ↦ do
      out ← make_cell CellType.string (bytes (length a.1) [])
      push_safety vec
      unref (from_cell out)
      qz_error (codes "expected char") (ch ∷ [])
    | chars cs ↦ do
      out ← make_cell CellType.string (bytes (length cs) cs)
      unref vec
      pure (from_cell out)
  ]
