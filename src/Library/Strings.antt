-- ===== src/Library/Strings.antt =====
-- quuz-lib.c, section 6.7: strings, made, compared, cut and converted.
pub mod Compare
use quuz.Prelude.{
  ℕ, zero, suc, ◌+◌, ◌-◌, ◌*◌, ◌%◌, ◌^◌, Bool, true, false, not, ◌||◌, none, some, List, [], ◌∷◌,
  map, length, replicate, take, drop, min, ltb, leb, ◌==◌, if◌then◌else◌,
}
use quuz.Prelude.Text.{codes}
use quuz.Object.Tag.{Obj, is_none, is_char, to_char, to_cell, to_fixnum, from_cell}
use quuz.Object.CellType
use quuz.Machine.Store.{bytes, uninit}
use quuz.Machine.Outcome.{M, pure, ◌>>=◌, ◌>>◌, crash}
use quuz.Machine.Cell.{make_cell, is_string, cell_ptr, first, rest}
use quuz.Machine.Array.{bytes_at}
use quuz.Collector.{unref}
use quuz.Runtime.{push_safety, qz_error}
use quuz.Eval.{Cfun}
use quuz.Eval.Args.{Kind, get_arg, get_args2, get_args3, required, optional, char, fixnum, pair}
use quuz.Library.Numbers.{
  Flags, predicate, compare_many, eq_flags, lt_flags, gt_flags, lte_flags, gte_flags,
}
use quuz.Library.Lists.{list_length}
use quuz.Library.Arrays.{transform_string}
use quuz.Library.Chars.{CType}

unfoldable pub scm_string_q : Cfun → Cfun
unfolding predicate
scm_string_q ev = predicate ev is_string

-- The bytes that fresh memory holds, by their offset.
abbrev pub Memory : Type 0
Memory = ℕ → ℕ

abbrev pub fresh_bytes : Memory → ℕ → List ℕ
fresh_bytes memory zero = []
fresh_bytes memory (suc n) = memory n ∷ fresh_bytes memory n

-- Without `fill` the string has what the memory holds, here from the last byte to the first.
unfoldable pub scm_make_string : Memory → Cfun → Cfun
unfolding get_args2 to_fixnum qz_error make_cell to_char
scm_make_string memory ev args = do
  (k, fill, _) ← get_args2 ev (required fixnum) (optional char) args
  if leb (2 ^ 63) (to_fixnum k) then qz_error (codes "bad string length") (k ∷ []) else do
    let size = to_fixnum k
    cell ← make_cell CellType.string (
        bytes size
          (if is_none fill then fresh_bytes memory size else replicate size (to_char fill)))
    pure (from_cell cell)

-- The result is an `int`.
unfoldable pub int_min : ℕ → ℕ → ℕ
int_min a b = (if ltb a b then a else b) % 2 ^ 32

-- Text compared without case, as far as both go.
unfoldable pub memicmp : CType → (s1 s2 : List ℕ) → ℕ
memicmp ct (a ∷ s1) (b ∷ s2) =
    let d = (ct.tolower a + 2 ^ 32 - ct.tolower b) % 2 ^ 32 in
    let more = memicmp ct s1 s2 in if d == 0 then more else d
memicmp ct _ _ = 0

-- `memcmp` and memicmp, on texts of one length.
abbrev pub MemcmpFun : Type 0
MemcmpFun = (s1 s2 : List ℕ) → ℕ

unfoldable pub compare_texts : MemcmpFun → (s1 s2 : List ℕ) → ℕ
unfolding int_min
compare_texts mcf s1 s2 =
    let n = int_min (length s1) (length s2) in
    let cmp = mcf (take n s1) (take n s2) in
    if cmp == 0 then (length s1 + 2 ^ 64 - length s2) % 2 ^ 64 % 2 ^ 32 else cmp

unfoldable pub compare_string : MemcmpFun → (a b : Obj) → M ℕ
unfolding cell_ptr bytes_at compare_texts
compare_string mcf a b = do
  a_cell ← cell_ptr a
  b_cell ← cell_ptr b
  s1 ← bytes_at a_cell
  s2 ← bytes_at b_cell
  pure (compare_texts mcf s1.1 s2.1)

-- With `memcmp` of the C library, and with memicmp.
unfoldable pub compare_string_cs : MemcmpFun → (a b : Obj) → M ℕ
unfolding compare_string
compare_string_cs memcmp = compare_string memcmp

unfoldable pub compare_string_ci : CType → (a b : Obj) → M ℕ
unfolding compare_string memicmp
compare_string_ci ct = compare_string (memicmp ct)

unfoldable pub scm_string_eq_q : MemcmpFun → Cfun → ℕ → Cfun
unfolding compare_many compare_string_cs
scm_string_eq_q memcmp ev n = compare_many ev is_string (compare_string_cs memcmp) eq_flags n

unfoldable pub scm_string_ci_eq_q : CType → Cfun → ℕ → Cfun
unfolding compare_many compare_string_ci
scm_string_ci_eq_q ct ev n = compare_many ev is_string (compare_string_ci ct) eq_flags n

unfoldable pub scm_string_lt_q : MemcmpFun → Cfun → ℕ → Cfun
unfolding compare_many compare_string_cs
scm_string_lt_q memcmp ev n = compare_many ev is_string (compare_string_cs memcmp) lt_flags n

unfoldable pub scm_string_ci_lt_q : CType → Cfun → ℕ → Cfun
unfolding compare_many compare_string_ci
scm_string_ci_lt_q ct ev n = compare_many ev is_string (compare_string_ci ct) lt_flags n

unfoldable pub scm_string_gt_q : MemcmpFun → Cfun → ℕ → Cfun
unfolding compare_many compare_string_cs
scm_string_gt_q memcmp ev n = compare_many ev is_string (compare_string_cs memcmp) gt_flags n

unfoldable pub scm_string_ci_gt_q : CType → Cfun → ℕ → Cfun
unfolding compare_many compare_string_ci
scm_string_ci_gt_q ct ev n = compare_many ev is_string (compare_string_ci ct) gt_flags n

unfoldable pub scm_string_lte_q : MemcmpFun → Cfun → ℕ → Cfun
unfolding compare_many compare_string_cs
scm_string_lte_q memcmp ev n = compare_many ev is_string (compare_string_cs memcmp) lte_flags n

unfoldable pub scm_string_ci_lte_q : CType → Cfun → ℕ → Cfun
unfolding compare_many compare_string_ci
scm_string_ci_lte_q ct ev n = compare_many ev is_string (compare_string_ci ct) lte_flags n

unfoldable pub scm_string_gte_q : MemcmpFun → Cfun → ℕ → Cfun
unfolding compare_many compare_string_cs
scm_string_gte_q memcmp ev n = compare_many ev is_string (compare_string_cs memcmp) gte_flags n

unfoldable pub scm_string_ci_gte_q : CType → Cfun → ℕ → Cfun
unfolding compare_many compare_string_ci
scm_string_ci_gte_q ct ev n = compare_many ev is_string (compare_string_ci ct) gte_flags n

unfoldable pub scm_string_upcase : CType → Cfun → Cfun
unfolding transform_string
scm_string_upcase ct ev = transform_string ev (λ c. ct.toupper c % 256)

unfoldable pub scm_string_downcase : CType → Cfun → Cfun
unfolding transform_string
scm_string_downcase ct ev = transform_string ev (λ c. ct.tolower c % 256)

unfoldable pub identity : ℕ → ℕ
identity i = i

unfoldable pub scm_string_copy : Cfun → Cfun
unfolding transform_string identity
scm_string_copy ev = transform_string ev identity

-- `start < 0 || end < start || size < end`, of two patterns of 64 bits
abbrev pub bad_range : (start end size : ℕ) → Bool
bad_range start end size = leb (2 ^ 63) start || leb (2 ^ 63) end || ltb end start || ltb size end

-- The size and the capacity of the new string are not set.
unfoldable pub scm_substring : Cfun → Cfun
unfolding get_args3 bytes_at to_fixnum push_safety qz_error make_cell unref
scm_substring ev args = do
  (str, start, end, _) ←
      get_args3 ev (required Kind.string) (required fixnum) (required fixnum) args
  a ← bytes_at (to_cell str)
  if bad_range (to_fixnum start) (to_fixnum end) (length a.1)
      then (do push_safety str; qz_error (codes "index out of bounds") (str ∷ start ∷ end ∷ []))
      else do out ← make_cell CellType.string uninit; unref str; pure (from_cell out)

-- The loop of scm_list_a_string; nothing reads what it writes.
unfoldable pub list_chars : (rounds : ℕ) → (list cell e : Obj) → M (Unit {0})
unfolding first rest push_safety unref qz_error
list_chars zero list cell e = pure tt
list_chars (suc rounds) list cell e = do
  ch ← first e
  (if is_char ch
      then pure tt
      else do push_safety list; unref cell; qz_error (codes "expected character") (ch ∷ []))
  e' ← rest e
  list_chars rounds list cell e'

-- Here too the size and the capacity of the new string are not set.
unfoldable pub scm_list_a_string : Cfun → Cfun
unfolding get_arg list_length push_safety qz_error make_cell list_chars unref
scm_list_a_string ev args = do
  (list, _) ← get_arg ev (required pair) args
  len ← list_length list
  elim len [
    | none ↦ do push_safety list; qz_error (codes "expected list") (list ∷ [])
    | some n ↦ do
      cell ← make_cell CellType.string uninit
      list_chars n list (from_cell cell) list
      unref list
      pure (from_cell cell)
  ]
