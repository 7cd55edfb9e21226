-- ===== src/Eval/Args.antt =====
-- qz_get_args of quuz-util.c, with type_name and is_type.
pub mod Fits
use quuz.Prelude.{ℕ, ◌+◌, Bool, true, false, not, List, [], ◌∷◌, ◌++◌, if◌then◌else◌}
use quuz.Prelude.Text.{codes, decimal}
use quuz.Object.Tag.{Obj, qz_none, is_null, is_none, is_fixnum, is_cfun, is_sym, is_bool, is_char}
use quuz.Machine.Outcome.{M, pure, ◌>>=◌, ◌>>◌, crash, skip}
use quuz.Machine.Cell.{
  is_pair, is_fun, is_promise, is_error, is_string, is_vector, is_bytevector, is_hash, is_record,
  is_port, is_real, first, rest,
}
use quuz.Collector.{ref}
use quuz.Runtime.{push_safety, pop_safety, qz_error}

-- The type specifiers.
pub data Kind : Type 0 where
  any fixnum cfun sym bool char pair fun promise error string vector bytevector hash record_type
        port real :
      Kind

unfoldable pub type_name : Kind → List ℕ
type_name any = codes "any"
type_name fixnum = codes "fixnum"
type_name cfun = codes "cfun"
type_name sym = codes "sym"
type_name bool = codes "bool"
type_name char = codes "char"
type_name pair = codes "pair"
type_name fun = codes "fun"
type_name promise = codes "promise"
type_name error = codes "error"
type_name string = codes "string"
type_name vector = codes "vector"
type_name bytevector = codes "bytevector"
type_name hash = codes "hash"
type_name record_type = codes "record"
type_name port = codes "port"
type_name real = codes "real"

unfoldable pub is_type : Obj → Kind → M Bool
is_type obj any = pure (not (is_none obj))
is_type obj fixnum = pure (is_fixnum obj)
is_type obj cfun = pure (is_cfun obj)
is_type obj sym = pure (is_sym obj)
is_type obj bool = pure (is_bool obj)
is_type obj char = pure (is_char obj)
is_type obj pair = is_pair obj
is_type obj fun = is_fun obj
is_type obj promise = is_promise obj
is_type obj error = is_error obj
is_type obj string = is_string obj
is_type obj vector = is_vector obj
is_type obj bytevector = is_bytevector obj
is_type obj hash = is_hash obj
is_type obj record_type = is_record obj
is_type obj port = is_port obj
is_type obj real = is_real obj

-- One specifier of a specification such as "ia?": a letter, `~` for an argument that is not
-- evaluated, and `?` for an optional one. The specifications in the source are literals, written
-- here as such lists.
pub record Spec : Type 0 where
  pub kind : Kind
  pub evaluated : Bool
  pub optional : Bool

-- "x", "x~" and "x?"
abbrev pub required : Kind → Spec
required k = record { kind = k; evaluated = true; optional = false }

abbrev pub quoted : Kind → Spec
quoted k = record { kind = k; evaluated = false; optional = false }

abbrev pub optional : Kind → Spec
optional k = record { kind = k; evaluated = true; optional = true }

-- One round of the loop for an argument that is there.
unfoldable pub take_arg : (Obj → M Obj) → Spec → (nargs : ℕ) → (args : Obj) → M (Obj × Obj)
unfolding first rest ref push_safety is_type qz_error
take_arg ev s nargs args = do
  expr ← first args
  args' ← rest args
  obj ← (if s.evaluated then ev expr else ref expr)
  push_safety obj
  fits ← is_type obj s.kind
  (if fits
      then skip
      else qz_error
          (codes "expected " ++ (type_name s.kind ++ (codes " at argument " ++ decimal nargs)))
          (obj ∷ []))
  pure (obj, args')

-- The loop of qz_get_args: the objects that it stores, and what `*args` is in the end. `nargs`
-- counts the arguments that were pulled.
unfoldable pub get_args_loop : (Obj → M Obj) → List Spec → ℕ → Obj → M (List Obj × Obj)
unfolding take_arg type_name qz_error pop_safety
get_args_loop ev [] nargs args = do pop_safety nargs; pure ([], args)
get_args_loop ev (s ∷ spec) nargs args = do
  more ← is_pair args
  if more
      then (do
        (obj, args') ← take_arg ev s (nargs + 1) args
        (objs, left) ← get_args_loop ev spec (nargs + 1) args'
        pure (obj ∷ objs, left))
      else (if is_null args
          then (if s.optional
              then (do (objs, left) ← get_args_loop ev spec nargs args; pure (qz_none ∷ objs, left))
              else qz_error
                  (codes "missing "
                    ++ (type_name s.kind ++ (codes " at argument " ++ decimal nargs)))
                  [])
          else qz_error (codes "improper argument list") (args ∷ []))

-- `qz_get_args`
unfoldable pub get_args : (Obj → M Obj) → List Spec → Obj → M (List Obj × Obj)
unfolding get_args_loop
get_args ev spec args = get_args_loop ev spec 0 args

-- The only object of a list, with `left`.
abbrev pub only : List Obj → Obj → M (Obj × Obj)
only (a ∷ []) left = pure (a, left)
only _ left = crash

-- Calls of it that store one, two or three objects.
unfoldable pub get_arg : (Obj → M Obj) → Spec → Obj → M (Obj × Obj)
unfolding get_args
get_arg ev s args = do (objs, left) ← get_args ev (s ∷ []) args; only objs left

unfoldable pub get_args2 : (Obj → M Obj) → (s t : Spec) → Obj → M (Obj × Obj × Obj)
unfolding get_args
get_args2 ev s t args = do
  (objs, left) ← get_args ev (s ∷ t ∷ []) args
  elim objs [ a ∷ b ∷ [] ↦ pure (a, b, left) | _ ↦ crash ]

unfoldable pub get_args3 : (Obj → M Obj) → (s t u : Spec) → Obj → M (Obj × Obj × Obj × Obj)
unfolding get_args
get_args3 ev s t u args = do
  (objs, left) ← get_args ev (s ∷ t ∷ u ∷ []) args
  elim objs [ a ∷ b ∷ c ∷ [] ↦ pure (a, b, c, left) | _ ↦ crash ]
