-- ===== src/Library/System.antt =====
-- quuz-lib.c, section 6.13.4: the system interface.
pub mod Split
use quuz.Prelude.{ℕ, ◌%◌, ◌^◌, ◌||◌, Option, none, some, List, [], ◌∷◌, length, ◌==◌, if◌then◌else◌}
use quuz.Prelude.Text.{codes}
use quuz.Object.Tag.{
  Obj, qz_null, qz_none, qz_true, qz_false, is_none, is_fixnum, to_fixnum, from_fixnum,
}
use quuz.Machine.Outcome.{M, pure, ◌>>=◌, ◌>>◌}
use quuz.Machine.Cell.{make_pair, make_string}
use quuz.Machine.Array.{make_string_with_size}
use quuz.Collector.{unref}
use quuz.Equal.{eqv}
use quuz.Runtime.{push_safety, Builder, no_elements, add_elem, qz_error}
use quuz.Eval.{Cfun}
use quuz.Eval.Args.{Kind, get_arg, required, optional, any}
use quuz.Library.Files.{Files, present, missing, unknown, c_string}

-- An error of the system about a file.
unfoldable pub file_error : (filename : Obj) → List ℕ → M Obj
unfolding push_safety qz_error
file_error filename e = do push_safety filename; qz_error e (filename ∷ [])

unfoldable pub scm_file_exists_q : Files → Cfun → Cfun
unfolding get_arg c_string file_error unref
scm_file_exists_q files ev args = do
  (filename, _) ← get_arg ev (required Kind.string) args
  path ← c_string filename
  ok ← files.stat path
  elim ok [
    | unknown e ↦ file_error filename e
    | present ↦ do unref filename; pure qz_true
    | missing ↦ do unref filename; pure qz_false
  ]

unfoldable pub scm_delete_file : Files → Cfun → Cfun
unfolding get_arg c_string file_error unref
scm_delete_file files ev args = do
  (filename, _) ← get_arg ev (required Kind.string) args
  path ← c_string filename
  failure ← files.unlink path
  elim failure [ some e ↦ file_error filename e | none ↦ do unref filename; pure qz_none ]

-- The loop of scm_command_line over the arguments.
unfoldable pub strings_list : Builder → List (List ℕ) → M Obj
unfolding make_string make_pair add_elem
strings_list b [] = pure b.result
strings_list b (s ∷ more) = do
  str ← make_string s
  inner_elem ← make_pair str qz_null
  b' ← add_elem b inner_elem
  strings_list b' more

unfoldable pub scm_command_line : Files → Cfun
unfolding strings_list
scm_command_line files args = strings_list no_elements files.argv

unfoldable pub scm_exit : Files → Cfun → Cfun
unfolding get_arg eqv to_fixnum push_safety qz_error
scm_exit files ev args = do
  (obj, _) ← get_arg ev (optional any) args
  if is_none obj || eqv obj qz_true
      then files.exit 0
      else if eqv obj qz_false
      then files.exit 1
      else if is_fixnum obj
      then files.exit (to_fixnum obj % 2 ^ 32)
      else do push_safety obj; qz_error (codes "Could not convert object to exit code") (obj ∷ [])

unfoldable pub scm_get_environment_variable : Files → Cfun → Cfun
unfolding get_arg c_string make_string
scm_get_environment_variable files ev args = do
  (name, _) ← get_arg ev (required Kind.string) args
  key ← c_string name
  elim (files.getenv key) [ none ↦ pure qz_false | some value ↦ make_string value ]

-- `strchr(e, '=')`: the texts before and after the first `=`.
unfoldable pub split_at_sep : List ℕ → Option (List ℕ × List ℕ)
split_at_sep [] = none
split_at_sep (c ∷ e) =
    let more = split_at_sep e in
    if c == b'='
    then some ([], e)
    else elim more [ none ↦ none | some (key, value) ↦ some (c ∷ key, value) ]

-- The loop of scm_get_environment_variables.
unfoldable pub variables_list : Builder → List (List ℕ) → M Obj
unfolding split_at_sep make_string_with_size make_pair add_elem
variables_list b [] = pure b.result
variables_list b (e ∷ more) = elim (split_at_sep e) [
  | none ↦ variables_list b more
  | some (k, v) ↦ do
    key ← make_string_with_size k (length k)
    value ← make_string_with_size v (length v)
    variable ← make_pair key value
    inner_elem ← make_pair variable qz_null
    b' ← add_elem b inner_elem
    variables_list b' more
]

unfoldable pub scm_get_environment_variables : Files → Cfun
unfolding variables_list
scm_get_environment_variables files args = variables_list no_elements files.environ

unfoldable pub scm_current_second : Files → Cfun
unfolding from_fixnum
scm_current_second files args = do t ← files.time; pure (from_fixnum t)
