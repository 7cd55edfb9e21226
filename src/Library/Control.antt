-- ===== src/Library/Control.antt =====
-- quuz-lib.c, sections 6.10 to 6.12: apply, exceptions and eval.
use quuz.Prelude.{ℕ, zero, suc, not, [], ◌∷◌, if◌then◌else◌}
use quuz.Prelude.Text.{codes}
use quuz.Object.Tag.{Obj, qz_null, qz_none, from_cell}
use quuz.Object.CellType
use quuz.Machine.Store.{pair}
use quuz.Machine.Outcome.{out_of_fuel, M, pure, ◌>>=◌, ◌>>◌, gets, modify}
use quuz.Machine.Cell.{is_pair, make_cell, make_pair, first, rest}
use quuz.Collector.{ref, unref}
use quuz.Hash.{CityHash}
use quuz.Writer.{CLibrary}
use quuz.Writer.Printf.{printf}
use quuz.Runtime.{
  optional_arg, push_safety, pop_safety, Builder, no_elements, add_elem, qz_error, throw,
  required_arg,
}
use quuz.Eval.{Cfun, eval_list, peval}
use quuz.Eval.Args.{Kind, get_arg, get_args2, required, any}

-- The loop of scm_apply: the function and the arguments as they are written, and the value of the
-- last one as the rest of the list.
unfoldable pub apply_loop : Cfun → ℕ → Builder → (args : Obj) → M Obj
unfolding first rest push_safety pop_safety add_elem ref make_pair
apply_loop ev zero b args st = out_of_fuel
apply_loop ev (suc n) b args st =
    (do
      arg ← first args
      args' ← rest args
      more ← is_pair args'
      if not more
          then (do
            push_safety b.result
            value ← ev arg
            pop_safety 1
            b' ← add_elem b value
            pure b'.result)
          else do
            a ← ref arg
            inner_elem ← make_pair a qz_null
            b' ← add_elem b inner_elem
            apply_loop ev n b' args')
      st

unfoldable pub scm_apply : Cfun → ℕ → Cfun
unfolding qz_error apply_loop push_safety pop_safety unref
scm_apply ev n args = do
  given ← is_pair args
  if not given then qz_error (codes "expected pair") (args ∷ []) else do
    fun_call ← apply_loop ev n no_elements args
    push_safety fun_call
    result ← ev fun_call
    pop_safety 1
    unref fun_call
    pure result

unfoldable pub set_error_handler : Obj → M (Unit {0})
set_error_handler handler = modify (λ st. record st { error_handler = handler })

-- `failsafe` is the failsafe handler that qz_peval installs.
unfoldable pub scm_with_exception_handler : (failsafe : Obj) → Cfun → ℕ → Cfun
unfolding get_args2 make_pair set_error_handler peval unref
scm_with_exception_handler failsafe ev n args = do
  (handler, thunk, _) ← get_args2 ev (required any) (required any) args
  call ← make_pair thunk qz_null
  old_handler ← gets (λ st. st.error_handler)
  set_error_handler handler
  result ← peval ev failsafe n call
  set_error_handler old_handler
  unref handler
  unref call
  pure result

unfoldable pub scm_raise : Cfun → Cfun
unfolding get_arg throw
scm_raise ev args = do
  (obj, _) ← get_arg ev (required any) args
  modify (λ st. record st { error_obj = obj })
  throw

unfoldable pub scm_error : Cfun → ℕ → Cfun
unfolding get_arg push_safety eval_list pop_safety make_cell throw
scm_error ev n args = do
  (message, args') ← get_arg ev (required Kind.string) args
  push_safety message
  irritants ← eval_list ev n args'
  pop_safety 1
  cell ← make_cell CellType.error (pair message irritants)
  modify (λ st. record st { error_obj = from_cell cell })
  throw

unfoldable pub scm_error_object_message : Cfun → Cfun
unfolding get_arg first ref
scm_error_object_message ev args = do
  (obj, _) ← get_arg ev (required Kind.error) args
  m ← first obj
  ref m

unfoldable pub scm_error_object_irritants : Cfun → Cfun
unfolding get_arg rest ref
scm_error_object_irritants ev args = do
  (obj, _) ← get_arg ev (required Kind.error) args
  r ← rest obj
  ref r

unfoldable pub scm_eval : Cfun → Cfun
unfolding required_arg
scm_eval ev args = do (expr, _) ← required_arg args; ev expr

-- The default handler, which is also the failsafe.
unfoldable pub qz_error_handler : ⦃city : CityHash⦄ → CLibrary → ℕ → Cfun
unfolding optional_arg printf
qz_error_handler libc n args = do
  (obj, _) ← optional_arg args
  out ← gets (λ st. st.error_port)
  printf libc n out (codes "An error was caught: %w\n") (obj ∷ [])
  pure qz_none
