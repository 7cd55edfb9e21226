-- ===== src/Library/Syntax.antt =====
-- quuz-lib.c, sections 4.1 and 4.2.1: literals, procedures, conditionals and assignments.
use quuz.Prelude.{
  ℕ, zero, suc, none, some, [], ◌∷◌, not, ◌||◌, Bool, true, false, ◌&&◌, if◌then◌else◌,
}
use quuz.Prelude.Text.{codes}
use quuz.Object.Tag.{Obj, qz_null, qz_none, qz_true, qz_false, is_none, from_cell}
use quuz.Object.CellType
use quuz.Machine.Store.{pair}
use quuz.Machine.Outcome.{out_of_fuel, M, pure, ◌>>=◌, ◌>>◌, gets}
use quuz.Machine.Cell.{make_cell, make_pair}
use quuz.Collector.{ref, unref}
use quuz.Equal.{eq, eqv}
use quuz.Hash.{CityHash, read_slot, write_slot}
use quuz.Runtime.{push_safety, pop_safety, qz_error, required_arg, optional_arg, list_head, lookup}
use quuz.Eval.{Cfun}

unfoldable pub scm_quote : Cfun
unfolding required_arg ref
scm_quote args = do (obj, _) ← required_arg args; ref obj

unfoldable pub scm_lambda : Cfun
unfolding required_arg ref make_pair make_cell list_head
scm_lambda args = do
  (formals, args') ← required_arg args
  f ← ref formals
  b ← ref args'
  begin_sym ← gets (λ st. st.begin_sym)
  body ← make_pair begin_sym b
  env ← gets (λ st. st.env)
  frames ← list_head env
  e ← ref frames
  lambda ← make_pair f body
  cell ← make_cell CellType.fun (pair e lambda)
  pure (from_cell cell)

-- The first part of scm_begin's loop: `result` is the value of the last expression.
unfoldable pub begin_loop : Cfun → ℕ → (result args : Obj) → M Obj
unfolding optional_arg unref
begin_loop ev zero result args st = out_of_fuel
begin_loop ev (suc n) result args st =
    (do
      (expr, args') ← optional_arg args
      if is_none expr
          then pure result
          else do unref result; value ← ev expr; begin_loop ev n value args')
      st

unfoldable pub scm_begin : Cfun → ℕ → Cfun
unfolding begin_loop
scm_begin ev n args = begin_loop ev n qz_none args

unfoldable pub scm_if : Cfun → Cfun
unfolding required_arg optional_arg unref
scm_if ev args = do
  (test, args') ← required_arg args
  (consequent, args'') ← required_arg args'
  (alternate, _) ← optional_arg args''
  test_result ← ev test
  if eq test_result qz_false then ev alternate else do unref test_result; ev consequent

unfoldable pub scm_and_loop : Cfun → ℕ → (result args : Obj) → M Obj
unfolding optional_arg unref
scm_and_loop ev zero result args st = out_of_fuel
scm_and_loop ev (suc n) result args st =
    (do
      (test, args') ← optional_arg args
      if is_none test then pure result else do
        unref result
        value ← ev test
        (if eq value qz_false then pure qz_false else scm_and_loop ev n value args'))
      st

unfoldable pub scm_and : Cfun → ℕ → Cfun
unfolding scm_and_loop
scm_and ev n args = scm_and_loop ev n qz_true args

unfoldable pub scm_or : Cfun → ℕ → Cfun
unfolding optional_arg
scm_or ev zero args st = out_of_fuel
scm_or ev (suc n) args st =
    (do
      (test, args') ← optional_arg args
      if is_none test then pure qz_false else do
        result ← ev test
        (if not (eq result qz_false) then pure result else scm_or ev n args'))
      st

unfoldable pub scm_when : Cfun → ℕ → Cfun
unfolding required_arg unref scm_begin
scm_when ev n args = do
  (test, args') ← required_arg args
  result ← ev test
  if eq result qz_false
      then pure qz_none
      else do unref result; value ← scm_begin ev n args'; unref value; pure qz_none

unfoldable pub scm_unless : Cfun → ℕ → Cfun
unfolding required_arg unref scm_begin
scm_unless ev n args = do
  (test, args') ← required_arg args
  result ← ev test
  if not (eq result qz_false)
      then (do unref result; pure qz_none)
      else do value ← scm_begin ev n args'; unref value; pure qz_none

-- The call of the function after `=>`, in cond and in case.
unfoldable pub call_arrow : Cfun → (result clause : Obj) → M Obj
unfolding push_safety required_arg pop_safety ref make_pair unref
call_arrow ev result clause = do
  push_safety result
  (fun, _) ← required_arg clause
  pop_safety 1
  f ← ref fun
  arg ← make_pair result qz_null
  fun_call ← make_pair f arg
  push_safety fun_call
  value ← ev fun_call
  pop_safety 1
  unref fun_call
  pure value

-- How the search of cond for a clause ends: without one, or at a clause whose test gave `result`.
pub data Clause : Type 0 where
  missing : Clause
  found : (clause result : Obj) → Clause

unfoldable pub cond_search : Cfun → ℕ → (result args : Obj) → M Clause
unfolding optional_arg required_arg
cond_search ev zero result args st = out_of_fuel
cond_search ev (suc n) result args st =
    (do
      (clause, args') ← optional_arg args
      if is_none clause then pure missing else do
        (test, clause') ← required_arg clause
        else_sym ← gets (λ st. st.else_sym)
        (if eq test else_sym then pure (found clause' result) else do
          value ← ev test
          (if not (eq value qz_false)
              then pure (found clause' value)
              else cond_search ev n value args')))
      st

-- The last loop of cond: `expr` is evaluated next.
unfoldable pub cond_exprs : Cfun → ℕ → (result expr clause : Obj) → M Obj
unfolding unref optional_arg
cond_exprs ev zero result expr clause st = out_of_fuel
cond_exprs ev (suc n) result expr clause st =
    (do
      unref result
      value ← ev expr
      (expr', clause') ← optional_arg clause
      if is_none expr' then pure value else cond_exprs ev n value expr' clause')
      st

unfoldable pub scm_cond : Cfun → ℕ → Cfun
unfolding cond_search optional_arg call_arrow cond_exprs
scm_cond ev n args = do
  search ← cond_search ev n qz_none args
  elim search [
    | missing ↦ pure qz_none
    | found clause result ↦ do
      (expr, clause') ← optional_arg clause
      arrow_sym ← gets (λ st. st.arrow_sym)
      (if is_none expr
          then pure result
          else if eq expr arrow_sym
          then call_arrow ev result clause'
          else cond_exprs ev n result expr clause')
  ]

-- The inner loop of case: whether a datum of the list is eqv to `result`.
unfoldable pub case_match : ℕ → (result datum_list : Obj) → M Bool
unfolding optional_arg
case_match zero result datum_list st = out_of_fuel
case_match (suc n) result datum_list st =
    (do
      (datum, datum_list') ← optional_arg datum_list
      if is_none datum
          then pure false
          else if eqv datum result
          then pure true
          else case_match n result datum_list')
      st

-- The outer loop: the clause, without its data, or none.
unfoldable pub case_search : ℕ → (result args : Obj) → M Obj
unfolding optional_arg required_arg case_match
case_search zero result args st = out_of_fuel
case_search (suc n) result args st =
    (do
      (clause, args') ← optional_arg args
      else_sym ← gets (λ st. st.else_sym)
      if is_none clause || eq clause else_sym then pure clause else do
        (datum_list, clause') ← required_arg clause
        hit ← case_match n result datum_list
        (if hit && not (is_none clause') then pure clause' else case_search n result args'))
      st

unfoldable pub case_exprs : Cfun → ℕ → (result expr clause : Obj) → M Obj
unfolding unref optional_arg
case_exprs ev zero result expr clause st = out_of_fuel
case_exprs ev (suc n) result expr clause st =
    (do
      if is_none expr then pure result else do
        unref result
        value ← ev expr
        (expr', clause') ← optional_arg clause
        case_exprs ev n value expr' clause')
      st

unfoldable pub scm_case : Cfun → ℕ → Cfun
unfolding required_arg case_search unref optional_arg call_arrow case_exprs
scm_case ev n args = do
  (key, args') ← required_arg args
  result ← ev key
  clause ← case_search n result args'
  if is_none clause then (do unref result; pure qz_none) else do
    (expr, clause') ← optional_arg clause
    arrow_sym ← gets (λ st. st.arrow_sym)
    (if eq expr arrow_sym
        then call_arrow ev result clause'
        else case_exprs ev n result expr clause')

module _ ⦃city : CityHash⦄ where
  -- The slot is found before the value is evaluated, and written after.
  unfoldable pub scm_set_b : Cfun → Cfun
  unfolding required_arg lookup qz_error read_slot unref write_slot
  scm_set_b ev args = do
    (var, args') ← required_arg args
    (expr, _) ← required_arg args'
    slot ← lookup var
    elim slot [
      | none ↦ qz_error (codes "unbound variable in set!") (var ∷ [])
      | some s ↦ do value ← ev expr; old ← read_slot s; unref old; write_slot s value; pure qz_none
    ]
