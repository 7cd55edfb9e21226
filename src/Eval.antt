-- ===== src/Eval.antt =====
-- The evaluator of quuz-state.c: call_function, qz_eval and qz_peval; and of quuz-util.c qz_eval_list
-- and qz_get_args.
--
-- The library functions of quuz-lib.c call back into the evaluator. They are written over an
-- evaluator `ev`, which stands for their calls of qz_eval, and the evaluator is written over the
-- library, a table that takes a function's address. `eval` ties the knot on fuel: each nested call of
-- qz_eval has one less, and so have the loops that evaluate as they go.
pub mod Balance
pub mod Args
pub mod Protect
use quuz.Prelude.{
  ℕ, zero, suc, Bool, true, false, Option, none, some, List, [], ◌∷◌, not, ◌==◌, if◌then◌else◌,
}
use quuz.Prelude.Text.{codes}
use quuz.Object.Tag.{Obj, qz_null, qz_none, is_null, is_none, is_sym, is_cfun, to_cfun, from_cfun}
use quuz.Machine.Store.{State}
use quuz.Machine.Outcome.{
  Outcome, ok, thrown, fault, out_of_fuel, M, pure, and_then, ◌>>=◌, ◌>>◌, gets, modify, skip,
}
use quuz.Machine.Cell.{is_pair, is_fun, make_pair, first, rest, to_pair}
use quuz.Collector.{ref, unref}
use quuz.Hash.{CityHash, make_hash, hash_set, read_slot}
use quuz.Runtime.{
  push_safety, pop_safety, safety_size, cleanup_safety_buffer, Builder, no_elements, add_elem,
  qz_error, required_arg, lookup,
}

-- A `qz_cfun_t`: a function from its unevaluated arguments. An evaluator has the same type.
abbrev pub Cfun : Type 0
Cfun = Obj → M Obj

-- The function at an address, over an evaluator for its calls of qz_eval, and fuel for its loops.
abbrev pub Library : Type 0
Library = Cfun → ℕ → ℕ → Cfun

abbrev pub set_env : Obj → M (Unit {0})
set_env env = modify (λ st. record st { env = env })

-- The loop of qz_eval_list.
unfoldable pub eval_list_loop : Cfun → ℕ → Builder → Obj → M Obj
unfolding first rest push_safety pop_safety make_pair add_elem
eval_list_loop ev zero b list st = out_of_fuel
eval_list_loop ev (suc n) b list st =
    (do
      more ← is_pair list
      if more
          then (do
            expr ← first list
            list' ← rest list
            push_safety b.result
            value ← ev expr
            pop_safety 1
            inner_elem ← make_pair value qz_null
            b' ← add_elem b inner_elem
            eval_list_loop ev n b' list')
          else pure b.result)
      st

-- `qz_eval_list`
unfoldable pub eval_list : Cfun → ℕ → Obj → M Obj
unfolding eval_list_loop
eval_list ev n list = eval_list_loop ev n no_elements list

module _ ⦃city : CityHash⦄ where
  -- The loop of call_function over the parameters; the frame, and the parameters and arguments that
  -- are left.
  unfoldable pub bind_params : Cfun → ℕ → (frame params args : Obj) → M (Obj × Obj × Obj)
  unfolding first rest to_pair unref qz_error push_safety pop_safety hash_set
  bind_params ev zero frame params args st = out_of_fuel
  bind_params ev (suc n) frame params args st =
      (do
        more ← is_pair params
        if not more then pure (frame, params, args) else do
          param ← first params
          m ← to_pair params
          (if is_sym param then skip else do
            unref frame
            qz_error (codes "function parameter is not a symbol") (param ∷ []))
          given ← is_pair args
          (if given
              then skip
              else do unref frame; qz_error (codes "not enough arguments to function") [])
          expr ← first args
          args' ← rest args
          push_safety frame
          arg ← ev expr
          pop_safety 1
          frame' ← hash_set frame param arg
          bind_params ev n frame' m.1 args')
        st

  -- What follows the loop: the parameter for the remaining arguments, if there is one.
  unfoldable pub bind_rest : Cfun → ℕ → (frame params args : Obj) → M Obj
  unfolding push_safety pop_safety eval_list hash_set unref qz_error
  bind_rest ev n frame params args =
      if is_null params
      then pure frame
      else if is_sym params
      then (do
        push_safety frame
        rest_args ← eval_list ev n args
        pop_safety 1
        hash_set frame params rest_args)
      else (do unref frame; qz_error (codes "invalid function formals") (params ∷ []))

  -- Evaluate `body` with `frame` on top of the frames `env`, as a new innermost environment.
  unfoldable pub eval_in_frame : Cfun → (frame env body : Obj) → M Obj
  unfolding ref make_pair push_safety pop_safety unref
  eval_in_frame ev frame env body = do
    old_env ← gets (λ st. st.env)
    e ← ref env
    inner ← make_pair frame e
    o ← ref old_env
    new_env ← make_pair inner o
    set_env new_env
    push_safety new_env
    result ← ev body
    pop_safety 1
    now ← gets (λ st. st.env)
    unref now
    set_env old_env
    pure result

  unfoldable pub call_function : Cfun → ℕ → (fun args : Obj) → M Obj
  unfolding first rest make_hash bind_params bind_rest eval_in_frame
  call_function ev n fun args = do
    env ← first fun
    lambda ← rest fun
    params ← first lambda
    body ← rest lambda
    frame ← make_hash
    (frame', params', args') ← bind_params ev n frame params args
    frame'' ← bind_rest ev n frame' params' args'
    eval_in_frame ev frame'' env body

  -- What qz_eval does with a pair, once it has the function.
  unfoldable pub apply_value : Library → Cfun → ℕ → (fun args : Obj) → M Obj
  unfolding push_safety pop_safety call_function unref cleanup_safety_buffer qz_error
  apply_value lib ev n fun args = do
    closure ← is_fun fun
    if closure
        then (do
          push_safety fun
          result ← call_function ev n fun args
          pop_safety 1
          unref fun
          pure result)
        else (if is_cfun fun
            then (do
              old_size ← safety_size
              result ← lib ev n (to_cfun fun) args
              cleanup_safety_buffer old_size
              pure result)
            else (do push_safety fun; qz_error (codes "uncallable value") (fun ∷ [])))

  unfoldable pub eval_variable : Obj → M Obj
  unfolding lookup qz_error read_slot ref
  eval_variable obj = do
    slot ← lookup obj
    elim slot [
      | none ↦ qz_error (codes "unbound variable") (obj ∷ [])
      | some s ↦ read_slot s >>= ref
    ]

  -- What qz_eval does with anything but a pair.
  unfoldable pub eval_atom : Cfun
  unfolding eval_variable qz_error ref
  eval_atom obj =
      if is_sym obj
      then eval_variable obj
      else if is_null obj
      then qz_error (codes "cannot evaluate null") []
      else if is_none obj
      then qz_error (codes "cannot evaluate unspecified value") []
      else ref obj

  -- `qz_eval`
  unfoldable pub eval : Library → ℕ → Cfun
  unfolding required_arg apply_value eval_atom
  eval lib zero obj st = out_of_fuel
  eval lib (suc n) obj st =
      (do
        call ← is_pair obj
        if call
            then (do
              (head, args) ← required_arg obj
              fun ← eval lib n head
              apply_value lib (eval lib n) n fun args)
            else eval_atom obj)
        st

module _ (ev : Cfun) (handler : Obj) where
  -- What qz_peval does after an error. `handler` is the failsafe handler, and `again` the recursive
  -- call.
  unfoldable pub handle_error : Cfun → ℕ → M Obj
  unfolding ref make_pair unref cleanup_safety_buffer
  handle_error again old_size = do
    old_handler ← gets (λ st. st.error_handler)
    result ←
        (if is_none old_handler then pure qz_none else do
          modify (λ st. record st { error_handler = handler })
          h ← ref old_handler
          error_obj ← gets (λ st. st.error_obj)
          args ← make_pair error_obj qz_null
          handler_call ← make_pair h args
          modify (λ st. record st { error_obj = qz_none })
          r ← again handler_call
          unref handler_call
          modify (λ st. record st { error_handler = old_handler })
          pure r)
    cleanup_safety_buffer old_size
    pure result

  -- The `setjmp` of qz_peval: an error of `run` goes on in `recover`.
  abbrev pub catch : {A : Type 0} → Outcome A → M A → Outcome A
  catch (ok a st) recover = ok a st
  catch (thrown st) recover = recover st
  catch fault recover = fault
  catch out_of_fuel recover = out_of_fuel

  -- `qz_peval`, over the evaluator `ev`.
  unfoldable pub peval : ℕ → Cfun
  unfolding unref handle_error
  peval zero obj st = out_of_fuel
  peval (suc n) obj st =
      (do
        old_peval_fail ← gets (λ st. st.peval_fail)
        modify (λ st. record st { peval_fail = true })
        old_size ← safety_size
        error_obj ← gets (λ st. st.error_obj)
        unref error_obj
        modify (λ st. record st { error_obj = qz_none })
        result ← (λ st. catch (ev obj st) (handle_error (peval n) old_size))
        modify (λ st. record st { peval_fail = old_peval_fail })
        pure result)
        st
