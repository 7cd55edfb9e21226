-- ===== src/Library/Binding.antt =====
-- quuz-lib.c, sections 4.2.2 to 4.2.5 and 5.2: binding constructs, promises and definitions.
pub mod Define
use quuz.Prelude.{ℕ, zero, suc, [], ◌∷◌, not, if◌then◌else◌}
use quuz.Prelude.Text.{codes}
use quuz.Object.Tag.{Obj, qz_none, is_none, is_sym, to_cell, from_cell}
use quuz.Object.CellType
use quuz.Machine.Store.{pair}
use quuz.Machine.Outcome.{out_of_fuel, M, pure, ◌>>=◌, ◌>>◌, gets, skip}
use quuz.Machine.Cell.{
  is_pair, is_promise, make_cell, make_pair, cell_ptr, pair_at, first, put, to_pair, set_first,
}
use quuz.Machine.Outcome.{assert}
use quuz.Collector.{ref, unref}
use quuz.Hash.{CityHash, make_hash, hash_set}
use quuz.Runtime.{push_safety, pop_safety, qz_error, required_arg, optional_arg, list_head}
use quuz.Eval.{Cfun, set_env}
use quuz.Eval.Args.{get_arg, required, promise, any}
use quuz.Library.Syntax.{scm_begin}

-- Push an environment, evaluate with `body`, and pop it: the end of let and let*, and of force.
unfoldable pub pop_env : (old_env : Obj) → M (Unit {0})
unfolding pop_safety unref
pop_env old_env = do pop_safety 1; env ← gets (λ st. st.env); unref env; set_env old_env

unfoldable pub scm_delay : Cfun
unfolding required_arg list_head first ref make_cell
scm_delay args = do
  (expr, _) ← required_arg args
  env ← gets (λ st. st.env)
  frames ← first env
  e ← ref frames
  x ← ref expr
  cell ← make_cell CellType.promise (pair e x)
  pure (from_cell cell)

unfoldable pub scm_lazy : Cfun → Cfun
unfolding get_arg
scm_lazy ev args = do (obj, _) ← get_arg ev (required promise) args; pure obj

-- `pair` of scm_force: the members of the promise, read through the pointer each time.
abbrev pub promise_at : Obj → M (Obj × Obj)
promise_at obj = pair_at (to_cell obj)

unfoldable pub scm_force : Cfun → Cfun
unfolding get_arg pair_at ref unref push_safety make_pair pop_env put pop_safety
scm_force ev args = do
  (obj, _) ← get_arg ev (required promise) args
  is ← is_promise obj
  assert is
  p ← promise_at obj
  if is_none p.0 then (do result ← ref p.1; unref obj; pure result) else do
    push_safety obj
    old_env ← gets (λ st. st.env)
    e ← ref p.0
    o ← ref old_env
    env ← make_pair e o
    set_env env
    push_safety env
    q ← promise_at obj
    result ← ev q.1
    pop_env old_env
    a ← promise_at obj
    unref a.0
    b ← promise_at obj
    unref b.1
    r ← ref result
    put (to_cell obj) (pair qz_none r)
    pop_safety 1
    unref obj
    pure result

unfoldable pub scm_eager : Cfun → Cfun
unfolding get_arg make_cell
scm_eager ev args = do
  (obj, _) ← get_arg ev (required any) args
  cell ← make_cell CellType.promise (pair qz_none obj)
  pure (from_cell cell)

module _ ⦃city : CityHash⦄ where
  -- The loop of scm_let over its bindings; the result is the frame.
  unfoldable pub let_bindings : Cfun → ℕ → (frame bindings : Obj) → M Obj
  unfolding optional_arg push_safety required_arg qz_error hash_set pop_safety
  let_bindings ev zero frame bindings st = out_of_fuel
  let_bindings ev (suc n) frame bindings st =
      (do
        (binding, bindings') ← optional_arg bindings
        if is_none binding then pure frame else do
          push_safety frame
          (sym, binding') ← required_arg binding
          (expr, _) ← required_arg binding'
          (if is_sym sym then skip else qz_error (codes "expected symbol") (sym ∷ []))
          value ← ev expr
          frame' ← hash_set frame sym value
          pop_safety 1
          let_bindings ev n frame' bindings')
        st

  unfoldable pub scm_let : Cfun → ℕ → Cfun
  unfolding required_arg make_hash let_bindings first ref make_pair push_safety scm_begin pop_env
  scm_let ev n args = do
    (bindings, body) ← required_arg args
    new_frame ← make_hash
    frame ← let_bindings ev n new_frame bindings
    old_env ← gets (λ st. st.env)
    frames ← first old_env
    f ← ref frames
    inner ← make_pair frame f
    o ← ref old_env
    env ← make_pair inner o
    set_env env
    push_safety env
    result ← scm_begin ev n body
    pop_env old_env
    pure result

  -- The loop of scm_let_s: `env` is the pair whose `first` is the frame.
  unfoldable pub let_s_bindings : Cfun → ℕ → (env bindings : Obj) → M (Unit {0})
  unfolding optional_arg required_arg qz_error to_pair hash_set set_first
  let_s_bindings ev zero env bindings st = out_of_fuel
  let_s_bindings ev (suc n) env bindings st =
      (do
        (binding, bindings') ← optional_arg bindings
        if is_none binding then skip else do
          (sym, binding') ← required_arg binding
          (expr, _) ← required_arg binding'
          (if is_sym sym then skip else qz_error (codes "expected symbol") (sym ∷ []))
          value ← ev expr
          m ← to_pair env
          frame ← hash_set m.0 sym value
          set_first env frame
          let_s_bindings ev n env bindings')
        st

  unfoldable pub scm_let_s : Cfun → ℕ → Cfun
  unfolding required_arg make_hash first ref make_pair push_safety let_s_bindings scm_begin pop_env
  scm_let_s ev n args = do
    (bindings, body) ← required_arg args
    old_env ← gets (λ st. st.env)
    frame ← make_hash
    frames ← first old_env
    f ← ref frames
    inner ← make_pair frame f
    o ← ref old_env
    env ← make_pair inner o
    set_env env
    push_safety env
    let_s_bindings ev n inner bindings
    result ← scm_begin ev n body
    pop_env old_env
    pure result

  -- The innermost frame is set in place.
  unfoldable pub set_var : (name value : Obj) → M (Unit {0})
  unfolding cell_ptr pair_at hash_set put
  set_var name value = do
    env ← gets (λ st. st.env)
    outer ← first env
    p ← cell_ptr outer
    m ← pair_at p
    frame ← hash_set m.0 name value
    m' ← pair_at p
    put p (pair frame m'.1)

  -- The function variant of define: `header` is the list of the name and the formals.
  unfoldable pub define_function : (header args : Obj) → M Obj
  unfolding required_arg qz_error ref make_pair make_cell list_head set_var
  define_function header args = do
    (var, formals) ← required_arg header
    if not (is_sym var)
        then qz_error (codes "function variant of define not given symbol") (var ∷ [])
        else do
          f ← ref formals
          a ← ref args
          begin_sym ← gets (λ st. st.begin_sym)
          body ← make_pair begin_sym a
          env ← gets (λ st. st.env)
          frames ← list_head env
          e ← ref frames
          lambda ← make_pair f body
          cell ← make_cell CellType.fun (pair e lambda)
          set_var var (from_cell cell)
          pure qz_none

  unfoldable pub scm_define : Cfun → Cfun
  unfolding required_arg set_var define_function qz_error
  scm_define ev args = do
    (header, args') ← required_arg args
    function ← is_pair header
    if is_sym header
        then (do
          (expr, _) ← required_arg args'
          value ← ev expr
          set_var header value
          pure qz_none)
        else (if function
            then define_function header args'
            else qz_error (codes "first argument to define must be a symbol or list") (header ∷ []))
