-- ===== src/Library/Lists.antt =====
-- quuz-lib.c, section 6.4: pairs and lists.
pub mod Chain
use quuz.Prelude.{
  ℕ, zero, suc, ◌+◌, ◌-◌, ◌*◌, ◌^◌, Bool, true, false, not, Option, none, some, [], ◌∷◌, ltb, leb,
  ◌==◌, if◌then◌else◌,
}
use quuz.Prelude.Text.{codes}
use quuz.Object.Tag.{
  Obj, qz_null, qz_none, qz_false, is_null, is_none, to_fixnum, from_fixnum, to_cell,
}
use quuz.Machine.Store.{pair}
use quuz.Machine.Outcome.{out_of_fuel, M, pure, ◌>>=◌, ◌>>◌, crash, gets, skip}
use quuz.Machine.Cell.{is_pair, make_pair, first, rest, to_pair, set_first, set_rest, pair_at, put}
use quuz.Collector.{ref, unref}
use quuz.Equal.{eq}
use quuz.Runtime.{
  push_safety, pop_safety, Builder, no_elements, add_elem, qz_error, required_arg, optional_arg,
}
use quuz.Eval.{Cfun, eval_list}
use quuz.Eval.Args.{get_arg, get_args2, required, optional, any, fixnum, Kind}

-- The length of a proper list, `none` for -1. The fuel is one for each pair.
unfoldable pub list_length_loop : ℕ → ℕ → Obj → M (Option ℕ)
unfolding rest
list_length_loop zero len obj st = out_of_fuel
list_length_loop (suc n) len obj st =
    (if is_null obj then pure (some len) else do
      p ← is_pair obj
      (if not p then pure none else do r ← rest obj; list_length_loop n (len + 1) r))
      st

unfoldable pub list_length : Obj → M (Option ℕ)
unfolding list_length_loop
list_length obj = do n ← gets (λ st. st.brk); list_length_loop n 0 obj

unfoldable pub scm_cons : Cfun → Cfun
unfolding get_args2 make_pair
scm_cons ev args = do
  (obj1, obj2, _) ← get_args2 ev (required any) (required any) args
  make_pair obj1 obj2

unfoldable pub scm_car : Cfun → Cfun
unfolding get_arg first ref unref
scm_car ev args = do
  (p, _) ← get_arg ev (required Kind.pair) args
  f ← first p
  result ← ref f
  unref p
  pure result

unfoldable pub scm_cdr : Cfun → Cfun
unfolding get_arg rest ref unref
scm_cdr ev args = do
  (p, _) ← get_arg ev (required Kind.pair) args
  r ← rest p
  result ← ref r
  unref p
  pure result

unfoldable pub scm_set_car_b : Cfun → Cfun
unfolding get_args2 to_pair unref pair_at put
scm_set_car_b ev args = do
  (p, obj, _) ← get_args2 ev (required Kind.pair) (required any) args
  m ← to_pair p
  unref m.0
  m' ← pair_at (to_cell p)
  put (to_cell p) (pair obj m'.1)
  unref p
  pure qz_none

unfoldable pub scm_set_cdr_b : Cfun → Cfun
unfolding get_args2 to_pair unref pair_at put
scm_set_cdr_b ev args = do
  (p, obj, _) ← get_args2 ev (required Kind.pair) (required any) args
  m ← to_pair p
  unref m.1
  m' ← pair_at (to_cell p)
  put (to_cell p) (pair m'.0 obj)
  unref p
  pure qz_none

unfoldable pub is_list_loop : ℕ → Obj → M Bool
unfolding rest
is_list_loop zero obj st = out_of_fuel
is_list_loop (suc n) obj st =
    (if is_null obj
        then pure true
        else do p ← is_pair obj; (if not p then pure false else do r ← rest obj; is_list_loop n r))
      st

-- The source does not end on a cyclic list.
unfoldable pub is_list : Obj → M Bool
unfolding is_list_loop
is_list obj = do n ← gets (λ st. st.brk); is_list_loop n obj

-- `for(intptr_t i = k; i > 0; i--)` runs so many times.
abbrev pub rounds : ℕ → ℕ
rounds k = if ltb k (2 ^ 63) then k else 0

unfoldable pub make_list_loop : ℕ → (fill result : Obj) → M Obj
unfolding ref make_pair
make_list_loop zero fill result = pure result
make_list_loop (suc i) fill result = do
  f ← ref fill
  result' ← make_pair f result
  make_list_loop i fill result'

unfoldable pub scm_make_list : Cfun → Cfun
unfolding get_args2 make_list_loop unref
scm_make_list ev args = do
  (k, fill, _) ← get_args2 ev (required fixnum) (optional any) args
  result ← make_list_loop (rounds (to_fixnum k)) fill qz_null
  unref fill
  pure result

unfoldable pub scm_list : Cfun → ℕ → Cfun
unfolding eval_list
scm_list ev n args = eval_list ev n args

unfoldable pub scm_length : Cfun → Cfun
unfolding get_arg list_length unref qz_error from_fixnum
scm_length ev args = do
  (obj, _) ← get_arg ev (required any) args
  len ← list_length obj
  unref obj
  elim len [ none ↦ qz_error (codes "expected list") (obj ∷ []) | some l ↦ pure (from_fixnum l) ]

unfoldable pub reverse_loop : ℕ → (list elem result : Obj) → M Obj
unfolding unref push_safety qz_error first rest make_pair
reverse_loop zero list elem result st = out_of_fuel
reverse_loop (suc n) list elem result st =
    (if is_null elem then (do unref list; pure result) else do
      p ← is_pair elem
      (if not p
          then (do unref result; push_safety list; qz_error (codes "expected list") (list ∷ []))
          else do
            f ← first elem
            result' ← make_pair f result
            elem' ← rest elem
            reverse_loop n list elem' result'))
      st

unfoldable pub scm_reverse : Cfun → Cfun
unfolding required_arg reverse_loop
scm_reverse ev args = do
  (expr, _) ← required_arg args
  list ← ev expr
  n ← gets (λ st. st.brk)
  reverse_loop n list list qz_null

-- The loop of scm_list_tail.
unfoldable pub list_tail_loop : ℕ → (list elem : Obj) → M Obj
unfolding push_safety qz_error rest
list_tail_loop zero list elem = pure elem
list_tail_loop (suc i) list elem =
    if is_null elem
    then (do push_safety list; qz_error (codes "list too short") (list ∷ []))
    else do
      p ← is_pair elem
      (if not p
          then (do push_safety list; qz_error (codes "expected list") (list ∷ []))
          else do elem' ← rest elem; list_tail_loop i list elem')

unfoldable pub scm_list_tail : Cfun → Cfun
unfolding get_args2 list_tail_loop ref unref
scm_list_tail ev args = do
  (list, k, _) ← get_args2 ev (required Kind.pair) (required fixnum) args
  elem ← list_tail_loop (rounds (to_fixnum k)) list list
  e ← ref elem
  unref list
  pure elem

unfoldable pub scm_list_ref : Cfun → Cfun
unfolding scm_list_tail first
scm_list_ref ev args = do elem ← scm_list_tail ev args; first elem

-- scm_list_tail got `args` by value: the expression is the first of the arguments again.
unfoldable pub scm_list_set_b : Cfun → Cfun
unfolding scm_list_tail push_safety qz_error required_arg pop_safety to_pair unref pair_at put
scm_list_set_b ev args = do
  elem ← scm_list_tail ev args
  push_safety elem
  p ← is_pair elem
  (if p then skip else qz_error (codes "expected list") (elem ∷ []))
  (expr, _) ← required_arg args
  obj ← ev expr
  pop_safety 1
  m ← to_pair elem
  unref m.0
  m' ← pair_at (to_cell elem)
  put (to_cell elem) (pair obj m'.1)
  pure qz_none

-- scm_list_copy: `result` is the last pair that was made.
unfoldable pub list_copy_loop : ℕ → (list elem result : Obj) → M Obj
unfolding pop_safety unref qz_error first ref make_pair set_rest rest
list_copy_loop zero list elem result st = out_of_fuel
list_copy_loop (suc n) list elem result st =
    (if is_null elem then (do pop_safety 1; unref list; pure result) else do
      p ← is_pair elem
      (if not p then qz_error (codes "expected list") (list ∷ []) else do
        f ← first elem
        o ← ref f
        inner_result ← make_pair o qz_null
        (if is_null result then skip else set_rest result inner_result)
        elem' ← rest elem
        list_copy_loop n list elem' inner_result))
      st

unfoldable pub scm_list_copy : Cfun → Cfun
unfolding required_arg push_safety list_copy_loop
scm_list_copy ev args = do
  (expr, _) ← required_arg args
  list ← ev expr
  push_safety list
  n ← gets (λ st. st.brk)
  list_copy_loop n list list qz_null

-- inner_member, with one of eq, eqv and equal for `cf`. `custom` says that `cf` is qz_equal.
unfoldable pub custom_comparator : Cfun → Bool → (obj args : Obj) → M Obj
unfolding optional_arg ref make_pair push_safety
custom_comparator ev custom obj args = if not custom then pure qz_none else do
  (cmp, _) ← optional_arg args
  (if is_none cmp then pure qz_none else do
    o ← ref obj
    second ← make_pair o qz_null
    operands ← make_pair qz_null second
    f ← ev cmp
    custom_cmp ← make_pair f operands
    push_safety custom_cmp
    pure custom_cmp)

-- A call of the custom comparator on an element.
unfoldable pub custom_match : Cfun → (custom_cmp elem : Obj) → M Bool
unfolding rest to_pair unref first ref set_first
custom_match ev custom_cmp elem = do
  operands ← rest custom_cmp
  m ← to_pair operands
  unref m.0
  f ← first elem
  o ← ref f
  set_first operands o
  result ← ev custom_cmp
  unref result
  pure (not (eq result qz_false))

-- The loop tests `qz_is_null(result)`, and `result` is false throughout: it ends at a match, or by
-- what stands behind the last pair. There the call of qz_error lacks the NULL that ends its arguments,
-- so that it reads arguments which are not there.
unfoldable pub member_loop : Cfun → (Obj → Obj → M Bool) → ℕ → (custom_cmp obj elem : Obj) → M Obj
unfolding custom_match first ref rest
member_loop ev cf zero custom_cmp obj elem st = out_of_fuel
member_loop ev cf (suc n) custom_cmp obj elem st =
    (do
      p ← is_pair elem
      if not p then crash else do
        match ←
            (if is_none custom_cmp
              then (do f ← first elem; cf f obj)
              else custom_match ev custom_cmp elem)
        (if match
            then ref elem
            else do elem' ← rest elem; member_loop ev cf n custom_cmp obj elem'))
      st

-- After the loop two objects are popped that get_args has popped before.
unfoldable pub inner_member : Cfun → (Obj → Obj → M Bool) → Bool → ℕ → Cfun
unfolding get_args2 custom_comparator member_loop pop_safety unref
inner_member ev cf custom n args = do
  (obj, list, args') ← get_args2 ev (required any) (required Kind.pair) args
  custom_cmp ← custom_comparator ev custom obj args'
  result ← member_loop ev cf n custom_cmp obj list
  (if is_none custom_cmp then skip else do pop_safety 1; unref custom_cmp)
  pop_safety 2
  unref obj
  unref list
  pure result

unfoldable pub inner_assoc : Cfun → (Obj → Obj → M Bool) → Bool → ℕ → Cfun
unfolding inner_member first ref unref
inner_assoc ev cf custom n args = do
  obj ← inner_member ev cf custom n args
  if eq obj qz_false
      then pure qz_false
      else do f ← first obj; result ← ref f; unref obj; pure result
