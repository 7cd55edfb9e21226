-- ===== src/Library/Numbers.antt =====
-- quuz-lib.c, section 6.2, compare_many and the predicates. An `int` is its pattern of 32 bits.
pub mod Order
pub mod Sum
pub mod Compare
use quuz.Prelude.{
  ℕ, zero, suc, ◌+◌, ◌-◌, ◌*◌, ◌%◌, ◌^◌, Bool, true, false, not, ◌&&◌, ◌||◌, [], ◌∷◌, ltb, ◌==◌,
  if◌then◌else◌,
}
use quuz.Prelude.Text.{codes}
use quuz.Object.Tag.{
  Obj, qz_none, qz_true, qz_false, is_none, is_fixnum, is_bool, is_sym, is_null, is_char, is_cfun,
  is_eof, to_fixnum, from_fixnum,
}
use quuz.Machine.Outcome.{out_of_fuel, M, pure, ◌>>=◌, ◌>>◌, crash, skip}
use quuz.Collector.{unref}
use quuz.Equal.{eq}
use quuz.Runtime.{push_safety, pop_safety, qz_error, required_arg, optional_arg}
use quuz.Eval.{Cfun}
use quuz.Eval.Args.{get_arg, get_args2, required, any}

-- The function pointers `pred_fun` and `cmp_fun`.
abbrev pub PredFun : Type 0
PredFun = Obj → M Bool

abbrev pub CmpFun : Type 0
CmpFun = Obj → Obj → M ℕ

abbrev pub bool_obj : Bool → Obj
bool_obj b = if b then qz_true else qz_false

unfoldable pub predicate : Cfun → PredFun → Cfun
unfolding required_arg unref
predicate ev pf args = do
  (expr, _) ← required_arg args
  value ← ev expr
  b ← pf value
  unref value
  pure (bool_obj b)

-- Which results of a comparison are accepted: LESS, EQUAL and GREATER.
pub record Flags : Type 0 where
  pub less : Bool
  pub equal : Bool
  pub greater : Bool

-- `2 + 2*(i > 0) - (i < 0)`: 1, 2 or 4.
unfoldable pub sign_of : ℕ → ℕ
sign_of i = if i == 0 then 2 else if ltb i (2 ^ 31) then 4 else 1

-- `sign_of(i) & flags`
unfoldable pub accepts : Flags → ℕ → Bool
unfolding sign_of
accepts flags i =
    ((sign_of i == 1) && flags.less)
    || ((sign_of i == 2) && flags.equal)
    || ((sign_of i == 4) && flags.greater)

-- The loop of compare_many.
unfoldable pub compare_loop : Cfun → PredFun → CmpFun → Flags → ℕ → (prev args : Obj) → M Obj
unfolding optional_arg unref push_safety qz_error pop_safety accepts
compare_loop ev pf cf flags zero prev args st = out_of_fuel
compare_loop ev pf cf flags (suc n) prev args st =
    (do
      (expr, args') ← optional_arg args
      if is_none expr then (do unref prev; pure qz_true) else do
        push_safety prev
        curr ← ev expr
        fits ← pf curr
        (if fits then skip else do push_safety curr; qz_error (codes "unexpected type") (curr ∷ []))
        pop_safety 1
        d ← cf prev curr
        (if not (accepts flags d)
            then (do unref prev; unref curr; pure qz_false)
            else do unref prev; compare_loop ev pf cf flags n curr args'))
      st

unfoldable pub compare_many : Cfun → PredFun → CmpFun → Flags → ℕ → Cfun
unfolding required_arg push_safety qz_error compare_loop
compare_many ev pf cf flags n args = do
  (expr, args') ← required_arg args
  prev ← ev expr
  fits ← pf prev
  (if fits then skip else do push_safety prev; qz_error (codes "unexpected type") (prev ∷ []))
  compare_loop ev pf cf flags n prev args'

-- `a.value - b.value`, a `size_t`, returned as an `int`: its low 32 bits.
unfoldable pub compare_fixnum : Obj → Obj → ℕ
compare_fixnum a b = (a + 2 ^ 64 - b) % 2 ^ 64 % 2 ^ 32

abbrev pub eq_flags : Flags
eq_flags = record { less = false; equal = true; greater = false }

abbrev pub lt_flags : Flags
lt_flags = record { less = true; equal = false; greater = false }

abbrev pub gt_flags : Flags
gt_flags = record { less = false; equal = false; greater = true }

abbrev pub lte_flags : Flags
lte_flags = record { less = true; equal = true; greater = false }

abbrev pub gte_flags : Flags
gte_flags = record { less = false; equal = true; greater = true }

abbrev pub compare_numbers : Flags → Cfun → ℕ → Cfun
compare_numbers flags ev n =
    compare_many ev (λ x. pure (is_fixnum x)) (λ a b. pure (compare_fixnum a b)) flags n

unfoldable pub scm_num_eq : Cfun → ℕ → Cfun
unfolding compare_many compare_fixnum
scm_num_eq = compare_numbers eq_flags

unfoldable pub scm_num_lt : Cfun → ℕ → Cfun
unfolding compare_many compare_fixnum
scm_num_lt = compare_numbers lt_flags

unfoldable pub scm_num_gt : Cfun → ℕ → Cfun
unfolding compare_many compare_fixnum
scm_num_gt = compare_numbers gt_flags

unfoldable pub scm_num_lte : Cfun → ℕ → Cfun
unfolding compare_many compare_fixnum
scm_num_lte = compare_numbers lte_flags

unfoldable pub scm_num_gte : Cfun → ℕ → Cfun
unfolding compare_many compare_fixnum
scm_num_gte = compare_numbers gte_flags

-- `intptr_t` arithmetic, on patterns of 64 bits. It wraps, as the compiled code does.
abbrev pub add64 : ℕ → ℕ → ℕ
add64 a b = (a + b) % 2 ^ 64

abbrev pub sub64 : ℕ → ℕ → ℕ
sub64 a b = (a + 2 ^ 64 - b) % 2 ^ 64

abbrev pub mul64 : ℕ → ℕ → ℕ
mul64 a b = a * b % 2 ^ 64

-- `qz_from_fixnum(qz_to_fixnum(a) op qz_to_fixnum(b))`
unfoldable pub fixnum_op : (ℕ → ℕ → ℕ) → Obj → Obj → Obj
unfolding from_fixnum to_fixnum
fixnum_op op a b = from_fixnum (op (to_fixnum a) (to_fixnum b))

-- The evaluation of one operand, with its check.
unfoldable pub operand : Cfun → (expr : Obj) → M Obj
unfolding unref qz_error
operand ev expr = do
  value ← ev expr
  (if is_fixnum value
      then pure value
      else do unref value; qz_error (codes "expected fixnum") (value ∷ []))

-- The loops of scm_num_add and scm_num_mul.
unfoldable pub fold_loop : Cfun → (ℕ → ℕ → ℕ) → ℕ → (result args : Obj) → M Obj
unfolding optional_arg operand fixnum_op
fold_loop ev op zero result args st = out_of_fuel
fold_loop ev op (suc n) result args st =
    (do
      (expr, args') ← optional_arg args
      if is_none expr
          then pure result
          else do value ← operand ev expr; fold_loop ev op n (fixnum_op op result value) args')
      st

unfoldable pub scm_num_add : Cfun → ℕ → Cfun
unfolding fold_loop from_fixnum
scm_num_add ev n args = fold_loop ev add64 n (from_fixnum 0) args

unfoldable pub scm_num_mul : Cfun → ℕ → Cfun
unfolding fold_loop from_fixnum
scm_num_mul ev n args = fold_loop ev mul64 n (from_fixnum 1) args

-- The loop of scm_num_sub. Its call of qz_error for an operand that is no fixnum lacks the NULL that
-- ends the arguments, so that it reads arguments which are not there.
unfoldable pub sub_loop : Cfun → ℕ → (result expr args : Obj) → M Obj
unfolding optional_arg unref fixnum_op
sub_loop ev zero result expr args st = out_of_fuel
sub_loop ev (suc n) result expr args st =
    (do
      value ← ev expr
      (if is_fixnum value then skip else do unref value; crash)
      let result' = fixnum_op sub64 result value
      (expr', args') ← optional_arg args
      if is_none expr' then pure result' else sub_loop ev n result' expr' args')
      st

unfoldable pub scm_num_sub : Cfun → ℕ → Cfun
unfolding required_arg operand optional_arg from_fixnum to_fixnum sub_loop
scm_num_sub ev n args = do
  (expr, args') ← required_arg args
  result ← operand ev expr
  (expr', args'') ← optional_arg args'
  if is_none expr'
      then pure (from_fixnum (sub64 0 (to_fixnum result)))
      else sub_loop ev n result expr' args''

unfoldable pub scm_not : Cfun → Cfun
unfolding get_arg unref
scm_not ev args = do
  (value, _) ← get_arg ev (required any) args
  if eq value qz_false then pure qz_true else do unref value; pure qz_false

-- The comparison of eq?, eqv? and equal?.
unfoldable pub compare : Cfun → (Obj → Obj → M Bool) → Cfun
unfolding get_args2 unref
compare ev cf args = do
  (obj1, obj2, _) ← get_args2 ev (required any) (required any) args
  e ← cf obj1 obj2
  unref obj1
  unref obj2
  pure (bool_obj e)
