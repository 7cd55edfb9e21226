-- ===== src/Library/Numbers/Sum.antt =====
-- The loop of scm_num_add against the sum of its operands.
use quuz.Prelude.{
  ℕ, zero, suc, ◌+◌, ◌^◌, ◌<◌, ◌≡◌, refl, ap, ◌∙◌, true, false, List, [], ◌∷◌, length, arith,
}
use quuz.Object.Tag.{Obj, qz_none, is_none, is_fixnum, to_fixnum, from_fixnum}
use quuz.Object.CellType
use quuz.Machine.Store.{State}
use quuz.Machine.Outcome.{ok}
use quuz.Machine.Cell.{cell_of_type}
use quuz.Machine.Chain.{IsPairAt, IsChain, is_pair-ok, to_pair-ok}
use quuz.Runtime.{optional_arg}
use quuz.Eval.{Cfun}
use quuz.Library.Numbers.{add64, fixnum_op, operand, fold_loop, scm_num_add}

pub optional_arg-pair :
    (st : State) (obj front back : Obj)
    → IsPairAt st obj front back
    → optional_arg obj st ≡ ok (front, back) st
unfolding optional_arg
optional_arg-pair st obj front back at =
    rw (is_pair-ok st obj front back at) (to_pair-ok st obj front back at)

pub optional_arg-end :
    (st : State) (obj : Obj)
    → cell_of_type obj CellType.pair st ≡ ok false st
    → optional_arg obj st ≡ ok (qz_none, obj) st
unfolding optional_arg
optional_arg-end st obj ends = rw ends refl

-- An expression that evaluates to a fixnum.
pub record IsOperand (ev : Cfun) (st : State) (expr value : Obj) : Type 0 where
  pub given : is_none expr ≡ false
  pub run : ev expr st ≡ ok value st
  pub fixnum : is_fixnum value ≡ true
  pub word : value < 2 ^ 64

abbrev pub AreOperands : Cfun → State → List Obj → List Obj → Type 0
AreOperands ev st [] [] = Unit {0}
AreOperands ev st (x ∷ xs) (v ∷ vs) = IsOperand ev st x v × AreOperands ev st xs vs
AreOperands ev st _ _ = ⊥

-- The integers that the fixnums hold, added up.
abbrev pub total : List Obj → ℕ
total [] = 0
total (v ∷ vs) = to_fixnum v + total vs

fixnum_op-add :
    (s v : ℕ)
    → v < 2 ^ 64
    → is_fixnum v ≡ true
    → fixnum_op add64 (from_fixnum s) v ≡ from_fixnum (s + to_fixnum v)
unfolding fixnum_op from_fixnum to_fixnum is_fixnum
fixnum_op-add s v w f = ground arith

module _ (ev : Cfun) (st : State) (last : Obj)
    (ends : cell_of_type last CellType.pair st ≡ ok false st) where
  fold_loop-sum :
      (n s : ℕ) (args : Obj) (xs vs : List Obj)
      → IsChain st args xs last
      → AreOperands ev st xs vs
      → length xs < n
      → fold_loop ev add64 n (from_fixnum s) args st ≡ ok (from_fixnum (s + total vs)) st
  unfolding fold_loop is_none operand
  fold_loop-sum zero s args xs vs c o h = absurd (omega arith)
  fold_loop-sum (suc n) s args [] [] c o h =
      rw (c, optional_arg-end st last ends) (ap (λ (k : ℕ). ok (from_fixnum k) st) (omega arith))
  fold_loop-sum (suc n) s args (x ∷ xs) (v ∷ vs) (next, at, c) (o, os) h =
      let ih = fold_loop-sum n (s + to_fixnum v) next xs vs c os (omega arith) in
      let step = fixnum_op-add s v o.word o.fixnum in
      rw (optional_arg-pair st args x next at, o.given, o.run, o.fixnum, step)
        (ih ∙ ap (λ (k : ℕ). ok (from_fixnum k) st) (omega arith))
  fold_loop-sum (suc n) s args [] (v ∷ vs) c o h = absurd o
  fold_loop-sum (suc n) s args (x ∷ xs) [] c o h = absurd o

  -- On a list of expressions, each of which evaluates to a fixnum and leaves the state alone,
  -- scm_num_add returns their sum, cut to the 62 bits of a fixnum, if it has more fuel than there are
  -- operands.
  pub scm_num_add-sum :
      (n : ℕ) (args : Obj) (xs vs : List Obj)
      → IsChain st args xs last
      → AreOperands ev st xs vs
      → length xs < n
      → scm_num_add ev n args st ≡ ok (from_fixnum (total vs)) st
  unfolding scm_num_add
  scm_num_add-sum n args xs vs c o h =
      fold_loop-sum n 0 args xs vs c o h ∙ ap (λ (k : ℕ). ok (from_fixnum k) st) (omega arith)
