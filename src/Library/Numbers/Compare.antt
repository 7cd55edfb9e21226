-- ===== src/Library/Numbers/Compare.antt =====
-- compare_many of quuz-lib.c: a chain of comparisons holds if each one of neighbours does.
use quuz.Prelude.{
  ℕ, zero, suc, ◌<◌, ◌≡◌, refl, Bool, true, false, ◌&&◌, List, [], ◌∷◌, length, ltb, leb,
  Bool-cases, inl, inr, arith,
}
use quuz.Object.Tag.{Obj, is_cell, is_none}
use quuz.Object.CellType
use quuz.Machine.Store.{State}
use quuz.Machine.Outcome.{ok, pure}
use quuz.Machine.Cell.{cell_of_type}
use quuz.Machine.Chain.{IsChain, is_pair-ok, to_pair-ok}
use quuz.Collector.{unref, call_if_valid_cell}
use quuz.Runtime.{push_safety, pop_safety, required_arg}
use quuz.Eval.{Cfun}
use quuz.Library.Numbers.{Flags, accepts, bool_obj, compare_loop, compare_many}
use quuz.Library.Numbers.Sum.{optional_arg-pair, optional_arg-end}

-- An expression that, in this state, evaluates to a value of the type that is asked for, which is no
-- cell, and leaves the state alone.
pub record IsValue (ev : Cfun) (p : Obj → Bool) (st : State) (expr value : Obj) : Type 0 where
  pub given : is_none expr ≡ false
  pub run : ev expr st ≡ ok value st
  pub fits : p value ≡ true
  pub word : is_cell value ≡ false

-- The state in which an expression is evaluated: the value before it is in the safety buffer.
abbrev pub kept_value : State → Obj → State
kept_value st prev = record st { safety_buffer = prev ∷ st.safety_buffer }

-- The expressions after one with the value `prev`.
abbrev pub AreValues : Cfun → (Obj → Bool) → State → Obj → List Obj → List Obj → Type 0
AreValues ev p st prev [] [] = Unit {0}
AreValues ev p st prev (x ∷ xs) (v ∷ vs) =
    IsValue ev p (kept_value st prev) x v × AreValues ev p st v xs vs
AreValues ev p st prev _ _ = ⊥

-- Each value and the next one compare as the flags say.
abbrev pub all_accepted : Flags → (Obj → Obj → ℕ) → Obj → List Obj → Bool
all_accepted flags c prev [] = true
all_accepted flags c prev (v ∷ vs) = accepts flags (c prev v) && all_accepted flags c v vs

unref-word : (obj : Obj) (st : State) → is_cell obj ≡ false → unref obj st ≡ ok tt st
unfolding unref call_if_valid_cell
unref-word obj st word = rw word refl

push_safety-ok :
    (obj : Obj) (st : State)
    → length st.safety_buffer < 16
    → push_safety obj st ≡ ok tt (record st { safety_buffer = obj ∷ st.safety_buffer })
unfolding push_safety
push_safety-ok obj st room =
    let t : ltb (length st.safety_buffer) 16 ≡ true = ground arith in rw t refl

pop_safety-ok :
    (obj : Obj) (st : State)
    → pop_safety 1 (record st { safety_buffer = obj ∷ st.safety_buffer }) ≡ ok tt st
unfolding pop_safety
pop_safety-ok obj st =
    let t : leb 1 (suc (length st.safety_buffer)) ≡ true = ground arith in rw t refl

module _ (ev : Cfun) (p : Obj → Bool) (c : Obj → Obj → ℕ) (flags : Flags) (st : State) (last : Obj)
    (ends : cell_of_type last CellType.pair st ≡ ok false st)
    (room : length st.safety_buffer < 16) where
  compare_loop-all :
      (n : ℕ) (prev args : Obj) (xs vs : List Obj)
      → is_cell prev ≡ false
      → IsChain st args xs last
      → AreValues ev p st prev xs vs
      → length xs < n
      → compare_loop ev (λ x. pure (p x)) (λ a b. pure (c a b)) flags n prev args st
        ≡ ok (bool_obj (all_accepted flags c prev vs)) st
  unfolding compare_loop is_none
  compare_loop-all zero prev args xs vs word chain values lt = absurd (omega arith)
  compare_loop-all (suc n) prev args [] [] word chain values lt =
      rw (chain, optional_arg-end st last ends) (rw (unref-word prev st word) refl)
  compare_loop-all (suc n) prev args (x ∷ xs) (v ∷ vs) word (next, at, more) (o, os) lt =
      elim (Bool-cases (accepts flags (c prev v))) [
        | inl holds ↦
            rw (optional_arg-pair st args x next at, o.given)
              (rw (push_safety-ok prev st room) (
                rw (o.run, o.fits)
                  (rw (pop_safety-ok prev st) (
                    rw holds (
                      rw (unref-word prev st word)
                        (compare_loop-all n v next xs vs o.word more os (omega arith)))))))
        | inr fails ↦
            rw (optional_arg-pair st args x next at, o.given)
              (rw (push_safety-ok prev st room) (
                rw (o.run, o.fits)
                  (rw (pop_safety-ok prev st)
                    (rw fails (rw (unref-word prev st word) (rw (unref-word v st o.word) refl))))))
      ]
  compare_loop-all (suc n) prev args [] (v ∷ vs) word chain values lt = absurd values
  compare_loop-all (suc n) prev args (x ∷ xs) [] word chain values lt = absurd values

  -- compare_many over a list of expressions, each of which, in the state in which it is evaluated,
  -- gives a value that passes the type test and is no cell, and leaves that state alone, gives #t if the
  -- comparison of every value with the next is accepted and #f if one is not, and leaves the state
  -- alone. The first expression is evaluated in the state at the start, and each later one with the
  -- value before it in the safety buffer. There is at least one expression, more fuel than expressions,
  -- and room in the safety buffer.
  pub compare_many-all :
      (n : ℕ) (args x v : Obj) (xs vs : List Obj)
      → IsChain st args (x ∷ xs) last
      → IsValue ev p st x v
      → AreValues ev p st v xs vs
      → length xs < n
      → compare_many ev (λ x. pure (p x)) (λ a b. pure (c a b)) flags n args st
        ≡ ok (bool_obj (all_accepted flags c v vs)) st
  unfolding compare_many required_arg
  compare_many-all n args x v xs vs (next, at, more) o os lt = rw (is_pair-ok st args x next at) (
      rw (to_pair-ok st args x next at)
        (rw (o.run, o.fits) (compare_loop-all n v next xs vs o.word more os lt)))
