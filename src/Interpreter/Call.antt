-- ===== src/Interpreter/Call.antt =====
-- A call of a function of QZ_LIB_FUNCTIONS by the whole interpreter: qz_eval of quuz-state.c with the
-- functions of quuz-lib.c behind it.
use quuz.Prelude.{
  ℕ, zero, suc, ◌-◌, ◌+◌, ◌%◌, ◌<◌, ◌≡◌, refl, ap, ◌∙◌, Bool, true, false, not, ◌&&◌, some, List,
  [], ◌∷◌, length, get_elem?, subst, ◌==◌, ==_iff, if◌then◌else◌, leb, arith,
}
use quuz.Prelude.Text.{codes}
use quuz.Object.Tag.{Obj, qz_false, is_cell, is_null, is_cfun, to_cfun, from_cfun, from_fixnum}
use quuz.Object.CellType
use quuz.Machine.Store.{State}
use quuz.Machine.Outcome.{M, ok, ◌>>◌}
use quuz.Machine.Cell.{cell_of_type}
use quuz.Machine.Chain.{IsPairAt, IsChain, is_pair-ok, to_pair-ok}
use quuz.Collector.{unref, call_if_valid_cell}
use quuz.Hash.{CityHash}
use quuz.Runtime.{required_arg, cleanup_loop, cleanup_safety_buffer}
use quuz.Runtime.Post.{Post}
use quuz.Eval.{Cfun, apply_value, eval}
use quuz.Eval.Balance.{eval-balanced}
use quuz.Library.Numbers.{scm_num_add}
use quuz.Library.Numbers.Sum.{AreOperands, total, optional_arg-pair, scm_num_add-sum}
use quuz.Equal.{eq}
use quuz.Library.Syntax.{scm_if}
use quuz.Library.Table.{Host, Entry}
use quuz.Library.Table.Core.{core_functions}
use quuz.Interpreter.{lib_functions, dispatch, library}

-- The functions of the table stand at different addresses, divisible by 8.
pub record IsLayout (address : ℕ → ℕ) : Type 0 where
  pub aligned : (i : ℕ) → address i % 8 ≡ 0
  pub distinct : (i j : ℕ) → i < j → (address i == address j) ≡ false

from_cfun-kind :
    (a : ℕ)
    → a % 8 ≡ 0
    → (is_cell (from_cfun a) ≡ false) × (is_cfun (from_cfun a) ≡ true) × (to_cfun (from_cfun a) ≡ a)
unfolding is_cell is_cfun to_cfun from_cfun
from_cfun-kind a aligned = (ground arith, ground arith, omega arith)

required_arg-pair :
    (st : State) (obj front back : Obj)
    → IsPairAt st obj front back
    → required_arg obj st ≡ ok (front, back) st
unfolding required_arg
required_arg-pair st obj front back at =
    rw (is_pair-ok st obj front back at) (to_pair-ok st obj front back at)

-- A safety buffer that has its old size stays.
cleanup_same :
    (st : State) (size : ℕ)
    → length st.safety_buffer ≡ size
    → cleanup_safety_buffer size st ≡ ok tt st
unfolding cleanup_safety_buffer cleanup_loop
cleanup_same st size same =
    let all : leb size (length st.safety_buffer) ≡ true = ground arith in
    let none_left : length st.safety_buffer - size ≡ 0 = omega arith in rw (all, none_left) refl

-- What scm_if does after its test.
choice :
    (ev : Cfun) (chosen : Bool) (value a b : Obj) (st : State)
    → (is_cell value && not (is_null value)) ≡ false
    → (if chosen then ev b else (do unref value; ev a)) st ≡ ev (if chosen then b else a) st
unfolding unref call_if_valid_cell
choice ev true value a b st plain = refl
choice ev false value a b st plain = rw plain refl

module _ ⦃city : CityHash⦄ (host : Host) (address : ℕ → ℕ) (layout : IsLayout address) where
  -- What the test of the first entry decides.
  abbrev branch : Entry → List Entry → (i : ℕ) → Cfun → (n a : ℕ) → (args : Obj) → Bool → M Obj
  branch x es i ev n a args found = elim found [
    | true ↦ x.function ev n args
    | false ↦ dispatch host address es (suc i) ev n a args
  ]

  dispatch-entry :
      (es : List Entry) (i k : ℕ) (e : Entry)
      → get_elem? es k ≡ some e
      → (ev : Cfun) (n a : ℕ) (args : Obj) → address (i + k) ≡ a
      → dispatch host address es i ev n a args ≡ e.function ev n args
  unfolding dispatch
  dispatch-entry [] i k e at ev n a args here = absurd (cc at)
  dispatch-entry (x ∷ es) i zero e at ev n a args here =
      let found : (address i == a) ≡ true =
        (==_iff (address i) a).1 (ap address (omega arith) ∙ here) in
      ap (branch x es i ev n a args) found ∙ cc at
  dispatch-entry (x ∷ es) i (suc k) e at ev n a args here =
      let other : (address i == a) ≡ false =
        subst (λ x. (address i == x) ≡ false) here (layout.distinct i (i + suc k) (omega arith)) in
      ap (branch x es i ev n a args) other
      ∙ dispatch-entry es (suc i) k e at ev n a args (ap address (omega arith) ∙ here)

  apply-entry :
      (k : ℕ) (e : Entry)
      → get_elem? (lib_functions host) k ≡ some e
      → (n : ℕ) (args : Obj) (st : State) (result : Obj) (after : State)
      → e.function (eval (library host address) n) n args st ≡ ok result after
      → length after.safety_buffer ≡ length st.safety_buffer
      → apply_value
          (library host address)
          (eval (library host address) n)
          n
          (from_cfun (address k))
          args
          st
        ≡ ok result after
  unfolding apply_value library cell_of_type
  apply-entry k e at n args st result after run same =
      let (word, cfun, value) = from_cfun-kind (address k) (layout.aligned k) in
      let called =
        dispatch-entry (lib_functions host) 0 k e at (eval (library host address) n) n (address k)
          args (ap address (omega arith)) in
      rw (word, cfun, value)
        (rw called (rw run (rw (cleanup_same after (length st.safety_buffer) same) refl)))

  -- A call of a function of the table: its operands are handed to it as they are.
  pub eval-entry :
      (k : ℕ) (e : Entry)
      → get_elem? (lib_functions host) k ≡ some e
      → (n : ℕ) (call head args : Obj) (st : State) → IsPairAt st call head args
      → eval (library host address) n head st ≡ ok (from_cfun (address k)) st
      → (result : Obj) (after : State)
      → e.function (eval (library host address) n) n args st ≡ ok result after
      → length after.safety_buffer ≡ length st.safety_buffer
      → eval (library host address) (suc n) call st ≡ ok result after
  unfolding eval apply_value library
  eval-entry k e at n call head args st pair fun result after run same =
      rw (is_pair-ok st call head args pair) (
        rw (required_arg-pair st call head args pair)
          (rw fun (apply-entry k e at n args st result after run same)))

  abbrev if_entry : Entry
  if_entry = record { name = codes "if"; function = λ ev n. scm_if ev }

  if_third : get_elem? (lib_functions host) 2 ≡ some if_entry
  unfolding lib_functions core_functions
  if_third = refl

  abbrev add_entry : Entry
  add_entry = record { name = codes "+"; function = scm_num_add }

  add_thirtieth : get_elem? (lib_functions host) 29 ≡ some add_entry
  unfolding lib_functions core_functions
  add_thirtieth = refl

  -- qz_eval, over the functions of QZ_LIB_FUNCTIONS at different addresses, of a call whose head
  -- evaluates to the function of `+`, and whose operands evaluate to fixnums, with a state that they
  -- all leave alone: the sum of the operands, cut to the 62 bits of a fixnum, if the fuel is more than
  -- the number of operands.
  pub eval-sum :
      (n : ℕ) (call head args last : Obj) (xs vs : List Obj) (st : State)
      → IsPairAt st call head args
      → IsChain st args xs last
      → cell_of_type last CellType.pair st ≡ ok false st
      → eval (library host address) n head st ≡ ok (from_cfun (address 29)) st
      → AreOperands (eval (library host address) n) st xs vs
      → length xs < n
      → eval (library host address) (suc n) call st ≡ ok (from_fixnum (total vs)) st
  eval-sum n call head args last xs vs st pair chain ends fun operands enough =
      eval-entry 29 add_entry add_thirtieth n call head args st pair fun (from_fixnum (total vs)) st
        (scm_num_add-sum (eval (library host address) n) st last ends n args xs vs chain operands
          enough)
        refl

  -- The size of the safety buffer after a run.
  returned-length :
      (n : ℕ) (obj : Obj) (st : State) (result : Obj) (after : State)
      → eval (library host address) n obj st ≡ ok result after
      → length after.safety_buffer ≡ length st.safety_buffer
  returned-length n obj st result after run =
      let balanced = eval-balanced (library host address) n obj st in
      (subst (λ o. Post (λ r t. length t.safety_buffer ≡ length st.safety_buffer) o) run
        balanced).ends

  -- qz_eval of `(if test a b)`, over the functions of QZ_LIB_FUNCTIONS at different addresses, with a
  -- head that evaluates to the function of `if`: the test is evaluated first, and then, in the state
  -- after it, only `b` if it gave #f, and only `a` if it gave anything else. What that returns is the
  -- result. The test gives an object that counts no references.
  pub eval-if :
      (n : ℕ) (call head args last test a b : Obj) (st : State)
      → IsPairAt st call head args
      → IsChain st args (test ∷ a ∷ b ∷ []) last
      → eval (library host address) n head st ≡ ok (from_cfun (address 2)) st
      → (value : Obj) (between : State) → eval (library host address) n test st ≡ ok value between
      → (is_cell value && not (is_null value)) ≡ false
      → (result : Obj) (after : State)
      → eval (library host address) n (if eq value qz_false then b else a) between ≡ ok result after
      → eval (library host address) (suc n) call st ≡ ok result after
  unfolding scm_if
  eval-if n call head args last test a b st pair (c1, at1, (c2, at2, (c3, at3, c))) fun value
        between tested plain result after run =
      eval-entry 2 if_entry if_third n call head args st pair fun result after
        (rw (required_arg-pair st args test c1 at1) (
          rw (required_arg-pair st c1 a c2 at2) (
            rw (optional_arg-pair st c2 b c3 at3) (
              rw tested (
                choice (eval (library host address) n) (eq value qz_false) value a b between plain
                ∙ run)))))
        (returned-length n _ between result after run
          ∙ returned-length n test st value between tested)
