-- ===== src/Eval/Balance.antt =====
-- The evaluator leaves the safety buffer as high as it was.
use quuz.Prelude.{
  ℕ, zero, suc, ◌+◌, ◌-◌, ◌≡◌, refl, ap, subst, ◌∙◌, Bool, true, false, not, Option, none, some,
  List, [], ◌∷◌, length, drop, leb, ltb, leb_iff, if◌then◌else◌, arith,
}
use quuz.Prelude.Text.{codes}
use quuz.Object.Tag.{Obj, qz_null, is_null, is_none, is_sym, is_cfun, to_cfun}
use quuz.Object.CellType
use quuz.Machine.Store.{State}
use quuz.Machine.Outcome.{
  Outcome, ok, thrown, fault, out_of_fuel, M, and_then, pure, ◌>>=◌, ◌>>◌, assert, gets,
}
use quuz.Machine.Keeps.{Kept, Keeps, Keeps-gets, Control}
use quuz.Machine.Keeps.Cells.{
  Keeps-cell_of_type, Keeps-first, Keeps-rest, Keeps-to_pair, Keeps-make_pair,
}
use quuz.Collector.Control.{ref-Keeps}
use quuz.Collector.{ref}
use quuz.Hash.{CityHash, Slot, read_slot}
use quuz.Hash.Control.{Keeps-unref, Keeps-make_hash, Keeps-hash_set, Keeps-read_slot}
use quuz.Runtime.Control.{Keeps-add_elem, Keeps-lookup}
use quuz.Eval.{
  Cfun, Library, set_env, eval_list_loop, eval_list, bind_params, bind_rest, eval_in_frame,
  call_function, apply_value, eval_variable, eval_atom, eval,
}
use quuz.Runtime.{
  required_arg, push_safety, pop_safety, qz_error, Builder, no_elements, cleanup_loop,
  cleanup_safety_buffer, safety_size, safety_buffer_capacity,
}
use quuz.Runtime.Post.{Post, and_then-Post, then_Post, qz_error-Post}

-- A run that takes the safety buffer from the height `i` to the height `j`, both above any base, if
-- it returns.
pub record Moves (i j : ℕ) {A : Type 0} (m : M A) : Type 0 where
  pub moves :
      (base : ℕ) (st : State)
      → length st.safety_buffer ≡ i + base
      → Post (λ a after. length after.safety_buffer ≡ j + base) (m st)

module _ {i j : ℕ} where
  bind :
      {k : ℕ} {A B : Type 0} {m : M A} {f : A → M B}
      → Moves i j m
      → ((a : A) → Moves j k (f a))
      → Moves i k (λ st. and_then (m st) f)
  bind {k = k} {m = m} {f = f} x y = record {
    moves = λ base st e.
        and_then-Post (m st) f (x.moves base st e) (λ a after e'. (y a).moves base after e');
  }

  choose :
      (b : Bool) {A : Type 0} {m n : M A}
      → Moves i j m
      → Moves i j n
      → Moves i j (if b then m else n)
  choose true x y = x
  choose false x y = y

  error : {A : Type 0} (msg : List ℕ) (objs : List Obj) → Moves i j (qz_error {A = A} msg objs)
  error msg objs = record { moves = λ base st e. qz_error-Post msg objs st }

assert-Post : (b : Bool) (st : State) → Post (λ u after. b ≡ true) (assert b st)
assert-Post true st = record { ends = refl }
assert-Post false st = record { ends = tt }

length-drop : (n : ℕ) (xs : List Obj) → length (drop n xs) ≡ length xs - n
length-drop zero xs = omega arith
length-drop (suc n) [] = omega arith
length-drop (suc n) (x ∷ xs) = length-drop n xs ∙ omega arith

Kept-Post :
    {A : Type 0} (st : State) (h : ℕ) (o : Outcome A)
    → Kept st o
    → length st.safety_buffer ≡ h
    → Post (λ a after. length after.safety_buffer ≡ h) o
Kept-Post st h (ok a after) k e = record {
  ends = ap (λ (c : Control). length c.safety_buffer) k ∙ e;
}
Kept-Post st h (thrown after) k e = record { ends = tt }
Kept-Post st h fault k e = record { ends = tt }
Kept-Post st h out_of_fuel k e = record { ends = tt }

module _ {i : ℕ} where
  still : {A : Type 0} {m : M A} → Keeps m → Moves i i m
  still {m = m} k = record { moves = λ base st e. Kept-Post st (i + base) (m st) (k.kept st) e }

  give : {A : Type 0} (a : A) → Moves i i (pure a)
  give a = record { moves = λ base st e. record { ends = e } }

  look : {A : Type 0} (f : State → A) → Moves i i (gets f)
  look f = still (Keeps-gets f)

  change_env : (env : Obj) → Moves i i (set_env env)
  change_env env = record { moves = λ base st e. record { ends = e } }

  push : (obj : Obj) → Moves i (suc i) (push_safety obj)
  unfolding push_safety
  push obj = record {
    moves = λ base st e.
        and_then-Post (assert (ltb (length st.safety_buffer) safety_buffer_capacity) st) _
          (assert-Post _ st) (λ u after same. record { ends = omega arith });
  }

  pop : Moves (suc i) i (pop_safety 1)
  unfolding pop_safety
  pop = record {
    moves = λ base st e.
        and_then-Post (assert (leb 1 (length st.safety_buffer)) st) _ (assert-Post _ st)
          (λ u after same. record { ends = length-drop 1 st.safety_buffer ∙ omega arith });
  }

-- The clean-up after a library function: the height is the old one.
cleanup-Post :
    (old_size : ℕ) (st : State)
    → Post (λ u after. length after.safety_buffer ≡ old_size) (cleanup_safety_buffer old_size st)
unfolding cleanup_safety_buffer
cleanup-Post old_size st =
    let buffer = st.safety_buffer in
    and_then-Post (assert (leb old_size (length buffer)) st) _
      (assert-Post (leb old_size (length buffer)) st)
      (λ u st1 (enough : leb old_size (length buffer) ≡ true).
        then_Post (cleanup_loop (length buffer - old_size) buffer st1) _ (λ v st2. record {
          ends =
              length-drop (length buffer - old_size) buffer
              ∙ omega (arith, (leb_iff old_size (length buffer)).0 enough);
        }))

-- At every height, every call of the function leaves the height as it was.
abbrev Level : Cfun → Type 0
Level ev = (i : ℕ) (obj : Obj) → Moves i i (ev obj)

module _ (ev : Cfun) (level : Level ev) where
  eval_list_loop-Moves :
      (i n : ℕ) (b : Builder) (list : Obj) → Moves i i (eval_list_loop ev n b list)
  unfolding eval_list_loop
  eval_list_loop-Moves i zero b list = record { moves = λ base st e. record { ends = tt } }
  eval_list_loop-Moves i (suc n) b list =
      bind (still (Keeps-cell_of_type list CellType.pair)) (λ more.
        choose more
          (bind (still (Keeps-first list)) (λ expr. bind (still (Keeps-rest list)) (λ list'.
            bind (push b.result) (λ u. bind (level (suc i) expr) (λ value. bind pop (λ v.
              bind (still (Keeps-make_pair value qz_null)) (λ inner_elem.
                bind (still (Keeps-add_elem b inner_elem))
                  (λ b'. eval_list_loop-Moves i n b' list'))))))))
          (give b.result))

  eval_list-Moves : (i n : ℕ) (list : Obj) → Moves i i (eval_list ev n list)
  unfolding eval_list
  eval_list-Moves i n list = eval_list_loop-Moves i n no_elements list

  module _ ⦃city : CityHash⦄ where
    bind_params-Moves :
        (i n : ℕ) (frame params args : Obj) → Moves i i (bind_params ev n frame params args)
    unfolding bind_params
    bind_params-Moves i zero frame params args = record {
      moves = λ base st e. record { ends = tt };
    }
    bind_params-Moves i (suc n) frame params args =
        bind (still (Keeps-cell_of_type params CellType.pair)) (λ more.
          choose (not more) (give (frame, params, args)) (
            bind (still (Keeps-first params)) (λ param. bind (still (Keeps-to_pair params)) (λ m.
              bind
                (choose (is_sym param) (give tt) (
                  bind (still (Keeps-unref frame))
                    (λ u. error (codes "function parameter is not a symbol") (param ∷ []))))
                (λ u. bind (still (Keeps-cell_of_type args CellType.pair)) (λ given.
                  bind
                    (choose given (give tt) (
                      bind (still (Keeps-unref frame))
                        (λ v. error (codes "not enough arguments to function") [])))
                    (λ v. bind (still (Keeps-first args)) (λ expr.
                      bind (still (Keeps-rest args)) (λ args'. bind (push frame) (λ w.
                        bind (level (suc i) expr) (λ arg. bind pop (λ x.
                          bind (still (Keeps-hash_set frame param arg))
                            (λ frame'. bind_params-Moves i n frame' m.1 args')))))))))))))

    bind_rest-Moves :
        (i n : ℕ) (frame params args : Obj) → Moves i i (bind_rest ev n frame params args)
    unfolding bind_rest
    bind_rest-Moves i n frame params args = choose (is_null params) (give frame) (
        choose (is_sym params)
          (bind (push frame) (λ u.
            bind (eval_list-Moves (suc i) n args)
              (λ rest_args. bind pop (λ v. still (Keeps-hash_set frame params rest_args)))))
          (bind (still (Keeps-unref frame))
            (λ u. error (codes "invalid function formals") (params ∷ []))))

    eval_in_frame-Moves :
        (i : ℕ) (frame env body : Obj) → Moves i i (eval_in_frame ev frame env body)
    unfolding eval_in_frame
    eval_in_frame-Moves i frame env body = bind (look (λ st. st.env)) (λ old_env.
        bind (still (ref-Keeps env)) (λ e. bind (still (Keeps-make_pair frame e)) (λ inner.
          bind (still (ref-Keeps old_env)) (λ o. bind (still (Keeps-make_pair inner o)) (λ new_env.
            bind (change_env new_env) (λ u. bind (push new_env) (λ v.
              bind (level (suc i) body) (λ result. bind pop (λ w. bind (look (λ st. st.env)) (λ now.
                bind (still (Keeps-unref now))
                  (λ x. bind (change_env old_env) (λ y. give result))))))))))))

    call_function-Moves : (i n : ℕ) (fun args : Obj) → Moves i i (call_function ev n fun args)
    unfolding call_function
    call_function-Moves i n fun args = bind (still (Keeps-first fun)) (λ env.
        bind (still (Keeps-rest fun)) (λ lambda. bind (still (Keeps-first lambda)) (λ params.
          bind (still (Keeps-rest lambda)) (λ body. bind (still Keeps-make_hash) (λ frame.
            bind (bind_params-Moves i n frame params args) (λ r.
              bind (bind_rest-Moves i n r.0 r.1 r.2)
                (λ frame'. eval_in_frame-Moves i frame' env body)))))))

module _ ⦃city : CityHash⦄ (lib : Library) where
  slot_value :
      {i : ℕ} (obj : Obj) (slot : Option Slot)
      → Moves i i {A = Obj} (elim slot [
        | none ↦ qz_error (codes "unbound variable") (obj ∷ [])
        | some s ↦ read_slot s >>= ref
      ])
  slot_value obj none = error (codes "unbound variable") (obj ∷ [])
  slot_value obj (some s) = bind (still (Keeps-read_slot s)) (λ x. still (ref-Keeps x))

  eval_variable-Moves : (i : ℕ) (obj : Obj) → Moves i i (eval_variable obj)
  unfolding eval_variable
  eval_variable-Moves i obj = bind (still (Keeps-lookup obj)) (slot_value obj)

  eval_atom-Moves : (i : ℕ) (obj : Obj) → Moves i i (eval_atom obj)
  unfolding eval_atom
  eval_atom-Moves i obj = choose (is_sym obj) (eval_variable-Moves i obj) (
      choose (is_null obj) (error (codes "cannot evaluate null") []) (
        choose (is_none obj) (error (codes "cannot evaluate unspecified value") [])
          (still (ref-Keeps obj))))

  -- Whatever the library function does, the clean-up after it restores the height.
  cfun-Moves :
      (ev : Cfun) (i n a : ℕ) (args : Obj)
      → Moves i i (do
        old_size ← safety_size
        result ← lib ev n a args
        cleanup_safety_buffer old_size
        pure result)
  cfun-Moves ev i n a args = record {
    moves = λ base st e.
        let old_size = length st.safety_buffer in
        then_Post (lib ev n a args st) _ (λ result st1.
          and_then-Post (cleanup_safety_buffer old_size st1) _ (cleanup-Post old_size st1)
            (λ u st2 h. record { ends = h ∙ e }));
  }

  apply_value-Moves :
      (ev : Cfun)
      → Level ev
      → (i n : ℕ) (fun args : Obj) → Moves i i (apply_value lib ev n fun args)
  unfolding apply_value
  apply_value-Moves ev level i n fun args =
      bind (still (Keeps-cell_of_type fun CellType.fun)) (λ closure.
        choose closure
          (bind (push fun) (λ u.
            bind (call_function-Moves ev level (suc i) n fun args)
              (λ result. bind pop (λ v. bind (still (Keeps-unref fun)) (λ w. give result)))))
          (choose (is_cfun fun) (cfun-Moves ev i n (to_cfun fun) args)
            (bind (push fun) (λ u. error (codes "uncallable value") (fun ∷ [])))))

  required_arg-Moves : {i : ℕ} (obj : Obj) → Moves i i (required_arg obj)
  unfolding required_arg
  required_arg-Moves obj =
      bind (still (Keeps-cell_of_type obj CellType.pair))
        (λ b. choose b (still (Keeps-to_pair obj)) (error (codes "expected list") (obj ∷ [])))

  eval-Moves : (n : ℕ) → Level (eval lib n)
  unfolding eval
  eval-Moves zero i obj = record { moves = λ base st e. record { ends = tt } }
  eval-Moves (suc n) i obj = bind (still (Keeps-cell_of_type obj CellType.pair)) (λ call.
      choose call
        (bind (required_arg-Moves obj) (λ r.
          bind (eval-Moves n i r.0)
            (λ fun. apply_value-Moves (eval lib n) (eval-Moves n) i n fun r.1)))
        (eval_atom-Moves i obj))

  -- qz_eval, over any library and on any fuel, if it returns, leaves the safety buffer with as many
  -- objects as it had: what library functions leave on it is released.
  pub eval-balanced :
      (n : ℕ) (obj : Obj) (st : State)
      → Post
          (λ result after. length after.safety_buffer ≡ length st.safety_buffer)
          (eval lib n obj st)
  eval-balanced n obj st =
      let size = length st.safety_buffer in
      subst (λ h. Post (λ result after. length after.safety_buffer ≡ h) (eval lib n obj st))
        (omega arith) ((eval-Moves n 0 obj).moves size st (omega arith))
