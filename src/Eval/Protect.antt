-- ===== src/Eval/Protect.antt =====
-- No error leaves qz_peval.
use quuz.Prelude.{
  ◌≡◌, sym, subst, refl, ℕ, zero, suc, ◌-◌, Bool, true, false, List, [], ◌∷◌, length, leb, ◌==◌,
  if◌then◌else◌,
}
use quuz.Object.Tag.{Obj, qz_null, qz_none, is_none, is_cell, to_cell}
use quuz.Machine.Store.{State}
use quuz.Machine.Outcome.{
  Outcome, ok, thrown, fault, out_of_fuel, M, ◌>>=◌, ◌>>◌, and_then, pure, gets, modify,
}
use quuz.Machine.Cell.{cell_ptr, rest, make_cell, make_pair}
use quuz.Machine.Keeps.{Kept, Keeps, Keeps-assert, Keeps-pair_at}
use quuz.Collector.{unref}
use quuz.Collector.Control.{unref-Keeps, ref-Keeps}
use quuz.Runtime.{cleanup_loop, cleanup_safety_buffer, safety_size}
use quuz.Eval.{Cfun, handle_error, catch, peval}

-- The run raised no error.
abbrev pub Contained : {A : Type 0} → Outcome A → Type 0
Contained (ok a st) = Unit {0}
Contained (thrown st) = ⊥
Contained fault = Unit {0}
Contained out_of_fuel = Unit {0}

record Quiet {A : Type 0} (m : M A) : Type 0 where
  contained : (st : State) → Contained (m st)

of_Kept : {A : Type 0} (st : State) (o : Outcome A) → Kept st o → Contained o
of_Kept st (ok a after) k = tt
of_Kept st (thrown after) k = k
of_Kept st fault k = tt
of_Kept st out_of_fuel k = tt

Quiet-Keeps : {A : Type 0} {m : M A} → Keeps m → Quiet m
Quiet-Keeps {m = m} k = record { contained = λ st. of_Kept st (m st) (k.kept st) }

Contained-and_then :
    {A B : Type 0} (o : Outcome A) (k : A → M B)
    → Contained o
    → ((a : A) → Quiet (k a))
    → Contained (and_then o k)
Contained-and_then (ok x after) k c b = (b x).contained after
Contained-and_then (thrown after) k c b = c
Contained-and_then fault k c b = tt
Contained-and_then out_of_fuel k c b = tt

Quiet-bind :
    {A B : Type 0} {m : M A} {k : A → M B}
    → Quiet m
    → ((a : A) → Quiet (k a))
    → Quiet (λ st. and_then (m st) k)
Quiet-bind {m = m} {k = k} a b = record {
  contained = λ st. Contained-and_then (m st) k (a.contained st) b;
}

Quiet-if : {A : Type 0} (b : Bool) {m n : M A} → Quiet m → Quiet n → Quiet (if b then m else n)
Quiet-if true a b = a
Quiet-if false a b = b

Quiet-pure : {A : Type 0} (a : A) → Quiet (pure a)
Quiet-pure a = record { contained = λ st. tt }

Quiet-modify : (f : State → State) → Quiet (modify f)
Quiet-modify f = record { contained = λ st. tt }

Quiet-gets : {A : Type 0} (f : State → A) → Quiet (gets f)
Quiet-gets f = record { contained = λ st. tt }

unref-Quiet : (obj : Obj) → Quiet (unref obj)
unref-Quiet obj = record { contained = λ st. of_Kept st (unref obj st) (unref-Keeps obj st) }

rest-Quiet : (obj : Obj) → Quiet (rest obj)
unfolding rest cell_ptr
rest-Quiet obj =
    Quiet-bind
      (Quiet-bind (Quiet-Keeps (Keeps-assert (is_cell obj))) (λ u. Quiet-pure (to_cell obj)))
      (λ p. Quiet-bind (Quiet-Keeps (Keeps-pair_at p)) (λ m. Quiet-pure m.1))

make_pair-Quiet : (front back : Obj) → Quiet (make_pair front back)
unfolding make_pair make_cell
make_pair-Quiet front back = record { contained = λ st. tt }

cleanup_loop-Quiet : (n : ℕ) (buffer : List Obj) → Quiet (cleanup_loop n buffer)
unfolding cleanup_loop
cleanup_loop-Quiet (suc n) (obj ∷ buffer) = Quiet-bind (Quiet-gets (λ (st : State). st.env)) (λ env.
    Quiet-bind
      (Quiet-if (obj == env) (Quiet-bind (rest-Quiet env) (λ outer. Quiet-modify _))
        (Quiet-pure tt))
      (λ u. Quiet-bind (unref-Quiet obj) (λ v. cleanup_loop-Quiet n buffer)))
cleanup_loop-Quiet zero buffer = Quiet-pure tt
cleanup_loop-Quiet (suc n) [] = Quiet-pure tt

cleanup_safety_buffer-Quiet : (old_size : ℕ) → Quiet (cleanup_safety_buffer old_size)
unfolding cleanup_safety_buffer
cleanup_safety_buffer-Quiet old_size =
    Quiet-bind (Quiet-gets (λ (st : State). st.safety_buffer)) (λ buffer.
      Quiet-bind (Quiet-Keeps (Keeps-assert (leb old_size (length buffer)))) (λ u.
        Quiet-bind (cleanup_loop-Quiet (length buffer - old_size) buffer) (λ v. Quiet-modify _)))

handle_error-Quiet :
    (ev : Cfun) (handler : Obj) (again : Cfun)
    → ((obj : Obj) → Quiet (again obj))
    → (old_size : ℕ) → Quiet (handle_error ev handler again old_size)
unfolding handle_error
handle_error-Quiet ev handler again q old_size =
    Quiet-bind (Quiet-gets (λ (st : State). st.error_handler)) (λ old_handler.
      Quiet-bind
        (Quiet-if (is_none old_handler) (Quiet-pure qz_none) (
          Quiet-bind (Quiet-modify _) (λ u₁. Quiet-bind (Quiet-Keeps (ref-Keeps old_handler)) (λ h.
            Quiet-bind (Quiet-gets (λ (st : State). st.error_obj)) (λ error_obj.
              Quiet-bind (make_pair-Quiet error_obj qz_null) (λ args.
                Quiet-bind (make_pair-Quiet h args) (λ handler_call.
                  Quiet-bind (Quiet-modify (λ st. record st { error_obj = qz_none })) (λ u₂.
                    Quiet-bind (q handler_call) (λ r. Quiet-bind (unref-Quiet handler_call) (λ u₃.
                      Quiet-bind (Quiet-modify (λ st. record st { error_handler = old_handler }))
                        (λ u₄. Quiet-pure r)))))))))))
        (λ result. Quiet-bind (cleanup_safety_buffer-Quiet old_size) (λ u. Quiet-pure result)))

catch-Contained :
    (ev : Cfun) (handler : Obj) (o : Outcome Obj) (recover : M Obj)
    → Quiet recover
    → Contained (catch ev handler o recover)
catch-Contained ev handler (ok a st) recover q = tt
catch-Contained ev handler (thrown st) recover q = q.contained st
catch-Contained ev handler fault recover q = tt
catch-Contained ev handler out_of_fuel recover q = tt

-- Not an error, and the jump target is the given one.
abbrev pub Protected : Bool → Outcome Obj → Type 0
Protected target (ok a after) = after.peval_fail ≡ target
Protected target (thrown after) = ⊥
Protected target fault = Unit {0}
Protected target out_of_fuel = Unit {0}

and_then_assoc :
    (o : Outcome (Unit {0})) (m : Unit {0} → M Obj) (k : Obj → M Obj)
    → and_then o (λ u st. and_then (m u st) k) ≡ and_then (and_then o m) k
and_then_assoc (ok u st) m k = refl
and_then_assoc (thrown st) m k = refl
and_then_assoc fault m k = refl
and_then_assoc out_of_fuel m k = refl

Protected-Contained : (target : Bool) (o : Outcome Obj) → Protected target o → Contained o
Protected-Contained target (ok a st) p = tt
Protected-Contained target (thrown st) p = p
Protected-Contained target fault p = tt
Protected-Contained target out_of_fuel p = tt

restored :
    (target : Bool) (o : Outcome Obj)
    → Contained o
    → Protected target (and_then o (λ result st. ok result (record st { peval_fail = target })))
restored target (ok a st) c = refl
restored target (thrown st) c = c
restored target fault c = tt
restored target out_of_fuel c = tt

module _ (ev : Cfun) (handler : Obj) where
  -- The lines of qz_peval before the last restores the jump target.
  guarded : ℕ → (obj : Obj) → M Obj
  unfolding handle_error unref
  guarded n obj = do
    modify (λ st. record st { peval_fail = true })
    old_size ← safety_size
    error_obj ← gets (λ st. st.error_obj)
    unref error_obj
    modify (λ st. record st { error_obj = qz_none })
    (λ st. catch ev handler (ev obj st) (handle_error ev handler (peval ev handler n) old_size))

  guarded-Quiet :
      (n : ℕ) → ((obj : Obj) → Quiet (peval ev handler n obj)) → (obj : Obj) → Quiet (guarded n obj)
  unfolding guarded
  guarded-Quiet n q obj = Quiet-bind (Quiet-modify (λ st. record st { peval_fail = true })) (λ u₁.
      Quiet-bind (Quiet-gets (λ (st : State). length st.safety_buffer)) (λ old_size.
        Quiet-bind (Quiet-gets (λ (st : State). st.error_obj)) (λ error_obj.
          Quiet-bind (unref-Quiet error_obj) (λ u₂.
            Quiet-bind (Quiet-modify (λ st. record st { error_obj = qz_none })) (λ u₃. record {
              contained = λ st.
                  catch-Contained ev handler (ev obj st) _
                    ((handle_error-Quiet ev handler (peval ev handler n) q old_size));
            })))))

  peval-guarded :
      (n : ℕ) (obj : Obj) (st : State)
      → peval ev handler (suc n) obj st
        ≡ and_then
            (guarded n obj st)
            (λ result st'. ok result (record st' { peval_fail = st.peval_fail }))
  unfolding peval guarded
  peval-guarded n obj st =
      let started : State = record st { peval_fail = true } in
      and_then_assoc (unref st.error_obj started)
        (λ u st'.
          catch ev handler (ev obj (record st' { error_obj = qz_none }))
            (handle_error ev handler (peval ev handler n) (length st.safety_buffer)))
        (λ result st'. ok result (record st' { peval_fail = st.peval_fail }))

  -- Whatever the evaluator and the handlers do, on any fuel, qz_peval raises no error to its caller,
  -- and if it returns, the jump target of its caller is in place again.
  pub peval-Protected :
      (n : ℕ) (obj : Obj) (st : State) → Protected st.peval_fail (peval ev handler n obj st)
  unfolding peval
  peval-Protected zero obj st = tt
  peval-Protected (suc n) obj st =
      let q : (o : Obj) → Quiet (peval ev handler n o) = λ o. record {
        contained =
            λ s. Protected-Contained s.peval_fail (peval ev handler n o s) (peval-Protected n o s);
      } in
      subst (Protected st.peval_fail) (sym (peval-guarded n obj st))
        (restored st.peval_fail (guarded n obj st) ((guarded-Quiet n q obj).contained st))
