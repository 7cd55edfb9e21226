-- ===== src/Machine/Keeps.antt =====
-- Runs that raise no error and leave the control state alone: the safety buffer, the jump target, the
-- environment, and the error handler and object.
pub mod Cells
use quuz.Prelude.{ℕ, ◌≡◌, refl, ◌∙◌, Bool, true, false, List, inl, inr, if◌then◌else◌, Option-cases}
use quuz.Object.Tag.{Obj}
use quuz.Machine.Store.{State, Cell, Payload, pair}
use quuz.Machine.Outcome.{
  Outcome, ok, thrown, fault, out_of_fuel, M, and_then, pure, crash, gets, assert,
}
use quuz.Machine.Cell.{load, store, update_info, pair_at, release_memory}

pub record Control : Type 0 where
  pub safety_buffer : List Obj
  pub peval_fail : Bool
  pub env : Obj
  pub error_handler : Obj
  pub error_obj : Obj

abbrev pub control : State → Control
control st = record {
  safety_buffer = st.safety_buffer;
  peval_fail = st.peval_fail;
  env = st.env;
  error_handler = st.error_handler;
  error_obj = st.error_obj;
}

abbrev pub Kept : {A : Type 0} → State → Outcome A → Type 0
Kept st (ok a after) = control after ≡ control st
Kept st (thrown after) = ⊥
Kept st fault = Unit {0}
Kept st out_of_fuel = Unit {0}

pub record Keeps {A : Type 0} (m : M A) : Type 0 where
  pub kept : (st : State) → Kept st (m st)

weaken :
    {A : Type 0} (st st' : State) (o : Outcome A)
    → control st' ≡ control st
    → Kept st' o
    → Kept st o
weaken st st' (ok a after) e k = k ∙ e
weaken st st' (thrown after) e k = k
weaken st st' fault e k = tt
weaken st st' out_of_fuel e k = tt

Kept-and_then :
    {A B : Type 0} (st : State) (o : Outcome A) (k : A → M B)
    → Kept st o
    → ((a : A) → Keeps (k a))
    → Kept st (and_then o k)
Kept-and_then st (ok x after) k e b = weaken st after (k x after) e ((b x).kept after)
Kept-and_then st (thrown after) k e b = e
Kept-and_then st fault k e b = tt
Kept-and_then st out_of_fuel k e b = tt

pub Keeps-bind :
    {A B : Type 0} {m : M A} {k : A → M B}
    → Keeps m
    → ((a : A) → Keeps (k a))
    → Keeps (λ st. and_then (m st) k)
Keeps-bind {m = m} {k = k} a b = record { kept = λ st. Kept-and_then st (m st) k (a.kept st) b }

pub Keeps-then :
    {B : Type 0} {m : M (Unit {0})} {k : M B}
    → Keeps m
    → Keeps k
    → Keeps (λ st. and_then (m st) (λ u. k))
Keeps-then a b = Keeps-bind a (λ u. b)

pub Keeps-if : {A : Type 0} (b : Bool) {m n : M A} → Keeps m → Keeps n → Keeps (if b then m else n)
Keeps-if true a b = a
Keeps-if false a b = b

pub Keeps-pure : {A : Type 0} (a : A) → Keeps (pure a)
Keeps-pure a = record { kept = λ st. refl }

pub Keeps-crash : {A : Type 0} → Keeps {A = A} crash
Keeps-crash = record { kept = λ st. tt }

pub Keeps-fuel : {A : Type 0} → Keeps {A = A} (λ st. out_of_fuel)
Keeps-fuel = record { kept = λ st. tt }

pub Keeps-gets : {A : Type 0} (f : State → A) → Keeps (gets f)
Keeps-gets f = record { kept = λ st. refl }

Kept-assert : (b : Bool) (st : State) → Kept st (assert b st)
Kept-assert true st = refl
Kept-assert false st = tt

pub Keeps-assert : (b : Bool) → Keeps (assert b)
Keeps-assert b = record { kept = Kept-assert b }

pub Keeps-load : (p : ℕ) → Keeps (load p)
unfolding load
Keeps-load p = record {
  kept =
      λ st. elim (Option-cases (st.heap p)) [ inl e ↦ rw (load, e) tt | inr (c, e) ↦ rw (load, e) ];
}

pub Keeps-store : (p : ℕ) (c : Cell) → Keeps (store p c)
unfolding store
Keeps-store p c = record {
  kept = λ st. elim (Option-cases (st.heap p)) [
    | inl e ↦ rw (store, e) tt
    | inr (d, e) ↦ rw (store, e)
  ];
}

pub Keeps-release : (p : ℕ) → Keeps (release_memory p)
unfolding release_memory
Keeps-release p = record {
  kept = λ st. elim (Option-cases (st.heap p)) [
    | inl e ↦ rw (release_memory, e) tt
    | inr (d, e) ↦ rw (release_memory, e)
  ];
}

pub Keeps-update_info : (p : ℕ) (f : ℕ → ℕ) → Keeps (update_info p f)
unfolding update_info
Keeps-update_info p f = Keeps-bind (Keeps-load p) (λ c. Keeps-store p _)

pub Keeps-pair_at : (p : ℕ) → Keeps (pair_at p)
unfolding pair_at
Keeps-pair_at p = Keeps-bind (Keeps-load p) (λ c. of_payload c.value)
  where
    of_payload :
        (v : Payload) → Keeps {A = Obj × Obj} (elim v [ pair a b ↦ pure (a, b) | _ ↦ crash ])
    of_payload (pair a b) = Keeps-pure (a, b)
    of_payload _ = Keeps-crash
