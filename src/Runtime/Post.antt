-- ===== src/Runtime/Post.antt =====
-- What holds where a run ends well, and that qz_error never does.
use quuz.Prelude.{ℕ, Bool, true, false, List, if◌then◌else◌}
use quuz.Object.Tag.{Obj, from_cell}
use quuz.Object.CellType
use quuz.Machine.Store.{State, pair}
use quuz.Machine.Outcome.{Outcome, ok, thrown, fault, out_of_fuel, M, and_then}
use quuz.Machine.Cell.{make_cell, make_string}
use quuz.Runtime.{no_elements, irritant_list, qz_error, throw}

abbrev pub EndsIn : {A : Type 0} → (A → State → Type 0) → Outcome A → Type 0
EndsIn P (ok a st) = P a st
EndsIn P _ = Unit {0}

-- A run that ends well only where `P` holds of the result and the state.
pub record Post {A : Type 0} (P : A → State → Type 0) (o : Outcome A) : Type 0 where
  pub ends : EndsIn P o

pub and_then-Post :
    {A B : Type 0} {Q : A → State → Type 0} {P : B → State → Type 0} (o : Outcome A) (k : A → M B)
    → Post Q o
    → ((a : A) (st : State) → Q a st → Post P (k a st))
    → Post P (and_then o k)
and_then-Post (ok a st) k q h = h a st q.ends
and_then-Post (thrown st) k q h = record { ends = tt }
and_then-Post fault k q h = record { ends = tt }
and_then-Post out_of_fuel k q h = record { ends = tt }

abbrev Anything : {A : Type 0} → A → State → Type 0
Anything a st = Unit {0}

any_Post : {A : Type 0} (o : Outcome A) → Post Anything o
any_Post (ok a st) = record { ends = tt }
any_Post (thrown st) = record { ends = tt }
any_Post fault = record { ends = tt }
any_Post out_of_fuel = record { ends = tt }

-- Whatever the first step does, the second one is left.
pub then_Post :
    {A B : Type 0} {P : B → State → Type 0} (o : Outcome A) (k : A → M B)
    → ((a : A) (st : State) → Post P (k a st))
    → Post P (and_then o k)
then_Post o k h = and_then-Post o k (any_Post o) (λ a st u. h a st)

module _ {A : Type 0} {P : A → State → Type 0} where
  throw-Post : (st : State) → Post P (throw {A = A} st)
  unfolding throw
  throw-Post st = elim st.peval_fail as (λ b. Post P (if b then thrown st else fault)) [
    | true ↦ record { ends = tt }
    | false ↦ record { ends = tt }
  ]

  -- qz_error does not return.
  pub qz_error-Post :
      (msg : List ℕ) (objs : List Obj) (st : State) → Post P (qz_error {A = A} msg objs st)
  unfolding qz_error
  qz_error-Post msg objs st = then_Post (irritant_list no_elements objs st) _ (λ irritants st1.
      then_Post (make_string msg st1) _ (λ message st2.
        then_Post (make_cell CellType.error (pair message irritants) st2) _
          (λ cell st3. throw-Post (record st3 { error_obj = from_cell cell }))))

pub choose_Post :
    {A : Type 0} {P : A → State → Type 0} (b : Bool) (m n : M A) (st : State)
    → Post P (m st)
    → Post P (n st)
    → Post P ((if b then m else n) st)
choose_Post true m n st x y = x
choose_Post false m n st x y = y
