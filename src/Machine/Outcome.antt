-- ===== src/Machine/Outcome.antt =====
-- Runs of the C code: how they end, and their sequencing.
use quuz.Prelude.{Bool, true, false}
use quuz.Machine.Store.{State}

-- `thrown` is a `longjmp` to the innermost `qz_peval`; the state keeps what was changed before it.
pub data Outcome (A : Type 0) : Type 0 where
  ok : A → State → Outcome A
  thrown : State → Outcome A
  fault : Outcome A
  out_of_fuel : Outcome A

abbrev pub M : Type 0 → Type 0
M A = State → Outcome A

abbrev pub pure : {A : Type 0} → A → M A
pure a st = ok a st

abbrev pub and_then : {A B : Type 0} → Outcome A → (A → M B) → Outcome B
and_then (ok a st) k = k a st
and_then (thrown st) k = thrown st
and_then fault k = fault
and_then out_of_fuel k = out_of_fuel

infixl 5 ◌>>=◌ ◌>>◌
abbrev pub ◌>>=◌ : {A B : Type 0} → M A → (A → M B) → M B
◌>>=◌ m k st = and_then (m st) k

abbrev pub ◌>>◌ : {B : Type 0} → M (Unit {0}) → M B → M B
◌>>◌ m k st = and_then (m st) (λ _. k)

abbrev pub crash : {A : Type 0} → M A
crash st = fault

-- `assert(b)`
abbrev pub assert : Bool → M (Unit {0})
assert true st = ok tt st
assert false st = fault

abbrev pub gets : {A : Type 0} → (State → A) → M A
gets f st = ok (f st) st

abbrev pub modify : (State → State) → M (Unit {0})
modify f st = ok tt (f st)

abbrev pub skip : M (Unit {0})
skip st = ok tt st
