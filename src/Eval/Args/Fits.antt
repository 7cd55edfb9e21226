-- ===== src/Eval/Args/Fits.antt =====
-- What qz_get_args of quuz-util.c promises about an argument it returns.
use quuz.Prelude.{
  arith, ℕ, ◌≡◌, refl, Bool, true, false, Bool-cases, inl, inr, not, ◌++◌, leb, length, drop,
  Option, none, some, List, [], ◌∷◌, ◌==◌, if◌then◌else◌,
}
use quuz.Object.Tag.{
  Obj, is_null, is_cell, to_cell, is_none, is_fixnum, is_cfun, is_sym, is_bool, is_char,
}
use quuz.Object.Info.{cell_type}
use quuz.Object.CellType
use quuz.Machine.Store.{State, Cell}
use quuz.Machine.Outcome.{ok, fault, M, and_then, pure, skip, assert, modify}
use quuz.Machine.Cell.{cell_of_type, is_pair, load, first, rest}
use quuz.Collector.{ref}
use quuz.Prelude.Text.{codes, decimal}
use quuz.Runtime.{push_safety, pop_safety, qz_error}
use quuz.Runtime.Post.{Post, and_then-Post, then_Post, choose_Post, qz_error-Post}
use quuz.Eval.{Cfun}
use quuz.Eval.Args.{
  Kind, any, fixnum, cfun, sym, bool, char, fun, promise, vector, bytevector, hash, record_type,
  port, real, Spec, type_name, required, is_type, take_arg, only, get_arg, get_args, get_args_loop,
}

-- What a test of a type finds, if the cell is there.
pub cell_test : (ℕ → Option Cell) → Obj → ℕ → Option Bool
cell_test heap obj type =
    if is_cell obj
    then (if to_cell obj == 0
        then some false
        else elim (heap (to_cell obj)) [ none ↦ none | some c ↦ some (cell_type c.info == type) ])
    else some false

unfoldable pub type_test : (ℕ → Option Cell) → Obj → Kind → Option Bool
type_test heap obj any = some (not (is_none obj))
type_test heap obj fixnum = some (is_fixnum obj)
type_test heap obj cfun = some (is_cfun obj)
type_test heap obj sym = some (is_sym obj)
type_test heap obj bool = some (is_bool obj)
type_test heap obj char = some (is_char obj)
type_test heap obj Kind.pair = cell_test heap obj CellType.pair
type_test heap obj fun = cell_test heap obj CellType.fun
type_test heap obj promise = cell_test heap obj CellType.promise
type_test heap obj Kind.error = cell_test heap obj CellType.error
type_test heap obj Kind.string = cell_test heap obj CellType.string
type_test heap obj vector = cell_test heap obj CellType.vector
type_test heap obj bytevector = cell_test heap obj CellType.bytevector
type_test heap obj hash = cell_test heap obj CellType.hash
type_test heap obj record_type = cell_test heap obj CellType.record_type
type_test heap obj port = cell_test heap obj CellType.port
type_test heap obj real = cell_test heap obj CellType.real

-- The run of a test: a missing cell is a bad access.
abbrev pub tested : Option Bool → M Bool
tested none st = fault
tested (some b) st = ok b st

-- A cell has one type only.
pub cell_test-other :
    (heap : ℕ → Option Cell) (obj : Obj) (t u : ℕ)
    → cell_test heap obj t ≡ some true
    → (t == u) ≡ false
    → cell_test heap obj u ≡ some false
unfolding cell_test
cell_test-other heap obj t u is ne = ground arith

loaded :
    (obj : Obj) (type : ℕ) (st : State) (o : Option Cell)
    → st.heap (to_cell obj) ≡ o
    → and_then (load (to_cell obj) st) (λ c. pure (cell_type c.info == type))
      ≡ tested
          (elim o as (λ x. Option Bool) [ none ↦ none | some c ↦ some (cell_type c.info == type) ])
          st
unfolding load
loaded obj type st none e = rw (e, and_then) refl
loaded obj type st (some c) e = rw (e, and_then) refl

pub cell_of_type-test :
    (obj : Obj) (type : ℕ) (st : State)
    → cell_of_type obj type st ≡ tested (cell_test st.heap obj type) st
unfolding cell_of_type cell_test load
cell_of_type-test obj type st = elim (Bool-cases (is_cell obj)) [
  | inl c ↦ elim (Bool-cases (to_cell obj == 0)) [
    | inl z ↦ rw (c, z) refl
    | inr z ↦ rw (c, z) (loaded obj type st (st.heap (to_cell obj)) refl)
  ]
  | inr c ↦ rw c refl
]

is_type-test :
    (obj : Obj) (kind : Kind) (st : State)
    → is_type obj kind st ≡ tested (type_test st.heap obj kind) st
unfolding is_type type_test
is_type-test obj any st = refl
is_type-test obj fixnum st = refl
is_type-test obj cfun st = refl
is_type-test obj sym st = refl
is_type-test obj bool st = refl
is_type-test obj char st = refl
is_type-test obj Kind.pair st = cell_of_type-test obj _ st
is_type-test obj fun st = cell_of_type-test obj _ st
is_type-test obj promise st = cell_of_type-test obj _ st
is_type-test obj Kind.error st = cell_of_type-test obj _ st
is_type-test obj Kind.string st = cell_of_type-test obj _ st
is_type-test obj vector st = cell_of_type-test obj _ st
is_type-test obj bytevector st = cell_of_type-test obj _ st
is_type-test obj hash st = cell_of_type-test obj _ st
is_type-test obj record_type st = cell_of_type-test obj _ st
is_type-test obj port st = cell_of_type-test obj _ st
is_type-test obj real st = cell_of_type-test obj _ st

-- The object is of the kind, in this state.
unfoldable pub Fits : Kind → Obj → State → Type 0
Fits kind obj st = type_test st.heap obj kind ≡ some true

-- The check of one argument.
checked-Post :
    (kind : Kind) (obj args : Obj) (msg : List ℕ) (o : Option Bool) (st : State)
    → type_test st.heap obj kind ≡ o
    → Post
        (λ (r : Obj × Obj). Fits kind r.0)
        (and_then (tested o st) (λ fits s.
          and_then ((if fits then skip else qz_error msg (obj ∷ [])) s) (λ u. pure (obj, args))))
unfolding Fits
checked-Post kind obj args msg none st e = record { ends = tt }
checked-Post kind obj args msg (some true) st e = record { ends = e }
checked-Post kind obj args msg (some false) st e =
    and_then-Post _ _ (qz_error-Post {P = λ u. Fits kind obj} msg (obj ∷ []) st)
      (λ u s h. record { ends = h })

abbrev misfit : Kind → ℕ → List ℕ
misfit kind nargs =
    codes "expected " ++ (type_name kind ++ (codes " at argument " ++ decimal nargs))

abbrev missing_arg : Kind → List ℕ
missing_arg kind = codes "missing " ++ (type_name kind ++ (codes " at argument " ++ decimal 0))

-- Removing objects from the safety buffer touches no cell.
pop_safety-Post :
    (kind : Kind) (obj : Obj) (n : ℕ) (st : State)
    → Fits kind obj st
    → Post (λ u. Fits kind obj) (pop_safety n st)
unfolding pop_safety Fits
pop_safety-Post kind obj n st h =
    elim (leb n (length st.safety_buffer))
      as (λ b.
        Post (λ u. Fits kind obj)
          (and_then (assert b st)
            (λ u. modify (λ s. record s { safety_buffer = drop n st.safety_buffer })))) [
              | true ↦ record { ends = h }
              | false ↦ record { ends = tt }
            ]

-- The first object of a list is of the kind.
pub FirstFits : Kind → List Obj → State → Type 0
FirstFits kind [] st = Unit {0}
FirstFits kind (obj ∷ objs) st = Fits kind obj st

-- The object of a list of one.
given_Post :
    (kind : Kind) (r : List Obj × Obj) (st : State)
    → FirstFits kind r.0 st
    → Post (λ (x : Obj × Obj). Fits kind x.0) (only r.0 r.1 st)
unfolding FirstFits
given_Post kind ([], left) st h = record { ends = tt }
given_Post kind (a ∷ [], left) st h = record { ends = h }
given_Post kind (a ∷ b ∷ more, left) st h = record { ends = tt }

abbrev no_objs : List Obj
no_objs = []

module _ (ev : Cfun) where
  take_arg-Post :
      (s : Spec) (nargs : ℕ) (args : Obj) (st : State)
      → Post (λ r. Fits s.kind r.0) (take_arg ev s nargs args st)
  unfolding take_arg
  take_arg-Post s nargs args st = then_Post (first args st) _ (λ expr s1.
      then_Post (rest args s1) _ (λ args' s2.
        then_Post ((if s.evaluated then ev expr else ref expr) s2) _ (λ obj s3.
          then_Post (push_safety obj s3) _ (λ u s4.
            rw (is_type-test obj s.kind s4)
              (checked-Post s.kind obj args' (misfit s.kind nargs) _ s4 refl)))))

  get_args-Post :
      (kind : Kind) (args : Obj) (st : State)
      → Post (λ r. FirstFits kind r.0) (get_args ev (required kind ∷ []) args st)
  unfolding get_args get_args_loop FirstFits
  get_args-Post kind args st = then_Post (is_pair args st) _ (λ more s1.
      choose_Post more _ _ s1
        (and_then-Post (take_arg ev (required kind) 1 args s1) _
          (take_arg-Post (required kind) 1 args s1)
          (λ r s2 h.
            and_then-Post _ _
              (and_then-Post {P = λ x. Fits kind r.0} (pop_safety 1 s2) (λ u. pure (no_objs, r.1))
                (pop_safety-Post kind r.0 1 s2 h) (λ u s3 h'. record { ends = h' }))
              (λ x s3 h'. record { ends = h' })))
        (choose_Post (is_null args) _ _ s1 (qz_error-Post (missing_arg kind) [] s1)
          (qz_error-Post (codes "improper argument list") (args ∷ []) s1)))

  -- qz_get_args with one required argument: for any evaluator, specifier and argument list, if it
  -- returns, then the object it stores is of the kind asked for, in the state in which it returns.
  pub get_arg-Fits :
      (kind : Kind) (args : Obj) (st : State)
      → Post (λ r. Fits kind r.0) (get_arg ev (required kind) args st)
  unfolding get_arg FirstFits
  get_arg-Fits kind args st =
      and_then-Post (get_args ev (required kind ∷ []) args st) _ (get_args-Post kind args st)
        (given_Post kind)
