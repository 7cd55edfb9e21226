-- ===== src/Library/Records.antt =====
-- quuz-lib.c, section 5.4: record types, and the functions that they generate.
use quuz.Prelude.{
  ℕ, zero, suc, ◌+◌, ◌^◌, not, Option, none, some, List, [], ◌∷◌, length, get_elem?, set, replicate,
  leb, ltb, if◌then◌else◌,
}
use quuz.Prelude.Text.{codes}
use quuz.Object.Tag.{
  Obj, qz_null, qz_none, qz_true, qz_false, is_none, is_sym, to_fixnum, from_fixnum, from_cfun,
  to_cell, from_cell,
}
use quuz.Object.CellType
use quuz.Machine.Store.{pair, fields}
use quuz.Machine.Outcome.{M, pure, ◌>>=◌, ◌>>◌, crash, gets, skip}
use quuz.Machine.Cell.{load, put, make_cell, make_pair, first, set_rest, is_record}
use quuz.Machine.Array.{list_tail}
use quuz.Collector.{ref, unref}
use quuz.Equal.{eqv}
use quuz.Hash.{CityHash}
use quuz.Runtime.{push_safety, pop_safety, qz_error, required_arg, optional_arg}
use quuz.Eval.{Cfun}
use quuz.Eval.Args.{get_arg, get_args2, required, any, record_type}
use quuz.Symbol.{new_sym}
use quuz.Library.Binding.{set_var}
use quuz.Library.Lists.{list_length}

-- The name and the fields of a record.
unfoldable pub record_at : ℕ → M (Obj × List Obj)
unfolding load
record_at cell = do c ← load cell; elim c.value [ fields name xs ↦ pure (name, xs) | _ ↦ crash ]

-- `for(intptr_t i = 0; i < n; i++)` runs this often.
abbrev pub rounds64 : ℕ → ℕ
rounds64 n = if ltb n (2 ^ 63) then n else 0

-- A loop of qz_required_arg; the rest of the arguments comes last.
unfoldable pub required_args : ℕ → Obj → M (List Obj × Obj)
unfolding required_arg
required_args zero args = pure ([], args)
required_args (suc n) args = do
  (x, args') ← required_arg args
  (xs, left) ← required_args n args'
  pure (x ∷ xs, left)

-- The loop of make_record that sets fields. An index out of range is a fault.
unfoldable pub init_fields : (cell : ℕ) → (init_indices : List Obj) → Obj → M (Unit {0})
unfolding required_arg record_at put to_fixnum
init_fields cell [] args = skip
init_fields cell (i ∷ init_indices) args = do
  (x, args') ← required_arg args
  r ← record_at cell
  (if leb (length r.1) (to_fixnum i)
      then crash
      else put cell (fields r.0 (set r.1 (to_fixnum i) x)))
  init_fields cell init_indices args'

unfoldable pub make_record : Cfun
unfolding required_arg required_args to_fixnum make_cell push_safety init_fields pop_safety
make_record args = do
  (name, args1) ← required_arg args
  (nfields, args2) ← required_arg args1
  (ninit, args3) ← required_arg args2
  (init_indices, args4) ← required_args (rounds64 (to_fixnum ninit)) args3
  cell ←
      make_cell CellType.record_type
        (fields name (replicate (rounds64 (to_fixnum nfields)) qz_none))
  push_safety (from_cell cell)
  init_fields cell init_indices args4
  pop_safety 1
  pure (from_cell cell)

unfoldable pub access_record : Cfun → Cfun
unfolding required_arg get_arg record_at qz_error ref to_fixnum
access_record ev args = do
  (name, args1) ← required_arg args
  (field, args2) ← required_arg args1
  (rec, _) ← get_arg ev (required record_type) args2
  r ← record_at (to_cell rec)
  if not (eqv r.0 name)
      then qz_error (codes "wrong type to record accessor") (r.0 ∷ [])
      else elim (get_elem? r.1 (to_fixnum field)) [ none ↦ crash | some x ↦ ref x ]

-- The value that is stored has one reference more than the record keeps.
unfoldable pub modify_record : Cfun → Cfun
unfolding required_arg get_args2 record_at qz_error unref ref put to_fixnum
modify_record ev args = do
  (name, args1) ← required_arg args
  (field, args2) ← required_arg args1
  (rec, value, _) ← get_args2 ev (required record_type) (required any) args2
  r ← record_at (to_cell rec)
  if not (eqv r.0 name)
      then qz_error (codes "wrong type to record modifier") (r.0 ∷ [])
      else elim (get_elem? r.1 (to_fixnum field)) [
        | none ↦ crash
        | some old ↦ do
          unref old
          v ← ref value
          r' ← record_at (to_cell rec)
          put (to_cell rec) (fields r'.0 (set r'.1 (to_fixnum field) v))
          pure qz_none
      ]

unfoldable pub is_record_of : Cfun → Cfun
unfolding required_arg get_arg record_at
is_record_of ev args = do
  (name, args1) ← required_arg args
  (rec, _) ← get_arg ev (required any) args1
  is ← is_record rec
  if not is
      then pure qz_false
      else do r ← record_at (to_cell rec); pure (if eqv r.0 name then qz_true else qz_false)

-- The addresses of is_record, make_record, access_record and modify_record.
pub record RecordFuns : Type 0 where
  pub is_record_fun : ℕ
  pub make_record_fun : ℕ
  pub access_record_fun : ℕ
  pub modify_record_fun : ℕ

-- The number of the field that has this name.
unfoldable pub field_index : (name : Obj) → (specs : List Obj) → ℕ → M (Option ℕ)
unfolding first
field_index name [] j = pure none
field_index name (f ∷ specs) j = do
  n ← first f
  if eqv name n then pure (some j) else field_index name specs (j + 1)

-- The loop over the constructor's fields.
unfoldable pub ctor_indices : (ninit : ℕ) → (ctor : Obj) → (specs : List Obj) → M (List ℕ)
unfolding required_arg field_index qz_error
ctor_indices zero ctor specs = pure []
ctor_indices (suc ninit) ctor specs = do
  (name, ctor') ← required_arg ctor
  found ← field_index name specs 0
  elim found [
    | none ↦ qz_error (codes "contructor lists unknown field") (name ∷ [])
    | some j ↦ do js ← ctor_indices ninit ctor' specs; pure (j ∷ js)
  ]

-- The loop that links the indices behind `elem`; the result is the last pair.
unfoldable pub link_indices : (elem : Obj) → List ℕ → M Obj
unfolding make_pair from_fixnum set_rest
link_indices elem [] = pure elem
link_indices elem (i ∷ is) = do
  inner_elem ← make_pair (from_fixnum i) qz_null
  set_rest elem inner_elem
  link_indices inner_elem is

module _ ⦃city : CityHash⦄ where
  unfoldable pub make_function : (name formals body : Obj) → M (Unit {0})
  unfolding list_tail ref make_pair make_cell set_var
  make_function name formals body = do
    env ← gets (λ st. st.env)
    frames ← list_tail env
    e ← ref frames
    lambda ← make_pair formals body
    cell ← make_cell CellType.fun (pair e lambda)
    set_var name (from_cell cell)

  -- A function of `args` with the one expression `(fun name . rest)`.
  unfoldable pub make_call : (function_name : Obj) → (fun : ℕ) → (name rest : Obj) → M (Unit {0})
  unfolding make_pair from_cfun make_function
  make_call function_name fun name rest = do
    operands ← make_pair name rest
    fun_call ← make_pair (from_cfun fun) operands
    body ← make_pair fun_call qz_null
    args_sym ← gets (λ st. st.args_sym)
    make_function function_name args_sym body

  unfoldable pub make_constructor :
      RecordFuns → (ctor_name name : Obj) → (nfields : ℕ) → (init_indices : List ℕ) → M (Unit {0})
  unfolding make_pair from_fixnum from_cfun link_indices set_rest make_function
  make_constructor funs ctor_name name nfields init_indices = do
    elem ← make_pair (from_fixnum (length init_indices)) qz_null
    count ← make_pair (from_fixnum nfields) elem
    operands ← make_pair name count
    fun_call ← make_pair (from_cfun funs.make_record_fun) operands
    last ← link_indices elem init_indices
    args_sym ← gets (λ st. st.args_sym)
    set_rest last args_sym
    body ← make_pair fun_call qz_null
    make_function ctor_name args_sym body

  -- An accessor or a modifier, if it has a name.
  unfoldable pub make_field_function :
      (function_name : Obj) → (fun : ℕ) → (name : Obj) → ℕ → M (Unit {0})
  unfolding make_pair from_fixnum make_call
  make_field_function function_name fun name i = if is_none function_name then skip else do
    args_sym ← gets (λ st. st.args_sym)
    rest ← make_pair (from_fixnum i) args_sym
    make_call function_name fun name rest

  -- The loop over the fields.
  unfoldable pub make_field_functions : RecordFuns → (name : Obj) → List Obj → ℕ → M (Unit {0})
  unfolding required_arg optional_arg make_field_function
  make_field_functions funs name [] i = skip
  make_field_functions funs name (field ∷ specs) i = do
    (_, field1) ← required_arg field
    (accessor_name, field2) ← optional_arg field1
    (modifier_name, _) ← optional_arg field2
    make_field_function accessor_name funs.access_record_fun name i
    make_field_function modifier_name funs.modify_record_fun name i
    make_field_functions funs name specs (i + 1)

  unfoldable pub define_record : RecordFuns → (ctor pred_name args : Obj) → M Obj
  unfolding list_length required_args required_arg qz_error ctor_indices new_sym make_call
      make_constructor make_field_functions
  define_record funs ctor pred_name args = do
    nfields ← list_length args
    elim nfields [
      | none ↦ qz_error (codes "expected list for arguments") (args ∷ [])
      | some n ↦ do
        (specs, _) ← required_args n args
        (ctor_name, ctor') ← required_arg ctor
        (if is_sym ctor_name
            then skip
            else qz_error (codes "expected symbol for constructor name") (ctor_name ∷ []))
        ninit ← list_length ctor'
        elim ninit [
          | none ↦ qz_error (codes "expected list for constructor") (ctor' ∷ [])
          | some m ↦ do
            init_indices ← ctor_indices m ctor' specs
            name ← new_sym
            args_sym ← gets (λ st. st.args_sym)
            make_call pred_name funs.is_record_fun name args_sym
            make_constructor funs ctor_name name n init_indices
            make_field_functions funs name specs 0
            pure qz_none
        ]
    ]

  unfoldable pub scm_define_record_type : RecordFuns → Cfun
  unfolding required_arg qz_error define_record
  scm_define_record_type funs args = do
    (_, args1) ← required_arg args
    (ctor, args2) ← required_arg args1
    (pred_name, args3) ← required_arg args2
    if not (is_sym pred_name)
        then qz_error (codes "expected symbol for predicate") (pred_name ∷ [])
        else define_record funs ctor pred_name args3
