-- ===== src/Runtime.antt =====
-- The parts of quuz-state.c that the evaluator stands on: the safety buffer, errors and variable
-- lookup; and the argument walkers of quuz-object.c.
pub mod Control
pub mod Lookup
pub mod Errors
pub mod Post
use quuz.Prelude.{
  ℕ, zero, suc, ◌+◌, ◌-◌, Bool, true, false, Option, none, some, List, [], ◌∷◌, length, drop, ltb,
  leb, ◌==◌, if◌then◌else◌,
}
use quuz.Object.Tag.{Obj, qz_null, qz_none, is_null, from_cell}
use quuz.Object.CellType
use quuz.Machine.Store.{State, pair}
use quuz.Machine.Outcome.{
  ok, thrown, fault, out_of_fuel, M, pure, ◌>>=◌, ◌>>◌, assert, gets, modify, skip,
}
use quuz.Machine.Cell.{is_pair, make_cell, make_string, make_pair, first, rest, to_pair, set_rest}
use quuz.Collector.{ref, unref}
use quuz.Hash.{CityHash, Slot, hash_get}
use quuz.Prelude.Text.{codes}

-- QZ_SAFETY_BUFFER_CAPACITY
abbrev pub safety_buffer_capacity : ℕ
safety_buffer_capacity = 16

-- The buffer is held with the newest object first.
unfoldable pub push_safety : Obj → M (Unit {0})
push_safety obj = do
  buffer ← gets (λ st. st.safety_buffer)
  assert (ltb (length buffer) safety_buffer_capacity)
  modify (λ st. record st { safety_buffer = obj ∷ buffer })

unfoldable pub pop_safety : ℕ → M (Unit {0})
pop_safety nobj = do
  buffer ← gets (λ st. st.safety_buffer)
  assert (leb nobj (length buffer))
  modify (λ st. record st { safety_buffer = drop nobj buffer })

-- `st->safety_buffer_size`
abbrev pub safety_size : M ℕ
safety_size = gets (λ st. length st.safety_buffer)

-- The loop of cleanup_safety_buffer over the newest `n` objects.
unfoldable pub cleanup_loop : ℕ → List Obj → M (Unit {0})
unfolding rest unref
cleanup_loop (suc n) (safety_obj ∷ buffer) = do
  env ← gets (λ st. st.env)
  (if safety_obj == env
      then (do outer ← rest env; modify (λ st. record st { env = outer }))
      else skip)
  unref safety_obj
  cleanup_loop n buffer
cleanup_loop _ _ = skip

unfoldable pub cleanup_safety_buffer : ℕ → M (Unit {0})
unfolding cleanup_loop
cleanup_safety_buffer old_size = do
  buffer ← gets (λ st. st.safety_buffer)
  assert (leb old_size (length buffer))
  cleanup_loop (length buffer - old_size) buffer
  modify (λ st. record st { safety_buffer = drop (length buffer - old_size) buffer })

-- The two variables with which the source builds a list from its front: `result`, and `elem`, the
-- last pair of it.
pub record Builder : Type 0 where
  pub result : Obj
  pub elem : Obj

-- `elem` is not set before the first element.
abbrev pub no_elements : Builder
no_elements = record { result = qz_null; elem = qz_null }

-- Add a new last pair, `if(qz_is_null(result)) ... else qz_to_pair(elem)->rest = inner_elem ...`.
unfoldable pub add_elem : Builder → Obj → M Builder
unfolding set_rest
add_elem b inner_elem =
    if is_null b.result
    then pure (record { result = inner_elem; elem = inner_elem })
    else (do set_rest b.elem inner_elem; pure (record { result = b.result; elem = inner_elem }))

-- The loop of qz_error over its irritants.
unfoldable pub irritant_list : Builder → List Obj → M Obj
unfolding ref make_pair add_elem
irritant_list b [] = pure b.result
irritant_list b (obj ∷ objs) = do
  o ← ref obj
  inner_elem ← make_pair o qz_null
  b' ← add_elem b inner_elem
  irritant_list b' objs

-- `longjmp(*st->peval_fail, 1)`
unfoldable pub throw : {A : Type 0} → M A
throw st = if st.peval_fail then thrown st else fault

-- `qz_error`; it does not return.
unfoldable pub qz_error : {A : Type 0} → List ℕ → List Obj → M A
unfolding irritant_list make_cell make_string throw
qz_error msg objs = do
  irritants ← irritant_list no_elements objs
  message ← make_string msg
  cell ← make_cell CellType.error (pair message irritants)
  modify (λ st. record st { error_obj = from_cell cell })
  throw

-- `qz_list_head`
unfoldable pub list_head : Obj → M Obj
unfolding to_pair
list_head obj = do m ← to_pair obj; pure m.0

-- The result and what `*obj` is afterwards.
unfoldable pub required_arg : Obj → M (Obj × Obj)
unfolding to_pair qz_error
required_arg obj = do
  b ← is_pair obj
  (if b then to_pair obj else qz_error (codes "expected list") (obj ∷ []))

unfoldable pub optional_arg : Obj → M (Obj × Obj)
unfolding to_pair
optional_arg obj = do b ← is_pair obj; (if b then to_pair obj else pure (qz_none, obj))

module _ ⦃city : CityHash⦄ where
  -- The loop of qz_lookup; `scope` is the list of frames that is left.
  unfoldable pub lookup_loop : ℕ → Obj → Obj → M (Option Slot)
  unfolding to_pair hash_get
  lookup_loop zero scope sym st = out_of_fuel
  lookup_loop (suc n) scope sym st =
      (do
        m ← to_pair scope
        slot ← hash_get m.0 sym
        elim slot [
          | some s ↦ pure (some s)
          | none ↦ if is_null m.1 then pure none else lookup_loop n m.1 sym
        ])
        st

  -- `qz_lookup`
  unfoldable pub lookup : Obj → M (Option Slot)
  unfolding list_head lookup_loop
  lookup sym = do
    env ← gets (λ st. st.env)
    scope ← list_head env
    n ← gets (λ st. st.brk)
    lookup_loop n scope sym
