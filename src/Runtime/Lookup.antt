-- ===== src/Runtime/Lookup.antt =====
-- qz_lookup against the frames of a scope: the innermost frame that binds a symbol gives its value.
use quuz.Prelude.{
  ℕ, zero, suc, ◌<◌, ◌≡◌, refl, inl, inr, false, Option, none, some, List, [], ◌∷◌, length, arith,
}
use quuz.Object.Tag.{Obj, qz_null, is_null, is_cell}
use quuz.Machine.Store.{State, Pair}
use quuz.Machine.Outcome.{ok, M}
use quuz.Machine.Chain.{IsPairAt, to_pair-ok}
use quuz.Hash.{CityHash, Slot}
use quuz.Hash.Refine.{word_hash}
use quuz.Hash.Table.{view}
use quuz.Hash.Write.{IsHash, hash_get-cases, read_found}
use quuz.Runtime.{list_head, lookup_loop, lookup}

module _ ⦃city : CityHash⦄ where
  -- A link of the list of frames: the hash of a frame, and the link after it.
  pub record IsFrame (st : State) (obj : Obj) (ps : List Pair) (back : Obj) : Type 0 where
    pub frame : Obj
    pub size : ℕ
    pub at : IsPairAt st obj frame back
    pub hash : IsHash st frame size ps

  -- A list of frames with these contents, the innermost first.
  abbrev pub IsScope : State → Obj → List Pair → List (List Pair) → Type 0
  IsScope st obj ps [] = IsFrame st obj ps qz_null
  IsScope st obj ps (qs ∷ outer) =
      (next : Obj) × IsFrame st obj ps next × (is_null next ≡ false) × IsScope st next qs outer

  -- The value in the first frame that has one.
  abbrev pub first_value : List Pair → List (List Pair) → Obj → Option Obj
  first_value ps [] sym = view word_hash ps sym
  first_value ps (qs ∷ outer) sym = elim (view word_hash ps sym) [
    | none ↦ first_value qs outer sym
    | some v ↦ some v
  ]

  Found : State → M (Option Slot) → Option Obj → Type 0
  Found st m value = (slot : Option Slot) × (m st ≡ ok slot st) × (read_found slot st ≡ ok value st)

  lookup_loop-scope :
      (n : ℕ) (st : State) (obj : Obj) (ps : List Pair) (outer : List (List Pair)) (sym : Obj)
      → is_cell sym ≡ false
      → IsScope st obj ps outer
      → length outer < n
      → Found st (lookup_loop n obj sym) (first_value ps outer sym)
  unfolding Found lookup_loop read_found is_null
  lookup_loop-scope zero st obj ps outer sym word scope h = absurd (omega arith)
  lookup_loop-scope (suc n) st obj ps [] sym word f h =
      let here = to_pair-ok st obj f.frame qz_null f.at in
      elim (hash_get-cases st f.frame f.size ps f.hash sym word) [
        | inl (got, v) ↦ (none, rw (here, got) refl, rw v refl)
        | inr (s, x, got, v, read) ↦ (some s, rw (here, got) refl, rw (read, v) refl)
      ]
  lookup_loop-scope (suc n) st obj ps (qs ∷ outer) sym word (next, f, on, scope) h =
      let here = to_pair-ok st obj f.frame next f.at in
      let (far, run, value) = lookup_loop-scope n st next qs outer sym word scope (omega arith) in
      elim (hash_get-cases st f.frame f.size ps f.hash sym word) [
        | inl (got, v) ↦ (far, rw (here, got, on) run, rw (first_value, v) value)
        | inr (s, x, got, v, read) ↦ (some s, rw (here, got) refl, rw (first_value, read, v) refl)
      ]

  -- qz_lookup walks the frames of the current scope from the innermost one and returns the value
  -- slot in the first frame that binds the symbol, NULL if none does; it ends without a fault and
  -- leaves the state alone. The symbol is a word that is no cell, the environment and each frame are
  -- well formed, and there are fewer frames than the heap is large.
  pub lookup-scope :
      (st : State) (scope_obj back : Obj) (ps : List Pair) (outer : List (List Pair)) (sym : Obj)
      → IsPairAt st st.env scope_obj back
      → IsScope st scope_obj ps outer
      → is_cell sym ≡ false
      → length outer < st.brk
      → (slot : Option Slot) × (lookup sym st ≡ ok slot st)
        × (read_found slot st ≡ ok (first_value ps outer sym) st)
  unfolding lookup list_head Found
  lookup-scope st scope_obj back ps outer sym at scope word h =
      let (slot, run, value) = lookup_loop-scope st.brk st scope_obj ps outer sym word scope h in
      (slot, rw (to_pair-ok st st.env scope_obj back at) run, value)
