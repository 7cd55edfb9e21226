-- ===== src/Library/Binding/Define.antt =====
-- A definition, and the variable after it: scm_define of quuz-lib.c with the hash tables, the lookup
-- and the evaluator.
use quuz.Prelude.{
  ℕ, suc, ◌-◌, ◌+◌, ◌*◌, ◌<◌, ◌≤◌, ◌≡◌, ◌≢◌, refl, ap, ◌∙◌, true, false, some, List, length, get_or,
  ◌==◌, ==_iff, ==_refl, arith, Bool-cases, inl, inr,
}
use quuz.Object.Tag.{Obj, qz_none, is_cell, is_sym, to_cell}
use quuz.Object.CellType
use quuz.Machine.Store.{State, Pair, pair}
use quuz.Machine.Outcome.{ok}
use quuz.Machine.Cell.{cell_of_type, cell_ptr, first}
use quuz.Machine.Cell.Laws.{put-ok, with_cell_same}
use quuz.Machine.Chain.{IsPairAt, is_pair-ok, pair_at-ok, to_pair-ok}
use quuz.Collector.{ref, call_if_valid_cell}
use quuz.Hash.{CityHash, Slot, no_pair, hash_get, read_slot}
use quuz.Hash.Refine.{HashAt, word_hash}
use quuz.Hash.Load.{taken}
use quuz.Hash.Table.{view}
use quuz.Hash.Write.{IsHash, hash_get-cases, Written, hash_set-Written}
use quuz.Runtime.{list_head, lookup_loop, lookup, required_arg}
use quuz.Eval.{Cfun, Library, eval_variable, eval_atom, eval}
use quuz.Library.Binding.{set_var, scm_define}

-- A cell is a pair or a hash, not both.
pair-ne-hash :
    (st : State) (obj a b : Obj) (cell size : ℕ) (ps : List Pair)
    → IsPairAt st obj a b
    → HashAt st cell size ps
    → (to_cell obj == cell) ≡ false
pair-ne-hash st obj a b cell size ps at h = elim (Bool-cases (to_cell obj == cell)) [
  | inr ne ↦ ne
  | inl same ↦
      let e : to_cell obj ≡ cell = (==_iff (to_cell obj) cell).0 same in
      absurd (cc (at.holds, h.holds, e))
]

-- A pair outside of the hash that was written.
IsPairAt-kept :
    (st after : State) (obj a b : Obj) (cell : ℕ)
    → ((q : ℕ) → (q == cell) ≡ false → after.heap q ≡ st.heap q)
    → (to_cell obj == cell) ≡ false
    → IsPairAt st obj a b
    → IsPairAt after obj a b
IsPairAt-kept st after obj a b cell others ne at = record {
  cell = at.cell;
  present = at.present;
  info = at.info;
  holds = others (to_cell obj) ne ∙ at.holds;
  type = at.type;
}

-- The innermost frame of the environment, with room for one more name and no counted values.
pub record IsInnermost ⦃city : CityHash⦄ (st : State) (size : ℕ) (ps : List Pair) : Type 0 where
  pub scope : Obj
  pub outer : Obj
  pub frame : Obj
  pub back : Obj
  pub env : IsPairAt st st.env scope outer
  pub at : IsPairAt st scope frame back
  pub hash : IsHash st frame size ps
  pub plain : (i : ℕ) → is_cell (get_or ps i no_pair).rest ≡ false
  pub room : taken ps + 1 < length ps
  pub load : (size + 1) * 10 ≤ length ps * 7

module _ ⦃city : CityHash⦄ (st : State) (size : ℕ) (ps : List Pair) (f : IsInnermost st size ps)
    (name value : Obj) (word : is_cell name ≡ false) (used : name ≢ qz_none) where
  written : Written st f.frame size ps name value
  written = hash_set-Written st f.frame size ps f.hash name value word used f.plain f.room f.load

  scope_kept : IsPairAt written.after f.scope f.frame f.back
  scope_kept =
      IsPairAt-kept st written.after f.scope f.frame f.back (to_cell f.frame) written.others
        (pair-ne-hash st f.scope f.frame f.back (to_cell f.frame) size ps f.at f.hash.at) f.at

  env_kept : IsPairAt written.after st.env f.scope f.outer
  env_kept =
      IsPairAt-kept st written.after st.env f.scope f.outer (to_cell f.frame) written.others
        (pair-ne-hash st st.env f.scope f.outer (to_cell f.frame) size ps f.env f.hash.at) f.env

  set_var-ok : set_var name value st ≡ ok tt written.after
  unfolding set_var first cell_ptr
  set_var-ok = rw (f.env.cell) (
      rw (pair_at-ok st st.env f.scope f.outer f.env) (
        rw (f.at.cell) (
          rw (pair_at-ok st f.scope f.frame f.back f.at) (
            rw written.run (
              rw (pair_at-ok written.after f.scope f.frame f.back scope_kept) (
                put-ok written.after (to_cell f.scope) scope_kept.holds (pair f.frame f.back)
                ∙ ap (ok tt)
                    (with_cell_same written.after (to_cell f.scope) _ scope_kept.holds)))))))

  -- The slot of the name, and what stands in it.
  name_slot :
      (s : Slot) × (hash_get f.frame name written.after ≡ ok (some s) written.after)
      × (read_slot s written.after ≡ ok value written.after)
  name_slot =
      let now : view word_hash written.pairs name ≡ some value =
        written.view name used ∙ rw (==_refl name) refl in
      elim (hash_get-cases written.after f.frame written.count written.pairs written.hash name
        word) [
          | inl (got, absent) ↦ absurd (cc (now, absent))
          | inr (s, v, got, held, read) ↦
              let same : v ≡ value = cc (held, now) in
              (s, got, read ∙ ap (λ x. ok x written.after) same)
        ]

  lookup-ok :
      0 < st.brk
      → (s : Slot) × (lookup name written.after ≡ ok (some s) written.after)
        × (read_slot s written.after ≡ ok value written.after)
  unfolding lookup list_head lookup_loop
  lookup-ok alloc =
      let (s, got, read) = name_slot in
      let more : written.after.brk ≡ suc (st.brk - 1) = written.brk ∙ omega arith in
      (
        s,
        rw (written.env) (
            rw (to_pair-ok written.after st.env f.scope f.outer env_kept) (
              ap (λ n. lookup_loop n f.scope name written.after) more
              ∙ rw (to_pair-ok written.after f.scope f.frame f.back scope_kept, got) refl)),
        read,
      )

  eval-ok :
      (lib : Library) (n : ℕ)
      → 0 < st.brk
      → is_sym name ≡ true
      → is_cell value ≡ false
      → eval lib (suc n) name written.after ≡ ok value written.after
  unfolding eval cell_of_type eval_atom eval_variable ref call_if_valid_cell
  eval-ok lib n alloc symbol plain =
      let (s, found, read) = lookup-ok alloc in rw (word, symbol, found) (rw (read, plain) refl)

  word_is_no_pair : cell_of_type name CellType.pair st ≡ ok false st
  unfolding cell_of_type
  word_is_no_pair = rw word refl

  -- A definition at the innermost frame and the variable after it: (define name expr) with an
  -- expression that evaluates to a plain value returns the unspecified value, and in the state after it
  -- qz_eval of the name, over any library and on any fuel but none, returns that value and changes
  -- nothing. The name is a symbol, the frame has room for it and holds no counted values, and the
  -- value counts no references.
  pub scm_define-eval :
      (lib : Library) (ev : Cfun) (args expr next : Obj)
      → 0 < st.brk
      → is_sym name ≡ true
      → is_cell value ≡ false
      → (last : Obj) → IsPairAt st args name next
      → IsPairAt st next expr last
      → ev expr st ≡ ok value st
      → (after : State) × (scm_define ev args st ≡ ok qz_none after)
        × ((n : ℕ) → eval lib (suc n) name after ≡ ok value after)
  unfolding scm_define required_arg
  scm_define-eval lib ev args expr next alloc symbol plain last at at' evaluates = (
    written.after,
    rw (is_pair-ok st args name next at) (
        rw (to_pair-ok st args name next at, word_is_no_pair, symbol)
          (rw (is_pair-ok st next expr last at')
            (rw (to_pair-ok st next expr last at', evaluates, set_var-ok) refl))),
    λ n. eval-ok lib n alloc symbol plain,
  )
