-- ===== src/Hash/Refine.antt =====
-- The functions of quuz-hash.c on the heap follow the search on slots, for keys that are not cells
-- (symbols, for instance).
use quuz.Prelude.{
  ℕ, zero, suc, ◌+◌, ◌*◌, ◌%◌, ◌^◌, ◌<◌, ◌≡◌, refl, sym, ap, ◌∙◌, inl, inr, false, Option, none,
  some, List, [], ◌∷◌, length, get_elem?, get_or, ◌==◌, arith, Bool-cases,
}
use quuz.Object.Tag.{Obj, qz_none, is_cell, is_none}
use quuz.Object.Info.{cell_type}
use quuz.Object.CellType
use quuz.Machine.Store.{State, Pair, table}
use quuz.Machine.Outcome.{Outcome, ok, out_of_fuel}
use quuz.Machine.Cell.Laws.{load-ok}
use native.Mathlib.Nat.{mod-mod_of_dvd, mod-add-mod, mod-lt}
use quuz.Equal.Words.{qz_equal-word}
use quuz.Hash.{CityHash, no_pair, word_bytes, hash_data, pair_in, hash_obj, probe, get_hash}
use quuz.Hash.Ring.{key_at, next, find}
use quuz.Hash.Table.{seek}

-- A hash on the heap: its `info`, size and pairs.
pub record HashAt (st : State) (cell size : ℕ) (ps : List Pair) : Type 0 where
  pub info : ℕ
  pub holds : st.heap cell ≡ some (record { info = info; value = table size ps })
  pub type : cell_type info ≡ CellType.hash

get_elem?-get_or :
    (ps : List Pair) (i : ℕ) → i < length ps → get_elem? ps i ≡ some (get_or ps i no_pair)
get_elem?-get_or [] i h = absurd (omega arith)
get_elem?-get_or (p ∷ ps) zero h = refl
get_elem?-get_or (p ∷ ps) (suc i) h = get_elem?-get_or ps i (omega arith)

module _ (st : State) (cell size : ℕ) (ps : List Pair) (at : HashAt st cell size ps) where
  pub hash_data-ok : hash_data cell st ≡ ok (size, ps) st
  unfolding hash_data
  hash_data-ok = rw (load-ok st cell at.holds)

  pub pair_in-ok : (i : ℕ) → i < length ps → pair_in cell i st ≡ ok (get_or ps i no_pair) st
  unfolding pair_in
  pair_in-ok i h = rw hash_data-ok (ground (arith, get_elem?-get_or ps i h))

next-mod_small : (c r : ℕ) → r < c → (r + 1) % c ≡ next c r
unfolding next
next-mod_small c r h = grind arith

next-mod : (c q i : ℕ) → 0 < c → c * q ≡ 2 ^ 32 → (i + 1) % 2 ^ 32 % c ≡ next c (i % c)
next-mod c q i h e =
    mod-mod_of_dvd c (i + 1) ∣ (q, sym e) ∣₁
    ∙ sym (mod-add-mod i c 1)
    ∙ next-mod_small c (i % c) (mod-lt i h)

-- How a search on slots comes out as a run.
abbrev pub outcome_of : Option ℕ → State → Outcome ℕ
outcome_of none st = out_of_fuel
outcome_of (some j) st = ok j st

-- Every key is a word that is no cell.
abbrev pub AllWords : List Pair → Type 0
AllWords ps = (i : ℕ) → i < length ps → is_cell (key_at ps i) ≡ false

module _ ⦃city : CityHash⦄ where
  abbrev pub word_hash : Obj → ℕ
  word_hash k = city.city_hash32 (word_bytes 8 k)

  module _ (st : State) (cell size : ℕ) (ps : List Pair) (q : ℕ) (at : HashAt st cell size ps)
      (words : AllWords ps) (alloc : 0 < st.brk) (pos : 0 < length ps)
      (power : length ps * q ≡ 2 ^ 32) where
    probe-find :
        (n i : ℕ) (k : Obj) → probe n cell k i st ≡ outcome_of (find n ps k (i % length ps)) st
    unfolding probe find is_none
    probe-find zero i k = refl
    probe-find (suc n) i k =
        let s = i % length ps in
        let lt : s < length ps = mod-lt i pos in
        let nonzero : (length ps == 0) ≡ false = ground arith in
        let eq = qz_equal-word (key_at ps s) k st (words s lt) alloc in
        let ih =
          probe-find n ((i + 1) % 2 ^ 32) k
          ∙ ap (λ (t : ℕ). outcome_of (find n ps k t) st) (next-mod (length ps) q i pos power) in
        elim (Bool-cases (key_at ps s == qz_none)) [
          | inl free ↦
              rw
                (hash_data-ok st cell size ps at, nonzero, pair_in-ok st cell size ps at s lt, free)
          | inr used ↦ elim (Bool-cases (key_at ps s == k)) [
            | inl same ↦ rw (
              hash_data-ok st cell size ps at,
              nonzero,
              pair_in-ok st cell size ps at s lt,
              used,
              eq,
              same,
            )
            | inr other ↦
                rw
                  (
                    hash_data-ok st cell size ps at,
                    nonzero,
                    pair_in-ok st cell size ps at s lt,
                    used,
                    eq,
                    other,
                  )
                  ih
          ]
        ]

    -- get_hash finds the slot where the search ends.
    pub get_hash-seek :
        (k : Obj) (s : ℕ)
        → is_cell k ≡ false
        → seek word_hash ps k ≡ some s
        → get_hash cell k st ≡ ok s st
    unfolding get_hash hash_obj
    get_hash-seek k s word found =
        rw (load-ok st cell at.holds, at.type)
          (rw (hash_data-ok st cell size ps at, word)
            (probe-find (length ps) (word_hash k) k ∙ ap (λ (o : Option ℕ). outcome_of o st) found))
