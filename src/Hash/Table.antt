-- ===== src/Hash/Table.antt =====
-- What the slots of a hash mean as a map from keys to values, and how a write changes the map. A slot
-- that has the key none is free.
use quuz.Prelude.{
  ℕ, ◌%◌, ◌<◌, ◌≡◌, ◌≢◌, sym, ap, ◌∙◌, inl, inr, true, Option, none, some, List, length, get_or,
  set, replicate, ◌==◌, if◌then◌else◌, arith, Bool-cases, length-set, get_or-set_self,
  get_or-set_ne, get_or-replicate,
}
use quuz.Object.Tag.{Obj, qz_none}
use quuz.Machine.Store.{Pair}
use quuz.Hash.{no_pair}
use quuz.Hash.Ring.{key_at, stops, find, find_total, find-stops, find-set_ne, find-set_self}

-- `hash` is hash_obj on keys that are words.
module _ (hash : Obj → ℕ) where
  abbrev pub home : List Pair → Obj → ℕ
  home ps k = hash k % length ps

  abbrev pub seek : List Pair → Obj → Option ℕ
  seek ps k = find (length ps) ps k (home ps k)

  abbrev pub value_in : List Pair → Option ℕ → Option Obj
  value_in ps none = none
  value_in ps (some j) = if key_at ps j == qz_none then none else some (get_or ps j no_pair).rest

  -- The map that a list of slots stands for.
  unfoldable pub view : List Pair → Obj → Option Obj
  view ps k = value_in ps (seek ps k)

  -- Every key is found at its own slot.
  abbrev pub IsPlaced : List Pair → Type 0
  IsPlaced ps = (j : ℕ) → j < length ps → key_at ps j ≢ qz_none → seek ps (key_at ps j) ≡ some j

  pub home-lt : (ps : List Pair) (k : Obj) → 0 < length ps → home ps k < length ps
  home-lt ps k h = omega arith

  pub replicate-IsPlaced : (n : ℕ) → IsPlaced (replicate n no_pair)
  replicate-IsPlaced n j h k =
      absurd (k (ap (λ (q : Pair). q.first) (get_or-replicate n j no_pair)))

  -- A write at the slot where the search for its key ends.
  module _ (ps : List Pair) (p : Pair) (s : ℕ) (placed : IsPlaced ps) (used : p.first ≢ qz_none)
      (found : seek ps p.first ≡ some s) (pos : 0 < length ps) where
    pub at_end : (s < length ps) × (stops ps p.first s ≡ true)
    at_end = find-stops (length ps) ps p.first (home ps p.first) s (home-lt ps p.first pos) found

    abbrev after : List Pair
    after = set ps s p

    seek-after_ne :
        (k : Obj) (j : ℕ) → k ≢ p.first → j ≢ s → seek ps k ≡ some j → seek after k ≡ some j
    seek-after_ne k j a b e =
        rw (length-set ps s p)
          (find-set_ne ps s p at_end.0 (length ps) k (home ps k) j at_end.1 a used b e)

    seek-after_self : seek after p.first ≡ some s
    seek-after_self =
        rw (length-set ps s p) (find-set_self ps s p at_end.0 (length ps) (home ps p.first) found)

    pub key_at-after_self : key_at after s ≡ p.first
    key_at-after_self = ap (λ (q : Pair). q.first) (get_or-set_self ps s p no_pair at_end.0)

    pub key_at-after_ne : (j : ℕ) → s ≢ j → key_at after j ≡ key_at ps j
    key_at-after_ne j h = ap (λ (q : Pair). q.first) (get_or-set_ne ps s j p no_pair h)

    -- `j` is the slot of another key than that written.
    other_key : (j : ℕ) → j < length ps → key_at ps j ≢ qz_none → j ≢ s → key_at ps j ≢ p.first
    other_key j h k ne e =
        let two : some j ≡ some s = sym (placed j h k) ∙ rw e found in ne (ground arith)

    pub after-IsPlaced : IsPlaced after
    after-IsPlaced j h k = elim (Bool-cases (s == j)) [
      | inl e ↦ let eq : s ≡ j = ground arith in rw (← eq) (rw key_at-after_self seek-after_self)
      | inr f ↦
          let ne : s ≢ j = ground arith in
          let same = key_at-after_ne j ne in
          let h' : j < length ps = rw (length-set ps s p) at h in
          let k' : key_at ps j ≢ qz_none = rw same at k in
          let ne' : j ≢ s = ground arith in
          rw same (seek-after_ne (key_at ps j) j (other_key j h' k' ne') ne' (placed j h' k'))
    ]

    -- Another slot is free, so that every search ends.
    module _ (e : ℕ) (inside : e < length ps) (free : key_at ps e ≡ qz_none) (other : s ≢ e) where
      seek_ends : (k : Obj) → (j : ℕ) × (seek ps k ≡ some j)
      seek_ends k = find_total ps k (home ps k) e (home-lt ps k pos) inside (rw (key_at, free))

      home-after : (k : Obj) → home after k < length after
      home-after k = rw (length-set ps s p) (home-lt ps k pos)

      seek-after_ends : (k : Obj) → (j : ℕ) × (seek after k ≡ some j)
      seek-after_ends k =
          find_total after k (home after k) e (home-after k) (rw (length-set ps s p) inside)
            (rw (key_at, key_at-after_ne e other, free))

      -- Where the search for another key ends, if it ended at the slot that is written.
      moved_to_free :
          (k : Obj) (j : ℕ)
          → k ≢ qz_none
          → k ≢ p.first
          → seek ps k ≡ some s
          → j < length ps
          → stops after k j ≡ true
          → key_at after j ≡ qz_none
      moved_to_free k j a b at_s lt stop = elim (Bool-cases (s == j)) [
        | inl same ↦
            let eq : s ≡ j = ground arith in
            let key : key_at after j ≡ p.first = ap (key_at after) (sym eq) ∙ key_at-after_self in
            absurd (ground arith)
        | inr apart ↦
            let key = key_at-after_ne j (ground arith) in
            elim (Bool-cases (key_at ps j == k)) [
              | inr f ↦ ground arith
              | inl t ↦
                  let at_k : key_at ps j ≡ k = ground arith in
                  let two : some j ≡ some s =
                    sym (rw at_k at (placed j lt (ground arith))) ∙ at_s in
                  absurd (ground arith)
            ]
      ]

      view-after_moved :
          (k : Obj) → k ≢ qz_none → k ≢ p.first → seek ps k ≡ some s → view after k ≡ view ps k
      unfolding view
      view-after_moved k a b at_s =
          let (j, ends) = seek-after_ends k in
          let (lt, stop) = find-stops (length after) after k (home after k) j (home-after k) ends in
          let empty = moved_to_free k j a b at_s (rw (length-set ps s p) at lt) stop in
          let old = find-stops (length ps) ps k (home ps k) s (home-lt ps k pos) at_s in
          let old_empty : key_at ps s ≡ qz_none = ground (arith, at_end.1) in
          ap (value_in after) ends ∙ ground arith ∙ sym (ap (value_in ps) at_s)

      view-after_apart :
          (k : Obj) (j : ℕ) → k ≢ p.first → j ≢ s → seek ps k ≡ some j → view after k ≡ view ps k
      unfolding view
      view-after_apart k j a b e =
          let cell = get_or-set_ne ps s j p no_pair (λ q. b (sym q)) in
          ap (value_in after) (seek-after_ne k j a b e)
          ∙ ap (λ (q : Pair). if q.first == qz_none then none else some q.rest) cell
          ∙ sym (ap (value_in ps) e)

      view-after_self : view after p.first ≡ some p.rest
      unfolding view
      view-after_self =
          ap (value_in after) seek-after_self
          ∙ ap (λ (q : Pair). if q.first == qz_none then none else some q.rest)
              (get_or-set_self ps s p no_pair at_end.0)
          ∙ ground arith

      -- The write is a write to the map.
      pub view-after :
          (k : Obj) → k ≢ qz_none → view after k ≡ (if k == p.first then some p.rest else view ps k)
      view-after k a = elim (Bool-cases (k == p.first)) [
        | inl same ↦ let eq : k ≡ p.first = ground arith in rw same (rw eq view-after_self)
        | inr diff ↦
            let ne : k ≢ p.first = ground arith in
            let (j, ends) = seek_ends k in
            rw diff (elim (Bool-cases (j == s)) [
              | inl same ↦ let eq : j ≡ s = ground arith in view-after_moved k a ne (rw eq at ends)
              | inr apart ↦ view-after_apart k j ne (ground arith) ends
            ])
      ]
