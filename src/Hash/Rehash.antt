-- ===== src/Hash/Rehash.antt =====
-- The copy of realloc_hash on slots: which keys are found afterwards.
use quuz.Prelude.{
  ℕ, zero, suc, ◌+◌, ◌*◌, ◌≤◌, ◌<◌, ◌≡◌, ◌≢◌, refl, sym, ap, subst, ◌∙◌, inl, inr, Bool, ◌||◌,
  Option, none, some, List, [], ◌∷◌, length, get_or, replicate, ◌==◌, if◌then◌else◌, arith,
  Bool-cases, length-replicate, get_or-replicate,
}
use quuz.Object.Tag.{Obj, qz_none}
use quuz.Machine.Store.{Pair}
use quuz.Hash.{no_pair}
use quuz.Hash.Ring.{key_at, find-stops}
use quuz.Hash.Table.{home, home-lt, seek, view, value_in}
use quuz.Hash.Load.{
  taken, taken-replicate, IsTable, seek_total, insert, insert-Inserted, replicate-IsTable,
}

-- The test of the loop: a pair that is skipped.
abbrev pub dropped : Pair → Bool
dropped p = (p.first == qz_none) || (p.rest == qz_none)

-- What the pairs leave at a key, if each kept pair is written in turn.
pub last_value : List Pair → Obj → Option Obj → Option Obj
last_value [] k d = d
last_value (p ∷ ps) k d =
    last_value ps k (if dropped p then d else if k == p.first then some p.rest else d)

last_value_absent :
    (ps : List Pair) (k : Obj) (d : Option Obj)
    → ((i : ℕ) → i < length ps → key_at ps i ≢ k)
    → last_value ps k d ≡ d
unfolding last_value
last_value_absent [] k d h = refl
last_value_absent (p ∷ ps) k d h =
    let rest = last_value_absent ps k d (λ i l. h (suc i) (omega arith)) in
    let first = h 0 (omega arith) in
    elim (Bool-cases (k == p.first)) [
      | inl t ↦ absurd (first (ground arith))
      | inr f ↦ ground arith
    ]

last_value_present :
    (ps : List Pair) (k : Obj) (d : Option Obj) (j : ℕ)
    → k ≢ qz_none
    → j < length ps
    → key_at ps j ≡ k
    → ((i : ℕ) → i < length ps → i ≢ j → key_at ps i ≢ k)
    → last_value ps k d ≡ (let v = (get_or ps j no_pair).rest in if v == qz_none then d else some v)
unfolding last_value
last_value_present [] k d j a l e h = absurd (omega arith)
last_value_present (p ∷ ps) k d zero a l e h =
    last_value_absent ps k _ (λ i m. h (suc i) (omega arith) (omega arith)) ∙ ground arith
last_value_present (p ∷ ps) k d (suc j) a l e h =
    let rest = λ (d' : Option Obj).
      last_value_present ps k d' j a (omega arith) e
        (λ i m n. h (suc i) (omega arith) (omega arith)) in
    let first = h 0 (omega arith) (omega arith) in
    elim (Bool-cases (k == p.first)) [
      | inl t ↦ absurd (first (ground arith))
      | inr f ↦ ground (arith, rest d)
    ]

module _ (hash : Obj → ℕ) where
  unfoldable pub copy_all : List Pair → List Pair → List Pair
  copy_all [] qs = qs
  copy_all (p ∷ ps) qs = copy_all ps (if dropped p then qs else insert hash qs p)

  pub record Copied (ps qs rs : List Pair) : Type 0 where
    pub table : IsTable hash rs
    pub width : length rs ≡ length qs
    pub grown : taken rs ≤ taken qs + length ps
    pub view : (k : Obj) → k ≢ qz_none → view hash rs k ≡ last_value ps k (view hash qs k)

  copy_all-Copied :
      (ps qs : List Pair)
      → IsTable hash qs
      → taken qs + length ps < length qs
      → Copied ps qs (copy_all ps qs)
  unfolding copy_all last_value
  copy_all-Copied [] qs t h = record {
    table = t;
    width = refl;
    grown = omega arith;
    view = λ k a. refl;
  }
  copy_all-Copied (p ∷ ps) qs t h = elim (Bool-cases (dropped p)) [
    | inl skip ↦
        let c = copy_all-Copied ps qs t (omega arith) in
        rw skip (record {
          table = c.table;
          width = c.width;
          grown = omega (arith, c.grown);
          view = λ k a. c.view k a ∙ ground arith;
        })
    | inr keep ↦
        let i = insert-Inserted hash qs p t (ground arith) (omega arith) in
        let c = copy_all-Copied ps (insert hash qs p) i.table (omega (arith, i.width, i.grown)) in
        rw keep (record {
          table = c.table;
          width = c.width ∙ i.width;
          grown = omega (arith, c.grown, i.grown);
          view = λ k a.
              let step : (if k == p.first then some p.rest else view hash qs k) ≡ (
                  if dropped p
                  then view hash qs k
                  else if k == p.first
                  then some p.rest
                  else view hash qs k) =
                rw keep in
              c.view k a ∙ ap (last_value ps k) (i.view k a ∙ step);
        })
  ]

  -- The key of a slot stands in no other slot.
  unique :
      (ps : List Pair) (k : Obj) (s : ℕ)
      → IsTable hash ps
      → k ≢ qz_none
      → seek hash ps k ≡ some s
      → (i : ℕ) → i < length ps
      → i ≢ s
      → key_at ps i ≢ k
  unique ps k s t a found i lt ne e =
      let two : some i ≡ some s =
        sym (subst (λ (x : Obj). seek hash ps x ≡ some i) e (t.placed i lt (λ q. a (sym e ∙ q))))
        ∙ found in
      ne (ground arith)

  -- A key keeps its value, unless that is none: then the key is gone.
  abbrev pub live : Option Obj → Option Obj
  live none = none
  live (some v) = if v == qz_none then none else some v

  last_value-view :
      (ps : List Pair) (k : Obj)
      → IsTable hash ps
      → k ≢ qz_none
      → last_value ps k none ≡ live (view hash ps k)
  unfolding view
  last_value-view ps k t a =
      let (s, found) = seek_total hash ps k t in
      let (lt, stop) =
        find-stops (length ps) ps k (home hash ps k) s (home-lt hash ps k (omega (arith, t.room)))
          found in
      let others = unique ps k s t a found in
      elim (Bool-cases (key_at ps s == k)) [
        | inl t ↦
            last_value_present ps k none s a lt (ground arith) others
            ∙ ground arith
            ∙ sym (ap (λ (o : Option ℕ). live (value_in hash ps o)) found)
        | inr f ↦
            let free : key_at ps s ≡ qz_none = ground arith in
            last_value_absent ps k none (λ i l. elim (Bool-cases (i == s)) [
              | inl eq ↦
                  let same : i ≡ s = ground arith in λ q. a (sym q ∙ ap (key_at ps) same ∙ free)
              | inr f ↦ others i l (ground arith)
            ])
            ∙ ground arith
            ∙ sym (ap (λ (o : Option ℕ). live (value_in hash ps o)) found)
      ]

  view-replicate : (n : ℕ) (k : Obj) → view hash (replicate n no_pair) k ≡ none
  unfolding view
  view-replicate n k = free_value (seek hash (replicate n no_pair) k)
    where
      free_value : (o : Option ℕ) → value_in hash (replicate n no_pair) o ≡ none
      free_value none = refl
      free_value (some j) = ground (arith, get_or-replicate n j no_pair)

  pub record Rehashed (ps rs : List Pair) : Type 0 where
    pub table : IsTable hash rs
    pub width : length rs ≡ length ps * 2
    pub view : (k : Obj) → k ≢ qz_none → view hash rs k ≡ live (view hash ps k)

  pub copy_all-Rehashed :
      (ps : List Pair)
      → IsTable hash ps
      → Rehashed ps (copy_all ps (replicate (length ps * 2) no_pair))
  copy_all-Rehashed ps t =
      let qs = replicate (length ps * 2) no_pair in
      let len = length-replicate (length ps * 2) no_pair in
      let start = replicate-IsTable hash (length ps * 2) (omega (arith, t.room)) in
      let c =
        copy_all-Copied ps qs start (omega (arith, t.room, len, taken-replicate (length ps * 2))) in
      record {
        table = c.table;
        width = c.width ∙ len;
        view = λ k a.
            c.view k a
            ∙ ap (last_value ps k) (view-replicate (length ps * 2) k)
            ∙ last_value-view ps k t a;
      }
