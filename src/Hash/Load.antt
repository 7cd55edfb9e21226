-- ===== src/Hash/Load.antt =====
-- How full a hash is, and writes that keep it a table: enough slots stay free, so every search ends.
use quuz.Prelude.{
  ℕ, zero, suc, ◌+◌, ◌≤◌, ◌<◌, ◌≡◌, ◌≢◌, refl, sym, ap, subst, ◌∙◌, inl, inr, Option, none, some,
  List, [], ◌∷◌, length, set, replicate, ◌==◌, if◌then◌else◌, arith, Bool-cases, length-set,
  length-replicate,
}
use quuz.Object.Tag.{Obj, qz_none}
use quuz.Machine.Store.{Pair}
use quuz.Hash.{no_pair}
use quuz.Hash.Ring.{key_at, find_total}
use quuz.Hash.Table.{
  home, home-lt, seek, view, IsPlaced, at_end, key_at-after_self, key_at-after_ne, after-IsPlaced,
  view-after, replicate-IsPlaced,
}

-- The slots that are not free.
pub taken : List Pair → ℕ
taken [] = 0
taken (p ∷ ps) = (if p.first == qz_none then 0 else 1) + taken ps

pub taken-replicate : (n : ℕ) → taken (replicate n no_pair) ≡ 0
unfolding taken
taken-replicate zero = refl
taken-replicate (suc n) = omega (arith, taken-replicate n)

taken-set :
    (ps : List Pair) (s : ℕ) (p : Pair)
    → s < length ps
    → p.first ≢ qz_none
    → taken (set ps s p) ≡ taken ps + (if key_at ps s == qz_none then 1 else 0)
unfolding taken
taken-set [] s p h k = absurd (omega arith)
taken-set (q ∷ ps) zero p h k = ground arith
taken-set (q ∷ ps) (suc s) p h k = ground (arith, taken-set ps s p)

-- There is a free slot.
free_slot :
    (ps : List Pair) → taken ps < length ps → (e : ℕ) × (e < length ps) × (key_at ps e ≡ qz_none)
unfolding taken
free_slot [] h = absurd (omega arith)
free_slot (p ∷ ps) h = elim (Bool-cases (p.first == qz_none)) [
  | inl t ↦ (0, omega arith, ground arith)
  | inr f ↦ let (e, lt, k) = free_slot ps (ground arith) in (suc e, omega arith, k)
]

module _ (hash : Obj → ℕ) where
  -- Slots on which every search ends.
  pub record IsTable (ps : List Pair) : Type 0 where
    pub placed : IsPlaced hash ps
    pub room : taken ps < length ps

  pub seek_total : (ps : List Pair) (k : Obj) → IsTable ps → (s : ℕ) × (seek hash ps k ≡ some s)
  seek_total ps k t =
      let (e, lt, free) = free_slot ps t.room in
      find_total ps k (home hash ps k) e (home-lt hash ps k (omega (arith, t.room))) lt
        (rw (key_at, free))

  -- Write `p` where the search for its key ends.
  abbrev put_at : List Pair → Pair → Option ℕ → List Pair
  put_at ps p none = ps
  put_at ps p (some s) = set ps s p

  unfoldable pub insert : List Pair → Pair → List Pair
  insert ps p = put_at ps p (seek hash ps p.first)

  pub record Inserted (ps : List Pair) (p : Pair) (qs : List Pair) : Type 0 where
    pub table : IsTable qs
    pub width : length qs ≡ length ps
    pub grown : taken qs ≤ taken ps + 1
    pub view :
        (k : Obj)
        → k ≢ qz_none
        → view hash qs k ≡ (if k == p.first then some p.rest else view hash ps k)

  -- If a slot is left free, an insertion writes the map at the key.
  pub insert-Inserted :
      (ps : List Pair) (p : Pair)
      → IsTable ps
      → p.first ≢ qz_none
      → taken ps + 1 < length ps
      → Inserted ps p (insert ps p)
  unfolding insert
  insert-Inserted ps p t used room =
      let (s, found) = seek_total ps p.first t in
      let pos : 0 < length ps = omega arith in
      let ends = at_end hash ps p s t.placed used found pos in
      let count = taken-set ps s p ends.0 used in
      let len = length-set ps s p in
      let less : taken (set ps s p) < length (set ps s p) = ground arith in
      let (e, lt, free) = free_slot (set ps s p) less in
      let self = key_at-after_self hash ps p s t.placed used found pos in
      let other : s ≢ e = λ q. used (sym self ∙ ap (key_at (set ps s p)) q ∙ free) in
      let old_free : key_at ps e ≡ qz_none =
        sym (key_at-after_ne hash ps p s t.placed used found pos e other) ∙ free in
      subst (λ (o : Option ℕ). Inserted ps p (put_at ps p o)) (sym found)
        (record {
          table = record {
            placed = after-IsPlaced hash ps p s t.placed used found pos;
            room = less;
          };
          width = len;
          grown = ground arith;
          view =
              view-after hash ps p s t.placed used found pos e (subst (λ (w : ℕ). e < w) len lt)
                old_free other;
        })

  pub replicate-IsTable : (n : ℕ) → 0 < n → IsTable (replicate n no_pair)
  replicate-IsTable n h = record {
    placed = replicate-IsPlaced hash n;
    room = rw (taken-replicate n, length-replicate n no_pair) h;
  }
