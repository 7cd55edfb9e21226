-- ===== src/Hash/Ring.antt =====
-- The array of a hash as a ring of slots: the search of get_hash, on slots instead of on the heap,
-- for keys that are compared as words. Where the search ends, and what a write at its end changes.
use quuz.Prelude.{
  ℕ, zero, suc, ◌+◌, ◌-◌, ◌≤◌, ◌<◌, ◌≡◌, ◌≢◌, ap, inl, inr, Bool, true, ◌||◌, Option, none, some,
  List, length, get_or, set, ltb, ◌==◌, if◌then◌else◌, arith, Bool-cases, length-set,
  get_or-set_self, get_or-set_ne,
}
use quuz.Object.Tag.{Obj, qz_none}
use quuz.Machine.Store.{Pair}
use quuz.Hash.{no_pair}

abbrev pub key_at : List Pair → ℕ → Obj
key_at ps s = (get_or ps s no_pair).first

abbrev pub stops : List Pair → Obj → ℕ → Bool
stops ps k s = (key_at ps s == qz_none) || (key_at ps s == k)

unfoldable pub next : ℕ → ℕ → ℕ
next c s = if s + 1 == c then 0 else s + 1

-- The slot where the search for `k` from slot `s` ends, within `n` rounds.
unfoldable pub find : ℕ → List Pair → Obj → ℕ → Option ℕ
find zero ps k s = none
find (suc n) ps k s =
    let more = find n ps k (next (length ps) s) in if stops ps k s then some s else more

-- The slot after `d` steps.
ahead : ℕ → ℕ → ℕ → ℕ
ahead c zero s = s
ahead c (suc d) s = ahead c d (next c s)

next-lt : (c s : ℕ) → s < c → next c s < c
unfolding next
next-lt c s h = ground arith

ahead-eq : (c d s : ℕ) → s < c → d ≤ c → ahead c d s ≡ (if ltb (s + d) c then s + d else s + d - c)
unfolding ahead next
ahead-eq c zero s h l = ground arith
ahead-eq c (suc d) s h l = ground (arith, ahead-eq c d 0, ahead-eq c d (s + 1))

steps_to : ℕ → ℕ → ℕ → ℕ
steps_to c s e = if ltb e s then e + c - s else e - s

ahead-steps_to :
    (c s e : ℕ) → s < c → e < c → (steps_to c s e < c) × (ahead c (steps_to c s e) s ≡ e)
unfolding steps_to
ahead-steps_to c s e h l = ground (arith, ahead-eq c (e + c - s) s, ahead-eq c (e - s) s)

find-ahead :
    (n d : ℕ) (ps : List Pair) (k : Obj) (s : ℕ)
    → d < n
    → stops ps k (ahead (length ps) d s) ≡ true
    → (j : ℕ) × (find n ps k s ≡ some j)
unfolding find ahead
find-ahead zero d ps k s h e = absurd (omega arith)
find-ahead (suc n) zero ps k s h e = (s, rw e)
find-ahead (suc n) (suc d) ps k s h e =
    let (j, p) = find-ahead n d ps k (next (length ps) s) (omega arith) e in
    elim (Bool-cases (stops ps k s)) [ inl t ↦ (s, rw t) | inr f ↦ (j, rw f p) ]

-- The search ends when some slot stops it.
pub find_total :
    (ps : List Pair) (k : Obj) (s e : ℕ)
    → s < length ps
    → e < length ps
    → stops ps k e ≡ true
    → (j : ℕ) × (find (length ps) ps k s ≡ some j)
find_total ps k s e hs he stop =
    let (lt, eq) = ahead-steps_to (length ps) s e hs he in
    find-ahead (length ps) (steps_to (length ps) s e) ps k s lt (rw eq stop)

-- It ends at a slot of the array, one that stops it.
pub find-stops :
    (n : ℕ) (ps : List Pair) (k : Obj) (s j : ℕ)
    → s < length ps
    → find n ps k s ≡ some j
    → (j < length ps) × (stops ps k j ≡ true)
unfolding find
find-stops zero ps k s j h e = cc
find-stops (suc n) ps k s j h e =
    let ih = find-stops n ps k (next (length ps) s) j (next-lt (length ps) s h) in
    elim (Bool-cases (stops ps k s)) [
      | inl t ↦ (ground arith, ground arith)
      | inr f ↦ ih (rw f at e)
    ]

module _ (ps : List Pair) (s₀ : ℕ) (p : Pair) (fits : s₀ < length ps) where
  abbrev written : List Pair
  written = set ps s₀ p

  key_at-written_self : key_at written s₀ ≡ p.first
  key_at-written_self = ap (λ (q : Pair). q.first) (get_or-set_self ps s₀ p no_pair fits)

  key_at-written_ne : (j : ℕ) → s₀ ≢ j → key_at written j ≡ key_at ps j
  key_at-written_ne j h = ap (λ (q : Pair). q.first) (get_or-set_ne ps s₀ j p no_pair h)

  -- A search that ends elsewhere is not changed by the write of another key at a slot that was
  -- empty or had that key.
  pub find-set_ne :
      (n : ℕ) (k : Obj) (s j : ℕ)
      → stops ps p.first s₀ ≡ true
      → k ≢ p.first
      → p.first ≢ qz_none
      → j ≢ s₀
      → find n ps k s ≡ some j
      → find n written k s ≡ some j
  unfolding find
  find-set_ne zero k s j a b c d e = cc
  find-set_ne (suc n) k s j a b c d e =
      let ih = find-set_ne n k (next (length ps) s) j a b c d in
      rw (length-set ps s₀ p) (ground (arith, ih, key_at-written_self, key_at-written_ne s))

  -- The search for the key that was written ends where it ended before.
  pub find-set_self :
      (n : ℕ) (s : ℕ) → find n ps p.first s ≡ some s₀ → find n written p.first s ≡ some s₀
  unfolding find
  find-set_self zero s e = cc
  find-set_self (suc n) s e =
      let ih = find-set_self n (next (length ps) s) in
      rw (length-set ps s₀ p) (ground (arith, ih, key_at-written_self, key_at-written_ne s))
