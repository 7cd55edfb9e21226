-- ===== src/Hash/Write.antt =====
-- hash_get and hash_set on the heap, against the map that the slots stand for.
use quuz.Prelude.{
  ℕ, zero, suc, ◌+◌, ◌*◌, ◌^◌, ◌≤◌, ◌<◌, ◌≡◌, ◌≢◌, refl, ap, subst, ◌∙◌, ◌⊎◌, inl, inr, true, false,
  Option, none, some, List, [], ◌∷◌, length, get_or, set, ltb, ◌==◌, if◌then◌else◌, arith,
  Bool-cases, length-set, get_or-set_self, get_or-set_ne,
}
use quuz.Object.Tag.{Obj, qz_none, is_cell, is_none, to_cell}
use quuz.Object.Info.{cell_type}
use quuz.Object.CellType
use quuz.Machine.Store.{State, Pair, table}
use quuz.Machine.Outcome.{ok, M, pure, ◌>>=◌, ◌>>◌}
use quuz.Machine.Cell.{cell_ptr}
use quuz.Machine.Cell.Laws.{with_cell, put-ok}
use quuz.Collector.{call_if_valid_cell, unref}
use quuz.Hash.{
  realloc_hash, CityHash, Slot, no_pair, hash_data, pair_in, put_pair, hash_get, hash_set,
  read_slot, store_value,
}
use quuz.Hash.Ring.{key_at, find-stops}
use quuz.Hash.Table.{home, home-lt, view}
use quuz.Hash.Load.{taken, IsTable, seek_total, insert, Inserted, insert-Inserted}
use quuz.Hash.Refine.{HashAt, hash_data-ok, pair_in-ok, AllWords, word_hash, get_hash-seek}

-- `*slot` for what qz_hash_get returns, `none` for NULL.
unfoldable pub read_found : Option Slot → M (Option Obj)
unfolding read_slot
read_found none = pure none
read_found (some s) = do v ← read_slot s; pure (some v)

unref-word : (obj : Obj) (st : State) → is_cell obj ≡ false → unref obj st ≡ ok tt st
unfolding unref call_if_valid_cell
unref-word obj st word = rw word

-- A hash at `cell` with these contents, in place of what was there.
abbrev pub with_hash : State → (cell info size : ℕ) → List Pair → State
with_hash st cell info size ps = with_cell st cell (record { info = info; value = table size ps })

pub with_hash-HashAt :
    (st : State) (cell info size : ℕ) (ps : List Pair)
    → cell_type info ≡ CellType.hash
    → HashAt (with_hash st cell info size ps) cell size ps
with_hash-HashAt st cell info size ps h = record { info = info; holds = ground arith; type = h }

pub put_pair-ok :
    (st : State) (cell size : ℕ) (ps : List Pair) (at : HashAt st cell size ps) (i : ℕ) (p : Pair)
    → put_pair cell i p st ≡ ok tt (with_hash st cell at.info size (set ps i p))
unfolding put_pair
put_pair-ok st cell size ps at i p =
    rw (hash_data-ok st cell size ps at) (put-ok st cell at.holds _)

set-set : (ps : List Pair) (i : ℕ) (p q : Pair) → set (set ps i p) i q ≡ set ps i q
set-set [] i p q = refl
set-set (x ∷ ps) zero p q = refl
set-set (x ∷ ps) (suc i) p q = ap (λ (t : List Pair). x ∷ t) (set-set ps i p q)

module _ ⦃city : CityHash⦄ where
  -- A hash object in a state: its contents, and what its searches rest on. The capacity divides
  -- 2 ^ 32, as a power of two up to there does.
  pub record IsHash (st : State) (obj : Obj) (size : ℕ) (ps : List Pair) : Type 0 where
    pub cell : is_cell obj ≡ true
    pub at : HashAt st (to_cell obj) size ps
    pub words : AllWords ps
    pub table : IsTable word_hash ps
    pub alloc : 0 < st.brk
    pub factor : ℕ
    pub power : length ps * factor ≡ 2 ^ 32

  module _ (st : State) (obj : Obj) (size : ℕ) (ps : List Pair) (h : IsHash st obj size ps) where
    pos : 0 < length ps
    pos = omega (arith, h.table.room)

    -- NULL where the map has no value, else the address of the value.
    pub hash_get-cases :
        (k : Obj)
        → is_cell k ≡ false
        → ((hash_get obj k st ≡ ok none st) × (view word_hash ps k ≡ none))
          ⊎ ((s : Slot) × (v : Obj) × (hash_get obj k st ≡ ok (some s) st)
              × (view word_hash ps k ≡ some v)
              × (read_slot s st ≡ ok v st))
    unfolding hash_get cell_ptr read_slot view is_none
    hash_get-cases k word =
        let (s, found) = seek_total word_hash ps k h.table in
        let (lt, stop) =
          find-stops (length ps) ps k (home word_hash ps k) s (home-lt word_hash ps k pos) found in
        let run =
          get_hash-seek st (to_cell obj) size ps h.factor h.at h.words h.alloc pos h.power k s word
            found in
        let cell_at = pair_in-ok st (to_cell obj) size ps h.at s lt in
        elim (Bool-cases (key_at ps s == qz_none)) [
          | inl free ↦ inl (rw (h.cell, run, cell_at, free) refl, rw (found, free) refl)
          | inr used ↦ inr (
            record { cell = to_cell obj; index = s },
            (get_or ps s no_pair).rest,
            rw (h.cell, run, cell_at, used) refl,
            rw (found, used) refl,
            rw cell_at refl,
          )
        ]

    -- qz_hash_get ends without a fault, leaves the state alone, and what it returns reads as the value
    -- of the key in the map that the slots stand for, NULL standing for no value. The key is a word
    -- that is no cell.
    pub hash_get-view :
        (k : Obj)
        → is_cell k ≡ false
        → (slot : Option Slot) × (hash_get obj k st ≡ ok slot st)
          × (read_found slot st ≡ ok (view word_hash ps k) st)
    unfolding read_found
    hash_get-view k word = elim (hash_get-cases k word) [
      | inl (got, v) ↦ (none, got, rw v refl)
      | inr (s, x, got, v, read) ↦ (some s, got, rw (read, v) refl)
    ]

  -- A key that is a word, put into a slot whose value is a word.
  store_value-ok :
      (st : State) (cell size : ℕ) (ps : List Pair) (at : HashAt st cell size ps) (s : ℕ)
      (key value : Obj)
      → s < length ps
      → is_cell (key_at ps s) ≡ false
      → is_cell (get_or ps s no_pair).rest ≡ false
      → store_value cell s (get_or ps s no_pair) key value st
        ≡ ok tt (
            with_hash
              (with_hash st cell at.info size
                (set ps s (record { first = key; rest = (get_or ps s no_pair).rest })))
              cell
              at.info
              size
              (set ps s (record { first = key; rest = value })))
  unfolding store_value with_hash-HashAt
  store_value-ok st cell size ps at s key value lt a b =
      let p = get_or ps s no_pair in
      let p₁ : Pair = record { first = key; rest = p.rest } in
      let ps₁ = set ps s p₁ in
      let st₁ = with_hash st cell at.info size ps₁ in
      let at₁ = with_hash-HashAt st cell at.info size ps₁ at.type in
      let lt₁ : s < length ps₁ = rw (length-set ps s p₁) lt in
      let held : get_or ps₁ s no_pair ≡ p₁ = get_or-set_self ps s p₁ no_pair lt in
      let read₁ : pair_in cell s st₁ ≡ ok p₁ st₁ =
        pair_in-ok st₁ cell size ps₁ at₁ s lt₁ ∙ ap (λ (q : Pair). ok q st₁) held in
      let over = set-set ps s p₁ (record { first = key; rest = value }) in
      rw (unref-word (key_at ps s) st a) (
        rw (pair_in-ok st cell size ps at s lt) (
          rw (put_pair-ok st cell size ps at s p₁) (
            rw read₁ (
              rw (unref-word p.rest st₁ b) (
                rw read₁ (
                  put_pair-ok st₁ cell size ps₁ at₁ s _
                  ∙ ap (λ (t : List Pair). ok tt (with_hash st₁ cell at.info size t)) over))))))

  pub set-AllWords :
      (ps : List Pair) (s : ℕ) (p : Pair)
      → s < length ps
      → AllWords ps
      → is_cell p.first ≡ false
      → AllWords (set ps s p)
  set-AllWords ps s p lt words w i bound = elim (Bool-cases (s == i)) [
    | inl e ↦
        let eq : s ≡ i = ground arith in
        subst (λ (j : ℕ). is_cell (key_at (set ps s p) j) ≡ false) eq
          (ap (λ (q : Pair). is_cell q.first) (get_or-set_self ps s p no_pair lt) ∙ w)
    | inr e ↦
        let ne : s ≢ i = ground arith in
        ap (λ (q : Pair). is_cell q.first) (get_or-set_ne ps s i p no_pair ne)
        ∙ words i (rw (length-set ps s p) at bound)
  ]

  -- The states that a write of a pair into a slot goes through, with the size `n`.
  abbrev write_state : State → (cell info n : ℕ) → List Pair → ℕ → Obj → Obj → State
  write_state st cell info n ps s key value =
      with_hash
        (with_hash st cell info n
          (set ps s (record { first = key; rest = (get_or ps s no_pair).rest })))
        cell info n (set ps s (record { first = key; rest = value }))

  -- The lines of qz_hash_set from the slot on.
  write_and_grow : Obj → (cell s : ℕ) → Pair → Obj → Obj → M Obj
  unfolding hash_set hash_data realloc_hash cell_ptr
  write_and_grow obj cell s p key value = do
    store_value cell s p key value
    d ← hash_data cell
    (if ltb (length d.1 * 7) (d.0 * 10) then realloc_hash obj else pure obj)

  write_and_grow-ok :
      (st : State) (obj : Obj) (cell n : ℕ) (ps : List Pair) (at : HashAt st cell n ps) (s : ℕ)
      (key value : Obj)
      → s < length ps
      → is_cell (key_at ps s) ≡ false
      → is_cell (get_or ps s no_pair).rest ≡ false
      → n * 10 ≤ length ps * 7
      → write_and_grow obj cell s (get_or ps s no_pair) key value st
        ≡ ok obj (write_state st cell at.info n ps s key value)
  unfolding write_and_grow with_hash-HashAt
  write_and_grow-ok st obj cell n ps at s key value lt a b load =
      let p : Pair = record { first = key; rest = value } in
      let qs = set ps s p in
      let st' = write_state st cell at.info n ps s key value in
      let done = hash_data-ok st' cell n qs (with_hash-HashAt _ cell at.info n qs at.type) in
      let small : ltb (length qs * 7) (n * 10) ≡ false = rw (length-set ps s p) (ground arith) in
      rw (store_value-ok st cell n ps at s key value lt a b) (rw (done, small))

  -- What a write of `value` at `key` leaves in a state `after`; a key that is new adds one to the
  -- size.
  pub record Written (st : State) (obj : Obj) (size : ℕ) (ps : List Pair) (key value : Obj)
      : Type 0 where
    pub after : State
    pub count : ℕ
    pub pairs : List Pair
    pub run : hash_set obj key value st ≡ ok obj after
    pub hash : IsHash after obj count pairs
    pub sized : count ≡ elim (view word_hash ps key) [ none ↦ size + 1 | some v ↦ size ]
    pub view :
        (k : Obj)
        → k ≢ qz_none
        → view word_hash pairs k ≡ (if k == key then some value else view word_hash ps k)
    pub others : (q : ℕ) → (q == to_cell obj) ≡ false → after.heap q ≡ st.heap q
    pub env : after.env ≡ st.env
    pub brk : after.brk ≡ st.brk

  pub hash_set-Written :
      (st : State) (obj : Obj) (size : ℕ) (ps : List Pair) (h : IsHash st obj size ps)
      (key value : Obj)
      → is_cell key ≡ false
      → key ≢ qz_none
      → ((i : ℕ) → is_cell (get_or ps i no_pair).rest ≡ false)
      → taken ps + 1 < length ps
      → (size + 1) * 10 ≤ length ps * 7
      → Written st obj size ps key value
  unfolding hash_set cell_ptr insert view with_hash-HashAt is_none write_and_grow
  hash_set-Written st obj size ps h key value word used plain room load =
      let (s, found) = seek_total word_hash ps key h.table in
      let cell = to_cell obj in
      let lps : 0 < length ps = pos st obj size ps h in
      let (lt, stop) =
        find-stops (length ps) ps key (home word_hash ps key) s (home-lt word_hash ps key lps)
          found in
      let run =
        get_hash-seek st cell size ps h.factor h.at h.words h.alloc lps h.power key s word found in
      let cell_at = pair_in-ok st cell size ps h.at s lt in
      let p : Pair = record { first = key; rest = value } in
      let ins = insert-Inserted word_hash ps p h.table used room in
      let is_set : insert word_hash ps p ≡ set ps s p = rw found refl in
      let ins' : Inserted word_hash ps p (set ps s p) =
        subst (Inserted word_hash ps p) is_set ins in
      let held = hash_data-ok st cell size ps h.at in
      let grown : (size + 1) * 10 ≤ length ps * 7 = load in
      let st₀ = with_hash st cell h.at.info (size + 1) ps in
      let at₀ = with_hash-HashAt st cell h.at.info (size + 1) ps h.at.type in
      let stored : (n : ℕ) (after : State)
          → HashAt after cell n (set ps s p)
          → 0 < after.brk
          → IsHash after obj n (set ps s p) =
        λ n after e al. record {
          cell = h.cell;
          at = e;
          words = set-AllWords ps s p lt h.words word;
          table = ins'.table;
          alloc = al;
          factor = h.factor;
          power = rw (length-set ps s p) h.power;
        } in
      elim (Bool-cases (key_at ps s == qz_none)) [
        | inl free ↦
            let grew =
              write_and_grow-ok st₀ obj cell (size + 1) ps at₀ s key value lt (h.words s lt)
                (plain s) load in
            record {
              after = write_state st₀ cell h.at.info (size + 1) ps s key value;
              count = size + 1;
              pairs = set ps s p;
              run =
                  rw (h.cell, run)
                    (rw cell_at (
                      rw free (
                        rw held (
                          rw (put-ok st cell h.at.holds (table (size + 1) ps))
                            (rw (write_and_grow, h.cell) at grew)))));
              hash =
                  stored (size + 1) (write_state st₀ cell h.at.info (size + 1) ps s key value)
                    (with_hash-HashAt _ cell h.at.info (size + 1) (set ps s p) h.at.type) h.alloc;
              sized = rw (found, free) refl;
              view = ins'.view;
              others = λ q ne. rw ne refl;
              env = refl;
              brk = refl;
            }
        | inr busy ↦
            let kept =
              write_and_grow-ok st obj cell size ps h.at s key value lt (h.words s lt) (plain s)
                (omega arith) in
            record {
              after = write_state st cell h.at.info size ps s key value;
              count = size;
              pairs = set ps s p;
              run = rw (h.cell, run) (rw cell_at (rw busy (rw (write_and_grow, h.cell) at kept)));
              hash =
                  stored size (write_state st cell h.at.info size ps s key value)
                    (with_hash-HashAt _ cell h.at.info size (set ps s p) h.at.type) h.alloc;
              sized = rw (found, busy) refl;
              view = ins'.view;
              others = λ q ne. rw ne refl;
              env = refl;
              brk = refl;
            }
      ]

  -- After qz_hash_set of a key, qz_hash_get of any key finds the new value under that key and the
  -- value that the map had under each other key. The write does not fault, throw or move the table.
  -- Keys and the values that are overwritten are words that are no cells, no key is QZ_NONE, and
  -- size and free slots stay within the load that qz_hash_set allows without growing the table.
  pub hash_set-hash_get :
      (st : State) (obj : Obj) (size : ℕ) (ps : List Pair)
      → IsHash st obj size ps
      → (key value k : Obj) → is_cell key ≡ false
      → key ≢ qz_none
      → is_cell k ≡ false
      → k ≢ qz_none
      → ((i : ℕ) → is_cell (get_or ps i no_pair).rest ≡ false)
      → taken ps + 1 < length ps
      → (size + 1) * 10 ≤ length ps * 7
      → (after : State) × (slot : Option Slot) × (hash_set obj key value st ≡ ok obj after)
        × (hash_get obj k after ≡ ok slot after)
        × (read_found slot after ≡ ok (if k == key then some value else view word_hash ps k) after)
  hash_set-hash_get st obj size ps h key value k word used k_word k_used plain room load =
      let w = hash_set-Written st obj size ps h key value word used plain room load in
      let (slot, got, read) = hash_get-view w.after obj w.count w.pairs w.hash k k_word in
      (w.after, slot, w.run, got, read ∙ ap (λ (o : Option Obj). ok o w.after) (w.view k k_used))
