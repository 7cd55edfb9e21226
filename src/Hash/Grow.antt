-- ===== src/Hash/Grow.antt =====
-- realloc_hash on the heap: a table of twice the capacity with the same map.
use quuz.Prelude.{
  ℕ, suc, ◌+◌, ◌*◌, ◌%◌, ◌^◌, ◌<◌, ◌≡◌, ◌≢◌, refl, sym, ap, subst, ◌∙◌, inl, inr, false, none, some,
  List, [], ◌∷◌, length, set, replicate, arith, Bool-cases, bit_or, length-set, length-replicate,
  get_or-replicate,
}
use quuz.Object.Tag.Laws.{to_cell-from_cell, is_cell-from_cell}
use quuz.Object.Tag.{Obj, qz_none, is_cell, is_none, to_cell, from_cell}
use quuz.Object.CellType
use quuz.Object.Info.{refcount, refcount_bits}
use quuz.Machine.Store.{State, Cell, Pair, table}
use quuz.Machine.Outcome.{ok}
use quuz.Machine.Cell.{cell_ptr, update, release_memory, make_cell}
use quuz.Machine.Cell.Laws.{with_cell, load-ok, store-ok, release_memory-ok, with_cell_self}
use quuz.Hash.{CityHash, no_pair, hash_data, copy_pairs, make_hash_with, realloc_hash}
use quuz.Hash.Ring.{find-stops}
use quuz.Hash.Table.{home, home-lt, view}
use quuz.Hash.Load.{
  taken, taken-replicate, IsTable, Inserted, seek_total, insert, insert-Inserted, replicate-IsTable,
}
use quuz.Hash.Rehash.{dropped, copy_all, copy_all-Rehashed, live}
use quuz.Hash.Refine.{HashAt, hash_data-ok, AllWords, word_hash, get_hash-seek}
use quuz.Hash.Write.{with_hash, with_hash-HashAt, put_pair-ok, set-AllWords, IsHash}

module _ ⦃city : CityHash⦄ where
  -- A run of copy_pairs into the table at `cell`.
  record CopyRun (st : State) (cell size : ℕ) (ps qs : List Pair) : Type 0 where
    after : State
    run : copy_pairs cell ps st ≡ ok tt after
    at : HashAt after cell size (copy_all word_hash ps qs)
    words : AllWords (copy_all word_hash ps qs)
    alloc : 0 < after.brk
    frame : (q : ℕ) → q ≢ cell → after.heap q ≡ st.heap q

  copy_pairs-CopyRun :
      (ps qs : List Pair) (st : State) (cell size factor : ℕ) (at : HashAt st cell size qs)
      → AllWords ps
      → AllWords qs
      → IsTable word_hash qs
      → 0 < st.brk
      → length qs * factor ≡ 2 ^ 32
      → taken qs + length ps < length qs
      → CopyRun st cell size ps qs
  unfolding copy_pairs copy_all insert is_none
  copy_pairs-CopyRun [] qs st cell size factor at w words t alloc power room = record {
    after = st;
    run = refl;
    at = at;
    words = words;
    alloc = alloc;
    frame = λ q h. refl;
  }
  copy_pairs-CopyRun (p ∷ ps) qs st cell size factor at w words t alloc power room =
      let w' = λ (i : ℕ) (h : i < length ps). w (suc i) (omega arith) in
      elim (Bool-cases (dropped p)) [
        | inl skip ↦
            let r =
              copy_pairs-CopyRun ps qs st cell size factor at w' words t alloc power
                (omega arith) in
            record {
              after = r.after;
              run = rw skip r.run;
              at = rw skip r.at;
              words = rw skip r.words;
              alloc = r.alloc;
              frame = r.frame;
            }
        | inr keep ↦
            let (s, found) = seek_total word_hash qs p.first t in
            let lqs : 0 < length qs = omega arith in
            let (lt, stop) =
              find-stops (length qs) qs p.first (home word_hash qs p.first) s
                (home-lt word_hash qs p.first lqs) found in
            let word : is_cell p.first ≡ false = w 0 (omega arith) in
            let got =
              get_hash-seek st cell size qs factor at words alloc lqs power p.first s word found in
            let i = insert-Inserted word_hash qs p t (ground arith) (omega arith) in
            let is_set : insert word_hash qs p ≡ set qs s p = rw found refl in
            let i' = subst (Inserted word_hash qs p) is_set i in
            let len = length-set qs s p in
            let st₁ = with_hash st cell at.info size (set qs s p) in
            let r =
              copy_pairs-CopyRun ps (set qs s p) st₁ cell size factor
                (with_hash-HashAt st cell at.info size (set qs s p) at.type) w'
                (set-AllWords qs s p lt words word) i'.table alloc (rw len power)
                (omega (arith, i'.grown, len)) in
            record {
              after = r.after;
              run = rw (keep, got) (rw (put_pair-ok st cell size qs at s p) r.run);
              at = rw (keep, found) r.at;
              words = rw (keep, found) r.words;
              alloc = r.alloc;
              frame = λ q h. r.frame q h ∙ ground arith;
            }
      ]

  hash_data-load :
      (st : State) (p : ℕ) (c : Cell) (size : ℕ) (ps : List Pair)
      → st.heap p ≡ some c
      → c.value ≡ table size ps
      → hash_data p st ≡ ok (size, ps) st
  unfolding hash_data
  hash_data-load st p c size ps holds value = rw (load-ok st p holds) (rw value refl)

  free-AllWords : (n : ℕ) → AllWords (replicate n no_pair)
  unfolding is_cell
  free-AllWords n i l = ap (λ (p : Pair). is_cell p.first) (get_or-replicate n i no_pair) ∙ refl

  -- What realloc_hash leaves: the object, a well-formed hash of twice the capacity at a new address
  -- with the same `size`, in which every key has the value it had, unless that is QZ_NONE: such a key
  -- is gone. The old cell is free.
  pub record Grown (st : State) (obj : Obj) (size : ℕ) (ps : List Pair) : Type 0 where
    pub after : State
    pub pairs : List Pair
    pub run : realloc_hash obj st ≡ ok (from_cell st.brk) after
    pub hash : IsHash after (from_cell st.brk) size pairs
    pub width : length pairs ≡ length ps * 2
    pub view :
        (k : Obj) → k ≢ qz_none → view word_hash pairs k ≡ live word_hash (view word_hash ps k)
    pub freed : after.heap (to_cell obj) ≡ none

  -- realloc_hash of a hash whose cell is referenced once gives a hash at a new address with twice the
  -- capacity and the same size, in which every key has the value that it had, but for keys whose value
  -- is QZ_NONE: those are gone. It frees the old cell. The next free address is a multiple of 8 above
  -- the cell, and the doubled capacity divides 2 ^ 32.
  pub realloc_hash-Grown :
      (st : State) (obj : Obj) (size : ℕ) (ps : List Pair) (h : IsHash st obj size ps) (half : ℕ)
      → refcount h.at.info ≡ 1
      → to_cell obj < st.brk
      → st.brk % 8 ≡ 0
      → length ps * 2 * half ≡ 2 ^ 32
      → Grown st obj size ps
  unfolding realloc_hash cell_ptr make_hash_with make_cell release_memory
  realloc_hash-Grown st obj size ps h half unshared below aligned power =
      let cell = to_cell obj in
      let n = length ps * 2 in
      let qs = replicate n no_pair in
      let len = length-replicate n no_pair in
      let fresh : Cell = record {
        info = bit_or 1 (CellType.hash * 2 ^ refcount_bits);
        value = table 0 qs;
      } in
      let st₀ : State = record (with_cell st st.brk fresh) { brk = st.brk + 8 } in
      let at₀ : st₀.heap st.brk ≡ some fresh = with_cell_self st st.brk fresh in
      let filled : Cell = record { info = h.at.info; value = table size qs } in
      let st₁ = with_cell st₀ st.brk filled in
      let at₁ : HashAt st₁ st.brk size qs = record {
        info = h.at.info;
        holds = with_cell_self st₀ st.brk filled;
        type = h.at.type;
      } in
      let r =
        copy_pairs-CopyRun ps qs st₁ st.brk size half at₁ h.words (free-AllWords n)
          (replicate-IsTable word_hash n (omega (arith, h.table.room))) (omega arith) (rw len power)
          (omega (arith, len, taken-replicate n, h.table.room)) in
      let g = copy_all-Rehashed word_hash ps h.table in
      let apart : cell ≢ st.brk = omega arith in
      let kept : st₁.heap cell ≡ st.heap cell = ground arith in
      let old = r.frame cell apart ∙ kept ∙ h.at.holds in
      let there = to_cell-from_cell st.brk aligned in
      let after : State = record r.after { heap = update r.after.heap cell none } in
      let new_holds : after.heap st.brk
          ≡ some (record { info = r.at.info; value = table size (copy_all word_hash ps qs) }) =
        ground (arith, r.at.holds) in
      record {
        after = after;
        pairs = copy_all word_hash ps qs;
        run = rw (h.cell) (
            rw (load-ok st cell h.at.holds) (
              rw unshared (
                rw (hash_data-ok st cell size ps h.at) (
                  rw (hash_data-load st₀ st.brk fresh 0 qs at₀ refl) (
                    rw (store-ok st₀ st.brk at₀ filled)
                      (rw r.run (rw (release_memory-ok r.after cell _ old) refl)))))));
        hash = record {
          cell = is_cell-from_cell st.brk aligned;
          at =
              subst (λ (c : ℕ). HashAt after c size (copy_all word_hash ps qs)) (sym there)
                (record { info = r.at.info; holds = new_holds; type = r.at.type });
          words = r.words;
          table = g.table;
          alloc = r.alloc;
          factor = half;
          power = rw g.width power;
        };
        width = g.width;
        view = g.view;
        freed = ground arith;
      }
