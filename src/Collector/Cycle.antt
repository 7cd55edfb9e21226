-- ===== src/Collector/Cycle.antt =====
-- qz_collect of a pair that only refers to itself: the smallest cycle, through all three phases of the
-- collector.
use quuz.Prelude.{
  ℕ, suc, ◌-◌, ◌^◌, ◌<◌, ◌≡◌, refl, sym, ap, ◌∙◌, true, false, not, ◌&&◌, Option, none, some, List,
  [], ◌∷◌, arith,
}
use quuz.Object.Tag.{Obj, is_cell, is_null, to_cell}
use quuz.Object.CellType
use quuz.Object.Color
use quuz.Object.Info.{refcount, cell_type, set_refcount, set_color, set_buffered}
use quuz.Object.Info.Laws.{
  Fields, fields, fields-set_refcount, fields-set_color, fields-set_buffered, set_refcount-eq,
  set_color-eq, set_buffered-eq,
}
use quuz.Machine.Store.{State, Cell, pair}
use quuz.Machine.Outcome.{M, ok, and_then, ◌>>◌}
use quuz.Machine.Cell.{load, update, update_info, pair_at}
use quuz.Machine.Cell.Laws.{
  with_cell, load-ok, update_info-ok, with_cell_self, with_cell_same, with_cell-twice,
  release_memory-ok,
}
use quuz.Collector.{
  ChildFunc, call_if_valid_cell, pair_children, all_children, free_cell, decr_and_mark_gray,
  mark_gray, mark_roots_loop, set_root_buffer, mark_roots, scan, for_each, scan_roots,
  collect_white, collect_root, free_root, collect_roots, collect_with, collect,
}

-- A word of 64 bits with these fields.
pub record Holds (f : Fields) (info : ℕ) : Type 0 where
  pub word : info < 2 ^ 64
  pub fields : fields info ≡ f

-- Those of a pair.
abbrev pub pair_fields : (refcount color buffered dirty : ℕ) → Fields
pair_fields r c b d = record {
  refcount = r;
  cell_type = CellType.pair;
  color = c;
  buffered = b;
  dirty = d;
}

set_refcount-Holds :
    (f : Fields) (info v : ℕ)
    → v < 2 ^ 56
    → Holds f info
    → Holds (record f { refcount = v }) (set_refcount info v)
set_refcount-Holds f info v lt h = record {
  word = let w = h.word in rw (set_refcount-eq info v h.word lt) (ground arith);
  fields =
      fields-set_refcount info v h.word lt
      ∙ ap (λ (g : Fields). record g { refcount = v }) h.fields;
}

set_color-Holds :
    (f : Fields) (info v : ℕ)
    → v < 2 ^ 2
    → Holds f info
    → Holds (record f { color = v }) (set_color info v)
set_color-Holds f info v lt h = record {
  word = let w = h.word in rw (set_color-eq info v h.word lt) (ground arith);
  fields = fields-set_color info v h.word lt ∙ ap (λ (g : Fields). record g { color = v }) h.fields;
}

set_buffered-Holds :
    (f : Fields) (info v : ℕ)
    → v < 2
    → Holds f info
    → Holds (record f { buffered = v }) (set_buffered info v)
set_buffered-Holds f info v lt h = record {
  word = let w = h.word in rw (set_buffered-eq info v h.word lt) (ground arith);
  fields =
      fields-set_buffered info v h.word lt
      ∙ ap (λ (g : Fields). record g { buffered = v }) h.fields;
}

-- A collection that frees the cell at `p`, empties the root buffer, and changes nothing else.
pub record Reclaims (p : ℕ) (st : State) : Type 0 where
  pub heap : ℕ → Option Cell
  pub run : collect st ≡ ok tt (record st { heap = heap; root_buffer = [] })
  pub gone : (q : ℕ) → heap q ≡ update st.heap p none q

-- A pair whose second member is the pair itself, and whose first member counts no references.
module _ (st : State) (p : ℕ) (front back : Obj)
    (plain : (is_cell front && not (is_null front)) ≡ false)
    (valid : (is_cell back && not (is_null back)) ≡ true) (self : to_cell back ≡ p) where
  -- The state with another `info` of it.
  at : ℕ → State
  at info = with_cell st p (record { info = info; value = pair front back })

  module _ (info : ℕ) where
    at-load : load p (at info) ≡ ok (record { info = info; value = pair front back }) (at info)
    unfolding at
    at-load = load-ok (at info) p (with_cell_self st p _)

    at-update_info : (f : ℕ → ℕ) → update_info p f (at info) ≡ ok tt (at (f info))
    unfolding at
    at-update_info f =
        update_info-ok (at info) p (with_cell_self st p _) f ∙ ap (ok tt) (with_cell-twice st p _ _)

    at-all_children :
        (after : ℕ) (func : ChildFunc)
        → cell_type info ≡ CellType.pair
        → func p (at info) ≡ ok tt (at after)
        → all_children p func (at info) ≡ ok tt (at after)
    unfolding all_children pair_children pair_at call_if_valid_cell
    at-all_children after func type run =
        rw (at-load, type) (rw (at-load, plain) (rw (at-load, valid, self) run))

  -- The phases, for a purple root with one reference.
  module _ (info dirty_bit : ℕ) (h : Holds (pair_fields 1 Color.purple 1 dirty_bit) info) where
    gray : ℕ
    gray = set_color info Color.gray

    gray-Holds : Holds (pair_fields 1 Color.gray 1 dirty_bit) gray
    unfolding gray
    gray-Holds = set_color-Holds _ info Color.gray (omega arith) h

    unreferenced : ℕ
    unreferenced = set_refcount gray 0

    unreferenced-Holds : Holds (pair_fields 0 Color.gray 1 dirty_bit) unreferenced
    unfolding unreferenced
    unreferenced-Holds = set_refcount-Holds _ gray 0 (omega arith) gray-Holds

    white : ℕ
    white = set_color unreferenced Color.white

    white-Holds : Holds (pair_fields 0 Color.white 1 dirty_bit) white
    unfolding white
    white-Holds = set_color-Holds _ unreferenced Color.white (omega arith) unreferenced-Holds

    unbuffered : ℕ
    unbuffered = set_buffered white 0

    unbuffered-Holds : Holds (pair_fields 0 Color.white 0 dirty_bit) unbuffered
    unfolding unbuffered
    unbuffered-Holds = set_buffered-Holds _ white 0 (omega arith) white-Holds

    black : ℕ
    black = set_color unbuffered Color.black

    black-Holds : Holds (pair_fields 0 Color.black 0 dirty_bit) black
    unfolding black
    black-Holds = set_color-Holds _ unbuffered Color.black (omega arith) unbuffered-Holds

    mark_gray-ok : (n : ℕ) → mark_gray (suc (suc n)) p (at info) ≡ ok tt (at unreferenced)
    unfolding mark_gray decr_and_mark_gray gray unreferenced
    mark_gray-ok n =
        let purple = ap (λ (f : Fields). f.color) h.fields in
        let type = ap (λ (f : Fields). f.cell_type) gray-Holds.fields in
        let single = ap (λ (f : Fields). f.refcount) gray-Holds.fields in
        let marked = ap (λ (f : Fields). f.color) unreferenced-Holds.fields in
        rw (at-load info, purple)
          (rw (at-update_info info (λ b. set_color b Color.gray)) (
            at-all_children gray unreferenced (decr_and_mark_gray (mark_gray (suc n))) type (
              rw (at-load gray, single)
                (rw (at-update_info gray (λ b. set_refcount b (refcount b - 1)), single)
                  (rw (at-load unreferenced, marked) refl)))))

    scan-ok : (n : ℕ) → scan (suc (suc n)) p (at unreferenced) ≡ ok tt (at white)
    unfolding scan white
    scan-ok n =
        let marked = ap (λ (f : Fields). f.color) unreferenced-Holds.fields in
        let no_count = ap (λ (f : Fields). f.refcount) unreferenced-Holds.fields in
        let type = ap (λ (f : Fields). f.cell_type) white-Holds.fields in
        let scanned = ap (λ (f : Fields). f.color) white-Holds.fields in
        rw (at-load unreferenced, marked, no_count)
          (rw (at-update_info unreferenced (λ b. set_color b Color.white))
            (at-all_children white white (scan (suc n)) type (rw (at-load white, scanned) refl)))

    collect_root-ok : (n : ℕ) → collect_root (suc n) p (at white) ≡ ok tt (at black)
    unfolding collect_root collect_white unbuffered black
    collect_root-ok n =
        let scanned = ap (λ (f : Fields). f.color) unbuffered-Holds.fields in
        let type = ap (λ (f : Fields). f.cell_type) black-Holds.fields in
        let done = ap (λ (f : Fields). f.color) black-Holds.fields in
        rw (at-update_info white (λ b. set_buffered b 0)) (
          rw (at-load unbuffered, scanned)
            (rw (at-update_info unbuffered (λ b. set_color b Color.black)) (
              at-all_children black black (collect_white (suc n)) type
                (rw (at-load black, done) refl))))

    freed : State
    freed = record st { heap = update (at black).heap p none }

    free_root-ok : free_root p (at black) ≡ ok tt freed
    unfolding free_root free_cell freed at
    free_root-ok =
        let done = ap (λ (f : Fields). f.color) black-Holds.fields in
        let no_count = ap (λ (f : Fields). f.refcount) black-Holds.fields in
        rw (at-load black, done, no_count)
          (release_memory-ok (at black) p _ (with_cell_self st p _))

    module _ (roots : st.root_buffer ≡ p ∷ []) where
      at-roots : (i : ℕ) → (at i).root_buffer ≡ p ∷ []
      unfolding at
      at-roots i = roots

      rooted : (i : ℕ) → record (at i) { root_buffer = p ∷ [] } ≡ at i
      unfolding at
      rooted i = ap (λ (r : List ℕ). record (at i) { root_buffer = r }) (sym roots)

      mark_roots_loop-ok :
          (n : ℕ) → mark_roots_loop (suc (suc n)) (p ∷ []) (at info) ≡ ok (p ∷ []) (at unreferenced)
      unfolding mark_roots_loop
      mark_roots_loop-ok n =
          let purple = ap (λ (f : Fields). f.color) h.fields in
          rw (at-load info, purple) (rw (mark_gray-ok n) refl)

      mark_roots-ok : (n : ℕ) → mark_roots (suc (suc n)) (at info) ≡ ok tt (at unreferenced)
      unfolding mark_roots set_root_buffer
      mark_roots-ok n =
          ap
            (λ (cells : List ℕ).
              and_then (mark_roots_loop (suc (suc n)) cells (at info)) set_root_buffer)
            (at-roots info)
          ∙ rw (mark_roots_loop-ok n) (ap (ok tt) (rooted unreferenced))

      scan_roots-ok : (n : ℕ) → scan_roots (suc (suc n)) (at unreferenced) ≡ ok tt (at white)
      unfolding scan_roots for_each
      scan_roots-ok n =
          ap (λ (cells : List ℕ). for_each (scan (suc (suc n))) cells (at unreferenced))
            (at-roots unreferenced)
          ∙ rw (scan-ok n) refl

      -- The two loops of collect_roots.
      abbrev loops : ℕ → List ℕ → M (Unit {0})
      loops n cells = do
        for_each (collect_root n) cells
        for_each free_root cells
        set_root_buffer []

      collect_roots-ok :
          (n : ℕ) → collect_roots (suc n) (at white) ≡ ok tt (record freed { root_buffer = [] })
      unfolding collect_roots for_each set_root_buffer
      collect_roots-ok n =
          ap (λ (cells : List ℕ). loops (suc n) cells (at white)) (at-roots white)
          ∙ rw (collect_root-ok n) (rw free_root-ok refl)

      collect_with-ok :
          (n : ℕ) → collect_with (suc (suc n)) (at info) ≡ ok tt (record freed { root_buffer = [] })
      unfolding collect_with
      collect_with-ok n = rw (mark_roots-ok n) (rw (scan_roots-ok n) (collect_roots-ok (suc n)))

      freed-heap : (q : ℕ) → freed.heap q ≡ update st.heap p none q
      unfolding freed at
      freed-heap q = ground arith

      -- qz_collect with one root, a pair that holds the only reference to itself, and is purple and
      -- buffered as qz_unref leaves it, ends without a fault, gives the memory of the pair back, empties
      -- the root buffer, and changes nothing else. The other member of the pair counts no references.
      pub collect-Reclaims :
          1 < st.brk
          → st.heap p ≡ some (record { info = info; value = pair front back })
          → Reclaims p st
      unfolding collect freed at
      collect-Reclaims enough holds =
          let start : at info ≡ st = with_cell_same st p _ holds in
          let fuel : st.brk ≡ suc (suc (st.brk - 2)) = omega arith in
          record {
            heap = freed.heap;
            run =
                ap (λ n. collect_with n st) fuel
                ∙ ap (collect_with (suc (suc (st.brk - 2)))) (sym start)
                ∙ collect_with-ok (st.brk - 2);
            gone = freed-heap;
          }
