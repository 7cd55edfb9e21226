-- ===== src/Collector/Freed.antt =====
-- qz_unref of the last reference to a list gives the memory of all its pairs back.
use quuz.Prelude.{
  ℕ, zero, suc, ◌^◌, ◌<◌, ◌≤◌, ◌≡◌, ap, refl, ◌∙◌, Bool, true, false, not, ◌&&◌, ◌||◌, Option, none,
  some, List, [], ◌∷◌, length, ◌==◌, if◌then◌else◌, arith,
}
use quuz.Object.Tag.{Obj, is_cell, is_null, to_cell}
use quuz.Object.CellType
use quuz.Object.Color
use quuz.Object.Info.{refcount, cell_type, buffered, set_refcount, set_color}
use quuz.Object.Info.Laws.{Fields, fields, fields-set_refcount, fields-set_color, set_refcount-eq}
use quuz.Machine.Store.{State, Cell, pair}
use quuz.Machine.Outcome.{M, ok}
use quuz.Machine.Cell.{update, pair_at}
use quuz.Machine.Cell.Laws.{with_cell, load-ok, update_info-ok, with_cell_self, release_memory-ok}
use quuz.Collector.{
  call_if_valid_cell, pair_children, all_children, release_cell, free_cell, decrement, unref,
}

-- An object that counts no references.
abbrev pub IsPlain : Obj → Type 0
IsPlain obj = (is_cell obj && not (is_null obj)) ≡ false

-- A pair that one reference holds, and that is not in the root buffer.
pub record Unshared (heap : ℕ → Option Cell) (p : ℕ) (front back : Obj) : Type 0 where
  pub info : ℕ
  pub holds : heap p ≡ some (record { info = info; value = pair front back })
  pub word : info < 2 ^ 64
  pub type : cell_type info ≡ CellType.pair
  pub single : refcount info ≡ 1
  pub unbuffered : buffered info ≡ 0

abbrev pub mem : ℕ → List ℕ → Bool
mem q [] = false
mem q (p ∷ ps) = (q == p) || mem q ps

-- A list of unshared pairs at different addresses `ps`, whose elements are plain, like what ends it.
abbrev pub Spine : (ℕ → Option Cell) → Obj → List ℕ → Type 0
Spine heap obj [] = IsPlain obj
Spine heap obj (p ∷ ps) =
    ((is_cell obj && not (is_null obj)) ≡ true)
    × (to_cell obj ≡ p)
    × (front : Obj) × (back : Obj) × Unshared heap p front back
    × IsPlain front
    × (mem p ps ≡ false)
    × Spine heap back ps

-- The heap without the cells at `ps`.
abbrev pub without : (ℕ → Option Cell) → List ℕ → ℕ → Option Cell
without heap ps q = if mem q ps then none else heap q

-- A write outside of a list leaves it as it was.
Spine-update :
    (heap : ℕ → Option Cell) (p : ℕ) (c : Cell) (obj : Obj) (ps : List ℕ)
    → mem p ps ≡ false
    → Spine heap obj ps
    → Spine (update heap p (some c)) obj ps
Spine-update heap p c obj [] out s = s
Spine-update heap p c obj (q ∷ qs) out (valid, at, front, back, u, plain, fresh, s) =
    let apart : (q == p) ≡ false = ground arith in
    let out' : mem p qs ≡ false = ground arith in
    (
      valid,
      at,
      front,
      back,
      record {
        info = u.info;
        holds = rw apart u.holds;
        word = u.word;
        type = u.type;
        single = u.single;
        unbuffered = u.unbuffered;
      },
      plain,
      fresh,
      Spine-update heap p c back qs out' s,
    )

-- The `info` of a pair after its last reference is gone.
module _ (info : ℕ) (word : info < 2 ^ 64) where
  dead : ℕ
  dead = set_refcount info 0

  dead-lt : dead < 2 ^ 64
  unfolding dead
  dead-lt = rw (set_refcount-eq info 0 word (omega arith)) (omega arith)

  dead-fields : fields dead ≡ record (fields info) { refcount = 0 }
  unfolding dead
  dead-fields = fields-set_refcount info 0 word (omega arith)

  black-buffered : buffered (set_color dead Color.black) ≡ buffered info
  black-buffered =
      ap (λ (f : Fields). f.buffered) (fields-set_color dead 0 dead-lt (omega arith))
      ∙ ap (λ (f : Fields). f.buffered) dead-fields

  dead-type : cell_type dead ≡ cell_type info
  dead-type = ap (λ (f : Fields). f.cell_type) dead-fields

-- One pair, given what happens to its second member.
module _ (st : State) (p : ℕ) (front back : Obj) (u : Unshared st.heap p front back)
    (plain : IsPlain front) where
  dead_cell : Cell
  unfolding dead
  dead_cell = record { info = dead u.info u.word; value = pair front back }

  dead_state : State
  unfolding dead_cell
  dead_state = with_cell st p dead_cell

  module _ (m : ℕ) (h : ℕ → Option Cell) where
    last_state : State
    last_state = record dead_state { heap = h }

    children-ok :
        call_if_valid_cell back (decrement m) dead_state ≡ ok tt last_state
        → all_children p (decrement m) dead_state ≡ ok tt last_state
    unfolding all_children pair_children pair_at call_if_valid_cell dead_state dead_cell
    children-ok run =
        let held = with_cell_self st p dead_cell in
        rw (load-ok dead_state p held, dead-type u.info u.word, u.type)
          (rw (load-ok dead_state p held, plain) (rw (load-ok dead_state p held) run))

    black_cell : Cell
    unfolding dead
    black_cell = record dead_cell { info = set_color (dead u.info u.word) Color.black }

    -- The heap in the end.
    freed : ℕ → Option Cell
    freed = update (update h p (some black_cell)) p none

    release-ok :
        call_if_valid_cell back (decrement m) dead_state ≡ ok tt last_state
        → h p ≡ some dead_cell
        → release_cell (decrement m) p dead_state ≡ ok tt (record st { heap = freed })
    unfolding release_cell free_cell dead_state last_state dead_cell black_cell freed
    release-ok run held =
        let black_state = with_cell last_state p black_cell in
        let kept = with_cell_self last_state p black_cell in
        rw (children-ok run) (
          rw (update_info-ok last_state p held (λ b. set_color b Color.black)) (
            rw (load-ok black_state p kept, black-buffered u.info u.word, u.unbuffered)
              (release_memory-ok black_state p black_cell kept)))

    decrement-ok :
        call_if_valid_cell back (decrement m) dead_state ≡ ok tt last_state
        → h p ≡ some dead_cell
        → decrement (suc m) p st ≡ ok tt (record st { heap = freed })
    unfolding decrement dead_state dead_cell dead
    decrement-ok run held =
        rw (load-ok st p u.holds, u.single)
          (rw (update_info-ok st p u.holds (λ b. set_refcount b 0)) (release-ok run held))

    freed-eq :
        (ps : List ℕ)
        → ((q : ℕ) → h q ≡ without dead_state.heap ps q)
        → (q : ℕ) → freed q ≡ without st.heap (p ∷ ps) q
    unfolding freed dead_state
    freed-eq ps same q = ground (arith, same q)

-- The result of a run that frees the cells at `ps`, and changes nothing else.
pub record Frees (ps : List ℕ) (st : State) (m : M (Unit {0})) : Type 0 where
  pub heap : ℕ → Option Cell
  pub run : m st ≡ ok tt (record st { heap = heap })
  pub freed : (q : ℕ) → heap q ≡ without st.heap ps q

call-Frees :
    (ps : List ℕ) (n : ℕ) (obj : Obj) (st : State)
    → length ps ≤ n
    → Spine st.heap obj ps
    → Frees ps st (call_if_valid_cell obj (decrement n))
unfolding call_if_valid_cell dead_state last_state
call-Frees [] n obj st le plain = record { heap = st.heap; run = rw plain refl; freed = λ q. refl }
call-Frees (p ∷ ps) zero obj st le s = absurd (omega arith)
call-Frees (p ∷ ps) (suc n) obj st le (valid, at, front, back, u, plain, fresh, s) =
    let c1 = dead_cell st p front back u plain in
    let st1 = dead_state st p front back u plain in
    let rest = call-Frees ps n back st1 (omega arith) (Spine-update st.heap p c1 back ps fresh s) in
    record {
      heap = freed st p front back u plain n rest.heap;
      run =
          rw (valid, at)
            (decrement-ok st p front back u plain n rest.heap rest.run
              (rest.freed p ∙ rw fresh (with_cell_self st p c1)));
      freed = freed-eq st p front back u plain n rest.heap ps rest.freed;
    }

-- qz_unref of the last reference to a list of any length, proper or not, returns, and gives the
-- memory of all its pairs back; every other cell, and all else of the state, stays. Each pair is held
-- by one reference and not in the root buffer, the pairs are different, and neither their elements
-- nor the end of the list count references.
pub unref-Frees :
    (ps : List ℕ) (obj : Obj) (st : State)
    → length ps ≤ st.brk
    → Spine st.heap obj ps
    → Frees ps st (unref obj)
unfolding unref
unref-Frees ps obj st le s =
    let f = call-Frees ps st.brk obj st le s in
    record { heap = f.heap; run = f.run; freed = f.freed }
