-- ===== src/Machine/Room.antt =====
-- A heap with room, and the allocation of a pair in it.
use quuz.Prelude.{ℕ, ◌+◌, ◌%◌, ◌<◌, ◌≤◌, ◌≡◌, ◌≢◌, refl, sym, ◌∙◌, none, some, arith}
use native.Mathlib.Decide.{dec_lt}
use mathlib.Core.Option.{none-ne-some}
use quuz.Object.Tag.{Obj, from_cell}
use quuz.Object.Tag.Laws.{to_cell-from_cell, is_cell-from_cell}
use quuz.Object.Info.{cell_type, get_bits}
use quuz.Machine.Store.{State, Cell, pair}
use quuz.Machine.Cell.{update}
use quuz.Machine.Cell.Laws.{with_cell, update-other}
use quuz.Machine.Chain.{IsPairAt}

-- A heap with no cells from the next address on.
pub record HasRoom (st : State) : Type 0 where
  pub aligned : st.brk % 8 ≡ 0
  pub positive : 0 < st.brk
  pub free : (p : ℕ) → st.brk ≤ p → st.heap p ≡ none

-- The state after a pair was allocated.
abbrev pub with_pair : State → Obj → State
with_pair st v = record st {
  heap = update st.heap st.brk (some (record { info = 1; value = pair v 2 }));
  brk = st.brk + 8;
}

module _ (st : State) (v : Obj) (room : HasRoom st) where
  pub with_pair-new : IsPairAt (with_pair st v) (from_cell st.brk) v 2
  unfolding cell_type get_bits
  with_pair-new = record {
    cell = is_cell-from_cell st.brk room.aligned;
    present = rw (to_cell-from_cell st.brk room.aligned) (let p = room.positive in ground arith);
    info = 1;
    holds = rw (to_cell-from_cell st.brk room.aligned) (ground arith);
    type = refl;
  }

  pub lt-brk : (q : ℕ) (c : Cell) → st.heap q ≡ some c → q < st.brk
  lt-brk q c h = elim (dec_lt q st.brk) [
    | yes lt ↦ lt
    | no ge ↦ absurd (none-ne-some c (sym (room.free q (omega arith)) ∙ h))
  ]

  pub ne-brk : (q : ℕ) (c : Cell) → st.heap q ≡ some c → q ≢ st.brk
  ne-brk q c h e = let lt = lt-brk q c h in omega arith

  pub with_pair-HasRoom : HasRoom (with_pair st v)
  with_pair-HasRoom = record {
    aligned = let a = room.aligned in omega arith;
    positive = omega arith;
    free = λ p le. update-other st.heap st.brk p _ (omega arith) ∙ room.free p (omega arith);
  }

-- A write to a cell that is there keeps the room.
pub with_cell-HasRoom :
    (st : State) (p : ℕ) (c d : Cell) → HasRoom st → st.heap p ≡ some c → HasRoom (with_cell st p d)
with_cell-HasRoom st p c d room holds = record {
  aligned = room.aligned;
  positive = room.positive;
  free = λ q le.
      let lt = lt-brk st 0 room p c holds in
      update-other st.heap p q _ (omega arith) ∙ room.free q le;
}
