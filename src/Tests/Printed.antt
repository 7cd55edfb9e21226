-- ===== src/Tests/Printed.antt =====
-- Numbers that are read and written again: an empty stack at 48 and an open port at 56, behind the
-- cells of Tests.
use quuz.Prelude.{
  ℕ, ◌-◌, ◌+◌, ◌*◌, ◌^◌, ◌≡◌, refl, sym, ap, subst, ◌∙◌, inl, inr, Bool-cases, Option, none, some,
  [], ◌∷◌, ◌==◌, if◌then◌else◌, false, arith,
}
use quuz.Prelude.Text.{codes, signed_decimal}
use quuz.Object.Tag.{is_cell, to_cell}
use quuz.Object.Info.{cell_type, dirty, get_bits}
use quuz.Machine.Store.{State, Cell, objs, port}
use quuz.Machine.Outcome.{ok}
use quuz.Machine.Builds.{IsCleanCell, OnCell, IsCleanHeap}
use quuz.Machine.Array.Laws.{IsStack}
use quuz.Machine.Room.{HasRoom}
use quuz.Reader.Actions.{number, run_actions}
use quuz.Writer.{write_to}
use quuz.Writer.Lists.{wrote}
use quuz.Writer.Marks.{IsOpen}
use quuz.Writer.Numbers.{run_actions-write_to}
use quuz.Tests.{
  small_state, cells, byte_hash, hash_cell, env_cell, scope_cell, five_cell, three_cell,
}
use quuz.Tests.Text.{ascii}

abbrev empty_stack : Cell
empty_stack = record { info = 5 * 2 ^ 56 + 1; value = objs 16 (2 ∷ 2 ∷ []) }

abbrev out_cell : Cell
out_cell = record { info = 9 * 2 ^ 56 + 1; value = port (record { fp = some 1; mode = codes "w" }) }

abbrev reader_cells : ℕ → Option Cell
reader_cells p = if p == 48 then some empty_stack else if p == 56 then some out_cell else cells p

abbrev reader_state : State
reader_state = record small_state { heap = reader_cells; brk = 64 }

-- The cells of a heap, one after the other.
abbrev AreClean : (ℕ → Option Cell) → Type 0
AreClean heap = (q : ℕ) (c : Cell) → heap q ≡ some c → IsCleanCell c

AreClean-if :
    (p : ℕ) (c : Cell) (more : ℕ → Option Cell)
    → IsCleanCell c
    → AreClean more
    → AreClean (λ q. if q == p then some c else more q)
AreClean-if p c more here others q e holds = elim (Bool-cases (q == p)) [
  | inl same ↦
      subst (OnCell IsCleanCell) (sym (ap (λ b. if b then some c else more q) same) ∙ holds) here
  | inr ne ↦ others q e (sym (ap (λ b. if b then some c else more q) ne) ∙ holds)
]

AreClean-none : AreClean (λ q. none)
AreClean-none q c holds = absurd (cc holds)

reader_state-IsCleanHeap : IsCleanHeap reader_state
unfolding dirty get_bits
reader_state-IsCleanHeap = AreClean-if 48 empty_stack _ tt (
    AreClean-if 56 out_cell _ tt (
      AreClean-if 8 hash_cell _ tt (
        AreClean-if 16 env_cell _ (omega arith, refl)
          (AreClean-if 24 scope_cell _ (omega arith, refl)
            (AreClean-if 32 five_cell _ (omega arith, refl)
              (AreClean-if 40 three_cell _ (omega arith, refl) AreClean-none))))))

reader_state-IsStack : IsStack reader_state 50 (2 ∷ []) 2
unfolding is_cell to_cell cell_type get_bits
reader_state-IsStack = record {
  cell = refl;
  present = refl;
  info = 5 * 2 ^ 56 + 1;
  capacity = 16;
  holds = refl;
  type = refl;
}

reader_state-HasRoom : HasRoom reader_state
reader_state-HasRoom = record {
  aligned = omega arith;
  positive = omega arith;
  free = λ p le. ground arith;
}

out_cell-IsOpen : IsOpen reader_state 58 1
unfolding is_cell to_cell
out_cell-IsOpen = record { cell = refl; info = 9 * 2 ^ 56 + 1; mode = codes "w"; holds = refl }

-- 7 and -1.
run_actions-write_to_example :
    (after : State) × (list : ℕ) × (run_actions 50
        (number 7 ∷ number (2 ^ 64 - 1) ∷ [])
        reader_state
      ≡ ok 50 after)
    × (write_to ascii 3 false list 58 after ≡ ok tt (wrote after 1 (codes "(7 -1)")))
unfolding signed_decimal
run_actions-write_to_example =
    run_actions-write_to ascii 7 ((2 ^ 64 - 1) ∷ []) 1 false reader_state 50 58 1 (2 ∷ [])
      reader_state-IsStack reader_state-HasRoom reader_state-IsCleanHeap out_cell-IsOpen
      (
        record { word = omega arith; fits = inl (omega arith) },
        (record { word = omega arith; fits = inr (omega arith) }, tt),
      )
      (omega arith)
