-- ===== src/Tests/Evaluation.antt =====
-- The evaluator, the release of a list and a definition, on the small heap of Tests.
use quuz.Prelude.{
  ℕ, suc, ◌+◌, ◌*◌, ◌^◌, ◌≡◌, refl, Option, some, [], ◌∷◌, length, ◌==◌, arith, if◌then◌else◌,
}
use quuz.Object.Tag.{qz_none, is_cell, is_null, is_sym, to_cell}
use quuz.Object.Info.{color, dirty, cell_type, refcount, buffered, get_bits}
use quuz.Machine.Store.{State, Cell, pair}
use quuz.Machine.Outcome.{ok}
use quuz.Machine.Chain.{IsPairAt}
use quuz.Collector.{unref}
use quuz.Collector.Cycle.{Holds, pair_fields, Reclaims, collect-Reclaims}
use quuz.Object.Color
use quuz.Collector.Freed.{Unshared, Spine, Frees, unref-Frees}
use quuz.Hash.Refine.{word_hash}
use quuz.Hash.Load.{taken-replicate, replicate-IsTable}
use quuz.Runtime.Post.{Post}
use quuz.Eval.{Library, eval}
use quuz.Eval.Balance.{eval-balanced}
use quuz.Library.Binding.{scm_define}
use quuz.Library.Binding.Define.{IsInnermost, scm_define-eval}
use quuz.Tests.{byte_hash, small_state, cells, free_slots, free_slots-word, free_slots-plain}
use quuz.Tests.Files.{constant}

-- A library whose only function evaluates its operand.
abbrev evaluates : Library
evaluates ev n a args = ev args

-- Behind the cells of Tests: the call of the function at 80, with the fixnum 5 behind it, at 48; the
-- list (5 3), which no one else holds, at 56; and the operands 65 and 5 of a definition at 64.
abbrev call_cells : ℕ → Option Cell
call_cells p =
    if p == 48
    then some (record { info = 1; value = pair 83 20 })
    else if p == 56
    then some (record { info = 1; value = pair 20 42 })
    else if p == 64
    then some (record { info = 1; value = pair 65 74 })
    else if p == 72
    then some (record { info = 1; value = pair 20 2 })
    else cells p

abbrev call_state : State
call_state = record small_state { heap = call_cells; brk = 80 }

eval-balanced_example :
    Post
      (λ result after. length after.safety_buffer ≡ length call_state.safety_buffer)
      (eval evaluates 2 50 call_state)
eval-balanced_example = eval-balanced evaluates 2 50 call_state

Unshared-five : Unshared call_cells 56 20 42
unfolding cell_type refcount buffered get_bits
Unshared-five = record {
  info = 1;
  holds = refl;
  word = omega arith;
  type = refl;
  single = refl;
  unbuffered = refl;
}

Unshared-three : Unshared call_cells 40 12 2
unfolding cell_type refcount buffered get_bits
Unshared-three = record {
  info = 1;
  holds = refl;
  word = omega arith;
  type = refl;
  single = refl;
  unbuffered = refl;
}

unshared_list : Spine call_cells 58 (56 ∷ 40 ∷ [])
unfolding is_cell is_null to_cell
unshared_list = (
  refl,
  refl,
  20,
  42,
  Unshared-five,
  refl,
  refl,
  (refl, refl, 12, 2, Unshared-three, refl, refl, refl),
)

unref-Frees_example : Frees (56 ∷ 40 ∷ []) call_state (unref 58)
unref-Frees_example = unref-Frees (56 ∷ 40 ∷ []) 58 call_state (omega arith) unshared_list

innermost : IsInnermost call_state 0 free_slots
unfolding is_cell to_cell cell_type get_bits
innermost = record {
  scope = 26;
  outer = 2;
  frame = 10;
  back = 2;
  env = record { cell = refl; present = refl; info = 1; holds = refl; type = refl };
  at = record { cell = refl; present = refl; info = 1; holds = refl; type = refl };
  hash = record {
    cell = refl;
    at = record { info = 7 * 2 ^ 56 + 1; holds = refl; type = refl };
    words = λ i h. free_slots-word i;
    table = replicate-IsTable word_hash 4 (omega arith);
    alloc = omega arith;
    factor = 2 ^ 30;
    power = refl;
  };
  plain = free_slots-plain;
  room = rw (taken-replicate 4) (omega arith);
  load = omega arith;
}

name_operand : IsPairAt call_state 66 65 74
unfolding is_cell to_cell cell_type get_bits
name_operand = record { cell = refl; present = refl; info = 1; holds = refl; type = refl }

value_operand : IsPairAt call_state 74 20 2
unfolding is_cell to_cell cell_type get_bits
value_operand = record { cell = refl; present = refl; info = 1; holds = refl; type = refl }

-- (define s 5), for the symbol s of the word 65.
scm_define-eval_example :
    (after : State) × (scm_define constant 66 call_state ≡ ok qz_none after)
    × ((n : ℕ) → eval evaluates (suc n) 65 after ≡ ok 20 after)
unfolding is_sym is_cell
scm_define-eval_example =
    scm_define-eval call_state 0 free_slots innermost 65 20 refl (λ e. omega arith) evaluates
      constant 66 20 74 (omega arith) refl refl 2 name_operand value_operand refl

-- The pair of 5 and itself at 48, purple and buffered.
abbrev loop_info : ℕ
loop_info = 2 ^ 62 + 3 * 2 ^ 60 + 1

abbrev loop_state : State
loop_state = record small_state {
  heap = λ p. if p == 48 then some (record { info = loop_info; value = pair 20 50 }) else cells p;
  brk = 56;
  root_buffer = 48 ∷ [];
}

loop_info-Holds : Holds (pair_fields 1 Color.purple 1 0) loop_info
unfolding refcount cell_type color buffered dirty get_bits
loop_info-Holds = record { word = omega arith; fields = refl }

collect-Reclaims_example : Reclaims 48 loop_state
unfolding is_cell is_null to_cell
collect-Reclaims_example =
    collect-Reclaims loop_state 48 20 50 refl refl refl loop_info 0 loop_info-Holds refl
      (omega arith) refl
