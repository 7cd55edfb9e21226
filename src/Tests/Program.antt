-- ===== src/Tests/Program.antt =====
-- Calls by the whole interpreter, and a run of the program. The function number `i` of
-- QZ_LIB_FUNCTIONS stands at 8 * (i + 1), so that of `if` at 24 and that of `+` at 240.
use quuz.Prelude.{
  ℕ, suc, ◌+◌, ◌*◌, ◌^◌, ◌<◌, ◌≡◌, refl, true, false, Option, none, some, Bool, List, [], ◌∷◌, ◌==◌,
  arith, if◌then◌else◌,
}
use quuz.Object.Tag.{
  Obj, is_cfun, to_cfun, from_cell, is_bool, is_char, qz_false, is_cell, is_null, is_sym, is_none,
  is_fixnum, to_cell, to_fixnum, from_fixnum, from_cfun,
}
use quuz.Object.Info.{
  cell_type, get_bits, set_bits, set_color, set_refcount, set_type, set_dirty, dirty, refcount,
  buffered, color, set_buffered,
}
use quuz.Machine.Store.{State, Cell, pair}
use quuz.Machine.Outcome.{Outcome, ok, pure}
use quuz.Machine.Cell.{cell_of_type}
use quuz.Machine.Chain.{IsPairAt, IsChain}
use quuz.Prelude.Text.{codes, signed_decimal}
use quuz.Collector.{ref, call_if_valid_cell}
use quuz.Equal.{eq, qz_equal}
use quuz.Eval.{Library, eval_atom, eval, peval}
use quuz.Library.Numbers.Sum.{IsOperand, AreOperands}
use quuz.Library.Table.{Host}
use quuz.Setup.{FdOpen}
use quuz.Main.{main, main_loop, run}
use quuz.Main.Loop.{LeavesNoError, main_loop-LeavesNoError}
use quuz.Runtime.Post.{Post}
use quuz.Reader.Actions.{Action, begin_pair, begin_string, concat_char, end_symbol, number, end}
use quuz.Interpreter.{library}
use quuz.Interpreter.Call.{IsLayout, eval-sum, eval-if}
use quuz.Tests.{byte_hash, small_state, cells}
use quuz.Tests.Text.{ascii, ascii_types}
use quuz.Tests.Files.{no_files}

-- The functions that are not in the table stand from 8000 on.
abbrev host : Host
host = record {
  libc = ascii;
  ctype = ascii_types;
  memcmp = λ s1 s2. 0;
  memory = λ i. 0;
  files = no_files;
  record_funs = record {
    is_record_fun = 8000;
    make_record_fun = 8008;
    access_record_fun = 8016;
    modify_record_fun = 8024;
  };
  failsafe = 8035;
}

abbrev address : ℕ → ℕ
address i = 8 * (i + 1)

layout : IsLayout address
layout = record { aligned = λ i. omega arith; distinct = λ i j lt. ground arith }

-- Behind the cells of Tests: (+ 5 3) at 80, and (if #f 5 3) at 88.
abbrev program_cells : ℕ → Option Cell
program_cells p =
    if p == 80
    then some (record { info = 1; value = pair 243 34 })
    else if p == 88
    then some (record { info = 1; value = pair 27 98 })
    else if p == 96
    then some (record { info = 1; value = pair qz_false 106 })
    else if p == 104
    then some (record { info = 1; value = pair 20 114 })
    else if p == 112
    then some (record { info = 1; value = pair 12 2 })
    else cells p

abbrev program_state : State
program_state = record small_state { heap = program_cells; brk = 120 }

pair_cell :
    (obj front back info : ℕ)
    → is_cell obj ≡ true
    → (to_cell obj == 0) ≡ false
    → program_cells (to_cell obj) ≡ some (record { info = info; value = pair front back })
    → cell_type info ≡ 0
    → IsPairAt program_state obj front back
pair_cell obj front back info cell present holds type = record {
  cell = cell;
  present = present;
  info = info;
  holds = holds;
  type = type;
}

sum_pair : IsPairAt program_state 82 243 34
unfolding is_cell to_cell cell_type get_bits
sum_pair = pair_cell 82 243 34 1 refl refl refl refl

sum_operands : IsChain program_state 34 (20 ∷ 12 ∷ []) 2
unfolding is_cell to_cell cell_type get_bits
sum_operands = (
  42,
  pair_cell 34 20 42 2 refl refl refl refl,
  (2, pair_cell 42 12 2 1 refl refl refl refl, refl),
)

null-ends : cell_of_type 2 0 program_state ≡ ok false program_state
unfolding cell_of_type is_cell to_cell
null-ends = refl

-- Constants evaluate to themselves.
module _ (lib : Library) (n : ℕ) where
  atom-run :
      (obj : Obj)
      → is_cell obj ≡ false
      → is_sym obj ≡ false
      → is_null obj ≡ false
      → is_none obj ≡ false
      → eval lib (suc n) obj program_state ≡ ok obj program_state
  unfolding eval eval_atom ref call_if_valid_cell cell_of_type
  atom-run obj word symbol given some_value = rw (word, symbol, given, some_value) refl

literal :
    (n : ℕ) (obj : Obj)
    → is_cell obj ≡ false
    → is_sym obj ≡ false
    → is_null obj ≡ false
    → (is_none obj ≡ false) × (is_fixnum obj ≡ true)
    → obj < 2 ^ 64
    → IsOperand (eval (library host address) (suc n)) program_state obj obj
literal n obj word symbol given (some_value, fixnum) lt = record {
  given = some_value;
  run = atom-run (library host address) n obj word symbol given some_value;
  fixnum = fixnum;
  word = lt;
}

sum_literals :
    (n : ℕ)
    → AreOperands (eval (library host address) (suc n)) program_state (20 ∷ 12 ∷ []) (20 ∷ 12 ∷ [])
unfolding is_cell is_sym is_null is_none is_fixnum
sum_literals n = (
  literal n 20 refl refl refl (refl, refl) (omega arith),
  (literal n 12 refl refl refl (refl, refl) (omega arith), tt),
)

-- 5 + 3 is 8, which is 32.
eval-sum_example : eval (library host address) 4 82 program_state ≡ ok 32 program_state
unfolding is_cell is_sym is_null is_none from_fixnum to_fixnum from_cfun
eval-sum_example =
    eval-sum host address layout 3 82 243 34 2 (20 ∷ 12 ∷ []) (20 ∷ 12 ∷ []) program_state sum_pair
      sum_operands null-ends (atom-run (library host address) 2 243 refl refl refl refl)
      (sum_literals 2) (omega arith)

if_pair : IsPairAt program_state 90 27 98
unfolding is_cell to_cell cell_type get_bits
if_pair = pair_cell 90 27 98 1 refl refl refl refl

if_operands : IsChain program_state 98 (qz_false ∷ 20 ∷ 12 ∷ []) 2
unfolding is_cell to_cell cell_type get_bits
if_operands = (
  106,
  pair_cell 98 qz_false 106 1 refl refl refl refl,
  (
    114,
    pair_cell 106 20 114 1 refl refl refl refl,
    (2, pair_cell 114 12 2 1 refl refl refl refl, refl),
  ),
)

-- The test is #f, so the result is 3.
eval-if_example : eval (library host address) 4 90 program_state ≡ ok 12 program_state
unfolding is_cell is_sym is_null is_none eq from_cfun
eval-if_example =
    eval-if host address layout 3 90 27 98 2 qz_false 20 12 program_state if_pair if_operands
      (atom-run (library host address) 2 27 refl refl refl refl) qz_false program_state
      (atom-run (library host address) 2 qz_false refl refl refl refl) refl 12 program_state
      (atom-run (library host address) 2 12 refl refl refl refl)

-- A run of `-e` on `(+ 1 2)` from stdin: the parser's actions for the datum, and for the end.
abbrev datum : List Action
datum = begin_pair ∷ begin_string ∷ concat_char 43 ∷ end_symbol ∷ number 1 ∷ number 2 ∷ end ∷ []

unfoldable output_of : Outcome Bool → Option (List (ℕ × ℕ))
output_of (ok b st) = some st.output
output_of _ = none

abbrev streams : FdOpen
streams fd mode = pure (some fd)

-- With the name of `+` alone, and its function as it is in the whole table.
sum_program :
    output_of (
      main ascii
        (peval (eval (library host address) 20) host.failsafe 20)
        no_files
        streams
        (λ fp hashbang. datum ∷ [])
        (record { cfun = 240; name = codes "+" } ∷ [])
        (codes "e")
        none
        20
        small_state)
    ≡ some ((1, 51) ∷ (1, 10) ∷ [])
unfolding output_of main eval peval library is_cell from_cell to_cell cell_type get_bits is_none
    is_null set_color set_bits set_refcount set_type set_dirty dirty refcount qz_equal buffered
    color set_buffered is_sym is_cfun to_cfun from_cfun is_fixnum to_fixnum from_fixnum
    signed_decimal is_bool is_char
sum_program = refl

main_loop-LeavesNoError_example : Post LeavesNoError (
    main_loop ascii
      (peval (eval (library host address) 20) host.failsafe 20)
      run
      20
      (datum ∷ [])
      small_state)
unfolding is_none
main_loop-LeavesNoError_example =
    main_loop-LeavesNoError ascii (peval (eval (library host address) 20) host.failsafe 20) run 20
      (datum ∷ []) small_state refl
