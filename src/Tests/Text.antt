-- ===== src/Tests/Text.antt =====
-- The reader, the writer, errors and comparisons on a larger heap: a stack with the list (5 3) on top
-- at 48, a string at 56 on a stack of its own at 64, and an open port at 72.
use quuz.Prelude.{
  ℕ, ◌+◌, ◌*◌, ◌%◌, ◌^◌, ◌≤◌, ◌≡◌, refl, inr, true, false, some, [], ◌∷◌, map, length, ltb, ◌==◌,
  if◌then◌else◌, arith,
}
use quuz.Prelude.Text.{codes, signed_decimal}
use quuz.Object.Tag.{Obj, is_cell, is_none, is_fixnum, to_cell, to_fixnum, from_fixnum, from_char}
use quuz.Object.Info.{cell_type, refcount, dirty, get_bits}
use quuz.Object.CellType
use quuz.Machine.Store.{State, Cell, bytes, objs, port}
use quuz.Machine.Outcome.{ok, pure}
use quuz.Machine.Cell.{cell_of_type, update}
use quuz.Machine.Chain.{IsPairAt, IsChain}
use quuz.Machine.Array.{list_tail}
use quuz.Machine.Array.Laws.{IsStack}
use quuz.Machine.Array.Tail.{list_tail-last}
use quuz.Machine.Room.{HasRoom}
use quuz.Reader.{elide_pair, concat_string}
use quuz.Reader.Actions.{number, run_actions}
use quuz.Reader.Chain.{Appended, append-Appended}
use quuz.Reader.Elide.{elide_pair-IsChain}
use quuz.Reader.Numbers.{run_actions-numbers}
use quuz.Reader.Text.{IsText, concat_string-IsText}
use quuz.Writer.{CLibrary, write_to}
use quuz.Writer.Lists.{wrote}
use quuz.Writer.Marks.{IsOpen, write_to-list}
use quuz.Runtime.{qz_error}
use quuz.Runtime.Errors.{Raised, qz_error-Raised}
use quuz.Library.Numbers.{
  sign_of, bool_obj, compare_many, compare_fixnum, scm_num_gt, gt_flags, predicate,
}
use quuz.Library.Numbers.Compare.{IsValue, kept_value, compare_many-all}
use quuz.Library.Chars.{CType, compare_char}
use quuz.Library.Chars.Order.{compare_char-rank}
use quuz.Tests.{small_state, byte_hash}

abbrev stack_cell : Cell
stack_cell = record { info = 5 * 2 ^ 56 + 1; value = objs 16 (2 ∷ 34 ∷ []) }

-- The text "a", in an array of one byte.
abbrev text_cell : Cell
text_cell = record { info = 4 * 2 ^ 56 + 1; value = bytes 1 (97 ∷ []) }

abbrev text_stack_cell : Cell
text_stack_cell = record { info = 5 * 2 ^ 56 + 1; value = objs 16 (2 ∷ 58 ∷ []) }

abbrev port_cell : Cell
port_cell = record {
  info = 9 * 2 ^ 56 + 1;
  value = port (record { fp = some 1; mode = codes "w" });
}

abbrev pub io_state : State
io_state = record small_state {
  heap =
      update
        (update (update (update small_state.heap 48 (some stack_cell)) 56 (some text_cell)) 64
          (some text_stack_cell))
        72 (some port_cell);
  brk = 80;
}

stack_lem : IsStack io_state 50 (2 ∷ []) 34
unfolding is_cell to_cell cell_type get_bits
stack_lem = record {
  cell = refl;
  present = refl;
  info = 5 * 2 ^ 56 + 1;
  capacity = 16;
  holds = refl;
  type = refl;
}

text_stack_lem : IsStack io_state 66 (2 ∷ []) 58
unfolding is_cell to_cell cell_type get_bits
text_stack_lem = record {
  cell = refl;
  present = refl;
  info = 5 * 2 ^ 56 + 1;
  capacity = 16;
  holds = refl;
  type = refl;
}

io_state-HasRoom : HasRoom io_state
io_state-HasRoom = record {
  aligned = omega arith;
  positive = omega arith;
  free = λ p le. ground arith;
}

text_lem : IsText io_state 58 1 (97 ∷ [])
unfolding is_cell to_cell refcount get_bits
text_lem = record { cell = refl; info = 4 * 2 ^ 56 + 1; holds = refl; owned = refl }

five : IsPairAt io_state 34 20 42
unfolding is_cell to_cell cell_type get_bits
five = record { cell = refl; present = refl; info = 2; holds = refl; type = refl }

three : IsPairAt io_state 42 12 2
unfolding is_cell to_cell cell_type get_bits
three = record { cell = refl; present = refl; info = 1; holds = refl; type = refl }

numbers : IsChain io_state 34 (20 ∷ 12 ∷ []) 2
numbers = (42, five, (2, three, refl))

-- The character a is appended to (5 3).
append-Appended_example : Appended io_state 50 (2 ∷ []) (20 ∷ 12 ∷ []) 6225
append-Appended_example =
    append-Appended io_state 50 34 6225 (2 ∷ []) (20 ∷ 12 ∷ []) stack_lem io_state-HasRoom
      (omega arith) numbers

run_actions-numbers_example :
    (after : State) × (list : Obj) × (run_actions 50 (number 7 ∷ number 8 ∷ []) io_state
      ≡ ok 50 after)
    × IsStack after 50 (2 ∷ []) list
    × IsChain after list (20 ∷ 12 ∷ map from_fixnum (7 ∷ 8 ∷ [])) 2
run_actions-numbers_example =
    run_actions-numbers (7 ∷ 8 ∷ []) io_state 50 34 (2 ∷ []) (20 ∷ 12 ∷ []) stack_lem
      io_state-HasRoom (omega arith) numbers

-- (5 3) becomes (5 . 3).
elide_pair-IsChain_example :
    (after : State) × (elide_pair 50 io_state ≡ ok tt after) × IsChain after 34 (20 ∷ []) 12
elide_pair-IsChain_example =
    elide_pair-IsChain io_state 50 34 20 12 (2 ∷ []) [] stack_lem numbers (omega arith)

-- The string is full, so that it moves.
concat_string-IsText_example :
    (after : State) × (text room : ℕ) × (concat_string 66 98 io_state ≡ ok tt after)
    × IsStack after 66 (2 ∷ []) text
    × IsText after text room (97 ∷ 98 % 256 ∷ [])
    × (length (97 ∷ 98 % 256 ∷ []) ≤ room)
concat_string-IsText_example =
    concat_string-IsText io_state 66 58 1 98 (2 ∷ []) (97 ∷ []) text_stack_lem io_state-HasRoom
      text_lem (omega arith) (omega arith) (omega arith)

list_tail-last_example : list_tail 34 io_state ≡ ok 12 io_state
list_tail-last_example = list_tail-last io_state 34 20 (12 ∷ []) (omega arith) numbers

abbrev pub ascii : CLibrary
ascii = record {
  isprint = λ c. ltb 31 c;
  isgraph = λ c. ltb 32 c;
  fileno = λ fp. fp;
  format_pointer = λ p. [];
  format_real = λ r. [];
}

out-IsOpen : IsOpen io_state 74 1
unfolding is_cell to_cell
out-IsOpen = record { cell = refl; info = 9 * 2 ^ 56 + 1; mode = codes "w"; holds = refl }

write_to-list_example :
    write_to ascii 3 false 34 74 io_state ≡ ok tt (wrote io_state 1 (codes "(5 3)"))
unfolding is_fixnum dirty get_bits five three signed_decimal to_fixnum
write_to-list_example =
    write_to-list ascii 1 false io_state 34 20 42 74 1 (12 ∷ []) out-IsOpen (omega arith) five
      (2, three, refl) (refl, (refl, tt)) (omega arith) refl (inr (12, 2, three, refl))

qz_error-Raised_example :
    Raised {A = Obj}
      (qz_error (codes "expected fixnum") (65 ∷ 20 ∷ []))
      io_state
      (codes "expected fixnum")
      (65 ∷ 20 ∷ [])
unfolding is_cell
qz_error-Raised_example =
    qz_error-Raised (codes "expected fixnum") (65 ∷ 20 ∷ []) io_state (refl, (refl, tt))
      io_state-HasRoom refl

value_lem :
    (obj : Obj)
    → is_none obj ≡ false
    → is_fixnum obj ≡ true
    → is_cell obj ≡ false
    → (st : State) → IsValue pure is_fixnum st obj obj
value_lem obj given fits word st = record { given = given; run = refl; fits = fits; word = word }

null_end : cell_of_type 2 CellType.pair io_state ≡ ok false io_state
unfolding cell_of_type is_cell to_cell
null_end = refl

-- 5 > 3
compare_many-all_example :
    compare_many pure
      (λ x. pure (is_fixnum x))
      (λ a b. pure (compare_fixnum a b))
      gt_flags
      2
      34
      io_state
    ≡ ok 73 io_state
unfolding is_none is_fixnum is_cell compare_fixnum quuz.Library.Numbers.accepts
compare_many-all_example =
    compare_many-all pure is_fixnum compare_fixnum gt_flags io_state 2 null_end (omega arith) 2 34
      20 20 (12 ∷ []) (12 ∷ []) numbers (value_lem 20 refl refl refl io_state)
      (value_lem 12 refl refl refl (kept_value io_state 20), tt) (omega arith)

-- The byte 233 comes before the letter a.
compare_char-rank_example : sign_of (compare_char (from_char 233) (from_char 97)) ≡ 1
compare_char-rank_example = compare_char-rank 233 97 (omega arith) (omega arith)

abbrev pub lower : ℕ → ℕ
lower c = if ltb 64 c then (if ltb c 91 then c + 32 else c % 256) else c % 256

abbrev pub ascii_types : CType
ascii_types = record {
  tolower = lower;
  toupper = λ c. c;
  isalpha = λ c. ltb 64 c;
  isdigit = λ c. ltb c 58;
  isspace = λ c. c == 32;
  isupper = λ c. ltb c 91;
  islower = λ c. ltb 96 c;
}
