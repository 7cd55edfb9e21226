-- ===== src/Tests.antt =====
-- The theorems on a small heap: a hash, an environment with one frame, and a list of two fixnums.
mod Text
mod Files
mod Evaluation
mod Program
mod Printed
use quuz.Prelude.{
  ℕ, ◌+◌, ◌*◌, ◌%◌, ◌^◌, ◌<◌, ◌≤◌, ◌≡◌, refl, ap, ◌∙◌, inr, ◌-◌, true, false, Option, none, some,
  List, [], ◌∷◌, replicate, get_or, get_or-replicate, ◌==◌, if◌then◌else◌, arith,
}
use quuz.Object.Tag.{
  Obj, qz_none, is_cell, is_null, is_none, is_fixnum, to_cell, from_fixnum, to_fixnum, to_char,
  from_char, is_char,
}
use quuz.Object.Tag.Laws.{
  IsFixnumRange, to_fixnum-from_fixnum, from_fixnum-to_fixnum, kinds, kinds-le-one,
}
use quuz.Object.CellType
use quuz.Object.Info.{
  cell_type, color, buffered, refcount, set_refcount, set_type, set_color, set_buffered, set_dirty,
  get_bits,
}
use quuz.Object.Info.Laws.{Fields, fields, setters-fields}
use quuz.Machine.Store.{State, Cell, Pair, pair, table}
use quuz.Machine.Outcome.{ok, pure, thrown}
use quuz.Machine.Cell.{cell_of_type}
use quuz.Machine.Chain.{IsPairAt, IsChain}
use quuz.Collector.{ref, unref}
use quuz.Collector.Counts.{with_info, ref-counts, unref-shared}
use quuz.Equal.{qz_equal}
use quuz.Equal.Pairs.{qz_equal-pairs}
use quuz.Hash.{CityHash, Slot, no_pair, hash_get, hash_set}
use quuz.Hash.Table.{view}
use quuz.Hash.Refine.{word_hash}
use quuz.Hash.Load.{taken-replicate, replicate-IsTable}
use quuz.Hash.Write.{IsHash, read_found, hash_get-view, hash_set-hash_get}
use quuz.Hash.Grow.{Grown, realloc_hash-Grown}
use quuz.Machine.Keeps.{Kept}
use quuz.Collector.Control.{unref-Keeps}
use quuz.Eval.{Cfun, peval}
use quuz.Eval.Protect.{Protected, peval-Protected}
use quuz.Runtime.{lookup}
use quuz.Runtime.Lookup.{first_value, IsFrame, lookup-scope}
use quuz.Library.Lists.{list_length, is_list}
use quuz.Library.Lists.Chain.{list_length-chain}
use quuz.Library.Numbers.{scm_num_add, sign_of, compare_fixnum}
use quuz.Library.Numbers.Order.{compare_fixnum-near, compare_fixnum-far}
use quuz.Library.Numbers.Sum.{IsOperand, AreOperands, scm_num_add-sum}

abbrev pub first_byte : List ℕ → ℕ
first_byte [] = 0
first_byte (x ∷ xs) = x % 2 ^ 32

pub first_byte-lt : (s : List ℕ) → first_byte s < 2 ^ 32
first_byte-lt [] = omega arith
first_byte-lt (x ∷ xs) = omega arith

instance abbrev pub byte_hash : CityHash
byte_hash = record { city_hash32 = first_byte; city_hash32-lt = first_byte-lt }

abbrev pub free_slots : List Pair
free_slots = replicate 4 no_pair

-- A hash at 8, an environment at 16, its scope at 24, and the list (5 3) at 32 and 40.
abbrev pub hash_cell : Cell
hash_cell = record { info = 7 * 2 ^ 56 + 1; value = table 0 free_slots }

abbrev pub env_cell : Cell
env_cell = record { info = 1; value = pair 26 2 }

abbrev pub scope_cell : Cell
scope_cell = record { info = 1; value = pair 10 2 }

abbrev pub five_cell : Cell
five_cell = record { info = 2; value = pair 20 42 }

abbrev pub three_cell : Cell
three_cell = record { info = 1; value = pair 12 2 }

abbrev pub cells : ℕ → Option Cell
cells p =
    if p == 8
    then some hash_cell
    else if p == 16
    then some env_cell
    else if p == 24
    then some scope_cell
    else if p == 32
    then some five_cell
    else if p == 40
    then some three_cell
    else none

abbrev pub small_state : State
small_state = record {
  heap = cells;
  brk = 48;
  root_buffer = [];
  safety_buffer = [];
  peval_fail = true;
  error_handler = qz_none;
  error_obj = qz_none;
  env = 18;
  name_sym = 2;
  sym_name = 2;
  input_port = qz_none;
  output_port = qz_none;
  error_port = qz_none;
  next_sym = 3;
  begin_sym = 1;
  else_sym = 1;
  arrow_sym = 1;
  quote_sym = 1;
  quasiquote_sym = 1;
  unquote_sym = 1;
  unquote_splicing_sym = 1;
  args_sym = 1;
  output = [];
}

pub free_slots-word : (i : ℕ) → is_cell (get_or free_slots i no_pair).first ≡ false
unfolding is_cell
free_slots-word i = ap (λ (p : Pair). is_cell p.first) (get_or-replicate 4 i no_pair) ∙ refl

pub free_slots-plain : (i : ℕ) → is_cell (get_or free_slots i no_pair).rest ≡ false
unfolding is_cell
free_slots-plain i = ap (λ (p : Pair). is_cell p.rest) (get_or-replicate 4 i no_pair) ∙ refl

small_hash : IsHash small_state 10 0 free_slots
unfolding is_cell to_cell cell_type get_bits
small_hash = record {
  cell = refl;
  at = record { info = 7 * 2 ^ 56 + 1; holds = refl; type = refl };
  words = λ i h. free_slots-word i;
  table = replicate-IsTable word_hash 4 (omega arith);
  alloc = omega arith;
  factor = 2 ^ 30;
  power = refl;
}

pub is_symbol_word : is_cell 65 ≡ false
unfolding is_cell
is_symbol_word = refl

-- The symbol 65 is set to the fixnum 5, which is 20, and read.
hash_set-hash_get_example :
    (after : State) × (slot : Option Slot) × (hash_set 10 65 20 small_state ≡ ok 10 after)
    × (hash_get 10 65 after ≡ ok slot after)
    × (read_found slot after ≡ ok (some 20) after)
hash_set-hash_get_example =
    hash_set-hash_get small_state 10 0 free_slots small_hash 65 20 65 is_symbol_word
      (λ e. omega arith) is_symbol_word (λ e. omega arith) free_slots-plain
      (rw (taken-replicate 4) (omega arith)) (omega arith)

-- In the empty hash the symbol has no value.
hash_get-view_example :
    (slot : Option Slot) × (hash_get 10 65 small_state ≡ ok slot small_state)
    × (read_found slot small_state ≡ ok (view word_hash free_slots 65) small_state)
hash_get-view_example = hash_get-view small_state 10 0 free_slots small_hash 65 is_symbol_word

realloc_hash-Grown_example : Grown small_state 10 0 free_slots
unfolding to_cell refcount get_bits small_hash
realloc_hash-Grown_example =
    realloc_hash-Grown small_state 10 0 free_slots small_hash (2 ^ 29) refl (omega arith)
      (omega arith) refl

env_pair : IsPairAt small_state 18 26 2
unfolding is_cell to_cell cell_type get_bits
env_pair = record { cell = refl; present = refl; info = 1; holds = refl; type = refl }

scope-IsFrame : IsFrame small_state 26 free_slots 2
unfolding is_cell to_cell cell_type get_bits
scope-IsFrame = record {
  frame = 10;
  size = 0;
  at = record { cell = refl; present = refl; info = 1; holds = refl; type = refl };
  hash = small_hash;
}

lookup-scope_example :
    (slot : Option Slot) × (lookup 65 small_state ≡ ok slot small_state)
    × (read_found slot small_state ≡ ok (first_value free_slots [] 65) small_state)
lookup-scope_example =
    lookup-scope small_state 26 2 free_slots [] 65 env_pair scope-IsFrame is_symbol_word
      (omega arith)

five_pair : IsPairAt small_state 34 20 42
unfolding is_cell to_cell cell_type get_bits
five_pair = record { cell = refl; present = refl; info = 2; holds = refl; type = refl }

three_pair : IsPairAt small_state 42 12 2
unfolding is_cell to_cell cell_type get_bits
three_pair = record { cell = refl; present = refl; info = 1; holds = refl; type = refl }

two_numbers : IsChain small_state 34 (20 ∷ 12 ∷ []) 2
two_numbers = (42, five_pair, (2, three_pair, refl))

null-ends : cell_of_type 2 CellType.pair small_state ≡ ok false small_state
unfolding cell_of_type is_cell to_cell
null-ends = refl

list_length-chain_example :
    (list_length 34 small_state ≡ ok (some 2) small_state)
    × (is_list 34 small_state ≡ ok true small_state)
unfolding is_null
list_length-chain_example =
    list_length-chain small_state 2 null-ends 34 (20 ∷ 12 ∷ []) two_numbers (omega arith)

literal :
    (value : Obj)
    → is_none value ≡ false
    → is_fixnum value ≡ true
    → value < 2 ^ 64
    → IsOperand pure small_state value value
literal value given fixnum word = record { given = given; run = refl; fixnum = fixnum; word = word }

two_operands : AreOperands pure small_state (20 ∷ 12 ∷ []) (20 ∷ 12 ∷ [])
unfolding is_none is_fixnum
two_operands = (literal 20 refl refl (omega arith), (literal 12 refl refl (omega arith), tt))

-- The operands evaluate to themselves, and 5 + 3 is 8, which is 32.
scm_num_add-sum_example : scm_num_add pure 3 34 small_state ≡ ok 32 small_state
unfolding from_fixnum to_fixnum
scm_num_add-sum_example =
    scm_num_add-sum pure small_state 2 null-ends 3 34 (20 ∷ 12 ∷ []) (20 ∷ 12 ∷ []) two_numbers
      two_operands (omega arith)

qz_equal-pairs_example : qz_equal 34 42 small_state ≡ ok false small_state
unfolding is_cell
qz_equal-pairs_example =
    qz_equal-pairs small_state 34 42 20 12 42 2 five_pair three_pair refl (omega arith)

ref-counts_example :
    (info : ℕ) × (ref 34 small_state ≡ ok 34 (with_info small_state 32 five_cell info))
    × (fields info ≡ record (fields 2) { refcount = 3; color = 0 })
unfolding is_cell is_null to_cell refcount get_bits
ref-counts_example = ref-counts small_state 34 five_cell refl refl refl (omega arith) (omega arith)

unref-shared_example :
    (info : ℕ) × (roots : List ℕ) × (unref 34 small_state
      ≡ ok tt (record (with_info small_state 32 five_cell info) { root_buffer = roots }))
    × (fields info ≡ record (fields 2) { refcount = 1; color = 3; buffered = 1 })
    × (roots ≡ 32 ∷ [])
unfolding is_cell is_null to_cell refcount color buffered get_bits
unref-shared_example =
    unref-shared small_state 34 five_cell refl refl refl (omega arith) (omega arith) (omega arith)
      (omega arith)

abbrev small_fields : Fields
small_fields = record { refcount = 5; cell_type = 7; color = 3; buffered = 1; dirty = 1 }

setters-fields_example :
    (fields (set_refcount 1 5) ≡ record (fields 1) { refcount = 5 })
    × (fields (set_type 1 7) ≡ record (fields 1) { cell_type = 7 })
    × (fields (set_color 1 3) ≡ record (fields 1) { color = 3 })
    × (fields (set_buffered 1 1) ≡ record (fields 1) { buffered = 1 })
    × (fields (set_dirty 1 1) ≡ record (fields 1) { dirty = 1 })
setters-fields_example = setters-fields 1 small_fields (omega arith) (record {
  refcount = omega arith;
  cell_type = omega arith;
  color = omega arith;
  buffered = omega arith;
  dirty = omega arith;
})

-- The pattern of -1.
to_fixnum-from_fixnum_example :
    (to_fixnum (from_fixnum (2 ^ 64 - 1)) ≡ 2 ^ 64 - 1)
    × (is_fixnum (from_fixnum (2 ^ 64 - 1)) ≡ true)
to_fixnum-from_fixnum_example =
    to_fixnum-from_fixnum (2 ^ 64 - 1) (record { word = omega arith; fits = inr (omega arith) })

from_fixnum-to_fixnum_example : (from_fixnum (to_fixnum 20) ≡ 20) × IsFixnumRange (to_fixnum 20)
unfolding is_fixnum
from_fixnum-to_fixnum_example = from_fixnum-to_fixnum 20 (omega arith) refl

kinds-le-one_example : kinds 65 ≤ 1
kinds-le-one_example = kinds-le-one 65

compare_fixnum-near_example :
    (sign_of (compare_fixnum (from_fixnum 8) (from_fixnum 5)) ≡ 4)
    × (sign_of (compare_fixnum (from_fixnum 5) (from_fixnum 8)) ≡ 1)
compare_fixnum-near_example = compare_fixnum-near 5 3 (omega arith) (omega arith)

-- 5 and 5 + 2 ^ 30
compare_fixnum-far_example :
    (sign_of (compare_fixnum (from_fixnum (2 ^ 30 + 5)) (from_fixnum 5)) ≡ 2)
    × (sign_of (compare_fixnum (from_fixnum 5) (from_fixnum (2 ^ 30 + 5))) ≡ 2)
compare_fixnum-far_example = compare_fixnum-far 5 1 (omega arith)

-- An evaluation that ends in an error.
abbrev failing : Cfun
failing obj st = thrown st

peval-Protected_example : Protected true (peval failing 35 2 20 small_state)
peval-Protected_example = peval-Protected failing 35 2 20 small_state
