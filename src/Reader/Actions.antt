-- ===== src/Reader/Actions.antt =====
-- The actions of quuz.leg, which the generated parser runs, and qz_read of quuz-read.c.
use quuz.Prelude.{ℕ, not, ◌&&◌, List, [], ◌∷◌, if◌then◌else◌}
use quuz.Object.Tag.{Obj, qz_null, qz_none, is_cell, is_null}
use quuz.Object.CellType
use quuz.Machine.Store.{objs}
use quuz.Machine.Outcome.{M, pure, ◌>>=◌, ◌>>◌}
use quuz.Machine.Array.{vector_head}
use quuz.Collector.{ref, unref}
use quuz.Hash.{CityHash}
use quuz.Runtime.{list_head}
use quuz.Symbol.{make_sym}
use quuz.Reader.{
  initial_capacity, make_array, concat_string, concat_bytevector, push, take_top, append, pop,
  elide_pair, push_pair, push_vector, push_bytevector, push_string, append_char, append_number,
  append_bool, concat_text,
}

-- The actions of the grammar, quuz.leg.
pub data Action : Type 0 where
  concat_char : ℕ → Action
  concat_byte : ℕ → Action
  bool : ℕ → Action
  number : ℕ → Action
  char : ℕ → Action
  prefix : List ℕ → Action
  begin_string : Action
  begin_pair : Action
  begin_vector : Action
  begin_bytevector : Action
  elide : Action
  end : Action
  end_symbol : Action

module _ ⦃city : CityHash⦄ where
  unfoldable pub pop_sym : Obj → M (Unit {0})
  unfolding take_top make_sym append
  pop_sym stack = do obj ← take_top stack; sym ← make_sym obj; append stack sym

  unfoldable pub append_sym : Obj → List ℕ → M Obj
  unfolding push_string concat_text pop_sym
  append_sym stack s = do
    stack' ← push_string stack
    concat_text stack' s
    pop_sym stack'
    pure stack'

  -- One action of the parser, and the stack after it.
  unfoldable pub run_action : Obj → Action → M Obj
  unfolding concat_string concat_bytevector append_bool append_number append_char append_sym
      push_string push_pair push_vector push_bytevector elide_pair pop pop_sym
  run_action stack (concat_char c) = do concat_string stack c; pure stack
  run_action stack (concat_byte b) = do concat_bytevector stack b; pure stack
  run_action stack (bool b) = do append_bool stack b; pure stack
  run_action stack (number i) = do append_number stack i; pure stack
  run_action stack (char c) = do append_char stack c; pure stack
  run_action stack (prefix s) = append_sym stack s
  run_action stack begin_string = push_string stack
  run_action stack begin_pair = push_pair stack
  run_action stack begin_vector = push_vector stack
  run_action stack begin_bytevector = push_bytevector stack
  run_action stack elide = do elide_pair stack; pure stack
  run_action stack end = do pop stack; pure stack
  run_action stack end_symbol = do pop_sym stack; pure stack

  unfoldable pub run_actions : Obj → List Action → M Obj
  unfolding run_action
  run_actions stack [] = pure stack
  run_actions stack (a ∷ more) = do stack' ← run_action stack a; run_actions stack' more

  -- qz_read, after the generated parser has matched the text and runs these actions.
  unfoldable pub read : List Action → M Obj
  unfolding make_array push run_actions vector_head list_head ref unref
  read actions = do
    empty ← make_array CellType.vector (objs initial_capacity [])
    stack ← push empty qz_null
    stack' ← run_actions stack actions
    stack_top ← vector_head stack'
    result ←
        (if is_cell stack_top && not (is_null stack_top)
          then (do head ← list_head stack_top; ref head)
          else pure qz_none)
    unref stack'
    pure result
