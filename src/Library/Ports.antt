-- ===== src/Library/Ports.antt =====
-- quuz-lib.c, section 6.13.1: ports.
pub mod Close
pub mod Open
use quuz.Prelude.{ℕ, Bool, true, false, not, ◌&&◌, Option, none, some, List, [], ◌∷◌, if◌then◌else◌}
use quuz.Prelude.Text.{codes}
use quuz.Object.Tag.{Obj, qz_null, qz_none, to_cell, from_cell, from_bool}
use quuz.Object.CellType
use quuz.Machine.Store.{Port, port}
use quuz.Machine.Outcome.{M, pure, ◌>>=◌, ◌>>◌, gets, modify, skip}
use quuz.Machine.Cell.{make_cell, make_pair, is_port, to_port, put}
use quuz.Collector.{ref, unref}
use quuz.Runtime.{push_safety, pop_safety, qz_error}
use quuz.Eval.{Cfun}
use quuz.Eval.Args.{Kind, get_arg, get_args2, required, quoted, optional, any, pair}
use quuz.Library.Numbers.{predicate}
use quuz.Library.Files.{Files, opened, refused, c_string, contains}

unfoldable pub make_port : Files → Obj → List ℕ → M Obj
unfolding c_string qz_error make_cell
make_port files str mode = do
  path ← c_string str
  fp ← files.fopen path mode
  elim fp [
    | refused e ↦ qz_error e (str ∷ [])
    | opened f ↦ do
      cell ← make_cell CellType.port (port (record { fp = some f; mode = mode }))
      pure (from_cell cell)
  ]

unfoldable pub close_port : Files → Obj → M (Unit {0})
unfolding to_port put
close_port files obj = do
  p ← to_port obj
  elim p.fp [
    | none ↦ skip
    | some fp ↦ do files.fclose fp; put (to_cell obj) (port (record p { fp = none }))
  ]

unfoldable pub call_with_port : Files → Cfun → (port proc : Obj) → M Obj
unfolding make_pair push_safety close_port
call_with_port files ev p proc = do
  operands ← make_pair p qz_null
  fun_call ← make_pair proc operands
  push_safety fun_call
  result ← ev fun_call
  close_port files p
  pure result

unfoldable pub call_with_file : Files → Cfun → (str proc : Obj) → (mode : List ℕ) → M Obj
unfolding push_safety make_port pop_safety unref call_with_port
call_with_file files ev str proc mode = do
  push_safety str
  push_safety proc
  p ← make_port files str mode
  pop_safety 2
  unref str
  call_with_port files ev p proc

unfoldable pub scm_call_with_input_file : Files → Cfun → Cfun
unfolding get_args2 call_with_file
scm_call_with_input_file files ev args = do
  (str, proc, _) ← get_args2 ev (required Kind.string) (required any) args
  call_with_file files ev str proc (codes "r")

unfoldable pub scm_call_with_output_file : Files → Cfun → Cfun
unfolding get_args2 call_with_file
scm_call_with_output_file files ev args = do
  (str, proc, _) ← get_args2 ev (required Kind.string) (required any) args
  call_with_file files ev str proc (codes "w")

unfoldable pub scm_call_with_port : Files → Cfun → Cfun
unfolding get_args2 call_with_port
scm_call_with_port files ev args = do
  (p, proc, _) ← get_args2 ev (required Kind.port) (required any) args
  call_with_port files ev p proc

unfoldable pub is_port_with_type : ℕ → Obj → M Bool
unfolding to_port contains
is_port_with_type mode_char obj = do
  b ← is_port obj
  (if b then (do p ← to_port obj; pure (contains p.mode mode_char)) else pure false)

unfoldable pub is_input_port : Obj → M Bool
unfolding is_port_with_type
is_input_port obj = is_port_with_type b'r' obj

unfoldable pub is_output_port : Obj → M Bool
unfolding is_port_with_type
is_output_port obj = is_port_with_type b'w' obj

-- Also true of an object that is no port.
unfoldable pub is_textual_port : Obj → M Bool
unfolding is_port_with_type
is_textual_port obj = do b ← is_port_with_type b'b' obj; pure (not b)

unfoldable pub is_binary_port : Obj → M Bool
unfolding is_port_with_type
is_binary_port obj = is_port_with_type b'b' obj

unfoldable pub scm_input_port_q : Cfun → Cfun
unfolding predicate is_input_port
scm_input_port_q ev = predicate ev is_input_port

unfoldable pub scm_output_port_q : Cfun → Cfun
unfolding predicate is_output_port
scm_output_port_q ev = predicate ev is_output_port

unfoldable pub scm_textual_port_q : Cfun → Cfun
unfolding predicate is_textual_port
scm_textual_port_q ev = predicate ev is_textual_port

unfoldable pub scm_binary_port_q : Cfun → Cfun
unfolding predicate is_binary_port
scm_binary_port_q ev = predicate ev is_binary_port

unfoldable pub scm_port_q : Cfun → Cfun
unfolding predicate
scm_port_q ev = predicate ev is_port

-- The specification is "p", which asks for a pair.
unfoldable pub scm_port_open_q : Cfun → Cfun
unfolding get_arg to_port from_bool
scm_port_open_q ev args = do
  (obj, _) ← get_arg ev (required Kind.pair) args
  p ← to_port obj
  pure (from_bool (elim p.fp [ none ↦ 0 | some _ ↦ 1 ]))

unfoldable pub scm_current_input_port : Cfun
unfolding ref
scm_current_input_port args = do p ← gets (λ st. st.input_port); ref p

unfoldable pub scm_current_output_port : Cfun
unfolding ref
scm_current_output_port args = do p ← gets (λ st. st.output_port); ref p

unfoldable pub scm_current_error_port : Cfun
unfolding ref
scm_current_error_port args = do p ← gets (λ st. st.error_port); ref p

-- The two ports of the state that with_file replaces.
pub data PortSlot : Type 0 where
  input_slot output_slot : PortSlot

unfoldable pub read_slot_port : PortSlot → M Obj
read_slot_port input_slot = gets (λ st. st.input_port)
read_slot_port output_slot = gets (λ st. st.output_port)

unfoldable pub set_slot_port : PortSlot → Obj → M (Unit {0})
set_slot_port input_slot p = modify (λ st. record st { input_port = p })
set_slot_port output_slot p = modify (λ st. record st { output_port = p })

unfoldable pub with_file : Files → Cfun → PortSlot → (mode : List ℕ) → Cfun
unfolding get_args2 make_pair push_safety make_port pop_safety unref read_slot_port set_slot_port
    close_port
with_file files ev port_slot mode args = do
  (str, thunk, _) ← get_args2 ev (required Kind.string) (quoted any) args
  fun_call ← make_pair thunk qz_null
  push_safety fun_call
  push_safety str
  p ← make_port files str mode
  pop_safety 1
  unref str
  old_port ← read_slot_port port_slot
  set_slot_port port_slot p
  push_safety old_port
  result ← ev fun_call
  pop_safety 1
  set_slot_port port_slot old_port
  close_port files p
  unref p
  pure result

unfoldable pub scm_with_input_from_file : Files → Cfun → Cfun
unfolding with_file
scm_with_input_from_file files ev = with_file files ev input_slot (codes "r")

unfoldable pub scm_with_output_to_file : Files → Cfun → Cfun
unfolding with_file
scm_with_output_to_file files ev = with_file files ev output_slot (codes "w")

unfoldable pub open_file : Files → Cfun → (mode : List ℕ) → Cfun
unfolding get_arg push_safety make_port
open_file files ev mode args = do
  (str, _) ← get_arg ev (required Kind.string) args
  push_safety str
  make_port files str mode

unfoldable pub scm_open_input_file : Files → Cfun → Cfun
unfolding open_file
scm_open_input_file files ev = open_file files ev (codes "r")

unfoldable pub scm_open_binary_input_file : Files → Cfun → Cfun
unfolding open_file
scm_open_binary_input_file files ev = open_file files ev (codes "rb")

unfoldable pub scm_open_output_file : Files → Cfun → Cfun
unfolding open_file
scm_open_output_file files ev = open_file files ev (codes "w")

unfoldable pub scm_open_binary_output_file : Files → Cfun → Cfun
unfolding open_file
scm_open_binary_output_file files ev = open_file files ev (codes "wb")

-- Without a `mode_char` every port is closed.
unfoldable pub close_port_of_type : Files → Cfun → (mode_char : Option ℕ) → Cfun
unfolding get_arg push_safety to_port contains qz_error close_port
close_port_of_type files ev mode_char args = do
  (obj, _) ← get_arg ev (optional Kind.port) args
  push_safety obj
  fits ← elim mode_char [ none ↦ pure true | some c ↦ do p ← to_port obj; pure (contains p.mode c) ]
  if not fits
      then qz_error (codes "port of wrong type") (obj ∷ [])
      else do close_port files obj; pure qz_none

unfoldable pub scm_close_port : Files → Cfun → Cfun
unfolding close_port_of_type
scm_close_port files ev = close_port_of_type files ev none

unfoldable pub scm_close_input_port : Files → Cfun → Cfun
unfolding close_port_of_type
scm_close_input_port files ev = close_port_of_type files ev (some b'r')

unfoldable pub scm_close_output_port : Files → Cfun → Cfun
unfolding close_port_of_type
scm_close_output_port files ev = close_port_of_type files ev (some b'w')
