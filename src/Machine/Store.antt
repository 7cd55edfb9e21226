-- ===== src/Machine/Store.antt =====
-- Cells, the heap and `qz_state_t` of quuz.h.
use quuz.Prelude.{ℕ, Bool, Option, List}
use quuz.Object.Tag.{Obj}

-- qz_port_t: `fp` is a number for the open `FILE*`, `none` once it is NULL; `mode` is the text.
pub record Port : Type 0 where
  pub fp : Option ℕ
  pub mode : List ℕ

-- `qz_pair_t`
pub record Pair : Type 0 where
  pub first : Obj
  pub rest : Obj

-- The union of qz_cell_t with what follows it. An array is its `capacity` and its first `size`
-- elements; those between are not read by the source. A hash has all of its `capacity` pairs. The
-- arrays of bytes hold numbers below 256, and `real` the 64 bits of a double. `uninit` is a union that
-- was not written: reading it is a fault.
pub data Payload : Type 0 where
  pair : Obj → Obj → Payload
  bytes : ℕ → List ℕ → Payload
  objs : ℕ → List Obj → Payload
  table : ℕ → List Pair → Payload
  fields : Obj → List Obj → Payload
  port : Port → Payload
  real : ℕ → Payload
  uninit : Payload

-- `qz_cell_t`
pub record Cell : Type 0 where
  pub info : ℕ
  pub value : Payload

-- qz_state_t, with the heap that its pointers lead to. `brk` is the address that `malloc` returns
-- next; it never returns one twice. `peval_fail` says whether the pointer is set, and `output` is
-- what was written so far, each byte with the stream that it went to.
pub record State : Type 0 where
  pub heap : ℕ → Option Cell
  pub brk : ℕ
  pub root_buffer : List ℕ
  pub safety_buffer : List Obj
  pub peval_fail : Bool
  pub error_handler : Obj
  pub error_obj : Obj
  pub env : Obj
  pub name_sym : Obj
  pub sym_name : Obj
  pub input_port : Obj
  pub output_port : Obj
  pub error_port : Obj
  pub next_sym : ℕ
  pub begin_sym : Obj
  pub else_sym : Obj
  pub arrow_sym : Obj
  pub quote_sym : Obj
  pub quasiquote_sym : Obj
  pub unquote_sym : Obj
  pub unquote_splicing_sym : Obj
  pub args_sym : Obj
  pub output : List (ℕ × ℕ)
