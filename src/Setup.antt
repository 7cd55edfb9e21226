-- ===== src/Setup.antt =====
-- qz_alloc and qz_free of quuz-state.c: the state at the start of the interpreter, and its end.
use quuz.Prelude.{ℕ, false, Option, List, [], ◌∷◌}
use quuz.Prelude.Text.{codes}
use quuz.Object.Tag.{Obj, qz_null, qz_none, from_cell, from_cfun}
use quuz.Object.CellType
use quuz.Machine.Store.{State, port}
use quuz.Machine.Outcome.{M, pure, ◌>>=◌, ◌>>◌, gets, modify, skip}
use quuz.Machine.Cell.{make_cell, make_pair, make_string, to_pair, set_first}
use quuz.Collector.{unref, collect}
use quuz.Hash.{CityHash, make_hash, hash_set}
use quuz.Runtime.{list_head}
use quuz.Symbol.{make_sym}

-- The stream of a file descriptor, `fdopen(dup(fd), mode)`; `none` is NULL.
abbrev pub FdOpen : Type 0
FdOpen = (fd : ℕ) → (mode : List ℕ) → M (Option ℕ)

-- An entry of QZ_LIB_FUNCTIONS: the address of a C function, and its name.
pub record NamedCfun : Type 0 where
  pub cfun : ℕ
  pub name : List ℕ

unfoldable pub open_port : FdOpen → (fd : ℕ) → (mode : List ℕ) → M Obj
unfolding make_cell
open_port fdopen fd mode = do
  fp ← fdopen fd mode
  cell ← make_cell CellType.port (port (record { fp = fp; mode = mode }))
  pure (from_cell cell)

-- `st->begin_sym` and the other symbols, interned in this order.
abbrev named : ⦃city : CityHash⦄ → List ℕ → M Obj
named s = do str ← make_string s; make_sym str

module _ ⦃city : CityHash⦄ where
  unfoldable pub make_syms : M (Unit {0})
  unfolding make_string make_sym
  make_syms = do
    begin ← named (codes "begin")
    modify (λ st. record st { begin_sym = begin })
    otherwise ← named (codes "else")
    modify (λ st. record st { else_sym = otherwise })
    arrow ← named (codes "=>")
    modify (λ st. record st { arrow_sym = arrow })
    quote ← named (codes "quote")
    modify (λ st. record st { quote_sym = quote })
    quasiquote ← named (codes "quasiquote")
    modify (λ st. record st { quasiquote_sym = quasiquote })
    unquote ← named (codes "unquote")
    modify (λ st. record st { unquote_sym = unquote })
    unquote_splicing ← named (codes "unquote-splicing")
    modify (λ st. record st { unquote_splicing_sym = unquote_splicing })
    args ← named (codes "args")
    modify (λ st. record st { args_sym = args })

  -- The loop over QZ_LIB_FUNCTIONS: the names are bound in the outermost frame.
  unfoldable pub define_cfuns : List NamedCfun → M (Unit {0})
  unfolding list_head make_string make_sym from_cfun hash_set to_pair set_first
  define_cfuns [] = skip
  define_cfuns (ncf ∷ more) = do
    env ← gets (λ st. st.env)
    frames ← list_head env
    sym ← named ncf.name
    m ← to_pair frames
    toplevel ← hash_set m.0 sym (from_cfun ncf.cfun)
    set_first frames toplevel
    define_cfuns more

  -- `qz_alloc`, on the memory of a state none of whose fields are set.
  unfoldable pub alloc : FdOpen → List NamedCfun → M (Unit {0})
  unfolding make_hash make_pair open_port make_syms define_cfuns
  alloc fdopen functions = do
    modify (λ st. record st {
      root_buffer = [];
      safety_buffer = [];
      peval_fail = false;
      error_handler = qz_none;
      error_obj = qz_none;
    })
    toplevel ← make_hash
    frames ← make_pair toplevel qz_null
    env ← make_pair frames qz_null
    modify (λ st. record st { env = env })
    name_sym ← make_hash
    modify (λ st. record st { name_sym = name_sym })
    sym_name ← make_hash
    modify (λ st. record st { sym_name = sym_name })
    input ← open_port fdopen 0 (codes "r")
    modify (λ st. record st { input_port = input })
    output ← open_port fdopen 1 (codes "w")
    modify (λ st. record st { output_port = output })
    error ← open_port fdopen 2 (codes "w")
    modify (λ st. record st { error_port = error; next_sym = 1 })
    make_syms
    define_cfuns functions

unfoldable abandon : (State → Obj) → M (Unit {0})
unfolding unref
abandon field = do obj ← gets field; unref obj

-- `qz_free`
unfoldable pub free : M (Unit {0})
unfolding abandon collect
free = do
  abandon (λ st. st.error_obj)
  abandon (λ st. st.env)
  abandon (λ st. st.name_sym)
  abandon (λ st. st.sym_name)
  abandon (λ st. st.input_port)
  abandon (λ st. st.output_port)
  abandon (λ st. st.error_port)
  collect
