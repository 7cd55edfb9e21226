-- ===== src/Library/Table.antt =====
-- QZ_LIB_FUNCTIONS of quuz-lib.c: what an entry of it is, and what the functions take from the C
-- library.
pub mod Core
pub mod Lists
pub mod Arrays
pub mod Control
pub mod World
use quuz.Prelude.{ℕ, List}
use quuz.Object.Tag.{Obj}
use quuz.Eval.{Cfun}
use quuz.Writer.{CLibrary}
use quuz.Library.Chars.{CType}
use quuz.Library.Strings.{MemcmpFun, Memory}
use quuz.Library.Records.{RecordFuns}
use quuz.Library.Files.{Files}

-- What lies outside of the interpreter. `failsafe` is the word of qz_error_handler, and `record_funs`
-- has the addresses of four more functions that programs reach by their words only.
pub record Host : Type 0 where
  pub libc : CLibrary
  pub ctype : CType
  pub memcmp : MemcmpFun
  pub memory : Memory
  pub files : Files
  pub record_funs : RecordFuns
  pub failsafe : Obj

-- The name of a function, and the function over an evaluator and fuel.
pub record Entry : Type 0 where
  pub name : List ℕ
  pub function : Cfun → ℕ → Cfun
