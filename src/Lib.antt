-- ===== src/Lib.antt =====
-- quuz, an interpreter for a small Scheme in C: a model of its core, and what is proved of it.
--
-- Parts, and the files that model them (paths of the source from the root of the repository):
--
-- Object (quuz.h, quuz-object.c): Object.Tag has the words of 64 bits that objects are
-- (qz_obj_t), their tags, tests and conversions; Object.Info has the bit fields of
-- qz_cell_t.info (get_bits, set_bits and the accessors). A word is a natural number; the
-- wrap-around is written out.
-- Machine (quuz.h, quuz-object.c): Machine.Store has the interpreter state (qz_state_t) with the
-- heap, a partial map from addresses to cells, and Machine.Outcome how a run ends: with a
-- result, by a longjmp (`thrown`), in a failed assertion or a bad access (`fault`), or without
-- fuel. Machine.Cell has load and store, the constructors (qz_make_cell, qz_make_pair) and the
-- accessors (qz_first, qz_rest, qz_to_pair). A new cell takes the address `brk`, which grows by
-- 8. Machine.Array has arrays with their size and capacity; a pointer into a cell is a Place,
-- with a read and a write. Machine.Chain and Machine.Pairs are about lists in the heap,
-- Machine.Room about cells that a run leaves free, Machine.Keeps and Machine.Keeps.Cells about
-- runs that leave the control state alone, Machine.Builds about runs that build lists.
-- Collector (quuz-collector.c): reference counts and the collection of cycles; Collector.Counts
-- is about single counts, Collector.Control about what all of it leaves alone, Collector.Freed
-- about the memory that the release of a list gives back, Collector.Cycle about the collection
-- of the smallest cycle.
-- Equal (quuz-object.c): qz_eq, qz_eqv and qz_equal. Equal.Control, Hash.Control and
-- Runtime.Control are about what these parts leave alone.
-- Hash (quuz-hash.c): hash tables with linear probing. Hash.Ring, Hash.Table, Hash.Load and
-- Hash.Rehash are about slots as a list and the map they stand for; Hash.Refine, Hash.Write and
-- Hash.Grow carry this over to the heap.
-- Runtime (quuz-state.c, quuz-object.c): the safety buffer, qz_error, the argument walkers and
-- qz_lookup, which Runtime.Lookup is about; Runtime.Errors is about qz_error, and Runtime.Post
-- about what holds where a run ends well.
-- Eval (quuz-state.c, quuz-util.c): qz_eval, qz_peval, qz_eval_list and, in Eval.Args,
-- qz_get_args; Eval.Protect is about qz_peval, Eval.Balance about the safety buffer,
-- Eval.Args.Fits about the types of arguments.
-- Symbol (quuz-object.c): qz_make_sym.
-- Reader (quuz-read.c): the stack of the parser; Reader.Actions has the actions of quuz.leg and
-- qz_read. Reader.Chain, Reader.Numbers, Reader.Elide and Reader.Text are about lists and texts
-- under construction.
-- Writer (quuz-write.c): qz_write and qz_display; Writer.Printf has qz_printf of quuz-util.c.
-- What is written goes to the end of `output` in the state. Writer.Lists and Writer.Marks are
-- about lists, Writer.Numbers about the reader and the writer together.
-- Library (quuz-lib.c): the C functions of Scheme, by section: Library.Syntax, Library.Quasi,
-- Library.Binding, Library.Records, Library.Numbers, Library.Lists, Library.Chars,
-- Library.Strings, Library.Vectors, Library.Arrays, Library.Control, Library.Ports,
-- Library.Input, Library.Output and Library.System; Library.Predicates has those that pass one
-- function on to a shared one. Library.Binding.Define is about a definition and the variable
-- after it. Each function takes the evaluator that it calls as an argument. Library.Table and
-- its children have QZ_LIB_FUNCTIONS.
-- Setup (quuz-state.c): qz_alloc and qz_free.
-- Main (quuz-main.c): the options, the input, and the loop over its data; Main.Loop is about the
-- loop.
-- Interpreter (quuz-state.c, quuz-lib.c, quuz-main.c): the evaluator over the functions of the
-- table, and main over both; Interpreter.Call is about calls of these functions.
-- Tests: small heaps, and the theorems at work on them.
--
-- The evaluator calls the C functions by their addresses through a function that is a parameter
-- of it (Library in Eval.antt); Interpreter fills it with QZ_LIB_FUNCTIONS, and the addresses
-- are a parameter of that. CityHash32, from the copy of CityHash in city.cc, is a parameter too:
-- a function of the bytes with a result below 2 ^ 32. So are the calls of the C library: the
-- formats of printf that depend on the machine (CLibrary in Writer.antt), the tests of ctype.h
-- (CType in Library/Chars.antt), memcmp, files, the clock and the environment (Files in
-- Library/Files.antt; Host in Library/Table.antt has all of these) and the bytes that malloc
-- returns (uninitialised elements are the payload `uninit`). The parser that is generated from
-- quuz.leg is the list of the actions it runs.
--
-- Fuel: loops over the heap run on `brk`, which is more than the number of cells; probing runs
-- on the capacity; the evaluator runs on fuel that its caller gives. Where a theorem says that a
-- loop ends, its bound is part of the statement.
--
-- Not modelled: the part of quuz.leg that matches characters, from which a tool that is not in
-- the repository makes the parser; and city.cc, a copy of another project.
pub mod Prelude
pub mod Object
pub mod Machine
pub mod Collector
pub mod Equal
pub mod Hash
pub mod Runtime
pub mod Eval
pub mod Symbol
pub mod Reader
pub mod Writer
pub mod Library
pub mod Setup
pub mod Main
pub mod Interpreter
pub mod Tests
