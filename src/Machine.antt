-- ===== src/Machine.antt =====
-- What the C code runs on: cells on a heap, the state `qz_state_t`, and runs that can end in an
-- error (`longjmp`), in a fault, or without an end.
--
-- A fault is a failed `assert` (the default build of build.sh keeps them), an access to memory that
-- is not there (freed, never allocated, out of an array, or a cell read as another type), or a
-- `longjmp` with no `qz_peval` around it. A loop or recursion of the source that need not end takes
-- fuel, and `out_of_fuel` says that it was not enough.
pub mod Builds
pub mod Outcome
pub mod Store
pub mod Cell
pub mod Chain
pub mod Keeps
pub mod Array
pub mod Pairs
pub mod Room
