-- ===== src/Library.antt =====
-- quuz-lib.c: the library functions, by section of the language report.
pub mod Syntax
pub mod Binding
pub mod Numbers
pub mod Lists
pub mod Arrays
pub mod Control
pub mod Chars
pub mod Strings
pub mod Vectors
pub mod Quasi
pub mod Records
pub mod Predicates
pub mod Files
pub mod Ports
pub mod Input
pub mod Output
pub mod System
pub mod Table
