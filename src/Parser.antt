-- ===== src/Parser.antt =====
-- src/x86tester_parser.hpp and src/x86tester_parser.cpp: the parser of the pooled corpus format.
pub mod Strings
pub mod Header
pub mod Row
pub mod File
pub mod Splitting
pub mod Trimming
pub mod Indices
pub mod Numbering
pub mod Agreement
pub mod Hex
