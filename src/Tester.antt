-- ===== src/Tester.antt =====
-- src/tester_main.cpp: the driver, which selects rows, skips what cannot be compared, runs the rest
-- and counts the outcomes.
pub mod Operands
pub mod Options
pub mod Unsupported
pub mod Skip
pub mod Json
pub mod Summary
pub mod Output
pub mod Run
pub mod Prepare
pub mod SelfTests
pub mod Main
