-- ===== src/Comparator.antt =====
-- src/comparator.hpp and src/comparator.cpp: an execution against the expectation of its row.
pub mod Masks
pub mod Compare
pub mod Report
pub mod Conforms
