-- ===== src/Tests.antt =====
-- Tests at concrete inputs, and the witnesses of the theorems.
mod Memory
mod Words
mod Runs
mod States
mod Backends
mod Drivers
mod SelfTests
