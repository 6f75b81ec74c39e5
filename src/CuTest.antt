-- ===== src/CuTest.antt =====
-- CuTest/CuTest.forked.c: the unit test library that the engine puts into the program under test,
-- and whose `CuSuiteRun` reports to the engine through two files.
pub mod Text
pub mod Assertion
pub mod Suite
pub mod Report
pub mod Summary
