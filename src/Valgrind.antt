-- ===== src/Valgrind.antt =====
-- valgrindEval.h: what the engine keeps of a Valgrind report.
pub mod Report
use memory_mutation_testing.Base.{Option, List, ℤ}
use memory_mutation_testing.Base.Text.{Bytes}

-- One reported error; `none` is a null pointer, or in a sibling a `what` that is never set.
pub record ErrorInfo : Type 0 where
  pub occurrences : ℤ
  pub kind : Option Bytes
  pub what : Option Bytes
  pub auxwhat : Option Bytes
  pub location : Option Bytes

-- The first error with its number, and the other errors that have the same number.
pub record ValgrindError : Type 0 where
  pub first : ErrorInfo
  pub siblings : List ErrorInfo

pub record ValgrindResult : Type 0 where
  pub valgrind_errors : List ValgrindError
  pub valgrind_error_count : ℤ
  pub unique_valgrind_error_count : ℤ
