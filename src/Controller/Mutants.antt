-- ===== src/Controller/Mutants.antt =====
-- controller.c, lines 40 to 102: the data that the engine keeps of the mutants of a source file, and
-- what it observes of one of them.
use memory_mutation_testing.Base.{ℕ, Bool, Option, List, ℤ}
use memory_mutation_testing.Base.Text.{Bytes}
use memory_mutation_testing.Base.Double.{Double}
use memory_mutation_testing.Gstats.Table.{Table}
use memory_mutation_testing.Valgrind.{ValgrindResult}
use memory_mutation_testing.Controller.Process.{Wait}

module _ (F : Double) where
  -- `none` in `fragility` and `killed_by_tests` is a field that the code leaves unset; `none` in the
  -- list is a number that was copied from where nothing had been stored.
  pub record Mutant : Type 0 where
    pub mutation_code : Bytes
    pub mutant_source_file : Bytes
    pub fragility : Option F.D
    pub killed_by_tests : Option (List (Option ℤ))
    pub killed_by_tests_count : Option ℤ
    pub valgrind_result : Option ValgrindResult
    pub cfg_deviation : F.D
    pub damage : F.D

  -- The arrays `non_trivial_FOMS` and `survived` up to their counts. The counters are only counted
  -- up, from 0, once for a mutant: they are taken to stay below 2^31.
  pub record FomResult : Type 0 where
    pub original_source_file : Option Bytes
    pub non_trivial_foms : List Mutant
    pub non_trivial_fom_count : ℕ
    pub survived : List Mutant
    pub total_mutants : ℕ
    pub total_tests : ℤ
    pub caused_cfg_deviation : ℕ
    pub total_valgrind_errors : ℤ
    pub survived_caused_cfg_deviation : ℕ
    pub equivalent_mutants : ℕ
    pub survived_count : ℕ
    pub survived_sd : ℕ
    pub survived_wd : ℕ
    pub survived_wd_caused_valgrind_errors : ℕ
    pub survived_wd_caused_cfg_deviation : ℕ
    pub mutant_kill_count : ℕ
    pub killed_sd : ℕ
    pub killed_wd : ℕ
    pub killed_wd_caused_valgrind_errors : ℕ
    pub killed_wd_caused_cfg_deviation : ℕ
    pub failed_injection : ℕ
    pub dumb_mutants : ℕ

  -- An entry of mutation_results.log.
  pub data Entry : Type 0 where
    mutant : Bytes → Entry
    runtime_error : Entry
    cfg_deviation_entry : F.D → Entry
    valgrind_errors : ℤ → Entry

-- What happens outside of the engine while a mutant is evaluated.
pub record Observation : Type 0 where
  -- The polls of make, and what `startMake` finds in `status` when `waitpid` fails.
  pub make : ℕ → Wait
  pub unset : ℤ
  -- temp_results.log after make.
  pub temp_after : Bytes
  -- The lines of the two gcov files.
  pub put_branches : Option (List Bytes)
  pub mutant_branches : Option (List Bytes)
  -- The result of `genValgrindResult`.
  pub valgrind : Option ValgrindResult
  -- Whether the statistics can be opened, looked up and saved: gstats.c exits where they cannot.
  pub stats_kept : Bool

module _ (F : Double) (T : Table) where
  -- `*non_trivial_FOM_buffer` and `*survived_buffer` are the allocated lengths of the two arrays.
  pub record State : Type 0 where
    pub result : FomResult F
    pub non_trivial_fom_buffer : ℕ
    pub survived_buffer : ℕ
    pub stats : T.Doc
    pub temp : Bytes
    pub log : List (Entry F)
