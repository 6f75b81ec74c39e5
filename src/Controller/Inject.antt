-- ===== src/Controller/Inject.antt =====
-- controller.c, lines 726 to 815: `inject_mutations`, which evaluates every mutant that the mutation
-- operators have left in the directory of a source file. The length of the paths, the copies of the
-- files and the allocation of the result are left out.
pub mod Outcome
pub mod Named
pub mod Detection
use memory_mutation_testing.Base.{
  ℕ, Bool, true, false, not, ◌&&◌, Option, none, some, List, [], ◌∷◌, ◌++◌, ◌==◌, ℤ, pos,
  if◌then◌else◌,
}
use memory_mutation_testing.Base.Text.{Bytes, codes, bytes_eq}
use memory_mutation_testing.Base.Double.{Double}
use memory_mutation_testing.Gstats.Table.{Table}
use memory_mutation_testing.Controller.Mutants.{FomResult, Observation, State}
use memory_mutation_testing.Controller.Evaluate.{gen_results_fom}

-- What `stat` says of a directory entry.
pub data Kind : Type 0 where
  no_stat : Kind
  directory : Kind
  other : Kind

-- A directory entry in the order of `readdir`, and what happens when it is evaluated.
pub record DirEntry : Type 0 where
  pub name : Bytes
  pub kind : Kind
  pub observation : Observation

-- `strrchr`: the text from the last `c` on, or `none` for a null pointer.
unfoldable pub from_last : ℕ → Bytes → Option Bytes
from_last c [] = none
from_last c (x ∷ s) = elim (from_last c s) [
  | some r ↦ some r
  | none ↦ if x == c then some (x ∷ s) else none
]

abbrev pub is_c_suffix : Option Bytes → Bool
is_c_suffix none = false
is_c_suffix (some dot) = bytes_eq dot (codes ".c")

-- The tests of the loop, before it evaluates an entry.
unfoldable pub is_mutant : Bytes → Kind → Bytes → Bool
unfolding from_last bytes_eq
is_mutant original no_stat name = false
is_mutant original directory name = false
is_mutant original other name =
    not (bytes_eq original name)
    && (not (bytes_eq (codes "txl_original.c") name) && is_c_suffix (from_last b'.' name))

-- "%s/%s"
abbrev pub path_in : Bytes → Bytes → Bytes
path_in dir name = dir ++ (b'/' ∷ name)

module _ (F : Double) (T : Table) where
  -- Lines 736 to 767.
  abbrev pub initial_result : FomResult F
  initial_result = record {
    original_source_file = none;
    non_trivial_foms = [];
    non_trivial_fom_count = 0;
    survived = [];
    total_mutants = 0;
    total_tests = pos 0;
    caused_cfg_deviation = 0;
    total_valgrind_errors = pos 0;
    survived_caused_cfg_deviation = 0;
    equivalent_mutants = 0;
    survived_count = 0;
    survived_sd = 0;
    survived_wd = 0;
    survived_wd_caused_valgrind_errors = 0;
    survived_wd_caused_cfg_deviation = 0;
    mutant_kill_count = 0;
    killed_sd = 0;
    killed_wd = 0;
    killed_wd_caused_valgrind_errors = 0;
    killed_wd_caused_cfg_deviation = 0;
    failed_injection = 0;
    dumb_mutants = 0;
  }

  -- With the statistics, the file temp_results.log and the log as they are before.
  unfoldable pub initial_state : State F T → State F T
  initial_state s = record s {
    result = initial_result;
    non_trivial_fom_buffer = 200;
    survived_buffer = 200;
  }

  -- The loop over the directory.
  unfoldable pub inject_entries :
      ℤ → Bytes → Bytes → Bytes → List DirEntry → State F T → Option (State F T)
  inject_entries put_errors src_dir original mv_dir [] s = some s
  inject_entries put_errors src_dir original mv_dir (e ∷ rest) s =
      elim (is_mutant original e.kind e.name) [
        | true ↦
            elim (gen_results_fom F T put_errors e.name (path_in src_dir e.name) mv_dir
              e.observation s) [
                | none ↦ none
                | some s' ↦ inject_entries put_errors src_dir original mv_dir rest s'
              ]
        | false ↦ inject_entries put_errors src_dir original mv_dir rest s
      ]

  -- `put_errors` is `PUTValgrindErrors`, and `original` is `original_file_Name`.
  unfoldable pub inject_mutations :
      ℤ → Bytes → Bytes → List DirEntry → State F T → Option (State F T)
  unfolding inject_entries initial_state
  inject_mutations put_errors src_dir original entries s =
      inject_entries put_errors src_dir original (path_in src_dir original ++ codes ".original")
        entries (initial_state s)
