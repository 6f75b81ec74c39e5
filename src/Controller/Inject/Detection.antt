-- ===== src/Controller/Inject/Detection.antt =====
-- What the counts of a source file say of its tests.
use memory_mutation_testing.Base.{◌≤◌, ◌≡◌, ◌∙◌, arith, some, List, length, ℤ, pos, ◌≤ℤ◌}
use memory_mutation_testing.Base.Text.{Bytes}
use memory_mutation_testing.Base.Double.{Double}
use memory_mutation_testing.Gstats.Table.{Table}
use memory_mutation_testing.Controller.Mutants.{State}
use memory_mutation_testing.Controller.Evaluate.Capacity.{CanRead, kills_in}
use memory_mutation_testing.Controller.Evaluate.Detection.Sequence.{
  AllTested, killed_among, survivors_among, evaluate_mutants_counts,
}
use memory_mutation_testing.Controller.Inject.{DirEntry, initial_state, inject_mutations}
use memory_mutation_testing.Controller.Inject.Outcome.{
  mutants_in, backup, initial_state-IsRoomy, inject_mutations-eq-evaluate_mutants,
}

-- With at most 200 mutants in the directory, a number of kills in temp_results.log that is not
-- negative, and numbers of failed tests in it that can be read and copied within their arrays, when
-- gstats.c does not exit and each mutant either does not build or is tested by one run of a suite,
-- which finds in the file what the mutant before it left there, the evaluation of the directory
-- succeeds, and counts as killed exactly the mutants that do not build or have a test that fails,
-- and as survived exactly those that pass all tests.
pub inject_mutations_counts :
    (F : Double) (T : Table) (put_errors : ℤ) (src_dir original : Bytes) (entries : List DirEntry)
    (s : State F T) (tests : AllTested s.temp (mutants_in src_dir original entries))
    → length (mutants_in src_dir original entries) ≤ 200
    → pos 0 ≤ℤ kills_in s.temp
    → CanRead s.temp
    → (s' : State F T) × ((inject_mutations F T put_errors src_dir original entries s ≡ some s')
        × ((s'.result.mutant_kill_count
              ≡ killed_among s.temp (mutants_in src_dir original entries) tests)
            × (s'.result.survived_count
                ≡ survivors_among s.temp (mutants_in src_dir original entries) tests)))
unfolding initial_state
inject_mutations_counts F T put_errors src_dir original entries s tests few known read =
    let mutants = mutants_in src_dir original entries in
    let (s', (done, (kills, survivors))) =
      evaluate_mutants_counts F T put_errors (backup F T put_errors src_dir original) mutants
        (initial_state F T s) tests
        (initial_state-IsRoomy F T put_errors src_dir original s (length mutants) few known) read in
    (
      s',
      (
        inject_mutations-eq-evaluate_mutants F T put_errors src_dir original entries s ∙ done,
        (kills ∙ omega arith, survivors ∙ omega arith),
      ),
    )
