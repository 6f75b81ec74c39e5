-- ===== src/Libcheck/Unkilled/Directory.antt =====
-- The counts of a source file whose tests are written for libcheck.
use mathlib.Core.Path.{subst}
use memory_mutation_testing.Base.{◌+◌, ◌≡◌, refl, sym, ◌∙◌, arith, some, List, [], ℤ}
use memory_mutation_testing.Base.Text.{Bytes, codes}
use memory_mutation_testing.Base.Double.{Double, IsExact}
use memory_mutation_testing.Gstats.Table.{Table}
use memory_mutation_testing.Controller.Mutants.{State}
use memory_mutation_testing.Controller.Inject.{DirEntry, initial_state, inject_mutations}
use memory_mutation_testing.Controller.Inject.Outcome.{
  mutants_in, backup, inject_mutations-eq-evaluate_mutants, inject_mutations-IsTallied,
}
use memory_mutation_testing.Libcheck.Unkilled.{zero-IsSettled, IsSettled}
use memory_mutation_testing.Libcheck.Unkilled.Sequence.{
  AllRecorded, Unkilled, evaluate_mutants-Unkilled,
}

module _ (F : Double) (T : Table) (put_errors : ℤ) (src_dir original : Bytes) where
  unkilled :
      (entries : List DirEntry) (s s' : State F T)
      → s.temp ≡ codes "0"
      → AllRecorded (codes "0") (mutants_in src_dir original entries)
      → inject_mutations F T put_errors src_dir original entries s ≡ some s'
      → Unkilled F T s'.temp s'
  unfolding initial_state
  unkilled entries s s' z r e =
      evaluate_mutants-Unkilled F T put_errors (backup F T put_errors src_dir original)
        (mutants_in src_dir original entries) (initial_state F T s) s'
        (subst (λ t. AllRecorded t (mutants_in src_dir original entries)) (sym z) r)
        (subst IsSettled (sym z) zero-IsSettled) (record { kills = refl; kept = refl; held = refl })
        (sym (inject_mutations-eq-evaluate_mutants F T put_errors src_dir original entries s) ∙ e)

  -- When temp_results.log holds "0" before the first mutant, only suites that report through libcheck
  -- write it while the mutants are tested, and the evaluation of the directory does not fault, then no
  -- mutant counts as killed by the tests, whichever tests failed: with exact arithmetic, each mutant
  -- either failed to build or survived, and none is kept as not trivial.
  pub inject_mutations-Unkilled :
      IsExact F
      → (entries : List DirEntry) (s s' : State F T) → s.temp ≡ codes "0"
      → AllRecorded (codes "0") (mutants_in src_dir original entries)
      → inject_mutations F T put_errors src_dir original entries s ≡ some s'
      → (s'.result.mutant_kill_count ≡ s'.result.failed_injection)
        × (s'.result.total_mutants ≡ s'.result.failed_injection + s'.result.survived_count)
        × (s'.result.non_trivial_foms ≡ [])
  inject_mutations-Unkilled exact entries s s' z r e =
      let u = unkilled entries s s' z r e in
      let h = inject_mutations-IsTallied F T put_errors src_dir original exact entries s s' e in
      (u.kills, omega (arith, h.total, u.kills), u.kept)
