-- ===== src/Controller/Evaluate/Tally.antt =====
-- Every mutant that is evaluated is counted once.
use memory_mutation_testing.Base.{
  ◌&&◌, ℕ, ◌≡◌, some, List, [], ◌∷◌, arith, ℤ, Bool-cases, inl, inr, pos, eqb_ℤ, suc, ◌-ℤ◌,
}
use memory_mutation_testing.Base.Text.{Bytes}
use memory_mutation_testing.Base.Double.{Double, IsExact}
use memory_mutation_testing.Cfg.{calculate_cfg_branch_deviation}
use memory_mutation_testing.Cfg.Deviation.{deviation_positive}
use memory_mutation_testing.Gstats.Table.{Table}
use memory_mutation_testing.Controller.Results.{is_readable, get_non_trivial_fom_stats}
use memory_mutation_testing.Controller.Mutants.{Observation, State, runtime_error}
use memory_mutation_testing.Controller.Fom.{mutation_code_of, note}
use memory_mutation_testing.Controller.Fom.Counters.{IsTallied}
use memory_mutation_testing.Controller.Evaluate.Steps.{
  Leaves, Leaves-checked, Leaves-map, Leaves-bind, killed_by_tests-Leaves, survived_tests-Leaves,
  record_deviation-IsTallied, failed_injection-IsTallied, begin_mutant-IsTallied,
}
use memory_mutation_testing.Controller.Process.{run_make}
use memory_mutation_testing.Controller.Evaluate.{
  record_deviation, begin_mutant, built_mutant, gen_results_fom, evaluate_mutants,
}

module _ (F : Double) (T : Table) (exact : IsExact F) (put_errors : ℤ) where
  built_mutant-Leaves :
      (code file : Bytes) (prev : ℤ) (ob : Observation) (s : State F T) {o : ℕ}
      → IsTallied F (suc o) 0 s.result
      → Leaves F T o 0 (built_mutant F T put_errors code file prev ob s)
  unfolding built_mutant
  built_mutant-Leaves code file prev ob s h =
      let dev = calculate_cfg_branch_deviation F ob.put_branches ob.mutant_branches in
      let s' = record_deviation F T code dev s in
      let stats = get_non_trivial_fom_stats s'.temp in
      let h' = record_deviation-IsTallied F T code dev s h in
      Leaves-checked F T _ 0 (is_readable s.temp) _
        (elim (Bool-cases (eqb_ℤ (stats.kills -ℤ prev) (pos 1))) [
          | inl k ↦
              rw k (killed_by_tests-Leaves F T put_errors code file stats dev ob.valgrind s' h')
          | inr n ↦ rw n (
              survived_tests-Leaves F T put_errors code file dev ob.valgrind s'
                (deviation_positive F exact ob.put_branches ob.mutant_branches) h')
        ])

  gen_results_fom-Leaves :
      (str file mv_dir : Bytes) (ob : Observation) (s : State F T)
      → IsTallied F 0 0 s.result
      → Leaves F T 0 0 (gen_results_fom F T put_errors str file mv_dir ob s)
  unfolding gen_results_fom
  gen_results_fom-Leaves str file mv_dir ob s h =
      let code = mutation_code_of str in
      let begun = begin_mutant F T code str ob s in
      let h' = begin_mutant-IsTallied F T code str ob s h in
      Leaves-checked F T 0 0 (is_readable s.temp && ob.stats_kept) _ (
        Leaves-map F T _ _ {o = 0} {a = 0} (λ s' tallied. ground arith)
          (elim (Bool-cases (eqb_ℤ (run_make ob.unset ob.make) (pos 2))) [
            | inl stopped ↦
                rw stopped (
                  failed_injection-IsTallied F T code (note F T runtime_error begun) (ground arith))
            | inr built ↦
                rw built (
                  built_mutant-Leaves code file (get_non_trivial_fom_stats s.temp).kills ob begun
                    h')
          ]))

  evaluate_mutants-Leaves :
      (mv_dir : Bytes) (mutants : List (Bytes × Bytes × Observation)) (s : State F T)
      → IsTallied F 0 0 s.result
      → Leaves F T 0 0 (evaluate_mutants F T put_errors mv_dir mutants s)
  unfolding evaluate_mutants
  evaluate_mutants-Leaves mv_dir [] s h = h
  evaluate_mutants-Leaves mv_dir ((str, file, ob) ∷ rest) s h =
      Leaves-bind F T (gen_results_fom F T put_errors str file mv_dir ob s)
        (evaluate_mutants F T put_errors mv_dir rest)
        (λ s' h'. evaluate_mutants-Leaves mv_dir rest s' h')
        (gen_results_fom-Leaves str file mv_dir ob s h)

  -- After any sequence of mutants that is evaluated without a fault, each of them has been counted
  -- either as killed or as survived; each survivor is equivalent, strongly damaging or weakly
  -- damaging, and not two of these; weak damage is split into Valgrind errors and deviations of the
  -- control flow; and the two arrays hold as many mutants as their counts say.
  pub evaluate_mutants-IsTallied :
      (mv_dir : Bytes) (mutants : List (Bytes × Bytes × Observation)) (s s' : State F T)
      → IsTallied F 0 0 s.result
      → evaluate_mutants F T put_errors mv_dir mutants s ≡ some s'
      → IsTallied F 0 0 s'.result
  evaluate_mutants-IsTallied mv_dir mutants s s' h e =
      rw e at (evaluate_mutants-Leaves mv_dir mutants s h)
