-- ===== src/Controller/Evaluate/Balance/Sequence.antt =====
-- The statistics of each operator are balanced after each mutant, and after a sequence of them.
use memory_mutation_testing.Base.{◌&&◌, List, [], ◌∷◌, ℤ, pos, ◌-ℤ◌, eqb_ℤ, Bool-cases, inl, inr}
use memory_mutation_testing.Base.Text.{Bytes}
use memory_mutation_testing.Base.Double.{Double, IsExact}
use memory_mutation_testing.Cfg.{calculate_cfg_branch_deviation}
use memory_mutation_testing.Cfg.Deviation.{deviation_positive}
use memory_mutation_testing.Gstats.Table.{Table}
use memory_mutation_testing.Controller.Process.{run_make}
use memory_mutation_testing.Controller.Results.{is_readable, get_non_trivial_fom_stats}
use memory_mutation_testing.Controller.Mutants.{Observation, State, runtime_error}
use memory_mutation_testing.Controller.Fom.{note, mutation_code_of}
use memory_mutation_testing.Controller.Fom.Accounts.{due}
use memory_mutation_testing.Controller.Evaluate.After.{After, After-checked, After-map, After-bind}
use memory_mutation_testing.Controller.Evaluate.Balance.{
  Owes, killed_by_tests-After, survived_tests-After, record_deviation-Owes, failed_injection-Owes,
  begin_mutant-Owes,
}
use memory_mutation_testing.Controller.Evaluate.{
  record_deviation, begin_mutant, built_mutant, gen_results_fom, evaluate_mutants,
}

module _ (F : Double) (T : Table) (exact : IsExact F) (c : Bytes) (put_errors : ℤ) where
  built_mutant-After :
      (code file : Bytes) (prev : ℤ) (ob : Observation) (s : State F T)
      → Owes F T c (due T code c) s
      → After (Owes F T c (pos 0)) (built_mutant F T put_errors code file prev ob s)
  unfolding built_mutant
  built_mutant-After code file prev ob s h =
      let dev = calculate_cfg_branch_deviation F ob.put_branches ob.mutant_branches in
      let s' = record_deviation F T code dev s in
      let stats = get_non_trivial_fom_stats s'.temp in
      let h' = record_deviation-Owes F T c code dev s (due T code c) h in
      After-checked (Owes F T c (pos 0)) (is_readable s.temp) _
        (elim (Bool-cases (eqb_ℤ (stats.kills -ℤ prev) (pos 1))) [
          | inl k ↦
              rw k (killed_by_tests-After F T c put_errors code file stats dev ob.valgrind s' h')
          | inr n ↦ rw n (
              survived_tests-After F T c put_errors code file dev ob.valgrind s'
                (deviation_positive F exact ob.put_branches ob.mutant_branches) h')
        ])

  gen_results_fom-After :
      (str file mv_dir : Bytes) (ob : Observation) (s : State F T)
      → Owes F T c (pos 0) s
      → After (Owes F T c (pos 0)) (gen_results_fom F T put_errors str file mv_dir ob s)
  unfolding gen_results_fom
  gen_results_fom-After str file mv_dir ob s h =
      let code = mutation_code_of str in
      let begun = begin_mutant F T code str ob s in
      let h' = begin_mutant-Owes F T c code str ob s h in
      After-checked (Owes F T c (pos 0)) (is_readable s.temp && ob.stats_kept) _ (
        After-map (Owes F T c (pos 0)) (Owes F T c (pos 0)) _ _ (λ s' balanced. balanced)
          (elim (Bool-cases (eqb_ℤ (run_make ob.unset ob.make) (pos 2))) [
            | inl stopped ↦
                rw stopped (failed_injection-Owes F T c code (note F T runtime_error begun) h')
            | inr built ↦
                rw built (
                  built_mutant-After code file (get_non_trivial_fom_stats s.temp).kills ob begun h')
          ]))

  pub evaluate_mutants-After :
      (mv_dir : Bytes) (mutants : List (Bytes × Bytes × Observation)) (s : State F T)
      → Owes F T c (pos 0) s
      → After (Owes F T c (pos 0)) (evaluate_mutants F T put_errors mv_dir mutants s)
  unfolding evaluate_mutants
  evaluate_mutants-After mv_dir [] s h = h
  evaluate_mutants-After mv_dir ((str, file, ob) ∷ rest) s h =
      After-bind (Owes F T c (pos 0)) (Owes F T c (pos 0))
        (gen_results_fom F T put_errors str file mv_dir ob s)
        (evaluate_mutants F T put_errors mv_dir rest)
        (λ s' h'. evaluate_mutants-After mv_dir rest s' h')
        (gen_results_fom-After str file mv_dir ob s h)
