-- ===== src/Controller/Evaluate/Verdict.antt =====
-- How the two counts of killed and survived mutants move over the evaluation of a mutant that was
-- built: by whether temp_results.log counts one more kill than before.
use mathlib.Core.Option as Option
use memory_mutation_testing.Base.{
  checked, ◌&&◌, ℕ, ◌+◌, ◌≡◌, refl, ap, ◌∙◌, Bool, true, false, Option, none, some, arith, ltb,
  if◌then◌else◌, Bool-cases, inl, inr, ℤ, pos, ◌-ℤ◌, eqb_ℤ,
}
use memory_mutation_testing.Base.Text.{Bytes}
use memory_mutation_testing.Base.Double.{Double, is_positive, is_zero}
use memory_mutation_testing.Cfg.{calculate_cfg_branch_deviation}
use memory_mutation_testing.Gstats.Table.{Table}
use memory_mutation_testing.Valgrind.{ValgrindResult}
use memory_mutation_testing.Controller.Process.{run_make}
use memory_mutation_testing.Controller.Results.{
  is_readable, copies_within, Stats, get_non_trivial_fom_stats,
}
use memory_mutation_testing.Controller.Mutants.{Mutant, Observation, State}
use memory_mutation_testing.Controller.Fom.{
  add_to, bump, on_result, classify_killed, classify_survived, count_errors, is_non_trivial,
  is_dumb, mutation_code_of,
}
use memory_mutation_testing.Controller.Evaluate.{
  grow_non_trivial, store_killed, killed_by_tests, grow_survived, store_survived, survived_tests,
  record_deviation, begin_mutant, built_mutant, gen_results_fom,
}

module _ (F : Double) (T : Table) where
  -- How many mutants are counted as killed, and how many as survived.
  abbrev pub verdict_counts : State F T → ℕ × ℕ
  verdict_counts s = (s.result.mutant_kill_count, s.result.survived_count)

  abbrev pub Ends : ℕ × ℕ → Option (State F T) → Type 0
  Ends c none = Unit {0}
  Ends c (some s) = verdict_counts s ≡ c

  pub Ends-checked :
      (c : ℕ × ℕ) (b : Bool) (m : Option (State F T)) → Ends c m → Ends c (checked b m)
  Ends-checked c true m h = h
  Ends-checked c false m h = tt

  module _ (code : Bytes) where
    classify_killed-verdict_counts :
        (memory cfg : Bool) (s : State F T)
        → verdict_counts (classify_killed F T code memory cfg s) ≡ verdict_counts s
    unfolding classify_killed bump
    classify_killed-verdict_counts true true s = refl
    classify_killed-verdict_counts true false s = refl
    classify_killed-verdict_counts false true s = refl
    classify_killed-verdict_counts false false s = refl

    classify_survived-verdict_counts :
        (same memory cfg : Bool) (s : State F T)
        → verdict_counts (classify_survived F T code same memory cfg s) ≡ verdict_counts s
    unfolding classify_survived bump
    classify_survived-verdict_counts true memory cfg s = refl
    classify_survived-verdict_counts false true true s = refl
    classify_survived-verdict_counts false true false s = refl
    classify_survived-verdict_counts false false true s = refl
    classify_survived-verdict_counts false false false s = refl

    count_errors-verdict_counts :
        (v : Option ValgrindResult) (s : State F T)
        → verdict_counts (count_errors F T code v s) ≡ verdict_counts s
    unfolding count_errors add_to
    count_errors-verdict_counts none s = refl
    count_errors-verdict_counts (some v) s = refl

    record_deviation-verdict_counts :
        (dev : F.D) (s : State F T)
        → (verdict_counts (record_deviation F T code dev s) ≡ verdict_counts s)
          × ((record_deviation F T code dev s).temp ≡ s.temp)
    unfolding record_deviation
    record_deviation-verdict_counts dev s = elim (Bool-cases (is_positive F dev)) [
      | inl p ↦ rw p (refl, refl)
      | inr n ↦ rw n (refl, refl)
    ]

  grow_non_trivial-verdict_counts :
      (stats : Stats) (s : State F T)
      → verdict_counts (grow_non_trivial F T stats s) ≡ verdict_counts s
  unfolding grow_non_trivial
  grow_non_trivial-verdict_counts stats s = ground arith

  grow_survived-verdict_counts :
      (s : State F T) → verdict_counts (grow_survived F T s) ≡ verdict_counts s
  unfolding grow_survived
  grow_survived-verdict_counts s = ground arith

  moved-verdict_counts :
      (zero_dev : Bool) (s : State F T)
      → verdict_counts (
          if zero_dev
          then s
          else (on_result F T
              (λ r. record r {
                survived_caused_cfg_deviation = r.survived_caused_cfg_deviation + 1;
              })
              s))
        ≡ verdict_counts s
  moved-verdict_counts true s = refl
  moved-verdict_counts false s = refl

  store_killed-Ends :
      (code file : Bytes) (stats : Stats) (dev : F.D) (v : Option ValgrindResult) (s : State F T)
      → Ends (verdict_counts s) (store_killed F T code file stats dev v s)
  unfolding store_killed
  store_killed-Ends code file stats dev v s = elim (Bool-cases (is_non_trivial stats)) [
    | inl nt ↦
        rw nt
          (elim (Bool-cases
            (ltb s.result.non_trivial_fom_count s.non_trivial_fom_buffer && copies_within stats)) [
              | inl room ↦ rw room refl
              | inr full ↦ rw full tt
            ])
    | inr trivial ↦ rw trivial (elim (Bool-cases (is_dumb stats)) [
      | inl dumb ↦ rw dumb refl
      | inr nothing ↦ rw nothing refl
    ])
  ]

  store_survived-Ends :
      (m : Mutant F) (s : State F T)
      → Ends (s.result.mutant_kill_count, s.result.survived_count + 1) (store_survived F T m s)
  unfolding store_survived
  store_survived-Ends m s = elim (Bool-cases (ltb s.result.survived_count s.survived_buffer)) [
    | inl room ↦ rw room refl
    | inr full ↦ rw full tt
  ]

  Ends-map :
      (f : State F T → State F T) (m : Option (State F T)) (c : ℕ × ℕ)
      → ((s : State F T) → verdict_counts (f s) ≡ verdict_counts s)
      → Ends c m
      → Ends c (Option.map f m)
  Ends-map f none c keep h = tt
  Ends-map f (some s) c keep h = keep s ∙ h

  Ends-eq : {c d : ℕ × ℕ} (m : Option (State F T)) → c ≡ d → Ends c m → Ends d m
  Ends-eq none e h = tt
  Ends-eq (some s) e h = h ∙ e

  killed_by_tests-Ends :
      (put_errors : ℤ) (code file : Bytes) (stats : Stats) (dev : F.D) (v : Option ValgrindResult)
      (s : State F T)
      → Ends
          (s.result.mutant_kill_count + 1, s.result.survived_count)
          (killed_by_tests F T put_errors code file stats dev v s)
  unfolding killed_by_tests bump
  killed_by_tests-Ends put_errors code file stats dev v s =
      Ends-map _ (store_killed F T code file stats dev _ _) _
        (λ stored. classify_killed-verdict_counts code _ _ _)
        (Ends-eq _ (count_errors-verdict_counts code _ _ ∙ grow_non_trivial-verdict_counts stats _)
          (store_killed-Ends code file stats dev _ _))

  survived_tests-Ends :
      (put_errors : ℤ) (code file : Bytes) (dev : F.D) (v : Option ValgrindResult) (s : State F T)
      → Ends
          (s.result.mutant_kill_count, s.result.survived_count + 1)
          (survived_tests F T put_errors code file dev v s)
  unfolding survived_tests
  survived_tests-Ends put_errors code file dev v s =
      Ends-eq _
        (ap (λ (c : ℕ × ℕ). (c.0, c.1 + 1))
          (count_errors-verdict_counts code v _
            ∙ classify_survived-verdict_counts code _ _ _ _
            ∙ grow_survived-verdict_counts _
            ∙ moved-verdict_counts (is_zero F dev) s))
        (store_survived-Ends _ _)

  -- The counts after a mutant that was built, from whether the file counts one more kill.
  abbrev pub counted : Bool → State F T → ℕ × ℕ
  counted true s = (s.result.mutant_kill_count + 1, s.result.survived_count)
  counted false s = (s.result.mutant_kill_count, s.result.survived_count + 1)

  branch-Ends :
      (put_errors : ℤ) (code file : Bytes) (stats : Stats) (dev : F.D) (v : Option ValgrindResult)
      (s s' : State F T) (test one_more : Bool)
      → test ≡ one_more
      → verdict_counts s' ≡ verdict_counts s
      → Ends (counted one_more s) (
          if test
          then killed_by_tests F T put_errors code file stats dev v s'
          else survived_tests F T put_errors code file dev v s')
  branch-Ends put_errors code file stats dev v s s' test true e kept = rw e (
      Ends-eq _ (ap (λ (c : ℕ × ℕ). (c.0 + 1, c.1)) kept)
        (killed_by_tests-Ends put_errors code file stats dev v s'))
  branch-Ends put_errors code file stats dev v s s' test false e kept = rw e (
      Ends-eq _ (ap (λ (c : ℕ × ℕ). (c.0, c.1 + 1)) kept)
        (survived_tests-Ends put_errors code file dev v s'))

  built_mutant-Ends :
      (put_errors : ℤ) (code file : Bytes) (prev : ℤ) (ob : Observation) (s : State F T)
      (one_more : Bool)
      → eqb_ℤ ((get_non_trivial_fom_stats s.temp).kills -ℤ prev) (pos 1) ≡ one_more
      → Ends (counted one_more s) (built_mutant F T put_errors code file prev ob s)
  unfolding built_mutant
  built_mutant-Ends put_errors code file prev ob s one_more e =
      let dev = calculate_cfg_branch_deviation F ob.put_branches ob.mutant_branches in
      let s' = record_deviation F T code dev s in
      let kept = record_deviation-verdict_counts code dev s in
      Ends-checked (counted one_more s) (is_readable s.temp) _ (
        branch-Ends put_errors code file _ dev ob.valgrind s s' _ one_more
          (ap (λ t. eqb_ℤ ((get_non_trivial_fom_stats t).kills -ℤ prev) (pos 1)) kept.1 ∙ e) kept.0)

  counted_eq :
      (one_more : Bool) (s s' : State F T)
      → verdict_counts s ≡ verdict_counts s'
      → counted one_more s ≡ counted one_more s'
  counted_eq true s s' e = ap (λ (c : ℕ × ℕ). (c.0 + 1, c.1)) e
  counted_eq false s s' e = ap (λ (c : ℕ × ℕ). (c.0, c.1 + 1)) e

  begin_mutant-verdict_counts :
      (code str : Bytes) (ob : Observation) (s : State F T)
      → (verdict_counts (begin_mutant F T code str ob s) ≡ verdict_counts s)
        × ((begin_mutant F T code str ob s).temp ≡ ob.temp_after)
  unfolding begin_mutant bump
  begin_mutant-verdict_counts code str ob s = (refl, refl)

  pub gen_results_fom-Ends :
      (put_errors : ℤ) (str file mv_dir : Bytes) (ob : Observation) (s : State F T)
      (one_more : Bool)
      → run_make ob.unset ob.make ≡ pos 0
      → eqb_ℤ
          ((get_non_trivial_fom_stats ob.temp_after).kills
            -ℤ (get_non_trivial_fom_stats s.temp).kills)
          (pos 1)
        ≡ one_more
      → Ends (counted one_more s) (gen_results_fom F T put_errors str file mv_dir ob s)
  unfolding gen_results_fom
  gen_results_fom-Ends put_errors str file mv_dir ob s one_more made e =
      let code = mutation_code_of str in
      let begun = begin_mutant F T code str ob s in
      let kept = begin_mutant-verdict_counts code str ob s in
      Ends-checked (counted one_more s) (is_readable s.temp && ob.stats_kept) _ (
        rw made (
          Ends-map _ (built_mutant F T put_errors code file _ ob begun) _ (λ s'. refl)
            (Ends-eq _ (counted_eq one_more begun s kept.0) (
              built_mutant-Ends put_errors code file _ ob begun one_more (
                ap
                  (λ t.
                    eqb_ℤ
                      ((get_non_trivial_fom_stats t).kills
                        -ℤ (get_non_trivial_fom_stats s.temp).kills)
                      (pos 1))
                  kept.1
                ∙ e)))))
