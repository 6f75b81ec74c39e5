-- ===== src/Libcheck/Unkilled/Sequence.antt =====
-- Tests that are written for libcheck never kill a mutant, as the engine counts.
use memory_mutation_testing.Controller.Results.{is_readable}
use mathlib.Core.Path.{subst}
use mathlib.Core.Option.{some-injective}
use memory_mutation_testing.Base.{
  ◌&&◌, ◌+◌, ◌≡◌, refl, sym, ap, ◌∙◌, Bool, true, false, some, none, Option, List, [], ◌∷◌, ℤ, pos,
  ◌-ℤ◌, eqb_ℤ, ltb, Bool-cases, Option-cases, inl, inr, if◌then◌else◌,
}
use memory_mutation_testing.Base.Text.{Bytes}
use memory_mutation_testing.Base.Double.{Double, is_positive, is_zero}
use memory_mutation_testing.Cfg.{calculate_cfg_branch_deviation}
use memory_mutation_testing.Gstats.Table.{Table}
use memory_mutation_testing.Valgrind.{ValgrindResult}
use memory_mutation_testing.CuTest.Report.{Reports}
use memory_mutation_testing.Controller.Process.{run_make}
use memory_mutation_testing.Controller.Mutants.{Mutant, Observation, State, runtime_error}
use memory_mutation_testing.Controller.Fom.{
  add_to, bump, note, classify_survived, count_errors, mutation_code_of,
}
use memory_mutation_testing.Controller.Evaluate.After.{After, After-checked, After-map}
use memory_mutation_testing.Controller.Evaluate.Capacity.{kills_in}
use memory_mutation_testing.Controller.Evaluate.{
  grow_survived, store_survived, survived_tests, record_deviation, failed_injection, begin_mutant,
  built_mutant, gen_results_fom, evaluate_mutants,
}
use memory_mutation_testing.Libcheck.Unkilled.{Runs, IsSettled, Runs-IsSettled, never_one_more}

-- Between two contents of the file only libcheck has written it.
pub record IsRecorded (t t' : Bytes) : Type 0 where
  pub files : Reports
  pub files' : Reports
  pub before : files.temp ≡ t
  pub after : files'.temp ≡ t'
  pub runs : Runs files files'

-- The tests of each mutant report through libcheck.
abbrev pub AllRecorded : Bytes → List (Bytes × Bytes × Observation) → Type 0
AllRecorded t [] = Unit {0}
AllRecorded t ((str, file, ob) ∷ rest) = IsRecorded t ob.temp_after × AllRecorded ob.temp_after rest

recorded-IsSettled : (t t' : Bytes) → IsRecorded t t' → IsSettled t → IsSettled t'
recorded-IsSettled t t' r h =
    subst IsSettled r.after (Runs-IsSettled r.runs (subst IsSettled (sym r.before) h))

module _ (F : Double) (T : Table) where
  -- All kills are failed injections, no mutant is kept as not trivial, and the file holds `t`.
  pub record Unkilled (t : Bytes) (s : State F T) : Type 0 where
    pub kills : s.result.mutant_kill_count ≡ s.result.failed_injection
    pub kept : s.result.non_trivial_foms ≡ []
    pub held : s.temp ≡ t

  module _ {t : Bytes} where
    -- A step that leaves all of them.
    same :
        (s s' : State F T)
        → s'.result.mutant_kill_count ≡ s.result.mutant_kill_count
        → s'.result.failed_injection ≡ s.result.failed_injection
        → s'.result.non_trivial_foms ≡ s.result.non_trivial_foms
        → s'.temp ≡ s.temp
        → Unkilled t s
        → Unkilled t s'
    same s s' k i n u h = record {
      kills = k ∙ (h.kills ∙ sym i);
      kept = n ∙ h.kept;
      held = u ∙ h.held;
    }

    either :
        (b : Bool) (x y : State F T) → Unkilled t x → Unkilled t y → Unkilled t (if b then x else y)
    either true x y h h' = h
    either false x y h h' = h'

    classify_survived-Unkilled :
        (code : Bytes) (equivalent memory cfg : Bool) (s : State F T)
        → Unkilled t s
        → Unkilled t (classify_survived F T code equivalent memory cfg s)
    unfolding classify_survived bump add_to
    classify_survived-Unkilled code true memory cfg s h = same s _ refl refl refl refl h
    classify_survived-Unkilled code false true true s h = same s _ refl refl refl refl h
    classify_survived-Unkilled code false true false s h = same s _ refl refl refl refl h
    classify_survived-Unkilled code false false true s h = same s _ refl refl refl refl h
    classify_survived-Unkilled code false false false s h = h

    count_errors-Unkilled :
        (code : Bytes) (v : Option ValgrindResult) (s : State F T)
        → Unkilled t s
        → Unkilled t (count_errors F T code v s)
    unfolding count_errors add_to
    count_errors-Unkilled code none s h = h
    count_errors-Unkilled code (some v) s h = same s _ refl refl refl refl h

    store_survived-After :
        (m : Mutant F) (s : State F T) → Unkilled t s → After (Unkilled t) (store_survived F T m s)
    unfolding store_survived
    store_survived-After m s h = elim (Bool-cases (ltb s.result.survived_count s.survived_buffer)) [
      | inl room ↦ rw room (same s _ refl refl refl refl h)
      | inr full ↦ rw full tt
    ]

    grow_survived-Unkilled : (s : State F T) → Unkilled t s → Unkilled t (grow_survived F T s)
    unfolding grow_survived
    grow_survived-Unkilled s h = elim (Bool-cases (ltb s.survived_buffer s.result.survived_count)) [
      | inl full ↦ rw (full, grow_survived) (same s _ refl refl refl refl h)
      | inr room ↦ rw (room, grow_survived) h
    ]

    survived_tests-After :
        (put_errors : ℤ) (code file : Bytes) (dev : F.D) (v : Option ValgrindResult) (s : State F T)
        → Unkilled t s
        → After (Unkilled t) (survived_tests F T put_errors code file dev v s)
    unfolding survived_tests
    survived_tests-After put_errors code file dev v s h = store_survived-After _ _ (
        count_errors-Unkilled code v _ (
          classify_survived-Unkilled code _ _ _ _ (
            grow_survived-Unkilled _
              (either (is_zero F dev) s _ h (same s _ refl refl refl refl h)))))

    record_deviation-Unkilled :
        (code : Bytes) (dev : F.D) (s : State F T)
        → Unkilled t s
        → Unkilled t (record_deviation F T code dev s)
    unfolding record_deviation
    record_deviation-Unkilled code dev s h =
        same _ _ refl refl refl refl
          (either (is_positive F dev) _ s (same s _ refl refl refl refl h) h)

    -- The number of kills is not one more than before.
    built_mutant-After :
        (put_errors : ℤ) (code file : Bytes) (prev : ℤ) (ob : Observation) (s : State F T)
        → eqb_ℤ (kills_in t -ℤ prev) (pos 1) ≡ false
        → Unkilled t s
        → After (Unkilled t) (built_mutant F T put_errors code file prev ob s)
    unfolding built_mutant
    built_mutant-After put_errors code file prev ob s e h =
        let dev = calculate_cfg_branch_deviation F ob.put_branches ob.mutant_branches in
        let h' = record_deviation-Unkilled code dev s h in
        After-checked (Unkilled t) (is_readable s.temp) _ (
          rw (ap kills_in h'.held, e)
            (survived_tests-After put_errors code file dev ob.valgrind _ h'))

  begin_mutant-Unkilled :
      (code str : Bytes) (ob : Observation) (s : State F T) {t : Bytes}
      → Unkilled t s
      → Unkilled ob.temp_after (begin_mutant F T code str ob s)
  unfolding begin_mutant bump add_to
  begin_mutant-Unkilled code str ob s h = record { kills = h.kills; kept = h.kept; held = refl }

  failed_injection-Unkilled :
      (code : Bytes) (s : State F T) {t : Bytes}
      → Unkilled t s
      → Unkilled t (failed_injection F T code (note F T runtime_error s))
  unfolding failed_injection bump add_to
  failed_injection-Unkilled code s h = record {
    kills = ap (λ k. k + 1) h.kills;
    kept = h.kept;
    held = h.held;
  }

  module _ (put_errors : ℤ) where
    gen_results_fom-After :
        (str file mv_dir : Bytes) (ob : Observation) (s : State F T)
        → eqb_ℤ (kills_in ob.temp_after -ℤ kills_in s.temp) (pos 1) ≡ false
        → Unkilled s.temp s
        → After (Unkilled ob.temp_after) (gen_results_fom F T put_errors str file mv_dir ob s)
    unfolding gen_results_fom
    gen_results_fom-After str file mv_dir ob s e h =
        let code = mutation_code_of str in
        let begun = begin_mutant F T code str ob s in
        let h' = begin_mutant-Unkilled code str ob s h in
        After-checked (Unkilled ob.temp_after) (is_readable s.temp && ob.stats_kept) _ (
          After-map (Unkilled ob.temp_after) (Unkilled ob.temp_after) _ _
            (λ s' u. same s' _ refl refl refl refl u)
            (elim (Bool-cases (eqb_ℤ (run_make ob.unset ob.make) (pos 2))) [
              | inl stopped ↦ rw stopped (failed_injection-Unkilled code begun h')
              | inr built ↦
                  rw built (built_mutant-After put_errors code file (kills_in s.temp) ob begun e h')
            ]))

    pub evaluate_mutants-Unkilled :
        (mv_dir : Bytes) (mutants : List (Bytes × Bytes × Observation)) (s s' : State F T)
        → AllRecorded s.temp mutants
        → IsSettled s.temp
        → Unkilled s.temp s
        → evaluate_mutants F T put_errors mv_dir mutants s ≡ some s'
        → Unkilled s'.temp s'
    unfolding evaluate_mutants
    evaluate_mutants-Unkilled mv_dir [] s s' r w h e =
        subst (λ x. Unkilled x.temp x) (some-injective _ _ e) h
    evaluate_mutants-Unkilled mv_dir ((str, file, ob) ∷ rest) s s' (r, rs) w h e =
        elim (Option-cases (gen_results_fom F T put_errors str file mv_dir ob s)) [
          | inl stopped ↦ absurd (cc (rw (stopped, evaluate_mutants) at e))
          | inr (m, done) ↦
              let w' = recorded-IsSettled s.temp ob.temp_after r w in
              let u : Unkilled ob.temp_after m = rw done at (
                gen_results_fom-After str file mv_dir ob s
                  (never_one_more s.temp ob.temp_after w w') h) in
              evaluate_mutants-Unkilled mv_dir rest m s'
                (subst (λ x. AllRecorded x rest) (sym u.held) rs) (subst IsSettled (sym u.held) w')
                (subst (λ x. Unkilled x m) (sym u.held) u) (rw (done, evaluate_mutants) at e)
        ]
