-- ===== src/Controller/Evaluate/Detection/Sequence.antt =====
-- The verdicts on the mutants of a directory, one after the other.
use memory_mutation_testing.Controller.Results.{is_readable}
use mathlib.Core.Path.{subst}
use memory_mutation_testing.Base.{
  ◌&&◌, ℕ, ◌+◌, ◌≡◌, refl, sym, ap, ◌∙◌, arith, Bool, true, false, Option, none, some, List, [],
  ◌∷◌, ℤ, pos, ◌+ℤ◌, ◌≤ℤ◌, length, ◌==◌, Bool-cases, inl, inr, if◌then◌else◌,
}
use memory_mutation_testing.Base.Int.{+ℤ_parts}
use memory_mutation_testing.Base.Text.{codes, Bytes}
use memory_mutation_testing.Base.Double.{Double}
use memory_mutation_testing.Gstats.Table.{Table}
use memory_mutation_testing.CuTest.Suite.{CuSuite, run_tests}
use memory_mutation_testing.CuTest.Report.{Reports, cu_suite_run}
use memory_mutation_testing.Controller.Process.{run_make}
use memory_mutation_testing.Controller.Mutants.{Observation, State}
use memory_mutation_testing.Controller.Fom.{bump}
use memory_mutation_testing.Controller.Evaluate.{
  failed_injection, begin_mutant, gen_results_fom, evaluate_mutants,
}
use memory_mutation_testing.Controller.Evaluate.Room.{IsRoomy, Keeps}
use memory_mutation_testing.Controller.Evaluate.Capacity.{
  CanRead, kills_in, gen_results_fom-Keeps, held-IsRoomy,
}
use memory_mutation_testing.Controller.Evaluate.Verdict.{counted, Ends, Ends-checked}
use memory_mutation_testing.Controller.Evaluate.Detection.{
  gen_results_fom-verdict_counts, verdicts, temp_silent, kills_loud, ran-CanRead,
}

-- What becomes of a mutant when the file holds `t`, while gstats.c does not exit: one run of a suite tests it, or it does not
-- build and no test writes the file.
pub data Tested (t : Bytes) (ob : Observation) : Type 0 where
  ran :
      (suite : CuSuite) (files : Reports) (r : CuSuite × Reports)
      → run_make ob.unset ob.make ≡ pos 0
      → files.temp ≡ t
      → cu_suite_run (some (codes "true")) suite files ≡ some r
      → ob.temp_after ≡ r.1.temp
      → ob.stats_kept ≡ true
      → Tested t ob
  broken :
      run_make ob.unset ob.make ≡ pos 2 → ob.temp_after ≡ t → ob.stats_kept ≡ true → Tested t ob

-- Whether no test of the suite failed.
abbrev pub is_survivor : {t : Bytes} {ob : Observation} → Tested t ob → Bool
is_survivor (ran suite files r made before done after kept) = (run_tests suite).fail_count == 0
is_survivor (broken made same kept) = false

abbrev pub AllTested : Bytes → List (Bytes × Bytes × Observation) → Type 0
AllTested t [] = Unit {0}
AllTested t ((str, file, ob) ∷ rest) = Tested t ob × AllTested ob.temp_after rest

-- How many mutants do not build, or have a test that fails.
abbrev pub killed_among :
    (t : Bytes) (mutants : List (Bytes × Bytes × Observation)) → AllTested t mutants → ℕ
killed_among t [] h = 0
killed_among t ((str, file, ob) ∷ rest) (h, hs) =
    (if is_survivor h then 0 else 1) + killed_among ob.temp_after rest hs

-- How many mutants pass all tests.
abbrev pub survivors_among :
    (t : Bytes) (mutants : List (Bytes × Bytes × Observation)) → AllTested t mutants → ℕ
survivors_among t [] h = 0
survivors_among t ((str, file, ob) ∷ rest) (h, hs) =
    (if is_survivor h then 1 else 0) + survivors_among ob.temp_after rest hs

no_less : (a b : ℤ) → a ≡ b → a ≤ℤ b
no_less a b e = ground arith

one_more : (a b : ℤ) → b ≡ a +ℤ pos 1 → a ≤ℤ b
one_more a b e = subst (λ c. a ≤ℤ c) (sym e) (omega (arith, +ℤ_parts a (pos 1)))

Tested-rises : (t : Bytes) (ob : Observation) → Tested t ob → kills_in t ≤ℤ kills_in ob.temp_after
Tested-rises t ob (broken made same kept) = no_less _ _ (ap kills_in (sym same))
Tested-rises t ob (ran suite files r made before done after kept) =
    elim (Bool-cases ((run_tests suite).fail_count == 0)) [
      | inl e ↦
          no_less _ _
            (ap kills_in (sym (after ∙ temp_silent suite files r done (ground arith) ∙ before)))
      | inr e ↦ one_more _ _ (
          ap kills_in after
          ∙ kills_loud suite files r done (ground arith)
          ∙ ap (λ u. kills_in u +ℤ pos 1) before)
    ]

-- A file that can be read is followed by one that can be.
Tested-CanRead : (t : Bytes) (ob : Observation) → Tested t ob → CanRead t → CanRead ob.temp_after
Tested-CanRead t ob (broken made same kept) h = subst CanRead (sym same) h
Tested-CanRead t ob (ran suite files r made before done after kept) h =
    subst CanRead (sym after) (ran-CanRead suite files r done (subst CanRead (sym before) h))

Tested-kept : (t : Bytes) (ob : Observation) → Tested t ob → ob.stats_kept ≡ true
Tested-kept t ob (broken made same kept) = kept
Tested-kept t ob (ran suite files r made before done after kept) = kept

module _ (F : Double) (T : Table) (put_errors : ℤ) where
  -- What an evaluation adds to the two counts.
  Adds : Bool → State F T → State F T → Type 0
  Adds survivor s s' =
      (s'.result.mutant_kill_count ≡ s.result.mutant_kill_count + (if survivor then 0 else 1))
      × (s'.result.survived_count ≡ s.result.survived_count + (if survivor then 1 else 0))

  broken-Ends :
      (str file mv_dir : Bytes) (ob : Observation) (s : State F T)
      → run_make ob.unset ob.make ≡ pos 2
      → Ends F T (counted F T true s) (gen_results_fom F T put_errors str file mv_dir ob s)
  unfolding gen_results_fom failed_injection begin_mutant bump
  broken-Ends str file mv_dir ob s made =
      Ends-checked F T (counted F T true s) (is_readable s.temp && ob.stats_kept) _ (rw made refl)

  Tested-Adds :
      (str file mv_dir : Bytes) (ob : Observation) (s s' : State F T) (h : Tested s.temp ob)
      → gen_results_fom F T put_errors str file mv_dir ob s ≡ some s'
      → Adds (is_survivor h) s s'
  unfolding Adds
  Tested-Adds str file mv_dir ob s s' (ran suite files r made before done after kept) e =
      gen_results_fom-verdict_counts F T put_errors str file mv_dir ob s s' suite files r made
        before done after e
  Tested-Adds str file mv_dir ob s s' (broken made same kept) e =
      verdicts F T false s s' (rw e at (broken-Ends str file mv_dir ob s made))

  kept_some :
      (room : ℕ) (t : Bytes) (m : Option (State F T))
      → Keeps F T room (kills_in t) t m
      → (s : State F T) × ((m ≡ some s) × IsRoomy F T room (kills_in t) t s)
  kept_some room t none h = absurd h
  kept_some room t (some s) h = (s, (refl, h))

  held-AllTested :
      {t u : Bytes} (mutants : List (Bytes × Bytes × Observation)) (e : u ≡ t)
      (h : AllTested t mutants)
      → (h' : AllTested u mutants) × ((killed_among u mutants h' ≡ killed_among t mutants h)
          × (survivors_among u mutants h' ≡ survivors_among t mutants h))
  held-AllTested {t} mutants e h =
      subst
        (λ x.
          (h' : AllTested x mutants) × ((killed_among x mutants h' ≡ killed_among t mutants h)
            × (survivors_among x mutants h' ≡ survivors_among t mutants h)))
        (sym e) (h, (refl, refl))

  -- The evaluation of mutants that are tested one after the other succeeds, and counts them.
  pub evaluate_mutants_counts :
      (mv_dir : Bytes) (mutants : List (Bytes × Bytes × Observation)) (s : State F T)
      (h : AllTested s.temp mutants)
      → IsRoomy F T (length mutants) (kills_in s.temp) s.temp s
      → CanRead s.temp
      → (s' : State F T) × ((evaluate_mutants F T put_errors mv_dir mutants s ≡ some s')
          × ((s'.result.mutant_kill_count
                ≡ s.result.mutant_kill_count + killed_among s.temp mutants h)
              × (s'.result.survived_count
                  ≡ s.result.survived_count + survivors_among s.temp mutants h)))
  unfolding evaluate_mutants Adds
  evaluate_mutants_counts mv_dir [] s h roomy read = (s, (refl, (omega arith, omega arith)))
  evaluate_mutants_counts mv_dir ((str, file, ob) ∷ rest) s (h, hs) roomy read =
      let (m, (e, roomy')) =
        kept_some (length rest) ob.temp_after (gen_results_fom F T put_errors str file mv_dir ob s)
          (gen_results_fom-Keeps F T put_errors str file mv_dir ob (length rest) s roomy read.0
            (Tested-CanRead s.temp ob h read) (Tested-kept s.temp ob h)
            (Tested-rises s.temp ob h)) in
      let (kills, survivors) = Tested-Adds str file mv_dir ob s m h e in
      let (hs', (same_kills, same_survivors)) = held-AllTested rest roomy'.held hs in
      let (s', (done, (k, v))) =
        evaluate_mutants_counts mv_dir rest m hs'
          (held-IsRoomy F T put_errors ob.temp_after m roomy')
          (subst CanRead (sym roomy'.held) (Tested-CanRead s.temp ob h read)) in
      rw (e, evaluate_mutants)
        (
          s',
          (
            done,
            (omega (arith, kills, k, same_kills), omega (arith, survivors, v, same_survivors)),
          ),
        )
