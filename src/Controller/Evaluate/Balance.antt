-- ===== src/Controller/Evaluate/Balance.antt =====
-- The statistics of each operator stay balanced over the evaluation of mutants.
pub mod Sequence
use memory_mutation_testing.Base.{
  ◌+◌, ◌≡◌, Bool, true, false, not, ◌&&◌, Option, none, some, ℤ, pos, ltb, Bool-cases, inl, inr,
  if◌then◌else◌,
}
use memory_mutation_testing.Base.Text.{Bytes}
use memory_mutation_testing.Base.Double.{Double, is_positive, is_zero}
use memory_mutation_testing.Gstats.Table.{Table}
use memory_mutation_testing.Valgrind.{ValgrindResult}
use memory_mutation_testing.Controller.Results.{copies_within, Stats}
use memory_mutation_testing.Controller.Mutants.{Mutant, Observation, State}
use memory_mutation_testing.Controller.Fom.{
  add_to, bump, on_result, classify_killed, classify_survived, count_errors, is_non_trivial,
  is_dumb, memory_deviates,
}
use memory_mutation_testing.Controller.Fom.Accounts.{
  IsBalanced, due, neutral_update, open_update, settle_failed_injection, settle_killed_by_tests,
  settle_equivalent_mutants, settle_survived_sd, settle_survived_wd,
}
use memory_mutation_testing.Controller.Fom.Accounts.Neutral.{
  killed_sd-IsNeutral, killed_wd-IsNeutral, killed_wd_ve-IsNeutral, killed_wd_cfd-IsNeutral,
  survived_wd_ve-IsNeutral, survived_wd_cfd-IsNeutral, valgrind_errors_count-IsNeutral,
  cfg_deviation_raw-IsNeutral,
}
use memory_mutation_testing.Controller.Evaluate.After.{After, After-map}
use memory_mutation_testing.Controller.Evaluate.{
  grow_non_trivial, store_killed, killed_by_tests, grow_survived, store_survived, survived_tests,
  record_deviation, failed_injection, begin_mutant,
}

module _ (F : Double) (T : Table) (c : Bytes) where
  -- The accounts of the operator `c` in a state.
  abbrev pub Owes : ℤ → State F T → Type 0
  Owes o s = IsBalanced T s.stats c o

  classify_killed-Owes :
      (code : Bytes) (memory cfg : Bool) (s : State F T) (o : ℤ)
      → Owes o s
      → Owes o (classify_killed F T code memory cfg s)
  unfolding classify_killed bump add_to
  classify_killed-Owes code true true s o h =
      neutral_update T _ code "killed_SD" _ c o killed_sd-IsNeutral h
  classify_killed-Owes code true false s o h =
      neutral_update T _ code "killed_WD_VE" _ c o killed_wd_ve-IsNeutral
        (neutral_update T _ code "killed_WD" _ c o killed_wd-IsNeutral h)
  classify_killed-Owes code false true s o h =
      neutral_update T _ code "killed_WD_CFD" _ c o killed_wd_cfd-IsNeutral
        (neutral_update T _ code "killed_WD" _ c o killed_wd-IsNeutral h)
  classify_killed-Owes code false false s o h = h

  -- A survivor falls into one of the three classes.
  classified-Owes :
      (code : Bytes) (memory zero_dev positive : Bool) (s : State F T)
      → positive ≡ not zero_dev
      → Owes (due T code c) s
      → Owes (pos 0) (classify_survived F T code (not memory && zero_dev) memory positive s)
  unfolding classify_survived bump add_to
  classified-Owes code true true positive s e h = rw e (
      neutral_update T _ code "survived_WD_VE" _ c (pos 0) survived_wd_ve-IsNeutral
        (settle_survived_wd T s.stats code c h))
  classified-Owes code true false positive s e h = rw e (settle_survived_sd T s.stats code c h)
  classified-Owes code false true positive s e h = settle_equivalent_mutants T s.stats code c h
  classified-Owes code false false positive s e h = rw e (
      neutral_update T _ code "survived_WD_CFD" _ c (pos 0) survived_wd_cfd-IsNeutral
        (settle_survived_wd T s.stats code c h))

  count_errors-Owes :
      (code : Bytes) (v : Option ValgrindResult) (s : State F T) (o : ℤ)
      → Owes o s
      → Owes o (count_errors F T code v s)
  unfolding count_errors add_to
  count_errors-Owes code none s o h = h
  count_errors-Owes code (some v) s o h =
      neutral_update T _ code "valgrind_errors_count" _ c o valgrind_errors_count-IsNeutral h

  store_killed-After :
      (code file : Bytes) (stats : Stats) (dev : F.D) (v : Option ValgrindResult) (s : State F T)
      (o : ℤ)
      → Owes o s
      → After (Owes o) (store_killed F T code file stats dev v s)
  unfolding store_killed
  store_killed-After code file stats dev v s o h = elim (Bool-cases (is_non_trivial stats)) [
    | inl nt ↦
        rw nt
          (elim (Bool-cases
            (ltb s.result.non_trivial_fom_count s.non_trivial_fom_buffer && copies_within stats)) [
              | inl room ↦ rw room h
              | inr full ↦ rw full tt
            ])
    | inr trivial ↦
        rw trivial
          (elim (Bool-cases (is_dumb stats)) [ inl dumb ↦ rw dumb h | inr nothing ↦ rw nothing h ])
  ]

  either-Owes :
      (test : Bool) (x y : State F T) (o : ℤ) → Owes o x → Owes o y → Owes o (if test then x else y)
  either-Owes true x y o h h' = h
  either-Owes false x y o h h' = h'

  grow_non_trivial-Owes :
      (stats : Stats) (s : State F T) (o : ℤ) → Owes o s → Owes o (grow_non_trivial F T stats s)
  unfolding grow_non_trivial
  grow_non_trivial-Owes stats s o h = either-Owes _ _ s o h h

  grow_survived-Owes : (s : State F T) (o : ℤ) → Owes o s → Owes o (grow_survived F T s)
  unfolding grow_survived
  grow_survived-Owes s o h = either-Owes _ _ s o h h

  store_survived-After :
      (m : Mutant F) (s : State F T) (o : ℤ) → Owes o s → After (Owes o) (store_survived F T m s)
  unfolding store_survived
  store_survived-After m s o h = elim (Bool-cases (ltb s.result.survived_count s.survived_buffer)) [
    | inl room ↦ rw room h
    | inr full ↦ rw full tt
  ]

  killed-Owes :
      (code : Bytes) (s : State F T)
      → Owes (due T code c) s
      → Owes (pos 0) (
          on_result F T
            (λ r. record r { mutant_kill_count = r.mutant_kill_count + 1 })
            (bump F T code "killed_by_tests" s))
  unfolding bump add_to
  killed-Owes code s h = settle_killed_by_tests T s.stats code c h

  pub killed_by_tests-After :
      (put_errors : ℤ) (code file : Bytes) (stats : Stats) (dev : F.D) (v : Option ValgrindResult)
      (s : State F T)
      → Owes (due T code c) s
      → After (Owes (pos 0)) (killed_by_tests F T put_errors code file stats dev v s)
  unfolding killed_by_tests
  killed_by_tests-After put_errors code file stats dev v s h =
      After-map (Owes (pos 0)) (Owes (pos 0)) _ (store_killed F T code file stats dev _ _)
        (λ stored h'. classify_killed-Owes code _ _ _ (pos 0) h')
        (store_killed-After code file stats dev _ _ (pos 0) (
          count_errors-Owes code _ _ (pos 0)
            (grow_non_trivial-Owes stats _ (pos 0) (killed-Owes code s h))))

  pub survived_tests-After :
      (put_errors : ℤ) (code file : Bytes) (dev : F.D) (v : Option ValgrindResult) (s : State F T)
      → is_positive F dev ≡ not (is_zero F dev)
      → Owes (due T code c) s
      → After (Owes (pos 0)) (survived_tests F T put_errors code file dev v s)
  unfolding survived_tests
  survived_tests-After put_errors code file dev v s sign h = store_survived-After _ _ (pos 0) (
      count_errors-Owes code v _ (pos 0) (
        classified-Owes code (memory_deviates put_errors v) (is_zero F dev) (is_positive F dev) _
          sign
          (grow_survived-Owes _ (due T code c)
            (either-Owes (is_zero F dev) s _ (due T code c) h h))))

  pub record_deviation-Owes :
      (code : Bytes) (dev : F.D) (s : State F T) (o : ℤ)
      → Owes o s
      → Owes o (record_deviation F T code dev s)
  unfolding record_deviation
  record_deviation-Owes code dev s o h =
      either-Owes (is_positive F dev) _ s o
        (neutral_update T s.stats code "cfg_deviation_raw" _ c o cfg_deviation_raw-IsNeutral h) h

  pub failed_injection-Owes :
      (code : Bytes) (s : State F T)
      → Owes (due T code c) s
      → Owes (pos 0) (failed_injection F T code s)
  unfolding failed_injection bump add_to
  failed_injection-Owes code s h = settle_failed_injection T s.stats code c h

  pub begin_mutant-Owes :
      (code str : Bytes) (ob : Observation) (s : State F T)
      → Owes (pos 0) s
      → Owes (due T code c) (begin_mutant F T code str ob s)
  unfolding begin_mutant bump add_to
  begin_mutant-Owes code str ob s h = open_update T s.stats code c h
