-- ===== src/Controller/Evaluate/Steps.antt =====
-- The counters stay in order over each part of the evaluation of a mutant.
use mathlib.Core.Option as Option
use memory_mutation_testing.Base.{
  checked, ℕ, ◌+◌, ◌≡◌, Bool, true, false, not, ◌&&◌, Option, none, some, List, [], ◌∷◌, arith,
  length, length-append, ℤ, Bool-cases, inl, inr, if◌then◌else◌, ltb, suc, ◌++◌,
}
use memory_mutation_testing.Base.Text.{Bytes}
use memory_mutation_testing.Base.Double.{Double, is_positive, is_zero}
use memory_mutation_testing.Gstats.Table.{Table}
use memory_mutation_testing.Valgrind.{ValgrindResult}
use memory_mutation_testing.Controller.Results.{copies_within, Stats}
use memory_mutation_testing.Controller.Mutants.{Mutant, Observation, State}
use memory_mutation_testing.Controller.Fom.{
  memory_deviates, bump, on_result, classify_survived, is_non_trivial, is_dumb,
}
use memory_mutation_testing.Controller.Fom.Counters.{
  IsTallied, classify_killed-IsTallied, classify_survived-IsTallied, count_errors-IsTallied,
}
use memory_mutation_testing.Controller.Evaluate.{
  grow_non_trivial, non_trivial_mutant, store_killed, killed_by_tests, grow_survived,
  store_survived, survived_tests, record_deviation, failed_injection, begin_mutant,
}

module _ (F : Double) (T : Table) where
  -- The postcondition of a step that may fault.
  abbrev pub Leaves : ℕ → ℕ → Option (State F T) → Type 0
  Leaves o a none = Unit {0}
  Leaves o a (some s) = IsTallied F o a s.result

  pub Leaves-checked :
      (o a : ℕ) (b : Bool) (m : Option (State F T)) → Leaves o a m → Leaves o a (checked b m)
  Leaves-checked o a true m h = h
  Leaves-checked o a false m h = tt

  grow_non_trivial-IsTallied :
      (stats : Stats) (s : State F T) {o a : ℕ}
      → IsTallied F o a s.result
      → IsTallied F o a (grow_non_trivial F T stats s).result
  unfolding grow_non_trivial
  grow_non_trivial-IsTallied stats s h = ground arith

  grow_survived-IsTallied :
      (s : State F T) {o a : ℕ}
      → IsTallied F o a s.result
      → IsTallied F o a (grow_survived F T s).result
  unfolding grow_survived
  grow_survived-IsTallied s h = ground arith

  length-snoc : (ms : List (Mutant F)) (m : Mutant F) → length (ms ++ (m ∷ [])) ≡ length ms + 1
  length-snoc ms m = length-append ms (m ∷ [])

  store_killed-Leaves :
      (code file : Bytes) (stats : Stats) (dev : F.D) (v : Option ValgrindResult) (s : State F T)
      {o a : ℕ}
      → IsTallied F o a s.result
      → Leaves o a (store_killed F T code file stats dev v s)
  unfolding store_killed
  store_killed-Leaves code file stats dev v s h = elim (Bool-cases (is_non_trivial stats)) [
    | inl nt ↦
        rw nt
          (elim (Bool-cases
            (ltb s.result.non_trivial_fom_count s.non_trivial_fom_buffer && copies_within stats)) [
              | inl room ↦ rw room (
                  ground (
                    arith,
                    length-snoc s.result.non_trivial_foms
                        (non_trivial_mutant F T code file stats dev v),
                  ))
              | inr full ↦ rw full tt
            ])
    | inr trivial ↦ rw trivial (elim (Bool-cases (is_dumb stats)) [
      | inl dumb ↦ rw dumb (ground arith)
      | inr nothing ↦ rw nothing h
    ])
  ]

  store_survived-Leaves :
      (m : Mutant F) (s : State F T) {o : ℕ}
      → IsTallied F (suc o) 1 s.result
      → Leaves o 0 (store_survived F T m s)
  unfolding store_survived
  store_survived-Leaves m s h = elim (Bool-cases (ltb s.result.survived_count s.survived_buffer)) [
    | inl room ↦ rw room (ground (arith, length-snoc s.result.survived m))
    | inr full ↦ rw full tt
  ]

  pub Leaves-map :
      (f : State F T → State F T) (m : Option (State F T)) {o a o' a' : ℕ}
      → ((s : State F T) → IsTallied F o a s.result → IsTallied F o' a' (f s).result)
      → Leaves o a m
      → Leaves o' a' (Option.map f m)
  Leaves-map f none keep h = tt
  Leaves-map f (some s) keep h = keep s h

  pub Leaves-bind :
      (m : Option (State F T)) (next : State F T → Option (State F T)) {o a : ℕ}
      → ((s : State F T) → IsTallied F o a s.result → Leaves o a (next s))
      → Leaves o a m
      → Leaves o a (elim m [ none ↦ none | some s ↦ next s ])
  Leaves-bind none next keep h = tt
  Leaves-bind (some s) next keep h = keep s h

  killed-IsTallied :
      (code : Bytes) (s : State F T) {o a : ℕ}
      → IsTallied F (suc o) a s.result
      → IsTallied F o a
          (on_result F T
            (λ r. record r { mutant_kill_count = r.mutant_kill_count + 1 })
            (bump F T code "killed_by_tests" s)).result
  unfolding bump
  killed-IsTallied code s h = ground arith

  pub killed_by_tests-Leaves :
      (put_errors : ℤ) (code file : Bytes) (stats : Stats) (dev : F.D) (v : Option ValgrindResult)
      (s : State F T) {o : ℕ}
      → IsTallied F (suc o) 0 s.result
      → Leaves o 0 (killed_by_tests F T put_errors code file stats dev v s)
  unfolding killed_by_tests
  killed_by_tests-Leaves put_errors code file stats dev v s h =
      Leaves-map _ (store_killed F T code file stats dev _ _)
        (λ stored h'. classify_killed-IsTallied F T code _ _ _ (ground arith))
        (store_killed-Leaves code file stats dev _ _ (
          count_errors-IsTallied F T code _ _
            (grow_non_trivial-IsTallied stats _ (killed-IsTallied code s h))))

  -- The deviation is positive or zero, and not both.
  classified-IsTallied :
      (code : Bytes) (memory zero_dev positive : Bool) (s : State F T) {o : ℕ}
      → positive ≡ not zero_dev
      → IsTallied F o 0 s.result
      → IsTallied F o 1
          (classify_survived F T code (not memory && zero_dev) memory positive s).result
  classified-IsTallied code memory true positive s e h =
      rw e (classify_survived-IsTallied F T code memory false s h)
  classified-IsTallied code memory false positive s e h =
      rw e (classify_survived-IsTallied F T code memory true s h)

  moved-IsTallied :
      (zero_dev : Bool) (s : State F T) {o a : ℕ}
      → IsTallied F o a s.result
      → IsTallied F o a
          (if zero_dev
            then s
            else (on_result F T
                (λ r. record r {
                  survived_caused_cfg_deviation = r.survived_caused_cfg_deviation + 1;
                })
                s)).result
  moved-IsTallied true s h = h
  moved-IsTallied false s h = ground arith

  pub survived_tests-Leaves :
      (put_errors : ℤ) (code file : Bytes) (dev : F.D) (v : Option ValgrindResult) (s : State F T)
      {o : ℕ}
      → is_positive F dev ≡ not (is_zero F dev)
      → IsTallied F (suc o) 0 s.result
      → Leaves o 0 (survived_tests F T put_errors code file dev v s)
  unfolding survived_tests
  survived_tests-Leaves put_errors code file dev v s sign h = store_survived-Leaves _ _ (
      count_errors-IsTallied F T code v _ (
        classified-IsTallied code (memory_deviates put_errors v) (is_zero F dev) (is_positive F dev)
          _ sign (grow_survived-IsTallied _ (moved-IsTallied (is_zero F dev) s h))))

  pub record_deviation-IsTallied :
      (code : Bytes) (dev : F.D) (s : State F T) {o a : ℕ}
      → IsTallied F o a s.result
      → IsTallied F o a (record_deviation F T code dev s).result
  unfolding record_deviation
  record_deviation-IsTallied code dev s h = elim (Bool-cases (is_positive F dev)) [
    | inl p ↦ rw p (ground arith)
    | inr n ↦ rw n h
  ]

  pub failed_injection-IsTallied :
      (code : Bytes) (s : State F T) {o a : ℕ}
      → IsTallied F (suc o) a s.result
      → IsTallied F o a (failed_injection F T code s).result
  unfolding failed_injection bump
  failed_injection-IsTallied code s h = ground arith

  pub begin_mutant-IsTallied :
      (code str : Bytes) (ob : Observation) (s : State F T) {o a : ℕ}
      → IsTallied F o a s.result
      → IsTallied F (suc o) a (begin_mutant F T code str ob s).result
  unfolding begin_mutant bump
  begin_mutant-IsTallied code str ob s h = ground arith
