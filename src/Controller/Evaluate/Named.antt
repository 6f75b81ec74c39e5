-- ===== src/Controller/Evaluate/Named.antt =====
-- The total, the copy of the original and the log say which mutants were evaluated.
pub mod Sequence
use mathlib.Core.Option as Option
use mathlib.Core.List.{append-nil}
use memory_mutation_testing.Base.{
  ◌&&◌, ℕ, ◌≡◌, refl, ap, ◌∙◌, Bool, true, false, Option, none, some, List, [], ◌∷◌, ◌++◌, ℤ, pos,
  ◌-ℤ◌, eqb_ℤ, ltb, Bool-cases, inl, inr, if◌then◌else◌,
}
use memory_mutation_testing.Base.Text.{Bytes}
use memory_mutation_testing.Base.Double.{Double, is_positive, is_zero}
use memory_mutation_testing.Cfg.{calculate_cfg_branch_deviation}
use memory_mutation_testing.Gstats.Table.{Table}
use memory_mutation_testing.Valgrind.{ValgrindResult}
use memory_mutation_testing.Controller.Results.{
  is_readable, copies_within, Stats, get_non_trivial_fom_stats,
}
use memory_mutation_testing.Controller.Mutants.{
  Mutant, Observation, State, Entry, mutant, runtime_error, cfg_deviation_entry, valgrind_errors,
}
use memory_mutation_testing.Controller.Fom.{
  add_to, bump, note, classify_killed, classify_survived, count_errors, is_non_trivial, is_dumb,
}
use memory_mutation_testing.Controller.Evaluate.After.{After, After-checked, After-map}
use memory_mutation_testing.Controller.Evaluate.{
  grow_non_trivial, store_killed, killed_by_tests, grow_survived, store_survived, survived_tests,
  record_deviation, built_mutant,
}

module _ (F : Double) (T : Table) where
  -- The names of the mutants in the log.
  abbrev pub names_in : List (Entry F) → List Bytes
  names_in [] = []
  names_in (mutant name ∷ es) = name ∷ names_in es
  names_in (runtime_error ∷ es) = names_in es
  names_in (cfg_deviation_entry d ∷ es) = names_in es
  names_in (valgrind_errors k ∷ es) = names_in es

  pub names_in-append : (xs ys : List (Entry F)) → names_in (xs ++ ys) ≡ names_in xs ++ names_in ys
  names_in-append [] ys = refl
  names_in-append (mutant name ∷ xs) ys = ap (λ l. name ∷ l) (names_in-append xs ys)
  names_in-append (runtime_error ∷ xs) ys = names_in-append xs ys
  names_in-append (cfg_deviation_entry d ∷ xs) ys = names_in-append xs ys
  names_in-append (valgrind_errors k ∷ xs) ys = names_in-append xs ys

  -- So many mutants were evaluated, with this copy of the original, and the log has these names.
  pub record Names (n : ℕ) (original : Option Bytes) (names : List Bytes) (s : State F T)
      : Type 0 where
    pub total : s.result.total_mutants ≡ n
    pub copy : s.result.original_source_file ≡ original
    pub logged : names_in s.log ≡ names

  -- An entry that is not of a mutant.
  other_entry :
      (es : List (Entry F)) (e : Entry F) (names : List Bytes)
      → names_in (e ∷ []) ≡ []
      → names_in es ≡ names
      → names_in (es ++ (e ∷ [])) ≡ names
  other_entry es e names q h =
      names_in-append es (e ∷ []) ∙ (ap (λ l. names_in es ++ l) q ∙ (append-nil (names_in es) ∙ h))

  module _ {n : ℕ} {o : Option Bytes} {names : List Bytes} where
    -- A step that leaves the three of them.
    pub same :
        (s s' : State F T)
        → s'.result.total_mutants ≡ s.result.total_mutants
        → s'.result.original_source_file ≡ s.result.original_source_file
        → s'.log ≡ s.log
        → Names n o names s
        → Names n o names s'
    same s s' t c l h = record {
      total = t ∙ h.total;
      copy = c ∙ h.copy;
      logged = ap names_in l ∙ h.logged;
    }

    pub noted :
        (s : State F T) (e : Entry F)
        → names_in (e ∷ []) ≡ []
        → Names n o names s
        → Names n o names (note F T e s)
    noted s e q h = record {
      total = h.total;
      copy = h.copy;
      logged = other_entry s.log e names q h.logged;
    }

    either :
        (test : Bool) (x y : State F T)
        → Names n o names x
        → Names n o names y
        → Names n o names (if test then x else y)
    either true x y h h' = h
    either false x y h h' = h'

    classify_killed-Names :
        (code : Bytes) (memory cfg : Bool) (s : State F T)
        → Names n o names s
        → Names n o names (classify_killed F T code memory cfg s)
    unfolding classify_killed bump add_to
    classify_killed-Names code true true s h = same s _ refl refl refl h
    classify_killed-Names code true false s h = same s _ refl refl refl h
    classify_killed-Names code false true s h = same s _ refl refl refl h
    classify_killed-Names code false false s h = h

    classify_survived-Names :
        (code : Bytes) (equivalent memory cfg : Bool) (s : State F T)
        → Names n o names s
        → Names n o names (classify_survived F T code equivalent memory cfg s)
    unfolding classify_survived bump add_to
    classify_survived-Names code true memory cfg s h = same s _ refl refl refl h
    classify_survived-Names code false true true s h = same s _ refl refl refl h
    classify_survived-Names code false true false s h = same s _ refl refl refl h
    classify_survived-Names code false false true s h = same s _ refl refl refl h
    classify_survived-Names code false false false s h = h

    count_errors-Names :
        (code : Bytes) (v : Option ValgrindResult) (s : State F T)
        → Names n o names s
        → Names n o names (count_errors F T code v s)
    unfolding count_errors add_to
    count_errors-Names code none s h = h
    count_errors-Names code (some v) s h =
        noted _ (valgrind_errors v.valgrind_error_count) refl (same s _ refl refl refl h)

    store_killed-After :
        (code file : Bytes) (stats : Stats) (dev : F.D) (v : Option ValgrindResult) (s : State F T)
        → Names n o names s
        → After (Names n o names) (store_killed F T code file stats dev v s)
    unfolding store_killed
    store_killed-After code file stats dev v s h = elim (Bool-cases (is_non_trivial stats)) [
      | inl nt ↦
          rw nt
            (elim (Bool-cases (
              ltb s.result.non_trivial_fom_count s.non_trivial_fom_buffer && copies_within stats)) [
                | inl room ↦ rw room (same s _ refl refl refl h)
                | inr full ↦ rw full tt
              ])
      | inr trivial ↦ rw trivial (elim (Bool-cases (is_dumb stats)) [
        | inl dumb ↦ rw dumb (same s _ refl refl refl h)
        | inr nothing ↦ rw nothing h
      ])
    ]

    store_survived-After :
        (m : Mutant F) (s : State F T)
        → Names n o names s
        → After (Names n o names) (store_survived F T m s)
    unfolding store_survived
    store_survived-After m s h = elim (Bool-cases (ltb s.result.survived_count s.survived_buffer)) [
      | inl room ↦ rw room (same s _ refl refl refl h)
      | inr full ↦ rw full tt
    ]

    killed_by_tests-After :
        (put_errors : ℤ) (code file : Bytes) (stats : Stats) (dev : F.D) (v : Option ValgrindResult)
        (s : State F T)
        → Names n o names s
        → After (Names n o names) (killed_by_tests F T put_errors code file stats dev v s)
    unfolding killed_by_tests grow_non_trivial bump add_to
    killed_by_tests-After put_errors code file stats dev v s h =
        After-map (Names n o names) (Names n o names) _ (store_killed F T code file stats dev _ _)
          (λ stored h'. classify_killed-Names code _ _ _ (same stored _ refl refl refl h'))
          (store_killed-After code file stats dev _ _ (
            count_errors-Names code _ _
              (either _ _ _ (same s _ refl refl refl h) (same s _ refl refl refl h))))

    survived_tests-After :
        (put_errors : ℤ) (code file : Bytes) (dev : F.D) (v : Option ValgrindResult) (s : State F T)
        → Names n o names s
        → After (Names n o names) (survived_tests F T put_errors code file dev v s)
    unfolding survived_tests grow_survived
    survived_tests-After put_errors code file dev v s h = store_survived-After _ _ (
        count_errors-Names code v _ (
          classify_survived-Names code _ _ _ _ (
            let moved = either (is_zero F dev) s _ h (same s _ refl refl refl h) in
            either _ _ _ (same _ _ refl refl refl moved) moved)))

    record_deviation-Names :
        (code : Bytes) (dev : F.D) (s : State F T)
        → Names n o names s
        → Names n o names (record_deviation F T code dev s)
    unfolding record_deviation
    record_deviation-Names code dev s h =
        noted _ (cfg_deviation_entry dev) refl
          (either (is_positive F dev) _ s (same s _ refl refl refl h) h)

    pub built_mutant-After :
        (put_errors : ℤ) (code file : Bytes) (prev : ℤ) (ob : Observation) (s : State F T)
        → Names n o names s
        → After (Names n o names) (built_mutant F T put_errors code file prev ob s)
    unfolding built_mutant
    built_mutant-After put_errors code file prev ob s h =
        let dev = calculate_cfg_branch_deviation F ob.put_branches ob.mutant_branches in
        let s' = record_deviation F T code dev s in
        let stats = get_non_trivial_fom_stats s'.temp in
        let h' = record_deviation-Names code dev s h in
        After-checked (Names n o names) (is_readable s.temp) _
          (elim (Bool-cases (eqb_ℤ (stats.kills -ℤ prev) (pos 1))) [
            | inl k ↦ rw k (killed_by_tests-After put_errors code file stats dev ob.valgrind s' h')
            | inr m ↦ rw m (survived_tests-After put_errors code file dev ob.valgrind s' h')
          ])
