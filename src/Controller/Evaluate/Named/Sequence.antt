-- ===== src/Controller/Evaluate/Named/Sequence.antt =====
-- What a sequence of mutants leaves in the total, the copy of the original and the log.
use mathlib.Core.List.{append_assoc, append-nil}
use mathlib.Core.Option.{some-injective}
use memory_mutation_testing.Base.{
  ◌&&◌, ℕ, ◌+◌, ◌≡◌, refl, sym, ap, ◌∙◌, arith, Option, some, List, [], ◌∷◌, ◌++◌, length, ℤ, pos,
  eqb_ℤ, Bool-cases, Option-cases, inl, inr,
}
use memory_mutation_testing.Base.Text.{Bytes}
use memory_mutation_testing.Base.Double.{Double}
use memory_mutation_testing.Gstats.Table.{Table}
use memory_mutation_testing.Controller.Process.{run_make}
use memory_mutation_testing.Controller.Results.{is_readable, get_non_trivial_fom_stats}
use memory_mutation_testing.Controller.Mutants.{Observation, State, runtime_error, mutant}
use memory_mutation_testing.Controller.Fom.{add_to, bump, note, mutation_code_of}
use memory_mutation_testing.Controller.Evaluate.After.{After, After-checked, After-map}
use memory_mutation_testing.Controller.Evaluate.Named.{
  Names, names_in, names_in-append, same, noted, built_mutant-After,
}
use memory_mutation_testing.Controller.Evaluate.{
  failed_injection, begin_mutant, gen_results_fom, evaluate_mutants,
}

-- The names of the mutants of a sequence.
abbrev pub names_of : List (Bytes × Bytes × Observation) → List Bytes
names_of [] = []
names_of ((str, file, ob) ∷ rest) = str ∷ names_of rest

-- `original_source_file` after a sequence of mutants.
abbrev pub copy_after : Option Bytes → Bytes → List (Bytes × Bytes × Observation) → Option Bytes
copy_after o mv_dir [] = o
copy_after o mv_dir (m ∷ ms) = some mv_dir

copy_stays :
    (mv_dir : Bytes) (ms : List (Bytes × Bytes × Observation))
    → copy_after (some mv_dir) mv_dir ms ≡ some mv_dir
copy_stays mv_dir [] = refl
copy_stays mv_dir (m ∷ ms) = refl

module _ (F : Double) (T : Table) (put_errors : ℤ) where
  relabel :
      {n n' : ℕ} {o o' : Option Bytes} {names names' : List Bytes} (s s' : State F T)
      → s ≡ s'
      → n ≡ n'
      → o ≡ o'
      → names ≡ names'
      → Names F T n o names s
      → Names F T n' o' names' s'
  relabel s s' q a b c h = record {
    total = ap (λ x. x.result.total_mutants) (sym q) ∙ (h.total ∙ a);
    copy = ap (λ x. x.result.original_source_file) (sym q) ∙ (h.copy ∙ b);
    logged = ap (λ x. names_in F T x.log) (sym q) ∙ (h.logged ∙ c);
  }

  begin_mutant-Names :
      (code str : Bytes) (ob : Observation) (s : State F T) (n : ℕ) (o : Option Bytes)
      (names : List Bytes)
      → Names F T n o names s
      → Names F T (n + 1) o (names ++ (str ∷ [])) (begin_mutant F T code str ob s)
  unfolding begin_mutant bump add_to
  begin_mutant-Names code str ob s n o names h = record {
    total = ap (λ k. k + 1) h.total;
    copy = h.copy;
    logged = names_in-append F T s.log (mutant str ∷ []) ∙ ap (λ l. l ++ (str ∷ [])) h.logged;
  }

  failed_injection-Names :
      (code : Bytes) (s : State F T) (n : ℕ) (o : Option Bytes) (names : List Bytes)
      → Names F T n o names s
      → Names F T n o names (failed_injection F T code s)
  unfolding failed_injection bump add_to
  failed_injection-Names code s n o names h = same F T s _ refl refl refl h

  gen_results_fom-After :
      (str file mv_dir : Bytes) (ob : Observation) (s : State F T) (n : ℕ) (o : Option Bytes)
      (names : List Bytes)
      → Names F T n o names s
      → After
          (Names F T (n + 1) (some mv_dir) (names ++ (str ∷ [])))
          (gen_results_fom F T put_errors str file mv_dir ob s)
  unfolding gen_results_fom
  gen_results_fom-After str file mv_dir ob s n o names h =
      let code = mutation_code_of str in
      let begun = begin_mutant F T code str ob s in
      let h' = begin_mutant-Names code str ob s n o names h in
      After-checked (Names F T (n + 1) (some mv_dir) (names ++ (str ∷ [])))
        (is_readable s.temp && ob.stats_kept) _
        (After-map (Names F T (n + 1) o (names ++ (str ∷ [])))
          (Names F T (n + 1) (some mv_dir) (names ++ (str ∷ []))) _ _
          (λ s' known. record { total = known.total; copy = refl; logged = known.logged })
          (elim (Bool-cases (eqb_ℤ (run_make ob.unset ob.make) (pos 2))) [
            | inl stopped ↦ rw stopped (
                failed_injection-Names code (note F T runtime_error begun) (n + 1) o _
                  (noted F T begun runtime_error refl h'))
            | inr built ↦ rw built (
                built_mutant-After F T put_errors code file (get_non_trivial_fom_stats s.temp).kills
                  ob begun h')
          ]))

  pub evaluate_mutants-Names :
      (mv_dir : Bytes) (mutants : List (Bytes × Bytes × Observation)) (s s' : State F T) (n : ℕ)
      (o : Option Bytes) (names : List Bytes)
      → Names F T n o names s
      → evaluate_mutants F T put_errors mv_dir mutants s ≡ some s'
      → Names F T (n + length mutants) (copy_after o mv_dir mutants) (names ++ names_of mutants) s'
  unfolding evaluate_mutants
  evaluate_mutants-Names mv_dir [] s s' n o names h e =
      relabel s s' (some-injective _ _ e) (omega arith) refl (sym (append-nil names)) h
  evaluate_mutants-Names mv_dir ((str, file, ob) ∷ rest) s s' n o names h e =
      elim (Option-cases (gen_results_fom F T put_errors str file mv_dir ob s)) [
        | inl stopped ↦ absurd (cc (rw (stopped, evaluate_mutants) at e))
        | inr (t, done) ↦
            let h' : Names F T (n + 1) (some mv_dir) (names ++ (str ∷ [])) t =
              rw done at (gen_results_fom-After str file mv_dir ob s n o names h) in
            relabel s' s' refl (omega arith) (copy_stays mv_dir rest)
              (append_assoc names (str ∷ []) (names_of rest))
              (evaluate_mutants-Names mv_dir rest t s' (n + 1) (some mv_dir) (names ++ (str ∷ []))
                h' (rw (done, evaluate_mutants) at e))
      ]
