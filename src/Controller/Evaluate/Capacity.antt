-- ===== src/Controller/Evaluate/Capacity.antt =====
-- The evaluation of a sequence of mutants does not fault while the survivors fit their array. The
-- array of the non-trivial mutants grows in time.
use mathlib.Core.Path.{subst}
use memory_mutation_testing.Base.{
  Bool, ◌&&◌, checked, ◌∙◌, true, ℕ, suc, ◌≤◌, ◌≡◌, refl, sym, ap, Option, none, some, List, [],
  ◌∷◌, arith, ℤ, pos, ◌≤ℤ◌, ◌-ℤ◌, eqb_ℤ, eqb_ℤ→eq, Bool-cases, inl, inr, length,
}
use memory_mutation_testing.Base.Text.{Bytes}
use memory_mutation_testing.Base.Double.{Double}
use memory_mutation_testing.Cfg.{calculate_cfg_branch_deviation}
use memory_mutation_testing.Gstats.Table.{Table}
use memory_mutation_testing.Controller.Process.{run_make}
use memory_mutation_testing.Controller.Results.{
  copies_within, is_readable, get_non_trivial_fom_stats,
}
use memory_mutation_testing.Controller.Mutants.{Observation, State, runtime_error}
use memory_mutation_testing.Controller.Fom.{bump, note, mutation_code_of}
use memory_mutation_testing.Controller.Evaluate.{
  record_deviation, failed_injection, begin_mutant, built_mutant, gen_results_fom, evaluate_mutants,
}
use memory_mutation_testing.Controller.Evaluate.Room.{
  IsRoomy, Keeps, Keeps-map, killed_by_tests-Keeps, survived_tests-Keeps, record_deviation-IsRoomy,
}

-- The number of kills that temp_results.log holds.
abbrev pub kills_in : Bytes → ℤ
kills_in t = (get_non_trivial_fom_stats t).kills

-- No evaluation lowers the number of kills in the file.
abbrev pub KillsRise : Bytes → List (Bytes × Bytes × Observation) → Type 0
KillsRise t [] = Unit {0}
KillsRise t ((str, file, ob) ∷ rest) =
    (kills_in t ≤ℤ kills_in ob.temp_after) × KillsRise ob.temp_after rest

-- temp_results.log with this content is read and copied from within the arrays.
abbrev pub CanRead : Bytes → Type 0
CanRead t = (is_readable t ≡ true) × (copies_within (get_non_trivial_fom_stats t) ≡ true)

-- After each mutant temp_results.log can be read, and gstats.c does not exit.
abbrev pub AllSound : List (Bytes × Bytes × Observation) → Type 0
AllSound [] = Unit {0}
AllSound ((str, file, ob) ∷ rest) = (CanRead ob.temp_after × (ob.stats_kept ≡ true)) × AllSound rest

module _ (F : Double) (T : Table) (put_errors : ℤ) where
  Keeps-weaken :
      (room room' : ℕ) (kills kills' : ℤ) (t : Bytes) (m : Option (State F T))
      → room' ≤ room
      → kills ≤ℤ kills'
      → Keeps F T room kills t m
      → Keeps F T room' kills' t m
  Keeps-weaken _ _ _ _ _ none r k h = h
  Keeps-weaken _ _ _ _ _ (some s) r k h = ground arith

  Keeps-checked :
      (room : ℕ) (kills : ℤ) (t : Bytes) (b : Bool) (m : Option (State F T))
      → b ≡ true
      → Keeps F T room kills t m
      → Keeps F T room kills t (checked b m)
  Keeps-checked room kills t b m e h = rw e h

  both : (a b : Bool) → a ≡ true → b ≡ true → (a && b) ≡ true
  both a b h h' = ground arith

  weaken-room :
      {room : ℕ} {kills : ℤ} {t : Bytes} {s : State F T}
      → IsRoomy F T (suc room) kills t s
      → IsRoomy F T room kills t s
  weaken-room h = ground arith

  ≤ℤ_of_eq : (a b : ℤ) → a ≡ b → a ≤ℤ b
  ≤ℤ_of_eq a b e = ground arith

  built_mutant-Keeps :
      (code file : Bytes) (prev : ℤ) (ob : Observation) (room : ℕ) (t : Bytes) (s : State F T)
      → IsRoomy F T (suc room) prev t s
      → CanRead t
      → prev ≤ℤ kills_in t
      → Keeps F T room (kills_in t) t (built_mutant F T put_errors code file prev ob s)
  unfolding built_mutant
  built_mutant-Keeps code file prev ob room t s h reads rise =
      let dev = calculate_cfg_branch_deviation F ob.put_branches ob.mutant_branches in
      let s' = record_deviation F T code dev s in
      let stats = get_non_trivial_fom_stats s'.temp in
      let h' = record_deviation-IsRoomy F T code dev s h in
      Keeps-checked room (kills_in t) t (is_readable s.temp) _ (ap is_readable h.held ∙ reads.0)
        (elim (Bool-cases (eqb_ℤ (stats.kills -ℤ prev) (pos 1))) [
          | inl k ↦ rw k (
              Keeps-weaken room room stats.kills (kills_in t) t _ (omega arith)
                (≤ℤ_of_eq _ _ (ap kills_in h'.held))
                (killed_by_tests-Keeps F T put_errors code file stats dev ob.valgrind s'
                  (weaken-room h') (eqb_ℤ→eq _ _ k)
                  (ap (λ u. copies_within (get_non_trivial_fom_stats u)) h'.held ∙ reads.1)))
          | inr n ↦ rw n (
              Keeps-weaken room room prev (kills_in t) t _ (omega arith) rise
                (survived_tests-Keeps F T put_errors code file dev ob.valgrind s' h'))
        ])

  begin_mutant-IsRoomy :
      (code str : Bytes) (ob : Observation) (s : State F T) {room : ℕ} {kills : ℤ} {t : Bytes}
      → IsRoomy F T room kills t s
      → IsRoomy F T room kills ob.temp_after (begin_mutant F T code str ob s)
  unfolding begin_mutant bump
  begin_mutant-IsRoomy code str ob s h = ground arith

  failed_injection-IsRoomy :
      (code : Bytes) (s : State F T) {room : ℕ} {kills : ℤ} {t : Bytes}
      → IsRoomy F T room kills t s
      → IsRoomy F T room kills t (failed_injection F T code (note F T runtime_error s))
  unfolding failed_injection bump
  failed_injection-IsRoomy code s h = ground arith

  pub gen_results_fom-Keeps :
      (str file mv_dir : Bytes) (ob : Observation) (room : ℕ) (s : State F T)
      → IsRoomy F T (suc room) (kills_in s.temp) s.temp s
      → is_readable s.temp ≡ true
      → CanRead ob.temp_after
      → ob.stats_kept ≡ true
      → kills_in s.temp ≤ℤ kills_in ob.temp_after
      → Keeps F T room
          (kills_in ob.temp_after)
          ob.temp_after
          (gen_results_fom F T put_errors str file mv_dir ob s)
  unfolding gen_results_fom
  gen_results_fom-Keeps str file mv_dir ob room s h read reads kept rise =
      let code = mutation_code_of str in
      let begun = begin_mutant F T code str ob s in
      let after = kills_in ob.temp_after in
      let h' = begin_mutant-IsRoomy code str ob s h in
      Keeps-checked room after ob.temp_after (is_readable s.temp && ob.stats_kept) _
        (both _ _ read kept)
        (Keeps-map F T _ _ {room = room} {kills = after} (λ s' h. ground arith)
          (elim (Bool-cases (eqb_ℤ (run_make ob.unset ob.make) (pos 2))) [
            | inl stopped ↦ rw stopped (
                Keeps-weaken (suc room) room (kills_in s.temp) after ob.temp_after (some _)
                  (omega arith) rise (failed_injection-IsRoomy code begun h'))
            | inr built ↦ rw built (
                built_mutant-Keeps code file (kills_in s.temp) ob room ob.temp_after begun h' reads
                  rise)
          ]))

  pub held-IsRoomy :
      {room : ℕ} (t : Bytes) (s : State F T)
      → IsRoomy F T room (kills_in t) t s
      → IsRoomy F T room (kills_in s.temp) s.temp s
  held-IsRoomy {room} t s h = subst (λ u. IsRoomy F T room (kills_in u) u s) (sym h.held) h

  held-KillsRise :
      (t u : Bytes) (mutants : List (Bytes × Bytes × Observation))
      → u ≡ t
      → KillsRise t mutants
      → KillsRise u mutants
  held-KillsRise t u mutants e h = subst (λ x. KillsRise x mutants) (sym e) h

  next_mutant :
      (mv_dir : Bytes) (rest : List (Bytes × Bytes × Observation)) (room : ℕ) (t : Bytes)
      (m : Option (State F T))
      → Keeps F T room (kills_in t) t m
      → ((s : State F T)
          → IsRoomy F T room (kills_in t) t s
          → (s' : State F T) × (evaluate_mutants F T put_errors mv_dir rest s ≡ some s'))
      → (s' : State F T) × (elim m [
        | none ↦ none
        | some s ↦ evaluate_mutants F T put_errors mv_dir rest s
      ]
          ≡ some s')
  next_mutant mv_dir rest room t none h go = absurd h
  next_mutant mv_dir rest room t (some s) h go = go s h

  -- As long as temp_results.log can be read, gstats.c does not exit, there is room for as many survivors as there are mutants, and no evaluation lowers
  -- the number of kills in temp_results.log, the evaluation of all the mutants succeeds.
  pub evaluate_mutants-total :
      (mv_dir : Bytes) (mutants : List (Bytes × Bytes × Observation)) (s : State F T)
      → IsRoomy F T (length mutants) (kills_in s.temp) s.temp s
      → is_readable s.temp ≡ true
      → AllSound mutants
      → KillsRise s.temp mutants
      → (s' : State F T) × (evaluate_mutants F T put_errors mv_dir mutants s ≡ some s')
  unfolding evaluate_mutants
  evaluate_mutants-total mv_dir [] s h read sound rise = (s, refl)
  evaluate_mutants-total mv_dir ((str, file, ob) ∷ rest) s h read sound rise =
      next_mutant mv_dir rest (length rest) ob.temp_after
        (gen_results_fom F T put_errors str file mv_dir ob s)
        (gen_results_fom-Keeps str file mv_dir ob (length rest) s h read sound.0.0 sound.0.1 rise.0)
        (λ s' h'.
          evaluate_mutants-total mv_dir rest s' (held-IsRoomy ob.temp_after s' h')
            (ap is_readable h'.held ∙ sound.0.0.0) sound.1
            (held-KillsRise ob.temp_after s'.temp rest h'.held rise.1))
