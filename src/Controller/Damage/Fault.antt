-- ===== src/Controller/Damage/Fault.antt =====
-- When the damage divides by zero.
use mathlib.Core.Logic.{◌↔◌}
use memory_mutation_testing.Base.{
  zero, suc, ◌≡◌, ◌≢◌, refl, Bool, true, false, ◌||◌, none, some, List, [], ◌∷◌, Bool-cases,
  Option-cases, inl, inr, ℤ, pos, negsuc, ◌⊎◌, eqb_ℤ, eqb_ℤ→eq, eqb_ℤ-self,
}
use memory_mutation_testing.Base.Double.{Double, zero_double}
use memory_mutation_testing.Gstats.Table.{Table}
use memory_mutation_testing.Valgrind.{ValgrindResult}
use memory_mutation_testing.Controller.Mutants.{Mutant, FomResult}
use memory_mutation_testing.Controller.Damage.{
  Damages, div_int, mutant_damage, mutants_damage, all_damages, calculate_average_damage,
}

-- Whether Valgrind gave a result for one of the mutants.
abbrev pub is_reported : {F : Double} → List (Mutant F) → Bool
is_reported [] = false
is_reported (m ∷ ms) = elim m.valgrind_result [ none ↦ is_reported ms | some v ↦ true ]

div_int_zero : (a : ℤ) → div_int a (pos 0) ≡ none
unfolding div_int
div_int_zero (pos a) = refl
div_int_zero (negsuc a) = refl

div_int_nonzero : (a b : ℤ) → b ≢ pos 0 → (q : ℤ) × (div_int a b ≡ some q)
unfolding div_int
div_int_nonzero a (pos zero) h = absurd (h refl)
div_int_nonzero (pos a) (pos (suc b)) h = (_, refl)
div_int_nonzero (negsuc a) (pos (suc b)) h = (_, refl)
div_int_nonzero (pos a) (negsuc b) h = (_, refl)
div_int_nonzero (negsuc a) (negsuc b) h = (_, refl)

module _ (F : Double) (T : Table) where
  -- Without a report the total does not matter; else it must not be zero.
  mutant_damage-some :
      (total : ℤ) (m : Mutant F) (acc : Damages F T)
      → (total ≢ pos 0) ⊎ (m.valgrind_result ≡ none)
      → (acc' : Damages F T) × (mutant_damage F T total m acc ≡ some acc')
  unfolding mutant_damage
  mutant_damage-some total m (d, average) (inl h) = elim (Option-cases m.valgrind_result) [
    | inl e ↦ rw (e, mutant_damage) (_, refl)
    | inr (v, e) ↦
        let (q, divided) = div_int_nonzero v.valgrind_error_count total h in
        rw (e, mutant_damage) (rw divided (_, refl))
  ]
  mutant_damage-some total m (d, average) (inr e) = rw (e, mutant_damage) (_, refl)

  mutant_damage-none :
      (m : Mutant F) (v : ValgrindResult) (acc : Damages F T)
      → m.valgrind_result ≡ some v
      → mutant_damage F T (pos 0) m acc ≡ none
  unfolding mutant_damage
  mutant_damage-none m v (d, average) e =
      rw (e, mutant_damage) (rw (div_int_zero v.valgrind_error_count) refl)

  unreported :
      (m : Mutant F) (ms : List (Mutant F))
      → is_reported (m ∷ ms) ≡ false
      → (m.valgrind_result ≡ none) × (is_reported ms ≡ false)
  unreported m ms h = elim (Option-cases m.valgrind_result) [
    | inl e ↦ (e, rw e at h)
    | inr (v, e) ↦ absurd (cc (rw e at h))
  ]

  mutants_damage-some :
      (total : ℤ) (ms : List (Mutant F)) (acc : Damages F T)
      → (total ≢ pos 0) ⊎ (is_reported ms ≡ false)
      → (acc' : Damages F T) × (mutants_damage F T total ms acc ≡ some acc')
  unfolding mutants_damage
  mutants_damage-some total [] acc h = (acc, refl)
  mutants_damage-some total (m ∷ ms) acc (inl h) =
      let (acc', e) = mutant_damage-some total m acc (inl h) in
      rw (e, mutants_damage) (mutants_damage-some total ms acc' (inl h))
  mutants_damage-some total (m ∷ ms) acc (inr h) =
      let (acc', e) = mutant_damage-some total m acc (inr (unreported m ms h).0) in
      rw (e, mutants_damage) (mutants_damage-some total ms acc' (inr (unreported m ms h).1))

  mutants_damage-none :
      (ms : List (Mutant F)) (acc : Damages F T)
      → is_reported ms ≡ true
      → mutants_damage F T (pos 0) ms acc ≡ none
  unfolding mutants_damage
  mutants_damage-none [] acc h = cc
  mutants_damage-none (m ∷ ms) acc h = elim (Option-cases m.valgrind_result) [
    | inl e ↦
        let (acc', done) = mutant_damage-some (pos 0) m acc (inr e) in
        rw (done, mutants_damage) (mutants_damage-none ms acc' (rw e at h))
    | inr (v, e) ↦ rw (mutant_damage-none m v acc e, mutants_damage) refl
  ]

  abbrev any_reported : FomResult F → Bool
  any_reported r = is_reported r.survived || is_reported r.non_trivial_foms

  or_false : (a b : Bool) → (a || b) ≡ false → (a ≡ false) × (b ≡ false)
  or_false true b h = cc
  or_false false b h = (refl, h)

  both :
      (r : FomResult F)
      → (r.total_valgrind_errors ≢ pos 0) ⊎ (any_reported r ≡ false)
      → ((r.total_valgrind_errors ≢ pos 0) ⊎ (is_reported r.survived ≡ false))
        × ((r.total_valgrind_errors ≢ pos 0) ⊎ (is_reported r.non_trivial_foms ≡ false))
  both r (inl h) = (inl h, inl h)
  both r (inr h) = let parts = or_false _ _ h in (inr parts.0, inr parts.1)

  calculate_average_damage-some :
      (r : FomResult F) (d : T.Doc)
      → (r.total_valgrind_errors ≢ pos 0) ⊎ (any_reported r ≡ false)
      → (res : Damages F T) × (calculate_average_damage F T r d ≡ some res)
  unfolding calculate_average_damage all_damages
  calculate_average_damage-some r d h =
      let (acc, e) =
        mutants_damage-some r.total_valgrind_errors r.survived (d, zero_double F) (both r h).0 in
      let (acc', e') =
        mutants_damage-some r.total_valgrind_errors r.non_trivial_foms acc (both r h).1 in
      rw (e, calculate_average_damage, all_damages) (rw e' (_, refl))

  calculate_average_damage-none :
      (r : FomResult F) (d : T.Doc)
      → r.total_valgrind_errors ≡ pos 0
      → any_reported r ≡ true
      → calculate_average_damage F T r d ≡ none
  unfolding calculate_average_damage all_damages
  calculate_average_damage-none r d zero_total h = elim (Bool-cases (is_reported r.survived)) [
    | inl e ↦
        rw (zero_total, calculate_average_damage, all_damages)
          (rw (mutants_damage-none r.survived (d, zero_double F) e) refl)
    | inr e ↦
        let (acc, done) = mutants_damage-some (pos 0) r.survived (d, zero_double F) (inr e) in
        rw (zero_total, calculate_average_damage, all_damages)
          (rw (done, zero_total, mutants_damage-none r.non_trivial_foms acc (rw e at h)) refl)
  ]

  -- The average damage of a source file stops the program with a division by zero exactly when the
  -- total of Valgrind errors is zero and Valgrind gave a result for one of its survivors or
  -- non-trivial mutants.
  pub calculate_average_damage-eq_none_iff :
      (r : FomResult F) (d : T.Doc)
      → (calculate_average_damage F T r d ≡ none) ↔ (
          (r.total_valgrind_errors ≡ pos 0)
          × ((is_reported r.survived || is_reported r.non_trivial_foms) ≡ true))
  calculate_average_damage-eq_none_iff r d = (
    λ fault. elim (Bool-cases (eqb_ℤ r.total_valgrind_errors (pos 0))) [
      | inl e ↦ elim (Bool-cases (any_reported r)) [
        | inl reported ↦ (eqb_ℤ→eq _ _ e, reported)
        | inr quiet ↦ absurd (cc (fault, (calculate_average_damage-some r d (inr quiet)).1))
      ]
      | inr e ↦
          let (res, done) =
            calculate_average_damage-some r d
              (inl (λ zero_total. cc (e, eqb_ℤ-self (pos 0), zero_total))) in
          absurd (cc (fault, done))
    ],
    λ h. calculate_average_damage-none r d h.0 h.1,
  )
