-- ===== src/Controller/Source/Balance.antt =====
-- The ends of the processing of a source file keep the statistics of each operator balanced.
use Prim.Native.String.{String}
use memory_mutation_testing.Base.{refl, some, List, [], ◌∷◌, ℤ, pos, Option-cases, inl, inr}
use memory_mutation_testing.Base.Text.{Bytes}
use memory_mutation_testing.Base.Double.{Double, zero_double}
use memory_mutation_testing.Gstats.Table.{Table, IsRaw}
use memory_mutation_testing.Controller.Mutants.{Mutant, FomResult}
use memory_mutation_testing.Controller.Fom.Accounts.{IsBalanced, neutral_update}
use memory_mutation_testing.Controller.Fom.Accounts.Neutral.{damage_raw-IsNeutral}
use memory_mutation_testing.Controller.Evaluate.After.{After, After-bind}
use memory_mutation_testing.Controller.Damage.{
  Damages, div_int, add_damage, mutant_damage, mutants_damage, all_damages,
  calculate_average_damage, average_of,
}

generated_mutants-IsRaw : IsRaw "generated_mutants"
generated_mutants-IsRaw = record {
  damage = refl;
  fragilty = refl;
  average = refl;
  infectiveness = refl;
  valgrind = refl;
  cfd = refl;
}

failed_injection-IsRaw : IsRaw "failed_injection"
failed_injection-IsRaw = record {
  damage = refl;
  fragilty = refl;
  average = refl;
  infectiveness = refl;
  valgrind = refl;
  cfd = refl;
}

killed_by_tests-IsRaw : IsRaw "killed_by_tests"
killed_by_tests-IsRaw = record {
  damage = refl;
  fragilty = refl;
  average = refl;
  infectiveness = refl;
  valgrind = refl;
  cfd = refl;
}

equivalent_mutants-IsRaw : IsRaw "equivalent_mutants"
equivalent_mutants-IsRaw = record {
  damage = refl;
  fragilty = refl;
  average = refl;
  infectiveness = refl;
  valgrind = refl;
  cfd = refl;
}

survived_sd-IsRaw : IsRaw "survived_SD"
survived_sd-IsRaw = record {
  damage = refl;
  fragilty = refl;
  average = refl;
  infectiveness = refl;
  valgrind = refl;
  cfd = refl;
}

survived_wd-IsRaw : IsRaw "survived_WD"
survived_wd-IsRaw = record {
  damage = refl;
  fragilty = refl;
  average = refl;
  infectiveness = refl;
  valgrind = refl;
  cfd = refl;
}

module _ (F : Double) (T : Table) (c : Bytes) where
  pub derive-IsBalanced :
      (d : T.Doc) → IsBalanced T d c (pos 0) → IsBalanced T (T.derive d) c (pos 0)
  derive-IsBalanced d h =
      rw
        (
          T.get-derive d c "generated_mutants" generated_mutants-IsRaw,
          T.get-derive d c "failed_injection" failed_injection-IsRaw,
          T.get-derive d c "killed_by_tests" killed_by_tests-IsRaw,
          T.get-derive d c "equivalent_mutants" equivalent_mutants-IsRaw,
          T.get-derive d c "survived_SD" survived_sd-IsRaw,
          T.get-derive d c "survived_WD" survived_wd-IsRaw,
        )
        h

  pub aggregate-IsBalanced :
      (d : T.Doc) (key : String) (v : ℤ)
      → IsBalanced T d c (pos 0)
      → IsBalanced T (T.update_aggregate d key v) c (pos 0)
  aggregate-IsBalanced d key v h =
      rw
        (
          T.get-update_aggregate d key v c "generated_mutants",
          T.get-update_aggregate d key v c "failed_injection",
          T.get-update_aggregate d key v c "killed_by_tests",
          T.get-update_aggregate d key v c "equivalent_mutants",
          T.get-update_aggregate d key v c "survived_SD",
          T.get-update_aggregate d key v c "survived_WD",
        )
        h

  -- The accounts in the first part of the damages.
  abbrev pub Even : Damages F T → Type 0
  Even acc = IsBalanced T acc.0 c (pos 0)

  mutant_damage-After :
      (total : ℤ) (m : Mutant F) (acc : Damages F T)
      → Even acc
      → After Even (mutant_damage F T total m acc)
  unfolding mutant_damage add_damage
  mutant_damage-After total m (d, average) h = elim (Option-cases m.valgrind_result) [
    | inl e ↦ rw (e, mutant_damage) h
    | inr (v, e) ↦ elim (Option-cases (div_int v.valgrind_error_count total)) [
      | inl zero_total ↦ rw (e, mutant_damage) (rw zero_total tt)
      | inr (q, divided) ↦
          rw (e, mutant_damage)
            (rw divided
              (neutral_update T d m.mutation_code "damage_raw" _ c (pos 0) damage_raw-IsNeutral h))
    ]
  ]

  mutants_damage-After :
      (total : ℤ) (ms : List (Mutant F)) (acc : Damages F T)
      → Even acc
      → After Even (mutants_damage F T total ms acc)
  unfolding mutants_damage
  mutants_damage-After total [] acc h = h
  mutants_damage-After total (m ∷ ms) acc h =
      After-bind Even Even (mutant_damage F T total m acc) (mutants_damage F T total ms)
        (λ acc' h'. mutants_damage-After total ms acc' h') (mutant_damage-After total m acc h)

  pub calculate_average_damage-After :
      (r : FomResult F) (d : T.Doc)
      → IsBalanced T d c (pos 0)
      → After Even (calculate_average_damage F T r d)
  unfolding calculate_average_damage all_damages
  calculate_average_damage-After r d h =
      After-bind Even Even (all_damages F T r d) (λ acc. some (average_of F T r acc)) (λ acc h'. h')
        (After-bind Even Even
          (mutants_damage F T r.total_valgrind_errors r.survived (d, zero_double F))
          (mutants_damage F T r.total_valgrind_errors r.non_trivial_foms)
          (λ acc h'. mutants_damage-After r.total_valgrind_errors r.non_trivial_foms acc h')
          (mutants_damage-After r.total_valgrind_errors r.survived (d, zero_double F) h))
