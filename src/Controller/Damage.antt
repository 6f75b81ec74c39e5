-- ===== src/Controller/Damage.antt =====
-- controller.c, lines 971 to 999: `calculate_average_damage`, over the table of statistics. `none` is
-- a division by zero on `int`, which stops the program.
pub mod Fault
use memory_mutation_testing.Base.{
  zero, suc, ◌/◌, Option, none, some, List, [], ◌∷◌, if◌then◌else◌, ℤ, pos, negsuc, ◌-ℤ◌,
}
use memory_mutation_testing.Base.Text.{Bytes}
use memory_mutation_testing.Base.Double.{Double, zero_double, is_zero}
use memory_mutation_testing.Gstats.Table.{Table}
use memory_mutation_testing.Controller.Mutants.{Mutant, FomResult}

-- `a / b` on `int`, which drops the fraction.
unfoldable pub div_int : ℤ → ℤ → Option ℤ
unfolding ◌-ℤ◌
div_int a (pos zero) = none
div_int (pos a) (pos (suc b)) = some (pos (a / suc b))
div_int (negsuc a) (pos (suc b)) = some (pos 0 -ℤ pos (suc a / suc b))
div_int (pos a) (negsuc b) = some (pos 0 -ℤ pos (a / suc b))
div_int (negsuc a) (negsuc b) = some (pos (suc a / suc b))

module _ (F : Double) (T : Table) where
  -- The statistics, and `average_damage` so far.
  abbrev pub Damages : Type 0
  Damages = T.Doc × F.D

  -- `m.damage*100` is added to the operator's `damage_raw`, as an `int`.
  unfoldable pub add_damage : Bytes → F.D → T.Doc → T.Doc
  add_damage code damage d = T.update d code "damage_raw" (
      F.truncate (F.add (F.of_int (T.get d code "damage_raw")) (F.mul damage (F.of_int (pos 100)))))

  -- The body of the two loops.
  unfoldable pub mutant_damage : ℤ → Mutant F → Damages → Option Damages
  mutant_damage total m (d, average) = elim m.valgrind_result [
    | none ↦ some (d, F.add average m.damage)
    | some v ↦ elim (div_int v.valgrind_error_count total) [
      | none ↦ none
      | some share ↦
          let damage = F.add m.damage (F.div (F.of_int share) (F.of_int (pos 3))) in
          some (add_damage m.mutation_code damage d, F.add average damage)
    ]
  ]

  unfoldable pub mutants_damage : ℤ → List (Mutant F) → Damages → Option Damages
  mutants_damage total [] acc = some acc
  mutants_damage total (m ∷ ms) acc = elim (mutant_damage total m acc) [
    | none ↦ none
    | some acc' ↦ mutants_damage total ms acc'
  ]

  -- The two loops, over the survivors and then over the non-trivial mutants.
  unfoldable pub all_damages : FomResult F → T.Doc → Option Damages
  all_damages r d = elim (mutants_damage r.total_valgrind_errors r.survived (d, zero_double F)) [
    | none ↦ none
    | some acc ↦ mutants_damage r.total_valgrind_errors r.non_trivial_foms acc
  ]

  abbrev pub average_of : FomResult F → Damages → Damages
  average_of r (d, sum) = (
    d,
    if is_zero F sum
        then zero_double F
        else F.div sum (F.of_int (pos r.total_mutants -ℤ pos r.failed_injection)),
  )

  unfoldable pub calculate_average_damage : FomResult F → T.Doc → Option Damages
  calculate_average_damage r d = elim (all_damages r d) [
    | none ↦ none
    | some acc ↦ some (average_of r acc)
  ]
