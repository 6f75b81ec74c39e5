-- ===== src/Examples/Damage.antt =====
-- A survivor with a Valgrind report of no errors.
use mathlib.Core.Logic.{◌↔◌}
use memory_mutation_testing.Base.{◌≡◌, true, ◌||◌, none, some, [], ◌∷◌, pos}
use memory_mutation_testing.Base.Text.{codes}
use memory_mutation_testing.Controller.Mutants.{Mutant, FomResult}
use memory_mutation_testing.Controller.Inject.{initial_result}
use memory_mutation_testing.Controller.Damage.{calculate_average_damage}
use memory_mutation_testing.Controller.Damage.Fault.{
  is_reported, calculate_average_damage-eq_none_iff,
}
use memory_mutation_testing.Examples.Fractions.{fractions}
use memory_mutation_testing.Examples.Memory.{memory}

abbrev survivor : Mutant fractions
survivor = record {
  mutation_code = codes "ABS";
  mutant_source_file = codes "m/ABS_12.c";
  fragility = none;
  killed_by_tests = none;
  killed_by_tests_count = none;
  valgrind_result = some (record {
    valgrind_errors = [];
    valgrind_error_count = pos 0;
    unique_valgrind_error_count = pos 0;
  });
  cfg_deviation = fractions.of_int (pos 0);
  damage = fractions.of_int (pos 1);
}

abbrev one_survivor : FomResult fractions
one_survivor = record (initial_result fractions memory) { survived = survivor ∷ [] }

calculate_average_damage-eq_none_iff_example :
    (calculate_average_damage fractions memory one_survivor ([], []) ≡ none) ↔ (
      (one_survivor.total_valgrind_errors ≡ pos 0)
      × ((is_reported one_survivor.survived || is_reported one_survivor.non_trivial_foms) ≡ true))
calculate_average_damage-eq_none_iff_example =
    calculate_average_damage-eq_none_iff fractions memory one_survivor ([], [])
