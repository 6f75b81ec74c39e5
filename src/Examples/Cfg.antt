-- ===== src/Examples/Cfg.antt =====
-- gcov branch files, and the theorems on their deviation.
use mathlib.Core.Logic.{◌↔◌}
use memory_mutation_testing.Base.{◌≡◌, refl, true, none, some, List, [], ◌∷◌, map, pos, negsuc}
use memory_mutation_testing.Base.Text.{Bytes, codes}
use memory_mutation_testing.Base.Double.{quotient, is_zero}
use memory_mutation_testing.Cfg.{taken_count, compare_lines, calculate_cfg_branch_deviation}
use memory_mutation_testing.Cfg.Deviation.{mismatches, deviation-eq-quotient, deviation_zero_iff}
use memory_mutation_testing.Examples.Fractions.{fractions, fractions-IsExact}

abbrev half_taken : Bytes
half_taken = codes "branch  0 taken 50%"

abbrev never_executed : Bytes
never_executed = codes "branch  1 never executed"

abbrev put_file : List Bytes
put_file = half_taken ∷ never_executed ∷ []

abbrev mutant_file : List Bytes
mutant_file = codes "branch  0 taken 25%" ∷ never_executed ∷ []

counts : map taken_count put_file ≡ pos 50 ∷ negsuc 0 ∷ []
unfolding taken_count
counts = refl

one_deviates : compare_lines put_file mutant_file 0 0 ≡ some (1, 2)
unfolding compare_lines
one_deviates = refl

shorter_file : compare_lines put_file (half_taken ∷ []) 0 0 ≡ none
unfolding compare_lines
shorter_file = refl

deviation-eq-quotient_example :
    calculate_cfg_branch_deviation fractions (some put_file) (some mutant_file)
    ≡ quotient fractions (mismatches (map taken_count put_file) (map taken_count mutant_file)) 2
deviation-eq-quotient_example =
    deviation-eq-quotient fractions half_taken (never_executed ∷ []) mutant_file refl

deviation_zero_iff_example :
    (is_zero fractions (calculate_cfg_branch_deviation fractions (some put_file) (some mutant_file))
      ≡ true)
    ↔ (map taken_count put_file ≡ map taken_count mutant_file)
deviation_zero_iff_example = deviation_zero_iff fractions fractions-IsExact put_file mutant_file
