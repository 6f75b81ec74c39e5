-- ===== src/Cfg.antt =====
-- CFGEval.c: the deviation between the gcov branch counts of the program under test and of a mutant.
-- A file is the list of its lines, or `none` where `fopen` fails.
pub mod Deviation
use memory_mutation_testing.Base.{
  ℕ, ◌+◌, List, [], ◌∷◌, ◌++◌, map, Option, none, some, not, if◌then◌else◌, ◌==◌, ℤ, negsuc, eqb_ℤ,
  get_or,
}
use memory_mutation_testing.Base.Text.{Bytes, codes, skip_space, scan_int}
use memory_mutation_testing.Base.Double.{Double, zero_double, one_double, quotient}
use Prim.Native.String.{String}

-- What `sscanf` is asked to match: one byte, any white space, or `%d`.
pub data Directive : Type 0 where
  literal : ℕ → Directive
  blank : Directive
  number : Directive

abbrev word : String → List Directive
word s = map literal (codes s)

-- The numbers that are assigned before the first mismatch.
unfoldable pub sscanf : List Directive → Bytes → List ℤ
unfolding skip_space scan_int
sscanf [] s = []
sscanf (literal b ∷ ds) [] = []
sscanf (literal b ∷ ds) (c ∷ s) = if b == c then sscanf ds s else []
sscanf (blank ∷ ds) s = sscanf ds (skip_space s)
sscanf (number ∷ ds) s = elim (scan_int s) [ none ↦ [] | some (n, r) ↦ n ∷ sscanf ds r ]

-- "branch  %d taken %d"
abbrev branch_format : List Directive
branch_format =
    word "branch" ++ (blank ∷ blank ∷ number ∷ blank ∷ []) ++ word "taken" ++ (blank ∷ number ∷ [])

-- `taken_count` after a line: -1 for a branch that was never executed. The second `sscanf`, for
-- "never executed", sets only the number of the branch, which nothing reads.
unfoldable pub taken_count : Bytes → ℤ
unfolding sscanf
taken_count line = get_or (sscanf branch_format line) 1 (negsuc 0)

-- The loop over the two files, with `deviated_branches` and `total_branches` so far; `none` where
-- one file ends before the other.
unfoldable pub compare_lines : List Bytes → List Bytes → ℕ → ℕ → Option (ℕ × ℕ)
unfolding taken_count
compare_lines [] [] deviated total = some (deviated, total)
compare_lines [] (b ∷ bs) deviated total = none
compare_lines (a ∷ as') [] deviated total = none
compare_lines (a ∷ as') (b ∷ bs) deviated total =
    compare_lines as' bs
      (if not (eqb_ℤ (taken_count a) (taken_count b)) then deviated + 1 else deviated) (total + 1)

module _ (F : Double) where
  -- `deviated_branches / total_branches` after the loop.
  abbrev ratio : Option (ℕ × ℕ) → F.D
  ratio none = one_double F
  ratio (some (deviated, total)) = if total == 0 then zero_double F else quotient F deviated total

  unfoldable pub calculate_cfg_branch_deviation : Option (List Bytes) → Option (List Bytes) → F.D
  unfolding compare_lines
  calculate_cfg_branch_deviation none none = zero_double F
  calculate_cfg_branch_deviation none (some bs) = one_double F
  calculate_cfg_branch_deviation (some as') none = one_double F
  calculate_cfg_branch_deviation (some as') (some bs) = ratio (compare_lines as' bs 0 0)
