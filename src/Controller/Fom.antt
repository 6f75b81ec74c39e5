-- ===== src/Controller/Fom.antt =====
-- controller.c, lines 505 to 724: `genResultsFOM`, the evaluation of one first-order mutant. The log
-- is a list of entries; the diff that the verbose mode appends to it is left out. `none` is a write
-- past the end of one of the two arrays of mutants.
pub mod Counters
pub mod Accounts
use mathlib.Core.Option as Option
use Prim.Native.String.{String}
use memory_mutation_testing.Base.{
  ℕ, ◌+◌, ◌-◌, Bool, true, false, not, ◌&&◌, Option, none, some, [], ◌∷◌, ◌++◌, if◌then◌else◌, ◌==◌,
  ℤ, pos, ◌+ℤ◌, ◌-ℤ◌, ltb_ℤ, eqb_ℤ, length, take,
}
use memory_mutation_testing.Base.Text.{Bytes}
use memory_mutation_testing.Base.Double.{Double}
use memory_mutation_testing.Gstats.Table.{Table}
use memory_mutation_testing.Valgrind.{ValgrindResult}
use memory_mutation_testing.Controller.Results.{Stats}
use memory_mutation_testing.Controller.Mutants.{FomResult, Entry, valgrind_errors, State}

-- `strrchr`: the text before the last `c`.
unfoldable pub before_last : ℕ → Bytes → Option Bytes
before_last c [] = none
before_last c (x ∷ s) = elim (before_last c s) [
  | some r ↦ some (x ∷ r)
  | none ↦ if x == c then some [] else none
]

-- The code of the operator in a file name such as "ABS_12.c": what stands before the last
-- underscore, or else the name without its last two bytes.
unfoldable pub mutation_code_of : Bytes → Bytes
unfolding before_last
mutation_code_of str = elim (before_last b'_' str) [
  | some code ↦ code
  | none ↦ take (length str - 2) str
]

-- `valgrindResult!=NULL && valgrindResult->valgrind_error_count!=PUTValgrindErrors`
unfoldable pub memory_deviates : ℤ → Option ValgrindResult → Bool
memory_deviates put_errors none = false
memory_deviates put_errors (some v) = not (eqb_ℤ v.valgrind_error_count put_errors)

-- For a killed mutant the errors of the program under test are taken off, down to 0.
unfoldable pub new_errors_only : ℤ → ValgrindResult → ValgrindResult
new_errors_only put_errors v = record v {
  valgrind_error_count =
      if ltb_ℤ put_errors v.valgrind_error_count
      then v.valgrind_error_count -ℤ put_errors
      else pos 0;
}

-- `stats[1]>0 && stats[1]<stats[2]`: only some of the tests failed.
unfoldable pub is_non_trivial : Stats → Bool
is_non_trivial stats = ltb_ℤ (pos 0) stats.failed && ltb_ℤ stats.failed stats.total

unfoldable pub is_dumb : Stats → Bool
is_dumb stats = ltb_ℤ (pos 0) stats.failed && eqb_ℤ stats.failed stats.total

module _ (F : Double) (T : Table) where
  -- `create_update_gstat_mutation(code, key, get_gstat_value_mutation(code, key) + n)`
  unfoldable pub add_to : Bytes → String → ℤ → State F T → State F T
  add_to code key n s = record s { stats = T.update s.stats code key (T.get s.stats code key +ℤ n) }

  unfoldable pub bump : Bytes → String → State F T → State F T
  unfolding add_to
  bump code key s = add_to code key (pos 1) s

  abbrev pub on_result : (FomResult F → FomResult F) → State F T → State F T
  on_result f s = record s { result = f s.result }

  abbrev pub note : Entry F → State F T → State F T
  note e s = record s { log = s.log ++ (e ∷ []) }

  -- Lines 629 to 645: the damage that a killed mutant did, by memory errors and in the control flow.
  unfoldable pub classify_killed : Bytes → Bool → Bool → State F T → State F T
  classify_killed code true true s =
      bump code "killed_SD" (on_result (λ r. record r { killed_sd = r.killed_sd + 1 }) s)
  classify_killed code true false s = bump code "killed_WD_VE" (
      bump code "killed_WD" (
        on_result
          (λ r. record r {
            killed_wd = r.killed_wd + 1;
            killed_wd_caused_valgrind_errors = r.killed_wd_caused_valgrind_errors + 1;
          })
          s))
  classify_killed code false true s = bump code "killed_WD_CFD" (
      bump code "killed_WD" (
        on_result
          (λ r. record r {
            killed_wd = r.killed_wd + 1;
            killed_wd_caused_cfg_deviation = r.killed_wd_caused_cfg_deviation + 1;
          })
          s))
  classify_killed code false false s = s

  -- Lines 665 to 684: the same of a mutant that survived. The first test is of equivalence.
  unfoldable pub classify_survived : Bytes → Bool → Bool → Bool → State F T → State F T
  classify_survived code true memory cfg s =
      bump code "equivalent_mutants"
        (on_result (λ r. record r { equivalent_mutants = r.equivalent_mutants + 1 }) s)
  classify_survived code false true true s =
      bump code "survived_SD" (on_result (λ r. record r { survived_sd = r.survived_sd + 1 }) s)
  classify_survived code false true false s = bump code "survived_WD_VE" (
      bump code "survived_WD" (
        on_result
          (λ r. record r {
            survived_wd = r.survived_wd + 1;
            survived_wd_caused_valgrind_errors = r.survived_wd_caused_valgrind_errors + 1;
          })
          s))
  classify_survived code false false true s = bump code "survived_WD_CFD" (
      bump code "survived_WD" (
        on_result
          (λ r. record r {
            survived_wd = r.survived_wd + 1;
            survived_wd_caused_cfg_deviation = r.survived_wd_caused_cfg_deviation + 1;
          })
          s))
  classify_survived code false false false s = s

  -- `printValgrindResult`, and the total that is kept beside it.
  unfoldable pub count_errors : Bytes → Option ValgrindResult → State F T → State F T
  count_errors code none s = s
  count_errors code (some v) s = note (valgrind_errors v.valgrind_error_count) (
      add_to code "valgrind_errors_count" v.valgrind_error_count (
        on_result
          (λ r. record r {
            total_valgrind_errors = r.total_valgrind_errors +ℤ v.valgrind_error_count;
          })
          s))
