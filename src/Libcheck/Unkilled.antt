-- ===== src/Libcheck/Unkilled.antt =====
-- The number of kills in temp_results.log where the tests are written for libcheck.
pub mod Sequence
pub mod Directory
use mathlib.Core.Path.{subst}
use mathlib.Core.Option.{some-injective}
use mathlib.Core.Option as Option
use memory_mutation_testing.Base.{
  ◌≡◌, ◌⊎◌, refl, sym, ap, ◌∙◌, arith, Bool, true, false, some, none, Option, ◌∷◌, ◌++◌, ◌==◌, ℤ,
  pos, ◌+ℤ◌, ◌-ℤ◌, eqb_ℤ, Bool-cases, inl, inr,
}
use memory_mutation_testing.Base.Decimal.{leads, print_int, scan_int-print_int}
use memory_mutation_testing.Base.Text.{Bytes, codes, bytes_eq, scan_int}
use memory_mutation_testing.CuTest.Report.{Reports, temp_text, join_ids}
use memory_mutation_testing.Controller.Results.{get_non_trivial_fom_stats, scan_second}
use memory_mutation_testing.Controller.Evaluate.Capacity.{kills_in}
use memory_mutation_testing.Libcheck.{
  SRunner, srunner_ntests_failed, srunner_ntests_run, conversions, printed_ids, new_num,
  record_killed, record_mutation_results, srunner_free,
}
use memory_mutation_testing.Libcheck.Recorded.{stats-new_num}

-- Any runs of suites that report through libcheck, and what they do to the files.
pub data Runs : Reports → Reports → Type 0 where
  done : {files : Reports} → Runs files files
  run :
      {files files' files'' : Reports} (has_paths : Bool) (is_mutate : Option Bytes)
      (sr : Option SRunner)
      → srunner_free has_paths is_mutate sr files ≡ some files'
      → Runs files' files''
      → Runs files files''

-- The file holds a number, which is 0 or 2.
abbrev pub IsSettled : Bytes → Type 0
IsSettled t = (conversions t ≡ pos 1) × ((kills_in t ≡ pos 0) ⊎ (kills_in t ≡ pos 2))

conversions-print_int :
    (n : ℤ) (rest : Bytes) → leads rest ≡ false → conversions (print_int n ++ rest) ≡ pos 1
unfolding conversions
conversions-print_int n rest h = rw (scan_int-print_int n rest h, conversions) refl

conversions-temp_text : (k f c : ℤ) (ids : Bytes) → conversions (temp_text k f c ids) ≡ pos 1
unfolding temp_text
conversions-temp_text k f c ids =
    conversions-print_int k (b' ' ∷ (print_int f ++ (b' ' ∷ (print_int c ++ (b' ' ∷ ids))))) refl

conversions-new_num : (sr : SRunner) (files : Reports) → conversions (new_num sr files) ≡ pos 1
unfolding new_num
conversions-new_num sr files =
    conversions-temp_text (conversions files.temp +ℤ pos 1) (pos (srunner_ntests_failed sr))
      (pos (srunner_ntests_run sr)) (join_ids true (printed_ids sr))

-- Where a number could be read, the next one is 2.
new_num-IsSettled :
    (sr : SRunner) (files : Reports) → IsSettled files.temp → IsSettled (new_num sr files)
unfolding ◌+ℤ◌
new_num-IsSettled sr files h = (
  conversions-new_num sr files,
  inr (ap (λ x. x.kills) (stats-new_num sr files) ∙ ap (λ k. k +ℤ pos 1) h.0),
)

record_killed-temp :
    (sr : SRunner) (files files' : Reports)
    → record_killed sr files ≡ some files'
    → files'.temp ≡ new_num sr files
unfolding record_killed
record_killed-temp sr files files' e = ground arith

-- The file is left as it is, or written anew.
record_mutation_results-temp :
    (has_paths : Bool) (is_mutate : Option Bytes) (sr : SRunner) (files files' : Reports)
    → record_mutation_results has_paths is_mutate sr files ≡ some files'
    → (files'.temp ≡ files.temp) ⊎ (files'.temp ≡ new_num sr files)
unfolding record_mutation_results
record_mutation_results-temp false is_mutate sr files files' e =
    inl (ap (λ f. f.temp) (sym (some-injective _ _ e)))
record_mutation_results-temp true none sr files files' e = cc
record_mutation_results-temp true (some m) sr files files' e =
    elim (Bool-cases (bytes_eq m (codes "true"))) [
      | inr other ↦
          inl
            (ap (λ f. f.temp) (sym (some-injective _ _ (rw (other, record_mutation_results) at e))))
      | inl set ↦ elim (Bool-cases (srunner_ntests_failed sr == 0)) [
        | inl passed ↦ inl (
            ap (λ f. f.temp)
              (sym (some-injective _ _ (rw (set, passed, record_mutation_results) at e))))
        | inr failed ↦
            inr
              (record_killed-temp sr files files' (rw (set, failed, record_mutation_results) at e))
      ]
    ]

srunner_free-IsSettled :
    (has_paths : Bool) (is_mutate : Option Bytes) (sr : Option SRunner) (files files' : Reports)
    → srunner_free has_paths is_mutate sr files ≡ some files'
    → IsSettled files.temp
    → IsSettled files'.temp
unfolding srunner_free
srunner_free-IsSettled has_paths is_mutate none files files' e h =
    subst (λ f. IsSettled f.temp) (some-injective _ _ e) h
srunner_free-IsSettled has_paths is_mutate (some sr) files files' e h =
    elim (record_mutation_results-temp has_paths is_mutate sr files files' e) [
      | inl left ↦ subst IsSettled (sym left) h
      | inr written ↦ subst IsSettled (sym written) (new_num-IsSettled sr files h)
    ]

pub Runs-IsSettled :
    {files files' : Reports} → Runs files files' → IsSettled files.temp → IsSettled files'.temp
Runs-IsSettled done h = h
Runs-IsSettled (run has_paths is_mutate sr e rest) h =
    Runs-IsSettled rest (srunner_free-IsSettled has_paths is_mutate sr _ _ e h)

-- The engine never finds one more kill than before.
pub never_one_more :
    (t t' : Bytes) → IsSettled t → IsSettled t' → eqb_ℤ (kills_in t' -ℤ kills_in t) (pos 1) ≡ false
unfolding ◌-ℤ◌
never_one_more t t' (_, inl a) (_, inl b) = rw (a, b) refl
never_one_more t t' (_, inl a) (_, inr b) = rw (a, b) refl
never_one_more t t' (_, inr a) (_, inl b) = rw (a, b) refl
never_one_more t t' (_, inr a) (_, inr b) = rw (a, b) refl

-- The file as the engine leaves it before the first mutant.
pub zero-IsSettled : IsSettled (codes "0")
unfolding conversions scan_int get_non_trivial_fom_stats scan_second
zero-IsSettled = (refl, inl refl)
