-- ===== src/Libcheck/Recorded.antt =====
-- What the engine reads of a report of libcheck.
use memory_mutation_testing.Base.{
  ℕ, zero, suc, ◌<◌, ◌≡◌, ◌≢◌, ◌∙◌, arith, true, some, Option, List, [], ◌∷◌, ◌++◌, length, take, ℤ,
  pos, negsuc, ◌+ℤ◌, Bool-cases, inl, inr,
}
use memory_mutation_testing.Base.Text.{codes, bytes_eq}
use memory_mutation_testing.CuTest.Report.{Reports, join_ids}
use memory_mutation_testing.Controller.Results.{Stats, get_non_trivial_fom_stats}
use memory_mutation_testing.Controller.Results.Tokens.{AllPositive}
use memory_mutation_testing.Controller.Results.RoundTrip.{stats-temp_text}
use memory_mutation_testing.Libcheck.{
  Element, SRunner, srunner_ntests_failed, srunner_ntests_run, is_recorded, killed_by_tests,
  is_terminated, printed_ids, conversions, new_num, text_size, record_killed,
  record_mutation_results, killed_text,
}

killed_by_tests-AllPositive :
    (j : ℕ) (es : List (Option Element)) → AllPositive (killed_by_tests j es)
unfolding killed_by_tests
killed_by_tests-AllPositive j [] = tt
killed_by_tests-AllPositive j (e ∷ es) = elim (Bool-cases (is_recorded e)) [
  | inl r ↦ rw (r, killed_by_tests) (killed_by_tests-AllPositive (suc j) es)
  | inr s ↦ rw (s, killed_by_tests) (killed_by_tests-AllPositive (suc j) es)
]

take-AllPositive : (n : ℕ) (ns : List ℤ) → AllPositive ns → AllPositive (take n ns)
take-AllPositive zero ns h = tt
take-AllPositive (suc n) [] h = tt
take-AllPositive (suc n) (pos zero ∷ ns) h = elim h [ ]
take-AllPositive (suc n) (negsuc k ∷ ns) h = elim h [ ]
take-AllPositive (suc n) (pos (suc k) ∷ ns) h = take-AllPositive n ns h

-- What the engine reads afterwards.
abbrev pub news : SRunner → Reports → Stats
news sr files = record {
  kills = conversions files.temp +ℤ pos 1;
  failed = pos (srunner_ntests_failed sr);
  total = pos (srunner_ntests_run sr);
  ids = printed_ids sr;
}

pub stats-new_num :
    (sr : SRunner) (files : Reports) → get_non_trivial_fom_stats (new_num sr files) ≡ news sr files
unfolding new_num
stats-new_num sr files = stats-temp_text _ _ _ (printed_ids sr) (
    take-AllPositive (srunner_ntests_run sr) (killed_by_tests 0 sr.slst)
      (killed_by_tests-AllPositive 0 sr.slst))

pub record_mutation_results-killed :
    (sr : SRunner) (files : Reports)
    → srunner_ntests_failed sr ≢ 0
    → record_mutation_results true (some (codes "true")) sr files ≡ record_killed sr files
unfolding record_mutation_results bytes_eq
record_mutation_results-killed sr files d = ground arith

record_killed-some :
    (sr : SRunner) (files : Reports)
    → length (printed_ids sr) ≢ 0
    → is_terminated (srunner_ntests_run sr) (length (killed_by_tests 0 sr.slst)) ≡ true
    → length (join_ids true (printed_ids sr)) < text_size
    → length (new_num sr files) < text_size
    → record_killed sr files
      ≡ some (record { log = files.log ++ killed_text sr; temp = new_num sr files })
unfolding record_killed
record_killed-some sr files w t b n = ground arith

-- When the paths are set, IS_MUTATE is "true" and some test failed, some element of the list is
-- recorded, the loop over the numbers ends where they were written, and both texts fit their
-- buffers, then the results are recorded, and the engine reads how many tests failed and ran, the
-- numbers of the elements that were recorded, up to the number of tests, and as the number of
-- kills one more than the conversions of `fscanf`, whatever number the file held.
pub stats-record_mutation_results :
    (sr : SRunner) (files : Reports)
    → srunner_ntests_failed sr ≢ 0
    → length (printed_ids sr) ≢ 0
    → is_terminated (srunner_ntests_run sr) (length (killed_by_tests 0 sr.slst)) ≡ true
    → length (join_ids true (printed_ids sr)) < text_size
    → length (new_num sr files) < text_size
    → (files' : Reports) × ((record_mutation_results true (some (codes "true")) sr files
          ≡ some files')
        × (get_non_trivial_fom_stats files'.temp ≡ news sr files))
stats-record_mutation_results sr files d w t b n = (
  _,
  (
    record_mutation_results-killed sr files d ∙ record_killed-some sr files w t b n,
    stats-new_num sr files,
  ),
)
