-- ===== src/Controller/Results/Bounds.antt =====
-- What `CuSuiteRun` writes to temp_results.log fits the arrays that it is read to.
use memory_mutation_testing.Base.{
  ℕ, zero, suc, ◌+◌, ◌*◌, ◌≤◌, ◌<◌, ◌≡◌, ◌≢◌, ◌+ℤ◌, refl, ◌∙◌, arith, true, List, ◌++◌, some, ltb,
  leb, ℤ, pos, pos_part, length, if◌then◌else◌,
}
use memory_mutation_testing.Base.Text.{Bytes, codes, bytes_eq, scan_int, skip_space}
use memory_mutation_testing.Base.Decimal.{scan_int-print_int}
use memory_mutation_testing.CuTest.Report.{
  Reports, join_ids, temp_text, killed_ids, killed_text, read_kill_count, buf_size, cu_suite_run,
}
use memory_mutation_testing.Controller.Results.{
  Stats, take_word, word_third, word_second, killed_word, killed_test_id_size, is_readable,
  grown_stats, stats_room, copies_within,
}
use memory_mutation_testing.Controller.Results.Tokens.{AllPositive}
use memory_mutation_testing.Controller.Results.RoundTrip.{
  scan_int-blank, word_of_ids, join_killed, killed_ids-AllPositive,
}
use memory_mutation_testing.Controller.Results.Failed.{length-killed_ids}
use memory_mutation_testing.CuTest.Suite.{CuSuite, run_tests, count_failed}

third_word :
    (s : Bytes) {c : ℤ} {r : Bytes}
    → scan_int s ≡ some (c, r)
    → word_third s ≡ take_word (skip_space r)
unfolding word_third
third_word s e = rw (e, word_third) refl

second_word :
    (s : Bytes) {f : ℤ} {r : Bytes} → scan_int s ≡ some (f, r) → word_second s ≡ word_third r
unfolding word_second
second_word s e = rw (e, word_second) refl

first_word :
    (s : Bytes) {k : ℤ} {r : Bytes} → scan_int s ≡ some (k, r) → killed_word s ≡ word_second r
unfolding killed_word
first_word s e = rw (e, killed_word) refl

killed_word-temp_text :
    (k f c : ℤ) (ns : List ℤ)
    → AllPositive ns
    → killed_word (temp_text k f c (join_ids true ns)) ≡ join_ids true ns
unfolding temp_text
killed_word-temp_text k f c ns h =
    first_word _ (scan_int-print_int k _ refl)
    ∙ second_word _ (scan_int-blank f _)
    ∙ third_word _ (scan_int-blank c (join_ids true ns))
    ∙ word_of_ids ns h

below : (a b : ℕ) → a < b → ltb a b ≡ true
below a b l = ground arith

-- Numbers that fit `killed_test_id` can be read.
pub is_readable-temp_text :
    (k f c : ℤ) (ns : List ℤ)
    → AllPositive ns
    → length (join_ids true ns) < killed_test_id_size
    → is_readable (temp_text k f c (join_ids true ns)) ≡ true
unfolding is_readable
is_readable-temp_text k f c ns h l = below _ _ (rw (killed_word-temp_text k f c ns h) l)

grown_twice :
    (counter lstats : ℕ)
    → counter ≤ lstats
    → 0 < lstats
    → (suc counter ≤ (if leb lstats counter then lstats * 2 else lstats))
      × (0 < (if leb lstats counter then lstats * 2 else lstats))
grown_twice counter lstats h l = (ground arith, ground arith)

grown_stats-holds :
    (n counter lstats : ℕ)
    → counter ≤ lstats
    → 0 < lstats
    → counter + n ≤ grown_stats n counter lstats
unfolding grown_stats
grown_stats-holds zero counter lstats h l = omega arith
grown_stats-holds (suc n) counter lstats h l =
    let (h', l') = grown_twice counter lstats h l in
    omega (
      arith,
      grown_stats-holds n (suc counter) (if leb lstats counter then lstats * 2 else lstats) h' l',
    )

within : (f m g : ℕ) → f ≤ m → 3 + m ≤ g + 3 → leb f g ≡ true
within f m g h l = ground arith

-- A file that has as many numbers as it says that tests failed is copied from within the array.
pub copies_within_lem :
    (stats : Stats) → pos_part stats.failed ≤ length stats.ids → copies_within stats ≡ true
unfolding copies_within stats_room
copies_within_lem stats h =
    within _ (length stats.ids) _ h
      (omega (arith, grown_stats-holds (length stats.ids) 3 20 (omega arith) (omega arith)))

-- What a suite with failed tests leaves can be read.
pub readable-cu_suite_run :
    (suite : CuSuite) (files : Reports)
    → (run_tests suite).fail_count ≢ 0
    → length (join_ids true (killed_ids 0 (run_tests suite).list)) < buf_size
    → (r : CuSuite × Reports) × (cu_suite_run (some (codes "true")) suite files ≡ some r)
      × (is_readable r.1.temp ≡ true)
unfolding cu_suite_run bytes_eq
readable-cu_suite_run suite files some_failed fits = (
  (
    run_tests suite,
    record {
      log = files.log ++ killed_text (run_tests suite);
      temp =
          temp_text (read_kill_count files.temp +ℤ pos 1)
            (pos (count_failed (run_tests suite).list)) (pos (length (run_tests suite).list))
            (join_ids true (killed_ids 0 (run_tests suite).list));
    },
  ),
  rw (join_killed (run_tests suite).list) (ground arith),
  is_readable-temp_text _ _ _ _ (killed_ids-AllPositive 0 (run_tests suite).list) fits,
)

-- It lists as many numbers as it counts failed tests.
pub all_listed :
    (j : ℕ) (suite : CuSuite)
    → count_failed (run_tests suite).list ≤ length (killed_ids j (run_tests suite).list)
all_listed j suite = rw (length-killed_ids j (run_tests suite).list) (omega arith)
