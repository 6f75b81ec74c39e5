-- ===== src/Examples/Suite.antt =====
-- A suite of three tests of which the second fails, its report, and the theorems on them.
use memory_mutation_testing.Base.{
  ◌-ℤ◌, ◌++◌, ◌<◌, ◌≡◌, ◌≢◌, refl, true, false, Option, none, some, List, [], ◌∷◌, arith, pos,
  length,
}
use memory_mutation_testing.Base.Text.{codes, scan_int, atoi}
use memory_mutation_testing.Base.Decimal.{print_int}
use memory_mutation_testing.CuTest.Summary.{
  cu_suite_summary, cu_suite_details, append_failures, append_formats, cu_string_append_format,
}
use memory_mutation_testing.CuTest.Summary.Texts.{marks, cu_suite_summary_lem}
use memory_mutation_testing.CuTest.Text.{
  huge_string_len, CuString, cu_string_init, cu_string_append, cu_string_insert,
}
use memory_mutation_testing.CuTest.Text.Bounds.{
  IsTerminated, cu_string_init-IsTerminated, cu_string_append_lem, cu_string_insert_lem,
}
use memory_mutation_testing.CuTest.Assertion.{
  place_text, Assertion, Check, CuTest, cu_test_init, cu_test_run,
}
use memory_mutation_testing.CuTest.Assertion.Message.{
  first_failure, is_some, cu_test_run-first_failure,
}
use memory_mutation_testing.CuTest.Suite.{CuSuite, run_tests}
use memory_mutation_testing.CuTest.Report.{Reports, killed_ids, join_ids, buf_size, cu_suite_run}
use memory_mutation_testing.Controller.Results.{
  tokens, take_word, scan_second, scan_third, get_non_trivial_fom_stats,
}
use memory_mutation_testing.Controller.Results.RoundTrip.{news, stats-cu_suite_run}

pub fits_7 : length (place_text (codes "t.c") (pos 7)) < huge_string_len
unfolding print_int
fits_7 = omega arith

pub fits_9 : length (place_text (codes "t.c") (pos 9)) < huge_string_len
unfolding print_int
fits_9 = omega arith

pub fits_12 : length (place_text (codes "t.c") (pos 12)) < huge_string_len
unfolding print_int
fits_12 = omega arith

abbrev pub holds : Assertion
holds = record {
  file = codes "t.c";
  line = pos 7;
  check = Check.int_equals none (pos 3) (pos 3);
  fits = fits_7;
}

abbrev pub broken : Assertion
broken = record {
  file = codes "t.c";
  line = pos 9;
  check = Check.int_equals none (pos 3) (pos 4);
  fits = fits_9;
}

-- Two doubles that are too far apart.
abbrev far : Assertion
far = record {
  file = codes "t.c";
  line = pos 12;
  check =
      Check.dbl_equals (some (codes "pi")) false (codes "3.141593") (codes "3.000000")
        (omega arith);
  fits = fits_12;
}

cu_test_run-first_failure_example :
    ((cu_test_run (cu_test_init (codes "t") (holds ∷ far ∷ broken ∷ []))).message
      ≡ first_failure (holds ∷ far ∷ broken ∷ []))
    × ((cu_test_run (cu_test_init (codes "t") (holds ∷ far ∷ broken ∷ []))).failed
        ≡ is_some (first_failure (holds ∷ far ∷ broken ∷ [])))
cu_test_run-first_failure_example =
    cu_test_run-first_failure (codes "t") (holds ∷ far ∷ broken ∷ [])

far_said :
    first_failure (holds ∷ far ∷ broken ∷ [])
    ≡ some (codes "t.c:12: pi: expected <3.141593> but was <3.000000>")
unfolding print_int
far_said = refl

abbrev a_test : List Assertion → CuTest
a_test function = record {
  name = codes "t";
  function = function;
  failed = false;
  ran = false;
  message = none;
}

abbrev pub suite : CuSuite
suite = record {
  list = a_test [] ∷ a_test (holds ∷ broken ∷ holds ∷ []) ∷ a_test (holds ∷ []) ∷ [];
  fail_count = 0;
}

abbrev pub files : Reports
files = record { log = []; temp = codes "4 1 3 2" }

failure_message :
    (cu_test_run (a_test (holds ∷ broken ∷ holds ∷ []))).message
    ≡ some (codes "t.c:9: expected <3> but was <4>")
unfolding cu_test_run cu_string_insert cu_string_append cu_string_init print_int
failure_message = refl

read_stats :
    get_non_trivial_fom_stats (codes "12 3 40 1,22,37")
    ≡ record { kills = pos 12; failed = pos 3; total = pos 40; ids = pos 1 ∷ pos 22 ∷ pos 37 ∷ [] }
unfolding get_non_trivial_fom_stats scan_second scan_third scan_int tokens take_word atoi
read_stats = refl

pub one_failed : (run_tests suite).fail_count ≢ 0
unfolding run_tests
one_failed = ground arith

pub short_report : length (join_ids true (killed_ids 0 (run_tests suite).list)) < buf_size
unfolding run_tests killed_ids join_ids
short_report = omega arith

stats-cu_suite_run_example :
    (r : CuSuite × Reports) × (cu_suite_run (some (codes "true")) suite files ≡ some r)
    × (get_non_trivial_fom_stats r.1.temp ≡ news suite files)
stats-cu_suite_run_example = stats-cu_suite_run suite files one_failed short_report

cu_string_append_lem_example :
    IsTerminated (cu_string_append cu_string_init none)
    × ((cu_string_append cu_string_init none).buffer ≡ cu_string_init.buffer ++ codes "NULL")
cu_string_append_lem_example = cu_string_append_lem cu_string_init none cu_string_init-IsTerminated

cu_string_insert_lem_example :
    IsTerminated (cu_string_insert cu_string_init (codes "t.c:9: ") 3)
    × ((cu_string_insert cu_string_init (codes "t.c:9: ") 0).buffer
        ≡ codes "t.c:9: " ++ cu_string_init.buffer)
cu_string_insert_lem_example =
    cu_string_insert_lem cu_string_init (codes "t.c:9: ") 3 cu_string_init-IsTerminated

cu_suite_summary_lem_example :
    IsTerminated (cu_suite_summary (run_tests suite) cu_string_init)
    × ((cu_suite_summary (run_tests suite) cu_string_init).buffer
        ≡ (cu_string_init.buffer ++ marks (run_tests suite).list) ++ (10 ∷ 10 ∷ []))
cu_suite_summary_lem_example =
    cu_suite_summary_lem (run_tests suite) cu_string_init cu_string_init-IsTerminated

abbrev string_or : Option CuString → CuString
string_or none = cu_string_init
string_or (some str) = str

detailed :
    cu_suite_details (run_tests suite) cu_string_init
    ≡ some (string_or (cu_suite_details (run_tests suite) cu_string_init))
unfolding cu_suite_details run_tests append_failures append_formats cu_string_append_format
    print_int cu_string_insert cu_string_append cu_string_init ◌-ℤ◌
detailed = refl
