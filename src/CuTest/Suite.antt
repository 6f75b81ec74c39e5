-- ===== src/CuTest/Suite.antt =====
-- CuTest/CuTest.forked.c, lines 247 to 312: a suite of tests, at most `MAX_TEST_CASES` of them.
use memory_mutation_testing.Base.{
  ℕ, ◌+◌, List, [], ◌∷◌, ◌++◌, map, Option, none, some, if◌then◌else◌, ltb, length,
}
use memory_mutation_testing.CuTest.Assertion.{CuTest, cu_test_run}

abbrev pub max_test_cases : ℕ
max_test_cases = 1024

-- `count` is the length of `list`.
pub record CuSuite : Type 0 where
  pub list : List CuTest
  pub fail_count : ℕ

unfoldable pub cu_suite_init : CuSuite
cu_suite_init = record { list = []; fail_count = 0 }

-- `none` where the `assert` stops the program.
unfoldable pub cu_suite_add : CuSuite → CuTest → Option CuSuite
cu_suite_add suite test =
    if ltb (length suite.list) max_test_cases
    then some (record suite { list = suite.list ++ (test ∷ []) })
    else none

unfoldable pub add_all : CuSuite → List CuTest → Option CuSuite
unfolding cu_suite_add
add_all suite [] = some suite
add_all suite (test ∷ rest) = elim (cu_suite_add suite test) [
  | none ↦ none
  | some larger ↦ add_all larger rest
]

unfoldable pub cu_suite_add_suite : CuSuite → CuSuite → Option CuSuite
unfolding add_all
cu_suite_add_suite suite other = add_all suite other.list

-- The number of tests that are marked as failed.
unfoldable pub count_failed : List CuTest → ℕ
count_failed [] = 0
count_failed (t ∷ ts) = let rest = count_failed ts in if t.failed then rest + 1 else rest

-- The first loop of `CuSuiteRun`: every test is run, and the failed ones are counted.
unfoldable pub run_tests : CuSuite → CuSuite
unfolding count_failed cu_test_run
run_tests suite =
    let ran = map cu_test_run suite.list in
    record { list = ran; fail_count = suite.fail_count + count_failed ran }
