-- ===== src/Libcheck.antt =====
-- libcheck/src/check.c, lines 314 to 405: `record_mutation_results`, which the engine's copy of
-- libcheck has in addition, and its call in `srunner_free`. The rest of libcheck is a parameter: a
-- runner with its counts, and what is read of the elements of its list. The two files are those of
-- CuTest/Report.antt, and temp_results.log is there.
pub mod Recorded
pub mod Unkilled
use memory_mutation_testing.Base.{
  ℕ, suc, ◌+◌, ◌==◌, ltb, leb, Bool, true, false, not, ◌&&◌, ◌||◌, Option, none, some, List, [],
  ◌∷◌, ◌++◌, length, take, ℤ, pos, negsuc, ◌+ℤ◌, eqb_ℤ, if◌then◌else◌,
}
use memory_mutation_testing.Base.Text.{Bytes, codes, bytes_eq, skip_space, scan_int}
use memory_mutation_testing.Base.Decimal.{print_int}
use memory_mutation_testing.CuTest.Report.{Reports, join_ids, survived_text, temp_text}

-- What the loop reads of an element as a `TestResult`. The list is that of the suites, which are
-- smaller: `rtype` is a part of the pointer to the name.
pub record Element : Type 0 where
  pub rtype : ℤ
  pub tcname : Option Bytes
  pub tname : Option Bytes
  pub msg : Option Bytes

-- `slst`, where `none` is a null pointer, and `stats`.
pub record SRunner : Type 0 where
  pub slst : List (Option Element)
  pub n_checked : ℕ
  pub n_failed : ℕ
  pub n_errors : ℕ

abbrev pub srunner_ntests_failed : SRunner → ℕ
srunner_ntests_failed sr = sr.n_failed + sr.n_errors

abbrev pub srunner_ntests_run : SRunner → ℕ
srunner_ntests_run sr = sr.n_checked

-- `tr!=NULL && tr->rtype != CK_PASS`, where CK_PASS is 0.
abbrev pub is_recorded : Option Element → Bool
is_recorded none = false
is_recorded (some tr) = not (eqb_ℤ tr.rtype (pos 0))

-- `killed_by_tests`, for the elements from `test_counter` on.
unfoldable pub killed_by_tests : ℕ → List (Option Element) → List ℤ
killed_by_tests test_counter [] = []
killed_by_tests test_counter (tr ∷ rest) =
    let more = killed_by_tests (suc test_counter) rest in
    if is_recorded tr then pos (suc test_counter) ∷ more else more

abbrev pub text_or_empty : Option Bytes → Bytes
text_or_empty none = []
text_or_empty (some s) = s

-- "%d) %s %s: %s\n", with `k+1` when `k` is already counted up.
abbrev pub failure_line : ℕ → Element → Bytes
failure_line k tr =
    print_int (pos (suc k))
    ++ (codes ") "
        ++ (text_or_empty tr.tcname
            ++ (b' '
                ∷ (text_or_empty tr.tname ++ (codes ": " ++ (text_or_empty tr.msg ++ (10 ∷ [])))))))

unfoldable pub failure_lines : ℕ → List (Option Element) → Bytes
unfolding print_int
failure_lines k [] = []
failure_lines k (none ∷ rest) = failure_lines k rest
failure_lines k (some tr ∷ rest) = elim (eqb_ℤ tr.rtype (pos 0)) [
  | true ↦ failure_lines k rest
  | false ↦ failure_line (suc k) tr ++ failure_lines (suc k) rest
]

unfoldable pub killed_text : SRunner → Bytes
unfolding failure_lines print_int
killed_text sr =
    codes "status: (killed)"
    ++ (10
        ∷ (codes "description: ("
            ++ (print_int (pos (srunner_ntests_failed sr))
                ++ (codes ") of ("
                    ++ (print_int (pos (srunner_ntests_run sr))
                        ++ (codes ") tests failed:" ++ (10 ∷ failure_lines 0 sr.slst)))))))

-- The size of `killed_by_tests` at first, when all of it is 0.
abbrev pub killed_by_tests_size : ℕ
killed_by_tests_size = 25

-- Whether the loop that prints the numbers stops before it reads what was never written: at the
-- number of tests, or at a zero, which is there as long as the array was not filled.
abbrev pub is_terminated : ℕ → ℕ → Bool
is_terminated tests_run k = leb tests_run k || ltb k killed_by_tests_size

-- The numbers that are printed.
abbrev pub printed_ids : SRunner → List ℤ
printed_ids sr = take (srunner_ntests_run sr) (killed_by_tests 0 sr.slst)

-- What `fscanf(tmp_results, "%d", …)` returns: how many conversions there were, or EOF. It is
-- assigned to `mutant_kill_count`, over the number that was read.
unfoldable pub conversions : Bytes → ℤ
unfolding scan_int skip_space
conversions s = elim (scan_int s) [
  | some (n, r) ↦ pos 1
  | none ↦ elim (skip_space s) [ [] ↦ negsuc 0 | c ∷ r ↦ pos 0 ]
]

-- `newNum`
unfoldable pub new_num : SRunner → Reports → Bytes
unfolding temp_text join_ids conversions killed_by_tests
new_num sr files =
    temp_text (conversions files.temp +ℤ pos 1) (pos (srunner_ntests_failed sr))
      (pos (srunner_ntests_run sr)) (join_ids true (printed_ids sr))

-- The bytes of `buf` and of `newNum`, their NUL included.
abbrev pub text_size : ℕ
text_size = 128

-- From the loop on. `none` where `buf` was not written before it is printed, where the array is read
-- behind what was written, and where `buf` or `newNum` is overrun.
unfoldable pub record_killed : SRunner → Reports → Option Reports
unfolding new_num killed_text
record_killed sr files =
    if not (length (printed_ids sr) == 0)
      && (is_terminated (srunner_ntests_run sr) (length (killed_by_tests 0 sr.slst))
          && (ltb (length (join_ids true (printed_ids sr))) text_size
              && ltb (length (new_num sr files)) text_size))
    then some (record { log = files.log ++ killed_text sr; temp = new_num sr files })
    else none

-- `has_paths` is whether the two paths are in the environment; a missing IS_MUTATE is followed as a
-- null pointer.
unfoldable pub record_mutation_results : Bool → Option Bytes → SRunner → Reports → Option Reports
unfolding bytes_eq
record_mutation_results false is_mutate sr files = some files
record_mutation_results true none sr files = none
record_mutation_results true (some is_mutate) sr files =
    if not (bytes_eq is_mutate (codes "true"))
    then some files
    else if srunner_ntests_failed sr == 0
    then some (record files { log = files.log ++ survived_text })
    else record_killed sr files

-- What it does before it frees the runner; `none` is a null pointer.
unfoldable pub srunner_free : Bool → Option Bytes → Option SRunner → Reports → Option Reports
unfolding record_mutation_results
srunner_free has_paths is_mutate none files = some files
srunner_free has_paths is_mutate (some sr) files =
    record_mutation_results has_paths is_mutate sr files
