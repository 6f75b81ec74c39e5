-- ===== src/CuTest/Report.antt =====
-- CuTest/CuTest.forked.c, lines 295 to 360: what `CuSuiteRun` writes for the engine. The file
-- mutation_results.log only grows; temp_results.log is overwritten with the number of mutants that
-- the tests have killed so far, the number of failed tests, the number of tests, and the numbers of
-- the failed tests, from 1, with commas between them.
use memory_mutation_testing.Base.{
  ℕ, suc, ◌-◌, List, [], ◌∷◌, ◌++◌, Option, none, some, Bool, true, false, if◌then◌else◌, ltb, ◌==◌,
  length, ℤ, pos, ◌+ℤ◌, eqb_ℤ, not,
}
use memory_mutation_testing.Base.Lists.{replicate}
use memory_mutation_testing.Base.Text.{Bytes, codes, bytes_eq, scan_int}
use memory_mutation_testing.Base.Decimal.{print_int}
use memory_mutation_testing.CuTest.Assertion.{CuTest}
use memory_mutation_testing.CuTest.Suite.{CuSuite, run_tests, count_failed}

-- The two files.
pub record Reports : Type 0 where
  pub log : Bytes
  pub temp : Bytes

-- `killed_by_tests`, without the zeros behind it, for the tests from index `j` on.
unfoldable pub killed_ids : ℕ → List CuTest → List ℤ
killed_ids j [] = []
killed_ids j (t ∷ ts) =
    let rest = killed_ids (suc j) ts in if t.failed then pos (suc j) ∷ rest else rest

-- The array that `calloc` clears, after the loop that fills it.
unfoldable pub killed_array : List CuTest → List ℤ
unfolding killed_ids
killed_array ts = let ids = killed_ids 0 ts in ids ++ replicate (length ts - length ids) (pos 0)

abbrev pub comma : Bool → Bytes
comma true = []
comma false = b',' ∷ []

-- The loop that writes the numbers up to the first zero.
unfoldable pub join_ids : Bool → List ℤ → Bytes
unfolding print_int
join_ids first [] = []
join_ids first (n ∷ ns) =
    if eqb_ℤ n (pos 0) then [] else comma first ++ (print_int n ++ join_ids false ns)

abbrev pub message_of : CuTest → Bytes
message_of t = elim t.message [ none ↦ codes "(null)" | some m ↦ m ]

-- The lines for the failed tests, "%d) %s: %s\n".
unfoldable pub failure_lines : ℕ → List CuTest → Bytes
unfolding print_int
failure_lines k [] = []
failure_lines k (t ∷ ts) = elim t.failed [
  | true ↦
      print_int (pos (suc k))
      ++ (codes ") "
          ++ (t.name ++ (codes ": " ++ (message_of t ++ (10 ∷ failure_lines (suc k) ts)))))
  | false ↦ failure_lines k ts
]

unfoldable pub survived_text : Bytes
survived_text = codes "status: (survived!!)" ++ (10 ∷ [])

unfoldable pub killed_text : CuSuite → Bytes
unfolding failure_lines print_int
killed_text suite =
    codes "status: (killed)"
    ++ (10
        ∷ (codes "description: ("
            ++ (print_int (pos suite.fail_count)
                ++ (codes ") of ("
                    ++ (print_int (pos (length suite.list))
                        ++ (codes ") tests failed:" ++ (10 ∷ failure_lines 0 suite.list)))))))

-- `fscanf(tmp_results, "%d", &mutant_kill_count)`, with 0 before.
unfoldable pub read_kill_count : Bytes → ℤ
unfolding scan_int
read_kill_count s = elim (scan_int s) [ none ↦ pos 0 | some (n, _) ↦ n ]

-- "%d %d %d %s"
unfoldable pub temp_text : ℤ → ℤ → ℤ → Bytes → Bytes
temp_text kills failed count ids =
    print_int kills ++ (b' ' ∷ (print_int failed ++ (b' ' ∷ (print_int count ++ (b' ' ∷ ids)))))

-- The bytes of `buf`, its NUL included.
abbrev pub buf_size : ℕ
buf_size = 1024

-- `is_mutate` is the value of IS_MUTATE. `none` where `strcmp` follows a null pointer, since the
-- variable is not set, and where `sprintf` would write past `buf`.
unfoldable pub cu_suite_run : Option Bytes → CuSuite → Reports → Option (CuSuite × Reports)
cu_suite_run none suite files = none
cu_suite_run (some is_mutate) suite files =
    let ran = run_tests suite in
    let ids = join_ids true (killed_array ran.list) in
    if not (bytes_eq is_mutate (codes "true"))
    then some (ran, files)
    else if ran.fail_count == 0
    then some (ran, record files { log = files.log ++ survived_text })
    else if ltb (length ids) buf_size
    then (some (
      ran,
      record {
        log = files.log ++ killed_text ran;
        temp =
            temp_text (read_kill_count files.temp +ℤ pos 1) (pos (count_failed ran.list))
              (pos (length ran.list)) ids;
      },
    ))
    else none
