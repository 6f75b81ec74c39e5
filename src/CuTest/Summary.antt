-- ===== src/CuTest/Summary.antt =====
-- CuTest/CuTest.forked.c, lines 94 to 101 and 362 to 416: the texts that a test program prints.
-- `none` is where `vsprintf` would write past its buffer of HUGE_STRING_LEN bytes.
pub mod Texts
use memory_mutation_testing.Base.{
  ℕ, suc, true, false, Option, none, some, List, [], ◌∷◌, ◌++◌, if◌then◌else◌, ltb, ◌==◌, length,
  pos, ◌-ℤ◌,
}
use memory_mutation_testing.Base.Text.{Bytes, codes}
use memory_mutation_testing.Base.Decimal.{print_int}
use memory_mutation_testing.CuTest.Text.{huge_string_len, CuString, cu_string_append}
use memory_mutation_testing.CuTest.Assertion.{CuTest}
use memory_mutation_testing.CuTest.Suite.{CuSuite}
use memory_mutation_testing.CuTest.Report.{message_of}

-- `formatted` is the text that `vsprintf` makes.
unfoldable pub cu_string_append_format : CuString → Bytes → Option CuString
cu_string_append_format str formatted =
    if ltb (length formatted) huge_string_len
    then some (cu_string_append str (some formatted))
    else none

abbrev pub mark : CuTest → Bytes
mark t = if t.failed then codes "F" else codes "."

unfoldable pub append_marks : List CuTest → CuString → CuString
append_marks [] summary = summary
append_marks (t ∷ ts) summary = append_marks ts (cu_string_append summary (some (mark t)))

unfoldable pub cu_suite_summary : CuSuite → CuString → CuString
unfolding append_marks
cu_suite_summary suite summary =
    cu_string_append (append_marks suite.list summary) (some (10 ∷ 10 ∷ []))

-- "%d) %s: %s\n"
abbrev pub failure_text : ℕ → CuTest → Bytes
failure_text k t =
    print_int (pos (suc k))
    ++ (codes ") " ++ (t.name ++ (codes ": " ++ (message_of t ++ (10 ∷ [])))))

-- The loop over the failed tests, with `failCount` so far.
unfoldable pub append_failures : ℕ → List CuTest → CuString → Option CuString
unfolding cu_string_append_format
append_failures k [] details = some details
append_failures k (t ∷ ts) details = elim t.failed [
  | true ↦ elim (cu_string_append_format details (failure_text k t)) [
    | none ↦ none
    | some longer ↦ append_failures (suc k) ts longer
  ]
  | false ↦ append_failures k ts details
]

-- The texts that `CuStringAppendFormat` adds one after the other.
unfoldable pub append_formats : List Bytes → CuString → Option CuString
unfolding cu_string_append_format
append_formats [] details = some details
append_formats (f ∷ fs) details = elim (cu_string_append_format details f) [
  | none ↦ none
  | some longer ↦ append_formats fs longer
]

-- `passCount` is the number of tests, since no test failed.
abbrev pub ok_text : ℕ → Bytes
ok_text passed =
    codes "OK ("
    ++ (print_int (pos passed)
        ++ (codes " "
            ++ ((if passed == 1 then codes "test" else codes "tests") ++ (codes ")" ++ (10 ∷ [])))))

abbrev pub opening : ℕ → CuString → Option CuString
opening failed details =
    if failed == 1
    then some (cu_string_append details (some (codes "there was (1) test failure:" ++ (10 ∷ []))))
    else (cu_string_append_format details (
        codes "there were ("
        ++ (print_int (pos failed) ++ (codes ") test failures:" ++ (10 ∷ [])))))

abbrev pub closing : CuSuite → List Bytes
closing suite =
    (codes "Runs: " ++ (print_int (pos (length suite.list)) ++ codes " "))
    ∷ (codes "Passes: "
        ++ (print_int (pos (length suite.list) -ℤ pos suite.fail_count) ++ codes " "))
    ∷ (codes "Fails: " ++ (print_int (pos suite.fail_count) ++ (10 ∷ [])))
    ∷ []

abbrev pub ending : Bytes
ending = 10 ∷ (codes "!!!FAILURES!!!" ++ (10 ∷ []))

unfoldable pub cu_suite_details : CuSuite → CuString → Option CuString
unfolding append_failures append_formats cu_string_append_format
cu_suite_details suite details =
    if suite.fail_count == 0
    then cu_string_append_format details (ok_text (length suite.list))
    else elim (opening suite.fail_count details) [
      | none ↦ none
      | some opened ↦ elim (append_failures 0 suite.list opened) [
        | none ↦ none
        | some listed ↦ append_formats (closing suite) (cu_string_append listed (some ending))
      ]
    ]
