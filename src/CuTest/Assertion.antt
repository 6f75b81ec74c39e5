-- ===== src/CuTest/Assertion.antt =====
-- CuTest/CuTest.forked.c, lines 119 to 245: a test case, its assertions, and a run of it. The code
-- of a test is what the program under test supplies: here it is the list of the assertions that it
-- reaches when each of them holds.
pub mod Message
use memory_mutation_testing.Base.{
  Bool, true, false, List, [], ◌∷◌, ◌++◌, Option, none, some, if◌then◌else◌, ℤ, eqb_ℤ, length, ◌<◌,
}
use memory_mutation_testing.Base.Text.{Bytes, codes, bytes_eq}
use memory_mutation_testing.Base.Decimal.{print_int}
use memory_mutation_testing.CuTest.Text.{
  CuString, string_max, huge_string_len, cu_string_init, cu_string_append, cu_string_insert,
}

-- What is printed of two doubles, whose texts "%lf" gives, and of two pointers, whose texts "%p"
-- gives.
abbrev pub dbl_text : Bytes → Bytes → Bytes
dbl_text expected actual =
    codes "expected <" ++ (expected ++ (codes "> but was <" ++ (actual ++ codes ">")))

abbrev pub ptr_text : Bytes → Bytes → Bytes
ptr_text expected actual =
    codes "expected pointer <0x" ++ (expected ++ (codes "> but was <0x" ++ (actual ++ codes ">")))

-- The assertions with their messages, where `none` is a null pointer. Doubles and pointers come
-- with the result of the comparison and their texts, as the C library gives them. What is printed
-- of them is taken to fit, with its NUL, in the buffer of `STRING_MAX` bytes.
pub data Check : Type 0 where
  fail : Option Bytes → Option Bytes → Check
  assert : Option Bytes → Bool → Check
  str_equals : Option Bytes → Option Bytes → Option Bytes → Check
  int_equals : Option Bytes → ℤ → ℤ → Check
  dbl_equals :
      Option Bytes
      → Bool
      → (expected actual : Bytes) → length (dbl_text expected actual) < string_max
      → Check
  ptr_equals :
      Option Bytes
      → Bool
      → (expected actual : Bytes) → length (ptr_text expected actual) < string_max
      → Check

-- The prefix that `sprintf` writes, "%s:%d: ".
abbrev pub place_text : Bytes → ℤ → Bytes
place_text file line = file ++ (codes ":" ++ (print_int line ++ codes ": "))

-- An assertion at a line of a file. Its place fits, with its NUL, in the buffer of `CuFailInternal`.
pub record Assertion : Type 0 where
  pub file : Bytes
  pub line : ℤ
  pub check : Check
  pub fits : length (place_text file line) < huge_string_len

abbrev with_prefix : Option Bytes → CuString → CuString
with_prefix none str = str
with_prefix (some message) str =
    cu_string_append (cu_string_append str (some message)) (some (codes ": "))

-- The text that `CuFail_Line` hands to `CuFailInternal`.
unfoldable pub cu_fail_line : Option Bytes → Option Bytes → CuString
cu_fail_line message2 message = cu_string_append (with_prefix message2 cu_string_init) message

unfoldable pub cu_assert_line : Option Bytes → Bool → Option CuString
unfolding cu_fail_line
cu_assert_line message condition = if condition then none else some (cu_fail_line none message)

abbrev pub same_text : Option Bytes → Option Bytes → Bool
same_text none none = true
same_text none (some b) = false
same_text (some a) none = false
same_text (some a) (some b) = bytes_eq a b

abbrev then_text : CuString → Option Bytes → CuString
then_text = cu_string_append

-- `none` where the assertion holds.
unfoldable pub cu_assert_str_equals_line_msg :
    Option Bytes → Option Bytes → Option Bytes → Option CuString
unfolding bytes_eq
cu_assert_str_equals_line_msg message expected actual =
    if same_text expected actual
    then none
    else (some (
        then_text
          (then_text
            (then_text
              (then_text
                (then_text (with_prefix message cu_string_init) (some (codes "expected <")))
                expected)
              (some (codes "> but was <")))
            actual)
          (some (codes ">"))))

unfoldable pub cu_assert_int_equals_line_msg : Option Bytes → ℤ → ℤ → Option CuString
unfolding cu_fail_line
cu_assert_int_equals_line_msg message expected actual =
    if eqb_ℤ expected actual
    then none
    else (some (
        cu_fail_line message (
          some (
            codes "expected <"
            ++ (print_int expected ++ (codes "> but was <" ++ (print_int actual ++ codes ">")))))))

-- `close` is `fabs(expected - actual) <= delta`.
unfoldable pub cu_assert_dbl_equals_line_msg : Option Bytes → Bool → Bytes → Bytes → Option CuString
unfolding cu_fail_line
cu_assert_dbl_equals_line_msg message close expected actual =
    if close then none else some (cu_fail_line message (some (dbl_text expected actual)))

-- `same` is `expected == actual`.
unfoldable pub cu_assert_ptr_equals_line_msg : Option Bytes → Bool → Bytes → Bytes → Option CuString
unfolding cu_fail_line
cu_assert_ptr_equals_line_msg message same expected actual =
    if same then none else some (cu_fail_line message (some (ptr_text expected actual)))

-- The failure text of an assertion that does not hold.
unfoldable pub run_check : Check → Option CuString
unfolding cu_assert_line cu_assert_str_equals_line_msg cu_assert_int_equals_line_msg
    cu_assert_dbl_equals_line_msg cu_assert_ptr_equals_line_msg
run_check (fail message2 message) = some (cu_fail_line message2 message)
run_check (assert message condition) = cu_assert_line message condition
run_check (str_equals message expected actual) =
    cu_assert_str_equals_line_msg message expected actual
run_check (int_equals message expected actual) =
    cu_assert_int_equals_line_msg message expected actual
run_check (dbl_equals message close expected actual fits) =
    cu_assert_dbl_equals_line_msg message close expected actual
run_check (ptr_equals message same expected actual fits) =
    cu_assert_ptr_equals_line_msg message same expected actual

pub record CuTest : Type 0 where
  pub name : Bytes
  pub function : List Assertion
  pub failed : Bool
  pub ran : Bool
  pub message : Option Bytes

unfoldable pub cu_test_init : Bytes → List Assertion → CuTest
cu_test_init name function = record {
  name = name;
  function = function;
  failed = false;
  ran = false;
  message = none;
}

abbrev place : Assertion → Bytes
place a = place_text a.file a.line

-- It marks the test and leaves it by `longjmp`. The place fits its buffer.
unfoldable pub cu_fail_internal : CuTest → Assertion → CuString → CuTest
cu_fail_internal tc a str = record tc {
  failed = true;
  message = some (cu_string_insert str (place a) 0).buffer;
}

-- The test's function, up to the first assertion that fails.
unfoldable pub run_function : List Assertion → CuTest → CuTest
unfolding run_check cu_fail_internal
run_function [] tc = tc
run_function (a ∷ rest) tc = elim (run_check a.check) [
  | none ↦ run_function rest tc
  | some str ↦ cu_fail_internal tc a str
]

unfoldable pub cu_test_run : CuTest → CuTest
unfolding run_function
cu_test_run tc = run_function tc.function (record tc { ran = true })
