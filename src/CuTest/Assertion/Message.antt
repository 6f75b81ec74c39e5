-- ===== src/CuTest/Assertion/Message.antt =====
-- What a test that ran tells of the assertion that failed.
use mathlib.Core.List.{append_assoc}
use mathlib.Core.Path.{subst}
use memory_mutation_testing.Base.{
  ◌≡◌, refl, sym, ap, ◌∙◌, Bool, true, false, List, [], ◌∷◌, ◌++◌, Option, none, some,
  if◌then◌else◌, eqb_ℤ,
}
use memory_mutation_testing.Base.Text.{Bytes, codes}
use memory_mutation_testing.Base.Decimal.{print_int}
use memory_mutation_testing.CuTest.Text.{CuString, cu_string_init, cu_string_append, text_or_null}
use memory_mutation_testing.CuTest.Text.Bounds.{
  IsTerminated, cu_string_init-IsTerminated, cu_string_append_lem, cu_string_insert_lem,
}
use memory_mutation_testing.CuTest.Assertion.{
  Assertion, Check, fail, assert, str_equals, int_equals, dbl_equals, ptr_equals, CuTest,
  cu_fail_line, cu_assert_line, cu_assert_str_equals_line_msg, cu_assert_int_equals_line_msg,
  cu_assert_dbl_equals_line_msg, cu_assert_ptr_equals_line_msg, run_check, cu_fail_internal,
  cu_test_init, run_function, cu_test_run, place, same_text, dbl_text, ptr_text,
}

-- A message in front of a text.
abbrev pub with_message : Option Bytes → Bytes → Bytes
with_message none text = text
with_message (some message) text = message ++ (codes ": " ++ text)

abbrev unless : Bool → Bytes → Option Bytes
unless true text = none
unless false text = some text

-- What a failed assertion says, and `none` where it holds.
abbrev pub said : Check → Option Bytes
said (fail message2 message) = some (with_message message2 (text_or_null message))
said (assert message condition) = unless condition (text_or_null message)
said (str_equals message expected actual) =
    unless (same_text expected actual)
      (with_message message (dbl_text (text_or_null expected) (text_or_null actual)))
said (int_equals message expected actual) =
    unless (eqb_ℤ expected actual)
      (with_message message (dbl_text (print_int expected) (print_int actual)))
said (dbl_equals message close expected actual fits) =
    unless close (with_message message (dbl_text expected actual))
said (ptr_equals message same expected actual fits) =
    unless same (with_message message (ptr_text expected actual))

-- The place and the text of the first assertion that fails.
abbrev pub first_failure : List Assertion → Option Bytes
first_failure [] = none
first_failure (a ∷ rest) = elim (said a.check) [
  | none ↦ first_failure rest
  | some text ↦ some (place a ++ text)
]

abbrev pub is_some : Option Bytes → Bool
is_some none = false
is_some (some _) = true

-- The text, in a string that is terminated within its allocation.
Builds : CuString → Bytes → Type 0
Builds str text = IsTerminated str × (str.buffer ≡ text)

append-Builds :
    (str : CuString) (before : Bytes) (text : Option Bytes)
    → Builds str before
    → Builds (cu_string_append str text) (before ++ text_or_null text)
unfolding Builds
append-Builds str before text h =
    let (fits, joined) = cu_string_append_lem str text h.0 in
    (fits, joined ∙ ap (λ b. b ++ text_or_null text) h.1)

init-Builds : Builds cu_string_init []
unfolding Builds cu_string_init
init-Builds = (cu_string_init-IsTerminated, refl)

-- The result of an assertion is the text that is said, or none.
Says : Option CuString → Option Bytes → Type 0
Says none none = Unit {0}
Says none (some _) = ⊥
Says (some _) none = ⊥
Says (some str) (some text) = Builds str text

if-Says :
    (test : Bool) (str : CuString) (text : Bytes)
    → Builds str text
    → Says (if test then none else some str) (unless test text)
unfolding Says
if-Says true str text h = tt
if-Says false str text h = h

append-five :
    (a b c d e f : Bytes) → ((((a ++ b) ++ c) ++ d) ++ e) ++ f ≡ a ++ (b ++ (c ++ (d ++ (e ++ f))))
append-five a b c d e f = simp (append_assoc)

expected-Builds :
    (str : CuString) (before : Bytes) (expected actual : Option Bytes)
    → Builds str before
    → Builds
        (cu_string_append
          (cu_string_append
            (cu_string_append
              (cu_string_append (cu_string_append str (some (codes "expected <"))) expected)
              (some (codes "> but was <")))
            actual)
          (some (codes ">")))
        (before ++ dbl_text (text_or_null expected) (text_or_null actual))
expected-Builds str before expected actual h =
    subst (Builds _)
      (append-five before (codes "expected <") (text_or_null expected) (codes "> but was <")
        (text_or_null actual) (codes ">"))
      (append-Builds _ _ (some (codes ">")) (
        append-Builds _ _ actual (
          append-Builds _ _ (some (codes "> but was <"))
            (append-Builds _ _ expected (append-Builds str before (some (codes "expected <")) h)))))

prefix-Builds :
    (m : Bytes)
    → Builds
        (cu_string_append (cu_string_append cu_string_init (some m)) (some (codes ": ")))
        (m ++ codes ": ")
prefix-Builds m =
    append-Builds _ _ (some (codes ": ")) (append-Builds cu_string_init [] (some m) init-Builds)

fail_line-Builds :
    (message2 message : Option Bytes)
    → Builds (cu_fail_line message2 message) (with_message message2 (text_or_null message))
unfolding cu_fail_line
fail_line-Builds none message = append-Builds cu_string_init [] message init-Builds
fail_line-Builds (some m) message =
    rw (sym (append_assoc m (codes ": ") (text_or_null message)))
      (append-Builds _ _ message (prefix-Builds m))

str_equals-Says :
    (message expected actual : Option Bytes)
    → Says
        (cu_assert_str_equals_line_msg message expected actual)
        (said (str_equals message expected actual))
unfolding cu_assert_str_equals_line_msg
str_equals-Says none expected actual =
    if-Says (same_text expected actual) _ _
      (expected-Builds cu_string_init [] expected actual init-Builds)
str_equals-Says (some m) expected actual = if-Says (same_text expected actual) _ _ (
    subst (Builds _)
      (append_assoc m (codes ": ") (dbl_text (text_or_null expected) (text_or_null actual)))
      (expected-Builds _ _ expected actual (prefix-Builds m)))

run_check-Says : (c : Check) → Says (run_check c) (said c)
unfolding run_check cu_assert_line cu_assert_int_equals_line_msg cu_assert_dbl_equals_line_msg
    cu_assert_ptr_equals_line_msg
run_check-Says (fail message2 message) = if-Says false _ _ (fail_line-Builds message2 message)
run_check-Says (assert message condition) = if-Says condition _ _ (fail_line-Builds none message)
run_check-Says (str_equals message expected actual) = str_equals-Says message expected actual
run_check-Says (int_equals message expected actual) =
    if-Says (eqb_ℤ expected actual) _ _ (fail_line-Builds message (some _))
run_check-Says (dbl_equals message close expected actual fits) =
    if-Says close _ _ (fail_line-Builds message (some (dbl_text expected actual)))
run_check-Says (ptr_equals message same expected actual fits) =
    if-Says same _ _ (fail_line-Builds message (some (ptr_text expected actual)))

-- The test tells of this failure, or of none.
Tells : CuTest → Option Bytes → Type 0
Tells tc failure = (tc.message ≡ failure) × (tc.failed ≡ is_some failure)

fail_internal-Tells :
    (tc : CuTest) (a : Assertion) (str : CuString) (text : Bytes)
    → Builds str text
    → Tells (cu_fail_internal tc a str) (some (place a ++ text))
unfolding cu_fail_internal Tells Builds
fail_internal-Tells tc a str text h =
    (ap some ((cu_string_insert_lem str (place a) 0 h.0).1 ∙ ap (λ t. place a ++ t) h.1), refl)

step-Tells :
    (tc : CuTest) (a : Assertion) (rest : List Assertion) (result : Option CuString)
    (text : Option Bytes)
    → Says result text
    → Tells (run_function rest tc) (first_failure rest)
    → Tells
        (elim result [ none ↦ run_function rest tc | some str ↦ cu_fail_internal tc a str ])
        (elim text [ none ↦ first_failure rest | some t ↦ some (place a ++ t) ])
unfolding Says
step-Tells tc a rest none none says h = h
step-Tells tc a rest none (some t) says h = absurd says
step-Tells tc a rest (some str) none says h = absurd says
step-Tells tc a rest (some str) (some t) says h = fail_internal-Tells tc a str t says

run_function-Tells :
    (asserted : List Assertion) (tc : CuTest)
    → Tells tc none
    → Tells (run_function asserted tc) (first_failure asserted)
unfolding run_function
run_function-Tells [] tc h = h
run_function-Tells (a ∷ rest) tc h =
    step-Tells tc a rest (run_check a.check) (said a.check) (run_check-Says a.check)
      (run_function-Tells rest tc h)

-- A run of a new test stops at the first of its assertions that does not hold: its message is the
-- file and the line of that assertion and then what it says, and the test is marked as failed; with
-- no such assertion it has no message and is not marked.
pub cu_test_run-first_failure :
    (name : Bytes) (asserted : List Assertion)
    → ((cu_test_run (cu_test_init name asserted)).message ≡ first_failure asserted)
      × ((cu_test_run (cu_test_init name asserted)).failed ≡ is_some (first_failure asserted))
unfolding cu_test_run cu_test_init Tells
cu_test_run-first_failure name asserted = run_function-Tells asserted _ (refl, refl)
