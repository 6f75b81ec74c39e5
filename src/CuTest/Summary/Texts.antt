-- ===== src/CuTest/Summary/Texts.antt =====
-- The texts of a suite stay within the allocation of the string they are appended to.
use mathlib.Core.List.{append-nil, append_assoc}
use memory_mutation_testing.Base.{◌≡◌, sym, ap, ◌∙◌, some, List, [], ◌∷◌, ◌++◌}
use memory_mutation_testing.Base.Text.{Bytes}
use memory_mutation_testing.CuTest.Text.{CuString, cu_string_append}
use memory_mutation_testing.CuTest.Text.Bounds.{IsTerminated, cu_string_append_lem}
use memory_mutation_testing.CuTest.Assertion.{CuTest}
use memory_mutation_testing.CuTest.Suite.{CuSuite}
use memory_mutation_testing.CuTest.Summary.{mark, append_marks, cu_suite_summary}

-- The texts of all marks, one after the other.
abbrev pub marks : List CuTest → Bytes
marks [] = []
marks (t ∷ ts) = mark t ++ marks ts

append_marks_lem :
    (ts : List CuTest) (str : CuString)
    → IsTerminated str
    → IsTerminated (append_marks ts str) × ((append_marks ts str).buffer ≡ str.buffer ++ marks ts)
unfolding append_marks
append_marks_lem [] str h = (h, sym (append-nil str.buffer))
append_marks_lem (t ∷ ts) str h =
    let (h', text) = cu_string_append_lem str (some (mark t)) h in
    let (h'', texts) = append_marks_lem ts (cu_string_append str (some (mark t))) h' in
    (h'', texts ∙ ap (λ b. b ++ marks ts) text ∙ append_assoc str.buffer (mark t) (marks ts))

-- Appended to a string that is terminated within its allocation, the summary is one mark for each
-- test, in the order of the suite, F for a failed one and a dot for another, and two line ends, and
-- text and NUL fit the allocation.
pub cu_suite_summary_lem :
    (suite : CuSuite) (str : CuString)
    → IsTerminated str
    → IsTerminated (cu_suite_summary suite str)
      × ((cu_suite_summary suite str).buffer ≡ (str.buffer ++ marks suite.list) ++ (10 ∷ 10 ∷ []))
unfolding cu_suite_summary
cu_suite_summary_lem suite str h =
    let (h', text) = append_marks_lem suite.list str h in
    let (h'', texts) =
      cu_string_append_lem (append_marks suite.list str) (some (10 ∷ 10 ∷ [])) h' in
    (h'', texts ∙ ap (λ b. b ++ (10 ∷ 10 ∷ [])) text)
