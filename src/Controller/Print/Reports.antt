-- ===== src/Controller/Print/Reports.antt =====
-- The text of a Valgrind result tells of each of its errors.
use memory_mutation_testing.Base.{
  ℕ, suc, ◌+◌, ◌≡◌, refl, sym, ap, ◌∙◌, arith, Bool, true, false, some, List, [], ◌∷◌, ◌++◌, ℤ, pos,
  length, length-append, Option-cases, inl, inr, if◌then◌else◌,
}
use mathlib.Core.Option.{some-injective}
use memory_mutation_testing.Base.Text.{Bytes, codes, atoi}
use memory_mutation_testing.Base.Decimal.{print_int}
use memory_mutation_testing.Valgrind.{ValgrindError, ValgrindResult}
use memory_mutation_testing.Valgrind.Report.{
  Child, Report, evaluate_error_nodes, evaluate_pairs, valgrind_xml_evaluate,
}
use memory_mutation_testing.Controller.Fom.{new_errors_only}
use memory_mutation_testing.Controller.Print.{
  print_valgrind_error, print_errors, print_valgrind_result,
}

-- The texts of all errors, with their numbers from `i` on.
abbrev pub all_texts : ℕ → List ValgrindError → Bytes
all_texts i [] = []
all_texts i (e ∷ es) = print_valgrind_error e.first i ++ all_texts (suc i) es

print_errors-some :
    (i : ℕ) (es : List ValgrindError) → print_errors i (length es) es ≡ some (all_texts i es)
unfolding print_errors
print_errors-some i [] = refl
print_errors-some i (e ∷ es) = rw (print_errors-some (suc i) es, print_errors) refl

-- As many errors as were counted.
abbrev IsCounted : ValgrindResult → Type 0
IsCounted v = v.unique_valgrind_error_count ≡ pos (length v.valgrind_errors)

abbrev pub result_text : Bool → ValgrindResult → Bytes
result_text verbose_mode v =
    codes "New Valgrind errors: "
    ++ (print_int v.valgrind_error_count
        ++ (codes "\n" ++ (if verbose_mode then all_texts 0 v.valgrind_errors else [])))

print_valgrind_result-some :
    (verbose_mode : Bool) (v : ValgrindResult)
    → IsCounted v
    → print_valgrind_result verbose_mode v ≡ some (result_text verbose_mode v)
unfolding print_valgrind_result
print_valgrind_result-some true v h =
    rw (h, print_errors-some 0 v.valgrind_errors, print_valgrind_result) refl
print_valgrind_result-some false v h = refl

pairs-counted :
    (cutest : Bool) (errors : Bytes → List (List Child)) (pairs : List (Bytes × Bytes))
    (r r' : ValgrindResult)
    → evaluate_pairs cutest errors pairs r ≡ some r'
    → (length r'.valgrind_errors ≡ length r.valgrind_errors + length pairs)
      × (r'.unique_valgrind_error_count ≡ r.unique_valgrind_error_count)
unfolding evaluate_pairs
pairs-counted cutest errors [] r r' e =
    let same = some-injective _ _ e in
    (
      sym (ap (λ v. length v.valgrind_errors) same) ∙ omega arith,
      sym (ap (λ v. v.unique_valgrind_error_count) same),
    )
pairs-counted cutest errors ((count, unique) ∷ rest) r r' e =
    elim (Option-cases (evaluate_error_nodes cutest (atoi count) (errors unique))) [
      | inl stopped ↦ absurd (cc (rw (stopped, evaluate_pairs) at e))
      | inr (x, done) ↦
          let (stored, same) =
            pairs-counted cutest errors rest _ r' (rw (done, evaluate_pairs) at e) in
          (stored ∙ omega (arith, length-append r.valgrind_errors (x ∷ [])), same)
    ]

evaluated-IsCounted :
    (cutest : Bool) (errors : Bytes → List (List Child)) (pairs : List (Bytes × Bytes))
    (v : ValgrindResult)
    → valgrind_xml_evaluate cutest (record { pairs = pairs; errors = errors }) ≡ some (some v)
    → IsCounted v
unfolding valgrind_xml_evaluate
evaluated-IsCounted cutest errors [] v e = absurd (cc (some-injective _ _ e))
evaluated-IsCounted cutest errors (p ∷ ps) v e =
    let start : ValgrindResult = record {
      valgrind_errors = [];
      valgrind_error_count = pos 0;
      unique_valgrind_error_count = pos (length (p ∷ ps));
    } in
    elim (Option-cases (evaluate_pairs cutest errors (p ∷ ps) start)) [
      | inl stopped ↦ absurd (cc (rw (stopped, valgrind_xml_evaluate) at e))
      | inr (r, done) ↦
          let (stored, same) = pairs-counted cutest errors (p ∷ ps) start r done in
          let all : length (p ∷ ps) ≡ length r.valgrind_errors = omega (arith, stored) in
          let found =
            some-injective _ _ (some-injective _ _ (rw (done, valgrind_xml_evaluate) at e)) in
          sym (ap (λ w. w.unique_valgrind_error_count) found)
          ∙ same
          ∙ ap pos all
          ∙ ap (λ w. pos (length w.valgrind_errors)) found
    ]

-- For a result that was evaluated from a report, and for what of it is new for a killed mutant, the
-- text tells how many errors there are and, in verbose mode, of each error that the result has, in
-- their order: no error is read behind the end of their array.
pub print_valgrind_result-valgrind_xml_evaluate :
    (cutest verbose_mode : Bool) (put_errors : ℤ) (report : Report) (v : ValgrindResult)
    → valgrind_xml_evaluate cutest report ≡ some (some v)
    → (print_valgrind_result verbose_mode v ≡ some (result_text verbose_mode v))
      × (print_valgrind_result verbose_mode (new_errors_only put_errors v)
          ≡ some (result_text verbose_mode (new_errors_only put_errors v)))
unfolding new_errors_only
print_valgrind_result-valgrind_xml_evaluate cutest verbose_mode put_errors report v e =
    let counted = evaluated-IsCounted cutest report.errors report.pairs v e in
    (
      print_valgrind_result-some verbose_mode v counted,
      print_valgrind_result-some verbose_mode (new_errors_only put_errors v) counted,
    )
