-- ===== src/Valgrind/Report/Counts.antt =====
-- The evaluation of a report succeeds and adds up the counts of its pairs.
use memory_mutation_testing.Base.{
  suc, ◌+◌, ◌≤◌, ◌≡◌, refl, sym, ◌∙◌, Bool, true, some, List, [], ◌∷◌, ◌++◌, arith, length,
  length-append, ℤ, pos, ◌+ℤ◌, leb, int_laws,
}
use memory_mutation_testing.Base.Text.{Bytes, atoi}
use memory_mutation_testing.Valgrind.{ValgrindError, ValgrindResult}
use memory_mutation_testing.Valgrind.Report.{
  Child, sibling_room, evaluate_error_nodes, evaluate_pairs, valgrind_xml_evaluate,
}

-- Each pair has at least one error, and the others of the same number have a place.
abbrev pub AllPlaced : (Bytes → List (List Child)) → List (Bytes × Bytes) → Type 0
AllPlaced errors [] = Unit {0}
AllPlaced errors ((count, unique) ∷ rest) =
    ((1 ≤ length (errors unique)) × (length (errors unique) ≤ suc (sibling_room (atoi count))))
    × AllPlaced errors rest

-- The sum of the counts.
abbrev pub count_sum : List (Bytes × Bytes) → ℤ
count_sum [] = pos 0
count_sum ((count, unique) ∷ rest) = atoi count +ℤ count_sum rest

nodes-some :
    (cutest : Bool) (n : ℤ) (nodes : List (List Child))
    → 1 ≤ length nodes
    → length nodes ≤ suc (sibling_room n)
    → (e : ValgrindError) × (evaluate_error_nodes cutest n nodes ≡ some e)
unfolding evaluate_error_nodes
nodes-some cutest n [] h k = absurd (omega arith)
nodes-some cutest n (x ∷ xs) h k =
    let fits : leb (length xs) (sibling_room n) ≡ true = ground arith in rw fits (_, refl)

add_zero : (a : ℤ) → a +ℤ pos 0 ≡ a
add_zero a = grind int_laws

add_assoc : (a b c : ℤ) → (a +ℤ b) +ℤ c ≡ a +ℤ (b +ℤ c)
add_assoc a b c = grind int_laws

pairs-some :
    (cutest : Bool) (errors : Bytes → List (List Child)) (pairs : List (Bytes × Bytes))
    (r : ValgrindResult)
    → AllPlaced errors pairs
    → (r' : ValgrindResult) × (evaluate_pairs cutest errors pairs r ≡ some r')
      × (r'.valgrind_error_count ≡ r.valgrind_error_count +ℤ count_sum pairs)
      × (r'.unique_valgrind_error_count ≡ r.unique_valgrind_error_count)
      × (length r'.valgrind_errors ≡ length r.valgrind_errors + length pairs)
unfolding evaluate_pairs
pairs-some cutest errors [] r h =
    (r, refl, sym (add_zero r.valgrind_error_count), refl, omega arith)
pairs-some cutest errors ((count, unique) ∷ rest) r h =
    let (e, placed) = nodes-some cutest (atoi count) (errors unique) h.0.0 h.0.1 in
    let (r', done, counted, same, stored) =
      pairs-some cutest errors rest
        (record r {
          valgrind_errors = r.valgrind_errors ++ (e ∷ []);
          valgrind_error_count = r.valgrind_error_count +ℤ atoi count;
        })
        h.1 in
    (
      r',
      rw (placed, evaluate_pairs) done,
      counted ∙ add_assoc r.valgrind_error_count (atoi count) (count_sum rest),
      same,
      stored ∙ omega (arith, length-append r.valgrind_errors (e ∷ [])),
    )

zero_add : (a : ℤ) → pos 0 +ℤ a ≡ a
zero_add a = grind int_laws

-- A report with at least one pair, in which each pair has at least one error and the others of the
-- same number have a place in the array of the siblings, is evaluated without a fault; the result
-- has the sum of the counts of the pairs, the number of the pairs, and one error for each pair.
pub valgrind_xml_evaluate_lem :
    (cutest : Bool) (errors : Bytes → List (List Child)) (p : Bytes × Bytes)
    (ps : List (Bytes × Bytes))
    → AllPlaced errors (p ∷ ps)
    → (v : ValgrindResult) × (valgrind_xml_evaluate cutest
          (record { pairs = p ∷ ps; errors = errors })
        ≡ some (some v))
      × (v.valgrind_error_count ≡ count_sum (p ∷ ps))
      × (v.unique_valgrind_error_count ≡ pos (length (p ∷ ps)))
      × (length v.valgrind_errors ≡ length (p ∷ ps))
unfolding valgrind_xml_evaluate
valgrind_xml_evaluate_lem cutest errors p ps h =
    let (v, done, counted, same, stored) =
      pairs-some cutest errors (p ∷ ps)
        (record {
          valgrind_errors = [];
          valgrind_error_count = pos 0;
          unique_valgrind_error_count = pos (length (p ∷ ps));
        })
        h in
    (
      v,
      rw (done, valgrind_xml_evaluate) refl,
      counted ∙ zero_add (count_sum (p ∷ ps)),
      same,
      stored ∙ omega arith,
    )
