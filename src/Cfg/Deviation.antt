-- ===== src/Cfg/Deviation.antt =====
-- What the deviation of two gcov files says: how many branches at the same line of both files were
-- taken a different number of times.
use memory_mutation_testing.Base.{
  ℕ, zero, suc, ◌+◌, ◌≤◌, ◌≡◌, refl, sym, ap, ◌∙◌, inl, inr, true, not, Option, none, some, List,
  [], ◌∷◌, map, arith, if◌then◌else◌, ◌==◌, ℤ, eqb_ℤ, eqb_ℤ→eq, eqb_ℤ-self, eqb_ℤ_comm, length,
  length-map, Bool-cases,
}
use mathlib.Core.Logic.{◌↔◌}
use native.Mathlib.Decide.{ℕ_discrete}
use memory_mutation_testing.Base.Text.{Bytes}
use memory_mutation_testing.Base.Double.{Double, quotient, is_positive, is_zero, IsExact}
use memory_mutation_testing.Cfg.{taken_count, compare_lines, ratio, calculate_cfg_branch_deviation}

-- The number of places at which two lists of counts differ.
unfoldable pub mismatches : List ℤ → List ℤ → ℕ
mismatches [] ys = 0
mismatches (x ∷ xs) [] = 0
mismatches (x ∷ xs) (y ∷ ys) = if eqb_ℤ x y then mismatches xs ys else mismatches xs ys + 1

abbrev counts : List Bytes → List ℤ
counts = map taken_count

mismatches-le : (xs ys : List ℤ) → mismatches xs ys ≤ length xs
unfolding mismatches
mismatches-le [] ys = omega arith
mismatches-le (x ∷ xs) [] = omega arith
mismatches-le (x ∷ xs) (y ∷ ys) = ground (arith, mismatches-le xs ys)

compare_lines-eq_some :
    (as' bs : List Bytes) (d t : ℕ)
    → length as' ≡ length bs
    → compare_lines as' bs d t ≡ some (d + mismatches (counts as') (counts bs), t + length as')
unfolding compare_lines mismatches
compare_lines-eq_some [] [] d t h = ground arith
compare_lines-eq_some [] (b ∷ bs) d t h = absurd (omega arith)
compare_lines-eq_some (a ∷ as') [] d t h = absurd (omega arith)
compare_lines-eq_some (a ∷ as') (b ∷ bs) d t h =
    elim (Bool-cases (eqb_ℤ (taken_count a) (taken_count b))) [
      | inl e ↦ rw e (compare_lines-eq_some as' bs d (t + 1) (omega arith) ∙ ground arith)
      | inr e ↦ rw e (compare_lines-eq_some as' bs (d + 1) (t + 1) (omega arith) ∙ ground arith)
    ]

compare_from_zero :
    (as' bs : List Bytes)
    → length as' ≡ length bs
    → compare_lines as' bs 0 0 ≡ some (mismatches (counts as') (counts bs), length as')
compare_from_zero as' bs h = compare_lines-eq_some as' bs 0 0 h ∙ ground arith

compare_lines-eq_none :
    (as' bs : List Bytes) (d t : ℕ) → ¬ (length as' ≡ length bs) → compare_lines as' bs d t ≡ none
unfolding compare_lines
compare_lines-eq_none [] [] d t h = absurd (h refl)
compare_lines-eq_none [] (b ∷ bs) d t h = refl
compare_lines-eq_none (a ∷ as') [] d t h = refl
compare_lines-eq_none (a ∷ as') (b ∷ bs) d t h =
    compare_lines-eq_none as' bs _ (t + 1) (λ e. h (ap suc e))

eq_of_mismatches : (xs ys : List ℤ) → length xs ≡ length ys → mismatches xs ys ≡ 0 → xs ≡ ys
unfolding mismatches
eq_of_mismatches [] [] h e = refl
eq_of_mismatches [] (y ∷ ys) h e = absurd (omega arith)
eq_of_mismatches (x ∷ xs) [] h e = absurd (omega arith)
eq_of_mismatches (x ∷ xs) (y ∷ ys) h e =
    ground (arith, eqb_ℤ→eq x y, eq_of_mismatches xs ys (omega arith))

mismatches_self : (xs : List ℤ) → mismatches xs xs ≡ 0
unfolding mismatches
mismatches_self [] = refl
mismatches_self (x ∷ xs) = rw eqb_ℤ-self (mismatches_self xs)

mismatches_comm : (xs ys : List ℤ) → mismatches xs ys ≡ mismatches ys xs
unfolding mismatches
mismatches_comm [] [] = refl
mismatches_comm [] (y ∷ ys) = refl
mismatches_comm (x ∷ xs) [] = refl
mismatches_comm (x ∷ xs) (y ∷ ys) = ground (arith, mismatches_comm xs ys, eqb_ℤ_comm x y)

length-counts : (as' bs : List Bytes) → counts as' ≡ counts bs → length as' ≡ length bs
length-counts as' bs e = sym (length-map as' taken_count) ∙ ap length e ∙ length-map bs taken_count

module _ (F : Double) where
  ratio-suc : (d t : ℕ) → ratio F (some (d, suc t)) ≡ quotient F d (suc t)
  ratio-suc d t = ground arith

  -- The deviation of two files with the same number of lines, at least one, is the number of lines
  -- at which the branch counts differ, divided by the number of lines.
  pub deviation-eq-quotient :
      (a : Bytes) (as' : List Bytes) (bs : List Bytes)
      → length (a ∷ as') ≡ length bs
      → calculate_cfg_branch_deviation F (some (a ∷ as')) (some bs)
        ≡ quotient F
            (mismatches (map taken_count (a ∷ as')) (map taken_count bs))
            (length (a ∷ as'))
  unfolding calculate_cfg_branch_deviation
  deviation-eq-quotient a as' bs h = rw (compare_from_zero (a ∷ as') bs h) (ratio-suc _ _)

  compare_lines_comm : (as' bs : List Bytes) → compare_lines as' bs 0 0 ≡ compare_lines bs as' 0 0
  compare_lines_comm as' bs = elim (ℕ_discrete (length as') (length bs)) [
    | yes e ↦
        compare_from_zero as' bs e
        ∙ rw (mismatches_comm (counts as') (counts bs), e) (sym (compare_from_zero bs as' (sym e)))
    | no ne ↦
        compare_lines-eq_none as' bs 0 0 ne
        ∙ sym (compare_lines-eq_none bs as' 0 0 (λ e. ne (sym e)))
  ]

  -- It does not matter for the deviation which of the two files is the mutant's.
  deviation_comm :
      (f g : Option (List Bytes))
      → calculate_cfg_branch_deviation F f g ≡ calculate_cfg_branch_deviation F g f
  unfolding calculate_cfg_branch_deviation
  deviation_comm none none = refl
  deviation_comm none (some bs) = refl
  deviation_comm (some as') none = refl
  deviation_comm (some as') (some bs) = ap (ratio F) (compare_lines_comm as' bs)

  module _ (exact : IsExact F) where
    zero_ratio : (d t : ℕ) → d ≤ t → is_zero F (ratio F (some (d, t))) ≡ (d == 0)
    zero_ratio d zero h = rw (exact.zero_int 0) (ground arith)
    zero_ratio d (suc t) h = rw (ratio-suc d t) (exact.zero_quotient d t)

    positive_ratio : (r : Option (ℕ × ℕ)) → is_positive F (ratio F r) ≡ not (is_zero F (ratio F r))
    positive_ratio none = rw (exact.zero_int 1, exact.positive_int 1) refl
    positive_ratio (some (d, zero)) = rw (exact.zero_int 0, exact.positive_int 0) refl
    positive_ratio (some (d, suc t)) =
        rw (ratio-suc d t, exact.zero_quotient d t, exact.positive_quotient d t) (ground arith)

    zero-compare_lines :
        (as' bs : List Bytes)
        → length as' ≡ length bs
        → is_zero F (ratio F (compare_lines as' bs 0 0))
          ≡ (mismatches (counts as') (counts bs) == 0)
    zero-compare_lines as' bs e = rw (compare_from_zero as' bs e) (
        zero_ratio _ (length as')
          (omega (arith, mismatches-le (counts as') (counts bs), length-map as' taken_count)))

    zero→counts :
        (as' bs : List Bytes)
        → is_zero F (ratio F (compare_lines as' bs 0 0)) ≡ true
        → counts as' ≡ counts bs
    zero→counts as' bs h = elim (ℕ_discrete (length as') (length bs)) [
      | yes e ↦
          eq_of_mismatches (counts as') (counts bs)
            (length-map as' taken_count ∙ e ∙ sym (length-map bs taken_count))
            (ground (arith, zero-compare_lines as' bs e))
      | no ne ↦ ground (arith, compare_lines-eq_none as' bs 0 0 ne, exact.zero_int 1)
    ]

    counts→zero :
        (as' bs : List Bytes)
        → counts as' ≡ counts bs
        → is_zero F (ratio F (compare_lines as' bs 0 0)) ≡ true
    counts→zero as' bs e =
        zero-compare_lines as' bs (length-counts as' bs e)
        ∙ rw (e, mismatches_self (counts bs)) refl

    -- With exact arithmetic, two files that are there have the deviation zero exactly when they
    -- have equally many lines and each line of one has the branch count of the same line of the
    -- other.
    pub deviation_zero_iff :
        (as' bs : List Bytes)
        → (is_zero F (calculate_cfg_branch_deviation F (some as') (some bs)) ≡ true)
          ↔ (map taken_count as' ≡ map taken_count bs)
    unfolding calculate_cfg_branch_deviation
    deviation_zero_iff as' bs = (zero→counts as' bs, counts→zero as' bs)

    -- With exact arithmetic, a deviation is positive exactly when it is not zero.
    pub deviation_positive :
        (f g : Option (List Bytes))
        → is_positive F (calculate_cfg_branch_deviation F f g)
          ≡ not (is_zero F (calculate_cfg_branch_deviation F f g))
    unfolding calculate_cfg_branch_deviation
    deviation_positive none none = rw (exact.zero_int 0, exact.positive_int 0) refl
    deviation_positive none (some bs) = rw (exact.zero_int 1, exact.positive_int 1) refl
    deviation_positive (some as') none = rw (exact.zero_int 1, exact.positive_int 1) refl
    deviation_positive (some as') (some bs) = positive_ratio (compare_lines as' bs 0 0)
