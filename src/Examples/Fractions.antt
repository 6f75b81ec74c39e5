-- ===== src/Examples/Fractions.antt =====
-- Exact fractions in the place of `double`, a numerator over a denominator.
use memory_mutation_testing.Base.{
  ℕ, suc, ◌+◌, ◌*◌, ◌/◌, ◌≡◌, arith, ltb, ◌==◌, ℤ, pos, negsuc, pos_part, neg_part, sub_ℕ, ◌+ℤ◌,
  ltb_ℤ, eqb_ℤ,
}
use memory_mutation_testing.Base.Double.{Double, IsExact, is_positive, is_zero, quotient}

abbrev scale : ℤ → ℕ → ℤ
scale n k = sub_ℕ (pos_part n * k) (neg_part n * k)

abbrev times : ℤ → ℤ → ℤ
times a b =
    sub_ℕ (pos_part a * pos_part b + neg_part a * neg_part b)
      (pos_part a * neg_part b + neg_part a * pos_part b)

abbrev divide : ℤ × ℕ → ℤ × ℕ → ℤ × ℕ
divide (a, b) (pos c, d) = (scale a d, b * c)
divide (a, b) (negsuc c, d) = (times a (sub_ℕ 0 d), b * suc c)

abbrev drop_fraction : ℤ × ℕ → ℤ
drop_fraction (pos n, d) = pos (n / d)
drop_fraction (negsuc n, d) = sub_ℕ 0 (suc n / d)

abbrev pub fractions : Double
fractions = record {
  D = ℤ × ℕ;
  of_int = λ n. (n, 1);
  add = λ x y. (scale x.0 y.1 +ℤ scale y.0 x.1, x.1 * y.1);
  mul = λ x y. (times x.0 y.0, x.1 * y.1);
  div = divide;
  truncate = drop_fraction;
  ltb = λ x y. ltb_ℤ (scale x.0 y.1) (scale y.0 x.1);
  eqb = λ x y. eqb_ℤ (scale x.0 y.1) (scale y.0 x.1);
}

positive_int : (a : ℕ) → is_positive fractions (pos a, 1) ≡ ltb 0 a
positive_int a = ground arith

zero_int : (a : ℕ) → is_zero fractions (pos a, 1) ≡ (a == 0)
zero_int a = ground arith

positive_quotient : (a b : ℕ) → is_positive fractions (quotient fractions a (suc b)) ≡ ltb 0 a
positive_quotient a b = ground arith

zero_quotient : (a b : ℕ) → is_zero fractions (quotient fractions a (suc b)) ≡ (a == 0)
zero_quotient a b = ground arith

pub fractions-IsExact : IsExact fractions
fractions-IsExact = record {
  positive_int = positive_int;
  zero_int = zero_int;
  positive_quotient = positive_quotient;
  zero_quotient = zero_quotient;
}
