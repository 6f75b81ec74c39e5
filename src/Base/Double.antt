-- ===== src/Base/Double.antt =====
-- The C type `double`: a type with the operations that the program applies to it, and what the
-- theorems use of IEEE arithmetic on quotients of small integers that are not negative.
use mathlib.Core.Bool.{Bool}
use mathlib.Core.Path.{◌≡◌}
use Prim.Native.Nat.{ℕ, suc}
use memory_mutation_testing.Base.Tests.{ltb as ltb_ℕ, ◌==◌}
use memory_mutation_testing.Base.Int.{ℤ, pos}

pub record Double : Type 1 where
  pub D : Type 0
  pub of_int : ℤ → D
  pub add : D → D → D
  pub mul : D → D → D
  pub div : D → D → D
  -- The conversion to `int`, which drops the fraction.
  pub truncate : D → ℤ
  pub ltb : D → D → Bool
  pub eqb : D → D → Bool

module _ (F : Double) where
  abbrev pub zero_double : F.D
  zero_double = F.of_int (pos 0)

  abbrev pub one_double : F.D
  one_double = F.of_int (pos 1)

  -- `x > 0`
  abbrev pub is_positive : F.D → Bool
  is_positive x = F.ltb zero_double x

  -- `x == 0`
  abbrev pub is_zero : F.D → Bool
  is_zero x = F.eqb x zero_double

  -- `(double)a / (double)b`
  abbrev pub quotient : ℕ → ℕ → F.D
  quotient a b = F.div (F.of_int (pos a)) (F.of_int (pos b))

  -- The sign of an integer and of a quotient is exact.
  pub record IsExact : Type 0 where
    pub positive_int : (a : ℕ) → is_positive (F.of_int (pos a)) ≡ ltb_ℕ 0 a
    pub zero_int : (a : ℕ) → is_zero (F.of_int (pos a)) ≡ (a == 0)
    pub positive_quotient : (a b : ℕ) → is_positive (quotient a (suc b)) ≡ ltb_ℕ 0 a
    pub zero_quotient : (a b : ℕ) → is_zero (quotient a (suc b)) ≡ (a == 0)
