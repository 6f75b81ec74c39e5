-- ===== src/Controller/Hom/Kills.antt =====
-- What the set of the killing tests counts.
use mathlib.Core.Option.{some-injective}
use memory_mutation_testing.Base.{
  ℕ, zero, suc, ◌+◌, ◌≤◌, ◌<◌, ◌≡◌, ◌≢◌, sym, ◌∙◌, arith, false, Option, none, some, List, [], ◌∷◌,
  ℤ, pos_part, Option-cases, inl, inr,
}
use memory_mutation_testing.Base.Double.{Double}
use memory_mutation_testing.Controller.Mutants.{Mutant}
use memory_mutation_testing.Controller.Hom.{
  Hashset, same_address, kills_of, add_tests, test_killed_set,
}

abbrev pub IsAbsent : ℕ → List ℕ → Type 0
IsAbsent i [] = Unit {0}
IsAbsent i (j ∷ js) = (i ≢ j) × IsAbsent i js

-- All entries are different.
abbrev pub IsDistinct : List ℕ → Type 0
IsDistinct [] = Unit {0}
IsDistinct (i ∷ rest) = IsAbsent i rest × IsDistinct rest

same_mutant : (i c d : ℕ) → c < d → same_address (i, c) (i, d) ≡ false
same_mutant i c d h = ground arith

other_mutant : (i j c d : ℕ) → i ≢ j → same_address (j, c) (i, d) ≡ false
other_mutant i j c d h = ground arith

module _ (F : Double) (H : Hashset) where
  -- The set has no test of this mutant.
  abbrev Lacks : H.Set → ℕ → Type 0
  Lacks s i = (c : ℕ) → H.is_member s (i, c) ≡ false

  later :
      (i n : ℕ) (s : H.Set)
      → Lacks s i
      → (c : ℕ) → n ≤ c
      → H.is_member (add_tests F H i n s) (i, c) ≡ false
  unfolding add_tests
  later i zero s h c l = h c
  later i (suc n) s h c l =
      rw (H.is_member-add, same_mutant i n c l) (later i n s h c (omega arith))

  num_items-add_tests :
      (i n : ℕ) (s : H.Set) → Lacks s i → H.num_items (add_tests F H i n s) ≡ H.num_items s + n
  unfolding add_tests
  num_items-add_tests i zero s h = omega arith
  num_items-add_tests i (suc n) s h =
      rw (H.num_items-add, later i n s h n (omega arith))
        (omega (arith, num_items-add_tests i n s h))

  add_tests-Lacks : (i j n : ℕ) (s : H.Set) → i ≢ j → Lacks s i → Lacks (add_tests F H j n s) i
  unfolding add_tests
  add_tests-Lacks i j zero s d h c = h c
  add_tests-Lacks i j (suc n) s d h c =
      rw (H.is_member-add, other_mutant i j n c d) (add_tests-Lacks i j n s d h c)

  -- The set has no test of these mutants.
  abbrev LacksAll : H.Set → List ℕ → Type 0
  LacksAll s [] = Unit {0}
  LacksAll s (i ∷ rest) = Lacks s i × LacksAll s rest

  add_tests-LacksAll :
      (j n : ℕ) (s : H.Set) (fos : List ℕ)
      → IsAbsent j fos
      → LacksAll s fos
      → LacksAll (add_tests F H j n s) fos
  add_tests-LacksAll j n s [] d h = tt
  add_tests-LacksAll j n s (i ∷ rest) (d, ds) (h, hs) =
      (add_tests-Lacks i j n s (λ e. d (sym e)) h, add_tests-LacksAll j n s rest ds hs)

  create-LacksAll : (fos : List ℕ) → LacksAll H.create fos
  create-LacksAll [] = tt
  create-LacksAll (i ∷ rest) = ((λ c. H.is_member-create (i, c)), create-LacksAll rest)

  abbrev counted : Option ℤ → ℕ
  counted none = 0
  counted (some n) = pos_part n

  -- How many tests killed each of the mutants, added up.
  abbrev pub total_kills : List (Mutant F) → List ℕ → ℕ
  total_kills foms [] = 0
  total_kills foms (i ∷ rest) = counted (kills_of F foms i) + total_kills foms rest

  from_set :
      (foms : List (Mutant F)) (fos : List ℕ) (s s' : H.Set)
      → IsDistinct fos
      → LacksAll s fos
      → test_killed_set F H foms fos s ≡ some s'
      → H.num_items s' ≡ H.num_items s + total_kills foms fos
  unfolding test_killed_set
  from_set foms [] s s' d h e = rw (← some-injective _ _ e) (omega arith)
  from_set foms (i ∷ rest) s s' (a, d) (h, hs) e = elim (Option-cases (kills_of F foms i)) [
    | inl missing ↦ absurd (cc (rw (missing, test_killed_set) at e))
    | inr (n, found) ↦ rw found (
        omega (
          arith,
          from_set foms rest (add_tests F H i (pos_part n) s) s' d
              (add_tests-LacksAll i (pos_part n) s rest a hs) (rw (found, test_killed_set) at e),
          num_items-add_tests i (pos_part n) s h,
        ))
  ]

  -- For different mutants, the set has as many items as the numbers of the tests that killed them
  -- add up to: a test that killed two of them is counted twice.
  pub num_items-test_killed_set :
      (foms : List (Mutant F)) (fos : List ℕ) (s : H.Set)
      → IsDistinct fos
      → test_killed_set F H foms fos H.create ≡ some s
      → H.num_items s ≡ total_kills foms fos
  num_items-test_killed_set foms fos s d e =
      from_set foms fos H.create s d (create-LacksAll fos) e ∙ rw H.num_items-create (omega arith)
