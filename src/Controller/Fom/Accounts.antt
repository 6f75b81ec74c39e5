-- ===== src/Controller/Fom/Accounts.antt =====
-- The statistics of a mutation operator add up: each mutant that was generated has failed to build,
-- was killed, or survived in one of three classes.
pub mod Neutral
use memory_mutation_testing.Base.{
  ◌≡◌, refl, ap, ◌∙◌, Bool, true, false, ◌&&◌, ℤ, pos, ◌+ℤ◌, int_laws, if◌then◌else◌, Bool-cases,
  inl, inr,
}
use memory_mutation_testing.Base.Text.{Bytes, bytes_eq, bytes_eq→eq}
use memory_mutation_testing.Gstats.Table.{Table}
use Prim.Native.String.{String}
use text.Mathlib.Text.{◌==◌ as str_eq}

open_sum :
    (g a b c d e δ : ℤ) → g ≡ a +ℤ b +ℤ c +ℤ d +ℤ e +ℤ pos 0 → g +ℤ δ ≡ a +ℤ b +ℤ c +ℤ d +ℤ e +ℤ δ
open_sum g a b c d e δ h = grind int_laws

settle_first :
    (g a b c d e δ : ℤ) → g ≡ a +ℤ b +ℤ c +ℤ d +ℤ e +ℤ δ → g ≡ a +ℤ δ +ℤ b +ℤ c +ℤ d +ℤ e +ℤ pos 0
settle_first g a b c d e δ h = grind int_laws

settle_second :
    (g a b c d e δ : ℤ) → g ≡ a +ℤ b +ℤ c +ℤ d +ℤ e +ℤ δ → g ≡ a +ℤ (b +ℤ δ) +ℤ c +ℤ d +ℤ e +ℤ pos 0
settle_second g a b c d e δ h = grind int_laws

settle_third :
    (g a b c d e δ : ℤ) → g ≡ a +ℤ b +ℤ c +ℤ d +ℤ e +ℤ δ → g ≡ a +ℤ b +ℤ (c +ℤ δ) +ℤ d +ℤ e +ℤ pos 0
settle_third g a b c d e δ h = grind int_laws

settle_fourth :
    (g a b c d e δ : ℤ) → g ≡ a +ℤ b +ℤ c +ℤ d +ℤ e +ℤ δ → g ≡ a +ℤ b +ℤ c +ℤ (d +ℤ δ) +ℤ e +ℤ pos 0
settle_fourth g a b c d e δ h = grind int_laws

settle_fifth :
    (g a b c d e δ : ℤ) → g ≡ a +ℤ b +ℤ c +ℤ d +ℤ e +ℤ δ → g ≡ a +ℤ b +ℤ c +ℤ d +ℤ (e +ℤ δ) +ℤ pos 0
settle_fifth g a b c d e δ h = grind int_laws

-- Not one of the six keys.
pub record IsNeutral (k : String) : Type 0 where
  pub generated : str_eq k "generated_mutants" ≡ false
  pub failed : str_eq k "failed_injection" ≡ false
  pub killed : str_eq k "killed_by_tests" ≡ false
  pub equivalent : str_eq k "equivalent_mutants" ≡ false
  pub strong : str_eq k "survived_SD" ≡ false
  pub weak : str_eq k "survived_WD" ≡ false

module _ (T : Table) where
  -- The mutants of an operator whose evaluation has ended.
  abbrev pub ended : T.Doc → Bytes → ℤ
  ended d c =
      T.get d c "failed_injection"
      +ℤ T.get d c "killed_by_tests"
      +ℤ T.get d c "equivalent_mutants"
      +ℤ T.get d c "survived_SD"
      +ℤ T.get d c "survived_WD"

  -- With `open_mutants` of an operator still under evaluation.
  abbrev pub IsBalanced : T.Doc → Bytes → ℤ → Type 0
  IsBalanced d c open_mutants = T.get d c "generated_mutants" ≡ ended d c +ℤ open_mutants

  and_false : (a : Bool) → (a && false) ≡ false
  and_false true = refl
  and_false false = refl

  -- One mutant of an operator, seen from an operator.
  abbrev pub due : Bytes → Bytes → ℤ
  due code c = if bytes_eq code c then pos 1 else pos 0

  other_key :
      (d : T.Doc) (code : Bytes) (k : String) (v : ℤ) (c : Bytes) (k' : String)
      → str_eq k k' ≡ false
      → T.get (T.update d code k v) c k' ≡ T.get d c k'
  other_key d code k v c k' h =
      T.get-update d code k v c k' ∙ rw (h, and_false (bytes_eq code c)) refl

  same_key :
      (d : T.Doc) (code : Bytes) (k : String) (c : Bytes)
      → str_eq k k ≡ true
      → T.get (T.update d code k (T.get d code k +ℤ pos 1)) c k ≡ T.get d c k +ℤ due code c
  same_key d code k c h = elim (Bool-cases (bytes_eq code c)) [
    | inl e ↦
        T.get-update d code k _ c k
        ∙ rw (e, h) (ap (λ x. T.get d x k +ℤ pos 1) (bytes_eq→eq code c e))
    | inr e ↦ T.get-update d code k _ c k ∙ rw e (grind int_laws)
  ]

  -- A write to another key.
  pub neutral_update :
      (d : T.Doc) (code : Bytes) (k : String) (v : ℤ) (c : Bytes) (o : ℤ)
      → IsNeutral k
      → IsBalanced d c o
      → IsBalanced (T.update d code k v) c o
  neutral_update d code k v c o n h =
      rw
        (
          other_key d code k v c "generated_mutants" n.generated,
          other_key d code k v c "failed_injection" n.failed,
          other_key d code k v c "killed_by_tests" n.killed,
          other_key d code k v c "equivalent_mutants" n.equivalent,
          other_key d code k v c "survived_SD" n.strong,
          other_key d code k v c "survived_WD" n.weak,
        )
        h

  -- A mutant more is generated.
  pub open_update :
      (d : T.Doc) (code c : Bytes)
      → IsBalanced d c (pos 0)
      → IsBalanced
          (T.update d code "generated_mutants" (T.get d code "generated_mutants" +ℤ pos 1))
          c
          (due code c)
  open_update d code c h =
      rw
        (
          same_key d code "generated_mutants" c refl,
          other_key d code "generated_mutants" _ c "failed_injection" refl,
          other_key d code "generated_mutants" _ c "killed_by_tests" refl,
          other_key d code "generated_mutants" _ c "equivalent_mutants" refl,
          other_key d code "generated_mutants" _ c "survived_SD" refl,
          other_key d code "generated_mutants" _ c "survived_WD" refl,
        )
        (open_sum _ _ _ _ _ _ _ h)

  pub settle_failed_injection :
      (d : T.Doc) (code c : Bytes)
      → IsBalanced d c (due code c)
      → IsBalanced
          (T.update d code "failed_injection" (T.get d code "failed_injection" +ℤ pos 1))
          c
          (pos 0)
  settle_failed_injection d code c h =
      rw
        (
          same_key d code "failed_injection" c refl,
          other_key d code "failed_injection" _ c "generated_mutants" refl,
          other_key d code "failed_injection" _ c "killed_by_tests" refl,
          other_key d code "failed_injection" _ c "equivalent_mutants" refl,
          other_key d code "failed_injection" _ c "survived_SD" refl,
          other_key d code "failed_injection" _ c "survived_WD" refl,
        )
        (settle_first _ _ _ _ _ _ _ h)

  pub settle_killed_by_tests :
      (d : T.Doc) (code c : Bytes)
      → IsBalanced d c (due code c)
      → IsBalanced
          (T.update d code "killed_by_tests" (T.get d code "killed_by_tests" +ℤ pos 1))
          c
          (pos 0)
  settle_killed_by_tests d code c h =
      rw
        (
          same_key d code "killed_by_tests" c refl,
          other_key d code "killed_by_tests" _ c "generated_mutants" refl,
          other_key d code "killed_by_tests" _ c "failed_injection" refl,
          other_key d code "killed_by_tests" _ c "equivalent_mutants" refl,
          other_key d code "killed_by_tests" _ c "survived_SD" refl,
          other_key d code "killed_by_tests" _ c "survived_WD" refl,
        )
        (settle_second _ _ _ _ _ _ _ h)

  pub settle_equivalent_mutants :
      (d : T.Doc) (code c : Bytes)
      → IsBalanced d c (due code c)
      → IsBalanced
          (T.update d code "equivalent_mutants" (T.get d code "equivalent_mutants" +ℤ pos 1))
          c
          (pos 0)
  settle_equivalent_mutants d code c h =
      rw
        (
          same_key d code "equivalent_mutants" c refl,
          other_key d code "equivalent_mutants" _ c "generated_mutants" refl,
          other_key d code "equivalent_mutants" _ c "failed_injection" refl,
          other_key d code "equivalent_mutants" _ c "killed_by_tests" refl,
          other_key d code "equivalent_mutants" _ c "survived_SD" refl,
          other_key d code "equivalent_mutants" _ c "survived_WD" refl,
        )
        (settle_third _ _ _ _ _ _ _ h)

  pub settle_survived_sd :
      (d : T.Doc) (code c : Bytes)
      → IsBalanced d c (due code c)
      → IsBalanced (T.update d code "survived_SD" (T.get d code "survived_SD" +ℤ pos 1)) c (pos 0)
  settle_survived_sd d code c h =
      rw
        (
          same_key d code "survived_SD" c refl,
          other_key d code "survived_SD" _ c "generated_mutants" refl,
          other_key d code "survived_SD" _ c "failed_injection" refl,
          other_key d code "survived_SD" _ c "killed_by_tests" refl,
          other_key d code "survived_SD" _ c "equivalent_mutants" refl,
          other_key d code "survived_SD" _ c "survived_WD" refl,
        )
        (settle_fourth _ _ _ _ _ _ _ h)

  pub settle_survived_wd :
      (d : T.Doc) (code c : Bytes)
      → IsBalanced d c (due code c)
      → IsBalanced (T.update d code "survived_WD" (T.get d code "survived_WD" +ℤ pos 1)) c (pos 0)
  settle_survived_wd d code c h =
      rw
        (
          same_key d code "survived_WD" c refl,
          other_key d code "survived_WD" _ c "generated_mutants" refl,
          other_key d code "survived_WD" _ c "failed_injection" refl,
          other_key d code "survived_WD" _ c "killed_by_tests" refl,
          other_key d code "survived_WD" _ c "equivalent_mutants" refl,
          other_key d code "survived_WD" _ c "survived_SD" refl,
        )
        (settle_fifth _ _ _ _ _ _ _ h)
