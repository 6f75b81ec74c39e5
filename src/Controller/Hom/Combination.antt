-- ===== src/Controller/Hom/Combination.antt =====
-- Lists of indices that are all different.
use memory_mutation_testing.Base.{
  ℕ, suc, ◌≤◌, ◌<◌, ◌≡◌, ◌≢◌, ◌⊎◌, sym, ◌∙◌, arith, true, List, [], ◌∷◌, ◌++◌, leb, length, inl,
  inr,
}
use memory_mutation_testing.Controller.Hom.Kills.{IsAbsent, IsDistinct}
use memory_mutation_testing.Controller.Hom.Room.{IsBelow}

-- Two or more different indices, each below `n`, and at most `n` of them.
pub record IsCombination (n : ℕ) (fos : List ℕ) : Type 0 where
  pub distinct : IsDistinct fos
  pub below : IsBelow n fos
  pub at_least_two : 2 ≤ length fos
  pub at_most : length fos ≤ n

-- Each index is `r`, or was passed before `i`.
abbrev pub IsOld : ℕ → ℕ → List ℕ → Type 0
IsOld r i [] = Unit {0}
IsOld r i (x ∷ fos) = ((x ≡ r) ⊎ (x < i)) × IsOld r i fos

pub IsOld-suc : (r i : ℕ) (fos : List ℕ) → IsOld r i fos → IsOld r (suc i) fos
IsOld-suc r i [] h = tt
IsOld-suc r i (x ∷ fos) (h, hs) =
    (elim h [ inl e ↦ inl e | inr l ↦ inr (omega arith) ], IsOld-suc r i fos hs)

pub IsOld-IsAbsent : (r i : ℕ) (fos : List ℕ) → i ≢ r → IsOld r i fos → IsAbsent i fos
IsOld-IsAbsent r i [] d h = tt
IsOld-IsAbsent r i (x ∷ fos) d (h, hs) = (
  λ e. elim h [ inl same ↦ d (e ∙ same) | inr l ↦ absurd (omega arith) ],
  IsOld-IsAbsent r i fos d hs,
)

pub IsOld-append : (r i : ℕ) (fos : List ℕ) → IsOld r i fos → IsOld r (suc i) (fos ++ (i ∷ []))
IsOld-append r i [] h = (inr (omega arith), tt)
IsOld-append r i (x ∷ fos) (h, hs) =
    (elim h [ inl e ↦ inl e | inr l ↦ inr (omega arith) ], IsOld-append r i fos hs)

IsAbsent-append : (x i : ℕ) (fos : List ℕ) → x ≢ i → IsAbsent x fos → IsAbsent x (fos ++ (i ∷ []))
IsAbsent-append x i [] d h = (d, tt)
IsAbsent-append x i (y ∷ fos) d (h, hs) = (h, IsAbsent-append x i fos d hs)

pub IsDistinct-append :
    (i : ℕ) (fos : List ℕ) → IsAbsent i fos → IsDistinct fos → IsDistinct (fos ++ (i ∷ []))
IsDistinct-append i [] a h = (tt, tt)
IsDistinct-append i (x ∷ fos) (d, a) (h, hs) =
    (IsAbsent-append x i fos (λ e. d (sym e)) h, IsDistinct-append i fos a hs)

pub at_most_of : (m n : ℕ) → leb m n ≡ true → m ≤ n
at_most_of m n e = ground arith
