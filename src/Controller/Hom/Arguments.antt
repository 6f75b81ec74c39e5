-- ===== src/Controller/Hom/Arguments.antt =====
-- controller.c, lines 818 to 831: the arguments that `genHOMFitness` gives to combineFOM.sh.
use mathlib.Core.List.{append_assoc}
use mathlib.Core.Option
use mathlib.Core.Path.{subst}
use memory_mutation_testing.Base.{
  ℕ, zero, suc, ◌+◌, ◌≡◌, refl, sym, ap, ◌∙◌, arith, Option, none, some, List, [], ◌∷◌, ◌++◌, map,
  length, length-append,
}
use memory_mutation_testing.Base.Text.{Bytes, codes}

infixl 5 ◌>>=◌
abbrev ◌>>=◌ {ℓ κ} : {A : Type ℓ} {B : Type κ} → Option A → (A → Option B) → Option B
none >>= f = none
some a >>= f = f a

-- A place in the array of the arguments.
pub data Cell : Type 0 where
  unset : Cell
  null : Cell
  text : Bytes → Cell

-- `malloc`
unfoldable pub allocated : ℕ → List Cell
allocated zero = []
allocated (suc n) = unset ∷ allocated n

-- `none` where it is written behind the end.
unfoldable pub store : ℕ → Cell → List Cell → Option (List Cell)
store i c [] = none
store zero c (x ∷ cells) = some (c ∷ cells)
store (suc i) c (x ∷ cells) = Option.map (λ rest. x ∷ rest) (store i c cells)

-- The loop over the mutants, where `k` is `i+3`.
unfoldable pub store_mutants : ℕ → List Bytes → List Cell → Option (List Cell)
unfolding store
store_mutants k [] cells = some cells
store_mutants k (file ∷ files) cells = elim (store k (text file) cells) [
  | none ↦ none
  | some stored ↦ store_mutants (suc k) files stored
]

-- `args_combineFOM`, for the source files of the mutants.
unfoldable pub combine_args : Bytes → List Bytes → Option (List Cell)
unfolding store allocated store_mutants
combine_args original_source files = do
  first ← store 0 (text (codes "bash")) (allocated (length files + 4))
  second ← store 1 (text (codes "combineFOM.sh")) first
  third ← store 2 (text original_source) second
  ended ← store (length files + 2) null third
  store_mutants 3 files ended

-- The arguments that `execvp` finds up to the null pointer; `none` where it reads a place that was
-- never set, or behind the end.
unfoldable pub argv : List Cell → Option (List Bytes)
argv [] = none
argv (unset ∷ cells) = none
argv (null ∷ cells) = some []
argv (text t ∷ cells) = Option.map (λ rest. t ∷ rest) (argv cells)

store_at :
    (pre : List Cell) (c x : Cell) (post : List Cell)
    → store (length pre) c (pre ++ (x ∷ post)) ≡ some (pre ++ (c ∷ post))
unfolding store
store_at [] c x post = refl
store_at (y ∷ pre) c x post = rw (store_at pre c x post) refl

store_mutants_at :
    (files : List Bytes) (pre xs post : List Cell) (k : ℕ)
    → length pre ≡ k
    → length xs ≡ length files
    → store_mutants k files (pre ++ (xs ++ post)) ≡ some (pre ++ (map text files ++ post))
unfolding store_mutants
store_mutants_at [] pre [] post k e l = refl
store_mutants_at [] pre (x ∷ xs) post k e l = absurd (omega (arith, l))
store_mutants_at (file ∷ files) pre [] post k e l = absurd (omega (arith, l))
store_mutants_at (file ∷ files) pre (x ∷ xs) post k e l =
    rw (sym e, store_at pre (text file) x (xs ++ post), store_mutants)
      (next file files pre xs post _ (
        store_mutants_at files (pre ++ (text file ∷ [])) xs post _
          (length-append pre (text file ∷ []) ∙ omega (arith, e)) (omega (arith, l))))
  where
    next :
        (file : Bytes) (files : List Bytes) (pre xs post : List Cell) (k : ℕ)
        → store_mutants k files ((pre ++ (text file ∷ [])) ++ (xs ++ post))
          ≡ some ((pre ++ (text file ∷ [])) ++ (map text files ++ post))
        → store_mutants k files (pre ++ (text file ∷ (xs ++ post)))
          ≡ some (pre ++ (text file ∷ (map text files ++ post)))
    next file files pre xs post k h =
        subst
          (λ cells.
            store_mutants k files cells ≡ some (pre ++ (text file ∷ (map text files ++ post))))
          (append_assoc pre (text file ∷ []) (xs ++ post))
          (h ∙ ap some (append_assoc pre (text file ∷ []) (map text files ++ post)))

store_end :
    (m : ℕ) → store m null (allocated (suc (suc m))) ≡ some (allocated m ++ (null ∷ unset ∷ []))
unfolding store allocated
store_end zero = refl
store_end (suc m) = rw (store_end m) refl

length-allocated : (m : ℕ) → length (allocated m) ≡ m
unfolding allocated
length-allocated zero = refl
length-allocated (suc m) = omega (arith, length-allocated m)

-- The arguments without their last place.
abbrev pub arguments : Bytes → List Bytes → List Bytes
arguments original_source files = codes "bash" ∷ codes "combineFOM.sh" ∷ original_source ∷ files

five : (m : ℕ) → suc m + 4 ≡ suc (suc (suc (suc (suc m))))
five m = omega arith

three : (m : ℕ) → suc m + 2 ≡ suc (suc (suc m))
three m = omega arith

-- The array before the loop.
prepared :
    (original_source file : Bytes) (files : List Bytes)
    → combine_args original_source (file ∷ files)
      ≡ store_mutants 3 (file ∷ files) (
          map text (arguments original_source [])
          ++ (allocated (length files) ++ (null ∷ unset ∷ [])))
unfolding combine_args store allocated
prepared original_source file files =
    rw (five (length files), three (length files), store_end (length files)) refl

filled :
    (original_source file : Bytes) (files : List Bytes)
    → combine_args original_source (file ∷ files)
      ≡ some (map text (arguments original_source (file ∷ files)) ++ (unset ∷ []))
filled original_source file files =
    prepared original_source file files
    ∙ ap
        (λ cells. store_mutants 3 (file ∷ files) (map text (arguments original_source []) ++ cells))
        (sym (append_assoc (allocated (length files)) (null ∷ []) (unset ∷ [])))
    ∙ store_mutants_at (file ∷ files) (map text (arguments original_source []))
        (allocated (length files) ++ (null ∷ [])) (unset ∷ []) 3 refl
        (length-append (allocated (length files)) (null ∷ [])
          ∙ omega (arith, length-allocated (length files)))

argv_unset : (ts : List Bytes) → argv (map text ts ++ (unset ∷ [])) ≡ none
unfolding argv
argv_unset [] = refl
argv_unset (t ∷ ts) = rw (argv_unset ts) refl

-- For one mutant or more no write passes the end of the array, and the script finds its name, the
-- original and the mutants in order; but the last mutant replaces the null pointer that was to end
-- the array, and the place behind it is never set: `execvp` reads it.
pub argv-combine_args :
    (original_source file : Bytes) (files : List Bytes)
    → (cells : List Cell) × ((combine_args original_source (file ∷ files) ≡ some cells)
        × ((cells ≡ map text (arguments original_source (file ∷ files)) ++ (unset ∷ []))
            × (argv cells ≡ none)))
argv-combine_args original_source file files = (
  _,
  (
    filled original_source file files,
    (refl, argv_unset (arguments original_source (file ∷ files))),
  ),
)
