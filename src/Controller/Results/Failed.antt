-- ===== src/Controller/Results/Failed.antt =====
-- The numbers that the engine reads are those of the tests that failed.
use memory_mutation_testing.Base.Text.{codes}
use memory_mutation_testing.Base.{
  ℕ, zero, suc, ◌+◌, ◌<◌, ◌≡◌, ◌≢◌, refl, sym, ap, ◌∙◌, Bool, true, false, ◌||◌, some, List, [],
  ◌∷◌, arith, length, Bool-cases, inl, inr, ℤ, pos, eqb_ℤ,
}
use mathlib.Core.Option.{some-injective}
use memory_mutation_testing.CuTest.Assertion.{CuTest}
use memory_mutation_testing.CuTest.Suite.{CuSuite, run_tests, count_failed}
use memory_mutation_testing.CuTest.Report.{Reports, cu_suite_run, killed_ids, join_ids, buf_size}
use memory_mutation_testing.Controller.Results.{Stats, get_non_trivial_fom_stats}
use memory_mutation_testing.Controller.Results.RoundTrip.{stats-cu_suite_run}

-- Whether a number is in a list.
unfoldable pub is_listed : ℤ → List ℤ → Bool
is_listed n [] = false
is_listed n (m ∷ ms) = eqb_ℤ n m || is_listed n ms

-- Whether the test at an index has failed.
abbrev pub failed_at : List CuTest → ℕ → Bool
failed_at [] i = false
failed_at (t ∷ ts) zero = t.failed
failed_at (t ∷ ts) (suc i) = failed_at ts i

is_listed-below :
    (m j : ℕ) (ts : List CuTest) → m < j → is_listed (pos (suc m)) (killed_ids j ts) ≡ false
unfolding is_listed killed_ids
is_listed-below m j [] h = refl
is_listed-below m j (t ∷ ts) h = elim (Bool-cases t.failed) [
  | inl e ↦ rw e (ground (arith, is_listed-below m (suc j) ts))
  | inr e ↦ rw e (is_listed-below m (suc j) ts (omega arith))
]

is_listed-killed_ids :
    (i j : ℕ) (ts : List CuTest) → is_listed (pos (suc (j + i))) (killed_ids j ts) ≡ failed_at ts i
unfolding is_listed killed_ids
is_listed-killed_ids i j [] = refl
is_listed-killed_ids zero j (t ∷ ts) = elim (Bool-cases t.failed) [
  | inl e ↦ rw e (ground arith)
  | inr e ↦ rw e (is_listed-below (j + 0) (suc j) ts (omega arith))
]
is_listed-killed_ids (suc i) j (t ∷ ts) =
    let later : is_listed (pos (suc (j + suc i))) (killed_ids (suc j) ts) ≡ failed_at ts i =
      ap (λ n. is_listed (pos (suc n)) (killed_ids (suc j) ts)) (omega arith)
      ∙ is_listed-killed_ids i (suc j) ts in
    elim (Bool-cases t.failed) [ inl e ↦ rw e (ground arith) | inr e ↦ rw e later ]

is_listed-first :
    (i : ℕ) (ts : List CuTest) → is_listed (pos (suc i)) (killed_ids 0 ts) ≡ failed_at ts i
is_listed-first i ts =
    ap (λ n. is_listed (pos (suc n)) (killed_ids 0 ts)) (omega arith) ∙ is_listed-killed_ids i 0 ts

pub length-killed_ids : (j : ℕ) (ts : List CuTest) → length (killed_ids j ts) ≡ count_failed ts
unfolding killed_ids count_failed
length-killed_ids j [] = refl
length-killed_ids j (t ∷ ts) = ground (arith, length-killed_ids (suc j) ts)

-- When IS_MUTATE is set, some test fails, the numbers of the failed tests fit the buffer, and the
-- run of the suite gives its result, the engine reads from the file exactly the numbers, from 1, of
-- the tests that failed, and as many of them as the count of failed tests says.
pub ids-cu_suite_run :
    (suite : CuSuite) (files : Reports) (r : CuSuite × Reports) (i : ℕ)
    → (run_tests suite).fail_count ≢ 0
    → length (join_ids true (killed_ids 0 (run_tests suite).list)) < buf_size
    → cu_suite_run (some (codes "true")) suite files ≡ some r
    → (is_listed (pos (suc i)) (get_non_trivial_fom_stats r.1.temp).ids
        ≡ failed_at (run_tests suite).list i)
      × (pos (length (get_non_trivial_fom_stats r.1.temp).ids)
          ≡ (get_non_trivial_fom_stats r.1.temp).failed)
ids-cu_suite_run suite files r i some_failed fits ran =
    let (r', ran', told) = stats-cu_suite_run suite files some_failed fits in
    let same : r ≡ r' = some-injective _ _ (sym ran ∙ ran') in
    let told_r = ap (λ (x : CuSuite × Reports). get_non_trivial_fom_stats x.1.temp) same ∙ told in
    let ids = ap (λ (x : Stats). x.ids) told_r in
    let failed = ap (λ (x : Stats). x.failed) told_r in
    (
      ap (is_listed (pos (suc i))) ids ∙ is_listed-first i (run_tests suite).list,
      ap (λ l. pos (length l)) ids
          ∙ ap pos (length-killed_ids 0 (run_tests suite).list)
          ∙ sym failed,
    )
