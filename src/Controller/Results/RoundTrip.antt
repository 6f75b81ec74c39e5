-- ===== src/Controller/Results/RoundTrip.antt =====
-- What `CuSuiteRun` writes to temp_results.log, `get_non_trivial_FOM_stats` reads back.
use memory_mutation_testing.Base.{
  ℕ, zero, suc, ◌<◌, ◌≡◌, refl, ◌∙◌, ap, ◌≢◌, Bool, true, false, some, List, [], ◌∷◌, ◌++◌, map,
  arith, ℤ, pos, negsuc, ◌+ℤ◌, replicate, length,
}
use memory_mutation_testing.Base.Text.{
  codes, bytes_eq, Bytes, is_digit, is_space, skip_space, scan_int, atoi,
}
use memory_mutation_testing.Base.Decimal.{
  AllDigits, print_int, print_int-AllDigits, scan_int-print_int,
}
use memory_mutation_testing.CuTest.Assertion.{CuTest}
use memory_mutation_testing.CuTest.Suite.{CuSuite, run_tests, count_failed}
use memory_mutation_testing.CuTest.Report.{
  Reports, comma, join_ids, killed_ids, killed_array, temp_text, read_kill_count, buf_size,
  cu_suite_run, killed_text, survived_text,
}
use memory_mutation_testing.Controller.Results.{
  Stats, take_word, tokens, scan_third, scan_second, get_non_trivial_fom_stats,
}
use memory_mutation_testing.Controller.Results.Tokens.{
  AllPositive, join_ids-suc, join_ids-nil, join_ids_zero, atoi-tokens-join_ids,
}

-- No white space.
abbrev AllPlain : Bytes → Type 0
AllPlain [] = Unit {0}
AllPlain (c ∷ s) = (is_space c ≡ false) × AllPlain s

digit-plain : (c : ℕ) → is_digit c ≡ true → is_space c ≡ false
digit-plain c h = ground arith

digits-AllPlain : (ds s : Bytes) → AllDigits ds → AllPlain s → AllPlain (ds ++ s)
digits-AllPlain [] s h p = p
digits-AllPlain (d ∷ ds) s h p = (digit-plain d h.0, digits-AllPlain ds s h.1 p)

comma-AllPlain : (first : Bool) (s : Bytes) → AllPlain s → AllPlain (comma first ++ s)
comma-AllPlain true s p = p
comma-AllPlain false s p = (refl, p)

join_ids-AllPlain : (first : Bool) (ns : List ℤ) → AllPositive ns → AllPlain (join_ids first ns)
join_ids-AllPlain first [] h = rw join_ids-nil tt
join_ids-AllPlain first (pos zero ∷ ns) h = elim h [ ]
join_ids-AllPlain first (negsuc n ∷ ns) h = elim h [ ]
join_ids-AllPlain first (pos (suc n) ∷ ns) h = rw join_ids-suc (
    comma-AllPlain first _ (
      digits-AllPlain (print_int (pos (suc n))) _ (print_int-AllDigits (suc n))
        (join_ids-AllPlain false ns h)))

take_word-plain : (s : Bytes) → AllPlain s → take_word s ≡ s
unfolding take_word
take_word-plain [] p = refl
take_word-plain (c ∷ s) p = rw p.0 (ap (λ r. c ∷ r) (take_word-plain s p.1))

skip_space-plain : (s : Bytes) → AllPlain s → skip_space s ≡ s
unfolding skip_space
skip_space-plain [] p = refl
skip_space-plain (c ∷ s) p = rw p.0 refl

pub word_of_ids :
    (ns : List ℤ)
    → AllPositive ns
    → take_word (skip_space (b' ' ∷ join_ids true ns)) ≡ join_ids true ns
unfolding skip_space
word_of_ids ns h =
    let p = join_ids-AllPlain true ns h in ap take_word (skip_space-plain _ p) ∙ take_word-plain _ p

-- After a blank, `%d` reads a number that a blank follows.
pub scan_int-blank :
    (n : ℤ) (s : Bytes) → scan_int (b' ' ∷ (print_int n ++ (b' ' ∷ s))) ≡ some (n, b' ' ∷ s)
unfolding scan_int
scan_int-blank n s = scan_int-print_int n (b' ' ∷ s) refl

third_of :
    (k f : ℤ) (s : Bytes) {c : ℤ} {r : Bytes}
    → scan_int s ≡ some (c, r)
    → scan_third k f s ≡ record {
      kills = k;
      failed = f;
      total = c;
      ids = map atoi (tokens (take_word (skip_space r)));
    }
unfolding scan_third
third_of k f s e = rw (e, scan_third) refl

second_of :
    (k : ℤ) (s : Bytes) {f : ℤ} {r : Bytes}
    → scan_int s ≡ some (f, r)
    → scan_second k s ≡ scan_third k f r
unfolding scan_second
second_of k s e = rw (e, scan_second) refl

first_of_temp :
    (s : Bytes) {k : ℤ} {r : Bytes}
    → scan_int s ≡ some (k, r)
    → get_non_trivial_fom_stats s ≡ scan_second k r
unfolding get_non_trivial_fom_stats
first_of_temp s e = rw (e, get_non_trivial_fom_stats) refl

ids_of_word :
    (ns : List ℤ)
    → AllPositive ns
    → map atoi (tokens (take_word (skip_space (b' ' ∷ join_ids true ns)))) ≡ ns
ids_of_word ns h = ap (λ s. map atoi (tokens s)) (word_of_ids ns h) ∙ atoi-tokens-join_ids ns h

pub stats-temp_text :
    (k f c : ℤ) (ns : List ℤ)
    → AllPositive ns
    → get_non_trivial_fom_stats (temp_text k f c (join_ids true ns))
      ≡ record { kills = k; failed = f; total = c; ids = ns }
unfolding temp_text
stats-temp_text k f c ns h =
    first_of_temp _ (scan_int-print_int k _ refl)
    ∙ second_of k _ (scan_int-blank f _)
    ∙ third_of k f _ (scan_int-blank c (join_ids true ns))
    ∙ ap (λ l. record { kills = k; failed = f; total = c; ids = l }) (ids_of_word ns h)

pub killed_ids-AllPositive : (j : ℕ) (ts : List CuTest) → AllPositive (killed_ids j ts)
unfolding killed_ids
killed_ids-AllPositive j [] = tt
killed_ids-AllPositive j (t ∷ ts) = ground (arith, killed_ids-AllPositive (suc j) ts)

-- The zeros behind the numbers are not printed.
join_ids-zeros :
    (first : Bool) (ns : List ℤ) (k : ℕ)
    → AllPositive ns
    → join_ids first (ns ++ replicate k (pos 0)) ≡ join_ids first ns
join_ids-zeros first [] zero h = refl
join_ids-zeros first [] (suc k) h = rw join_ids-nil (join_ids_zero first (replicate k (pos 0)))
join_ids-zeros first (pos zero ∷ ns) k h = elim h [ ]
join_ids-zeros first (negsuc n ∷ ns) k h = elim h [ ]
join_ids-zeros first (pos (suc n) ∷ ns) k h =
    rw (join_ids-suc first n ns, join_ids-suc first n (ns ++ replicate k (pos 0)))
      (rw (join_ids-zeros false ns k h) refl)

pub join_killed :
    (ts : List CuTest) → join_ids true (killed_array ts) ≡ join_ids true (killed_ids 0 ts)
unfolding killed_array
join_killed ts = join_ids-zeros true (killed_ids 0 ts) _ (killed_ids-AllPositive 0 ts)

-- What the engine learns of a run of the tests in which some fail.
abbrev pub news : CuSuite → Reports → Stats
news suite files = record {
  kills = read_kill_count files.temp +ℤ pos 1;
  failed = pos (count_failed (run_tests suite).list);
  total = pos (length (run_tests suite).list);
  ids = killed_ids 0 (run_tests suite).list;
}

-- When IS_MUTATE is set, some test fails and the numbers of the failed tests fit the buffer, the
-- run of the suite succeeds, and the engine reads from the file that it leaves one more kill than
-- the file held before, how many tests failed and how many there are, and the numbers that the
-- suite lists for those that failed.
pub stats-cu_suite_run :
    (suite : CuSuite) (files : Reports)
    → (run_tests suite).fail_count ≢ 0
    → length (join_ids true (killed_ids 0 (run_tests suite).list)) < buf_size
    → (r : CuSuite × Reports) × (cu_suite_run (some (codes "true")) suite files ≡ some r)
      × (get_non_trivial_fom_stats r.1.temp ≡ news suite files)
unfolding cu_suite_run bytes_eq
stats-cu_suite_run suite files some_failed fits = (
  (
    run_tests suite,
    record {
      log = files.log ++ killed_text (run_tests suite);
      temp =
          temp_text (read_kill_count files.temp +ℤ pos 1)
            (pos (count_failed (run_tests suite).list)) (pos (length (run_tests suite).list))
            (join_ids true (killed_ids 0 (run_tests suite).list));
    },
  ),
  rw (join_killed (run_tests suite).list) (ground arith),
  stats-temp_text _ _ _ _ (killed_ids-AllPositive 0 (run_tests suite).list),
)

-- When no test fails, the run of the suite succeeds and leaves temp_results.log as it was.
pub stats-cu_suite_run_silent :
    (suite : CuSuite) (files : Reports)
    → (run_tests suite).fail_count ≡ 0
    → (r : CuSuite × Reports) × (cu_suite_run (some (codes "true")) suite files ≡ some r)
      × (r.1.temp ≡ files.temp)
unfolding cu_suite_run bytes_eq
stats-cu_suite_run_silent suite files h =
    ((run_tests suite, record files { log = files.log ++ survived_text }), ground arith, refl)
