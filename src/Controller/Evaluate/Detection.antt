-- ===== src/Controller/Evaluate/Detection.antt =====
-- The tests decide: a mutant that was built is counted as killed exactly when the run of the suite
-- that make started has a failed test.
pub mod Sequence
use mathlib.Core.Option.{some-injective}
use mathlib.Core.Path.{subst, subst₂}
use memory_mutation_testing.Base.{
  ◌<◌, ◌≡◌, ◌≢◌, refl, sym, ap, ◌∙◌, Bool, true, false, not, none, some, arith, ltb, ltb→lt,
  Bool-cases, Option-cases, inl, inr, ℤ, pos, ◌+ℤ◌, ◌-ℤ◌, eqb_ℤ, eqb_ℤ-add_one, eqb_ℤ-sub_self,
  length, ◌==◌, ◌+◌, if◌then◌else◌,
}
use memory_mutation_testing.Base.Text.{codes, bytes_eq, Bytes, scan_int}
use memory_mutation_testing.Base.Double.{Double}
use memory_mutation_testing.Gstats.Table.{Table}
use memory_mutation_testing.CuTest.Suite.{CuSuite, run_tests}
use memory_mutation_testing.CuTest.Report.{
  Reports, cu_suite_run, read_kill_count, killed_ids, join_ids, buf_size,
}
use memory_mutation_testing.Controller.Process.{run_make}
use memory_mutation_testing.Controller.Results.{
  Stats, get_non_trivial_fom_stats, is_readable, copies_within, scan_second, scan_third,
}
use memory_mutation_testing.Controller.Results.RoundTrip.{
  join_killed, news, stats-cu_suite_run, stats-cu_suite_run_silent,
}
use memory_mutation_testing.Controller.Results.Bounds.{
  copies_within_lem, readable-cu_suite_run, all_listed,
}
use memory_mutation_testing.Controller.Evaluate.Capacity.{CanRead}
use memory_mutation_testing.Controller.Mutants.{Observation, State}
use memory_mutation_testing.Controller.Evaluate.{gen_results_fom}
use memory_mutation_testing.Controller.Evaluate.Verdict.{
  verdict_counts, counted, gen_results_fom-Ends,
}

third-kills : (k f : ℤ) (s : Bytes) → (scan_third k f s).kills ≡ k
unfolding scan_third
third-kills k f s = elim (Option-cases (scan_int s)) [
  | inl e ↦ rw (e, scan_third) refl
  | inr (p, e) ↦ rw (e, scan_third) refl
]

second-kills : (k : ℤ) (s : Bytes) → (scan_second k s).kills ≡ k
unfolding scan_second
second-kills k s = elim (Option-cases (scan_int s)) [
  | inl e ↦ rw (e, scan_second) refl
  | inr (p, e) ↦ rw (e, scan_second) (third-kills k p.0 p.1)
]

-- The engine and the suite read the same number of kills.
kills-read : (t : Bytes) → (get_non_trivial_fom_stats t).kills ≡ read_kill_count t
unfolding get_non_trivial_fom_stats read_kill_count
kills-read t = elim (Option-cases (scan_int t)) [
  | inl e ↦ rw (e, get_non_trivial_fom_stats, read_kill_count) refl
  | inr (p, e) ↦
      rw (e, get_non_trivial_fom_stats) (second-kills p.0 p.1 ∙ rw (e, read_kill_count) refl)
]

overrun :
    (suite : CuSuite) (files : Reports)
    → (run_tests suite).fail_count ≢ 0
    → ltb (length (join_ids true (killed_ids 0 (run_tests suite).list))) buf_size ≡ false
    → cu_suite_run (some (codes "true")) suite files ≡ none
unfolding cu_suite_run bytes_eq
overrun suite files failed e = rw (join_killed (run_tests suite).list) (ground arith)

-- Whether the file counts one more kill than another content of it.
abbrev counts_one_more : Bytes → Bytes → Bool
counts_one_more before after =
    eqb_ℤ ((get_non_trivial_fom_stats after).kills -ℤ (get_non_trivial_fom_stats before).kills)
      (pos 1)

module _ (suite : CuSuite) (files : Reports) (r : CuSuite × Reports)
    (ran : cu_suite_run (some (codes "true")) suite files ≡ some r) where
  -- A suite without failed tests leaves the file as it was.
  pub temp_silent : (run_tests suite).fail_count ≡ 0 → r.1.temp ≡ files.temp
  temp_silent e =
      let (r', ran', same) = stats-cu_suite_run_silent suite files e in
      ap (λ (x : CuSuite × Reports). x.1.temp) (some-injective _ _ (sym ran ∙ ran')) ∙ same

  quiet : (run_tests suite).fail_count ≡ 0 → counts_one_more files.temp r.1.temp ≡ false
  quiet e = ap (counts_one_more files.temp) (temp_silent e) ∙ eqb_ℤ-sub_self _

  kills_failed :
      (run_tests suite).fail_count ≢ 0
      → length (join_ids true (killed_ids 0 (run_tests suite).list)) < buf_size
      → (get_non_trivial_fom_stats r.1.temp).kills
        ≡ (get_non_trivial_fom_stats files.temp).kills +ℤ pos 1
  kills_failed failed fits =
      let (r', ran', told) = stats-cu_suite_run suite files failed fits in
      ap (λ (x : CuSuite × Reports). (get_non_trivial_fom_stats x.1.temp).kills)
        (some-injective _ _ (sym ran ∙ ran'))
      ∙ ap (λ (x : Stats). x.kills) told
      ∙ ap (λ k. k +ℤ pos 1) (sym (kills-read files.temp))

  loud :
      (run_tests suite).fail_count ≢ 0
      → length (join_ids true (killed_ids 0 (run_tests suite).list)) < buf_size
      → counts_one_more files.temp r.1.temp ≡ true
  loud failed fits =
      ap (λ k. eqb_ℤ (k -ℤ (get_non_trivial_fom_stats files.temp).kills) (pos 1))
        (kills_failed failed fits)
      ∙ eqb_ℤ-add_one _

  -- A suite with a failed test adds one to the number of kills.
  pub kills_loud :
      (run_tests suite).fail_count ≢ 0
      → (get_non_trivial_fom_stats r.1.temp).kills
        ≡ (get_non_trivial_fom_stats files.temp).kills +ℤ pos 1
  kills_loud failed =
      elim (Bool-cases
        (ltb (length (join_ids true (killed_ids 0 (run_tests suite).list))) buf_size)) [
          | inl fits ↦ kills_failed failed (ltb→lt _ _ fits)
          | inr full ↦ absurd (cc (ran, overrun suite files failed full))
        ]

  news-CanRead :
      (run_tests suite).fail_count ≢ 0
      → length (join_ids true (killed_ids 0 (run_tests suite).list)) < buf_size
      → CanRead r.1.temp
  news-CanRead failed fits =
      let (r', ran', told) = stats-cu_suite_run suite files failed fits in
      let (r'', ran'', read) = readable-cu_suite_run suite files failed fits in
      let e : r' ≡ r = some-injective _ _ (sym ran' ∙ ran) in
      let e' : r'' ≡ r = some-injective _ _ (sym ran'' ∙ ran) in
      (
        subst (λ (x : CuSuite × Reports). is_readable x.1.temp ≡ true) e' read,
        subst (λ (x : CuSuite × Reports). copies_within (get_non_trivial_fom_stats x.1.temp) ≡ true)
            e (ap copies_within told ∙ copies_within_lem (news suite files) (all_listed 0 suite)),
      )

  -- A file that can be read is followed by one that can be.
  pub ran-CanRead : CanRead files.temp → CanRead r.1.temp
  ran-CanRead h = elim (Bool-cases ((run_tests suite).fail_count == 0)) [
    | inl e ↦ subst CanRead (sym (temp_silent (ground arith))) h
    | inr e ↦
        elim (Bool-cases
          (ltb (length (join_ids true (killed_ids 0 (run_tests suite).list))) buf_size)) [
            | inl fits ↦ news-CanRead (ground arith) (ltb→lt _ _ fits)
            | inr full ↦ absurd (cc (ran, overrun suite files (ground arith) full))
          ]
  ]

  -- After a run of the suite that does not overrun its buffer.
  counts_one_more_lem :
      counts_one_more files.temp r.1.temp ≡ not ((run_tests suite).fail_count == 0)
  counts_one_more_lem = elim (Bool-cases ((run_tests suite).fail_count == 0)) [
    | inl e ↦ rw e (quiet (ground arith))
    | inr e ↦
        rw e
          (elim (Bool-cases
            (ltb (length (join_ids true (killed_ids 0 (run_tests suite).list))) buf_size)) [
              | inl fits ↦ loud (ground arith) (ltb→lt _ _ fits)
              | inr full ↦ cc (ran, overrun suite files (ground arith) full)
            ])
  ]

pub verdicts :
    (F : Double) (T : Table) (quiet_suite : Bool) (s s' : State F T)
    → verdict_counts F T s' ≡ counted F T (not quiet_suite) s
    → (s'.result.mutant_kill_count ≡ s.result.mutant_kill_count + (if quiet_suite then 0 else 1))
      × (s'.result.survived_count ≡ s.result.survived_count + (if quiet_suite then 1 else 0))
verdicts F T true s s' e = (ap (λ c. c.0) e ∙ omega arith, ap (λ c. c.1) e)
verdicts F T false s s' e = (ap (λ c. c.0) e, ap (λ c. c.1) e ∙ omega arith)

-- A mutant whose build succeeds, and whose tests are run by one run of a suite that finds in
-- temp_results.log what the engine found there, is counted once, when its evaluation does not
-- fault: as killed if a test of the suite has failed, and as survived if none has.
pub gen_results_fom-verdict_counts :
    (F : Double) (T : Table) (put_errors : ℤ) (str file mv_dir : Bytes) (ob : Observation)
    (s s' : State F T) (suite : CuSuite) (files : Reports) (r : CuSuite × Reports)
    → run_make ob.unset ob.make ≡ pos 0
    → files.temp ≡ s.temp
    → cu_suite_run (some (codes "true")) suite files ≡ some r
    → ob.temp_after ≡ r.1.temp
    → gen_results_fom F T put_errors str file mv_dir ob s ≡ some s'
    → (s'.result.mutant_kill_count
        ≡ s.result.mutant_kill_count + (if (run_tests suite).fail_count == 0 then 0 else 1))
      × (s'.result.survived_count
          ≡ s.result.survived_count + (if (run_tests suite).fail_count == 0 then 1 else 0))
gen_results_fom-verdict_counts F T put_errors str file mv_dir ob s s' suite files r made same ran
      left e =
    let one_more = not ((run_tests suite).fail_count == 0) in
    let ended : verdict_counts F T s' ≡ counted F T one_more s = rw e at (
      gen_results_fom-Ends F T put_errors str file mv_dir ob s one_more made (
        subst₂ (λ b a. counts_one_more b a ≡ one_more) same (sym left)
          (counts_one_more_lem suite files r ran))) in
    verdicts F T ((run_tests suite).fail_count == 0) s s' ended
