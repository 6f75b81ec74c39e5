-- ===== src/Examples/Evaluate.antt =====
-- The evaluation of a mutant that the suite of Examples/Suite.antt kills, and the theorems on it.
use mathlib.Core.Logic.{◌↔◌}
use memory_mutation_testing.Base.{
  ℕ, ◌≡◌, refl, true, Option, none, some, List, [], ◌∷◌, arith, pos, ◌<◌, ◌≤◌, ◌≤ℤ◌, ◌==◌, eqb_ℤ,
  ◌+ℤ◌, ◌-ℤ◌, if◌then◌else◌, length,
}
use memory_mutation_testing.Base.Text.{bytes_eq, Bytes, codes, scan_int, atoi}
use memory_mutation_testing.CuTest.Suite.{CuSuite, run_tests, count_failed}
use memory_mutation_testing.CuTest.Report.{
  Reports, cu_suite_run, killed_text, killed_array, killed_ids, join_ids, temp_text,
  read_kill_count,
}
use memory_mutation_testing.Controller.Process.{
  make_polls, Wait, exited, running, start_make, run_make,
}
use memory_mutation_testing.Controller.Process.Timeout.{run_make_ended, run_make_timeout}
use memory_mutation_testing.Controller.Mutants.{FomResult, Observation, State}
use memory_mutation_testing.Controller.Fom.Counters.{IsTallied}
use memory_mutation_testing.Controller.Fom.{
  bump, count_errors, is_non_trivial, is_dumb, classify_killed, memory_deviates, new_errors_only,
}
use memory_mutation_testing.Controller.Results.{
  is_readable, killed_word, word_second, word_third, copies_within, stats_room, grown_stats,
  copied_ids, get_non_trivial_fom_stats, scan_second, scan_third, tokens, take_word,
}
use memory_mutation_testing.Cfg.{calculate_cfg_branch_deviation}
use memory_mutation_testing.Controller.Evaluate.{
  gen_results_fom, survived_tests, built_mutant, killed_by_tests, store_killed, record_deviation,
  begin_mutant, non_trivial_mutant, grow_non_trivial,
}
use memory_mutation_testing.Controller.Evaluate.Capacity.{CanRead, AllSound, kills_in, KillsRise}
use memory_mutation_testing.Controller.Evaluate.Overflow.{survived_tests-eq_none_iff}
use memory_mutation_testing.Controller.Evaluate.Detection.Sequence.{
  AllTested, ran, killed_among, survivors_among,
}
use memory_mutation_testing.Controller.Inject.Detection.{inject_mutations_counts}
use memory_mutation_testing.Controller.Inject.{
  DirEntry, Kind, directory, no_stat, other, initial_result, is_mutant, inject_mutations,
}
use memory_mutation_testing.Controller.Inject.Outcome.{
  inject_mutations-IsTallied, inject_mutations-total, mutants_in, backup,
}
use memory_mutation_testing.Controller.Evaluate.Named.{Names}
use memory_mutation_testing.Controller.Evaluate.Named.Sequence.{names_of, copy_after}
use memory_mutation_testing.Controller.Inject.Named.{inject_mutations-Names}
use memory_mutation_testing.Examples.Fractions.{fractions, fractions-IsExact}
use memory_mutation_testing.Examples.Memory.{memory}
use memory_mutation_testing.Controller.Results.Failed.{is_listed, failed_at, ids-cu_suite_run}
use memory_mutation_testing.Examples.Suite.{suite, files, one_failed, short_report}

abbrev no_result : FomResult fractions
no_result = initial_result fractions memory

abbrev pub start : State fractions memory
start = record {
  result = no_result;
  non_trivial_fom_buffer = 200;
  survived_buffer = 200;
  stats = ([], []);
  temp = codes "4 1 3 2";
  log = [];
}

-- make ends at its fourth poll.
abbrev polls : ℕ → Wait
polls i = if i == 3 then exited (pos 0) else running

abbrev pub seen : Observation
seen = record {
  make = polls;
  unset = pos 0;
  temp_after = codes "5 1 3 2";
  put_branches = some (codes "branch  0 taken 50%" ∷ []);
  mutant_branches = some (codes "branch  0 taken 25%" ∷ []);
  valgrind = some (record {
    valgrind_errors = [];
    valgrind_error_count = pos 3;
    unique_valgrind_error_count = pos 1;
  });
  stats_kept = true;
}

abbrev left : CuSuite × Reports
left = (run_tests suite, record { log = killed_text (run_tests suite); temp = codes "5 1 3 2" })

suite_ran : cu_suite_run (some (codes "true")) suite files ≡ some left
unfolding cu_suite_run bytes_eq run_tests killed_array killed_ids join_ids temp_text read_kill_count
    count_failed ◌+ℤ◌
suite_ran = refl

-- The second of the three tests failed.
ids-cu_suite_run_example :
    (is_listed (pos 2) (get_non_trivial_fom_stats left.1.temp).ids
      ≡ failed_at (run_tests suite).list 1)
    × (pos (length (get_non_trivial_fom_stats left.1.temp).ids)
        ≡ (get_non_trivial_fom_stats left.1.temp).failed)
ids-cu_suite_run_example = ids-cu_suite_run suite files left 1 one_failed short_report suite_ran

polls_before : (i : ℕ) → i < 3 → polls i ≡ running
polls_before i h = ground arith

run_make_ended_example : run_make (pos 0) polls ≡ (if eqb_ℤ (pos 0) (pos 2) then pos 2 else pos 0)
run_make_ended_example = run_make_ended polls (pos 0) 3 (pos 0) (omega arith) polls_before refl

run_make_timeout_example :
    (((start_make (pos 0) (λ i. running)).sigkill ≡ true)
      ↔ ((i : ℕ) → i < make_polls → Wait.running ≡ running))
    × ((start_make (pos 0) (λ i. running)).sigkill ≡ true → run_make (pos 0) (λ i. running) ≡ pos 2)
run_make_timeout_example = run_make_timeout (λ i. running) (pos 0)

abbrev state_or : Option (State fractions memory) → State fractions memory → State fractions memory
state_or none s = s
state_or (some s) _ = s

abbrev evaluate : Option (State fractions memory)
evaluate =
    gen_results_fom fractions memory (pos 1) (codes "ABS_12.c") (codes "m/ABS_12.c")
      (codes "m/a.c.original") seen start

evaluated : evaluate ≡ some (state_or evaluate start)
unfolding gen_results_fom built_mutant killed_by_tests store_killed record_deviation begin_mutant
    run_make start_make get_non_trivial_fom_stats scan_second scan_third scan_int tokens take_word
    atoi is_non_trivial is_dumb non_trivial_mutant grow_non_trivial calculate_cfg_branch_deviation
    ◌-ℤ◌ bump count_errors is_readable killed_word word_second word_third copies_within stats_room
    grown_stats copied_ids
evaluated = refl

-- One test of three fails: the mutant is killed, and not trivial.
evaluated_counts :
    ((state_or evaluate start).result.mutant_kill_count ≡ 1)
    × ((state_or evaluate start).result.non_trivial_fom_count ≡ 1)
    × ((state_or evaluate start).temp ≡ codes "5 1 3 2")
unfolding gen_results_fom built_mutant killed_by_tests store_killed record_deviation begin_mutant
    run_make start_make get_non_trivial_fom_stats scan_second scan_third scan_int tokens take_word
    atoi is_non_trivial is_dumb non_trivial_mutant grow_non_trivial calculate_cfg_branch_deviation
    ◌-ℤ◌ bump count_errors classify_killed memory_deviates new_errors_only is_readable killed_word
    word_second word_third copies_within stats_room grown_stats copied_ids
evaluated_counts = (refl, refl, refl)

abbrev entry : Bytes → Kind → DirEntry
entry name kind = record { name = name; kind = kind; observation = seen }

-- Only the second entry is a mutant.
abbrev pub entries : List DirEntry
entries =
    entry (codes "..") directory
    ∷ entry (codes "ABS_12.c") other
    ∷ entry (codes "a.c") other
    ∷ entry (codes "txl_original.c") other
    ∷ entry (codes "a.h") other
    ∷ entry (codes "gone.c") no_stat
    ∷ []

mutants_found :
    mutants_in (codes "m") (codes "a.c") entries
    ≡ ((codes "ABS_12.c", codes "m/ABS_12.c", seen) ∷ [])
unfolding is_mutant
mutants_found = refl

start_read : CanRead start.temp
unfolding get_non_trivial_fom_stats scan_second scan_third scan_int tokens take_word atoi
    is_readable killed_word word_second word_third copies_within stats_room grown_stats
start_read = (refl, refl)

entries_sound : AllSound (mutants_in (codes "m") (codes "a.c") entries)
unfolding get_non_trivial_fom_stats scan_second scan_third scan_int tokens take_word atoi is_mutant
    is_readable killed_word word_second word_third copies_within stats_room grown_stats
entries_sound = (((refl, refl), refl), tt)

start_known : pos 0 ≤ℤ kills_in start.temp
unfolding get_non_trivial_fom_stats scan_second scan_third scan_int
start_known = omega arith

entries-KillsRise : KillsRise start.temp (mutants_in (codes "m") (codes "a.c") entries)
unfolding get_non_trivial_fom_stats scan_second scan_third scan_int is_mutant
entries-KillsRise = (omega arith, tt)

few_entries : length (mutants_in (codes "m") (codes "a.c") entries) ≤ 200
unfolding is_mutant
few_entries = omega arith

-- The mutant is tested by the suite.
tests : AllTested start.temp (mutants_in (codes "m") (codes "a.c") entries)
unfolding is_mutant
tests = (
  ran suite files left (run_make_ended polls (pos 0) 3 (pos 0) (omega arith) polls_before refl) refl
      suite_ran refl refl,
  tt,
)

inject_mutations_counts_example :
    (s' : State fractions memory) × ((inject_mutations fractions memory
          (pos 1)
          (codes "m")
          (codes "a.c")
          entries
          start
        ≡ some s')
      × ((s'.result.mutant_kill_count
            ≡ killed_among start.temp (mutants_in (codes "m") (codes "a.c") entries) tests)
          × (s'.result.survived_count
              ≡ survivors_among start.temp (mutants_in (codes "m") (codes "a.c") entries) tests)))
inject_mutations_counts_example =
    inject_mutations_counts fractions memory (pos 1) (codes "m") (codes "a.c") entries start tests
      few_entries start_known start_read

-- A test of the suite fails on the one mutant.
one_killed : killed_among start.temp (mutants_in (codes "m") (codes "a.c") entries) tests ≡ 1
unfolding is_mutant tests run_tests count_failed
one_killed = refl

inject_mutations-total_example :
    (s' : State fractions memory) × (inject_mutations fractions memory
        (pos 1)
        (codes "m")
        (codes "a.c")
        entries
        start
      ≡ some s')
inject_mutations-total_example =
    inject_mutations-total fractions memory (pos 1) (codes "m") (codes "a.c") entries start
      few_entries start_known start_read.0 entries_sound entries-KillsRise

injected :
    (s' : State fractions memory) × (inject_mutations fractions memory
        (pos 1)
        (codes "m")
        (codes "a.c")
        entries
        start
      ≡ some s')
injected =
    inject_mutations-total fractions memory (pos 1) (codes "m") (codes "a.c") entries start
      few_entries start_known start_read.0 entries_sound entries-KillsRise

inject_mutations-IsTallied_example : IsTallied fractions 0 0 injected.0.result
inject_mutations-IsTallied_example =
    inject_mutations-IsTallied fractions memory (pos 1) (codes "m") (codes "a.c") fractions-IsExact
      entries start injected.0 injected.1

-- With 200 survivors the array is full.
abbrev full : State fractions memory
full = record start { result = record no_result { survived_count = 200 } }

survived_tests-eq_none_iff_example :
    (survived_tests fractions memory (pos 1) (codes "ABS") (codes "m/ABS_12.c") (pos 0, 1) none full
      ≡ none)
    ↔ (200 ≡ full.survived_buffer)
survived_tests-eq_none_iff_example =
    survived_tests-eq_none_iff fractions memory (pos 1) (codes "ABS") (codes "m/ABS_12.c")
      (pos 0, 1) none full (omega arith)

inject_mutations-Names_example :
    Names fractions memory
      (length (mutants_in (codes "m") (codes "a.c") entries))
      (copy_after none
        (backup fractions memory (pos 1) (codes "m") (codes "a.c"))
        (mutants_in (codes "m") (codes "a.c") entries))
      (names_of (mutants_in (codes "m") (codes "a.c") entries))
      injected.0
inject_mutations-Names_example =
    inject_mutations-Names fractions memory (pos 1) (codes "m") (codes "a.c") entries start
      injected.0 refl injected.1
