-- ===== src/Examples/Libcheck.antt =====
-- Two mutants of a source file, with a runner of two suites in which one of three tests fails.
use memory_mutation_testing.Base.{
  ◌+◌, ◌≤◌, ◌<◌, ◌≡◌, ◌≢◌, refl, true, none, some, Option, List, [], ◌∷◌, arith, length, pos, ◌+ℤ◌,
  ◌≤ℤ◌,
}
use memory_mutation_testing.Base.Text.{atoi, Bytes, codes, bytes_eq, scan_int}
use memory_mutation_testing.CuTest.Report.{Reports, join_ids, temp_text}
use memory_mutation_testing.Controller.Results.{
  is_readable, killed_word, word_second, word_third, copies_within, stats_room, grown_stats, tokens,
  take_word, get_non_trivial_fom_stats, scan_second, scan_third,
}
use memory_mutation_testing.Controller.Mutants.{State, Observation}
use memory_mutation_testing.Controller.Process.{exited}
use memory_mutation_testing.Controller.Evaluate.Capacity.{AllSound, kills_in, KillsRise}
use memory_mutation_testing.Controller.Inject.{
  DirEntry, other, initial_result, is_mutant, inject_mutations,
}
use memory_mutation_testing.Controller.Inject.Outcome.{inject_mutations-total, mutants_in}
use memory_mutation_testing.Libcheck.{
  Element, SRunner, srunner_free, record_mutation_results, record_killed, new_num, killed_text,
  killed_by_tests, conversions, printed_ids, srunner_ntests_failed, is_terminated, text_size,
}
use memory_mutation_testing.Libcheck.Recorded.{news, stats-record_mutation_results}
use memory_mutation_testing.Libcheck.Unkilled.{run, done}
use memory_mutation_testing.Libcheck.Unkilled.Sequence.{AllRecorded, IsRecorded}
use memory_mutation_testing.Libcheck.Unkilled.Directory.{inject_mutations-Unkilled}
use memory_mutation_testing.Examples.Fractions.{fractions, fractions-IsExact}
use memory_mutation_testing.Examples.Memory.{memory}

abbrev suite : Option Element
suite = some (record { rtype = pos 4096; tcname = none; tname = none; msg = none })

abbrev runner : SRunner
runner = record { slst = suite ∷ suite ∷ []; n_checked = 3; n_failed = 1; n_errors = 0 }

abbrev files_with : Bytes → Reports
files_with t = record { log = []; temp = t }

abbrev after_run : Bytes
after_run = codes "2 1 3 1,2"

first_text : new_num runner (files_with (codes "0")) ≡ after_run
unfolding new_num temp_text join_ids killed_by_tests conversions scan_int ◌+ℤ◌
first_text = refl

next_text : new_num runner (files_with after_run) ≡ after_run
unfolding new_num temp_text join_ids killed_by_tests conversions scan_int ◌+ℤ◌
next_text = refl

two_ids : printed_ids runner ≡ pos 1 ∷ pos 2 ∷ []
unfolding killed_by_tests
two_ids = refl

one_failed : srunner_ntests_failed runner ≢ 0
one_failed e = omega arith

some_printed : length (printed_ids runner) ≢ 0
some_printed e = absurd (omega (arith, rw two_ids at e))

terminated : is_terminated 3 (length (killed_by_tests 0 runner.slst)) ≡ true
unfolding killed_by_tests
terminated = refl

ids_fit : length (join_ids true (printed_ids runner)) < text_size
unfolding join_ids killed_by_tests
ids_fit = omega arith

text_fits : length (new_num runner (files_with (codes "0"))) < text_size
text_fits = rw first_text (omega arith)

stats-record_mutation_results_example :
    (files' : Reports) × ((record_mutation_results true
          (some (codes "true"))
          runner
          (files_with (codes "0"))
        ≡ some files')
      × (get_non_trivial_fom_stats files'.temp ≡ news runner (files_with (codes "0"))))
stats-record_mutation_results_example =
    stats-record_mutation_results runner (files_with (codes "0")) one_failed some_printed terminated
      ids_fit text_fits

-- What the runner leaves of the two files.
abbrev left_of : Bytes → Reports
left_of t = record { log = killed_text runner; temp = new_num runner (files_with t) }

first_run :
    srunner_free true (some (codes "true")) (some runner) (files_with (codes "0"))
    ≡ some (left_of (codes "0"))
unfolding srunner_free record_mutation_results record_killed bytes_eq join_ids killed_by_tests
    new_num conversions scan_int ◌+ℤ◌ temp_text
first_run = refl

next_run :
    srunner_free true (some (codes "true")) (some runner) (files_with after_run)
    ≡ some (left_of after_run)
unfolding srunner_free record_mutation_results record_killed bytes_eq join_ids killed_by_tests
    new_num conversions scan_int ◌+ℤ◌ temp_text
next_run = refl

first-IsRecorded : IsRecorded (codes "0") after_run
first-IsRecorded = record {
  files = files_with (codes "0");
  files' = left_of (codes "0");
  before = refl;
  after = first_text;
  runs = run true _ _ first_run done;
}

next-IsRecorded : IsRecorded after_run after_run
next-IsRecorded = record {
  files = files_with after_run;
  files' = left_of after_run;
  before = refl;
  after = next_text;
  runs = run true _ _ next_run done;
}

abbrev tested : Observation
tested = record {
  make = λ i. exited (pos 0);
  unset = pos 0;
  temp_after = after_run;
  put_branches = none;
  mutant_branches = none;
  valgrind = none;
  stats_kept = true;
}

abbrev entry : Bytes → DirEntry
entry name = record { name = name; kind = other; observation = tested }

abbrev entries : List DirEntry
entries = entry (codes "ABS_1.c") ∷ entry (codes "ABS_2.c") ∷ entry (codes "a.c") ∷ []

abbrev start : State fractions memory
start = record {
  result = initial_result fractions memory;
  non_trivial_fom_buffer = 200;
  survived_buffer = 200;
  stats = ([], []);
  temp = codes "0";
  log = [];
}

all_recorded : AllRecorded (codes "0") (mutants_in (codes "m") (codes "a.c") entries)
unfolding is_mutant
all_recorded = (first-IsRecorded, (next-IsRecorded, tt))

few_entries : length (mutants_in (codes "m") (codes "a.c") entries) ≤ 200
unfolding is_mutant
few_entries = omega arith

zero_known : pos 0 ≤ℤ kills_in (codes "0")
unfolding get_non_trivial_fom_stats scan_second scan_third scan_int
zero_known = omega arith

entries-KillsRise : KillsRise (codes "0") (mutants_in (codes "m") (codes "a.c") entries)
unfolding get_non_trivial_fom_stats scan_second scan_third scan_int is_mutant
entries-KillsRise = (omega arith, (omega arith, tt))

zero_read : is_readable (codes "0") ≡ true
unfolding is_readable killed_word word_second word_third scan_int
zero_read = refl

entries_sound : AllSound (mutants_in (codes "m") (codes "a.c") entries)
unfolding get_non_trivial_fom_stats scan_second scan_third scan_int tokens take_word atoi is_mutant
    is_readable killed_word word_second word_third copies_within stats_room grown_stats
entries_sound = (((refl, refl), refl), (((refl, refl), refl), tt))

injected :
    (s' : State fractions memory) × (inject_mutations fractions memory
        (pos 0)
        (codes "m")
        (codes "a.c")
        entries
        start
      ≡ some s')
injected =
    inject_mutations-total fractions memory (pos 0) (codes "m") (codes "a.c") entries start
      few_entries zero_known zero_read entries_sound entries-KillsRise

inject_mutations-Unkilled_example :
    (injected.0.result.mutant_kill_count ≡ injected.0.result.failed_injection)
    × (injected.0.result.total_mutants
        ≡ injected.0.result.failed_injection + injected.0.result.survived_count)
    × (injected.0.result.non_trivial_foms ≡ [])
inject_mutations-Unkilled_example =
    inject_mutations-Unkilled fractions memory (pos 0) (codes "m") (codes "a.c") fractions-IsExact
      entries start injected.0 refl all_recorded injected.1
