-- ===== src/Examples/Main.antt =====
-- A run of the engine on a program of one file, with the mutants of Examples/Evaluate.antt.
use mathlib.Core.Logic.{◌↔◌}
use memory_mutation_testing.Base.{
  ◌-ℤ◌, ◌+ℤ◌, ℕ, zero, suc, ◌≡◌, refl, true, Option, none, some, List, [], ◌∷◌, pos, if◌then◌else◌,
}
use memory_mutation_testing.Base.Text.{Bytes, codes, bytes_eq, scan_int, atoi}
use memory_mutation_testing.Controller.Config.{
  Settings, Config, assigned, unset, loaded, process_config_file, read_settings, finish_config,
  source_names, framework_settings, cutest_settings,
}
use memory_mutation_testing.Controller.Config.Loads.{Describes}
use memory_mutation_testing.Controller.Config.Described.{process_config_file-loaded_iff}
use memory_mutation_testing.Controller.Source.{
  process_source_file, process_entry, process_tree, finish_source, file_name, without_suffix,
  printed, Forest, nil, cons, file, folder, closed, Session, process_source_directory,
}
use memory_mutation_testing.Controller.Source.Traversal.{process_files}
use memory_mutation_testing.Controller.Main.{
  null_pointer, World, Found, missing, source_file, source_directory, process_sources, Ending,
  crashed, exit_success, exit_failure, finished, main, parse_arguments, run_command, run_config,
  evaluate_sources, argument, parse_run, parse_verbose, process_source, library_actions,
}
use memory_mutation_testing.Controller.Main.Sources.{all_files, process_sources-eq-process_files}
use memory_mutation_testing.Controller.Main.Accounts.{main-InBalance}
use memory_mutation_testing.Controller.Source.Accounts.{InBalance}
use memory_mutation_testing.Examples.Fractions.{fractions, fractions-IsExact}
use memory_mutation_testing.Examples.Memory.{memory}
use memory_mutation_testing.Examples.Evaluate.{entries, start}
use memory_mutation_testing.Controller.Actions.{copy_file}
use memory_mutation_testing.Controller.Damage.{
  calculate_average_damage, all_damages, mutants_damage, mutant_damage, div_int,
}
use memory_mutation_testing.Controller.Fom.{
  bump, count_errors, is_non_trivial, is_dumb, classify_killed, memory_deviates, new_errors_only,
  classify_survived,
}
use memory_mutation_testing.Controller.Results.{
  is_readable, killed_word, word_second, word_third, copies_within, stats_room, grown_stats,
  copied_ids, get_non_trivial_fom_stats, scan_second, scan_third, tokens, take_word,
}
use memory_mutation_testing.Cfg.{calculate_cfg_branch_deviation}
use memory_mutation_testing.Controller.Process.{start_make, run_make}
use memory_mutation_testing.Controller.Evaluate.{
  gen_results_fom, built_mutant, killed_by_tests, store_killed, record_deviation, begin_mutant,
  non_trivial_mutant, grow_non_trivial, survived_tests, store_survived, grow_survived,
  survived_mutant,
}
use memory_mutation_testing.Controller.Inject.{
  is_mutant, inject_mutations, inject_entries, initial_state, from_last,
}
use memory_mutation_testing.Examples.Memory.{latest, latest_total}
use Prim.Native.String.{String}
use text.Mathlib.Text.{◌==◌ as str_eq}

abbrev texts : String → Option Bytes
texts key =
    if str_eq key "sourceRootDir"
    then some (codes "programs/put")
    else if str_eq key "executablePath"
    then some (codes "put/tests")
    else if str_eq key "testingFramework"
    then some (codes "cutest")
    else if str_eq key "CuTestLibSource"
    then some (codes "CuTest.c")
    else none

abbrev pub settings : Settings
settings = record {
  lookup_string = texts;
  lookup = λ key. if str_eq key "source" then some (some (codes "a.c") ∷ []) else none;
}

abbrev pub config : Config
config = record {
  source_root_dir = codes "programs/put";
  source = codes "a.c" ∷ [];
  testing_framework = 1;
  cutest_lib_source = assigned (codes "CuTest.c");
  cutest_version = assigned (pos 1);
  check_test_lib_source = unset;
  make_test_target = none;
  executable_path = codes "put/tests";
  executable_args = none;
  number_of_source = 1;
}

process_config_file-loaded_iff_example :
    (process_config_file (some settings) ≡ loaded config) ↔ Describes settings config
process_config_file-loaded_iff_example = process_config_file-loaded_iff settings config

abbrev pub session : Session fractions memory
session = record { state = start; reports = [] }

-- A C file, a header, a folder with another C file, and the two that are not entered.
abbrev tree : Forest
tree = cons (folder (codes ".") nil) (
    cons (file (codes "a.c") entries) (
      cons (folder (codes "deps") (cons (file (codes "b.c") []) nil))
        (cons (closed (codes "private")) (cons (file (codes "a.h") []) nil))))

abbrev found : ℕ → Found
found zero = source_file entries
found (suc zero) = source_directory (some tree)
found (suc (suc i)) = missing

abbrev sources : List Bytes
sources = codes "a.c" ∷ codes "deps" ∷ codes "gone" ∷ []

process_sources-eq-process_files_example :
    process_sources fractions memory (pos 1) (codes "/e") (codes "put") found 0 sources session
    ≡ process_files fractions memory
        (pos 1)
        (codes "/e")
        (all_files (codes "/e") (codes "put") found 0 sources)
        session
process_sources-eq-process_files_example =
    process_sources-eq-process_files fractions memory (pos 1) (codes "/e") (codes "put") found 0
      sources session

abbrev pub world : World fractions memory
world = record {
  cwd = some (codes "/e");
  load = λ file. some settings;
  removed = true;
  put_valgrind = none;
  found = found;
  memory = null_pointer;
  gstats_opened = true;
}

abbrev session_or : Session fractions memory → Ending fractions memory → Session fractions memory
session_or s crashed = s
session_or s exit_success = s
session_or s exit_failure = s
session_or s (finished s') = s'

abbrev ran : Ending fractions memory
ran = main fractions memory world (codes "engine" ∷ codes "put.cfg" ∷ []) session

finished_run : ran ≡ finished (session_or session ran)
unfolding main parse_arguments run_command run_config evaluate_sources process_config_file argument
    parse_run parse_verbose process_source library_actions process_sources process_source_directory
    process_source_file process_entry process_tree finish_source file_name from_last without_suffix
    inject_mutations inject_entries initial_state is_mutant read_settings finish_config source_names
    framework_settings cutest_settings copy_file printed calculate_average_damage gen_results_fom
    built_mutant killed_by_tests store_killed record_deviation begin_mutant run_make start_make
    get_non_trivial_fom_stats scan_second scan_third scan_int tokens take_word atoi is_non_trivial
    is_dumb non_trivial_mutant grow_non_trivial calculate_cfg_branch_deviation ◌-ℤ◌ bump
    count_errors classify_killed memory_deviates new_errors_only bytes_eq latest latest_total
    survived_tests store_survived classify_survived grow_survived all_damages mutants_damage
    mutant_damage survived_mutant div_int ◌+ℤ◌ is_readable killed_word word_second word_third
    copies_within stats_room grown_stats copied_ids
finished_run = refl

starts_in_balance : InBalance fractions memory (codes "ABS") session
unfolding latest ◌+ℤ◌
starts_in_balance = refl

main-InBalance_example : InBalance fractions memory (codes "ABS") (session_or session ran)
main-InBalance_example =
    main-InBalance fractions memory fractions-IsExact (codes "ABS") world
      (codes "engine" ∷ codes "put.cfg" ∷ []) session (session_or session ran) starts_in_balance
      finished_run
