-- ===== src/Controller/Main.antt =====
-- controller.c, lines 1179 to 1354: `main`. The result of a run is how it ends; where a null pointer
-- is followed, or a field of the configuration is read that was never written, it is `crashed`.
pub mod Sources
pub mod Accounts
pub mod Trace
use memory_mutation_testing.Base.{
  ℕ, zero, suc, ◌+◌, ◌==◌, Bool, true, false, not, ◌&&◌, Option, none, some, List, [], ◌∷◌, ◌++◌,
  if◌then◌else◌, length, ℤ, pos, eqb_ℤ,
}
use memory_mutation_testing.Base.Text.{Bytes, codes, bytes_eq}
use memory_mutation_testing.Base.Double.{Double}
use memory_mutation_testing.Gstats.Table.{Table}
use memory_mutation_testing.Valgrind.{ValgrindResult}
use memory_mutation_testing.Controller.Config.{
  Settings, Field, unset, assigned, Config, Loading, faulted, refused, loaded, process_config_file,
  ConfigError,
}
use memory_mutation_testing.Controller.Inject.{DirEntry, path_in}
use memory_mutation_testing.Controller.Source.{
  Forest, Session, file_name, process_source_file, process_source_directory,
}
use memory_mutation_testing.Controller.Actions.{
  Action, run, make, set_env, make_dir, cp, is_mutate, mutation_results_path, temp_results_path,
  clean_up, copy_file, extract_cfg_branches, gen_valgrind_result,
}

-- `argv[i]`, where `argv[argc]` is the null pointer.
unfoldable pub argument : List Bytes → ℕ → Option Bytes
argument [] i = none
argument (a ∷ as') zero = some a
argument (a ∷ as') (suc i) = argument as' i

-- What the arguments ask for. A run has the arguments that are read as configuration files, where
-- the first one is read only in verbose mode, and is not used.
pub data Command : Type 0 where
  null_argument : Command
  clear_stats : Command
  collect_stats : Command
  evaluate : Bool → Bool → Option Bytes → Option Bytes → Command

-- From `-v` on; `i` is `args_index`.
unfoldable pub parse_verbose : List Bytes → Bool → ℕ → Command
unfolding argument bytes_eq
parse_verbose argv preset i = elim (argument argv i) [
  | none ↦ null_argument
  | some a ↦
      if bytes_eq a (codes "-v")
      then evaluate preset true (argument argv 2) (argument argv (i + 1))
      else evaluate preset false none (argument argv i)
]

unfoldable pub parse_run : List Bytes → Command
unfolding argument parse_verbose bytes_eq
parse_run argv = elim (argument argv 1) [
  | none ↦ null_argument
  | some a ↦
      if bytes_eq a (codes "--gstreamer")
      then parse_verbose argv true 2
      else parse_verbose argv false 1
]

-- The two commands on the statistics are looked for only in a single argument.
unfoldable pub parse_arguments : List Bytes → Command
unfolding argument parse_run bytes_eq
parse_arguments argv = elim (argument argv 1) [
  | none ↦ null_argument
  | some a ↦
      if (length argv == 2) && bytes_eq a (codes "--gstats-clear")
      then clear_stats
      else if (length argv == 2) && bytes_eq a (codes "--gstats-collect")
      then collect_stats
      else parse_run argv
]

-- What `stat` says of a source; a directory that `opendir` refuses is `none`.
pub data Found : Type 0 where
  missing : Found
  source_directory : Option Forest → Found
  source_file : List DirEntry → Found
  special : Found

-- The copy of the test library of CuTest; `none` where a field that was never written is read.
abbrev pub cutest_library : Bytes → Field Bytes → Field ℤ → Option (List Action)
cutest_library copy_put unset version = none
cutest_library copy_put (assigned lib) unset = none
cutest_library copy_put (assigned lib) (assigned version) = some (
    copy_file
      (if eqb_ℤ version (pos 1)
        then codes "CuTest/CuTest.forked.c"
        else codes "CuTest/CuTest.forked2.c")
      (path_in copy_put lib))

-- What a pointer that was never written holds: a null pointer, the address of a text, or one that
-- cannot be read.
pub data Leftover : Type 0 where
  null_pointer : Leftover
  address_of : Bytes → Leftover
  unreadable : Leftover

-- The copy of the test library of libcheck to this path.
abbrev pub libcheck_copy : Bytes → Bool → Bytes → List Action
libcheck_copy copy_put preset lib =
    copy_file
      (if preset then codes "libcheck-presets/check.c.gstreamer" else codes "libcheck/src/check.c")
      (path_in copy_put lib)

-- The field is never written where the setting is missing; then what the memory holds is compared
-- with a null pointer, and is the path where it is another. `none` where that cannot be read.
abbrev pub libcheck_library : Leftover → Bytes → Bool → Field Bytes → Option (List Action)
libcheck_library null_pointer copy_put preset unset = some []
libcheck_library (address_of lib) copy_put preset unset = some (libcheck_copy copy_put preset lib)
libcheck_library unreadable copy_put preset unset = none
libcheck_library memory copy_put preset (assigned lib) = some (libcheck_copy copy_put preset lib)

unfoldable pub library_actions : Leftover → Config → Bool → Bytes → Option (List Action)
library_actions memory config preset copy_put =
    if config.testing_framework == 1
    then cutest_library copy_put config.cutest_lib_source config.cutest_version
    else if config.testing_framework == 2
    then libcheck_library memory copy_put preset config.check_test_lib_source
    else some []

-- Until the statistics of the program under test are there.
unfoldable pub prepare_actions : Bytes → Bytes → Config → List Action
prepare_actions cwd copy_put config =
    clean_up copy_put
    ++ (clean_up (codes "mutation_out")
        ++ (make_dir (codes "mutation_out")
            ∷ make_dir (codes "mutation_out/PUT")
            ∷ run cp (codes "-r" ∷ config.source_root_dir ∷ copy_put ∷ [])
            ∷ set_env is_mutate (codes "false")
            ∷ make copy_put none config.make_test_target
            ∷ (extract_cfg_branches copy_put (codes "mutation_out/PUT") none
                ++ (gen_valgrind_result cwd (codes "PUT") (codes "PUT") config
                    ++ (set_env is_mutate (codes "true") ∷ [])))))

-- After the copy of the test library.
unfoldable pub environment_actions : Bytes → Bytes → List Action
environment_actions cwd copy_put =
    set_env mutation_results_path (path_in cwd (path_in copy_put (codes "mutation_results.log")))
    ∷ set_env temp_results_path (path_in cwd (path_in copy_put (codes "temp_results.log")))
    ∷ set_env is_mutate (codes "true")
    ∷ []

-- `PUTValgrindErrors`, which is 0 when there is no report.
abbrev pub put_valgrind_errors : Option ValgrindResult → ℤ
put_valgrind_errors none = pos 0
put_valgrind_errors (some v) = v.valgrind_error_count

module _ (F : Double) (T : Table) where
  -- The body of the loop over the sources.
  unfoldable pub process_source :
      ℤ → Bytes → Bytes → Bytes → Found → Session F T → Option (Session F T)
  process_source put_errors cwd copy_put source missing session = some session
  process_source put_errors cwd copy_put source (source_directory none) session = some session
  process_source put_errors cwd copy_put source (source_directory (some ts)) session =
      process_source_directory F T put_errors cwd (path_in cwd (path_in copy_put source)) ts session
  process_source put_errors cwd copy_put source (source_file entries) session =
      process_source_file F T put_errors cwd (path_in cwd (path_in copy_put source)) entries session
  process_source put_errors cwd copy_put source special session = some session

  -- `found` says of each source, by its index, what there is at its path.
  unfoldable pub process_sources :
      ℤ → Bytes → Bytes → (ℕ → Found) → ℕ → List Bytes → Session F T → Option (Session F T)
  process_sources put_errors cwd copy_put found i [] session = some session
  process_sources put_errors cwd copy_put found i (source ∷ rest) session =
      elim (process_source put_errors cwd copy_put source (found i) session) [
        | none ↦ none
        | some s ↦ process_sources put_errors cwd copy_put found (suc i) rest s
      ]

  pub data Ending : Type 0 where
    crashed : Ending
    exit_success : Ending
    exit_failure : Ending
    finished : Session F T → Ending

  -- What happens outside of the engine during a run of it.
  pub record World : Type 0 where
    -- `none` where `getcwd` fails.
    pub cwd : Option Bytes
    -- libconfig, at the name of a file or at a null pointer.
    pub load : Option Bytes → Option Settings
    -- Whether `open_GStats` comes back.
    pub gstats_opened : Bool
    -- `remove` of the file of the statistics.
    pub removed : Bool
    pub put_valgrind : Option ValgrindResult
    pub found : ℕ → Found
    -- What the memory of the configuration holds before it is written.
    pub memory : Leftover

  unfoldable pub evaluate_sources : World → Bytes → Bool → Config → Session F T → Ending
  evaluate_sources w cwd preset config session = elim (file_name config.source_root_dir) [
    | none ↦ crashed
    | some copy_put ↦ elim (library_actions w.memory config preset copy_put) [
      | none ↦ crashed
      | some library ↦
          elim (process_sources (put_valgrind_errors w.put_valgrind) cwd copy_put w.found 0
            config.source session) [ none ↦ crashed | some s ↦ finished s ]
    ]
  ]

  unfoldable pub run_config : World → Bool → Loading → Session F T → Ending
  run_config w preset faulted session = crashed
  run_config w preset (refused e) session = exit_failure
  run_config w preset (loaded config) session = elim w.cwd [
    | none ↦ exit_failure
    | some cwd ↦ evaluate_sources w cwd preset config session
  ]

  -- In verbose mode the argument 2 is read as a configuration first, and the result is dropped.
  abbrev pub preload : World → Bool → Option Bytes → Loading
  preload w verbose first =
      if verbose then process_config_file (w.load first) else refused ConfigError.unreadable

  unfoldable pub run_command : World → Command → Session F T → Ending
  run_command w null_argument session = crashed
  run_command w clear_stats session = if w.removed then exit_success else exit_failure
  run_command w collect_stats session = exit_success
  run_command w (evaluate preset verbose first file) session = elim (preload w verbose first) [
    | faulted ↦ crashed
    | refused e ↦ run_config w preset (process_config_file (w.load file)) session
    | loaded c ↦ run_config w preset (process_config_file (w.load file)) session
  ]

  -- With one argument the statistics are opened first, which exits where a new file cannot be saved.
  unfoldable pub main : World → List Bytes → Session F T → Ending
  main w argv session =
      if length argv == 2 && not w.gstats_opened
      then exit_failure
      else run_command w (parse_arguments argv) session
