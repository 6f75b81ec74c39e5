-- ===== src/Controller/Actions.antt =====
-- controller.c: the programs that the engine starts, in their order, with the changes it makes to
-- files and to the environment itself (lines 170 to 180, 298 to 307, 363 to 403, 468 to 503, 505 to
-- 724 and 1001 to 1006). What is printed is left out, and so are buffers,
-- file handles, and the file that make's output goes to.
pub mod Mode
pub mod Files
pub mod Restore
use memory_mutation_testing.Base.{
  ℕ, Bool, Option, none, some, List, [], ◌∷◌, ◌++◌, if◌then◌else◌, ◌==◌,
}
use memory_mutation_testing.Base.Text.{Bytes, codes}
use memory_mutation_testing.Controller.Config.{Config}
use memory_mutation_testing.Controller.Inject.{path_in}

pub data Program : Type 0 where
  rm cp bash valgrind diff txl cat : Program

pub data Variable : Type 0 where
  is_mutate mutation_results_path temp_results_path : Variable

pub data Action : Type 0 where
  -- `startprogram` with the arguments behind the name.
  run : Program → List Bytes → Action
  -- make in a directory, for the mutant of this name or for none, with the target of the tests.
  make : Bytes → Option Bytes → Option Bytes → Action
  -- The shell script avoidDeadMutants.sh.
  filter : Bytes → Action
  set_env : Variable → Bytes → Action
  make_dir : Bytes → Action
  change_dir : Bytes → Action
  remove : Bytes → Action
  write : Bytes → Bytes → Action

unfoldable pub clean_up : Bytes → List Action
clean_up copy_put_dir = run rm (codes "-rf" ∷ copy_put_dir ∷ []) ∷ []

unfoldable pub copy_file : Bytes → Bytes → List Action
copy_file src target = run cp (src ∷ target ∷ []) ∷ []

-- The file name is left out for a null pointer.
unfoldable pub extract_cfg_branches : Bytes → Bytes → Option Bytes → List Action
extract_cfg_branches src_dir output_dir none =
    run bash (codes "GenCFGBranches.sh" ∷ src_dir ∷ output_dir ∷ []) ∷ []
extract_cfg_branches src_dir output_dir (some filename) =
    run bash (codes "GenCFGBranches.sh" ∷ src_dir ∷ output_dir ∷ filename ∷ []) ∷ []

abbrev pub xml_file_location : Bytes → Bytes → Bytes → Bytes
xml_file_location cwd name str = path_in cwd (
    path_in (codes "mutation_out") (path_in name (codes "valgrind_eval_" ++ (str ++ codes ".xml"))))

abbrev optional : Option Bytes → List Bytes
optional none = []
optional (some a) = a ∷ []

unfoldable pub gen_valgrind_result : Bytes → Bytes → Bytes → Config → List Action
gen_valgrind_result cwd name str config =
    set_env is_mutate (codes "false")
    ∷ run valgrind (
        codes "-q"
        ∷ codes "--trace-children=yes"
        ∷ codes "--child-silent-after-fork=yes"
        ∷ codes "--xml=yes"
        ∷ (codes "--xml-file=" ++ xml_file_location cwd name str)
        ∷ config.executable_path
        ∷ optional config.executable_args)
    ∷ set_env is_mutate (codes "true")
    ∷ []

unfoldable pub filter_mutants : Bytes → List Action
filter_mutants cwd = filter (path_in cwd (codes "avoidDeadMutants.sh")) ∷ []

-- What `genResultsFOM` needs to know of the source file and of the run.
pub record Setting : Type 0 where
  pub cwd : Bytes
  pub make_dir : Bytes
  pub name_dir : Bytes
  pub results_path : Bytes
  pub txl_original : Bytes
  pub target : Bytes
  pub verbose_mode : Bool
  pub config : Config

-- A mutant: its name, its path, and whether `runMake` gives 2 for it.
pub record Evaluated : Type 0 where
  pub str : Bytes
  pub filename_qfd : Bytes
  pub make_failed : Bool

-- The tests of a mutant that was built: gcov first, and Valgrind whether it was killed or not.
abbrev pub built_actions : Setting → Evaluated → List Action
built_actions g m =
    extract_cfg_branches g.make_dir (path_in g.cwd (path_in (codes "mutation_out") g.name_dir))
      (some g.name_dir)
    ++ gen_valgrind_result g.cwd g.name_dir m.str g.config

abbrev pub diff_actions : Setting → Evaluated → List Action
diff_actions g m =
    if g.verbose_mode
    then run diff (codes "-wb" ∷ g.txl_original ∷ m.filename_qfd ∷ []) ∷ []
    else []

unfoldable pub gen_results_fom_actions : Setting → Evaluated → List Action
gen_results_fom_actions g m =
    make g.make_dir (some m.str) g.config.make_test_target
    ∷ ((if m.make_failed then [] else built_actions g m) ++ diff_actions g m)

-- The loop of `inject_mutations`, over the entries that are mutants.
unfoldable pub mutant_actions : Setting → List Evaluated → List Action
mutant_actions g [] = []
mutant_actions g (m ∷ ms) =
    copy_file m.filename_qfd g.target ++ (gen_results_fom_actions g m ++ mutant_actions g ms)

-- The original is copied to `mv_dir` first.
unfoldable pub inject_actions : Setting → Bytes → List Evaluated → List Action
inject_actions g mv_dir ms = copy_file g.target mv_dir ++ mutant_actions g ms

-- What `process_source_file` does before the mutants: the two files are emptied, the directory of
-- the mutants is made, TXL makes the mutants, and the script drops some of them.
unfoldable pub start_source_actions : Setting → Bytes → Bytes → List Bytes → List Action
start_source_actions g temp_path m_dir args_txl =
    remove g.results_path
    ∷ write temp_path (codes "0")
    ∷ make_dir m_dir
    ∷ run txl args_txl
    ∷ filter_mutants g.cwd

-- `restore` is `original_source_file`, and the mutants are counted in `total_mutants`; `none` where
-- a null pointer is copied.
unfoldable pub finish_source_actions : Setting → ℕ → Option Bytes → Option (List Action)
finish_source_actions g total_mutants restore =
    if total_mutants == 0 then some [] else elim restore [
      | none ↦ none
      | some original ↦ some (copy_file original g.target ++ (run cat (g.results_path ∷ []) ∷ []))
    ]
