-- ===== src/Examples/Trace.antt =====
-- A run on a program of one file with two mutants, of which one cannot be built.
use memory_mutation_testing.Base.{◌≡◌, refl, true, false, some, List, [], ◌∷◌, ◌++◌}
use memory_mutation_testing.Base.Text.{codes, bytes_eq}
use memory_mutation_testing.Controller.Actions.{
  Action, Program, Setting, Evaluated, copy_file, inject_actions, finish_source_actions,
}
use memory_mutation_testing.Controller.Actions.Files.{Files, effects}
use memory_mutation_testing.Controller.Actions.Mode.{◌⊢◌⟶◌, reporting}
use memory_mutation_testing.Controller.Actions.Restore.{finish_source_actions-restored}
use memory_mutation_testing.Controller.Main.{null_pointer, library_actions}
use memory_mutation_testing.Controller.Main.Trace.{
  SourceRun, Visit, entered, processed, main_actions, main_actions-⟶,
}
use memory_mutation_testing.Examples.Main.{config}

abbrev setting : Setting
setting = record {
  cwd = codes "/e";
  make_dir = codes "/e/put";
  name_dir = codes "a";
  results_path = codes "/e/put/mutation_results.log";
  txl_original = codes "/e/mutation_out/a/txl_original.c";
  target = codes "/e/put/a.c";
  verbose_mode = true;
  config = config;
}

abbrev mutants : List Evaluated
mutants =
    record {
      str = codes "ABS_1.c";
      filename_qfd = codes "/e/mutation_out/a/ABS_1.c";
      make_failed = false;
    }
    ∷ record {
      str = codes "OBOM_2.c";
      filename_qfd = codes "/e/mutation_out/a/OBOM_2.c";
      make_failed = true;
    }
    ∷ []

abbrev source_run : SourceRun
source_run = record {
  setting = setting;
  temp_path = codes "/e/put/temp_results.log";
  m_dir = codes "/e/mutation_out/a";
  args_txl = codes "/e/mutator.Txl" ∷ [];
  mv_dir = codes "/e/mutation_out/a/a.c.original";
  mutants = mutants;
}

abbrev visits : List Visit
visits = entered (codes "/e/put") ∷ processed source_run ∷ entered (codes "..") ∷ []

abbrev library : List Action
library = copy_file (codes "CuTest/CuTest.forked.c") (codes "put/CuTest.c")

copied_library : library_actions null_pointer config false (codes "put") ≡ some library
unfolding library_actions
copied_library = refl

main_actions-⟶_example :
    (xs : List Action) × ((main_actions null_pointer (codes "/e") (codes "put") config false visits
        ≡ some xs)
      × ([] ⊢ xs ⟶ reporting))
main_actions-⟶_example =
    main_actions-⟶ null_pointer (codes "/e") (codes "put") config false visits library []
      copied_library

-- The other programs write no files.
abbrev quiet : Action → Files → Files
quiet a f = f

-- All files have the same content.
abbrev disk : Files
disk path = some (codes "int main;")

abbrev finish : List Action
finish =
    Action.run Program.cp (source_run.mv_dir ∷ setting.target ∷ [])
    ∷ Action.run Program.cat (setting.results_path ∷ [])
    ∷ []

apart : bytes_eq source_run.mv_dir setting.target ≡ false
unfolding bytes_eq
apart = refl

finishes : finish_source_actions setting 2 (some source_run.mv_dir) ≡ some finish
unfolding finish_source_actions copy_file
finishes = refl

finish_source_actions-restored_example :
    effects quiet (inject_actions setting source_run.mv_dir mutants ++ finish) disk setting.target
    ≡ disk setting.target
finish_source_actions-restored_example =
    finish_source_actions-restored quiet setting source_run.mv_dir (λ a f. refl) apart mutants
      finish disk (codes "int main;") (λ f. refl) refl finishes
