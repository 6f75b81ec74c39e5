-- ===== src/Controller/Main/Accounts.antt =====
-- The statistics of each operator are balanced after a run of the engine.
use mathlib.Core.Path.{subst}
use memory_mutation_testing.Base.{
  if◌then◌else◌, length, ◌==◌, ◌&&◌, not, false, true, ℕ, ◌≡◌, sym, Bool, Option, none, some, List,
  ℤ, Option-cases, Bool-cases, inl, inr,
}
use memory_mutation_testing.Base.Text.{Bytes}
use memory_mutation_testing.Base.Double.{Double, IsExact}
use memory_mutation_testing.Gstats.Table.{Table}
use memory_mutation_testing.Controller.Config.{
  Config, Loading, faulted, refused, loaded, process_config_file,
}
use memory_mutation_testing.Controller.Evaluate.After.{After}
use memory_mutation_testing.Controller.Source.{Session, file_name}
use memory_mutation_testing.Controller.Source.Accounts.{InBalance, process_files-After}
use memory_mutation_testing.Controller.Main.Sources.{all_files, process_sources-eq-process_files}
use memory_mutation_testing.Controller.Main.{
  Found, World, Ending, crashed, exit_success, exit_failure, finished, Command, null_argument,
  clear_stats, collect_stats, evaluate, preload, library_actions, put_valgrind_errors,
  process_sources, evaluate_sources, run_config, run_command, parse_arguments, main,
}

module _ (F : Double) (T : Table) (exact : IsExact F) (c : Bytes) where
  -- After a run that finishes.
  abbrev IfFinished : Ending F T → Type 0
  IfFinished crashed = Unit {0}
  IfFinished exit_success = Unit {0}
  IfFinished exit_failure = Unit {0}
  IfFinished (finished s) = InBalance F T c s

  process_sources-After :
      (put_errors : ℤ) (cwd copy_put : Bytes) (found : ℕ → Found) (sources : List Bytes)
      (session : Session F T)
      → InBalance F T c session
      → After
          (InBalance F T c)
          (process_sources F T put_errors cwd copy_put found 0 sources session)
  process_sources-After put_errors cwd copy_put found sources session h =
      subst (After (InBalance F T c))
        (sym (process_sources-eq-process_files F T put_errors cwd copy_put found 0 sources session))
        (process_files-After F T c exact put_errors cwd (all_files cwd copy_put found 0 sources)
          session h)

  ending :
      (m : Option (Session F T))
      → After (InBalance F T c) m
      → IfFinished (elim m [ none ↦ crashed | some s ↦ finished s ])
  ending none h = tt
  ending (some s) h = h

  evaluate_sources-IfFinished :
      (w : World F T) (cwd : Bytes) (preset : Bool) (config : Config) (session : Session F T)
      → InBalance F T c session
      → IfFinished (evaluate_sources F T w cwd preset config session)
  unfolding evaluate_sources
  evaluate_sources-IfFinished w cwd preset config session h =
      elim (Option-cases (file_name config.source_root_dir)) [
        | inl e ↦ rw (e, evaluate_sources) tt
        | inr (copy_put, e) ↦
            elim (Option-cases (library_actions w.memory config preset copy_put)) [
              | inl unset_field ↦ rw (e, evaluate_sources) (rw unset_field tt)
              | inr (library, copied) ↦
                  rw (e, evaluate_sources)
                    (rw copied (
                      ending _ (
                        process_sources-After (put_valgrind_errors w.put_valgrind) cwd copy_put
                          w.found config.source session h)))
            ]
      ]

  in_dir :
      (dir : Option Bytes) (f : Bytes → Ending F T)
      → ((cwd : Bytes) → IfFinished (f cwd))
      → IfFinished (elim dir [ none ↦ exit_failure | some cwd ↦ f cwd ])
  in_dir none f h = tt
  in_dir (some cwd) f h = h cwd

  run_config-IfFinished :
      (w : World F T) (preset : Bool) (l : Loading) (session : Session F T)
      → InBalance F T c session
      → IfFinished (run_config F T w preset l session)
  unfolding run_config
  run_config-IfFinished w preset faulted session h = tt
  run_config-IfFinished w preset (refused e) session h = tt
  run_config-IfFinished w preset (loaded config) session h =
      in_dir w.cwd (λ cwd. evaluate_sources F T w cwd preset config session)
        (λ cwd. evaluate_sources-IfFinished w cwd preset config session h)

  after_preload :
      (l : Loading) (e : Ending F T)
      → IfFinished e
      → IfFinished (elim l [ faulted ↦ crashed | refused x ↦ e | loaded x ↦ e ])
  after_preload faulted e h = tt
  after_preload (refused x) e h = h
  after_preload (loaded x) e h = h

  run_command-IfFinished :
      (w : World F T) (command : Command) (session : Session F T)
      → InBalance F T c session
      → IfFinished (run_command F T w command session)
  unfolding run_command
  run_command-IfFinished w null_argument session h = tt
  run_command-IfFinished w clear_stats session h = elim (Bool-cases w.removed) [
    | inl e ↦ rw e tt
    | inr e ↦ rw e tt
  ]
  run_command-IfFinished w collect_stats session h = tt
  run_command-IfFinished w (evaluate preset verbose first file) session h =
      after_preload (preload F T w verbose first) _
        (run_config-IfFinished w preset (process_config_file (w.load file)) session h)

  -- With exact arithmetic, when a run of the engine finishes and the mutants that were generated by
  -- an operator were, before it, as many as those that failed to build, were killed by the tests, or
  -- survived as equivalent, strongly damaging or weakly damaging, then they are so after it.
  pub main-InBalance :
      (w : World F T) (argv : List Bytes) (session session' : Session F T)
      → InBalance F T c session
      → main F T w argv session ≡ finished session'
      → InBalance F T c session'
  unfolding main
  main-InBalance w argv session session' h e = subst IfFinished e (
      either (length argv == 2 && not w.gstats_opened) exit_failure _ tt
        (run_command-IfFinished w (parse_arguments argv) session h))
    where
      either :
          (b : Bool) (x y : Ending F T)
          → IfFinished x
          → IfFinished y
          → IfFinished (if b then x else y)
      either true x y h h' = h
      either false x y h h' = h'
