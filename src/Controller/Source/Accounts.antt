-- ===== src/Controller/Source/Accounts.antt =====
-- The statistics of each operator are balanced after a source file, and after all of them.
use mathlib.Core.Path.{subst}
use memory_mutation_testing.Base.{
  sym, Option, none, some, List, [], ◌∷◌, ℤ, pos, Bool-cases, Option-cases, inl, inr, ◌==◌, ◌++◌,
}
use memory_mutation_testing.Base.Text.{Bytes}
use memory_mutation_testing.Base.Double.{Double, IsExact}
use memory_mutation_testing.Gstats.Table.{Table}
use memory_mutation_testing.Controller.Mutants.{State}
use memory_mutation_testing.Controller.Fom.Accounts.{IsBalanced}
use memory_mutation_testing.Controller.Evaluate.After.{After, After-bind}
use memory_mutation_testing.Controller.Evaluate.Balance.{Owes}
use memory_mutation_testing.Controller.Evaluate.Balance.Sequence.{evaluate_mutants-After}
use memory_mutation_testing.Controller.Inject.{DirEntry, inject_mutations, initial_state}
use memory_mutation_testing.Controller.Inject.Outcome.{
  inject_mutations-eq-evaluate_mutants, mutants_in, backup,
}
use memory_mutation_testing.Controller.Damage.{Damages, calculate_average_damage}
use memory_mutation_testing.Controller.Source.{
  Session, Printed, printed, file_name, mutants_dir, fresh_files, final_stats, finish_source,
  process_source_file,
}
use memory_mutation_testing.Controller.Source.Balance.{
  Even, derive-IsBalanced, aggregate-IsBalanced, calculate_average_damage-After,
}
use memory_mutation_testing.Controller.Source.Traversal.{process_files}

module _ (F : Double) (T : Table) (c : Bytes) where
  -- The accounts of the operator `c` in a session.
  abbrev pub InBalance : Session F T → Type 0
  InBalance session = IsBalanced T session.state.stats c (pos 0)

  reported :
      (s : State F T) (reports : List (Option (Printed F T))) (m : Option (Damages F T))
      → After (Even F T c) m
      → After InBalance (elim m [
        | none ↦ none
        | some (d, damage) ↦ some (record {
          state = record s { stats = final_stats F T s.result d };
          reports = reports ++ (some (printed F T s.result damage) ∷ []);
        })
      ])
  reported s reports none h = tt
  reported s reports (some (d, damage)) h =
      derive-IsBalanced F T c _ (aggregate-IsBalanced F T c d "total_tests_run" _ h)

  finish_source-After :
      (s : State F T) (reports : List (Option (Printed F T)))
      → Owes F T c (pos 0) s
      → After InBalance (finish_source F T s reports)
  unfolding finish_source
  finish_source-After s reports h = elim (Bool-cases (s.result.total_mutants == 0)) [
    | inl e ↦ rw (e, finish_source) h
    | inr e ↦
        rw (e, finish_source)
          (reported s reports (calculate_average_damage F T s.result s.stats)
            (calculate_average_damage-After F T c s.result s.stats h))
  ]

  -- The state becomes a session.
  ended :
      (m : Option (State F T)) (reports : List (Option (Printed F T)))
      → After (Owes F T c (pos 0)) m
      → After InBalance (elim m [ none ↦ none | some s ↦ finish_source F T s reports ])
  ended none reports h = tt
  ended (some s) reports h = finish_source-After s reports h

  module _ (exact : IsExact F) (put_errors : ℤ) where
    inject_mutations-After :
        (src_dir original : Bytes) (entries : List DirEntry) (s : State F T)
        → Owes F T c (pos 0) s
        → After (Owes F T c (pos 0)) (inject_mutations F T put_errors src_dir original entries s)
    unfolding initial_state
    inject_mutations-After src_dir original entries s h =
        subst (After (Owes F T c (pos 0)))
          (sym (inject_mutations-eq-evaluate_mutants F T put_errors src_dir original entries s))
          (evaluate_mutants-After F T exact c put_errors (backup F T put_errors src_dir original)
            (mutants_in src_dir original entries) (initial_state F T s) h)

    process_source_file-After :
        (cwd path : Bytes) (entries : List DirEntry) (session : Session F T)
        → InBalance session
        → After InBalance (process_source_file F T put_errors cwd path entries session)
    unfolding process_source_file
    process_source_file-After cwd path entries session h = elim (Option-cases (file_name path)) [
      | inl e ↦ rw (e, process_source_file) tt
      | inr (name, e) ↦
          rw (e, process_source_file)
            (ended _ session.reports (
              inject_mutations-After (mutants_dir cwd name) name entries
                (fresh_files F T session.state) h))
    ]

    pub process_files-After :
        (cwd : Bytes) (files : List (Bytes × List DirEntry)) (session : Session F T)
        → InBalance session
        → After InBalance (process_files F T put_errors cwd files session)
    unfolding process_files
    process_files-After cwd [] session h = h
    process_files-After cwd ((path, entries) ∷ rest) session h =
        After-bind InBalance InBalance (process_source_file F T put_errors cwd path entries session)
          (process_files F T put_errors cwd rest) (λ s h'. process_files-After cwd rest s h')
          (process_source_file-After cwd path entries session h)
