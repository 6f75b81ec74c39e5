-- ===== src/Controller/Inject/Named.antt =====
-- Which mutants of a directory `inject_mutations` has evaluated.
use mathlib.Core.Path.{subst}
use memory_mutation_testing.Base.{
  ℕ, ◌+◌, arith, ◌≡◌, refl, sym, ap, ◌∙◌, none, some, List, [], length, ℤ,
}
use memory_mutation_testing.Base.Text.{Bytes}
use memory_mutation_testing.Base.Double.{Double}
use memory_mutation_testing.Gstats.Table.{Table}
use memory_mutation_testing.Controller.Mutants.{State}
use memory_mutation_testing.Controller.Evaluate.Named.{Names, names_in}
use memory_mutation_testing.Controller.Evaluate.Named.Sequence.{
  names_of, copy_after, evaluate_mutants-Names,
}
use memory_mutation_testing.Controller.Inject.{DirEntry, initial_state, inject_mutations}
use memory_mutation_testing.Controller.Inject.Outcome.{
  mutants_in, backup, inject_mutations-eq-evaluate_mutants,
}

zero_add : (n : ℕ) → 0 + n ≡ n
zero_add n = omega arith

module _ (F : Double) (T : Table) (put_errors : ℤ) (src_dir original : Bytes) where
  -- When the evaluation of a directory does not fault, as many mutants are counted as there are in
  -- it, the path of the copy of the original is kept if there is a mutant at all, and the log, which was
  -- empty before, names each of them once, in the order of the directory.
  pub inject_mutations-Names :
      (entries : List DirEntry) (s s' : State F T)
      → s.log ≡ []
      → inject_mutations F T put_errors src_dir original entries s ≡ some s'
      → Names F T
          (length (mutants_in src_dir original entries))
          (copy_after none
            (backup F T put_errors src_dir original)
            (mutants_in src_dir original entries))
          (names_of (mutants_in src_dir original entries))
          s'
  unfolding initial_state
  inject_mutations-Names entries s s' empty e =
      let ms = mutants_in src_dir original entries in
      subst
        (λ n.
          Names F T n (copy_after none (backup F T put_errors src_dir original) ms) (names_of ms)
            s')
        (zero_add (length ms))
        (evaluate_mutants-Names F T put_errors (backup F T put_errors src_dir original)
          (mutants_in src_dir original entries) (initial_state F T s) s' 0 none []
          (record { total = refl; copy = refl; logged = ap (names_in F T) empty })
          (sym (inject_mutations-eq-evaluate_mutants F T put_errors src_dir original entries s)
            ∙ e))
