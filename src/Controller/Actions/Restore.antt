-- ===== src/Controller/Actions/Restore.antt =====
-- The program under test is as it was after each of its source files.
use mathlib.Core.Option.{some-injective}
use memory_mutation_testing.Base.{
  ℕ, suc, arith, ◌==◌, ◌≡◌, refl, sym, ap, ◌∙◌, Bool, true, false, Option, none, some, List, [],
  ◌∷◌, ◌++◌, length, Bool-cases, inl, inr, if◌then◌else◌,
}
use memory_mutation_testing.Base.Text.{Bytes, bytes_eq, bytes_eq_self, bytes_eq→eq}
use memory_mutation_testing.Controller.Config.{Config}
use memory_mutation_testing.Controller.Actions.{
  Action, Setting, Evaluated, run, cat, copy_file, extract_cfg_branches, gen_valgrind_result,
  built_actions, diff_actions, gen_results_fom_actions, mutant_actions, inject_actions,
  finish_source_actions,
}
use memory_mutation_testing.Controller.Actions.Files.{
  Files, copied_same, effect, effects, effects-append, copy_file-effects, copied_other,
}

suc_nonzero : (n : ℕ) → (suc n == 0) ≡ false
suc_nonzero n = ground arith

finish_with_mutants :
    (g : Setting) (n : ℕ) (original : Bytes)
    → finish_source_actions g (suc n) (if suc n == 0 then none else some original)
      ≡ some (copy_file original g.target ++ (run cat (g.results_path ∷ []) ∷ []))
unfolding finish_source_actions
finish_with_mutants g n original = rw (suc_nonzero n, finish_source_actions) refl

module _ (outside : Action → Files → Files) (g : Setting) (mv_dir : Bytes)
    (keeps_backup : (a : Action) (f : Files) → outside a f mv_dir ≡ f mv_dir)
    (apart : bytes_eq mv_dir g.target ≡ false) where
  -- The actions leave the copy of the original.
  abbrev Spares : List Action → Type 0
  Spares xs = (f : Files) → effects outside xs f mv_dir ≡ f mv_dir

  both : (xs ys : List Action) → Spares xs → Spares ys → Spares (xs ++ ys)
  both xs ys h h' f =
      ap (λ k. k mv_dir) (effects-append outside xs ys f) ∙ (h' (effects outside xs f) ∙ h f)

  choose : (b : Bool) (xs ys : List Action) → Spares xs → Spares ys → Spares (if b then xs else ys)
  choose true xs ys h h' = h
  choose false xs ys h h' = h'

  nothing-Spares : Spares []
  unfolding effects
  nothing-Spares f = refl

  first :
      (a : Action) (xs : List Action)
      → ((f : Files) → effect outside a f mv_dir ≡ f mv_dir)
      → Spares xs
      → Spares (a ∷ xs)
  unfolding effects
  first a xs h h' f = h' (effect outside a f) ∙ h f

  extract_cfg_branches-Spares :
      (src out : Bytes) (name : Option Bytes) → Spares (extract_cfg_branches src out name)
  unfolding effects extract_cfg_branches
  extract_cfg_branches-Spares src out none f = keeps_backup _ f
  extract_cfg_branches-Spares src out (some n) f = keeps_backup _ f

  gen_valgrind_result-Spares :
      (cwd name str : Bytes) (config : Config) → Spares (gen_valgrind_result cwd name str config)
  unfolding effects gen_valgrind_result
  gen_valgrind_result-Spares cwd name str config f = keeps_backup _ f

  diff-Spares : (m : Evaluated) → Spares (diff_actions g m)
  unfolding effects
  diff-Spares m = choose g.verbose_mode _ [] (λ f. keeps_backup _ f) nothing-Spares

  tested-Spares : (m : Evaluated) → Spares (if m.make_failed then [] else built_actions g m)
  tested-Spares m = choose m.make_failed [] _ nothing-Spares (
      both _ _ (extract_cfg_branches-Spares _ _ _)
        (gen_valgrind_result-Spares g.cwd g.name_dir m.str g.config))

  gen_results_fom_actions-Spares : (m : Evaluated) → Spares (gen_results_fom_actions g m)
  unfolding gen_results_fom_actions
  gen_results_fom_actions-Spares m =
      first _ _ (keeps_backup _) (both _ _ (tested-Spares m) (diff-Spares m))

  copy-Spares : (src : Bytes) → Spares (copy_file src g.target)
  copy-Spares src f =
      ap (λ k. k mv_dir) (copy_file-effects outside src g.target f)
      ∙ copied_other f src g.target mv_dir apart

  mutant_actions-Spares : (ms : List Evaluated) → Spares (mutant_actions g ms)
  unfolding mutant_actions
  mutant_actions-Spares [] = nothing-Spares
  mutant_actions-Spares (m ∷ ms) =
      both _ _ (copy-Spares m.filename_qfd)
        (both _ _ (gen_results_fom_actions-Spares m) (mutant_actions-Spares ms))

  target_apart : bytes_eq g.target mv_dir ≡ false
  target_apart = elim (Bool-cases (bytes_eq g.target mv_dir)) [
    | inl e ↦ absurd (
        cc (
          sym apart
          ∙ (ap (λ p. bytes_eq mv_dir p) (bytes_eq→eq g.target mv_dir e) ∙ bytes_eq_self mv_dir)))
    | inr e ↦ e
  ]

  -- After the copy of the original and the mutants, the copy has what the original had.
  inject_actions-backup :
      (ms : List Evaluated) (f : Files) (text : Bytes)
      → f g.target ≡ some text
      → effects outside (inject_actions g mv_dir ms) f mv_dir ≡ some text
  unfolding inject_actions
  inject_actions-backup ms f text e =
      ap (λ k. k mv_dir)
        (effects-append outside (copy_file g.target mv_dir) (mutant_actions g ms) f)
      ∙ (mutant_actions-Spares ms _
          ∙ (ap (λ k. k mv_dir) (copy_file-effects outside g.target mv_dir f)
              ∙ copied_same f g.target mv_dir text e))

  shown_target :
      (f : Files) (text : Bytes)
      → ((f' : Files) → outside (run cat (g.results_path ∷ [])) f' g.target ≡ f' g.target)
      → f mv_dir ≡ some text
      → effects outside
          (copy_file mv_dir g.target ++ (run cat (g.results_path ∷ []) ∷ []))
          f
          g.target
        ≡ some text
  unfolding effects copy_file
  shown_target f text quiet e = quiet _ ∙ copied_same f mv_dir g.target text e

  without_mutants :
      (f : Files) → effects outside (inject_actions g mv_dir [] ++ []) f g.target ≡ f g.target
  unfolding effects inject_actions mutant_actions copy_file
  without_mutants f = copied_other f g.target mv_dir g.target target_apart

  -- When the original is there, its copy is another file that no other program changes, and `cat`
  -- does not change the original, then the original has the same content after the mutants of a
  -- source file and what follows them as before: each mutant is written over it, and the copy is
  -- written back at the end.
  pub finish_source_actions-restored :
      (ms : List Evaluated) (finish : List Action) (f : Files) (text : Bytes)
      → ((f' : Files) → outside (run cat (g.results_path ∷ [])) f' g.target ≡ f' g.target)
      → f g.target ≡ some text
      → finish_source_actions g (length ms) (if length ms == 0 then none else some mv_dir)
        ≡ some finish
      → effects outside (inject_actions g mv_dir ms ++ finish) f g.target ≡ f g.target
  unfolding finish_source_actions
  finish_source_actions-restored [] finish f text quiet e h =
      ap (λ xs. effects outside (inject_actions g mv_dir [] ++ xs) f g.target)
        (sym (some-injective _ _ h))
      ∙ without_mutants f
  finish_source_actions-restored (m ∷ ms) finish f text quiet e h =
      ap (λ xs. effects outside (inject_actions g mv_dir (m ∷ ms) ++ xs) f g.target)
        (some-injective _ _ (sym h ∙ finish_with_mutants g (length ms) mv_dir))
      ∙ (ap (λ k. k g.target)
            (effects-append outside (inject_actions g mv_dir (m ∷ ms))
              (copy_file mv_dir g.target ++ (run cat (g.results_path ∷ []) ∷ [])) f)
          ∙ (shown_target (effects outside (inject_actions g mv_dir (m ∷ ms)) f) text quiet
                (inject_actions-backup (m ∷ ms) f text e)
              ∙ sym e))
