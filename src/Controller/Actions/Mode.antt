-- ===== src/Controller/Actions/Mode.antt =====
-- In which mode the tests run: IS_MUTATE is "true" where they are to report, and "false" under
-- Valgrind and for the program under test itself.
use memory_mutation_testing.Base.{
  ◌≡◌, refl, Option, none, some, List, [], ◌∷◌, ◌++◌, if◌then◌else◌, Bool-cases, inl, inr,
}
use memory_mutation_testing.Base.Text.{Bytes, codes}
use memory_mutation_testing.Controller.Config.{Config}
use memory_mutation_testing.Controller.Actions.{
  Action, run, make, filter, set_env, make_dir, change_dir, remove, write, Program, valgrind, cp,
  bash, diff, is_mutate, mutation_results_path, temp_results_path, Setting, Evaluated, copy_file,
  extract_cfg_branches, gen_valgrind_result, gen_results_fom_actions, mutant_actions,
  inject_actions, built_actions, diff_actions,
}

-- The steps that are allowed while IS_MUTATE has a value, and its value afterwards.
pub data Step : Bytes → Action → Bytes → Type 0 where
  switched : {e : Bytes} (v : Bytes) → Step e (set_env is_mutate v) v
  results_set : {e : Bytes} (v : Bytes) → Step e (set_env mutation_results_path v) e
  temp_set : {e : Bytes} (v : Bytes) → Step e (set_env temp_results_path v) e
  checked : {e : Bytes} (args : List Bytes) → e ≡ codes "false" → Step e (run valgrind args) e
  started : {e : Bytes} (p : Program) (args : List Bytes) → ¬ (p ≡ valgrind) → Step e (run p args) e
  mutant_made :
      {e : Bytes} (dir str : Bytes) (target : Option Bytes)
      → e ≡ codes "true"
      → Step e (make dir (some str) target) e
  original_made :
      {e : Bytes} (dir : Bytes) (target : Option Bytes)
      → e ≡ codes "false"
      → Step e (make dir none target) e
  filtered : {e : Bytes} (script : Bytes) → Step e (filter script) e
  dir_made : {e : Bytes} (dir : Bytes) → Step e (make_dir dir) e
  dir_changed : {e : Bytes} (dir : Bytes) → Step e (change_dir dir) e
  removed : {e : Bytes} (path : Bytes) → Step e (remove path) e
  written : {e : Bytes} (path text : Bytes) → Step e (write path text) e

-- All of the actions are allowed, one after the other.
infix 40 ◌⊢◌⟶◌
pub data ◌⊢◌⟶◌ : Bytes → List Action → Bytes → Type 0 where
  done : {e : Bytes} → e ⊢ [] ⟶ e
  next :
      {e e' e'' : Bytes} {a : Action} {as' : List Action}
      → Step e a e'
      → e' ⊢ as' ⟶ e''
      → e ⊢ a ∷ as' ⟶ e''

pub then_actions :
    {e e' e'' : Bytes} {xs ys : List Action} → e ⊢ xs ⟶ e' → e' ⊢ ys ⟶ e'' → e ⊢ xs ++ ys ⟶ e''
then_actions done h' = h'
then_actions (next s h) h' = next s (then_actions h h')

abbrev pub reporting : Bytes
reporting = codes "true"

pub copy_file-⟶ : {e : Bytes} (src target : Bytes) → e ⊢ copy_file src target ⟶ e
unfolding copy_file
copy_file-⟶ src target = next (started cp _ (λ h. cc)) done

pub extract_cfg_branches-⟶ :
    {e : Bytes} (src out : Bytes) (name : Option Bytes) → e ⊢ extract_cfg_branches src out name ⟶ e
unfolding extract_cfg_branches
extract_cfg_branches-⟶ src out none = next (started bash _ (λ h. cc)) done
extract_cfg_branches-⟶ src out (some n) = next (started bash _ (λ h. cc)) done

pub gen_valgrind_result-⟶ :
    {e : Bytes} (cwd name str : Bytes) (config : Config)
    → e ⊢ gen_valgrind_result cwd name str config ⟶ reporting
unfolding gen_valgrind_result
gen_valgrind_result-⟶ cwd name str config =
    next (switched (codes "false")) (next (checked _ refl) (next (switched reporting) done))

diff_actions-⟶ : (g : Setting) (m : Evaluated) → reporting ⊢ diff_actions g m ⟶ reporting
diff_actions-⟶ g m = elim (Bool-cases g.verbose_mode) [
  | inl e ↦ rw e (next (started diff _ (λ h. cc)) done)
  | inr e ↦ rw e done
]

tested-⟶ :
    (g : Setting) (m : Evaluated)
    → reporting ⊢ (if m.make_failed then [] else built_actions g m) ⟶ reporting
tested-⟶ g m = elim (Bool-cases m.make_failed) [
  | inl e ↦ rw e done
  | inr e ↦ rw e (
      then_actions (extract_cfg_branches-⟶ _ _ _)
        (gen_valgrind_result-⟶ g.cwd g.name_dir m.str g.config))
]

gen_results_fom_actions-⟶ :
    (g : Setting) (m : Evaluated) → reporting ⊢ gen_results_fom_actions g m ⟶ reporting
unfolding gen_results_fom_actions
gen_results_fom_actions-⟶ g m =
    next (mutant_made _ _ _ refl) (then_actions (tested-⟶ g m) (diff_actions-⟶ g m))

mutant_actions-⟶ : (g : Setting) (ms : List Evaluated) → reporting ⊢ mutant_actions g ms ⟶ reporting
unfolding mutant_actions
mutant_actions-⟶ g [] = done
mutant_actions-⟶ g (m ∷ ms) =
    then_actions (copy_file-⟶ m.filename_qfd g.target)
      (then_actions (gen_results_fom_actions-⟶ g m) (mutant_actions-⟶ g ms))

pub inject_actions-⟶ :
    (g : Setting) (mv_dir : Bytes) (ms : List Evaluated)
    → reporting ⊢ inject_actions g mv_dir ms ⟶ reporting
unfolding inject_actions
inject_actions-⟶ g mv_dir ms = then_actions (copy_file-⟶ g.target mv_dir) (mutant_actions-⟶ g ms)
