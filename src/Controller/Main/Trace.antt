-- ===== src/Controller/Main/Trace.antt =====
-- The programs that a run starts, from the copy of the program under test on, and in which mode
-- the tests run in it.
use mathlib.Core.Path.{subst}
use memory_mutation_testing.Base.{
  ℤ, ◌≡◌, refl, Bool, true, false, Option, none, some, List, [], ◌∷◌, ◌++◌, length, inl, inr,
  Bool-cases, ◌==◌, if◌then◌else◌,
}
use memory_mutation_testing.Base.Text.{Bytes, codes}
use memory_mutation_testing.Controller.Config.{Config, Field, assigned, unset}
use memory_mutation_testing.Controller.Actions.{
  change_dir, Action, Setting, Evaluated, clean_up, copy_file, filter_mutants, inject_actions,
  start_source_actions, finish_source_actions, rm, cp, cat, txl,
}
use memory_mutation_testing.Controller.Actions.Mode.{
  switched, results_set, temp_set, started, original_made, filtered, dir_made, dir_changed, removed,
  written, ◌⊢◌⟶◌, done, next, then_actions, reporting, copy_file-⟶, extract_cfg_branches-⟶,
  gen_valgrind_result-⟶, inject_actions-⟶,
}
use memory_mutation_testing.Controller.Main.{
  Leftover, null_pointer, address_of, unreadable, cutest_library, libcheck_library, library_actions,
  prepare_actions, environment_actions,
}

-- A source file, with the mutants that are left of those that TXL makes of it.
pub record SourceRun : Type 0 where
  pub setting : Setting
  pub temp_path : Bytes
  pub m_dir : Bytes
  pub args_txl : List Bytes
  pub mv_dir : Bytes
  pub mutants : List Evaluated

-- `original_source_file`, which each evaluation of a mutant sets.
abbrev pub original_source_file : SourceRun → Option Bytes
original_source_file r = if length r.mutants == 0 then none else some r.mv_dir

-- `process_source_file`.
unfoldable pub source_actions : SourceRun → Option (List Action)
source_actions r =
    elim (finish_source_actions r.setting (length r.mutants) (original_source_file r)) [
      | none ↦ none
      | some finish ↦ some (
          start_source_actions r.setting r.temp_path r.m_dir r.args_txl
          ++ (inject_actions r.setting r.mv_dir r.mutants ++ finish))
    ]

-- What happens while the sources are processed: the working directory becomes one of theirs, or its
-- parent again, or a file is processed.
pub data Visit : Type 0 where
  entered : Bytes → Visit
  processed : SourceRun → Visit

abbrev pub visit_actions : Visit → Option (List Action)
visit_actions (entered dir) = some (change_dir dir ∷ [])
visit_actions (processed r) = source_actions r

unfoldable pub sources_actions : List Visit → Option (List Action)
sources_actions [] = some []
sources_actions (v ∷ vs) = elim (visit_actions v) [
  | none ↦ none
  | some xs ↦ elim (sources_actions vs) [ none ↦ none | some ys ↦ some (xs ++ ys) ]
]

-- `main`, from the removal of an old copy on.
unfoldable pub main_actions :
    Leftover → Bytes → Bytes → Config → Bool → List Visit → Option (List Action)
main_actions memory cwd copy_put config preset visits =
    elim (library_actions memory config preset copy_put) [
      | none ↦ none
      | some library ↦ elim (sources_actions visits) [
        | none ↦ none
        | some sources ↦ some (
            prepare_actions cwd copy_put config
            ++ (library ++ (environment_actions cwd copy_put ++ (sources ++ clean_up copy_put))))
      ]
    ]

-- There are actions, they are allowed from this value of IS_MUTATE on, and they leave "true".
abbrev Reaches : Bytes → Option (List Action) → Type 0
Reaches e m = (xs : List Action) × ((m ≡ some xs) × (e ⊢ xs ⟶ reporting))

clean_up-⟶ : {e : Bytes} (dir : Bytes) → e ⊢ clean_up dir ⟶ e
unfolding clean_up
clean_up-⟶ dir = next (started rm _ (λ h. cc)) done

start_source_actions-⟶ :
    {e : Bytes} (g : Setting) (temp_path m_dir : Bytes) (args : List Bytes)
    → e ⊢ start_source_actions g temp_path m_dir args ⟶ e
unfolding start_source_actions filter_mutants
start_source_actions-⟶ g temp_path m_dir args = next (removed _) (
    next (written _ _)
      (next (dir_made _) (next (started txl _ (λ h. cc)) (next (filtered _) done))))

restored-⟶ :
    {e : Bytes} (g : Setting) (original : Bytes)
    → e ⊢ copy_file original g.target ++ (Action.run cat (g.results_path ∷ []) ∷ []) ⟶ e
restored-⟶ g original =
    then_actions (copy_file-⟶ original g.target) (next (started cat _ (λ h. cc)) done)

finish_source_actions-Reaches :
    (r : SourceRun)
    → Reaches reporting
        (finish_source_actions r.setting (length r.mutants) (original_source_file r))
unfolding finish_source_actions
finish_source_actions-Reaches r = elim (Bool-cases (length r.mutants == 0)) [
  | inl e ↦ rw (e, finish_source_actions) ([], (refl, done))
  | inr e ↦ rw (e, finish_source_actions) (_, (refl, restored-⟶ r.setting r.mv_dir))
]

source_actions-Reaches : (r : SourceRun) → Reaches reporting (source_actions r)
unfolding source_actions
source_actions-Reaches r =
    let (finish, (e, h)) = finish_source_actions-Reaches r in
    rw (e, source_actions)
      (
        _,
        (
          refl,
          then_actions (start_source_actions-⟶ r.setting r.temp_path r.m_dir r.args_txl)
              (then_actions (inject_actions-⟶ r.setting r.mv_dir r.mutants) h),
        ),
      )

visit_actions-Reaches : (v : Visit) → Reaches reporting (visit_actions v)
visit_actions-Reaches (entered dir) = (_, (refl, next (dir_changed dir) done))
visit_actions-Reaches (processed r) = source_actions-Reaches r

sources_actions-Reaches : (vs : List Visit) → Reaches reporting (sources_actions vs)
unfolding sources_actions
sources_actions-Reaches [] = ([], (refl, done))
sources_actions-Reaches (v ∷ vs) =
    let (xs, (e, h)) = visit_actions-Reaches v in
    let (ys, (e', h')) = sources_actions-Reaches vs in
    rw (e, sources_actions) (rw e' (_, (refl, then_actions h h')))

prepare_actions-⟶ :
    {e : Bytes} (cwd copy_put : Bytes) (config : Config)
    → e ⊢ prepare_actions cwd copy_put config ⟶ reporting
unfolding prepare_actions
prepare_actions-⟶ cwd copy_put config = then_actions (clean_up-⟶ copy_put) (
    then_actions (clean_up-⟶ (codes "mutation_out")) (
      next (dir_made _) (
        next (dir_made _) (
          next (started cp _ (λ h. cc)) (
            next (switched (codes "false")) (
              next (original_made _ _ refl) (
                then_actions (extract_cfg_branches-⟶ copy_put (codes "mutation_out/PUT") none) (
                  then_actions (gen_valgrind_result-⟶ cwd (codes "PUT") (codes "PUT") config)
                    (next (switched reporting) done)))))))))

environment_actions-⟶ :
    {e : Bytes} (cwd copy_put : Bytes) → e ⊢ environment_actions cwd copy_put ⟶ reporting
unfolding environment_actions
environment_actions-⟶ cwd copy_put =
    next (results_set _) (next (temp_set _) (next (switched reporting) done))

-- The actions, where there are some, are allowed from every value of IS_MUTATE on, and leave it.
abbrev Stays : Option (List Action) → Type 0
Stays none = Unit {0}
Stays (some xs) = (e : Bytes) → e ⊢ xs ⟶ e

cutest_library-Stays :
    (copy_put : Bytes) (lib : Field Bytes) (version : Field ℤ)
    → Stays (cutest_library copy_put lib version)
cutest_library-Stays copy_put unset version = tt
cutest_library-Stays copy_put (assigned lib) unset = tt
cutest_library-Stays copy_put (assigned lib) (assigned version) = λ e. copy_file-⟶ _ _

libcheck_library-Stays :
    (memory : Leftover) (copy_put : Bytes) (preset : Bool) (lib : Field Bytes)
    → Stays (libcheck_library memory copy_put preset lib)
libcheck_library-Stays null_pointer copy_put preset unset = λ e. done
libcheck_library-Stays (address_of lib) copy_put preset unset = λ e. copy_file-⟶ _ _
libcheck_library-Stays unreadable copy_put preset unset = tt
libcheck_library-Stays null_pointer copy_put preset (assigned lib) = λ e. copy_file-⟶ _ _
libcheck_library-Stays (address_of l) copy_put preset (assigned lib) = λ e. copy_file-⟶ _ _
libcheck_library-Stays unreadable copy_put preset (assigned lib) = λ e. copy_file-⟶ _ _

choose : (b : Bool) (m m' : Option (List Action)) → Stays m → Stays m' → Stays (if b then m else m')
choose true m m' h h' = h
choose false m m' h h' = h'

library_actions-Stays :
    (memory : Leftover) (config : Config) (preset : Bool) (copy_put : Bytes)
    → Stays (library_actions memory config preset copy_put)
unfolding library_actions
library_actions-Stays memory config preset copy_put =
    choose (config.testing_framework == 1) _ _
      (cutest_library-Stays copy_put config.cutest_lib_source config.cutest_version)
      (choose (config.testing_framework == 2) _ (some [])
        (libcheck_library-Stays memory copy_put preset config.check_test_lib_source) (λ e. done))

-- Where the test library can be copied, a run that finishes its sources starts programs in this
-- order, whatever IS_MUTATE was before it: Valgrind and the program under test itself only while
-- IS_MUTATE is "false", and the tests of a mutant only while it is "true", which it is at the end.
pub main_actions-⟶ :
    (memory : Leftover) (cwd copy_put : Bytes) (config : Config) (preset : Bool)
    (visits : List Visit) (library : List Action) (before : Bytes)
    → library_actions memory config preset copy_put ≡ some library
    → (xs : List Action) × ((main_actions memory cwd copy_put config preset visits ≡ some xs)
        × (before ⊢ xs ⟶ reporting))
unfolding main_actions
main_actions-⟶ memory cwd copy_put config preset visits library before e =
    let (sources, (e', h)) = sources_actions-Reaches visits in
    rw (e, main_actions)
      (rw e' (
        _,
        (
          refl,
          then_actions (prepare_actions-⟶ cwd copy_put config) (
              then_actions
                (subst Stays e (library_actions-Stays memory config preset copy_put) reporting)
                (then_actions (environment_actions-⟶ cwd copy_put)
                  (then_actions h (clean_up-⟶ copy_put)))),
        ),
      ))
