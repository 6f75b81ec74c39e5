-- ===== src/Controller/Hom.antt =====
-- controller.c, lines 56 to 72 and 818 to 892: `genHOMFitness`, the evaluation of a higher-order
-- mutant. The hash set is an argument; the paths and what is printed are left out.
pub mod Search
pub mod Kills
pub mod Rounds
pub mod Endless
pub mod Ends
pub mod Room
pub mod Faults
pub mod Combination
pub mod Arguments
pub mod Archive
use memory_mutation_testing.Base.{
  ℕ, zero, suc, ◌+◌, ◌≡◌, ◌==◌, Bool, false, ◌&&◌, ◌||◌, Option, none, some, List, [], ◌∷◌, ◌++◌, ℤ,
  pos, negsuc, pos_part, ◌-ℤ◌, eqb_ℤ, if◌then◌else◌,
}
use memory_mutation_testing.Base.Text.{Bytes}
use memory_mutation_testing.Base.Double.{Double, zero_double}
use memory_mutation_testing.Controller.Process.{Wait, run_make}
use memory_mutation_testing.Controller.Mutants.{Mutant, Entry, mutant}
use memory_mutation_testing.Controller.Results.{Stats, get_non_trivial_fom_stats}

-- `&mutant.killed_by_tests[c]`: the array of a mutant, by the index of the mutant in
-- `non_trivial_FOMS`, and the place in it.
abbrev pub Address : Type 0
Address = ℕ × ℕ

abbrev pub same_address : Address → Address → Bool
same_address a b = (a.0 == b.0) && (a.1 == b.1)

-- hashset.h. `hashset_num_items` counts each item once.
pub record Hashset : Type 1 where
  pub Set : Type 0
  pub create : Set
  pub add : Set → Address → Set
  pub num_items : Set → ℕ
  pub is_member : Set → Address → Bool
  pub num_items-create : num_items create ≡ 0
  pub num_items-add :
      (s : Set) (a : Address)
      → num_items (add s a) ≡ (if is_member s a then num_items s else suc (num_items s))
  pub is_member-create : (a : Address) → is_member create a ≡ false
  pub is_member-add :
      (s : Set) (a b : Address) → is_member (add s a) b ≡ (same_address a b || is_member s b)

-- What happens while a higher-order mutant is evaluated. `hom_dir` is the name and the path in
-- hom_dir.log, or `none` where the file cannot be opened.
pub record HomObservation : Type 0 where
  pub hom_dir : Option (Bytes × Bytes)
  pub make : ℕ → Wait
  pub unset : ℤ
  pub temp_after : Bytes

module _ (F : Double) where
  -- `FOMutants`, by their indices in `non_trivial_FOMS`.
  pub record Homutant : Type 0 where
    pub fo_mutants : List ℕ
    pub fragility : F.D
    pub fitness : F.D

  -- `homResult`, with the files temp_results.log and mutation_results.log.
  pub record HomState : Type 0 where
    pub total_mutants : ℕ
    pub mutant_kill_count : ℕ
    pub temp : Bytes
    pub log : List (Entry F)

  -- The number that is returned for a failure.
  abbrev pub minus_one : F.D
  minus_one = F.of_int (negsuc 0)

  -- `killed_by_tests_count` of a mutant; `none` where it was never set, or there is no mutant.
  unfoldable pub kills_of : List (Mutant F) → ℕ → Option ℤ
  kills_of [] i = none
  kills_of (m ∷ ms) zero = m.killed_by_tests_count
  kills_of (m ∷ ms) (suc i) = kills_of ms i

  module _ (H : Hashset) where
    -- The loop over `c`.
    unfoldable pub add_tests : ℕ → ℕ → H.Set → H.Set
    add_tests i zero s = s
    add_tests i (suc c) s = H.add (add_tests i c s) (i, c)

    -- The loop over `mut`.
    unfoldable pub test_killed_set : List (Mutant F) → List ℕ → H.Set → Option H.Set
    test_killed_set foms [] s = some s
    test_killed_set foms (i ∷ rest) s = elim (kills_of foms i) [
      | none ↦ none
      | some n ↦ test_killed_set foms rest (add_tests i (pos_part n) s)
    ]

    -- The higher-order mutant is built, and the tests run. It is counted as killed once for a make
    -- that fails and once for a rise of the number of kills.
    abbrev pub evaluated_hom : Bytes → HomObservation → HomState → HomState
    evaluated_hom name ob s =
        let prev = (get_non_trivial_fom_stats s.temp).kills in
        let stats = get_non_trivial_fom_stats ob.temp_after in
        let failed = if eqb_ℤ (run_make ob.unset ob.make) (pos 2) then 1 else 0 in
        let killed = if eqb_ℤ (stats.kills -ℤ prev) (pos 1) then 1 else 0 in
        record {
          total_mutants = s.total_mutants + 1;
          mutant_kill_count = s.mutant_kill_count + failed + killed;
          temp = ob.temp_after;
          log = s.log ++ (mutant name ∷ []);
        }

    abbrev pub fragility_of : Stats → F.D
    fragility_of stats = F.div (F.of_int stats.failed) (F.of_int stats.total)

    -- The higher-order mutant afterwards, with the value that is returned.
    unfoldable pub gen_hom_fitness :
        List (Mutant F) → HomObservation → List ℕ → HomState → Option (HomState × Homutant × F.D)
    gen_hom_fitness foms ob fos s = elim ob.hom_dir [
      | none ↦ some (
        s,
        record { fo_mutants = fos; fragility = zero_double F; fitness = zero_double F },
        minus_one,
      )
      | some (name, path) ↦ elim (test_killed_set foms fos H.create) [
        | none ↦ none
        | some tests ↦
            let stats = get_non_trivial_fom_stats ob.temp_after in
            let fragility = fragility_of stats in
            let fitness =
              F.div fragility (F.div (F.of_int (pos (H.num_items tests))) (F.of_int stats.total)) in
            some (
              evaluated_hom name ob s,
              record { fo_mutants = fos; fragility = fragility; fitness = fitness },
              fitness,
            )
      ]
    ]
