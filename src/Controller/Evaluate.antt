-- ===== src/Controller/Evaluate.antt =====
-- controller.c, lines 505 to 724: `genResultsFOM` itself, over the parts of Controller/Fom.antt.
pub mod Steps
pub mod Tally
pub mod Room
pub mod Capacity
pub mod Overflow
pub mod Verdict
pub mod Detection
pub mod After
pub mod Balance
pub mod Named
use mathlib.Core.Option as Option
use memory_mutation_testing.Base.{
  ◌+◌, ◌*◌, not, ◌&&◌, Option, none, some, checked, List, [], ◌∷◌, ◌++◌, if◌then◌else◌, ltb, ℤ, pos,
  ◌-ℤ◌, ltb_ℤ, eqb_ℤ, pos_part, take,
}
use memory_mutation_testing.Base.Text.{Bytes}
use memory_mutation_testing.Base.Double.{Double, one_double, is_positive, is_zero}
use memory_mutation_testing.Cfg.{calculate_cfg_branch_deviation}
use memory_mutation_testing.Gstats.Table.{Table}
use memory_mutation_testing.Valgrind.{ValgrindResult}
use memory_mutation_testing.Controller.Process.{run_make}
use memory_mutation_testing.Controller.Results.{
  Stats, get_non_trivial_fom_stats, is_readable, copied_ids, copies_within,
}
use memory_mutation_testing.Controller.Mutants.{
  Mutant, mutant, runtime_error, cfg_deviation_entry, Observation, State,
}
use memory_mutation_testing.Controller.Fom.{
  mutation_code_of, memory_deviates, new_errors_only, is_non_trivial, is_dumb, bump, on_result,
  note, classify_killed, classify_survived, count_errors,
}

module _ (F : Double) (T : Table) where
  -- `realloc` to the double size, when the number of kills in the file exceeds the size.
  unfoldable pub grow_non_trivial : Stats → State F T → State F T
  grow_non_trivial stats s =
      if ltb_ℤ (pos s.non_trivial_fom_buffer) stats.kills
      then record s { non_trivial_fom_buffer = s.non_trivial_fom_buffer * 2 }
      else s

  -- `memcpy` of as many numbers of failed tests as `stats[1]` says, out of the array `stats`.
  unfoldable pub non_trivial_mutant : Bytes → Bytes → Stats → F.D → Option ValgrindResult → Mutant F
  non_trivial_mutant code file stats deviation v = record {
    mutation_code = code;
    mutant_source_file = file;
    fragility = some (F.div (F.of_int stats.failed) (F.of_int stats.total));
    killed_by_tests = some (copied_ids stats);
    killed_by_tests_count = some stats.failed;
    valgrind_result = v;
    cfg_deviation = deviation;
    damage = one_double F;
  }

  -- Lines 598 to 626. The write at `NTFC` must lie in the array, and what `memcpy` reads
  -- in the array `stats`.
  unfoldable pub store_killed :
      Bytes → Bytes → Stats → F.D → Option ValgrindResult → State F T → Option (State F T)
  store_killed code file stats deviation v s =
      if is_non_trivial stats
      then (if ltb s.result.non_trivial_fom_count s.non_trivial_fom_buffer && copies_within stats
          then (some (
              on_result F T
                (λ r. record r {
                  non_trivial_foms =
                      r.non_trivial_foms ++ (non_trivial_mutant code file stats deviation v ∷ []);
                  non_trivial_fom_count = r.non_trivial_fom_count + 1;
                })
                s))
          else none)
      else if is_dumb stats
      then some (on_result F T (λ r. record r { dumb_mutants = r.dumb_mutants + 1 }) s)
      else some s

  -- Lines 577 to 647: the tests killed the mutant.
  unfoldable pub killed_by_tests :
      ℤ → Bytes → Bytes → Stats → F.D → Option ValgrindResult → State F T → Option (State F T)
  killed_by_tests put_errors code file stats deviation valgrind s =
      let v = Option.map (new_errors_only put_errors) valgrind in
      let counted =
        on_result F T (λ r. record r { mutant_kill_count = r.mutant_kill_count + 1 })
          (bump F T code "killed_by_tests" s) in
      let grown = grow_non_trivial stats counted in
      Option.map
        (λ stored.
          classify_killed F T code (memory_deviates put_errors v) (is_positive F deviation)
            (on_result F T (λ r. record r { total_tests = stats.total }) stored))
        (store_killed code file stats deviation v (count_errors F T code v grown))

  unfoldable pub survived_mutant : Bytes → Bytes → F.D → Option ValgrindResult → Mutant F
  survived_mutant code file deviation v = record {
    mutation_code = code;
    mutant_source_file = file;
    fragility = none;
    killed_by_tests = none;
    killed_by_tests_count = none;
    valgrind_result = v;
    cfg_deviation = deviation;
    damage =
        F.add (F.div (F.of_int (pos 2)) (F.of_int (pos 3))) (F.div deviation (F.of_int (pos 3)));
  }

  -- `realloc` to the double size, when the index `SMC` exceeds the size.
  unfoldable pub grow_survived : State F T → State F T
  grow_survived s =
      if ltb s.survived_buffer s.result.survived_count
      then record s { survived_buffer = s.survived_buffer * 2 }
      else s

  -- Lines 692 to 700. The write at `SMC` must lie in the array.
  unfoldable pub store_survived : Mutant F → State F T → Option (State F T)
  store_survived m s =
      if ltb s.result.survived_count s.survived_buffer
      then (some (
          on_result F T
            (λ r. record r {
              survived = r.survived ++ (m ∷ []);
              survived_count = r.survived_count + 1;
            })
            s))
      else none

  -- Lines 648 to 701: the tests did not kill the mutant.
  unfoldable pub survived_tests :
      ℤ → Bytes → Bytes → F.D → Option ValgrindResult → State F T → Option (State F T)
  survived_tests put_errors code file deviation v s =
      let moved =
        if is_zero F deviation
        then s
        else (on_result F T
            (λ r. record r { survived_caused_cfg_deviation = r.survived_caused_cfg_deviation + 1 })
            s) in
      let memory = memory_deviates put_errors v in
      let classified =
        classify_survived F T code (not memory && is_zero F deviation) memory
          (is_positive F deviation) (grow_survived moved) in
      store_survived (survived_mutant code file deviation v) (count_errors F T code v classified)

  -- Lines 561 to 570: what the deviation adds to the statistics.
  unfoldable pub record_deviation : Bytes → F.D → State F T → State F T
  record_deviation code deviation s = note F T (cfg_deviation_entry deviation) (
      if is_positive F deviation
      then (on_result F T (λ r. record r { caused_cfg_deviation = r.caused_cfg_deviation + 1 })
          (record s {
            stats = T.update s.stats code "cfg_deviation_raw" (
                F.truncate (
                  F.add (F.of_int (T.get s.stats code "cfg_deviation_raw"))
                    (F.mul deviation (F.of_int (pos 100)))));
          }))
      else s)

  -- Lines 542 to 546: make failed or ran into the time limit.
  unfoldable pub failed_injection : Bytes → State F T → State F T
  failed_injection code s = bump F T code "failed_injection" (
      on_result F T
        (λ r. record r {
          mutant_kill_count = r.mutant_kill_count + 1;
          failed_injection = r.failed_injection + 1;
        })
        s)

  -- Lines 523 to 540: the mutant is counted and built, and the tests run.
  unfoldable pub begin_mutant : Bytes → Bytes → Observation → State F T → State F T
  begin_mutant code str ob s =
      bump F T code "generated_mutants"
        (record (on_result F T (λ r. record r { total_mutants = r.total_mutants + 1 })
          (note F T (mutant str) s)) { temp = ob.temp_after })

  -- Lines 547 to 702: the mutant was built. `prev` is the number of kills before. `none` where the
  -- numbers of the failed tests overrun the array that they are read to.
  unfoldable pub built_mutant : ℤ → Bytes → Bytes → ℤ → Observation → State F T → Option (State F T)
  built_mutant put_errors code file prev ob s =
      let deviation = calculate_cfg_branch_deviation F ob.put_branches ob.mutant_branches in
      let s' = record_deviation code deviation s in
      let stats = get_non_trivial_fom_stats s'.temp in
      checked (is_readable s.temp) (
        if eqb_ℤ (stats.kills -ℤ prev) (pos 1)
        then killed_by_tests put_errors code file stats deviation ob.valgrind s'
        else survived_tests put_errors code file deviation ob.valgrind s')

  abbrev finish : Bytes → State F T → State F T
  finish mv_dir = on_result F T (λ r. record r { original_source_file = some mv_dir })

  -- `put_errors` is `PUTValgrindErrors`; `str`, `filename_qfd` and `mv_dir` are the arguments. `none`
  -- where temp_results.log, as it is before, cannot be read, and where gstats.c exits.
  unfoldable pub gen_results_fom :
      ℤ → Bytes → Bytes → Bytes → Observation → State F T → Option (State F T)
  gen_results_fom put_errors str filename_qfd mv_dir ob s =
      let code = mutation_code_of str in
      let prev = (get_non_trivial_fom_stats s.temp).kills in
      let begun = begin_mutant code str ob s in
      checked (is_readable s.temp && ob.stats_kept) (
        Option.map (finish mv_dir) (
          if eqb_ℤ (run_make ob.unset ob.make) (pos 2)
          then some (failed_injection code (note F T runtime_error begun))
          else built_mutant put_errors code filename_qfd prev ob begun))

  -- `genResultsFOM` for one mutant after the other, each with its file name and its path.
  unfoldable pub evaluate_mutants :
      ℤ → Bytes → List (Bytes × Bytes × Observation) → State F T → Option (State F T)
  evaluate_mutants put_errors mv_dir [] s = some s
  evaluate_mutants put_errors mv_dir ((str, file, ob) ∷ rest) s =
      elim (gen_results_fom put_errors str file mv_dir ob s) [
        | none ↦ none
        | some s' ↦ evaluate_mutants put_errors mv_dir rest s'
      ]
