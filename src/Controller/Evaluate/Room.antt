-- ===== src/Controller/Evaluate/Room.antt =====
-- Where the two arrays of mutants have room for the next one.
use mathlib.Core.Option as Option
use memory_mutation_testing.Base.{
  ℕ, suc, ◌+◌, ◌≤◌, ◌<◌, ◌≡◌, Bool, true, false, Option, none, some, arith, ℤ, pos, ◌≤ℤ◌, ◌-ℤ◌,
  -ℤ_parts, lt→ltb, Bool-cases, inl, inr, if◌then◌else◌,
}
use memory_mutation_testing.Base.Text.{Bytes}
use memory_mutation_testing.Base.Double.{Double, is_positive, is_zero}
use memory_mutation_testing.Gstats.Table.{Table}
use memory_mutation_testing.Valgrind.{ValgrindResult}
use memory_mutation_testing.Controller.Results.{copies_within, Stats}
use memory_mutation_testing.Controller.Mutants.{Mutant, State}
use memory_mutation_testing.Controller.Fom.{
  add_to, bump, on_result, classify_killed, classify_survived, count_errors, is_non_trivial,
  is_dumb,
}
use memory_mutation_testing.Controller.Evaluate.{
  grow_non_trivial, store_killed, killed_by_tests, grow_survived, store_survived, survived_tests,
  record_deviation,
}

module _ (F : Double) (T : Table) where
  -- `t` is the content of temp_results.log, `kills` a number of kills, and `room` a number of further survivors.
  pub record IsRoomy (room : ℕ) (kills : ℤ) (t : Bytes) (s : State F T) : Type 0 where
    pub held : s.temp ≡ t
    pub known : pos s.result.non_trivial_fom_count ≤ℤ kills
    pub fits : s.result.non_trivial_fom_count ≤ s.non_trivial_fom_buffer
    pub not_empty : 0 < s.non_trivial_fom_buffer
    pub survivors : s.result.survived_count + room ≤ s.survived_buffer

  -- No fault, and room afterwards.
  abbrev pub Keeps : ℕ → ℤ → Bytes → Option (State F T) → Type 0
  Keeps room kills t none = ⊥
  Keeps room kills t (some s) = IsRoomy room kills t s

  module _ (code : Bytes) {room : ℕ} {kills : ℤ} {t : Bytes} where
    classify_killed-IsRoomy :
        (memory cfg : Bool) (s : State F T)
        → IsRoomy room kills t s
        → IsRoomy room kills t (classify_killed F T code memory cfg s)
    unfolding classify_killed bump
    classify_killed-IsRoomy true true s h = ground arith
    classify_killed-IsRoomy true false s h = ground arith
    classify_killed-IsRoomy false true s h = ground arith
    classify_killed-IsRoomy false false s h = h

    classify_survived-IsRoomy :
        (same memory cfg : Bool) (s : State F T)
        → IsRoomy room kills t s
        → IsRoomy room kills t (classify_survived F T code same memory cfg s)
    unfolding classify_survived bump
    classify_survived-IsRoomy true memory cfg s h = ground arith
    classify_survived-IsRoomy false true true s h = ground arith
    classify_survived-IsRoomy false true false s h = ground arith
    classify_survived-IsRoomy false false true s h = ground arith
    classify_survived-IsRoomy false false false s h = h

    count_errors-IsRoomy :
        (v : Option ValgrindResult) (s : State F T)
        → IsRoomy room kills t s
        → IsRoomy room kills t (count_errors F T code v s)
    unfolding count_errors add_to
    count_errors-IsRoomy none s h = h
    count_errors-IsRoomy (some v) s h = ground arith

    pub record_deviation-IsRoomy :
        (dev : F.D) (s : State F T)
        → IsRoomy room kills t s
        → IsRoomy room kills t (record_deviation F T code dev s)
    unfolding record_deviation
    record_deviation-IsRoomy dev s h = elim (Bool-cases (is_positive F dev)) [
      | inl p ↦ rw p (ground arith)
      | inr n ↦ rw n (ground arith)
    ]

  -- The place for one more non-trivial mutant is there.
  record IsReady (room : ℕ) (kills : ℤ) (t : Bytes) (s : State F T) : Type 0 where
    held : s.temp ≡ t
    counted : pos (suc s.result.non_trivial_fom_count) ≤ℤ kills
    place : s.result.non_trivial_fom_count < s.non_trivial_fom_buffer
    survivors : s.result.survived_count + room ≤ s.survived_buffer

  -- So it is after the growth, if the file counts one more kill than before.
  grow_non_trivial-IsReady :
      (stats : Stats) (s : State F T) {room : ℕ} {kills : ℤ} {t : Bytes}
      → IsRoomy room kills t s
      → stats.kills -ℤ kills ≡ pos 1
      → IsReady room stats.kills t (grow_non_trivial F T stats s)
  unfolding grow_non_trivial
  grow_non_trivial-IsReady stats s {kills} h e = ground (arith, -ℤ_parts stats.kills kills)

  count_errors-IsReady :
      (code : Bytes) (v : Option ValgrindResult) (s : State F T) {room : ℕ} {kills : ℤ} {t : Bytes}
      → IsReady room kills t s
      → IsReady room kills t (count_errors F T code v s)
  unfolding count_errors add_to
  count_errors-IsReady code none s h = h
  count_errors-IsReady code (some v) s h = ground arith

  store_killed-Keeps :
      (code file : Bytes) (stats : Stats) (dev : F.D) (v : Option ValgrindResult) (s : State F T)
      {room : ℕ} {kills : ℤ} {t : Bytes}
      → copies_within stats ≡ true
      → IsReady room kills t s
      → Keeps room kills t (store_killed F T code file stats dev v s)
  unfolding store_killed
  store_killed-Keeps code file stats dev v s copies h = elim (Bool-cases (is_non_trivial stats)) [
    | inl nt ↦ rw (nt, lt→ltb _ _ h.place, copies) (ground arith)
    | inr trivial ↦ rw trivial (elim (Bool-cases (is_dumb stats)) [
      | inl dumb ↦ rw dumb (ground arith)
      | inr nothing ↦ rw nothing (ground arith)
    ])
  ]

  pub Keeps-map :
      (f : State F T → State F T) (m : Option (State F T)) {room room' : ℕ} {kills kills' : ℤ}
      {t : Bytes}
      → ((s : State F T) → IsRoomy room kills t s → IsRoomy room' kills' t (f s))
      → Keeps room kills t m
      → Keeps room' kills' t (Option.map f m)
  Keeps-map f none keep h = h
  Keeps-map f (some s) keep h = keep s h

  killed-IsRoomy :
      (code : Bytes) (s : State F T) {room : ℕ} {kills : ℤ} {t : Bytes}
      → IsRoomy room kills t s
      → IsRoomy room kills t (
          on_result F T
            (λ r. record r { mutant_kill_count = r.mutant_kill_count + 1 })
            (bump F T code "killed_by_tests" s))
  unfolding bump
  killed-IsRoomy code s h = ground arith

  pub killed_by_tests-Keeps :
      (put_errors : ℤ) (code file : Bytes) (stats : Stats) (dev : F.D) (v : Option ValgrindResult)
      (s : State F T) {room : ℕ} {kills : ℤ} {t : Bytes}
      → IsRoomy room kills t s
      → stats.kills -ℤ kills ≡ pos 1
      → copies_within stats ≡ true
      → Keeps room stats.kills t (killed_by_tests F T put_errors code file stats dev v s)
  unfolding killed_by_tests
  killed_by_tests-Keeps put_errors code file stats dev v s h e copies =
      Keeps-map _ (store_killed F T code file stats dev _ _)
        (λ stored h'. classify_killed-IsRoomy code _ _ _ (ground arith))
        (store_killed-Keeps code file stats dev _ _ copies (
          count_errors-IsReady code _ _
            (grow_non_trivial-IsReady stats _ (killed-IsRoomy code s h) e)))

  store_survived-Keeps :
      (m : Mutant F) (s : State F T) {room : ℕ} {kills : ℤ} {t : Bytes}
      → IsRoomy (suc room) kills t s
      → Keeps room kills t (store_survived F T m s)
  unfolding store_survived
  store_survived-Keeps m s {room} h =
      let place : s.result.survived_count < s.survived_buffer = omega arith in
      rw (lt→ltb _ _ place) (ground arith)

  moved-IsRoomy :
      (zero_dev : Bool) (s : State F T) {room : ℕ} {kills : ℤ} {t : Bytes}
      → IsRoomy room kills t s
      → IsRoomy room kills t (
          if zero_dev
          then s
          else (on_result F T
              (λ r. record r {
                survived_caused_cfg_deviation = r.survived_caused_cfg_deviation + 1;
              })
              s))
  moved-IsRoomy true s h = h
  moved-IsRoomy false s h = ground arith

  grow_survived-IsRoomy :
      (s : State F T) {room : ℕ} {kills : ℤ} {t : Bytes}
      → IsRoomy room kills t s
      → IsRoomy room kills t (grow_survived F T s)
  unfolding grow_survived
  grow_survived-IsRoomy s h = ground arith

  pub survived_tests-Keeps :
      (put_errors : ℤ) (code file : Bytes) (dev : F.D) (v : Option ValgrindResult) (s : State F T)
      {room : ℕ} {kills : ℤ} {t : Bytes}
      → IsRoomy (suc room) kills t s
      → Keeps room kills t (survived_tests F T put_errors code file dev v s)
  unfolding survived_tests
  survived_tests-Keeps put_errors code file dev v s h = store_survived-Keeps _ _ (
      count_errors-IsRoomy code v _ (
        classify_survived-IsRoomy code _ _ _ _
          (grow_survived-IsRoomy _ (moved-IsRoomy (is_zero F dev) s h))))
