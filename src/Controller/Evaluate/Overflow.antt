-- ===== src/Controller/Evaluate/Overflow.antt =====
-- The array of the survivors is grown too late: its growth waits for an index that is past its end
-- by one.
use memory_mutation_testing.Base.{
  ℕ, ◌+◌, ◌≤◌, ◌≡◌, refl, ap, ◌∙◌, Bool, true, false, Option, none, some, arith, if◌then◌else◌, ℤ,
}
use mathlib.Core.Logic.{◌↔◌}
use memory_mutation_testing.Base.Text.{Bytes}
use memory_mutation_testing.Base.Double.{Double, is_zero}
use memory_mutation_testing.Gstats.Table.{Table}
use memory_mutation_testing.Valgrind.{ValgrindResult}
use memory_mutation_testing.Controller.Mutants.{Mutant, State}
use memory_mutation_testing.Controller.Fom.{
  add_to, bump, on_result, classify_survived, count_errors,
}
use memory_mutation_testing.Controller.Evaluate.{grow_survived, store_survived, survived_tests}

module _ (F : Double) (T : Table) where
  -- The index of the next survivor and the length of the array.
  abbrev slot_of : State F T → ℕ × ℕ
  slot_of s = (s.result.survived_count, s.survived_buffer)

  classify_survived-slot_of :
      (code : Bytes) (same memory cfg : Bool) (s : State F T)
      → slot_of (classify_survived F T code same memory cfg s) ≡ slot_of s
  unfolding classify_survived bump
  classify_survived-slot_of code true memory cfg s = refl
  classify_survived-slot_of code false true true s = refl
  classify_survived-slot_of code false true false s = refl
  classify_survived-slot_of code false false true s = refl
  classify_survived-slot_of code false false false s = refl

  count_errors-slot_of :
      (code : Bytes) (v : Option ValgrindResult) (s : State F T)
      → slot_of (count_errors F T code v s) ≡ slot_of s
  unfolding count_errors add_to
  count_errors-slot_of code none s = refl
  count_errors-slot_of code (some v) s = refl

  moved-slot_of :
      (zero_dev : Bool) (s : State F T)
      → slot_of (
          if zero_dev
          then s
          else (on_result F T
              (λ r. record r {
                survived_caused_cfg_deviation = r.survived_caused_cfg_deviation + 1;
              })
              s))
        ≡ slot_of s
  moved-slot_of true s = refl
  moved-slot_of false s = refl

  moved_le :
      (zero_dev : Bool) (s : State F T)
      → s.result.survived_count ≤ s.survived_buffer
      → let s' =
          if zero_dev
          then s
          else (on_result F T
              (λ r. record r {
                survived_caused_cfg_deviation = r.survived_caused_cfg_deviation + 1;
              })
              s) in
        s'.result.survived_count ≤ s'.survived_buffer
  moved_le true s h = h
  moved_le false s h = h

  grow_survived-slot_of :
      (s : State F T)
      → s.result.survived_count ≤ s.survived_buffer
      → slot_of (grow_survived F T s) ≡ slot_of s
  unfolding grow_survived
  grow_survived-slot_of s h = ground arith

  store_survived-eq_none_iff :
      (m : Mutant F) (s : State F T) (slot : ℕ × ℕ)
      → slot_of s ≡ slot
      → slot.0 ≤ slot.1
      → (store_survived F T m s ≡ none) ↔ (slot.0 ≡ slot.1)
  unfolding store_survived
  store_survived-eq_none_iff m s slot e h =
      let e0 : s.result.survived_count ≡ slot.0 = ap (λ p. p.0) e in
      let e1 : s.survived_buffer ≡ slot.1 = ap (λ p. p.1) e in
      (λ f. ground arith, λ f. ground arith)

  -- For a state with no more survivors than the array has places, a survivor is written past the
  -- end of the array, which is a fault, exactly when the array is full; so the growth to the double
  -- size never helps.
  pub survived_tests-eq_none_iff :
      (put_errors : ℤ) (code file : Bytes) (dev : F.D) (v : Option ValgrindResult) (s : State F T)
      → s.result.survived_count ≤ s.survived_buffer
      → (survived_tests F T put_errors code file dev v s ≡ none)
        ↔ (s.result.survived_count ≡ s.survived_buffer)
  unfolding survived_tests
  survived_tests-eq_none_iff put_errors code file dev v s h =
      store_survived-eq_none_iff _ _ (slot_of s)
        (count_errors-slot_of code v _
          ∙ classify_survived-slot_of code _ _ _ _
          ∙ grow_survived-slot_of _ (moved_le (is_zero F dev) s h)
          ∙ moved-slot_of (is_zero F dev) s)
        h
