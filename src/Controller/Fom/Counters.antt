-- ===== src/Controller/Fom/Counters.antt =====
-- The counters of `FOMResult` after the parts of `genResultsFOM`.
use memory_mutation_testing.Base.{
  ℕ, ◌+◌, ◌≡◌, Bool, true, false, Option, none, some, arith, length, not, ◌&&◌,
}
use memory_mutation_testing.Base.Text.{Bytes}
use memory_mutation_testing.Base.Double.{Double}
use memory_mutation_testing.Gstats.Table.{Table}
use memory_mutation_testing.Valgrind.{ValgrindResult}
use memory_mutation_testing.Controller.Mutants.{FomResult, State}
use memory_mutation_testing.Controller.Fom.{
  add_to, bump, classify_killed, classify_survived, count_errors,
}

-- How the counters fit together, while `open` mutants are counted but neither killed nor survived,
-- and `ahead` survivors are classified but not yet stored.
module _ (F : Double) where
  pub record IsTallied (open_mutants ahead : ℕ) (r : FomResult F) : Type 0 where
    pub total : r.total_mutants ≡ r.mutant_kill_count + r.survived_count + open_mutants
    pub survivors : r.equivalent_mutants + r.survived_sd + r.survived_wd ≡ r.survived_count + ahead
    pub survived_weak :
        r.survived_wd ≡ r.survived_wd_caused_valgrind_errors + r.survived_wd_caused_cfg_deviation
    pub killed_weak :
        r.killed_wd ≡ r.killed_wd_caused_valgrind_errors + r.killed_wd_caused_cfg_deviation
    pub survived_stored : length r.survived ≡ r.survived_count
    pub non_trivial_stored : length r.non_trivial_foms ≡ r.non_trivial_fom_count

module _ (F : Double) (T : Table) (code : Bytes) where
  pub classify_killed-IsTallied :
      (memory cfg : Bool) (s : State F T) {o a : ℕ}
      → IsTallied F o a s.result
      → IsTallied F o a (classify_killed F T code memory cfg s).result
  unfolding classify_killed bump
  classify_killed-IsTallied true true s h = ground arith
  classify_killed-IsTallied true false s h = ground arith
  classify_killed-IsTallied false true s h = ground arith
  classify_killed-IsTallied false false s h = h

  -- A mutant that survived falls into exactly one class, since its deviation is positive or zero.
  pub classify_survived-IsTallied :
      (memory cfg : Bool) (s : State F T) {o : ℕ}
      → IsTallied F o 0 s.result
      → IsTallied F o 1 (classify_survived F T code (not memory && not cfg) memory cfg s).result
  unfolding classify_survived bump
  classify_survived-IsTallied true true s h = ground arith
  classify_survived-IsTallied true false s h = ground arith
  classify_survived-IsTallied false true s h = ground arith
  classify_survived-IsTallied false false s h = ground arith

  pub count_errors-IsTallied :
      (v : Option ValgrindResult) (s : State F T) {o a : ℕ}
      → IsTallied F o a s.result
      → IsTallied F o a (count_errors F T code v s).result
  unfolding count_errors add_to
  count_errors-IsTallied none s h = h
  count_errors-IsTallied (some v) s h = ground arith
