-- ===== src/Controller/Inject/Outcome.antt =====
-- What `inject_mutations` leaves for a directory: the theorems on sequences of mutants, from the
-- initial result on.
use memory_mutation_testing.Controller.Results.{is_readable}
use memory_mutation_testing.Base.{
  ℕ, ◌≤◌, ◌≡◌, refl, sym, ◌∙◌, true, false, some, List, [], ◌∷◌, ◌++◌, arith, length, ℤ, pos, ◌≤ℤ◌,
  Bool-cases, Option-cases, inl, inr,
}
use memory_mutation_testing.Base.Text.{Bytes, codes}
use memory_mutation_testing.Base.Double.{Double, IsExact}
use memory_mutation_testing.Gstats.Table.{Table}
use memory_mutation_testing.Controller.Mutants.{Observation, State}
use memory_mutation_testing.Controller.Fom.Counters.{IsTallied}
use memory_mutation_testing.Controller.Evaluate.{gen_results_fom, evaluate_mutants}
use memory_mutation_testing.Controller.Evaluate.Tally.{evaluate_mutants-IsTallied}
use memory_mutation_testing.Controller.Evaluate.Room.{IsRoomy}
use memory_mutation_testing.Controller.Evaluate.Capacity.{
  AllSound, evaluate_mutants-total, kills_in, KillsRise,
}
use memory_mutation_testing.Controller.Inject.{
  DirEntry, is_mutant, path_in, initial_state, inject_entries, inject_mutations,
}

-- The mutants in a directory, in the order of the entries.
abbrev pub mutants_in : Bytes → Bytes → List DirEntry → List (Bytes × Bytes × Observation)
mutants_in src_dir original [] = []
mutants_in src_dir original (e ∷ rest) = elim (is_mutant original e.kind e.name) [
  | true ↦ (e.name, path_in src_dir e.name, e.observation) ∷ mutants_in src_dir original rest
  | false ↦ mutants_in src_dir original rest
]

module _ (F : Double) (T : Table) (put_errors : ℤ) (src_dir original : Bytes) where
  inject_entries-eq-evaluate_mutants :
      (mv_dir : Bytes) (entries : List DirEntry) (s : State F T)
      → inject_entries F T put_errors src_dir original mv_dir entries s
        ≡ evaluate_mutants F T put_errors mv_dir (mutants_in src_dir original entries) s
  unfolding inject_entries evaluate_mutants
  inject_entries-eq-evaluate_mutants mv_dir [] s = refl
  inject_entries-eq-evaluate_mutants mv_dir (e ∷ rest) s =
      elim (Bool-cases (is_mutant original e.kind e.name)) [
        | inl yes_e ↦
            rw (yes_e, inject_entries, evaluate_mutants)
              (elim (Option-cases (
                gen_results_fom F T put_errors e.name (path_in src_dir e.name) mv_dir e.observation
                  s)) [
                    | inl stopped ↦ rw stopped refl
                    | inr (s', done) ↦ rw done (inject_entries-eq-evaluate_mutants mv_dir rest s')
                  ])
        | inr no_e ↦
            rw (no_e, inject_entries, evaluate_mutants)
              (inject_entries-eq-evaluate_mutants mv_dir rest s)
      ]

  abbrev pub backup : Bytes
  backup = path_in src_dir original ++ codes ".original"

  pub inject_mutations-eq-evaluate_mutants :
      (entries : List DirEntry) (s : State F T)
      → inject_mutations F T put_errors src_dir original entries s
        ≡ evaluate_mutants F T put_errors backup
            (mutants_in src_dir original entries)
            (initial_state F T s)
  unfolding inject_mutations
  inject_mutations-eq-evaluate_mutants entries s =
      inject_entries-eq-evaluate_mutants backup entries (initial_state F T s)

  initial_state-IsTallied : (s : State F T) → IsTallied F 0 0 (initial_state F T s).result
  unfolding initial_state
  initial_state-IsTallied s = ground arith

  -- With exact arithmetic on the deviations, when the evaluation of a directory does not fault,
  -- each mutant has been counted either as killed or as survived; each survivor is in one of the
  -- classes equivalent, strong and weak damage; weak damage is split into Valgrind errors and
  -- deviations of the control flow; and the two arrays hold as many mutants as their counts say.
  pub inject_mutations-IsTallied :
      IsExact F
      → (entries : List DirEntry) (s s' : State F T)
      → inject_mutations F T put_errors src_dir original entries s ≡ some s'
      → IsTallied F 0 0 s'.result
  inject_mutations-IsTallied exact entries s s' e =
      evaluate_mutants-IsTallied F T exact put_errors backup (mutants_in src_dir original entries)
        (initial_state F T s) s' (initial_state-IsTallied s)
        (sym (inject_mutations-eq-evaluate_mutants entries s) ∙ e)

  pub initial_state-IsRoomy :
      (s : State F T) (room : ℕ)
      → room ≤ 200
      → pos 0 ≤ℤ kills_in s.temp
      → IsRoomy F T room (kills_in s.temp) s.temp (initial_state F T s)
  unfolding initial_state
  initial_state-IsRoomy s room h k = record {
    held = refl;
    known = k;
    fits = omega arith;
    not_empty = omega arith;
    survivors = omega arith;
  }

  -- With at most 200 mutants in the directory, a number of kills in temp_results.log that is not
  -- negative, and no evaluation that lowers it, when the numbers of the failed tests in the file fit
  -- the array of 1024 bytes that they are read to, before the first mutant and after each, the file
  -- does not say after a mutant that more tests failed than the array of its numbers has places, and
  -- gstats.c does not exit, the evaluation of the directory succeeds: no write passes the end of the
  -- two arrays of mutants.
  pub inject_mutations-total :
      (entries : List DirEntry) (s : State F T)
      → length (mutants_in src_dir original entries) ≤ 200
      → pos 0 ≤ℤ kills_in s.temp
      → is_readable s.temp ≡ true
      → AllSound (mutants_in src_dir original entries)
      → KillsRise s.temp (mutants_in src_dir original entries)
      → (s' : State F T) × (inject_mutations F T put_errors src_dir original entries s ≡ some s')
  unfolding initial_state
  inject_mutations-total entries s few k read sound rise =
      let (s', done) =
        evaluate_mutants-total F T put_errors backup (mutants_in src_dir original entries)
          (initial_state F T s) (initial_state-IsRoomy s _ few k) read sound rise in
      (s', inject_mutations-eq-evaluate_mutants entries s ∙ done)
