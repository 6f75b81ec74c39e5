-- ===== src/Controller/Hom/Ends.antt =====
-- The search for higher-order mutants ends where their evaluations fail.
use memory_mutation_testing.Base.{
  ℕ, zero, suc, ◌+◌, ◌*◌, ◌%◌, ◌≤◌, ◌<◌, ◌≡◌, refl, arith, ◌==◌, true, false, none, some, List, [],
  ◌∷◌, ltb, leb, length, Bool-cases, inl, inr, if◌then◌else◌,
}
use memory_mutation_testing.Base.Double.{Double}
use memory_mutation_testing.Controller.Mutants.{Mutant, FomResult}
use memory_mutation_testing.Controller.Hom.{
  Hashset, HomObservation, HomState, minus_one, gen_hom_fitness,
}
use memory_mutation_testing.Controller.Hom.Search.{
  Search, ended, combined, grown, archive, new_optimum, indices, try_hom, combine, search_round,
  search_homs, new_search, generate_subsuming_homs,
}
use memory_mutation_testing.Controller.Hom.Room.{one_shifted-positive}
use memory_mutation_testing.Controller.Hom.Rounds.{others, nonzero, fewer}

leb_two : (n : ℕ) → 2 ≤ n → leb 2 n ≡ true
leb_two n l = ground arith

closed_search : (n k : ℕ) → n * 2 ≤ k → ltb k (n * 2) ≡ false
closed_search n k l = ground arith

positive : (n : ℕ) → 0 < n → (0 == n) ≡ false
positive n l = ground arith

others_two :
    (r k : ℕ)
    → 0 < (if 0 == r then (if 1 == r then k else suc k) else suc (if 1 == r then k else suc k))
others_two r k = ground arith

module _ (F : Double) where
  others-indices : (r n : ℕ) → 2 ≤ n → 0 < others r (indices F 0 n)
  unfolding indices
  others-indices r zero l = omega arith
  others-indices r (suc zero) l = omega arith
  others-indices r (suc (suc n)) l = others_two r (others r (indices F 2 n))

  module _ (H : Hashset) (foms : List (Mutant F)) (n : ℕ) (ob : ℕ → HomObservation) where
    module _ (fails : (k : ℕ) → (ob k).hom_dir ≡ none)
        (minus_one_equal : F.eqb (minus_one F) (minus_one F) ≡ true) (at_least_two : 2 ≤ n) where
      -- Nothing has been archived.
      abbrev IsEmpty : Search F → Type 0
      IsEmpty s = (s.hom_list ≡ []) × (0 < s.hom_list_size)

      not_grown :
          (s : Search F)
          → IsEmpty s
          → grown F (length s.hom_list) s.hom_list_size ≡ some s.hom_list_size
      unfolding grown
      not_grown s (e, l) = rw (e, positive s.hom_list_size l, grown) refl

      try_hom-fails :
          (r i : ℕ) (s : Search F)
          → IsEmpty s
          → (s' : Search F) × ((try_hom F H foms n ob r i none s ≡ some (none, s'))
              × ((s'.no_new_optimum ≡ suc s.no_new_optimum) × IsEmpty s'))
      unfolding try_hom combined gen_hom_fitness new_optimum archive
      try_hom-fails r i s h =
          rw
            (
              leb_two n at_least_two,
              fails s.evaluations,
              not_grown s h,
              minus_one_equal,
              try_hom,
              gen_hom_fitness,
              archive,
            )
            (rw (minus_one_equal, new_optimum) (_, (refl, (refl, h))))

      combine-fails :
          (r : ℕ) (is : List ℕ) (s : Search F)
          → IsEmpty s
          → (s' : Search F) × ((combine F H foms n ob r is none s ≡ some s')
              × ((s'.no_new_optimum ≡ s.no_new_optimum + others r is) × IsEmpty s'))
      unfolding combine
      combine-fails r [] s h = (s, (refl, (omega arith, h)))
      combine-fails r (i ∷ rest) s h = elim (Bool-cases (i == r)) [
        | inl same ↦ rw (same, combine) (combine-fails r rest s h)
        | inr other ↦
            let (t, (e, (c, h'))) = try_hom-fails r i s h in
            let (s', (e', (c', h''))) = combine-fails r rest t h' in
            rw (other, e, combine) (s', (e', (omega (arith, c, c'), h'')))
      ]

      round-fails :
          (rand : ℕ → ℕ) (s : Search F)
          → IsEmpty s
          → (s' : Search F) × ((search_round F H foms n ob rand s ≡ some s')
              × ((s.no_new_optimum < s'.no_new_optimum) × IsEmpty s'))
      unfolding search_round
      round-fails rand s h =
          let (s', (e, (c, h'))) =
            combine-fails (rand s.rounds % n) (indices F 0 n) (record s { rounds = suc s.rounds })
              h in
          (s', (e, (omega (arith, c, others-indices (rand s.rounds % n) n at_least_two), h')))

      search_homs-ends :
          (rand : ℕ → ℕ) (fuel : ℕ) (s : Search F)
          → IsEmpty s
          → n * 2 ≤ s.no_new_optimum + fuel
          → (s' : Search F) × (search_homs F H foms n ob rand fuel s ≡ ended s')
      unfolding search_homs
      search_homs-ends rand zero s h l =
          rw (closed_search n s.no_new_optimum (omega arith), search_homs) (s, refl)
      search_homs-ends rand (suc k) s h l = elim (Bool-cases (ltb s.no_new_optimum (n * 2))) [
        | inr enough ↦ rw (enough, search_homs) (s, refl)
        | inl few ↦
            let (t, (e, (c, h'))) = round-fails rand s h in
            rw (few, e, search_homs) (search_homs-ends rand k t h' (omega arith))
      ]

      -- With two to 30 mutants to combine, when hom_dir.log can never be opened, the search ends
      -- after at most twice as many rounds as there are mutants.
      pub generate_subsuming_homs-ends :
          (rand : ℕ → ℕ) (fuel : ℕ) (r : FomResult F) (st : HomState F)
          → r.non_trivial_foms ≡ foms
          → r.non_trivial_fom_count ≡ n
          → n < 31
          → n * 2 ≤ fuel
          → (s : Search F) × (generate_subsuming_homs F H ob rand fuel r st ≡ ended s)
      unfolding generate_subsuming_homs
      generate_subsuming_homs-ends rand fuel r st ef en b l =
          elim (Bool-cases (r.mutant_kill_count == r.total_mutants)) [
            | inl all_killed ↦ rw (all_killed, generate_subsuming_homs) (_, refl)
            | inr some_left ↦
                rw (ef, en, some_left, nonzero n (omega arith), fewer n b, generate_subsuming_homs)
                  (search_homs-ends rand fuel (new_search F n st) (refl, one_shifted-positive F n)
                    (omega arith))
          ]
