-- ===== src/Controller/Hom/Search.antt =====
-- controller.c, lines 894 to 969: `generateSubsumingHOMs`, the search for higher-order mutants. Its
-- call is commented out. The random numbers are an argument.
use memory_mutation_testing.Base.{
  ℕ, zero, suc, ◌*◌, ◌%◌, ◌==◌, true, false, not, ◌&&◌, Option, none, some, List, [], ◌∷◌, ◌++◌,
  ltb, leb, length, if◌then◌else◌,
}
use memory_mutation_testing.Base.Double.{Double, one_double, is_positive}
use memory_mutation_testing.Controller.Mutants.{Mutant, FomResult}
use memory_mutation_testing.Controller.Hom.{
  Hashset, HomObservation, Homutant, HomState, minus_one, gen_hom_fitness,
}

module _ (F : Double) where
  -- The variables of `generateSubsumingHOMs`, with the numbers of rounds and of evaluations so far.
  pub record Search : Type 0 where
    pub state : HomState F
    pub rounds : ℕ
    pub evaluations : ℕ
    pub no_new_optimum : ℕ
    pub hom_list : List (Homutant F)
    pub hom_list_size : ℕ

  -- `tmp_hom->FOMutants`.
  unfoldable pub combined : ℕ → ℕ → Option (Homutant F) → List ℕ
  combined r i none = r ∷ i ∷ []
  combined r i (some h) = h.fo_mutants ++ (i ∷ [])

  unfoldable pub new_optimum : F.D → Homutant F → Option (Homutant F) → Option (Homutant F)
  new_optimum fitness tmp none = if F.eqb fitness (minus_one F) then none else some tmp
  new_optimum fitness tmp (some h) =
      if F.eqb fitness (minus_one F)
      then some h
      else if is_positive F fitness && (F.ltb fitness (one_double F) && F.ltb h.fitness fitness)
      then some tmp
      else some h

  abbrev pub without_optimum : Option (Homutant F) → ℕ → ℕ
  without_optimum none k = suc k
  without_optimum (some h) k = k

  -- 2^31, the first number that is no `int`.
  abbrev pub int_bound : ℕ
  int_bound = 2147483648

  -- `hom_list_size`, an `int`, before the next mutant is archived; `none` where it overflows.
  unfoldable pub grown : ℕ → ℕ → Option ℕ
  grown hom_list_counter hom_list_size =
      if hom_list_counter == hom_list_size
      then (if ltb (hom_list_size * 2) int_bound then some (hom_list_size * 2) else none)
      else some hom_list_size

  -- The archive and the number of its places afterwards; `none` where that number overflows, and
  -- where the archive is written behind its end.
  unfoldable pub archive : F.D → Homutant F → List (Homutant F) → ℕ → Option (List (Homutant F) × ℕ)
  archive fitness tmp homs size = elim (grown (length homs) size) [
    | none ↦ none
    | some places ↦
        if F.eqb fitness (minus_one F)
        then some (homs, places)
        else if ltb (length homs) places
        then some (homs ++ (tmp ∷ []), places)
        else none
  ]

  -- The indices of an array of this length.
  unfoldable pub indices : ℕ → ℕ → List ℕ
  indices i zero = []
  indices i (suc n) = i ∷ indices (suc i) n

  pub data Outcome : Type 0 where
    faulted : Outcome
    running : Search → Outcome
    ended : Search → Outcome

  module _ (H : Hashset) (foms : List (Mutant F)) (n : ℕ) (ob : ℕ → HomObservation) where
    -- The body of the inner loop, for an index that is not `r`; `none` where `FOMutants` is written
    -- behind its end, and where a field is read that was never set.
    unfoldable pub try_hom :
        ℕ → ℕ → Option (Homutant F) → Search → Option (Option (Homutant F) × Search)
    try_hom r i optimum s =
        let fos = combined r i optimum in
        let fitted = gen_hom_fitness F H foms (ob s.evaluations) fos s.state in
        elim (if leb (length fos) n then fitted else none) [
          | none ↦ none
          | some (state, tmp, fitness) ↦ elim (archive fitness tmp s.hom_list s.hom_list_size) [
            | none ↦ none
            | some (homs, size) ↦ some (
              new_optimum fitness tmp optimum,
              record {
                state = state;
                rounds = s.rounds;
                evaluations = suc s.evaluations;
                no_new_optimum = without_optimum (new_optimum fitness tmp optimum) s.no_new_optimum;
                hom_list = homs;
                hom_list_size = size;
              },
            )
          ]
        ]

    -- The inner loop.
    unfoldable pub combine : ℕ → List ℕ → Option (Homutant F) → Search → Option Search
    combine r [] optimum s = some s
    combine r (i ∷ rest) optimum s = elim (i == r) [
      | true ↦ combine r rest optimum s
      | false ↦ elim (try_hom r i optimum s) [
        | none ↦ none
        | some (optimum', s') ↦ combine r rest optimum' s'
      ]
    ]

    -- A round of the outer loop, with the next random number.
    unfoldable pub search_round : (ℕ → ℕ) → Search → Option Search
    search_round rand s =
        combine (rand s.rounds % n) (indices 0 n) none (record s { rounds = suc s.rounds })

    -- So many rounds of the outer loop, or fewer.
    unfoldable pub search_homs : (ℕ → ℕ) → ℕ → Search → Outcome
    search_homs rand zero s = if ltb s.no_new_optimum (n * 2) then running s else ended s
    search_homs rand (suc k) s = elim (ltb s.no_new_optimum (n * 2)) [
      | false ↦ ended s
      | true ↦ elim (search_round rand s) [ none ↦ faulted | some s' ↦ search_homs rand k s' ]
    ]

  -- `1<<n`, for a shift by less than 31.
  abbrev pub one_shifted : ℕ → ℕ
  one_shifted zero = 1
  one_shifted (suc n) = one_shifted n * 2

  abbrev pub new_search : ℕ → HomState F → Search
  new_search n s = record {
    state = s;
    rounds = 0;
    evaluations = 0;
    no_new_optimum = 0;
    hom_list = [];
    hom_list_size = one_shifted n;
  }

  -- `fuel` bounds the rounds. A shift of the `int` 1 by 31 places or more is a fault.
  unfoldable pub generate_subsuming_homs :
      Hashset → (ℕ → HomObservation) → (ℕ → ℕ) → ℕ → FomResult F → HomState F → Outcome
  generate_subsuming_homs H ob rand fuel r s =
      let n = r.non_trivial_fom_count in
      if not (r.mutant_kill_count == r.total_mutants) && not (n == 0)
      then (if ltb n 31
          then search_homs H r.non_trivial_foms n ob rand fuel (new_search n s)
          else faulted)
      else ended (new_search n s)
