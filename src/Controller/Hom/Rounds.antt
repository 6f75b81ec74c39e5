-- ===== src/Controller/Hom/Rounds.antt =====
-- What an evaluation in the search for higher-order mutants has done.
use mathlib.Core.Option.{some-injective}
use memory_mutation_testing.Base.{
  ℕ, suc, ◌<◌, ◌≡◌, refl, sym, ap, ◌∙◌, arith, ◌==◌, true, ltb, false, ◌&&◌, Option, none, some,
  List, [], ◌∷◌, leb, length, Bool-cases, Option-cases, inl, inr, if◌then◌else◌,
}
use memory_mutation_testing.Base.Double.{Double, is_positive, one_double}
use memory_mutation_testing.Controller.Mutants.{Mutant}
use memory_mutation_testing.Controller.Hom.{
  Hashset, HomObservation, Homutant, HomState, minus_one, gen_hom_fitness,
}
use memory_mutation_testing.Controller.Hom.Search.{
  Search, combined, new_optimum, without_optimum, archive, try_hom,
}

-- How many of the indices are not `r`.
abbrev pub others : ℕ → List ℕ → ℕ
others r [] = 0
others r (i ∷ rest) = if i == r then others r rest else suc (others r rest)

pub nonzero : (n : ℕ) → 0 < n → (n == 0) ≡ false
nonzero n l = ground arith

pub fewer : (n : ℕ) → n < 31 → ltb n 31 ≡ true
fewer n l = ground arith

module _ (F : Double) where
  -- A value that is not -1 leaves an optimum.
  pub new_optimum-found :
      (fitness : F.D) (tmp : Homutant F) (optimum : Option (Homutant F))
      → F.eqb fitness (minus_one F) ≡ false
      → (h : Homutant F) × (new_optimum F fitness tmp optimum ≡ some h)
  unfolding new_optimum
  new_optimum-found fitness tmp none e = rw e (tmp, refl)
  new_optimum-found fitness tmp (some h) e =
      elim (Bool-cases
        (is_positive F fitness && (F.ltb fitness (one_double F) && F.ltb h.fitness fitness))) [
          | inl better ↦ rw (e, better) (tmp, refl)
          | inr worse ↦ rw (e, worse) (h, refl)
        ]

  module _ (H : Hashset) (foms : List (Mutant F)) (n : ℕ) (ob : ℕ → HomObservation) where
    -- What an evaluation that does not fault has done.
    pub record Tried (r i : ℕ) (optimum optimum' : Option (Homutant F)) (s s' : Search F)
        : Type 0 where
      pub state : HomState F
      pub tmp : Homutant F
      pub fitness : F.D
      pub fitted :
          gen_hom_fitness F H foms (ob s.evaluations) (combined F r i optimum) s.state
          ≡ some (state, tmp, fitness)
      pub room : leb (length (combined F r i optimum)) n ≡ true
      pub found : new_optimum F fitness tmp optimum ≡ optimum'
      pub count : without_optimum F optimum' s.no_new_optimum ≡ s'.no_new_optimum
      pub kept :
          archive F fitness tmp s.hom_list s.hom_list_size ≡ some (s'.hom_list, s'.hom_list_size)

    pub tried :
        (r i : ℕ) (optimum optimum' : Option (Homutant F)) (s s' : Search F)
        → try_hom F H foms n ob r i optimum s ≡ some (optimum', s')
        → Tried r i optimum optimum' s s'
    unfolding try_hom
    tried r i optimum optimum' s s' e =
        elim (Bool-cases (leb (length (combined F r i optimum)) n)) [
          | inr full ↦ absurd (cc (rw (full, try_hom) at e))
          | inl room ↦
              elim (Option-cases
                (gen_hom_fitness F H foms (ob s.evaluations) (combined F r i optimum) s.state)) [
                  | inl stopped ↦ absurd (cc (rw (room, stopped, try_hom) at e))
                  | inr ((state, tmp, fitness), done) ↦
                      elim (Option-cases (archive F fitness tmp s.hom_list s.hom_list_size)) [
                        | inl full ↦ absurd (cc (rw (room, done, full, try_hom) at e))
                        | inr ((homs, size), fits) ↦
                            let both = some-injective _ _ (rw (room, done, fits, try_hom) at e) in
                            record {
                              state = state;
                              tmp = tmp;
                              fitness = fitness;
                              fitted = done;
                              room = room;
                              found = ap (λ p. p.0) both;
                              count =
                                  ap (λ o. without_optimum F o s.no_new_optimum)
                                    (sym (ap (λ p. p.0) both))
                                  ∙ ap (λ p. p.1.no_new_optimum) both;
                              kept = fits ∙ ap (λ p. some (p.1.hom_list, p.1.hom_list_size)) both;
                            }
                      ]
                ]
        ]
