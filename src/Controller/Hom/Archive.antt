-- ===== src/Controller/Hom/Archive.antt =====
-- The archive of the search holds combinations of different mutants.
use mathlib.Core.Option.{some-injective}
use mathlib.Core.Path.{subst}
use memory_mutation_testing.Base.{
  ℕ, zero, suc, ◌+◌, ◌*◌, ◌%◌, ◌≤◌, ◌<◌, ◌≡◌, ◌≢◌, refl, sym, ap, arith, ◌==◌, Bool, true, false,
  not, ◌&&◌, Option, none, some, List, [], ◌∷◌, ◌++◌, ltb, leb, length, length-append, Bool-cases,
  Option-cases, inl, inr, if◌then◌else◌,
}
use memory_mutation_testing.Base.Double.{Double, is_positive, one_double}
use memory_mutation_testing.Controller.Mutants.{Mutant, FomResult}
use memory_mutation_testing.Controller.Hom.{
  Hashset, HomObservation, Homutant, HomState, minus_one, gen_hom_fitness, test_killed_set,
}
use memory_mutation_testing.Controller.Hom.Search.{
  Search, Outcome, faulted, running, ended, combined, grown, archive, new_optimum, indices, try_hom,
  combine, search_round, search_homs, new_search, generate_subsuming_homs,
}
use memory_mutation_testing.Controller.Hom.Rounds.{tried}
use memory_mutation_testing.Controller.Hom.Combination.{
  IsCombination, IsOld, IsOld-suc, IsOld-IsAbsent, IsOld-append, IsDistinct-append, at_most_of,
}
use memory_mutation_testing.Controller.Hom.Room.{IsBelow-append, mod_below}

module _ (F : Double) where
  -- All of them are combinations.
  abbrev pub AllCombined : ℕ → List (Homutant F) → Type 0
  AllCombined n [] = Unit {0}
  AllCombined n (h ∷ homs) = IsCombination n h.fo_mutants × AllCombined n homs

  AllCombined-append :
      (n : ℕ) (homs : List (Homutant F)) (h : Homutant F)
      → AllCombined n homs
      → IsCombination n h.fo_mutants
      → AllCombined n (homs ++ (h ∷ []))
  AllCombined-append n [] h a c = (c, tt)
  AllCombined-append n (h' ∷ homs) h (c', a) c = (c', AllCombined-append n homs h a c)

  -- What an outcome has archived.
  abbrev pub archive_of : Outcome F → List (Homutant F)
  archive_of faulted = []
  archive_of (running s) = s.hom_list
  archive_of (ended s) = s.hom_list

  archive-AllCombined :
      (n : ℕ) (fitness : F.D) (tmp : Homutant F) (homs : List (Homutant F)) (size : ℕ)
      (kept : List (Homutant F) × ℕ)
      → archive F fitness tmp homs size ≡ some kept
      → AllCombined n homs
      → IsCombination n tmp.fo_mutants
      → AllCombined n kept.0
  unfolding archive
  archive-AllCombined n fitness tmp homs size kept e a c =
      elim (Option-cases (grown F (length homs) size)) [
        | inl over ↦ absurd (cc (rw (over, archive) at e))
        | inr (places, g) ↦ elim (Bool-cases (F.eqb fitness (minus_one F))) [
          | inl failed ↦
              subst (λ p. AllCombined n p.0) (some-injective _ _ (rw (g, failed, archive) at e)) a
          | inr found ↦ elim (Bool-cases (ltb (length homs) places)) [
            | inl room ↦
                subst (λ p. AllCombined n p.0)
                  (some-injective _ _ (rw (g, found, room, archive) at e))
                  (AllCombined-append n homs tmp a c)
            | inr full ↦ absurd (cc (rw (g, found, full, archive) at e))
          ]
        ]
      ]

  -- The optimum is a combination of old indices.
  abbrev Sound : ℕ → ℕ → ℕ → Option (Homutant F) → Type 0
  Sound n r i none = Unit {0}
  Sound n r i (some h) = IsCombination n h.fo_mutants × IsOld r i h.fo_mutants

  new_optimum-Sound :
      (n r i : ℕ) (fitness : F.D) (tmp : Homutant F) (optimum : Option (Homutant F))
      → Sound n r i optimum
      → Sound n r i (some tmp)
      → Sound n r i (new_optimum F fitness tmp optimum)
  unfolding new_optimum
  new_optimum-Sound n r i fitness tmp none h h' = elim (Bool-cases (F.eqb fitness (minus_one F))) [
    | inl e ↦ rw (e, new_optimum) tt
    | inr e ↦ rw (e, new_optimum) h'
  ]
  new_optimum-Sound n r i fitness tmp (some o) h h' =
      if_Sound (F.eqb fitness (minus_one F)) (some o) _ h (
        if_Sound
          (is_positive F fitness && (F.ltb fitness (one_double F) && F.ltb o.fitness fitness))
          (some tmp) (some o) h' h)
    where
      if_Sound :
          (b : Bool) (x y : Option (Homutant F))
          → Sound n r i x
          → Sound n r i y
          → Sound n r i (if b then x else y)
      if_Sound true x y h h' = h
      if_Sound false x y h h' = h'

  combined-IsCombination :
      (n r i : ℕ) (optimum : Option (Homutant F))
      → r < n
      → i < n
      → i ≢ r
      → leb (length (combined F r i optimum)) n ≡ true
      → Sound n r i optimum
      → IsCombination n (combined F r i optimum) × IsOld r (suc i) (combined F r i optimum)
  unfolding combined
  combined-IsCombination n r i none lr li d room h = (
    record {
      distinct = ((λ e. d (sym e), tt), (tt, tt));
      below = (lr, (li, tt));
      at_least_two = omega arith;
      at_most = at_most_of 2 n room;
    },
    (inl refl, (inr (omega arith), tt)),
  )
  combined-IsCombination n r i (some o) lr li d room (c, old) = (
    record {
      distinct =
          IsDistinct-append i o.fo_mutants (IsOld-IsAbsent r i o.fo_mutants d old) c.distinct;
      below = IsBelow-append n o.fo_mutants (i ∷ []) c.below (li, tt);
      at_least_two = omega (arith, c.at_least_two, length-append o.fo_mutants (i ∷ []));
      at_most = at_most_of _ n room;
    },
    IsOld-append r i o.fo_mutants old,
  )

  Sound-suc :
      (n r i : ℕ) (optimum : Option (Homutant F)) → Sound n r i optimum → Sound n r (suc i) optimum
  Sound-suc n r i none h = tt
  Sound-suc n r i (some o) (c, old) = (c, IsOld-suc r i o.fo_mutants old)

  module _ (H : Hashset) (foms : List (Mutant F)) (n : ℕ) (ob : ℕ → HomObservation) where
    fo_mutants-gen_hom_fitness :
        (o : HomObservation) (fos : List ℕ) (st st' : HomState F) (tmp : Homutant F) (fitness : F.D)
        → gen_hom_fitness F H foms o fos st ≡ some (st', tmp, fitness)
        → fos ≡ tmp.fo_mutants
    unfolding gen_hom_fitness
    fo_mutants-gen_hom_fitness o fos st st' tmp fitness e = elim (Option-cases o.hom_dir) [
      | inl closed ↦
          ap (λ p. p.1.fo_mutants) (some-injective _ _ (rw (closed, gen_hom_fitness) at e))
      | inr (dir, opened) ↦ elim (Option-cases (test_killed_set F H foms fos H.create)) [
        | inl stopped ↦ absurd (cc (rw (opened, stopped, gen_hom_fitness) at e))
        | inr (tests, done) ↦
            ap (λ p. p.1.fo_mutants) (some-injective _ _ (rw (opened, done, gen_hom_fitness) at e))
      ]
    ]

    try_hom-Sound :
        (r i : ℕ) (optimum optimum' : Option (Homutant F)) (s s' : Search F)
        → r < n
        → i < n
        → i ≢ r
        → try_hom F H foms n ob r i optimum s ≡ some (optimum', s')
        → Sound n r i optimum
        → AllCombined n s.hom_list
        → Sound n r (suc i) optimum' × AllCombined n s'.hom_list
    try_hom-Sound r i optimum optimum' s s' lr li d e h a =
        let t = tried F H foms n ob r i optimum optimum' s s' e in
        let same =
          fo_mutants-gen_hom_fitness (ob s.evaluations) (combined F r i optimum) s.state t.state
            t.tmp t.fitness t.fitted in
        let both =
          subst (λ fos. IsCombination n fos × IsOld r (suc i) fos) same
            (combined-IsCombination n r i optimum lr li d t.room h) in
        (
          subst (Sound n r (suc i)) t.found (
              new_optimum-Sound n r (suc i) t.fitness t.tmp optimum (Sound-suc n r i optimum h)
                both),
          archive-AllCombined n t.fitness t.tmp s.hom_list s.hom_list_size _ t.kept a both.0,
        )

    combine-AllCombined :
        (r i m : ℕ) (optimum : Option (Homutant F)) (s s' : Search F)
        → r < n
        → i + m ≤ n
        → combine F H foms n ob r (indices F i m) optimum s ≡ some s'
        → Sound n r i optimum
        → AllCombined n s.hom_list
        → AllCombined n s'.hom_list
    unfolding combine indices
    combine-AllCombined r i zero optimum s s' lr b e h a =
        subst (λ t. AllCombined n t.hom_list) (some-injective _ _ e) a
    combine-AllCombined r i (suc m) optimum s s' lr b e h a = elim (Bool-cases (i == r)) [
      | inl same ↦
          combine-AllCombined r (suc i) m optimum s s' lr (omega arith) (rw (same, combine) at e)
            (Sound-suc n r i optimum h) a
      | inr other ↦ elim (Option-cases (try_hom F H foms n ob r i optimum s)) [
        | inl stopped ↦ absurd (cc (rw (other, stopped, combine) at e))
        | inr ((optimum', t), done) ↦
            let (h', a') =
              try_hom-Sound r i optimum optimum' s t lr (omega arith) (differs i r other) done h
                a in
            combine-AllCombined r (suc i) m optimum' t s' lr (omega arith)
              (rw (other, done, combine) at e) h' a'
      ]
    ]
      where
        differs : (i r : ℕ) → (i == r) ≡ false → i ≢ r
        differs i r e e' = ground arith

    search_homs-AllCombined :
        (rand : ℕ → ℕ) (fuel : ℕ) (s : Search F)
        → 0 < n
        → AllCombined n s.hom_list
        → AllCombined n (archive_of (search_homs F H foms n ob rand fuel s))
    unfolding search_homs search_round
    search_homs-AllCombined rand zero s l a = elim (Bool-cases (ltb s.no_new_optimum (n * 2))) [
      | inl more ↦ rw (more, search_homs) a
      | inr closed ↦ rw (closed, search_homs) a
    ]
    search_homs-AllCombined rand (suc k) s l a = elim (Bool-cases (ltb s.no_new_optimum (n * 2))) [
      | inr closed ↦ rw (closed, search_homs) a
      | inl more ↦ elim (Option-cases (search_round F H foms n ob rand s)) [
        | inl stopped ↦ rw (more, stopped, search_homs) tt
        | inr (t, done) ↦
            rw (more, done, search_homs)
              (search_homs-AllCombined rand k t l (
                combine-AllCombined (rand s.rounds % n) 0 n none
                  (record s { rounds = suc s.rounds }) t (mod_below (rand s.rounds) n l)
                  (omega arith) done tt a))
      ]
    ]

-- Whatever the random numbers are and after any number of rounds, each higher-order mutant in the
-- archive combines two or more of the mutants that there are to combine, all of them different:
-- a mutant is never combined with itself.
pub generate_subsuming_homs-AllCombined :
    (F : Double) (H : Hashset) (ob : ℕ → HomObservation) (rand : ℕ → ℕ) (fuel : ℕ) (r : FomResult F)
    (st : HomState F)
    → AllCombined F r.non_trivial_fom_count
        (archive_of F (generate_subsuming_homs F H ob rand fuel r st))
unfolding generate_subsuming_homs
generate_subsuming_homs-AllCombined F H ob rand fuel r st =
    let n = r.non_trivial_fom_count in
    elim (Bool-cases (not (r.mutant_kill_count == r.total_mutants) && not (n == 0))) [
      | inr skipped ↦ rw (skipped, generate_subsuming_homs) tt
      | inl started ↦ elim (Bool-cases (ltb n 31)) [
        | inr many ↦ rw (started, many, generate_subsuming_homs) tt
        | inl few ↦
            rw (started, few, generate_subsuming_homs)
              (search_homs-AllCombined F H r.non_trivial_foms n ob rand fuel (new_search F n st)
                (some_left _ n started) tt)
      ]
    ]
  where
    some_left : (b : Bool) (n : ℕ) → (b && not (n == 0)) ≡ true → 0 < n
    some_left b n h = ground arith
