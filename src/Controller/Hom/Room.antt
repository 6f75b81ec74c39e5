-- ===== src/Controller/Hom/Room.antt =====
-- The search for higher-order mutants stays in its arrays.
use mathlib.Core.Path.{subst}
use memory_mutation_testing.Base.{
  ℕ, zero, suc, ◌+◌, ◌*◌, ◌%◌, ◌≤◌, ◌<◌, ◌≡◌, ◌≢◌, ◌⊎◌, refl, sym, ap, arith, ◌==◌, Bool, true,
  false, ◌&&◌, Option, none, some, List, [], ◌∷◌, ◌++◌, ltb, leb, length, length-append, ℤ,
  pos_part, Bool-cases, Option-cases, inl, inr, if◌then◌else◌,
}
use memory_mutation_testing.Base.Double.{Double, is_positive, one_double}
use memory_mutation_testing.Controller.Mutants.{Mutant}
use memory_mutation_testing.Controller.Hom.{
  Hashset, HomObservation, Homutant, HomState, minus_one, kills_of, add_tests, test_killed_set,
  gen_hom_fitness,
}
use memory_mutation_testing.Controller.Hom.Search.{
  Search, faulted, one_shifted, grown, archive, combined, new_optimum, indices, try_hom, combine,
  search_round, search_homs,
}
use memory_mutation_testing.Controller.Hom.Rounds.{others}
use native.Mathlib.Omega.{mod_fact}

succ_times : (k n : ℕ) → suc k * n ≡ n + k * n
succ_times k n = grind arith

leb-true : (a b : ℕ) → a ≤ b → leb a b ≡ true
leb-true a b h = ground arith

pub mod_below : (a n : ℕ) → 0 < n → a % n < n
mod_below a zero h = omega arith
mod_below a (suc k) h = mod_fact a k

abbrev pub IsBelow : ℕ → List ℕ → Type 0
IsBelow n [] = Unit {0}
IsBelow n (i ∷ rest) = (i < n) × IsBelow n rest

pub IsBelow-append : (n : ℕ) (xs ys : List ℕ) → IsBelow n xs → IsBelow n ys → IsBelow n (xs ++ ys)
IsBelow-append n [] ys h h' = h'
IsBelow-append n (i ∷ xs) ys (l, h) h' = (l, IsBelow-append n xs ys h h')

others_skip : (r i k m : ℕ) → k ≤ m → (if i == r then k else suc k) ≤ suc m
others_skip r i k m h = ground arith

others_here : (r i k m : ℕ) → i ≡ r → k ≤ m → suc (if i == r then k else suc k) ≤ suc m
others_here r i k m e h = ground arith

others_on : (r i k m : ℕ) → suc k ≤ m → suc (if i == r then k else suc k) ≤ suc m
others_on r i k m h = ground arith

-- 2^30: so many mutants can be archived before the number of places overflows.
abbrev pub archive_limit : ℕ
archive_limit = 1073741824

grown_lem :
    (F : Double) (m size : ℕ)
    → m ≤ size
    → 0 < size
    → m < archive_limit
    → (places : ℕ) × ((grown F m size ≡ some places)
        × ((m < places) × ((ltb m places ≡ true) × (0 < places))))
unfolding grown
grown_lem F m size h l b = elim (Bool-cases (m == size)) [
  | inr e ↦ rw (e, grown) (size, (refl, (ground arith, (ground arith, l))))
  | inl e ↦
      rw (e, in_int m size (ground arith) b, grown)
        (size * 2, (refl, (ground arith, (ground arith, omega arith))))
]
  where
    in_int : (a c : ℕ) → a ≡ c → a < archive_limit → ltb (c * 2) 2147483648 ≡ true
    in_int a c e l = ground arith

pub one_shifted-positive : (F : Double) (n : ℕ) → 0 < one_shifted F n
one_shifted-positive F zero = omega arith
one_shifted-positive F (suc n) = omega (arith, one_shifted-positive F n)

module _ (F : Double) where
  -- The archive is not larger than its array, which is not empty, and `k` more mutants can be
  -- archived below the limit.
  abbrev pub HasPlace : ℕ → List (Homutant F) → ℕ → Type 0
  HasPlace k homs size = (length homs ≤ size) × ((0 < size) × (length homs + k ≤ archive_limit))

  pub empty-HasPlace : (k n : ℕ) → k ≤ archive_limit → HasPlace k [] (one_shifted F n)
  empty-HasPlace k n b = (omega arith, (one_shifted-positive F n, omega arith))

  archive-HasPlace :
      (fitness : F.D) (tmp : Homutant F) (homs : List (Homutant F)) (size k : ℕ)
      → HasPlace (suc k) homs size
      → (homs' : List (Homutant F)) × (size' : ℕ) × ((archive F fitness tmp homs size
            ≡ some (homs', size'))
          × HasPlace k homs' size')
  unfolding archive
  archive-HasPlace fitness tmp homs size k (h, (l, b)) =
      let (places, (g, (m, (t, z)))) = grown_lem F (length homs) size h l (omega arith) in
      elim (Bool-cases (F.eqb fitness (minus_one F))) [
        | inl e ↦ rw (g, e, archive) (_, _, (refl, (omega arith, (z, omega arith))))
        | inr e ↦
            rw (g, e, t, archive)
              (
                _,
                _,
                (
                  refl,
                  (
                    omega (arith, length-append homs (tmp ∷ [])),
                    (z, omega (arith, length-append homs (tmp ∷ []))),
                  ),
                ),
              )
      ]

  length-indices : (i n : ℕ) → length (indices F i n) ≡ n
  unfolding indices
  length-indices i zero = refl
  length-indices i (suc n) = ap suc (length-indices (suc i) n)

  pub indices-IsBelow : (n i m : ℕ) → i + m ≤ n → IsBelow n (indices F i m)
  unfolding indices
  indices-IsBelow n i zero h = tt
  indices-IsBelow n i (suc m) h = (omega arith, indices-IsBelow n (suc i) m (omega arith))

  others_at_most : (r i m : ℕ) → others r (indices F i m) ≤ m
  unfolding indices
  others_at_most r i zero = omega arith
  others_at_most r i (suc m) = others_skip r i _ m (others_at_most r (suc i) m)

  others_fewer : (r i m : ℕ) → i ≤ r → r < i + m → suc (others r (indices F i m)) ≤ m
  unfolding indices
  others_fewer r i zero h l = omega arith
  others_fewer r i (suc m) h l = elim (by_cases i r h) [
    | inl e ↦ others_here r i _ m e (others_at_most r (suc i) m)
    | inr k ↦ others_on r i _ m (others_fewer r (suc i) m k (omega arith))
  ]
    where
      by_cases : (a b : ℕ) → a ≤ b → (a ≡ b) ⊎ (a < b)
      by_cases a b h = ground arith

  module _ (H : Hashset) (foms : List (Mutant F)) (n : ℕ) (ob : ℕ → HomObservation)
      (known : (i : ℕ) → i < n → (k : ℤ) × (kills_of F foms i ≡ some k)) where
    test_killed_set-total :
        (fos : List ℕ) (s : H.Set)
        → IsBelow n fos
        → (s' : H.Set) × (test_killed_set F H foms fos s ≡ some s')
    unfolding test_killed_set
    test_killed_set-total [] s h = (s, refl)
    test_killed_set-total (i ∷ rest) s (l, h) =
        let (k, e) = known i l in
        rw (e, test_killed_set) (test_killed_set-total rest (add_tests F H i (pos_part k) s) h)

    gen_hom_fitness-total :
        (o : HomObservation) (fos : List ℕ) (st : HomState F)
        → IsBelow n fos
        → (st' : HomState F) × (tmp : Homutant F) × (fitness : F.D) × ((gen_hom_fitness F H foms o
                fos st
              ≡ some (st', tmp, fitness))
            × (tmp.fo_mutants ≡ fos))
    unfolding gen_hom_fitness
    gen_hom_fitness-total o fos st h = elim (Option-cases o.hom_dir) [
      | inl e ↦ rw (e, gen_hom_fitness) (_, _, _, (refl, refl))
      | inr (dir, e) ↦
          let (s', e') = test_killed_set-total fos H.create h in
          rw (e, gen_hom_fitness) (rw e' (_, _, _, (refl, refl)))
    ]

    -- There is room for so many more mutants.
    abbrev Fits : Option (Homutant F) → ℕ → Type 0
    Fits none k = suc k ≤ n
    Fits (some h) k = IsBelow n h.fo_mutants × (length h.fo_mutants + k ≤ n)

    new_optimum-Fits :
        (fitness : F.D) (tmp : Homutant F) (optimum : Option (Homutant F)) (k : ℕ)
        → Fits optimum (suc k)
        → Fits (some tmp) k
        → Fits (new_optimum F fitness tmp optimum) k
    unfolding new_optimum
    new_optimum-Fits fitness tmp none k h h' = elim (Bool-cases (F.eqb fitness (minus_one F))) [
      | inl e ↦ rw (e, new_optimum) (omega arith)
      | inr e ↦ rw (e, new_optimum) h'
    ]
    new_optimum-Fits fitness tmp (some o) k (b, l) h' =
        if_Fits (F.eqb fitness (minus_one F)) (some o) _ k (b, omega arith)
          (if_Fits
            (is_positive F fitness && (F.ltb fitness (one_double F) && F.ltb o.fitness fitness))
            (some tmp) (some o) k h' (b, omega arith))
      where
        if_Fits :
            (b : Bool) (x y : Option (Homutant F)) (k : ℕ)
            → Fits x k
            → Fits y k
            → Fits (if b then x else y) k
        if_Fits true x y k h h' = h
        if_Fits false x y k h h' = h'

    combined-Fits :
        (r i : ℕ) (optimum : Option (Homutant F)) (k : ℕ)
        → r < n
        → i < n
        → Fits optimum (suc k)
        → IsBelow n (combined F r i optimum) × (length (combined F r i optimum) + k ≤ n)
    unfolding combined
    combined-Fits r i none k lr li h = ((lr, (li, tt)), omega arith)
    combined-Fits r i (some o) k lr li (b, l) = (
      IsBelow-append n o.fo_mutants (i ∷ []) b (li, tt),
      omega (arith, length-append o.fo_mutants (i ∷ [])),
    )

    try_hom-Fits :
        (r i : ℕ) (optimum : Option (Homutant F)) (s : Search F) (k b : ℕ)
        → r < n
        → i < n
        → Fits optimum (suc k)
        → HasPlace (suc b) s.hom_list s.hom_list_size
        → (optimum' : Option (Homutant F)) × (s' : Search F) × ((try_hom F H foms n ob r i optimum s
              ≡ some (optimum', s'))
            × (Fits optimum' k × HasPlace b s'.hom_list s'.hom_list_size))
    unfolding try_hom
    try_hom-Fits r i optimum s k b lr li h p =
        let (below, l) = combined-Fits r i optimum k lr li h in
        let (st', tmp, fitness, (e, c)) =
          gen_hom_fitness-total (ob s.evaluations) (combined F r i optimum) s.state below in
        let (homs, size, (kept, p')) =
          archive-HasPlace fitness tmp s.hom_list s.hom_list_size b p in
        rw (leb-true (length (combined F r i optimum)) n (omega arith), e, kept, try_hom)
          (
            _,
            _,
            (
              refl,
              (
                new_optimum-Fits fitness tmp optimum k h
                    (subst (λ fos. IsBelow n fos × (length fos + k ≤ n)) (sym c) (below, l)),
                p',
              ),
            ),
          )

    combine-total :
        (r : ℕ) (is : List ℕ) (optimum : Option (Homutant F)) (s : Search F) (k : ℕ)
        → r < n
        → IsBelow n is
        → Fits optimum (others r is)
        → HasPlace (length is + k) s.hom_list s.hom_list_size
        → (s' : Search F) × ((combine F H foms n ob r is optimum s ≡ some s')
            × HasPlace k s'.hom_list s'.hom_list_size)
    unfolding combine
    combine-total r [] optimum s k lr b h (p, (z, l)) = (s, (refl, (p, (z, omega arith))))
    combine-total r (i ∷ rest) optimum s k lr (li, b) h (q, (z, m)) = elim (Bool-cases (i == r)) [
      | inl same ↦
          rw (same, combine)
            (combine-total r rest optimum s k lr b (rw same at h) (q, (z, omega arith)))
      | inr other ↦
          let (optimum', s', (e, (h', p'))) =
            try_hom-Fits r i optimum s (others r rest) (length rest + k) lr li (rw other at h)
              (q, (z, omega arith)) in
          rw (other, e, combine) (combine-total r rest optimum' s' k lr b h' p')
    ]

    search_round-total :
        (rand : ℕ → ℕ) (s : Search F) (k : ℕ)
        → 0 < n
        → HasPlace (n + k) s.hom_list s.hom_list_size
        → (s' : Search F) × ((search_round F H foms n ob rand s ≡ some s')
            × HasPlace k s'.hom_list s'.hom_list_size)
    unfolding search_round
    search_round-total rand s k l p =
        let below = mod_below (rand s.rounds) n l in
        combine-total (rand s.rounds % n) (indices F 0 n) none _ k below
          (indices-IsBelow n 0 n (omega arith))
          (others_fewer (rand s.rounds % n) 0 n (omega arith) (omega arith))
          (subst (λ m. HasPlace (m + k) s.hom_list s.hom_list_size) (sym (length-indices 0 n)) p)

    -- While the evaluations are not too many for the archive.
    pub search_homs-safe :
        (rand : ℕ → ℕ) (fuel : ℕ) (s : Search F)
        → 0 < n
        → HasPlace (fuel * n) s.hom_list s.hom_list_size
        → search_homs F H foms n ob rand fuel s ≢ faulted
    unfolding search_homs
    search_homs-safe rand zero s l p e = elim (Bool-cases (ltb s.no_new_optimum (n * 2))) [
      | inl more ↦ cc (rw (more, search_homs) at e)
      | inr closed ↦ cc (rw (closed, search_homs) at e)
    ]
    search_homs-safe rand (suc k) s l p e = elim (Bool-cases (ltb s.no_new_optimum (n * 2))) [
      | inr closed ↦ cc (rw (closed, search_homs) at e)
      | inl more ↦
          let (t, (done, p')) =
            search_round-total rand s (k * n) l
              (subst (λ m. HasPlace m s.hom_list s.hom_list_size) (succ_times k n) p) in
          search_homs-safe rand k t l p' (rw (more, done, search_homs) at e)
    ]
