-- ===== src/Gstats/Derived/Raw.antt =====
-- The derived statistics leave the counts that they are made from as they are.
use memory_mutation_testing.Base.{
  ◌≡◌, refl, ◌∙◌, Bool, true, false, not, ◌&&◌, List, [], ◌∷◌, ℤ, negsuc, eqb_ℤ, Bool-cases,
  Option-cases, inl, inr,
}
use memory_mutation_testing.Base.Text.{Bytes}
use memory_mutation_testing.Base.Double.{Double}
use memory_mutation_testing.Gstats.Table.{IsRaw}
use memory_mutation_testing.Gstats.Xml.{operator_query, Xml, IsXml}
use memory_mutation_testing.Gstats.Derived.{
  derive_ratio, derive_immunity, derive_operator, derive_operators, generate_derived_stats,
}
use Prim.Native.String.{String}
use text.Mathlib.Text.{◌==◌ as str_eq}

and_false : (a : Bool) → (a && false) ≡ false
and_false true = refl
and_false false = refl

module _ (X : Xml) (law : IsXml X) (F : Double) (one_minus : F.D → F.D)
    (print_double : F.D → Bytes) where
  get_prop-set_prop :
      (d : X.Doc) (n n' : X.Node) (out k : String) (v : Bytes)
      → str_eq out k ≡ false
      → X.get_prop (X.set_prop d n out v) n' k ≡ X.get_prop d n' k
  get_prop-set_prop d n n' out k v h =
      law.get-set d n out v n' k ∙ rw (h, and_false (X.same n n')) refl

  -- A document with the same elements, and the same values for the raw keys.
  pub record Keeps (d d' : X.Doc) : Type 0 where
    pub found : (c : Bytes) → X.query d' (operator_query c) ≡ X.query d (operator_query c)
    pub aggregated : X.aggregate_stats d' ≡ X.aggregate_stats d
    pub read : (n : X.Node) (k : String) → IsRaw k → X.get_prop d' n k ≡ X.get_prop d n k

  Keeps-refl : (d : X.Doc) → Keeps d d
  Keeps-refl d = record { found = λ c. refl; aggregated = refl; read = λ n k h. refl }

  Keeps-trans : {a b c : X.Doc} → Keeps a b → Keeps b c → Keeps a c
  Keeps-trans h h' = record {
    found = λ c. h'.found c ∙ h.found c;
    aggregated = h'.aggregated ∙ h.aggregated;
    read = λ n k raw. h'.read n k raw ∙ h.read n k raw;
  }

  -- No raw key is spelled like this one.
  abbrev IsDerived : String → Type 0
  IsDerived out = (k : String) → IsRaw k → str_eq out k ≡ false

  set_prop-Keeps :
      (d : X.Doc) (n : X.Node) (out : String) (v : Bytes)
      → IsDerived out
      → Keeps d (X.set_prop d n out v)
  set_prop-Keeps d n out v derived = record {
    found = λ c. law.found-set d n out v c;
    aggregated = law.aggregate-set d n out v;
    read = λ n' k raw. get_prop-set_prop d n n' out k v (derived k raw);
  }

  derive_ratio-Keeps :
      (raw out : String) (f : ℤ → ℤ → F.D) (gm : ℤ) (n : X.Node) (d : X.Doc)
      → IsDerived out
      → Keeps d (derive_ratio X F one_minus print_double raw out f gm n d)
  unfolding derive_ratio
  derive_ratio-Keeps raw out f gm n d derived = elim (Option-cases (X.get_prop d n raw)) [
    | inl e ↦ rw (e, derive_ratio) (Keeps-refl d)
    | inr (count, e) ↦ elim (Bool-cases (not (eqb_ℤ gm (negsuc 0)))) [
      | inl t ↦ rw (e, derive_ratio) (rw t (set_prop-Keeps d n out _ derived))
      | inr t ↦ rw (e, derive_ratio) (rw t (Keeps-refl d))
    ]
  ]

  derive_immunity-Keeps :
      (survived killed out : String) (n : X.Node) (d : X.Doc)
      → IsDerived out
      → Keeps d (derive_immunity X F one_minus print_double survived killed out n d)
  unfolding derive_immunity
  derive_immunity-Keeps survived killed out n d derived = set_prop-Keeps d n out _ derived

  derive_operator-Keeps :
      (n : X.Node) (d : X.Doc) → Keeps d (derive_operator X F one_minus print_double n d)
  unfolding derive_operator
  derive_operator-Keeps n d =
      Keeps-trans
        (Keeps-trans
          (Keeps-trans
            (Keeps-trans
              (Keeps-trans (derive_ratio-Keeps _ "damage" _ _ n d (λ k h. h.damage))
                (derive_ratio-Keeps _ "fragilty" _ _ n _ (λ k h. h.fragilty)))
              (derive_ratio-Keeps _ "average_CFD" _ _ n _ (λ k h. h.average)))
            (derive_ratio-Keeps _ "infectiveness" _ _ n _ (λ k h. h.infectiveness)))
          (derive_immunity-Keeps _ _ "valgrind_immunity" n _ (λ k h. h.valgrind)))
        (derive_immunity-Keeps _ _ "CFD_immunity" n _ (λ k h. h.cfd))

  derive_operators-Keeps :
      (ns : List X.Node) (d : X.Doc) → Keeps d (derive_operators X F one_minus print_double ns d)
  unfolding derive_operators
  derive_operators-Keeps [] d = Keeps-refl d
  derive_operators-Keeps (n ∷ ns) d =
      Keeps-trans (derive_operator-Keeps n d)
        (derive_operators-Keeps ns (derive_operator X F one_minus print_double n d))

  pub generate_derived_stats-Keeps :
      (d : X.Doc) → Keeps d (generate_derived_stats X F one_minus print_double d)
  unfolding generate_derived_stats
  generate_derived_stats-Keeps d = derive_operators-Keeps (X.all_operators d) d

  -- With the laws of libxml2, every property of every element with a key other than the six derived
  -- ones is after the derivation what it was before.
  pub get_prop-generate_derived_stats :
      (d : X.Doc) (n : X.Node) (k : String)
      → IsRaw k
      → X.get_prop (generate_derived_stats X F one_minus print_double d) n k ≡ X.get_prop d n k
  get_prop-generate_derived_stats d n k raw = (generate_derived_stats-Keeps d).read n k raw
