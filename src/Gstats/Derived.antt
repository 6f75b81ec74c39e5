-- ===== src/Gstats/Derived.antt =====
-- gstats.c, lines 190 to 288: `generate_derived_stats`. The arithmetic of `double` and its "%G" are
-- parameters.
pub mod Raw
use memory_mutation_testing.Base.{
  not, Option, none, some, List, [], ◌∷◌, if◌then◌else◌, ℤ, pos, negsuc, ◌+ℤ◌, eqb_ℤ,
}
use memory_mutation_testing.Base.Text.{Bytes, codes, atoi}
use memory_mutation_testing.Base.Double.{Double}
use memory_mutation_testing.Gstats.Xml.{Xml}
use Prim.Native.String.{String}

module _ (X : Xml) (F : Double) (one_minus : F.D → F.D) (print_double : F.D → Bytes) where
  -- `gm==NULL?-1:atoi(gm)`
  abbrev pub count_or_minus_one : Option Bytes → ℤ
  count_or_minus_one none = negsuc 0
  count_or_minus_one (some gm) = atoi gm

  abbrev int_ratio : ℤ → ℤ → F.D
  int_ratio a b = F.div (F.of_int a) (F.of_int b)

  -- `(double)(a/100.0)/(double)b`
  abbrev percent_ratio : ℤ → ℤ → F.D
  percent_ratio a b = F.div (F.div (F.of_int a) (F.of_int (pos 100))) (F.of_int b)

  -- One of the four blocks that divide by the number of generated mutants.
  unfoldable pub derive_ratio : String → String → (ℤ → ℤ → F.D) → ℤ → X.Node → X.Doc → X.Doc
  derive_ratio raw out f generated_mutants n d = elim (X.get_prop d n raw) [
    | none ↦ d
    | some count ↦
        if not (eqb_ℤ generated_mutants (negsuc 0))
        then X.set_prop d n out (print_double (f (atoi count) generated_mutants))
        else d
  ]

  -- The value of an immunity, from the survivors and the killed.
  unfoldable pub immunity : Option Bytes → Option Bytes → Bytes
  immunity none none = codes "0.0"
  immunity none (some k) = codes "0.0"
  immunity (some s) none = codes "1.0"
  immunity (some s) (some k) = print_double (int_ratio (atoi s) (atoi s +ℤ atoi k))

  unfoldable pub derive_immunity : String → String → String → X.Node → X.Doc → X.Doc
  derive_immunity survived killed out n d =
      X.set_prop d n out (immunity (X.get_prop d n survived) (X.get_prop d n killed))

  -- The body of the loop.
  unfoldable pub derive_operator : X.Node → X.Doc → X.Doc
  derive_operator n d =
      let gm = count_or_minus_one (X.get_prop d n "generated_mutants") in
      let d1 = derive_ratio "damage_raw" "damage" percent_ratio gm n d in
      let d2 = derive_ratio "killed_by_tests" "fragilty" int_ratio gm n d1 in
      let d3 = derive_ratio "cfg_deviation_raw" "average_CFD" percent_ratio gm n d2 in
      let d4 =
        derive_ratio "failed_injection" "infectiveness" (λ a b. one_minus (int_ratio a b)) gm n
          d3 in
      let d5 = derive_immunity "survived_WD_VE" "killed_WD_VE" "valgrind_immunity" n d4 in
      derive_immunity "survived_WD_CFD" "killed_WD_CFD" "CFD_immunity" n d5

  -- The loop over the nodes that the query gives.
  unfoldable pub derive_operators : List X.Node → X.Doc → X.Doc
  derive_operators [] d = d
  derive_operators (n ∷ ns) d = derive_operators ns (derive_operator n d)

  unfoldable pub generate_derived_stats : X.Doc → X.Doc
  unfolding derive_operators
  generate_derived_stats d = derive_operators (X.all_operators d) d
