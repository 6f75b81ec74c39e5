-- ===== src/Examples/Documents.antt =====
-- XML documents as functions: how many elements there are for a text, and their properties.
use mathlib.Core.Path.{subst}
use memory_mutation_testing.Base.{
  negsuc, ℕ, zero, suc, ◌≡◌, refl, sym, ap, ◌∙◌, Bool, true, false, ◌&&◌, Option, none, some, List,
  [], ◌∷◌, ◌++◌, arith, length, length-append, take, drop, ◌-◌, if◌then◌else◌, ◌==◌, inl, inr,
  Bool-cases, pos,
}
use memory_mutation_testing.Base.Text.{Bytes, codes, bytes_eq, bytes_eq_self, bytes_eq→eq}
use memory_mutation_testing.Gstats.Xml.{Xml, IsXml, operator_query, is_plain}
use memory_mutation_testing.Base.Decimal.{print_int}
use memory_mutation_testing.Gstats.Derived.{generate_derived_stats}
use memory_mutation_testing.Gstats.Table.{IsRaw}
use memory_mutation_testing.Gstats.Derived.Raw.{get_prop-generate_derived_stats}
use memory_mutation_testing.Examples.Fractions.{fractions}
use memory_mutation_testing.Gstats.Operators.{
  Gstats, get_gstat_value_mutation, create_update_gstat_mutation,
}
use memory_mutation_testing.Gstats.Operators.Lookup.{IsWellFormed}
use memory_mutation_testing.Gstats.Operators.Update.{create_update_gstat_mutation_lem}
use Prim.Native.String.{String}
use text.Mathlib.Text.{◌==◌ as str_eq}

pub data Place : Type 0 where
  aggregate : Place
  operator : Bytes → ℕ → Place

pub record Document : Type 0 where
  count : Bytes → ℕ
  listed : List Place
  props : Place → String → Option Bytes

unfoldable pub same_place : Place → Place → Bool
unfolding bytes_eq
same_place aggregate aggregate = true
same_place aggregate (operator c i) = false
same_place (operator c i) aggregate = false
same_place (operator c i) (operator c' i') = bytes_eq c c' && (i == i')

abbrev pub first_places : Bytes → ℕ → List Place
first_places c zero = []
first_places c (suc n) = first_places c n ++ (operator c n ∷ [])

abbrev pub text_of : Place → Option Bytes
text_of aggregate = none
text_of (operator c i) = some c

-- What stands between the apostrophes of the query for a code.
abbrev pub text_in : Bytes → Bytes
text_in q = take (length q - 30) (drop 28 q)

take-append : (c s : Bytes) (n : ℕ) → n ≡ length c → take n (c ++ s) ≡ c
take-append [] s zero e = refl
take-append [] s (suc n) e = absurd (omega arith)
take-append (x ∷ c) s zero e = absurd (omega arith)
take-append (x ∷ c) s (suc n) e = ap (λ r. x ∷ r) (take-append c s n (omega arith))

text_in-operator_query : (c : Bytes) → text_in (operator_query c) ≡ c
unfolding operator_query
text_in-operator_query c =
    take-append c (codes "']") _ (omega (arith, length-append c (codes "']")))

abbrev pub documents : Xml
documents = record {
  Doc = Document;
  Node = Place;
  query = λ d q. first_places (text_in q) (d.count (text_in q));
  all_operators = λ d. d.listed;
  aggregate_stats = λ d. some aggregate;
  get_prop = λ d n k. d.props n k;
  set_prop = λ d n k v. record d {
    props = λ n' k'. if same_place n n' && str_eq k k' then some v else d.props n' k';
  };
  new_text_child = λ d c. (
    record {
      count = λ c'. if bytes_eq c c' then suc (d.count c') else d.count c';
      listed = d.listed ++ (operator c (d.count c) ∷ []);
      props = λ n' k. if same_place (operator c (d.count c)) n' then none else d.props n' k;
    },
    operator c (d.count c),
  );
  same = same_place;
  code_of = text_of;
}

same_place_self : (n : Place) → same_place n n ≡ true
unfolding same_place
same_place_self aggregate = refl
same_place_self (operator c i) = rw (bytes_eq_self c) (ground arith)

same_place→eq : (n n' : Place) → same_place n n' ≡ true → n ≡ n'
unfolding same_place
same_place→eq aggregate aggregate h = refl
same_place→eq aggregate (operator c i) h = cc
same_place→eq (operator c i) aggregate h = cc
same_place→eq (operator c i) (operator c' i') h = ground (arith, bytes_eq→eq c c')

only_place : (c : Bytes) (i : ℕ) (n : Place) → first_places c i ≡ n ∷ [] → text_of n ≡ some c
only_place c zero n e = cc
only_place c (suc zero) n e = cc
only_place c (suc (suc i)) n e = absurd (
    omega (
      arith,
      ap length e,
      length-append (first_places c i ++ (operator c i ∷ [])) (operator c (suc i) ∷ []),
      length-append (first_places c i) (operator c i ∷ []),
    ))

next_place :
    (d : Document) (c c' : Bytes)
    → first_places c' (if bytes_eq c c' then suc (d.count c') else d.count c') ≡ (
        if bytes_eq c c'
        then first_places c' (d.count c') ++ (operator c (d.count c) ∷ [])
        else first_places c' (d.count c'))
next_place d c c' = elim (Bool-cases (bytes_eq c c')) [
  | inl e ↦ rw e (
      ap (λ x. first_places c' (d.count c') ++ (operator x (d.count x) ∷ []))
        (sym (bytes_eq→eq c c' e)))
  | inr e ↦ rw e refl
]

documents-IsXml : IsXml documents
documents-IsXml = record {
  same_self = same_place_self;
  same→eq = same_place→eq;
  code-found = λ d c n p e.
      only_place c (d.count c) n
        (subst (λ x. first_places x (d.count x) ≡ n ∷ []) (text_in-operator_query c) e);
  code-aggregate = λ d n e. cc;
  code-new = λ d c. refl;
  found-set = λ d n k v c. refl;
  aggregate-set = λ d n k v. refl;
  get-set = λ d n k v n' k'. refl;
  found-new = λ d c c' p.
      subst
        (λ x. first_places x (if bytes_eq c x then suc (d.count x) else d.count x) ≡ (
          if bytes_eq c x
          then first_places x (d.count x) ++ (operator c (d.count c) ∷ [])
          else first_places x (d.count x)))
        (sym (text_in-operator_query c')) (next_place d c c')
      ∙ ap
          (λ x.
            if bytes_eq c x
            then first_places (text_in (operator_query c')) (d.count (text_in (operator_query c')))
              ++ (operator c (d.count c) ∷ [])
            else first_places (text_in (operator_query c')) (d.count (text_in (operator_query c'))))
          (text_in-operator_query c');
  aggregate-new = λ d c. refl;
  get-new = λ d c n k. refl;
}

abbrev pub empty : Gstats documents
empty = record {
  doc = record { count = λ c. 0; listed = []; props = λ n k. none };
  totals = record {
    total_mutants = pos 0;
    mutant_kill_count = pos 0;
    non_trivial_count = pos 0;
    dumb_count = pos 0;
    survived_count = pos 0;
    killed_by_valgrind_count = pos 0;
    total_tests_run = pos 0;
    total_infection_count = pos 0;
    total_valgrind_errors = pos 0;
  };
}

empty-IsWellFormed : IsWellFormed documents documents-IsXml empty.doc
empty-IsWellFormed = record { single = λ c p. omega arith; aggregated = (aggregate, refl) }

create_update_gstat_mutation_lem_example :
    (g' : Gstats documents) × (create_update_gstat_mutation documents
        (codes "ABS")
        "killed_WD"
        (pos 7)
        empty
      ≡ some g')
    × IsWellFormed documents documents-IsXml g'.doc
    × (get_gstat_value_mutation documents g'.doc (codes "ABS") "killed_WD" ≡ (
        if bytes_eq (codes "ABS") (codes "ABS") && str_eq "killed_WD" "killed_WD"
        then some (pos 7)
        else get_gstat_value_mutation documents empty.doc (codes "ABS") "killed_WD"))
unfolding is_plain
create_update_gstat_mutation_lem_example =
    create_update_gstat_mutation_lem documents documents-IsXml (codes "ABS") (codes "ABS")
      "killed_WD" "killed_WD" (pos 7) empty refl refl empty-IsWellFormed

abbrev abs : Place
abs = operator (codes "ABS") 0

-- One operator with two mutants, one of them killed.
abbrev counted : Document
counted = record {
  count = λ c. if bytes_eq c (codes "ABS") then 1 else 0;
  listed = abs ∷ [];
  props = λ n k.
      if str_eq k "generated_mutants"
      then some (codes "2")
      else if str_eq k "killed_by_tests"
      then some (codes "1")
      else none;
}

killed-IsRaw : IsRaw "killed_by_tests"
killed-IsRaw = record {
  damage = refl;
  fragilty = refl;
  average = refl;
  infectiveness = refl;
  valgrind = refl;
  cfd = refl;
}

abbrev one_minus : fractions.D → fractions.D
one_minus x =
    fractions.add (fractions.of_int (pos 1)) (fractions.mul (fractions.of_int (negsuc 0)) x)

abbrev print_double : fractions.D → Bytes
print_double x = print_int (fractions.truncate x)

get_prop-generate_derived_stats_example :
    documents.get_prop
      (generate_derived_stats documents fractions one_minus print_double counted)
      abs
      "killed_by_tests"
    ≡ documents.get_prop counted abs "killed_by_tests"
get_prop-generate_derived_stats_example =
    get_prop-generate_derived_stats documents documents-IsXml fractions one_minus print_double
      counted abs "killed_by_tests" killed-IsRaw
