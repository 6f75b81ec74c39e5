-- ===== src/Gstats/Operators.antt =====
-- gstats.c, lines 13 to 23 and 82 to 188: reading and writing the statistics. `none` is where the
-- program exits over a malformed document, or follows a null pointer.
pub mod Lookup
pub mod Update
use memory_mutation_testing.Base.{
  not, ◌&&◌, Option, none, some, [], ◌∷◌, if◌then◌else◌, ℤ, pos, ◌+ℤ◌, eqb_ℤ,
}
use memory_mutation_testing.Base.Text.{Bytes, atoi}
use memory_mutation_testing.Base.Decimal.{print_int}
use memory_mutation_testing.Gstats.Xml.{Xml, operator_query}
use Prim.Native.String.{String}
use text.Mathlib.Text.{◌==◌ as str_eq}

-- The global variables.
pub record Totals : Type 0 where
  pub total_mutants : ℤ
  pub mutant_kill_count : ℤ
  pub non_trivial_count : ℤ
  pub dumb_count : ℤ
  pub survived_count : ℤ
  pub killed_by_valgrind_count : ℤ
  pub total_tests_run : ℤ
  pub total_infection_count : ℤ
  pub total_valgrind_errors : ℤ

-- The chain of `strcmp` in `create_update_aggr_results`.
unfoldable pub set_total : String → ℤ → Totals → Totals
set_total key value t =
    if str_eq key "total_tests_run"
    then record t { total_tests_run = value }
    else if str_eq key "total_mutants"
    then record t { total_mutants = value }
    else if str_eq key "mutant_kill_count"
    then record t { mutant_kill_count = value }
    else if str_eq key "non_trivial_count"
    then record t { non_trivial_count = value }
    else if str_eq key "dumb_count"
    then record t { dumb_count = value }
    else if str_eq key "survived_count"
    then record t { survived_count = value }
    else if str_eq key "killed_by_valgrind_count"
    then record t { killed_by_valgrind_count = value }
    else if str_eq key "total_infection_count"
    then record t { total_infection_count = value }
    else if str_eq key "total_valgrind_errors"
    then record t { total_valgrind_errors = value }
    else t

abbrev pub int_of_prop : Option Bytes → ℤ
int_of_prop none = pos 0
int_of_prop (some val) = atoi val

module _ (X : Xml) where
  -- The document and the global variables.
  pub record Gstats : Type 0 where
    pub doc : X.Doc
    pub totals : Totals

  -- `some none` is the null pointer. A query that is no XPath and one that finds nothing give it.
  unfoldable pub find_mutation_by_code : X.Doc → Bytes → Option (Option X.Node)
  find_mutation_by_code d mut_code = elim (X.query d (operator_query mut_code)) [
    | [] ↦ some none
    | n ∷ [] ↦ some (some n)
    | n ∷ m ∷ more ↦ none
  ]

  unfoldable pub get_gstat_value_mutation : X.Doc → Bytes → String → Option ℤ
  get_gstat_value_mutation d mut_code key = elim (find_mutation_by_code d mut_code) [
    | none ↦ none
    | some none ↦ some (pos 0)
    | some (some mutation) ↦ some (int_of_prop (X.get_prop d mutation key))
  ]

  unfoldable pub get_gstat_value_aggr_results : X.Doc → String → Option ℤ
  get_gstat_value_aggr_results d key = elim (X.aggregate_stats d) [
    | none ↦ none
    | some aggregate_node ↦ some (int_of_prop (X.get_prop d aggregate_node key))
  ]

  unfoldable pub create_update_aggr_results : String → ℤ → Gstats → Option Gstats
  create_update_aggr_results key value g = elim (X.aggregate_stats g.doc) [
    | none ↦ none
    | some aggregate_node ↦ some (record {
      doc = X.set_prop g.doc aggregate_node key (print_int value);
      totals = set_total key value g.totals;
    })
  ]

  -- The document after `xmlSetProp`, on a new element where there was none.
  unfoldable pub set_value : Option X.Node → Bytes → String → ℤ → X.Doc → X.Doc
  set_value none mut_code key value d =
      let made = X.new_text_child d mut_code in X.set_prop made.0 made.1 key (print_int value)
  set_value (some mutation) mut_code key value d = X.set_prop d mutation key (print_int value)

  -- The end of `create_update_gstat_mutation`.
  unfoldable pub update_aggregate : String → ℤ → Gstats → Option Gstats
  update_aggregate key value g =
      let total = g.totals.total_infection_count +ℤ pos 1 in
      if str_eq key "infection_count" && not (eqb_ℤ value (pos 0))
      then create_update_aggr_results "total_infection_count" total
          (record g { totals = record g.totals { total_infection_count = total } })
      else some g

  unfoldable pub create_update_gstat_mutation : Bytes → String → ℤ → Gstats → Option Gstats
  create_update_gstat_mutation mut_code key value g = elim (find_mutation_by_code g.doc mut_code) [
    | none ↦ none
    | some mutation ↦
        update_aggregate key value (record g { doc = set_value mutation mut_code key value g.doc })
  ]
