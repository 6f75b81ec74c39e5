-- ===== src/Examples/Store.antt =====
-- Two sessions on a file that is not there at first.
use mathlib.Core.Option.{some-injective}
use memory_mutation_testing.Base.{◌≡◌, refl, sym, Option, none, some, List, [], ◌∷◌, pos}
use memory_mutation_testing.Base.Text.{codes}
use memory_mutation_testing.Gstats.Operators.{
  Gstats, create_update_gstat_mutation, create_update_aggr_results, find_mutation_by_code,
  set_value, update_aggregate, set_total,
}
use memory_mutation_testing.Gstats.Store.{Storage, Store, null, sessions}
use memory_mutation_testing.Gstats.Store.Sessions.{contents, all_updates, sessions-contents}
use memory_mutation_testing.Examples.Documents.{Document, aggregate, documents, empty}

-- A text is a document, or not one.
abbrev storage : Storage documents
storage = record {
  Text = Option Document;
  empty = none;
  parse = λ t. t;
  save = λ d. some (some d);
  new_doc = empty.doc;
  aggregate_node = aggregate;
  parse-empty = refl;
  parse-save = λ d t e. sym (some-injective _ _ e);
  no_infections = refl;
}

abbrev no_file : Store documents storage
no_file = record { disk = none; document = null; totals = empty.totals }

abbrev updates : List (Gstats documents → Option (Gstats documents))
updates =
    create_update_gstat_mutation documents (codes "ABS") "killed_WD" (pos 7)
    ∷ create_update_aggr_results documents "total_tests_run" (pos 3)
    ∷ []

abbrev gstats_or : Option (Gstats documents) → Gstats documents
gstats_or none = empty
gstats_or (some g) = g

abbrev after : Gstats documents
after = gstats_or (all_updates documents storage updates (contents documents storage no_file))

updates_succeed :
    all_updates documents storage updates (contents documents storage no_file) ≡ some after
unfolding create_update_gstat_mutation create_update_aggr_results find_mutation_by_code set_value
    update_aggregate set_total
updates_succeed = refl

sessions-contents_example :
    (s' : Store documents storage) × ((sessions documents storage updates no_file ≡ some s')
      × (contents documents storage s' ≡ after))
sessions-contents_example =
    sessions-contents documents storage (λ d. (some d, refl)) updates no_file after updates_succeed
