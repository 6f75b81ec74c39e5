-- ===== src/Gstats/Operators/Update.antt =====
-- `create_update_gstat_mutation` keeps the document well formed and changes one value.
use memory_mutation_testing.Base.{
  ◌≡◌, true, refl, ap, ◌∙◌, not, ◌&&◌, Option, none, some, if◌then◌else◌, inl, inr, Bool-cases, ℤ,
  pos, ◌+ℤ◌, eqb_ℤ,
}
use memory_mutation_testing.Base.Text.{Bytes, bytes_eq}
use memory_mutation_testing.Base.Decimal.{print_int}
use memory_mutation_testing.Gstats.Xml.{Xml, IsXml, operator_query, is_plain}
use memory_mutation_testing.Gstats.Operators.{
  Gstats, set_total, find_mutation_by_code, get_gstat_value_mutation, create_update_aggr_results,
  update_aggregate, set_value, create_update_gstat_mutation,
}
use memory_mutation_testing.Gstats.Operators.Lookup.{
  IsWellFormed, at_most_one, get-set_prop, get-set_other, found_new, get-new_text_child,
  set_prop-IsWellFormed, new_text_child-IsWellFormed,
}
use Prim.Native.String.{String}
use text.Mathlib.Text.{◌==◌ as str_eq}

module _ (X : Xml) (law : IsXml X) where
  -- A document in which one value was written.
  pub record IsWritten (c : Bytes) (k : String) (v : ℤ) (d d' : X.Doc) : Type 0 where
    pub well_formed : IsWellFormed X law d'
    pub read :
        (c' : Bytes) (k' : String)
        → is_plain c' ≡ true
        → get_gstat_value_mutation X d' c' k'
          ≡ (if bytes_eq c c' && str_eq k k' then some v else get_gstat_value_mutation X d c' k')

  set_value-IsWritten :
      (c : Bytes) (k : String) (v : ℤ) (d : X.Doc)
      → is_plain c ≡ true
      → IsWellFormed X law d
      → (m : Option X.Node) × (find_mutation_by_code X d c ≡ some m)
        × IsWritten c k v d (set_value X m c k v d)
  unfolding find_mutation_by_code set_value
  set_value-IsWritten c k v d p w =
      elim (at_most_one X law (X.query d (operator_query c)) (w.single c p)) [
        | inl e ↦
            let made = X.new_text_child d c in
            let w' = new_text_child-IsWellFormed X law d c w e in
            (
              none,
              rw (e, find_mutation_by_code) refl,
              record {
                well_formed = set_prop-IsWellFormed X law made.0 made.1 k (print_int v) w';
                read = λ c' k' p'.
                    get-set_prop X law made.0 made.1 c c' k k' v p p' w' (found_new X law d c p e)
                    ∙ ap (λ r. if bytes_eq c c' && str_eq k k' then some v else r)
                        (get-new_text_child X law d c c' k' p p' w e);
              },
            )
        | inr (n, e) ↦ (
          some n,
          rw (e, find_mutation_by_code) refl,
          record {
            well_formed = set_prop-IsWellFormed X law d n k (print_int v) w;
            read = λ c' k' p'. get-set_prop X law d n c c' k k' v p p' w e;
          },
        )
      ]

  create_update_aggr_results-IsWritten :
      (c : Bytes) (k key : String) (v total : ℤ) (d : X.Doc) (g : Gstats X)
      → IsWritten c k v d g.doc
      → (g' : Gstats X) × (create_update_aggr_results X key total g ≡ some g')
        × IsWritten c k v d g'.doc
  unfolding create_update_aggr_results
  create_update_aggr_results-IsWritten c k key v total d g h =
      let n = h.well_formed.aggregated.0 in
      let e = h.well_formed.aggregated.1 in
      (
        record {
          doc = X.set_prop g.doc n key (print_int total);
          totals = set_total key total g.totals;
        },
        rw (e, create_update_aggr_results) refl,
        record {
          well_formed = set_prop-IsWellFormed X law g.doc n key (print_int total) h.well_formed;
          read = λ c' k' p'.
              get-set_other X law g.doc n c' key k' (print_int total) p' h.well_formed
                (law.code-aggregate g.doc n e)
              ∙ h.read c' k' p';
        },
      )

  update_aggregate-IsWritten :
      (c : Bytes) (k key : String) (v value : ℤ) (d : X.Doc) (g : Gstats X)
      → IsWritten c k v d g.doc
      → (g' : Gstats X) × (update_aggregate X key value g ≡ some g') × IsWritten c k v d g'.doc
  unfolding update_aggregate
  update_aggregate-IsWritten c k key v value d g h =
      elim (Bool-cases (str_eq key "infection_count" && not (eqb_ℤ value (pos 0)))) [
        | inl e ↦ rw e (
            create_update_aggr_results-IsWritten c k "total_infection_count" v _ d
              (record g {
                totals = record g.totals {
                  total_infection_count = g.totals.total_infection_count +ℤ pos 1;
                };
              })
              h)
        | inr e ↦ rw e (g, refl, h)
      ]

  pub created :
      (c : Bytes) (k : String) (v : ℤ) (g : Gstats X)
      → is_plain c ≡ true
      → IsWellFormed X law g.doc
      → (g' : Gstats X) × (create_update_gstat_mutation X c k v g ≡ some g')
        × IsWritten c k v g.doc g'.doc
  unfolding create_update_gstat_mutation
  created c k v g p w =
      let (m, e, h) = set_value-IsWritten c k v g.doc p w in
      rw (e, create_update_gstat_mutation)
        (update_aggregate-IsWritten c k k v v g.doc (record g { doc = set_value X m c k v g.doc })
          h)

  -- On a well-formed document, with the laws of libxml2, and for operators whose codes have no
  -- apostrophe, the update of a value of an operator succeeds and leaves a well-formed document;
  -- there the value reads as it was written, and every value with another such operator or key reads
  -- as before.
  pub create_update_gstat_mutation_lem :
      (c c' : Bytes) (k k' : String) (v : ℤ) (g : Gstats X)
      → is_plain c ≡ true
      → is_plain c' ≡ true
      → IsWellFormed X law g.doc
      → (g' : Gstats X) × (create_update_gstat_mutation X c k v g ≡ some g')
        × IsWellFormed X law g'.doc
        × (get_gstat_value_mutation X g'.doc c' k' ≡ (
            if bytes_eq c c' && str_eq k k'
            then some v
            else get_gstat_value_mutation X g.doc c' k'))
  create_update_gstat_mutation_lem c c' k k' v g p p' w =
      let (g', e, h) = created c k v g p w in (g', e, h.well_formed, h.read c' k' p')
