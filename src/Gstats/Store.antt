-- ===== src/Gstats/Store.antt =====
-- gstats.c, lines 25 to 67: the file gstats.xml, and the document in memory that it is read into.
-- libxml2 is an argument, with the contents of files that it reads and writes.
pub mod Sessions
use memory_mutation_testing.Base.{◌≡◌, Bool, Option, none, some, List, [], ◌∷◌, if◌then◌else◌}
use memory_mutation_testing.Base.Text.{Bytes, atoi}
use memory_mutation_testing.Gstats.Xml.{Xml}
use memory_mutation_testing.Gstats.Operators.{Totals, Gstats}

-- `xmlParseFile`, `xmlSaveFormatFileEnc`, and the document that is made where there is none.
pub record Storage (X : Xml) : Type 1 where
  pub Text : Type 0
  pub empty : Text
  pub parse : Text → Option X.Doc
  pub save : X.Doc → Option Text
  pub new_doc : X.Doc
  pub aggregate_node : X.Node
  pub parse-empty : parse empty ≡ none
  pub parse-save : (d : X.Doc) (t : Text) → save d ≡ some t → parse t ≡ some d
  pub no_infections : X.get_prop new_doc aggregate_node "total_infection_count" ≡ none

-- The pointer `doc`.
pub data DocPointer (X : Xml) : Type 0 where
  null : DocPointer X
  held : X.Doc → DocPointer X
  freed : DocPointer X

module _ (X : Xml) (S : Storage X) where
  pub record Store : Type 0 where
    -- `none` where there is no file.
    pub disk : Option S.Text
    pub document : DocPointer X
    pub totals : Totals

  -- `none` is the exit of the program, or the use of a document that is not there.
  unfoldable pub flush_gstats : Store → Option Store
  flush_gstats s = elim s.document [
    | null ↦ none
    | freed ↦ none
    | held d ↦ elim (S.save d) [ none ↦ none | some t ↦ some (record s { disk = some t }) ]
  ]

  -- The content that `fopen` with "ab+" leaves: a file that is missing is made, and is empty.
  abbrev pub opened : Option S.Text → S.Text
  opened none = S.empty
  opened (some t) = t

  -- The property of the element that was just made.
  abbrev pub read_infections : Option Bytes → Totals → Totals
  read_infections none t = t
  read_infections (some tic) t = record t { total_infection_count = atoi tic }

  unfoldable pub open_gstats : Store → Option Store
  open_gstats s = elim (S.parse (opened s.disk)) [
    | some d ↦ some (record s { disk = some (opened s.disk); document = held d })
    | none ↦ flush_gstats (record {
      disk = some (opened s.disk);
      document = held S.new_doc;
      totals =
          read_infections (X.get_prop S.new_doc S.aggregate_node "total_infection_count") s.totals;
    })
  ]

  -- The pointer is not set to NULL.
  unfoldable pub close_gstats : Store → Option Store
  close_gstats s = elim s.document [
    | null ↦ some s
    | held d ↦ some (record s { document = freed })
    | freed ↦ none
  ]

  -- `removed` says whether `remove` succeeds; the result is 0 or -1.
  unfoldable pub clear_gstats : Bool → Store → Option (Store × Bool)
  clear_gstats removed s = elim (close_gstats s) [
    | none ↦ none
    | some s' ↦ some (if removed then record s' { disk = none } else s', removed)
  ]

  -- Reads and updates of the document that is open.
  unfoldable pub on_document : (Gstats X → Option (Gstats X)) → Store → Option Store
  on_document f s = elim s.document [
    | null ↦ none
    | freed ↦ none
    | held d ↦ elim (f (record { doc = d; totals = s.totals })) [
      | none ↦ none
      | some g ↦ some (record s { document = held g.doc; totals = g.totals })
    ]
  ]

  abbrev pub and_then : Option Store → (Store → Option Store) → Option Store
  and_then none next = none
  and_then (some s) next = next s

  -- How controller.c uses the file, as at the end of `process_source_file`: it is opened, read and
  -- updated, flushed and closed.
  unfoldable pub session : (Gstats X → Option (Gstats X)) → Store → Option Store
  session f s =
      and_then (open_gstats s)
        (λ a. and_then (on_document f a) (λ b. and_then (flush_gstats b) close_gstats))

  -- One session after the other, as those of the mutants of a directory.
  unfoldable pub sessions : List (Gstats X → Option (Gstats X)) → Store → Option Store
  sessions [] s = some s
  sessions (f ∷ fs) s = and_then (session f s) (sessions fs)
