-- ===== src/Gstats/Store/Sessions.antt =====
-- The statistics on disk, used in sessions, are a document that is passed on.
use mathlib.Core.Option.{some-injective}
use memory_mutation_testing.Base.{
  ◌≡◌, refl, ap, ◌∙◌, Option, none, some, List, [], ◌∷◌, Option-cases, inl, inr,
}
use memory_mutation_testing.Gstats.Xml.{Xml}
use memory_mutation_testing.Gstats.Operators.{Gstats}
use memory_mutation_testing.Gstats.Store.{
  Storage, held, freed, Store, opened, open_gstats, flush_gstats, close_gstats, on_document,
  and_then, session, sessions,
}

module _ (X : Xml) (S : Storage X) where
  abbrev doc_or_new : Option X.Doc → X.Doc
  doc_or_new none = S.new_doc
  doc_or_new (some d) = d

  -- The document that a session reads, with the global variables.
  abbrev pub contents : Store X S → Gstats X
  contents s = record { doc = doc_or_new (S.parse (opened X S s.disk)); totals = s.totals }

  -- The updates of all sessions, one after the other.
  abbrev pub all_updates : List (Gstats X → Option (Gstats X)) → Gstats X → Option (Gstats X)
  all_updates [] g = some g
  all_updates (f ∷ fs) g = elim (f g) [ none ↦ none | some g' ↦ all_updates fs g' ]

  module _ (saves : (d : X.Doc) → (t : S.Text) × (S.save d ≡ some t)) where
    -- A document is open, with the contents that the file has.
    open-contents :
        (s : Store X S)
        → (x : Option S.Text) × (open_gstats X S s
            ≡ some (record { disk = x; document = held (contents s).doc; totals = s.totals }))
    unfolding open_gstats flush_gstats
    open-contents s = elim (Option-cases (S.parse (opened X S s.disk))) [
      | inr (d, e) ↦ rw (e, open_gstats) (_, refl)
      | inl e ↦
          let (t, q) = saves S.new_doc in
          rw (e, q, S.no_infections, open_gstats, flush_gstats) (some t, refl)
    ]

    on_document-held :
        (f : Gstats X → Option (Gstats X)) (x : Option S.Text) (h g : Gstats X)
        → f h ≡ some g
        → on_document X S f (record { disk = x; document = held h.doc; totals = h.totals })
          ≡ some (record { disk = x; document = held g.doc; totals = g.totals })
    unfolding on_document
    on_document-held f x h g e = rw (e, on_document) refl

    flush-held :
        (x : Option S.Text) (g : Gstats X) (t : S.Text)
        → S.save g.doc ≡ some t
        → flush_gstats X S (record { disk = x; document = held g.doc; totals = g.totals })
          ≡ some (record { disk = some t; document = held g.doc; totals = g.totals })
    unfolding flush_gstats
    flush-held x g t q = rw (q, flush_gstats) refl

    -- The updates of an open document, up to the end of the session.
    updated :
        (f : Gstats X → Option (Gstats X)) (x : Option S.Text) (h g : Gstats X)
        → f h ≡ some g
        → (s' : Store X S) × ((and_then X S
                (on_document X S f (record { disk = x; document = held h.doc; totals = h.totals }))
                (λ b. and_then X S (flush_gstats X S b) (close_gstats X S))
              ≡ some s')
            × (contents s' ≡ g))
    unfolding close_gstats
    updated f x h g e =
        let (t, q) = saves g.doc in
        let p : S.parse t ≡ some g.doc = S.parse-save g.doc t q in
        (
          record { disk = some t; document = freed; totals = g.totals },
          (rw (on_document-held f x h g e, flush-held x g t q) refl, rw p refl),
        )

    session-contents :
        (f : Gstats X → Option (Gstats X)) (s : Store X S) (g : Gstats X)
        → f (contents s) ≡ some g
        → (s' : Store X S) × ((session X S f s ≡ some s') × (contents s' ≡ g))
    unfolding session
    session-contents f s g e =
        let (x, q) = open-contents s in rw (q, session) (updated f x (contents s) g e)

    -- Where documents can be saved, any sessions on the file leave what their updates make of its
    -- contents, when no update exits: nothing is lost between one session and the next, a file that is
    -- missing or cannot be parsed counts as a new document, and no document is used that is not open.
    pub sessions-contents :
        (fs : List (Gstats X → Option (Gstats X))) (s : Store X S) (g : Gstats X)
        → all_updates fs (contents s) ≡ some g
        → (s' : Store X S) × ((sessions X S fs s ≡ some s') × (contents s' ≡ g))
    unfolding sessions
    sessions-contents [] s g e = (s, (refl, some-injective _ _ e))
    sessions-contents (f ∷ fs) s g e = elim (Option-cases (f (contents s))) [
      | inl stopped ↦ absurd (cc (rw stopped at e))
      | inr (h, done) ↦
          let (t, (q, c)) = session-contents f s h done in
          let (s', (q', c')) = sessions-contents fs t g (ap (all_updates fs) c ∙ (rw done at e)) in
          (s', (rw (q, sessions) q', c'))
    ]
