-- ===== src/Gstats/Operators/Lookup.antt =====
-- What is read after a write to the statistics.
use mathlib.Core.Option.{some-injective}
use mathlib.Core.Path.{subst}
use memory_mutation_testing.Base.{
  ◌≢◌, ◌≤◌, ◌≡◌, refl, sym, ap, ◌∙◌, true, false, ◌&&◌, none, some, List, [], ◌∷◌, arith, length,
  if◌then◌else◌, ◌⊎◌, inl, inr, Bool-cases, ℤ, pos,
}
use memory_mutation_testing.Base.Text.{Bytes, bytes_eq, bytes_eq_self, bytes_eq→eq, atoi}
use memory_mutation_testing.Base.Decimal.{print_int, atoi-print_int}
use memory_mutation_testing.Gstats.Xml.{Xml, IsXml, operator_query, is_plain}
use memory_mutation_testing.Gstats.Operators.{
  find_mutation_by_code, get_gstat_value_mutation, int_of_prop,
}
use Prim.Native.String.{String}
use text.Mathlib.Text.{◌==◌ as str_eq}

abbrev head_or {ℓ} : {A : Type ℓ} → A → List A → A
head_or d [] = d
head_or d (x ∷ xs) = x

nonempty {ℓ} : {A : Type ℓ} (x : A) (xs : List A) → x ∷ xs ≢ []
nonempty x xs e = cc

module _ (X : Xml) (law : IsXml X) where
  -- No operator with such a code has two elements, and the aggregate is there.
  pub record IsWellFormed (d : X.Doc) : Type 0 where
    pub single : (c : Bytes) → is_plain c ≡ true → length (X.query d (operator_query c)) ≤ 1
    pub aggregated : (n : X.Node) × (X.aggregate_stats d ≡ some n)

  pub at_most_one : (ns : List X.Node) → length ns ≤ 1 → (ns ≡ []) ⊎ ((n : X.Node) × (ns ≡ n ∷ []))
  at_most_one [] h = inl refl
  at_most_one (n ∷ []) h = inr (n, refl)
  at_most_one (n ∷ m ∷ ns) h = absurd (omega arith)

  pub get_missing :
      (d : X.Doc) (c : Bytes) (k : String)
      → X.query d (operator_query c) ≡ []
      → get_gstat_value_mutation X d c k ≡ some (pos 0)
  unfolding get_gstat_value_mutation find_mutation_by_code
  get_missing d c k e = rw (e, get_gstat_value_mutation, find_mutation_by_code) refl

  pub get_found :
      (d : X.Doc) (c : Bytes) (k : String) (n : X.Node)
      → X.query d (operator_query c) ≡ n ∷ []
      → get_gstat_value_mutation X d c k ≡ some (int_of_prop (X.get_prop d n k))
  unfolding get_gstat_value_mutation find_mutation_by_code
  get_found d c k n e = rw (e, get_gstat_value_mutation, find_mutation_by_code) refl

  same_false : (n n' : X.Node) → ¬ (X.code_of n ≡ X.code_of n') → X.same n n' ≡ false
  same_false n n' h = elim (Bool-cases (X.same n n')) [
    | inl e ↦ absurd (h (ap X.code_of (law.same→eq n n' e)))
    | inr e ↦ e
  ]

  same-found :
      (d : X.Doc) (c c' : Bytes) (n n' : X.Node)
      → is_plain c ≡ true
      → is_plain c' ≡ true
      → X.query d (operator_query c) ≡ n ∷ []
      → X.query d (operator_query c') ≡ n' ∷ []
      → X.same n n' ≡ bytes_eq c c'
  same-found d c c' n n' p p' e e' = elim (Bool-cases (bytes_eq c c')) [
    | inl h ↦
        ap (X.same n) (
          ap (head_or n)
            (sym e' ∙ ap (λ x. X.query d (operator_query x)) (sym (bytes_eq→eq c c' h)) ∙ e))
        ∙ law.same_self n
        ∙ sym h
    | inr h ↦
        same_false n n' (λ codes. cc (
          some-injective _ _
              (sym (law.code-found d c n p e) ∙ codes ∙ law.code-found d c' n' p' e'),
          bytes_eq_self c,
          h,
        ))
        ∙ sym h
  ]

  get-set_prop_missing :
      (d : X.Doc) (n : X.Node) (c' : Bytes) (k k' : String) (v : Bytes)
      → X.query d (operator_query c') ≡ []
      → get_gstat_value_mutation X (X.set_prop d n k v) c' k' ≡ get_gstat_value_mutation X d c' k'
  get-set_prop_missing d n c' k k' v e =
      get_missing (X.set_prop d n k v) c' k' (law.found-set d n k v c' ∙ e)
      ∙ sym (get_missing d c' k' e)

  get-set_prop_found :
      (d : X.Doc) (n n' : X.Node) (c' : Bytes) (k k' : String) (v : Bytes)
      → X.query d (operator_query c') ≡ n' ∷ []
      → get_gstat_value_mutation X (X.set_prop d n k v) c' k'
        ≡ (if X.same n n' && str_eq k k' then some (atoi v) else get_gstat_value_mutation X d c' k')
  get-set_prop_found d n n' c' k k' v e =
      get_found (X.set_prop d n k v) c' k' n' (law.found-set d n k v c' ∙ e)
      ∙ ap (λ p. some (int_of_prop p)) (law.get-set d n k v n' k')
      ∙ (elim (Bool-cases (X.same n n' && str_eq k k')) [
        | inl h ↦ rw h refl
        | inr h ↦ rw h (sym (get_found d c' k' n' e))
      ])

  -- A write to the element of an operator.
  pub get-set_prop :
      (d : X.Doc) (n : X.Node) (c c' : Bytes) (k k' : String) (v : ℤ)
      → is_plain c ≡ true
      → is_plain c' ≡ true
      → IsWellFormed d
      → X.query d (operator_query c) ≡ n ∷ []
      → get_gstat_value_mutation X (X.set_prop d n k (print_int v)) c' k'
        ≡ (if bytes_eq c c' && str_eq k k' then some v else get_gstat_value_mutation X d c' k')
  get-set_prop d n c c' k k' v p p' w e =
      elim (at_most_one (X.query d (operator_query c')) (w.single c' p')) [
        | inl none_found ↦ elim (Bool-cases (bytes_eq c c')) [
          | inl h ↦ absurd (
              nonempty n []
                (sym e ∙ ap (λ x. X.query d (operator_query x)) (bytes_eq→eq c c' h) ∙ none_found))
          | inr h ↦ rw h (get-set_prop_missing d n c' k k' (print_int v) none_found)
        ]
        | inr (n', found) ↦
            get-set_prop_found d n n' c' k k' (print_int v) found
            ∙ rw (same-found d c c' n n' p p' e found, atoi-print_int v) refl
      ]

  -- A write to an element that is no operator's.
  pub get-set_other :
      (d : X.Doc) (n : X.Node) (c' : Bytes) (k k' : String) (v : Bytes)
      → is_plain c' ≡ true
      → IsWellFormed d
      → X.code_of n ≡ none
      → get_gstat_value_mutation X (X.set_prop d n k v) c' k' ≡ get_gstat_value_mutation X d c' k'
  get-set_other d n c' k k' v p' w other =
      elim (at_most_one (X.query d (operator_query c')) (w.single c' p')) [
        | inl none_found ↦ get-set_prop_missing d n c' k k' v none_found
        | inr (n', found) ↦
            get-set_prop_found d n n' c' k k' v found
            ∙ rw (same_false n n' (λ codes. cc (other, codes, law.code-found d c' n' p' found)))
                refl
      ]

  pub found_new :
      (d : X.Doc) (c : Bytes)
      → is_plain c ≡ true
      → X.query d (operator_query c) ≡ []
      → X.query (X.new_text_child d c).0 (operator_query c) ≡ (X.new_text_child d c).1 ∷ []
  found_new d c p e = law.found-new d c c p ∙ rw (bytes_eq_self c, e) refl

  -- A new element without properties.
  pub get-new_text_child :
      (d : X.Doc) (c c' : Bytes) (k : String)
      → is_plain c ≡ true
      → is_plain c' ≡ true
      → IsWellFormed d
      → X.query d (operator_query c) ≡ []
      → get_gstat_value_mutation X (X.new_text_child d c).0 c' k ≡ get_gstat_value_mutation X d c' k
  get-new_text_child d c c' k p p' w e = elim (Bool-cases (bytes_eq c c')) [
    | inl h ↦
        subst
          (λ x.
            get_gstat_value_mutation X (X.new_text_child d c).0 x k
            ≡ get_gstat_value_mutation X d x k)
          (bytes_eq→eq c c' h)
          (get_found (X.new_text_child d c).0 c k (X.new_text_child d c).1 (found_new d c p e)
            ∙ ap (λ p. some (int_of_prop p)) (law.get-new d c (X.new_text_child d c).1 k)
            ∙ rw (law.same_self (X.new_text_child d c).1) (sym (get_missing d c k e)))
    | inr h ↦ elim (at_most_one (X.query d (operator_query c')) (w.single c' p')) [
      | inl none_found ↦
          get_missing (X.new_text_child d c).0 c' k (law.found-new d c c' p' ∙ rw h none_found)
          ∙ sym (get_missing d c' k none_found)
      | inr (n', found) ↦
          get_found (X.new_text_child d c).0 c' k n' (law.found-new d c c' p' ∙ rw h found)
          ∙ ap (λ p. some (int_of_prop p)) (law.get-new d c n' k)
          ∙ rw
              (same_false (X.new_text_child d c).1 n' (λ codes. cc (
                some-injective _ _
                    (sym (law.code-new d c) ∙ codes ∙ law.code-found d c' n' p' found),
                bytes_eq_self c,
                h,
              )))
              (sym (get_found d c' k n' found))
    ]
  ]

  pub set_prop-IsWellFormed :
      (d : X.Doc) (n : X.Node) (k : String) (v : Bytes)
      → IsWellFormed d
      → IsWellFormed (X.set_prop d n k v)
  set_prop-IsWellFormed d n k v w = record {
    single = λ c p. rw (law.found-set d n k v c) (w.single c p);
    aggregated = (w.aggregated.0, law.aggregate-set d n k v ∙ w.aggregated.1);
  }

  pub new_text_child-IsWellFormed :
      (d : X.Doc) (c : Bytes)
      → IsWellFormed d
      → X.query d (operator_query c) ≡ []
      → IsWellFormed (X.new_text_child d c).0
  new_text_child-IsWellFormed d c w e = record {
    single = λ c' p'. elim (Bool-cases (bytes_eq c c')) [
      | inl h ↦
          rw
            (
              law.found-new d c c' p',
              h,
              sym (ap (λ x. X.query d (operator_query x)) (bytes_eq→eq c c' h)) ∙ e,
            )
            (omega arith)
      | inr h ↦ rw (law.found-new d c c' p', h) (w.single c' p')
    ];
    aggregated = (w.aggregated.0, law.aggregate-new d c ∙ w.aggregated.1);
  }
