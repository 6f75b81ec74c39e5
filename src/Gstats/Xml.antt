-- ===== src/Gstats/Xml.antt =====
-- The calls of libxml2 in gstats.c. A document has elements `mutation_operator`, found by their text
-- with XPath, and an element `aggregate_stats`.
use memory_mutation_testing.Base.{
  ◌≡◌, Bool, true, false, ◌&&◌, ◌==◌, Option, none, some, List, [], ◌∷◌, ◌++◌, if◌then◌else◌,
}
use memory_mutation_testing.Base.Text.{Bytes, codes, bytes_eq}
use Prim.Native.String.{String}
use text.Mathlib.Text.{◌==◌ as str_eq}

-- "//mutation_operator[text()='%s']", as `sprintf` writes it: nothing in the code is escaped.
unfoldable pub operator_query : Bytes → Bytes
operator_query mut_code = codes "//mutation_operator[text()='" ++ (mut_code ++ codes "']")

-- No byte of the code is an apostrophe, which would end the text in the query.
unfoldable pub is_plain : Bytes → Bool
is_plain [] = true
is_plain (c ∷ s) = let rest = is_plain s in if c == 39 then false else rest

pub record Xml : Type 1 where
  pub Doc : Type 0
  pub Node : Type 0
  -- The nodes that a query finds; none where it is no XPath.
  pub query : Doc → Bytes → List Node
  -- "//mutation_operator"
  pub all_operators : Doc → List Node
  -- The search among the children of the root; `none` where it runs past the last one.
  pub aggregate_stats : Doc → Option Node
  -- `xmlGetProp`
  pub get_prop : Doc → Node → String → Option Bytes
  -- `xmlSetProp`
  pub set_prop : Doc → Node → String → Bytes → Doc
  -- `xmlNewTextChild` of the root, a `mutation_operator` with the text.
  pub new_text_child : Doc → Bytes → Doc × Node
  -- The equality of nodes, and the text of a `mutation_operator`.
  pub same : Node → Node → Bool
  pub code_of : Node → Option Bytes

-- What gstats.c relies on: each call changes what it is for, and nothing else; and the query finds
-- the elements with this text, for a text without an apostrophe.
pub record IsXml (X : Xml) : Type 0 where
  pub same_self : (n : X.Node) → X.same n n ≡ true
  pub same→eq : (n n' : X.Node) → X.same n n' ≡ true → n ≡ n'
  pub code-found :
      (d : X.Doc) (c : Bytes) (n : X.Node)
      → is_plain c ≡ true
      → X.query d (operator_query c) ≡ n ∷ []
      → X.code_of n ≡ some c
  pub code-aggregate : (d : X.Doc) (n : X.Node) → X.aggregate_stats d ≡ some n → X.code_of n ≡ none
  pub code-new : (d : X.Doc) (c : Bytes) → X.code_of (X.new_text_child d c).1 ≡ some c
  pub found-set :
      (d : X.Doc) (n : X.Node) (k : String) (v c : Bytes)
      → X.query (X.set_prop d n k v) (operator_query c) ≡ X.query d (operator_query c)
  pub aggregate-set :
      (d : X.Doc) (n : X.Node) (k : String) (v : Bytes)
      → X.aggregate_stats (X.set_prop d n k v) ≡ X.aggregate_stats d
  pub get-set :
      (d : X.Doc) (n : X.Node) (k : String) (v : Bytes) (n' : X.Node) (k' : String)
      → X.get_prop (X.set_prop d n k v) n' k'
        ≡ (if X.same n n' && str_eq k k' then some v else X.get_prop d n' k')
  pub found-new :
      (d : X.Doc) (c c' : Bytes)
      → is_plain c' ≡ true
      → X.query (X.new_text_child d c).0 (operator_query c') ≡ (
          if bytes_eq c c'
          then X.query d (operator_query c') ++ ((X.new_text_child d c).1 ∷ [])
          else X.query d (operator_query c'))
  pub aggregate-new :
      (d : X.Doc) (c : Bytes) → X.aggregate_stats (X.new_text_child d c).0 ≡ X.aggregate_stats d
  pub get-new :
      (d : X.Doc) (c : Bytes) (n : X.Node) (k : String)
      → X.get_prop (X.new_text_child d c).0 n k
        ≡ (if X.same (X.new_text_child d c).1 n then none else X.get_prop d n k)
