-- ===== src/Valgrind/Report.antt =====
-- valgrindEval.c: the evaluation of the XML report of Valgrind. Of the document only the elements
-- are kept, since no text between them has a name that the code looks for; the text of an element
-- is what `xmlNodeListGetString` gives. `none` is where the program follows a null pointer or writes
-- past the array of the siblings.
pub mod Location
pub mod Counts
use memory_mutation_testing.Base.{
  ℕ, ◌+◌, Bool, true, false, ◌&&◌, Option, none, some, List, [], ◌∷◌, ◌++◌, map, if◌then◌else◌, ltb,
  leb, ◌==◌, length, ℤ, pos, ◌+ℤ◌, ltb_ℤ, pos_part, take,
}
use memory_mutation_testing.Base.Text.{Bytes, codes, bytes_eq, atoi}
use memory_mutation_testing.Valgrind.{ErrorInfo, ValgrindError, ValgrindResult}
use Prim.Native.String.{String}

-- An element without children that matter, such as <fn>.
pub record Leaf : Type 0 where
  pub name : Bytes
  pub text : Bytes

-- A child of <stack>.
pub record Frame : Type 0 where
  pub name : Bytes
  pub children : List Leaf

-- A child of <error>; `frames` are its own children.
pub record Child : Type 0 where
  pub name : Bytes
  pub text : Bytes
  pub frames : List Frame

abbrev pub is_named : Bytes → String → Bool
is_named name s = bytes_eq name (codes s)

abbrev pub max_location_size : ℕ
max_location_size = 128

-- `total_len > max_location_size` leaves the name of the function out.
unfoldable pub add_function : Bytes → Bytes → Bytes
add_function location fn =
    if ltb max_location_size (length location + 4 + length fn + 1)
    then location
    else if length location == 0
    then fn
    else location ++ (codes " :: " ++ fn)

-- `strncmp(fn, "CuTestRun", strlen("CuTestRun")) == 0`
abbrev pub is_test_run : Bytes → Bool
is_test_run fn = bytes_eq (take 9 fn) (codes "CuTestRun")

-- The children of a frame; the second part is `reached_stack_depth`.
unfoldable pub scan_frame : Bool → List Leaf → Bytes → Bytes × Bool
scan_frame cutest [] location = (location, false)
scan_frame cutest (c ∷ cs) location =
    let skipped = scan_frame cutest cs location in
    let added = scan_frame cutest cs (add_function location c.text) in
    if is_named c.name "fn"
    then (if cutest && is_test_run c.text then (location, true) else added)
    else skipped

-- The frames of a stack.
unfoldable pub scan_frames : Bool → List Frame → Bytes → Bytes
scan_frames cutest [] location = location
scan_frames cutest (f ∷ fs) location =
    let scanned = scan_frame cutest f.children location in
    let skipped = scan_frames cutest fs location in
    let more = scan_frames cutest fs scanned.0 in
    if is_named f.name "frame" then (if scanned.1 then scanned.0 else more) else skipped

-- The element after the stack.
unfoldable pub with_auxwhat : List Child → ErrorInfo → ErrorInfo
with_auxwhat [] e = e
with_auxwhat (c ∷ cs) e =
    if is_named c.name "auxwhat" then record e { auxwhat = some c.text } else e

-- The children of <error>, up to the stack and the element after it.
unfoldable pub scan_error : Bool → List Child → ErrorInfo → ErrorInfo
unfolding with_auxwhat
scan_error cutest [] e = e
scan_error cutest (c ∷ cs) e =
    let with_kind = scan_error cutest cs (record e { kind = some c.text }) in
    let with_what = scan_error cutest cs (record e { what = some c.text }) in
    let skipped = scan_error cutest cs e in
    if is_named c.name "kind"
    then with_kind
    else if is_named c.name "what"
    then with_what
    else if is_named c.name "stack"
    then with_auxwhat cs (record e { location = some (scan_frames cutest c.frames []) })
    else skipped

abbrev pub blank_error : ℤ → ErrorInfo
blank_error occurrences = record {
  occurrences = occurrences;
  kind = none;
  what = none;
  auxwhat = none;
  location = none;
}

-- The places that are allocated for siblings.
abbrev pub sibling_room : ℤ → ℕ
sibling_room error_count = if ltb_ℤ (pos 1) error_count then pos_part error_count else 0

-- The nodes are those that "//error[unique='…']" gives; there is none for a null pointer.
unfoldable pub evaluate_error_nodes : Bool → ℤ → List (List Child) → Option ValgrindError
unfolding scan_error
evaluate_error_nodes cutest error_count [] = none
evaluate_error_nodes cutest error_count (n ∷ ns) =
    if leb (length ns) (sibling_room error_count)
    then (some (record {
      first = scan_error cutest n (blank_error error_count);
      siblings = map (λ m. scan_error cutest m (blank_error (pos 1))) ns;
    }))
    else none

-- The texts of <count> and <unique> of each pair, and the errors by the text of their <unique>.
pub record Report : Type 0 where
  pub pairs : List (Bytes × Bytes)
  pub errors : Bytes → List (List Child)

-- The loop over the pairs, where `strtoumax` reads a count that fits an `int`.
unfoldable pub evaluate_pairs :
    Bool
    → (Bytes → List (List Child))
    → List (Bytes × Bytes)
    → ValgrindResult
    → Option ValgrindResult
evaluate_pairs cutest errors [] result = some result
evaluate_pairs cutest errors ((count, unique) ∷ rest) result =
    elim (evaluate_error_nodes cutest (atoi count) (errors unique)) [
      | none ↦ none
      | some e ↦ evaluate_pairs cutest errors rest (record result {
        valgrind_errors = result.valgrind_errors ++ (e ∷ []);
        valgrind_error_count = result.valgrind_error_count +ℤ atoi count;
      })
    ]

-- `some none` is the null pointer that a report without errors gives.
unfoldable pub valgrind_xml_evaluate : Bool → Report → Option (Option ValgrindResult)
valgrind_xml_evaluate cutest report = elim report.pairs [
  | [] ↦ some none
  | p ∷ ps ↦
      elim (evaluate_pairs cutest report.errors (p ∷ ps) (record {
        valgrind_errors = [];
        valgrind_error_count = pos 0;
        unique_valgrind_error_count = pos (length (p ∷ ps));
      })) [ none ↦ none | some result ↦ some (some result) ]
]
