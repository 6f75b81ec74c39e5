-- ===== src/Controller/Print.antt =====
-- controller.c, lines 430 to 467: the text of a Valgrind result that `printValgrindResult` appends to
-- the log. What it adds to the statistics is `count_errors` of Controller/Fom.antt.
pub mod Reports
use memory_mutation_testing.Base.{
  ℕ, zero, suc, Bool, Option, none, some, List, [], ◌∷◌, ◌++◌, pos, pos_part, if◌then◌else◌,
}
use memory_mutation_testing.Base.Text.{Bytes, codes}
use memory_mutation_testing.Base.Decimal.{print_int}
use memory_mutation_testing.Valgrind.{ErrorInfo, ValgrindError, ValgrindResult}

-- A line of a field, which is left out for a null pointer.
abbrev pub field_text : Bytes → Bytes → Option Bytes → Bytes
field_text name ending none = []
field_text name ending (some value) = codes "\t> " ++ (name ++ (codes ": " ++ (value ++ ending)))

abbrev pub heading : ℕ → Option Bytes → Bytes
heading i none = []
heading i (some location) = codes "\t*** Error(" ++ (print_int (pos (suc i)) ++ codes ") ***\n")

unfoldable pub print_valgrind_error : ErrorInfo → ℕ → Bytes
print_valgrind_error e i =
    heading i e.location
    ++ (field_text (codes "location") (codes "\n") e.location
        ++ (field_text (codes "kind") (codes "\n") e.kind
            ++ (field_text (codes "what") (codes "\n") e.what
                ++ field_text (codes "auxwhat") (codes "\n\n") e.auxwhat)))

-- The loop over so many errors from index `i` on; `none` where it reads behind the end of the array.
unfoldable pub print_errors : ℕ → ℕ → List ValgrindError → Option Bytes
unfolding print_valgrind_error
print_errors i zero es = some []
print_errors i (suc n) [] = none
print_errors i (suc n) (e ∷ es) = elim (print_errors (suc i) n es) [
  | none ↦ none
  | some rest ↦ some (print_valgrind_error e.first i ++ rest)
]

unfoldable pub print_valgrind_result : Bool → ValgrindResult → Option Bytes
unfolding print_errors print_int
print_valgrind_result verbose_mode v =
    let errors = print_errors 0 (pos_part v.unique_valgrind_error_count) v.valgrind_errors in
    elim (if verbose_mode then errors else some []) [
      | none ↦ none
      | some text ↦ some (
          codes "New Valgrind errors: "
          ++ (print_int v.valgrind_error_count ++ (codes "\n" ++ text)))
    ]
