-- ===== src/Examples/Report.antt =====
-- A report of one error with the count 2, which has two nodes.
use memory_mutation_testing.Base.{◌<◌, ◌≡◌, true, some, List, [], ◌∷◌, arith, length, pos}
use memory_mutation_testing.Base.Text.{Bytes, codes, atoi, scan_int}
use memory_mutation_testing.Valgrind.{ValgrindResult}
use memory_mutation_testing.Valgrind.Report.{
  Child, Frame, scan_frames, max_location_size, valgrind_xml_evaluate,
}
use memory_mutation_testing.Valgrind.Report.Location.{scan_frames-lt}
use memory_mutation_testing.Controller.Fom.{new_errors_only}
use memory_mutation_testing.Controller.Print.{print_valgrind_result}
use memory_mutation_testing.Controller.Print.Reports.{
  result_text, print_valgrind_result-valgrind_xml_evaluate,
}
use memory_mutation_testing.Valgrind.Report.Counts.{AllPlaced, count_sum, valgrind_xml_evaluate_lem}

abbrev frame : Bytes → Frame
frame fn = record { name = codes "frame"; children = record { name = codes "fn"; text = fn } ∷ [] }

abbrev stack : List Frame
stack =
    frame (codes "free")
    ∷ frame (codes "list_remove")
    ∷ frame (codes "CuTestRun")
    ∷ frame (codes "main")
    ∷ []

abbrev error_node : List Child
error_node =
    record { name = codes "kind"; text = codes "InvalidFree"; frames = [] }
    ∷ record { name = codes "stack"; text = []; frames = stack }
    ∷ []

abbrev nodes : Bytes → List (List Child)
nodes unique = error_node ∷ error_node ∷ []

abbrev pair : Bytes × Bytes
pair = (codes "2", codes "0x1")

placed : AllPlaced nodes (pair ∷ [])
unfolding atoi scan_int
placed = ((omega arith, omega arith), tt)

valgrind_xml_evaluate_lem_example :
    (v : ValgrindResult) × (valgrind_xml_evaluate true
        (record { pairs = pair ∷ []; errors = nodes })
      ≡ some (some v))
    × (v.valgrind_error_count ≡ count_sum (pair ∷ []))
    × (v.unique_valgrind_error_count ≡ pos (length (pair ∷ [])))
    × (length v.valgrind_errors ≡ length (pair ∷ []))
valgrind_xml_evaluate_lem_example = valgrind_xml_evaluate_lem true nodes pair [] placed

scan_frames-lt_example : length (scan_frames true stack []) < max_location_size
scan_frames-lt_example = scan_frames-lt true stack [] (omega arith)

evaluated :
    (v : ValgrindResult) × (valgrind_xml_evaluate true
        (record { pairs = pair ∷ []; errors = nodes })
      ≡ some (some v))
evaluated =
    let (v, done, _, _, _) = valgrind_xml_evaluate_lem true nodes pair [] placed in (v, done)

print_valgrind_result-valgrind_xml_evaluate_example :
    (print_valgrind_result true evaluated.0 ≡ some (result_text true evaluated.0))
    × (print_valgrind_result true (new_errors_only (pos 1) evaluated.0)
        ≡ some (result_text true (new_errors_only (pos 1) evaluated.0)))
print_valgrind_result-valgrind_xml_evaluate_example =
    print_valgrind_result-valgrind_xml_evaluate true true (pos 1)
      (record { pairs = pair ∷ []; errors = nodes }) evaluated.0 evaluated.1
