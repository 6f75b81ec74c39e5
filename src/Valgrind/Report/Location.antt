-- ===== src/Valgrind/Report/Location.antt =====
-- The location of an error stays within the bytes that are allocated for it.
use memory_mutation_testing.Base.{
  ◌<◌, Bool, ◌&&◌, List, [], ◌∷◌, ◌++◌, arith, Bool-cases, inl, inr, length, length-append,
}
use memory_mutation_testing.Base.Text.{Bytes, codes}
use memory_mutation_testing.Valgrind.Report.{
  Leaf, Frame, add_function, scan_frame, scan_frames, max_location_size, is_named, is_test_run,
}

add_function-lt :
    (location fn : Bytes)
    → length location < max_location_size
    → length (add_function location fn) < max_location_size
unfolding add_function
add_function-lt location fn h = ground (arith, length-append location (codes " :: " ++ fn))

scan_frame-lt :
    (cutest : Bool) (cs : List Leaf) (location : Bytes)
    → length location < max_location_size
    → length (scan_frame cutest cs location).0 < max_location_size
unfolding scan_frame
scan_frame-lt cutest [] location h = h
scan_frame-lt cutest (c ∷ cs) location h = elim (Bool-cases (is_named c.name "fn")) [
  | inl e ↦ rw e (elim (Bool-cases (cutest && is_test_run c.text)) [
    | inl stopped ↦ rw stopped h
    | inr on ↦
        rw on (
          scan_frame-lt cutest cs (add_function location c.text)
            (add_function-lt location c.text h))
  ])
  | inr e ↦ rw e (scan_frame-lt cutest cs location h)
]

-- A location that is shorter than the 128 bytes that are allocated, such as the empty one at the
-- start, stays so over all frames of a stack: text and NUL fit the allocation.
pub scan_frames-lt :
    (cutest : Bool) (fs : List Frame) (location : Bytes)
    → length location < max_location_size
    → length (scan_frames cutest fs location) < max_location_size
unfolding scan_frames
scan_frames-lt cutest [] location h = h
scan_frames-lt cutest (f ∷ fs) location h =
    let scanned = scan_frame cutest f.children location in
    let h' = scan_frame-lt cutest f.children location h in
    elim (Bool-cases (is_named f.name "frame")) [
      | inl e ↦ rw e (elim (Bool-cases scanned.1) [
        | inl stopped ↦ rw stopped h'
        | inr on ↦ rw on (scan_frames-lt cutest fs scanned.0 h')
      ])
      | inr e ↦ rw e (scan_frames-lt cutest fs location h)
    ]
