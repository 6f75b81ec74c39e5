-- ===== src/Examples/Hom.antt =====
-- The search for higher-order mutants on two mutants, with a list in the place of the hash set.
use memory_mutation_testing.Base.{
  ℕ, suc, ◌≡◌, ◌≢◌, refl, sym, ap, ◌∙◌, arith, Bool, true, false, ◌||◌, none, some, List, [], ◌∷◌,
  ◌++◌, map, pos, length, if◌then◌else◌, Bool-cases, inl, inr,
}
use memory_mutation_testing.Base.Text.{Bytes, codes}
use memory_mutation_testing.Controller.Process.{exited}
use memory_mutation_testing.Controller.Mutants.{Mutant, FomResult}
use memory_mutation_testing.Controller.Inject.{initial_result}
use memory_mutation_testing.Controller.Hom.{
  Hashset, Address, same_address, HomObservation, HomState, kills_of, add_tests, test_killed_set,
}
use memory_mutation_testing.Controller.Hom.Search.{Search, ended, generate_subsuming_homs}
use memory_mutation_testing.Controller.Hom.Kills.{num_items-test_killed_set, total_kills}
use memory_mutation_testing.Controller.Hom.Ends.{generate_subsuming_homs-ends}
use memory_mutation_testing.Controller.Hom.Arguments.{
  Cell, unset, text, combine_args, argv, arguments, argv-combine_args,
}
use memory_mutation_testing.Controller.Hom.Archive.{
  AllCombined, archive_of, generate_subsuming_homs-AllCombined,
}
use memory_mutation_testing.Examples.Fractions.{fractions}
use memory_mutation_testing.Examples.Memory.{memory}

abbrev has : List Address → Address → Bool
has [] a = false
has (x ∷ s) a = same_address x a || has s a

abbrev insert : List Address → Address → List Address
insert s a = if has s a then s else a ∷ s

length-insert :
    (s : List Address) (a : Address)
    → length (insert s a) ≡ (if has s a then length s else suc (length s))
length-insert s a = elim (Bool-cases (has s a)) [ inl e ↦ rw e refl | inr e ↦ rw e refl ]

equal_addresses : (a b : Address) → same_address a b ≡ true → a ≡ b
equal_addresses (a, c) (b, d) e = λ i. (firsts i, seconds i)
  where
    firsts : a ≡ b
    firsts = ground arith

    seconds : c ≡ d
    seconds = ground arith

has_same : (s : List Address) (a b : Address) → same_address a b ≡ true → has s a ≡ has s b
has_same s a b e = ap (has s) (equal_addresses a b e)

has-insert : (s : List Address) (a b : Address) → has (insert s a) b ≡ (same_address a b || has s b)
has-insert s a b = elim (Bool-cases (has s a)) [
  | inr e ↦ rw e refl
  | inl e ↦ elim (Bool-cases (same_address a b)) [
    | inl same ↦ rw (e, same) (sym (has_same s a b same) ∙ e)
    | inr other ↦ rw (e, other) refl
  ]
]

abbrev address_lists : Hashset
address_lists = record {
  Set = List Address;
  create = [];
  add = insert;
  num_items = length;
  is_member = has;
  num_items-create = refl;
  num_items-add = length-insert;
  is_member-create = λ a. refl;
  is_member-add = has-insert;
}

abbrev fo_mutant : Bytes → Mutant fractions
fo_mutant file = record {
  mutation_code = codes "ABS";
  mutant_source_file = file;
  fragility = none;
  killed_by_tests = some (some (pos 2) ∷ []);
  killed_by_tests_count = some (pos 1);
  valgrind_result = none;
  cfg_deviation = (pos 0, 1);
  damage = (pos 0, 1);
}

abbrev two : List (Mutant fractions)
two = fo_mutant (codes "m/ABS_1.c") ∷ fo_mutant (codes "m/ABS_2.c") ∷ []

-- Two mutants were killed, both by test 2, and one survived.
abbrev result : FomResult fractions
result = record (initial_result fractions memory) {
  non_trivial_foms = two;
  non_trivial_fom_count = 2;
  total_mutants = 3;
  mutant_kill_count = 2;
}

abbrev before : HomState fractions
before = record { total_mutants = 0; mutant_kill_count = 0; temp = codes "4 1 3 2"; log = [] }

-- The evaluation of a higher-order mutant that test 2 kills.
abbrev killed : HomObservation
killed = record {
  hom_dir = some (codes "HOM_1.c", codes "m/HOM/HOM_1.c");
  make = λ i. exited (pos 0);
  unset = pos 0;
  temp_after = codes "5 1 3 2";
}

abbrev missing : HomObservation
missing = record { hom_dir = none; make = λ i. exited (pos 0); unset = pos 0; temp_after = [] }

different : ◌≢◌ {A = ℕ} 0 1
different e = omega arith

-- The one test that killed both of them is two items of the set.
abbrev two_items : List Address
two_items = (1, 0) ∷ (0, 0) ∷ []

killed_sets : test_killed_set fractions address_lists two (0 ∷ 1 ∷ []) [] ≡ some two_items
unfolding test_killed_set kills_of add_tests
killed_sets = refl

num_items-test_killed_set_example :
    length two_items ≡ total_kills fractions address_lists two (0 ∷ 1 ∷ [])
num_items-test_killed_set_example =
    num_items-test_killed_set fractions address_lists two (0 ∷ 1 ∷ []) two_items
      ((different, tt), (tt, tt)) killed_sets

generate_subsuming_homs-ends_example :
    (s : Search fractions) × (generate_subsuming_homs fractions address_lists
        (λ k. missing)
        (λ k. k)
        4
        result
        before
      ≡ ended s)
generate_subsuming_homs-ends_example =
    generate_subsuming_homs-ends fractions address_lists two 2 (λ k. missing) (λ k. refl) refl
      (omega arith) (λ k. k) 4 result before refl refl (omega arith) (omega arith)

generate_subsuming_homs-AllCombined_example : AllCombined fractions 2 (
    archive_of fractions
      (generate_subsuming_homs fractions address_lists (λ k. killed) (λ k. k) 9 result before))
generate_subsuming_homs-AllCombined_example =
    generate_subsuming_homs-AllCombined fractions address_lists (λ k. killed) (λ k. k) 9 result
      before

argv-combine_args_example :
    (cells : List Cell) × ((combine_args (codes "a.c") (codes "m/ABS_1.c" ∷ codes "m/ABS_2.c" ∷ [])
        ≡ some cells)
      × ((cells
            ≡ map text (arguments (codes "a.c") (codes "m/ABS_1.c" ∷ codes "m/ABS_2.c" ∷ []))
              ++ (unset ∷ []))
          × (argv cells ≡ none)))
argv-combine_args_example =
    argv-combine_args (codes "a.c") (codes "m/ABS_1.c") (codes "m/ABS_2.c" ∷ [])
