-- ===== src/Controller/Source/Traversal.antt =====
-- The traversal of a directory processes its C files, one after the other.
use memory_mutation_testing.Base.{
  ◌≡◌, refl, sym, ◌∙◌, Bool, true, false, Option, none, some, List, [], ◌∷◌, ◌++◌, ℤ, Bool-cases,
  Option-cases, inl, inr, if◌then◌else◌,
}
use memory_mutation_testing.Base.Text.{Bytes}
use memory_mutation_testing.Base.Double.{Double}
use memory_mutation_testing.Gstats.Table.{Table}
use memory_mutation_testing.Controller.Inject.{DirEntry, from_last, is_c_suffix, path_in}
use memory_mutation_testing.Controller.Source.{
  Tree, file, folder, closed, Forest, nil, cons, is_dots, Session, process_source_file,
  process_entry, process_source_directory, process_tree,
}

-- The paths of the files whose names end in ".c", with the entries of their mutants, in the order
-- of a traversal that enters each folder where it stands.
unfoldable mutual
  pub c_files : Bytes → Forest → List (Bytes × List DirEntry)
  c_files dir nil = []
  c_files dir (cons t ts) = c_files_of dir t ++ c_files dir ts

  pub c_files_of : Bytes → Tree → List (Bytes × List DirEntry)
  c_files_of dir (file name entries) =
      if is_c_suffix (from_last b'.' name) then (path_in dir name, entries) ∷ [] else []
  c_files_of dir (folder name ts) = elim (is_dots name) [
    | true ↦ []
    | false ↦ c_files (path_in dir name) ts
  ]
  c_files_of dir (closed name) = []

module _ (F : Double) (T : Table) (put_errors : ℤ) (cwd : Bytes) where
  -- One file after the other, until one of them faults.
  unfoldable pub process_files : List (Bytes × List DirEntry) → Session F T → Option (Session F T)
  process_files [] session = some session
  process_files ((path, entries) ∷ rest) session =
      elim (process_source_file F T put_errors cwd path entries session) [
        | none ↦ none
        | some s ↦ process_files rest s
      ]

  pub process_files-append :
      (xs ys : List (Bytes × List DirEntry)) (session : Session F T)
      → process_files (xs ++ ys) session
        ≡ elim (process_files xs session) [ none ↦ none | some s ↦ process_files ys s ]
  unfolding process_files
  process_files-append [] ys session = refl
  process_files-append ((path, entries) ∷ xs) ys session =
      elim (Option-cases (process_source_file F T put_errors cwd path entries session)) [
        | inl e ↦ rw (e, process_files) refl
        | inr (s, e) ↦ rw (e, process_files) (process_files-append xs ys s)
      ]

  pub process_files-one :
      (path : Bytes) (entries : List DirEntry) (session : Session F T)
      → process_files ((path, entries) ∷ []) session
        ≡ process_source_file F T put_errors cwd path entries session
  unfolding process_files
  process_files-one path entries session =
      elim (Option-cases (process_source_file F T put_errors cwd path entries session)) [
        | inl e ↦ rw (e, process_files) refl
        | inr (s, e) ↦ rw (e, process_files) refl
      ]

  process_entry-eq-process_files :
      (dir name : Bytes) (entries : List DirEntry) (session : Session F T)
      → process_entry F T put_errors cwd dir name entries session
        ≡ process_files
            (if is_c_suffix (from_last b'.' name) then (path_in dir name, entries) ∷ [] else [])
            session
  unfolding process_entry process_files
  process_entry-eq-process_files dir name entries session =
      elim (Bool-cases (is_c_suffix (from_last b'.' name))) [
        | inl e ↦ rw (e, process_entry) (sym (process_files-one (path_in dir name) entries session))
        | inr e ↦ rw (e, process_entry, process_files) refl
      ]

  pub then_rest :
      (m m' : Option (Session F T)) (f g : Session F T → Option (Session F T))
      → m ≡ m'
      → ((s : Session F T) → f s ≡ g s)
      → (elim m [ none ↦ none | some s ↦ f s ]) ≡ (elim m' [ none ↦ none | some s ↦ g s ])
  then_rest none m' f g e h = rw (← e) refl
  then_rest (some s) m' f g e h = rw (← e) (h s)

  unless_dots :
      (dots : Bool) (session : Session F T) (entered : Option (Session F T))
      (inside : List (Bytes × List DirEntry))
      → entered ≡ process_files inside session
      → (elim dots [ true ↦ some session | false ↦ entered ])
        ≡ process_files (elim dots [ true ↦ [] | false ↦ inside ]) session
  unfolding process_files
  unless_dots true session entered inside e = refl
  unless_dots false session entered inside e = e

  mutual
    unfolding process_source_directory process_tree c_files c_files_of process_files

    forest-eq-process_files :
        (dir : Bytes) (ts : Forest) (session : Session F T)
        → process_source_directory F T put_errors cwd dir ts session
          ≡ process_files (c_files dir ts) session
    forest-eq-process_files dir nil session = refl
    forest-eq-process_files dir (cons t ts) session =
        then_rest (process_tree F T put_errors cwd dir t session)
          (process_files (c_files_of dir t) session)
          (process_source_directory F T put_errors cwd dir ts) (process_files (c_files dir ts))
          (process_tree-eq-process_files dir t session) (forest-eq-process_files dir ts)
        ∙ sym (process_files-append (c_files_of dir t) (c_files dir ts) session)

    process_tree-eq-process_files :
        (dir : Bytes) (t : Tree) (session : Session F T)
        → process_tree F T put_errors cwd dir t session ≡ process_files (c_files_of dir t) session
    process_tree-eq-process_files dir (file name entries) session =
        process_entry-eq-process_files dir name entries session
    process_tree-eq-process_files dir (folder name ts) session =
        unless_dots (is_dots name) session
          (process_source_directory F T put_errors cwd (path_in dir name) ts session)
          (c_files (path_in dir name) ts) (forest-eq-process_files (path_in dir name) ts session)
    process_tree-eq-process_files dir (closed name) session = refl

  -- A directory is processed as its C files are, one after the other, in the order of the traversal,
  -- until one of them faults.
  pub process_source_directory-eq-process_files :
      (dir : Bytes) (ts : Forest) (session : Session F T)
      → process_source_directory F T put_errors cwd dir ts session
        ≡ process_files (c_files dir ts) session
  process_source_directory-eq-process_files dir ts session = forest-eq-process_files dir ts session
