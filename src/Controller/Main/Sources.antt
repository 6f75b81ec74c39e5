-- ===== src/Controller/Main/Sources.antt =====
-- The sources of a configuration are processed as all of their C files, one after the other.
use memory_mutation_testing.Base.{ℕ, suc, ◌≡◌, refl, sym, ◌∙◌, none, some, List, [], ◌∷◌, ◌++◌, ℤ}
use memory_mutation_testing.Base.Text.{Bytes}
use memory_mutation_testing.Base.Double.{Double}
use memory_mutation_testing.Gstats.Table.{Table}
use memory_mutation_testing.Controller.Inject.{DirEntry, path_in}
use memory_mutation_testing.Controller.Source.{Session}
use memory_mutation_testing.Controller.Source.Traversal.{
  c_files, process_files, process_files-append, process_files-one, then_rest,
  process_source_directory-eq-process_files,
}
use memory_mutation_testing.Controller.Main.{
  Found, missing, source_directory, source_file, special, process_source, process_sources,
}

-- The C files that are found for a source.
abbrev pub files_found : Bytes → Found → List (Bytes × List DirEntry)
files_found path missing = []
files_found path (source_directory none) = []
files_found path (source_directory (some ts)) = c_files path ts
files_found path (source_file entries) = (path, entries) ∷ []
files_found path special = []

-- The C files of all sources.
abbrev pub all_files : Bytes → Bytes → (ℕ → Found) → ℕ → List Bytes → List (Bytes × List DirEntry)
all_files cwd copy_put found i [] = []
all_files cwd copy_put found i (source ∷ rest) =
    files_found (path_in cwd (path_in copy_put source)) (found i)
    ++ all_files cwd copy_put found (suc i) rest

module _ (F : Double) (T : Table) (put_errors : ℤ) (cwd copy_put : Bytes) where
  process_source-eq-process_files :
      (source : Bytes) (f : Found) (session : Session F T)
      → process_source F T put_errors cwd copy_put source f session
        ≡ process_files F T put_errors cwd
            (files_found (path_in cwd (path_in copy_put source)) f)
            session
  unfolding process_source process_files
  process_source-eq-process_files source missing session = refl
  process_source-eq-process_files source (source_directory none) session = refl
  process_source-eq-process_files source (source_directory (some ts)) session =
      process_source_directory-eq-process_files F T put_errors cwd _ ts session
  process_source-eq-process_files source (source_file entries) session =
      sym (process_files-one F T put_errors cwd _ entries session)
  process_source-eq-process_files source special session = refl

  -- The loop over the sources does what one loop over all of their C files does, in the order of
  -- the sources and of the traversals of the directories, until one of them faults.
  pub process_sources-eq-process_files :
      (found : ℕ → Found) (i : ℕ) (sources : List Bytes) (session : Session F T)
      → process_sources F T put_errors cwd copy_put found i sources session
        ≡ process_files F T put_errors cwd (all_files cwd copy_put found i sources) session
  unfolding process_sources process_files
  process_sources-eq-process_files found i [] session = refl
  process_sources-eq-process_files found i (source ∷ rest) session =
      then_rest F T put_errors cwd
        (process_source F T put_errors cwd copy_put source (found i) session)
        (process_files F T put_errors cwd
          (files_found (path_in cwd (path_in copy_put source)) (found i)) session)
        (process_sources F T put_errors cwd copy_put found (suc i) rest)
        (process_files F T put_errors cwd (all_files cwd copy_put found (suc i) rest))
        (process_source-eq-process_files source (found i) session)
        (process_sources-eq-process_files found (suc i) rest)
      ∙ sym (
          process_files-append F T put_errors cwd
            (files_found (path_in cwd (path_in copy_put source)) (found i))
            (all_files cwd copy_put found (suc i) rest) session)
