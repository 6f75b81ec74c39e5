-- ===== src/Controller/Source.antt =====
-- controller.c, lines 1008 to 1176: `process_source_file` and `process_source_directory`, as far as
-- the results of the mutants and the statistics go. The programs that they start and the files that
-- they copy are in Controller/Actions.antt.
pub mod Traversal
pub mod Balance
pub mod Accounts
use memory_mutation_testing.Base.{
  ℕ, ◌-◌, ◌==◌, Bool, true, false, ◌||◌, Option, none, some, List, [], ◌∷◌, ◌++◌, ℤ, pos, ◌+ℤ◌, ltb,
  length, take, drop, if◌then◌else◌,
}
use memory_mutation_testing.Base.Text.{Bytes, codes, bytes_eq}
use memory_mutation_testing.Base.Double.{Double}
use memory_mutation_testing.Gstats.Table.{Table}
use memory_mutation_testing.Controller.Mutants.{FomResult, State}
use memory_mutation_testing.Controller.Inject.{
  DirEntry, from_last, is_c_suffix, path_in, inject_mutations,
}
use memory_mutation_testing.Controller.Damage.{calculate_average_damage}

-- The part of a path behind its last slash; `none` where there is no slash.
unfoldable pub file_name : Bytes → Option Bytes
unfolding from_last
file_name path = elim (from_last b'/' path) [ none ↦ none | some rest ↦ some (drop 1 rest) ]

-- `strndup` of the name without its last two bytes; for a shorter name the length that is computed
-- is negative, which copies the whole name.
unfoldable pub without_suffix : Bytes → Bytes
without_suffix name = if ltb (length name) 2 then name else take (length name - 2) name

-- "%s/mutation_out/%s"
abbrev pub mutants_dir : Bytes → Bytes → Bytes
mutants_dir cwd name = path_in cwd (path_in (codes "mutation_out") (without_suffix name))

-- What a directory holds, in the order of `readdir`. A file comes with the entries of the directory
-- of its mutants, once they are made; a folder that `opendir` refuses is `closed`.
mutual
  pub data Tree : Type 0 where
    file : Bytes → List DirEntry → Tree
    folder : Bytes → Forest → Tree
    closed : Bytes → Tree

  pub data Forest : Type 0 where
    nil : Forest
    cons : Tree → Forest → Forest

-- "." and ".." are not entered.
abbrev pub is_dots : Bytes → Bool
is_dots name = bytes_eq (codes ".") name || bytes_eq (codes "..") name

module _ (F : Double) (T : Table) where
  -- The ratio of two counts, as a percentage.
  abbrev pub percent : ℕ → ℕ → F.D
  percent a b = F.mul (F.div (F.of_int (pos a)) (F.of_int (pos b))) (F.of_int (pos 100))

  -- What is printed of a source file, in the order of the arguments of `printf`.
  pub record Printed : Type 0 where
    pub total_mutants : ℕ
    pub survived : ℕ × F.D
    pub equivalent : ℕ × F.D
    pub survived_sd : ℕ × F.D
    pub survived_wd : ℕ × F.D
    pub survived_wd_valgrind : ℕ × F.D
    pub survived_wd_cfg : ℕ × F.D
    pub killed : ℕ × F.D
    pub killed_sd : ℕ × F.D
    pub killed_wd : ℕ × F.D
    pub killed_wd_valgrind : ℕ × F.D
    pub killed_wd_cfg : ℕ × F.D
    pub failed_injection : ℕ × F.D
    pub dumb : ℕ × F.D
    pub total_valgrind_errors : ℤ
    pub average_damage : F.D
    pub mutation_score : F.D

  unfoldable pub printed : FomResult F → F.D → Printed
  printed r damage = record {
    total_mutants = r.total_mutants;
    survived = (r.survived_count, percent r.survived_count r.total_mutants);
    equivalent = (r.equivalent_mutants, percent r.equivalent_mutants r.survived_count);
    survived_sd = (r.survived_sd, percent r.survived_sd r.survived_count);
    survived_wd = (r.survived_wd, percent r.survived_wd r.survived_count);
    survived_wd_valgrind = (
      r.survived_wd_caused_valgrind_errors,
      percent r.survived_wd_caused_valgrind_errors r.survived_wd,
    );
    survived_wd_cfg = (
      r.survived_wd_caused_cfg_deviation,
      percent r.survived_wd_caused_cfg_deviation r.survived_wd,
    );
    killed = (r.mutant_kill_count, percent r.mutant_kill_count r.total_mutants);
    killed_sd = (r.killed_sd, percent r.killed_sd r.mutant_kill_count);
    killed_wd = (r.killed_wd, percent r.killed_wd r.mutant_kill_count);
    killed_wd_valgrind = (
      r.killed_wd_caused_valgrind_errors,
      percent r.killed_wd_caused_valgrind_errors r.killed_wd,
    );
    killed_wd_cfg =
        (r.killed_wd_caused_cfg_deviation, percent r.killed_wd_caused_cfg_deviation r.killed_wd);
    failed_injection = (r.failed_injection, percent r.failed_injection r.mutant_kill_count);
    dumb = (r.dumb_mutants, percent r.dumb_mutants r.total_mutants);
    total_valgrind_errors = r.total_valgrind_errors;
    average_damage = damage;
    mutation_score = F.div (F.of_int (pos r.mutant_kill_count)) (F.of_int (pos r.total_mutants));
  }

  -- The state with what was printed so far; `none` stands for the lines "Total Mutants: 0".
  pub record Session : Type 0 where
    pub state : State F T
    pub reports : List (Option Printed)

  -- The start of `process_source_file`: the log is removed and temp_results.log holds "0".
  abbrev pub fresh_files : State F T → State F T
  fresh_files s = record s { temp = codes "0"; log = [] }

  -- What is written to the statistics of a file with mutants.
  abbrev pub final_stats : FomResult F → T.Doc → T.Doc
  final_stats r d =
      T.derive
        (T.update_aggregate d "total_tests_run" (T.aggregate d "total_tests_run" +ℤ r.total_tests))

  -- After `inject_mutations`.
  unfoldable pub finish_source : State F T → List (Option Printed) → Option Session
  finish_source s reports =
      if s.result.total_mutants == 0
      then some (record { state = s; reports = reports ++ (none ∷ []) })
      else elim (calculate_average_damage F T s.result s.stats) [
        | none ↦ none
        | some (d, damage) ↦ some (record {
          state = record s { stats = final_stats s.result d };
          reports = reports ++ (some (printed s.result damage) ∷ []);
        })
      ]

  -- `put_errors` is `PUTValgrindErrors`, `path` is `args_txl[4+TXL_OPTS]`.
  unfoldable pub process_source_file : ℤ → Bytes → Bytes → List DirEntry → Session → Option Session
  process_source_file put_errors cwd path entries session = elim (file_name path) [
    | none ↦ none
    | some name ↦
        elim (inject_mutations F T put_errors (mutants_dir cwd name) name entries
          (fresh_files session.state)) [ none ↦ none | some s ↦ finish_source s session.reports ]
  ]

  -- A file of the directory whose name ends in ".c".
  unfoldable pub process_entry :
      ℤ → Bytes → Bytes → Bytes → List DirEntry → Session → Option Session
  unfolding from_last
  process_entry put_errors cwd dir name entries session =
      if is_c_suffix (from_last b'.' name)
      then process_source_file put_errors cwd (path_in dir name) entries session
      else some session

  unfoldable mutual
    pub process_source_directory : ℤ → Bytes → Bytes → Forest → Session → Option Session
    process_source_directory put_errors cwd dir nil session = some session
    process_source_directory put_errors cwd dir (cons t ts) session =
        elim (process_tree put_errors cwd dir t session) [
          | none ↦ none
          | some s ↦ process_source_directory put_errors cwd dir ts s
        ]

    pub process_tree : ℤ → Bytes → Bytes → Tree → Session → Option Session
    process_tree put_errors cwd dir (file name entries) session =
        process_entry put_errors cwd dir name entries session
    process_tree put_errors cwd dir (folder name ts) session = elim (is_dots name) [
      | true ↦ some session
      | false ↦ process_source_directory put_errors cwd (path_in dir name) ts session
    ]
    process_tree put_errors cwd dir (closed name) session = some session
