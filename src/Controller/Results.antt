-- ===== src/Controller/Results.antt =====
-- controller.c, lines 405 to 428: `get_non_trivial_FOM_stats`, which reads the file
-- temp_results.log that the tests of the last mutant to be killed have written.
pub mod Tokens
pub mod RoundTrip
pub mod Failed
pub mod Bounds
pub mod Faults
use memory_mutation_testing.Base.{
  ℕ, zero, suc, ◌-◌, ◌*◌, Bool, Option, List, [], ◌∷◌, ◌++◌, map, none, some, if◌then◌else◌, ◌==◌,
  ltb, leb, ℤ, pos, pos_part, length, take, replicate,
}
use memory_mutation_testing.Base.Text.{Bytes, is_space, skip_space, scan_int, atoi}

-- The array `stats`: three numbers, and those that the tokens give, from index 3 on.
pub record Stats : Type 0 where
  pub kills : ℤ
  pub failed : ℤ
  pub total : ℤ
  pub ids : List ℤ

-- `%s`, after white space: the bytes up to the next white space.
unfoldable pub take_word : Bytes → Bytes
take_word [] = []
take_word (c ∷ s) = if is_space c then [] else c ∷ take_word s

abbrev flush : Bytes → List Bytes → List Bytes
flush [] ts = ts
flush (c ∷ cs) ts = (c ∷ cs) ∷ ts

-- `strtok(…, ",")` until it returns NULL: the runs of other bytes. `cur` is the run so far.
unfoldable pub tokens_from : Bytes → Bytes → List Bytes
tokens_from cur [] = flush cur []
tokens_from cur (c ∷ s) =
    let next = flush cur (tokens_from [] s) in
    let more = tokens_from (cur ++ (c ∷ [])) s in if c == b',' then next else more

unfoldable pub tokens : Bytes → List Bytes
unfolding tokens_from
tokens s = tokens_from [] s

-- `fscanf(temp_results, "%d %d %d %s", …)` into cleared memory, which stops at the first mismatch.
unfoldable pub scan_third : ℤ → ℤ → Bytes → Stats
scan_third kills failed s = elim (scan_int s) [
  | none ↦ record { kills = kills; failed = failed; total = pos 0; ids = [] }
  | some (total, r) ↦ record {
    kills = kills;
    failed = failed;
    total = total;
    ids = map atoi (tokens (take_word (skip_space r)));
  }
]

unfoldable pub scan_second : ℤ → Bytes → Stats
scan_second kills s = elim (scan_int s) [
  | none ↦ record { kills = kills; failed = pos 0; total = pos 0; ids = [] }
  | some (failed, r) ↦ scan_third kills failed r
]

-- The word that `%s` stores to `killed_test_id`, which stays empty where `fscanf` stops before.
unfoldable pub word_third : Bytes → Bytes
word_third s = elim (scan_int s) [ none ↦ [] | some (total, r) ↦ take_word (skip_space r) ]

unfoldable pub word_second : Bytes → Bytes
word_second s = elim (scan_int s) [ none ↦ [] | some (failed, r) ↦ word_third r ]

unfoldable pub killed_word : Bytes → Bytes
killed_word s = elim (scan_int s) [ none ↦ [] | some (kills, r) ↦ word_second r ]

-- The bytes of `killed_test_id`, its NUL included.
abbrev pub killed_test_id_size : ℕ
killed_test_id_size = 1024

-- Whether the word and its NUL fit `killed_test_id`: another file overruns it.
unfoldable pub is_readable : Bytes → Bool
is_readable s = ltb (length (killed_word s)) killed_test_id_size

-- `lstats` after so many tokens are stored from the index `counter` on, with `realloc` to the double
-- length when the index is not in the array.
unfoldable pub grown_stats : ℕ → ℕ → ℕ → ℕ
grown_stats zero counter lstats = lstats
grown_stats (suc n) counter lstats =
    grown_stats n (suc counter) (if leb lstats counter then lstats * 2 else lstats)

-- How many numbers lie in the array `stats` from its index 3 on.
unfoldable pub stats_room : Stats → ℕ
stats_room stats = grown_stats (length stats.ids) 3 20 - 3

-- The numbers that `memcpy` takes from the index 3 on, as many as `stats[1]` says: those that were
-- stored, the zeros behind them up to the 20 numbers that `calloc` cleared, and `none` for what
-- `realloc` added and nothing was stored to.
unfoldable pub copied_ids : Stats → List (Option ℤ)
copied_ids stats = take (pos_part stats.failed) (
    map some stats.ids
    ++ (replicate (17 - length stats.ids) (some (pos 0)) ++ replicate (stats_room stats) none))

-- Whether all of them lie in the array.
unfoldable pub copies_within : Stats → Bool
copies_within stats = leb (pos_part stats.failed) (stats_room stats)

-- The numbers of the file, where `is_readable` says that it can be read.
unfoldable pub get_non_trivial_fom_stats : Bytes → Stats
get_non_trivial_fom_stats s = elim (scan_int s) [
  | none ↦ record { kills = pos 0; failed = pos 0; total = pos 0; ids = [] }
  | some (kills, r) ↦ scan_second kills r
]
