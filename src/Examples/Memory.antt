-- ===== src/Examples/Memory.antt =====
-- The statistics as a list of what was written, the latest first.
use memory_mutation_testing.Base.{◌≡◌, refl, List, [], ◌∷◌, ◌&&◌, ℤ, pos, if◌then◌else◌}
use memory_mutation_testing.Base.Text.{Bytes, bytes_eq}
use memory_mutation_testing.Gstats.Table.{Table}
use Prim.Native.String.{String}
use text.Mathlib.Text.{◌==◌ as str_eq}

abbrev Writes : Type 0
Writes = List (Bytes × String × ℤ)

unfoldable pub latest : Writes → Bytes → String → ℤ
unfolding bytes_eq
latest [] code key = pos 0
latest ((c, k, v) ∷ d) code key = if bytes_eq c code && str_eq k key then v else latest d code key

pub latest_lem :
    (d : Writes) (code : Bytes) (key : String) (v : ℤ) (code' : Bytes) (key' : String)
    → latest ((code, key, v) ∷ d) code' key'
      ≡ (if bytes_eq code code' && str_eq key key' then v else latest d code' key')
unfolding latest
latest_lem d code key v code' key' = refl

unfoldable pub latest_total : List (String × ℤ) → String → ℤ
latest_total [] key = pos 0
latest_total ((k, v) ∷ d) key = if str_eq k key then v else latest_total d key

pub latest_total_lem :
    (d : List (String × ℤ)) (key : String) (v : ℤ) (key' : String)
    → latest_total ((key, v) ∷ d) key' ≡ (if str_eq key key' then v else latest_total d key')
unfolding latest_total
latest_total_lem d key v key' = refl

-- The derived values are left out.
abbrev pub memory : Table
memory = record {
  Doc = Writes × List (String × ℤ);
  get = λ d code key. latest d.0 code key;
  update = λ d code key v. ((code, key, v) ∷ d.0, d.1);
  aggregate = λ d key. latest_total d.1 key;
  update_aggregate = λ d key v. (d.0, (key, v) ∷ d.1);
  derive = λ d. d;
  get-update = λ d code key v code' key'. latest_lem d.0 code key v code' key';
  get-update_aggregate = λ d k v code key. refl;
  aggregate-update_aggregate = λ d k v k'. latest_total_lem d.1 k v k';
  get-derive = λ d code key raw. refl;
  aggregate-derive = λ d k raw. refl;
}
