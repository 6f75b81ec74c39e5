-- ===== src/Gstats/Table.antt =====
-- gstats.c as controller.c uses it: integers by the code of a mutation operator and a key, where a
-- value that was never written is 0, integers by a key for all operators, and the derived values.
-- The codes are those of the mutation operators, in which no apostrophe stands.
use memory_mutation_testing.Base.{◌≡◌, ◌&&◌, ℤ, false, if◌then◌else◌}
use memory_mutation_testing.Base.Text.{Bytes, bytes_eq}
use Prim.Native.String.{String}
use text.Mathlib.Text.{◌==◌ as str_eq}

-- Not one of the six keys that are derived.
pub record IsRaw (k : String) : Type 0 where
  pub damage : str_eq "damage" k ≡ false
  pub fragilty : str_eq "fragilty" k ≡ false
  pub average : str_eq "average_CFD" k ≡ false
  pub infectiveness : str_eq "infectiveness" k ≡ false
  pub valgrind : str_eq "valgrind_immunity" k ≡ false
  pub cfd : str_eq "CFD_immunity" k ≡ false

pub record Table : Type 1 where
  pub Doc : Type 0
  -- `get_gstat_value_mutation`
  pub get : Doc → Bytes → String → ℤ
  -- `create_update_gstat_mutation`
  pub update : Doc → Bytes → String → ℤ → Doc
  -- `get_gstat_value_aggr_results`
  pub aggregate : Doc → String → ℤ
  -- `create_update_aggr_results`
  pub update_aggregate : Doc → String → ℤ → Doc
  -- `generate_derived_stats`
  pub derive : Doc → Doc
  pub get-update :
      (d : Doc) (code : Bytes) (key : String) (v : ℤ) (code' : Bytes) (key' : String)
      → get (update d code key v) code' key'
        ≡ (if bytes_eq code code' && str_eq key key' then v else get d code' key')
  pub get-update_aggregate :
      (d : Doc) (k : String) (v : ℤ) (code : Bytes) (key : String)
      → get (update_aggregate d k v) code key ≡ get d code key
  pub aggregate-update_aggregate :
      (d : Doc) (k : String) (v : ℤ) (k' : String)
      → aggregate (update_aggregate d k v) k' ≡ (if str_eq k k' then v else aggregate d k')
  pub get-derive :
      (d : Doc) (code : Bytes) (key : String) → IsRaw key → get (derive d) code key ≡ get d code key
  pub aggregate-derive : (d : Doc) (k : String) → IsRaw k → aggregate (derive d) k ≡ aggregate d k
