-- ===== src/Controller/Config.antt =====
-- controller.c, lines 24 to 37 and 182 to 296: `processConfigFile`. libconfig is an argument: what it
-- finds in a file that it can read. Of the copies of the texts nothing is kept but the texts.
pub mod Loads
pub mod Described
use memory_mutation_testing.Base.{
  ℕ, Option, none, some, List, [], ◌∷◌, ℤ, pos, length, if◌then◌else◌,
}
use memory_mutation_testing.Base.Text.{Bytes, codes, bytes_eq, atoi}
use Prim.Native.String.{String}

-- The settings of a file. An element of a list that is not a text is `none`, a null pointer.
pub record Settings : Type 0 where
  -- `config_lookup_string`
  pub lookup_string : String → Option Bytes
  -- `config_lookup`, and `config_setting_get_string_elem` at each index.
  pub lookup : String → Option (List (Option Bytes))

-- A field of the struct that `malloc` gives: one that is never written is `unset`.
pub data Field (A : Type 0) : Type 0 where
  unset : Field A
  assigned : A → Field A

pub record Config : Type 0 where
  pub source_root_dir : Bytes
  pub source : List Bytes
  pub testing_framework : ℕ
  pub cutest_lib_source : Field Bytes
  pub cutest_version : Field ℤ
  pub check_test_lib_source : Field Bytes
  pub make_test_target : Option Bytes
  pub executable_path : Bytes
  pub executable_args : Option Bytes
  pub number_of_source : ℕ

-- The error that is printed before the function returns NULL.
pub data ConfigError : Type 0 where
  unreadable no_source_root_dir no_executable_path no_source : ConfigError
  no_cutest_lib_source unsupported_framework no_testing_framework : ConfigError

-- A null pointer is followed, NULL is returned, or a configuration.
pub data Loading : Type 0 where
  faulted : Loading
  refused : ConfigError → Loading
  loaded : Config → Loading

-- The loop over the sources; `none` where `strlen` is called on a null pointer.
unfoldable pub source_names : List (Option Bytes) → Option (List Bytes)
source_names [] = some []
source_names (none ∷ es) = none
source_names (some filename ∷ es) = elim (source_names es) [
  | none ↦ none
  | some names ↦ some (filename ∷ names)
]

abbrev pub version_of : Option Bytes → ℤ
version_of none = pos 1
version_of (some str) = atoi str

-- The part of the struct that comes from the framework.
pub record Framework : Type 0 where
  pub number : ℕ
  pub cutest_source : Field Bytes
  pub version : Field ℤ
  pub check_source : Field Bytes

pub data Choice : Type 0 where
  rejected : ConfigError → Choice
  chosen : Framework → Choice

abbrev pub assigned_or_unset : Option Bytes → Field Bytes
assigned_or_unset none = unset
assigned_or_unset (some str) = assigned str

unfoldable pub cutest_settings : Settings → Choice
cutest_settings s = elim (s.lookup_string "CuTestLibSource") [
  | none ↦ rejected no_cutest_lib_source
  | some lib ↦ chosen (record {
    number = 1;
    cutest_source = assigned lib;
    version = assigned (version_of (s.lookup_string "CuTestVersion"));
    check_source = unset;
  })
]

abbrev pub libcheck_settings : Settings → Framework
libcheck_settings s = record {
  number = 2;
  cutest_source = unset;
  version = unset;
  check_source = assigned_or_unset (s.lookup_string "CheckTestLibSource");
}

unfoldable pub framework_settings : Settings → Bytes → Choice
framework_settings s str =
    if bytes_eq str (codes "cutest")
    then cutest_settings s
    else if bytes_eq str (codes "libcheck")
    then chosen (libcheck_settings s)
    else rejected unsupported_framework

-- From the lookup of the framework on.
unfoldable pub finish_config : Settings → Bytes → Bytes → List Bytes → Loading
finish_config s root path names = elim (s.lookup_string "testingFramework") [
  | none ↦ refused no_testing_framework
  | some str ↦ elim (framework_settings s str) [
    | rejected e ↦ refused e
    | chosen f ↦ loaded (record {
      source_root_dir = root;
      source = names;
      testing_framework = f.number;
      cutest_lib_source = f.cutest_source;
      cutest_version = f.version;
      check_test_lib_source = f.check_source;
      make_test_target = s.lookup_string "makeTestTarget";
      executable_path = path;
      executable_args = s.lookup_string "executableArgs";
      number_of_source = length names;
    })
  ]
]

unfoldable pub read_settings : Settings → Loading
read_settings s = elim (s.lookup_string "sourceRootDir") [
  | none ↦ refused no_source_root_dir
  | some root ↦ elim (s.lookup_string "executablePath") [
    | none ↦ refused no_executable_path
    | some path ↦ elim (s.lookup "source") [
      | none ↦ refused no_source
      | some elems ↦ elim (source_names elems) [
        | none ↦ faulted
        | some names ↦ finish_config s root path names
      ]
    ]
  ]
]

-- `none` is a file that `config_read_file` cannot read.
unfoldable pub process_config_file : Option Settings → Loading
unfolding read_settings
process_config_file none = refused unreadable
process_config_file (some s) = read_settings s
