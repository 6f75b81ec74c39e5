-- ===== src/Controller/Config/Loads.antt =====
-- Which settings give which configuration.
use mathlib.Core.Option.{some-injective}
use memory_mutation_testing.Base.{
  ◌≡◌, refl, ap, ◌∙◌, inl, inr, Option, none, some, List, [], ◌∷◌, map, length, Option-cases,
}
use memory_mutation_testing.Base.Text.{Bytes, codes}
use memory_mutation_testing.Controller.Config.{
  Settings, unset, assigned, Config, Loading, faulted, refused, loaded, source_names, version_of,
  Framework, Choice, rejected, chosen, assigned_or_unset, framework_settings, finish_config,
  read_settings,
}

-- Two frameworks are known, and each fills its own fields.
pub data Frames (s : Settings) (c : Config) : Type 0 where
  cutest :
      (lib : Bytes)
      → s.lookup_string "testingFramework" ≡ some (codes "cutest")
      → s.lookup_string "CuTestLibSource" ≡ some lib
      → c.testing_framework ≡ 1
      → c.cutest_lib_source ≡ assigned lib
      → c.cutest_version ≡ assigned (version_of (s.lookup_string "CuTestVersion"))
      → c.check_test_lib_source ≡ unset
      → Frames s c
  libcheck :
      s.lookup_string "testingFramework" ≡ some (codes "libcheck")
      → c.testing_framework ≡ 2
      → c.cutest_lib_source ≡ unset
      → c.cutest_version ≡ unset
      → c.check_test_lib_source ≡ assigned_or_unset (s.lookup_string "CheckTestLibSource")
      → Frames s c

-- What a configuration says of the settings it was made from.
pub record Describes (s : Settings) (c : Config) : Type 0 where
  pub root : s.lookup_string "sourceRootDir" ≡ some c.source_root_dir
  pub path : s.lookup_string "executablePath" ≡ some c.executable_path
  pub args : c.executable_args ≡ s.lookup_string "executableArgs"
  pub target : c.make_test_target ≡ s.lookup_string "makeTestTarget"
  pub sources : s.lookup "source" ≡ some (map some c.source)
  pub number : c.number_of_source ≡ length c.source
  pub framework : Frames s c

pub source_names-map : (names : List Bytes) → source_names (map some names) ≡ some names
unfolding source_names
source_names-map [] = refl
source_names-map (n ∷ ns) = rw (source_names-map ns) refl

source_names→map :
    (elems : List (Option Bytes)) (names : List Bytes)
    → source_names elems ≡ some names
    → elems ≡ map some names
unfolding source_names
source_names→map [] names e = ap (map some) (some-injective _ _ e)
source_names→map (none ∷ es) names e = cc
source_names→map (some n ∷ es) names e = elim (Option-cases (source_names es)) [
  | inl stopped ↦ cc (rw stopped at e)
  | inr (ns, done) ↦
      ap (λ l. some n ∷ l) (source_names→map es ns done)
      ∙ ap (map some) (some-injective _ _ (rw done at e))
]

loaded_or : Config → Loading → Config
loaded_or d faulted = d
loaded_or d (refused e) = d
loaded_or d (loaded c) = c

loaded-injective : (c c' : Config) → loaded c ≡ loaded c' → c ≡ c'
unfolding loaded_or
loaded-injective c c' e = ap (loaded_or c) e

-- The configuration that is made of the parts.
abbrev pub made : Settings → Bytes → Bytes → List Bytes → Framework → Config
made s root path names f = record {
  source_root_dir = root;
  source = names;
  testing_framework = f.number;
  cutest_lib_source = f.cutest_source;
  cutest_version = f.version;
  check_test_lib_source = f.check_source;
  make_test_target = s.lookup_string "makeTestTarget";
  executable_path = path;
  executable_args = s.lookup_string "executableArgs";
  number_of_source = length names;
}

choice_or : Framework → Choice → Framework
choice_or d (rejected e) = d
choice_or d (chosen f) = f

pub chosen-injective : (f g : Framework) → chosen f ≡ chosen g → f ≡ g
unfolding choice_or
chosen-injective f g e = ap (choice_or f) e

-- The parts that a configuration that is loaded was made of.
pub record Parts (s : Settings) (c : Config) : Type 0 where
  pub root : Bytes
  pub path : Bytes
  pub names : List Bytes
  pub str : Bytes
  pub frame : Framework
  pub root_found : s.lookup_string "sourceRootDir" ≡ some root
  pub path_found : s.lookup_string "executablePath" ≡ some path
  pub names_found : s.lookup "source" ≡ some (map some names)
  pub str_found : s.lookup_string "testingFramework" ≡ some str
  pub chosen_frame : framework_settings s str ≡ chosen frame
  pub result : made s root path names frame ≡ c

finish_config-Parts :
    (s : Settings) (c : Config) (root path : Bytes) (names : List Bytes)
    → s.lookup_string "sourceRootDir" ≡ some root
    → s.lookup_string "executablePath" ≡ some path
    → s.lookup "source" ≡ some (map some names)
    → finish_config s root path names ≡ loaded c
    → Parts s c
unfolding finish_config
finish_config-Parts s c root path names r p n h =
    elim (Option-cases (s.lookup_string "testingFramework")) [
      | inl e ↦ absurd (cc (rw (e, finish_config) at h))
      | inr (str, e) ↦ go str e (framework_settings s str) refl (rw (e, finish_config) at h)
    ]
  where
    go :
        (str : Bytes)
        → s.lookup_string "testingFramework" ≡ some str
        → (choice : Choice) → framework_settings s str ≡ choice
        → (elim choice [ rejected e ↦ refused e | chosen f ↦ loaded (made s root path names f) ])
          ≡ loaded c
        → Parts s c
    go str e (rejected x) chosen_x h' = absurd (cc h')
    go str e (chosen f) chosen_f h' = record {
      root = root;
      path = path;
      names = names;
      str = str;
      frame = f;
      root_found = r;
      path_found = p;
      names_found = n;
      str_found = e;
      chosen_frame = chosen_f;
      result = loaded-injective _ _ h';
    }

pub read_settings-Parts : (s : Settings) (c : Config) → read_settings s ≡ loaded c → Parts s c
unfolding read_settings
read_settings-Parts s c h = elim (Option-cases (s.lookup_string "sourceRootDir")) [
  | inl e ↦ absurd (cc (rw (e, read_settings) at h))
  | inr (root, r) ↦ elim (Option-cases (s.lookup_string "executablePath")) [
    | inl e ↦ absurd (cc (rw (r, e, read_settings) at h))
    | inr (path, p) ↦ elim (Option-cases (s.lookup "source")) [
      | inl e ↦ absurd (cc (rw (r, p, e, read_settings) at h))
      | inr (elems, n) ↦ elim (Option-cases (source_names elems)) [
        | inl e ↦ absurd (cc (rw (r, p, n, e, read_settings) at h))
        | inr (names, found) ↦
            finish_config-Parts s c root path names r p
              (n ∙ ap some (source_names→map elems names found))
              (rw (r, p, n, found, read_settings) at h)
      ]
    ]
  ]
]
