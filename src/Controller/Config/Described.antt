-- ===== src/Controller/Config/Described.antt =====
-- A configuration is loaded exactly from the settings that it describes.
use mathlib.Core.Logic.{◌↔◌}
use mathlib.Core.Path.{subst}
use memory_mutation_testing.Base.{
  ◌≡◌, refl, sym, ap, ◌∙◌, some, List, Bool-cases, Option-cases, inl, inr,
}
use memory_mutation_testing.Base.Text.{Bytes, codes, bytes_eq, bytes_eq→eq}
use memory_mutation_testing.Controller.Config.{
  Settings, Config, loaded, Framework, chosen, cutest_settings, libcheck_settings,
  framework_settings, finish_config, read_settings, process_config_file, assigned, unset,
  version_of,
}
use memory_mutation_testing.Controller.Config.Loads.{
  Frames, cutest, libcheck, Describes, Parts, made, source_names-map, read_settings-Parts,
  chosen-injective,
}

-- The two frameworks that are chosen.
frames :
    (s : Settings) (root path : Bytes) (names : List Bytes) (str : Bytes) (f : Framework)
    → s.lookup_string "testingFramework" ≡ some str
    → framework_settings s str ≡ chosen f
    → Frames s (made s root path names f)
unfolding framework_settings cutest_settings
frames s root path names str f e h = elim (Bool-cases (bytes_eq str (codes "cutest"))) [
  | inl c ↦ elim (Option-cases (s.lookup_string "CuTestLibSource")) [
    | inl missing ↦ absurd (cc (rw (c, missing, cutest_settings) at h))
    | inr (lib, found) ↦
        subst (λ g. Frames s (made s root path names g))
          (chosen-injective _ f (rw (c, found, cutest_settings) at h))
          (cutest lib (e ∙ ap some (bytes_eq→eq str (codes "cutest") c)) found refl refl refl refl)
  ]
  | inr n ↦ elim (Bool-cases (bytes_eq str (codes "libcheck"))) [
    | inl c ↦
        subst (λ g. Frames s (made s root path names g)) (chosen-injective _ f (rw (n, c) at h))
          (libcheck (e ∙ ap some (bytes_eq→eq str (codes "libcheck") c)) refl refl refl refl)
    | inr m ↦ absurd (cc (rw (n, m) at h))
  ]
]

describes : (s : Settings) (c : Config) → Parts s c → Describes s c
describes s c p = subst (Describes s) p.result (record {
  root = p.root_found;
  path = p.path_found;
  args = refl;
  target = refl;
  sources = p.names_found;
  number = refl;
  framework = frames s p.root p.path p.names p.str p.frame p.str_found p.chosen_frame;
})

cutest_chosen :
    (s : Settings) (lib : Bytes)
    → s.lookup_string "CuTestLibSource" ≡ some lib
    → framework_settings s (codes "cutest")
      ≡ chosen (record {
        number = 1;
        cutest_source = assigned lib;
        version = assigned (version_of (s.lookup_string "CuTestVersion"));
        check_source = unset;
      })
unfolding framework_settings cutest_settings bytes_eq
cutest_chosen s lib e = rw (e, cutest_settings) refl

libcheck_chosen :
    (s : Settings) → framework_settings s (codes "libcheck") ≡ chosen (libcheck_settings s)
unfolding framework_settings bytes_eq
libcheck_chosen s = refl

same_config :
    (s : Settings) (c : Config) (f : Framework)
    → Describes s c
    → c.testing_framework ≡ f.number
    → c.cutest_lib_source ≡ f.cutest_source
    → c.cutest_version ≡ f.version
    → c.check_test_lib_source ≡ f.check_source
    → made s c.source_root_dir c.executable_path c.source f ≡ c
same_config s c f d n l v k = λ i. record {
  source_root_dir = c.source_root_dir;
  source = c.source;
  testing_framework = sym n i;
  cutest_lib_source = sym l i;
  cutest_version = sym v i;
  check_test_lib_source = sym k i;
  make_test_target = sym d.target i;
  executable_path = c.executable_path;
  executable_args = sym d.args i;
  number_of_source = sym d.number i;
}

finish_config-chosen :
    (s : Settings) (root path str : Bytes) (names : List Bytes) (f : Framework)
    → s.lookup_string "testingFramework" ≡ some str
    → framework_settings s str ≡ chosen f
    → finish_config s root path names ≡ loaded (made s root path names f)
unfolding finish_config
finish_config-chosen s root path str names f e h = rw (e, finish_config) (rw h refl)

finished :
    (s : Settings) (c : Config)
    → Describes s c
    → Frames s c
    → finish_config s c.source_root_dir c.executable_path c.source ≡ loaded c
finished s c d (cutest lib e l n cl cv ck) =
    finish_config-chosen s c.source_root_dir c.executable_path (codes "cutest") c.source _ e
      (cutest_chosen s lib l)
    ∙ ap loaded (same_config s c _ d n cl cv ck)
finished s c d (libcheck e n cl cv ck) =
    finish_config-chosen s c.source_root_dir c.executable_path (codes "libcheck") c.source _ e
      (libcheck_chosen s)
    ∙ ap loaded (same_config s c _ d n cl cv ck)

described_loads : (s : Settings) (c : Config) → Describes s c → read_settings s ≡ loaded c
unfolding read_settings
described_loads s c d =
    rw (d.root, d.path, d.sources, source_names-map c.source, read_settings)
      (finished s c d d.framework)

-- Settings that can be read give a configuration exactly when the configuration describes them.
pub process_config_file-loaded_iff :
    (s : Settings) (c : Config) → (process_config_file (some s) ≡ loaded c) ↔ Describes s c
unfolding process_config_file
process_config_file-loaded_iff s c =
    (λ h. describes s c (read_settings-Parts s c h), λ d. described_loads s c d)
