-- ===== src/Loaders/Tests.antt =====
-- The converters and the file of a KfDef, with a YAML library and a file system in memory.
use opendatahub_operator.Prelude.{
  String, ◌≡◌, refl, false, none, some, [], ◌∷◌, ◌==◌, if◌then◌else◌, List, Bool, true, arith,
  string_dec, ◌&&◌, inl,
}
use opendatahub_operator.Errors.{text}
use opendatahub_operator.Result.{ok, err, panics, run}
use opendatahub_operator.Result.Ends.{Ends, Any, IsKfError}
use opendatahub_operator.Strings.{join, split}
use opendatahub_operator.KfConfig
use opendatahub_operator.KfConfig.{KfConfig}
use opendatahub_operator.Controller.Simulation.{config}
use opendatahub_operator.Loaders.Types
use opendatahub_operator.Loaders.Types.{KfDef, GcpPluginSpec}
use opendatahub_operator.Loaders.Accessors.{SpecYaml}
use opendatahub_operator.Loaders.Convert.{KfDefYaml, config_of}
use opendatahub_operator.Loaders.Convert.Written.{kf_def_of, load_kf_def}
use opendatahub_operator.Loaders.Convert.PluginLoop.{CanMarshal}
use opendatahub_operator.Loaders.Convert.RoundTrip.{
  IsReread, config_of-kf_def_of, config_of-sourceless,
}
use opendatahub_operator.Loaders.Files.{
  Files, version_text, load_config_from_uri, write_config_to_file,
}
use opendatahub_operator.Loaders.Files.Laws.{IsQuiet, write_config_failures}
use opendatahub_operator.Loaders.Files.Runs.{filename}
use opendatahub_operator.Loaders.Files.RoundTrip.{
  IsTyped, IsDurable, IsLocal, load_config-write_config,
}
use opendatahub_operator.Loaders.Versions.{v1_loader, v1beta1_loader, v1beta1_load_kf_def}

abbrev gcp_spec : GcpPluginSpec
gcp_spec = record {
  project = "odh";
  email = "me@odh.io";
  ip_name = "ip";
  hostname = "host";
  zone = "eu";
  skip_init_project = false;
  delete_storage = false;
}

abbrev spec_yaml : SpecYaml GcpPluginSpec
spec_yaml = record {
  marshal_raw = λ r. ok (elim r [ none ↦ "null" | some t ↦ t ]);
  unmarshal = λ _. (gcp_spec, none);
  marshal = λ g. ok g.project;
  unmarshal_raw = λ t. (some t, none);
}

spec_yaml-CanMarshal : CanMarshal spec_yaml
spec_yaml-CanMarshal = record { bytes = λ r. (elim r [ none ↦ "null" | some t ↦ t ], refl) }

abbrev token : KfConfig.Secret
token = record {
  name = "token";
  secret_source =
      some
        (record { literal_source = some "hush"; hashed_source = none; env_source = some "TOKEN" });
}

abbrev full_config : KfConfig
full_config = record config {
  spec = record config.spec {
    secrets = token ∷ [];
    plugins =
        record { name = "gcp"; namespace = ""; kind = "KfGcpPlugin"; spec = some "spec" } ∷ [];
  };
}

config_of-kf_def_of_example :
    (c : KfConfig) × (config_of spec_yaml (kf_def_of full_config) ≡ ok c) × IsReread full_config c
config_of-kf_def_of_example =
    config_of-kf_def_of spec_yaml spec_yaml-CanMarshal full_config ((λ e. cc), tt)

abbrev bare : Types.Secret
bare = record { name = "bare"; secret_source = none }

abbrev sourceless : KfDef
sourceless = record {
  api_version = "kfdef.apps.kubeflow.org/v1";
  name = "odh";
  namespace = "ns";
  annotations = [];
  spec = record {
    version = "";
    applications = record { name = "jupyter"; kustomize_config = none } ∷ [];
    plugins = [];
    secrets = bare ∷ [];
    repos = [];
  };
  status = record { conditions = []; repos_cache = [] };
}

config_of-sourceless_example : config_of spec_yaml sourceless ≡ panics "nil pointer dereference"
config_of-sourceless_example =
    config_of-sourceless spec_yaml spec_yaml-CanMarshal sourceless bare [] [] refl refl

-- Untyped values are KfDefs, and a text stands for one fixed KfDef.
abbrev kf_def_yaml : KfDefYaml KfDef
kf_def_yaml = record {
  marshal_obj = λ d. ok d.name;
  unmarshal_kf_def = λ _. ok sourceless;
  marshal_kf_def = λ d. ok d.name;
  unmarshal_obj = λ _. ok sourceless;
}

-- The world is the contents of one file.
abbrev files : Files String KfDef
files = record {
  parse_scheme = λ _. ok "";
  is_request_uri = λ _. false;
  temp_dir = λ w. (ok "/tmp", w);
  get_file = λ _ _ w. (ok tt, w);
  copy_file = λ _ _ w. (ok tt, w);
  read_file = λ _ w. (ok w, w);
  write_file = λ _ contents _. (ok tt, contents);
  getwd = λ w. (ok "/", w);
  path_join = join "/";
  file_dir = λ f. f;
  file_base = λ f. f;
  unmarshal = λ _. ok sourceless;
  marshal = λ d. ok d.name;
  api_version = λ d. some (version_text d.api_version);
  v1alpha1 = record { load_kf_config = λ _. err (text "old"); load_kf_def = λ _. err (text "old") };
  v1beta1 = v1beta1_loader kf_def_yaml spec_yaml;
  v1 = v1_loader kf_def_yaml spec_yaml;
}

files-IsQuiet : IsQuiet files
unfolding load_kf_def v1beta1_load_kf_def
files-IsQuiet = record {
  v1alpha1 = λ _. tt;
  v1beta1 = λ _. tt;
  v1 = λ _. tt;
  marshal = λ _. tt;
  write_file = λ _ _. record { at = λ _. tt };
}

write_config_failures_example : Ends Any IsKfError (write_config_to_file files full_config)
write_config_failures_example = write_config_failures files files-IsQuiet full_config

abbrev is_empty {ℓ} : {A : Type ℓ} → List A → Bool
is_empty [] = true
is_empty (_ ∷ _) = false

-- A KfDef that has only a name, which its text is.
abbrev named : String → KfDef
named name = record {
  api_version = "kfdef.apps.kubeflow.org/v1";
  name = name;
  namespace = "ns";
  annotations = [];
  spec = record { version = "v1"; applications = []; plugins = []; secrets = []; repos = [] };
  status = record { conditions = []; repos_cache = [] };
}

abbrev has_only_name : KfDef → Bool
has_only_name d =
    d.api_version == "kfdef.apps.kubeflow.org/v1"
    && d.namespace == "ns"
    && d.spec.version == "v1"
    && is_empty d.annotations
    && is_empty d.spec.applications
    && is_empty d.spec.plugins
    && is_empty d.spec.secrets
    && is_empty d.spec.repos
    && is_empty d.status.conditions
    && is_empty d.status.repos_cache

has_only_name_lem : (d : KfDef) → has_only_name d ≡ true → d ≡ named d.name
has_only_name_lem d h = ground arith

abbrev name_yaml : KfDefYaml String
name_yaml = record {
  marshal_obj = λ o. ok o;
  unmarshal_kf_def = λ b. ok (named b);
  marshal_kf_def = λ d. if has_only_name d then ok d.name else err (text "not a plain KfDef");
  unmarshal_obj = λ b. ok b;
}

abbrev plain_files : Files String String
plain_files = record {
  parse_scheme = λ _. ok "";
  is_request_uri = λ _. false;
  temp_dir = λ w. (ok "/tmp", w);
  get_file = λ _ _ w. (ok tt, w);
  copy_file = λ _ _ w. (ok tt, w);
  read_file = λ _ w. (ok w, w);
  write_file = λ _ contents _. (ok tt, contents);
  getwd = λ w. (ok "/", w);
  path_join = join "/";
  file_dir = λ _. "/tmp/ns/odh";
  file_base = λ _. "config.yaml";
  unmarshal = λ b. ok b;
  marshal = λ o. ok o;
  api_version = λ _. some (version_text "kfdef.apps.kubeflow.org/v1");
  v1alpha1 = record { load_kf_config = λ _. err (text "old"); load_kf_def = λ _. err (text "old") };
  v1beta1 = v1beta1_loader name_yaml spec_yaml;
  v1 = v1_loader name_yaml spec_yaml;
}

plain_files-IsTyped : IsTyped plain_files name_yaml
plain_files-IsTyped = record {
  back = λ d bytes obj m u. (obj, refl, ground (arith, has_only_name_lem d));
  version = λ d bytes obj m u. ground (arith, has_only_name_lem d);
}

plain_files-IsDurable : IsDurable plain_files
plain_files-IsDurable = record {
  read_back = λ file bytes w w' h. ground arith;
  parsed = λ o b h. ground arith;
}

config-IsLocal : IsLocal plain_files config
unfolding join
config-IsLocal = record {
  has_dir = λ e. cc;
  has_name = λ e. cc;
  named = λ e. cc;
  scheme = refl;
  dir = refl;
  base = refl;
}

load_config-write_config_example :
    (c : KfConfig) × (load_config_from_uri plain_files (filename plain_files config) "odh"
      ≡ (ok c, "odh"))
    × IsReread config c
    × (c.spec.app_dir ≡ config.spec.app_dir)
    × (c.spec.config_file_name ≡ config.spec.config_file_name)
unfolding write_config_to_file load_kf_def kf_def_of join split string_dec run
load_config-write_config_example =
    load_config-write_config plain_files name_yaml spec_yaml plain_files-IsTyped
      spec_yaml-CanMarshal plain_files-IsDurable refl refl config (inl refl) tt config-IsLocal ""
      "odh" refl
