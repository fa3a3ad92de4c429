-- ===== src/Loaders/Convert.antt =====
-- pkg/kfconfig/loaders/v1.go, v1beta1.go and utils.go: from a KfDef to the configuration.
pub mod Written
pub mod PluginLoop
pub mod RoundTrip
use opendatahub_operator.Prelude.{
  ℕ, String, ◌<>◌, Bool, true, false, Option, none, some, List, [], ◌∷◌, ◌++◌, map, any, ◌==◌,
  if◌then◌else◌,
}
use opendatahub_operator.Errors.{Error, internal_error}
use opendatahub_operator.Result.{Result, ok, err, panics}
use opendatahub_operator.Apps.{gcp, aws, existing_arrikto}
use opendatahub_operator.KfConfig
use opendatahub_operator.KfConfig.{KfConfig, KfConfigSpec}
use opendatahub_operator.KfConfig.Plugins.{step}
use opendatahub_operator.Loaders.Types
use opendatahub_operator.Loaders.Types.{KfDef, GcpPluginSpec}
use opendatahub_operator.Loaders.Accessors.{SpecYaml, get_plugin_spec}

abbrev pub aws_plugin_kind : String
aws_plugin_kind = "KfAwsPlugin"

abbrev pub gcp_plugin_kind : String
gcp_plugin_kind = "KfGcpPlugin"

abbrev pub existing_arrikto_plugin_kind : String
existing_arrikto_plugin_kind = "KfExistingArriktoPlugin"

-- `maybeGetPlatform`
unfoldable pub maybe_get_platform : String → String
maybe_get_platform plugin_kind =
    if plugin_kind == aws_plugin_kind
    then aws
    else if plugin_kind == gcp_plugin_kind
    then gcp
    else if plugin_kind == existing_arrikto_plugin_kind
    then existing_arrikto
    else ""

-- The YAML library at a KfDef, and at the untyped values that the loaders pass on.
pub record KfDefYaml (Obj : Type 0) : Type 0 where
  pub marshal_obj : Obj → Result String
  pub unmarshal_kf_def : String → Result KfDef
  pub marshal_kf_def : KfDef → Result String
  pub unmarshal_obj : String → Result Obj

-- From the KfDef to the configuration.
kustomize_of : Types.KustomizeConfig → KfConfig.KustomizeConfig
kustomize_of k = record {
  repo_ref = elim k.repo_ref [
    | none ↦ none
    | some r ↦ some (record { name = r.name; path = r.path })
  ];
  overlays = k.overlays;
  parameters =
      map (λ (p : Types.NameValue). record { name = p.name; value = p.value }) k.parameters;
}

application_of : Types.Application → KfConfig.Application
unfolding kustomize_of
application_of a = record {
  name = a.name;
  kustomize_config = elim a.kustomize_config [ none ↦ none | some k ↦ some (kustomize_of k) ];
}

-- An application of this path says that basic authentication is used.
is_basic_auth : Types.Application → Bool
is_basic_auth a = elim a.kustomize_config [
  | none ↦ false
  | some k ↦ elim k.repo_ref [ none ↦ false | some r ↦ r.path == "common/basic-auth" ]
]

pub plugin_of : KfDef → Types.Plugin → KfConfig.Plugin
plugin_of d p = record { name = p.name; namespace = d.namespace; kind = p.kind; spec = p.spec }

with_gcp : KfConfigSpec → GcpPluginSpec → KfConfigSpec
with_gcp s g = record s {
  project = g.project;
  email = g.email;
  ip_name = g.ip_name;
  hostname = g.hostname;
  skip_init_project = g.skip_init_project;
  zone = g.zone;
  delete_storage = g.delete_storage;
}

with_platform : String → KfConfigSpec → KfConfigSpec
with_platform p s = if p == "" then s else record s { platform = p }

module _ (Y : SpecYaml GcpPluginSpec) (d : KfDef) where
  load_gcp : Types.Plugin → KfConfigSpec → Result KfConfigSpec
  unfolding step with_gcp
  load_gcp p s =
      if p.kind == gcp_plugin_kind
      then step internal_error "could not retrieve GCP plugin spec: " (get_plugin_spec Y d p.kind)
          (λ g. ok (with_gcp s g))
      else ok s

  -- The rest of the loop, once the specification of a plugin has been read.
  next_plugin :
      Types.Plugin
      → (KfConfigSpec → Result KfConfigSpec)
      → Result KfConfigSpec
      → Result KfConfigSpec
  unfolding with_platform
  next_plugin p rest (ok s) = rest (with_platform (maybe_get_platform p.kind) s)
  next_plugin p rest (err e) = err e
  next_plugin p rest (panics m) = panics m

  pub load_plugins : List Types.Plugin → KfConfigSpec → Result KfConfigSpec
  unfolding load_gcp next_plugin plugin_of
  load_plugins [] s = ok s
  load_plugins (p ∷ ps) s =
      next_plugin p (load_plugins ps)
        (load_gcp p (record s { plugins = s.plugins ++ plugin_of d p ∷ [] }))

-- The pointer to the source is followed unchecked.
secret_of : Types.Secret → Result KfConfig.Secret
secret_of s = elim s.secret_source [
  | none ↦ panics "nil pointer dereference"
  | some src ↦ ok (record {
    name = s.name;
    secret_source = some (record {
      literal_source = src.literal_source;
      hashed_source = none;
      env_source = src.env_source;
    });
  })
]

and_then : {A B : Type 0} → Result A → (A → Result B) → Result B
and_then (ok a) f = f a
and_then (err e) f = err e
and_then (panics m) f = panics m

load_secrets : List Types.Secret → Result (List KfConfig.Secret)
unfolding and_then secret_of
load_secrets [] = ok []
load_secrets (s ∷ secrets) =
    and_then (secret_of s) λ s'. and_then (load_secrets secrets) λ secrets'. ok (s' ∷ secrets')

abbrev condition_of : Types.KfDefCondition → KfConfig.Condition
condition_of c = record {
  type = c.type;
  status = c.status;
  last_update_time = c.last_update_time;
  last_transition_time = c.last_transition_time;
  reason = c.reason;
  message = c.message;
}

-- The specification before the plugins and the secrets.
abbrev spec_before : KfDef → KfConfigSpec
spec_before d = record {
  app_dir = "";
  config_file_name = "";
  version = d.spec.version;
  use_basic_auth = any is_basic_auth d.spec.applications;
  platform = "";
  project = "";
  email = "";
  ip_name = "";
  hostname = "";
  skip_init_project = false;
  zone = "";
  delete_storage = false;
  applications = map application_of d.spec.applications;
  plugins = [];
  secrets = [];
  repos = map (λ (r : Types.Repo). record { name = r.name; uri = r.uri }) d.spec.repos;
}

abbrev config_with : KfDef → KfConfigSpec → List KfConfig.Secret → KfConfig
config_with d s secrets = record {
  api_version = d.api_version;
  name = d.name;
  namespace = d.namespace;
  annotations = d.annotations;
  spec = record s { secrets = secrets };
  status = record {
    conditions = map condition_of d.status.conditions;
    caches =
        map (λ (c : Types.RepoCache). record { name = c.name; local_path = c.local_path })
          d.status.repos_cache;
  };
}

unfoldable pub config_of : SpecYaml GcpPluginSpec → KfDef → Result KfConfig
unfolding load_plugins load_secrets is_basic_auth application_of and_then
config_of Y d =
    and_then (load_plugins Y d d.spec.plugins (spec_before d))
      λ s. and_then (load_secrets d.spec.secrets) λ secrets. ok (config_with d s secrets)

-- `LoadKfConfig`
unfoldable pub load_kf_config :
    {Obj : Type 0} → KfDefYaml Obj → SpecYaml GcpPluginSpec → Obj → Result KfConfig
unfolding step
load_kf_config F Y def =
    step internal_error "could not marshal kfdef into bytes: " (F.marshal_obj def) λ bytes.
      step internal_error "could not unpack kfdef: " (F.unmarshal_kf_def bytes) λ d. config_of Y d
