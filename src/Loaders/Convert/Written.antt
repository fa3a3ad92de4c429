-- ===== src/Loaders/Convert/Written.antt =====
-- pkg/kfconfig/loaders/v1.go and v1beta1.go: from the configuration to a KfDef.
use opendatahub_operator.Prelude.{none, some, map}
use opendatahub_operator.Errors.{internal_error}
use opendatahub_operator.Result.{Result, ok}
use opendatahub_operator.KfConfig
use opendatahub_operator.KfConfig.{KfConfig}
use opendatahub_operator.KfConfig.Plugins.{step}
use opendatahub_operator.Loaders.Types
use opendatahub_operator.Loaders.Types.{KfDef}
use opendatahub_operator.Loaders.Convert.{KfDefYaml}

unfoldable pub kustomize_to : KfConfig.KustomizeConfig → Types.KustomizeConfig
kustomize_to k = record {
  repo_ref = elim k.repo_ref [
    | none ↦ none
    | some r ↦ some (record { name = r.name; path = r.path })
  ];
  overlays = k.overlays;
  parameters =
      map (λ (p : KfConfig.NameValue). record { name = p.name; value = p.value }) k.parameters;
}

unfoldable pub application_to : KfConfig.Application → Types.Application
unfolding kustomize_to
application_to a = record {
  name = a.name;
  kustomize_config = elim a.kustomize_config [ none ↦ none | some k ↦ some (kustomize_to k) ];
}

unfoldable pub plugin_to : KfConfig.Plugin → Types.Plugin
plugin_to p = record { name = p.name; namespace = ""; kind = p.kind; spec = p.spec }

-- Only a source in the environment is written.
unfoldable pub secret_to : KfConfig.Secret → Types.Secret
secret_to s = record {
  name = s.name;
  secret_source = elim s.secret_source [
    | none ↦ none
    | some src ↦ some (record { literal_source = none; env_source = src.env_source })
  ];
}

abbrev pub condition_to : KfConfig.Condition → Types.KfDefCondition
condition_to c = record {
  type = c.type;
  status = c.status;
  last_update_time = c.last_update_time;
  last_transition_time = c.last_transition_time;
  reason = c.reason;
  message = c.message;
}

unfoldable pub kf_def_of : KfConfig → KfDef
unfolding application_to plugin_to secret_to
kf_def_of c = record {
  api_version = c.api_version;
  name = c.name;
  namespace = c.namespace;
  annotations = c.annotations;
  spec = record {
    version = c.spec.version;
    applications = map application_to c.spec.applications;
    plugins = map plugin_to c.spec.plugins;
    secrets = map secret_to c.spec.secrets;
    repos = map (λ (r : KfConfig.Repo). record { name = r.name; uri = r.uri }) c.spec.repos;
  };
  status = record {
    conditions = map condition_to c.status.conditions;
    repos_cache =
        map (λ (r : KfConfig.Cache). record { name = r.name; local_path = r.local_path })
          c.status.caches;
  };
}

-- `LoadKfDef`
unfoldable pub load_kf_def : {Obj : Type 0} → KfDefYaml Obj → KfConfig → Result Obj
unfolding step
load_kf_def F config =
    step internal_error "error when marshaling to KfDef: " (F.marshal_kf_def (kf_def_of config))
      λ bytes.
        step internal_error "error when unmarshaling to KfDef: " (F.unmarshal_obj bytes)
          λ out. ok out
