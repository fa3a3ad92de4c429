-- ===== src/Loaders/Types.antt =====
-- pkg/apis/apps/kfdef/v1/application_types.go, and v1beta1: the types of a KfDef. Its labels and
-- cluster name, which the converters copy as they do the annotations, are left out.
use opendatahub_operator.Prelude.{ℕ, String, Bool, Option, List}
use opendatahub_operator.KfConfig.{ConditionStatus}

pub record RepoRef : Type 0 where
  pub name : String
  pub path : String

pub record NameValue : Type 0 where
  pub name : String
  pub value : String

pub record KustomizeConfig : Type 0 where
  pub repo_ref : Option RepoRef
  pub overlays : List String
  pub parameters : List NameValue

pub record Application : Type 0 where
  pub name : String
  pub kustomize_config : Option KustomizeConfig

pub record Plugin : Type 0 where
  pub name : String
  pub namespace : String
  pub kind : String
  pub spec : Option String

pub record SecretSource : Type 0 where
  pub literal_source : Option String
  pub env_source : Option String

pub record Secret : Type 0 where
  pub name : String
  pub secret_source : Option SecretSource

pub record Repo : Type 0 where
  pub name : String
  pub uri : String

pub record KfDefSpec : Type 0 where
  pub version : String
  pub applications : List Application
  pub plugins : List Plugin
  pub secrets : List Secret
  pub repos : List Repo

pub record RepoCache : Type 0 where
  pub name : String
  pub local_path : String

pub record KfDefCondition : Type 0 where
  pub type : String
  pub status : ConditionStatus
  pub last_update_time : ℕ
  pub last_transition_time : ℕ
  pub reason : String
  pub message : String

pub record KfDefStatus : Type 0 where
  pub conditions : List KfDefCondition
  pub repos_cache : List RepoCache

pub record KfDef : Type 0 where
  pub api_version : String
  pub name : String
  pub namespace : String
  pub annotations : List (String × String)
  pub spec : KfDefSpec
  pub status : KfDefStatus

-- The fields of pkg/apis/apps/plugins/gcp/v1alpha1 that the converters read.
pub record GcpPluginSpec : Type 0 where
  pub project : String
  pub email : String
  pub ip_name : String
  pub hostname : String
  pub zone : String
  pub skip_init_project : Bool
  pub delete_storage : Bool
