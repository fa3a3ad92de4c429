-- ===== src/KfConfig.antt =====
-- pkg/kfconfig/types.go: the internal configuration that all versions of a KfDef are loaded into.
-- A nil slice and an empty one behave alike in this code, so both are the empty list; a pointer is an
-- `Option`. Times are numbers.
pub mod Conditions
pub mod Parameters
pub mod Applications
pub mod Secrets
pub mod Plugins
pub mod Caches
pub mod Stacks
mod Tests
use opendatahub_operator.Prelude.{ℕ, String, Bool, Option, List}

pub record NameValue : Type 0 where
  pub name : String
  pub value : String

pub record RepoRef : Type 0 where
  pub name : String
  pub path : String

pub record KustomizeConfig : Type 0 where
  pub repo_ref : Option RepoRef
  pub overlays : List String
  pub parameters : List NameValue

pub record Application : Type 0 where
  pub name : String
  pub kustomize_config : Option KustomizeConfig

-- The three sources are pointers of one struct: any of them may be set.
pub record SecretSource : Type 0 where
  pub literal_source : Option String
  pub hashed_source : Option String
  pub env_source : Option String

pub record Secret : Type 0 where
  pub name : String
  pub secret_source : Option SecretSource

pub record Repo : Type 0 where
  pub name : String
  pub uri : String

-- `spec` is the raw text of a `runtime.RawExtension`.
pub record Plugin : Type 0 where
  pub name : String
  pub namespace : String
  pub kind : String
  pub spec : Option String

pub data ConditionStatus : Type 0 where
  condition_true condition_false condition_unknown : ConditionStatus

pub record Condition : Type 0 where
  pub type : String
  pub status : ConditionStatus
  pub last_update_time : ℕ
  pub last_transition_time : ℕ
  pub reason : String
  pub message : String

pub record Cache : Type 0 where
  pub name : String
  pub local_path : String

pub record Status : Type 0 where
  pub conditions : List Condition
  pub caches : List Cache

pub record KfConfigSpec : Type 0 where
  pub app_dir : String
  pub config_file_name : String
  pub version : String
  pub use_basic_auth : Bool
  pub platform : String
  pub project : String
  pub email : String
  pub ip_name : String
  pub hostname : String
  pub skip_init_project : Bool
  pub zone : String
  pub delete_storage : Bool
  pub applications : List Application
  pub plugins : List Plugin
  pub secrets : List Secret
  pub repos : List Repo

pub record KfConfig : Type 0 where
  pub api_version : String
  pub name : String
  pub namespace : String
  pub annotations : List (String × String)
  pub spec : KfConfigSpec
  pub status : Status
