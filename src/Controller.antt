-- ===== src/Controller.antt =====
-- pkg/controller/kfdef: the state of the KfDef controller, and what it uses of the cluster, of the
-- file system and of the libraries.
pub mod Predicates
pub mod Watch
pub mod Status
pub mod Deploy
pub mod Uninstall
pub mod Reconcile
pub mod Simulation
mod Tests
use opendatahub_operator.Prelude.{
  ℕ, String, Bool, true, false, Option, none, some, List, [], ◌∷◌, any, ◌==◌, not, if◌then◌else◌,
}
use opendatahub_operator.Errors.{Error}
use opendatahub_operator.Result.{Result, Action, ok, err, panics}
use opendatahub_operator.Strings.{join}

abbrev pub finalizer : String
finalizer = "kfdef-finalizer.kfdef.apps.kubeflow.org"

abbrev pub finalizer_max_retries : ℕ
finalizer_max_retries = 10

abbrev pub delete_config_map_label : String
delete_config_map_label = "api.openshift.com/addon-managed-odh-delete"

abbrev pub odh_generated_namespace_label : String
odh_generated_namespace_label = "opendatahub.io/generated-namespace"

pub data ConditionType : Type 0 where
  kf_available kf_degraded : ConditionType

pub record KfDefCondition : Type 0 where
  pub type : ConditionType
  pub status : String
  pub last_update_time : ℕ
  pub last_transition_time : ℕ
  pub reason : String
  pub message : String

pub record RepoCache : Type 0 where
  pub name : String
  pub local_path : String

pub record KfDefStatus : Type 0 where
  pub conditions : List KfDefCondition
  pub repos_cache : List RepoCache

-- A KfDef resource. The controller hands its spec on unread, so it is a text.
pub record KfDef : Type 0 where
  pub name : String
  pub namespace : String
  pub creation_timestamp : ℕ
  pub deletion_timestamp : Option ℕ
  pub finalizers : List String
  pub resource_version : ℕ
  pub spec : String
  pub status : KfDefStatus

pub record Request : Type 0 where
  pub namespace : String
  pub name : String

-- `reconcile.Result`; where an error is returned beside it, it is empty.
pub record Requeue : Type 0 where
  pub requeue : Bool

-- An API service, with whether each of its conditions has the status `False`.
pub record ApiService : Type 0 where
  pub name : String
  pub conditions_false : List Bool

pub record Namespace : Type 0 where
  pub name : String
  pub active : Bool

-- A cluster service version, with the kinds of the resource definitions that it owns.
pub record ClusterServiceVersion : Type 0 where
  pub name : String
  pub owned_kinds : List String

pub record GroupVersionKind : Type 0 where
  pub group : String
  pub version : String
  pub kind : String

-- What the controller calls and does not implement: the API server's client, the event recorder, the
-- file system, and the list of a `sets.String`. `State` is all that they can change.
pub record Cluster : Type 1 where
  pub State : Type 0
  pub get : Request → Action State KfDef
  -- On success the object comes back as the server stored it.
  pub update : KfDef → Action State KfDef
  pub update_status : KfDef → Action State (Unit {0})
  pub delete_kf_def : Request → Action State (Unit {0})
  pub delete_namespace : String → Action State (Unit {0})
  pub list_api_services : Action State (List ApiService)
  pub delete_api_service : String → Action State (Unit {0})
  pub list_namespaces : String → String → Action State (List Namespace)
  pub list_config_maps : String → String → String → Action State (List String)
  pub operator_namespace : Action State String
  pub new_olm_client : Action State (Unit {0})
  pub list_cluster_service_versions : String → Action State (List ClusterServiceVersion)
  pub delete_cluster_service_version : ClusterServiceVersion → Action State (Unit {0})
  pub eventf : String → String → String → State → State
  pub remove_all : String → Action State (Unit {0})
  pub mkdir_all : String → Action State (Unit {0})
  pub write_file : String → String → Action State (Unit {0})
  pub new_controller : String → Action State (Unit {0})
  pub watch : GroupVersionKind → Action State (Unit {0})
  pub start : State → State
  -- `yaml.Marshal` of a KfDef
  pub marshal : KfDef → String
  -- `path.Join`
  pub path_join : List String → String
  -- `sets.NewString(xs...).List()`: the items in order, each once.
  pub set_list : List String → List String

-- A Go channel that is only ever closed.
pub data Channel : Type 0 where
  nil_channel open_channel closed_channel : Channel

-- The variables of the package, beside the cluster: the keys of `kfdefInstances` in the order in
-- which `range` gives them, `b2ndController` and `stop`.
pub record Operator (S : Type 0) : Type 0 where
  pub cluster : S
  pub kfdef_instances : List String
  pub b2nd_controller : Bool
  pub stop : Channel

-- A call of the cluster's client leaves the package's variables alone.
unfoldable pub lift : {S A : Type 0} → Action S A → Action (Operator S) A
lift m o = let (r, s) = m o.cluster in (r, record o { cluster = s })

-- `sets.String`: a set is given by the items put into it.
unfoldable pub has : String → List String → Bool
has x = any (λ y. y == x)

unfoldable pub delete : String → List String → List String
delete x [] = []
delete x (y ∷ ys) = let rest = delete x ys in if y == x then rest else y ∷ rest

-- The key of a KfDef in `kfdefInstances`.
unfoldable pub instance_key : KfDef → String
instance_key i = join "." (i.name ∷ i.namespace ∷ [])
