-- ===== src/Controller/Simulation.antt =====
-- A small cluster in memory, and loaders that apply and delete nothing: the code outside the
-- repository at which the theorems on the controller are tried.
use opendatahub_operator.Prelude.{
  ℕ, String, Bool, false, Option, none, some, List, [], ◌∷◌, if◌then◌else◌,
}
use opendatahub_operator.Errors.{text, api_not_found}
use opendatahub_operator.Result.{ok, err, Action}
use opendatahub_operator.Strings.{join}
use opendatahub_operator.Apps.{ResourceEnum}
use opendatahub_operator.KfConfig.{KfConfig}
use opendatahub_operator.Controller.{KfDef, Request, Cluster, finalizer}
use opendatahub_operator.Controller.Deploy.{Loaders}

-- One resource, that one client updates; whether the directory can be removed, whether a
-- deployment succeeds, and whether the config map that asks for the uninstallation is there.
pub record World : Type 0 where
  pub stored : Option KfDef
  pub locked : Bool
  pub broken : Bool
  pub uninstalling : Bool

abbrev pub world : World
world = record { stored = none; locked = false; broken = false; uninstalling = false }

abbrev pub instance_named : String → Option ℕ → KfDef
instance_named name deletion = record {
  name = name;
  namespace = "ns";
  creation_timestamp = 1;
  deletion_timestamp = deletion;
  finalizers = finalizer ∷ [];
  resource_version = 1;
  spec = "";
  status = record { conditions = []; repos_cache = [] };
}

abbrev pub request : Request
request = record { namespace = "ns"; name = "odh" }

abbrev pub nothing : Action World (Unit {0})
nothing w = (ok tt, w)

abbrev get : Request → Action World KfDef
get _ w = elim w.stored [ none ↦ (err (api_not_found "not found"), w) | some i ↦ (ok i, w) ]

abbrev update : KfDef → Action World KfDef
update i w = (ok i, record w { stored = some i })

abbrev remove_all : String → Action World (Unit {0})
remove_all _ w = if w.locked then (err (text "locked"), w) else (ok tt, w)

abbrev list_config_maps : String → String → String → Action World (List String)
list_config_maps _ _ _ w = (ok (if w.uninstalling then "odh-delete" ∷ [] else []), w)

abbrev pub cluster : Cluster
cluster = record {
  State = World;
  get = get;
  update = update;
  update_status = λ _. nothing;
  delete_kf_def = λ _. nothing;
  delete_namespace = λ _. nothing;
  list_api_services = λ w. (ok [], w);
  delete_api_service = λ _. nothing;
  list_namespaces = λ _ _ w. (ok [], w);
  list_config_maps = list_config_maps;
  operator_namespace = λ w. (ok "odh-operator", w);
  new_olm_client = nothing;
  list_cluster_service_versions = λ _ w. (ok [], w);
  delete_cluster_service_version = λ _. nothing;
  eventf = λ _ _ _ w. w;
  remove_all = remove_all;
  mkdir_all = λ _. nothing;
  write_file = λ _ _. nothing;
  new_controller = λ _. nothing;
  watch = λ _. nothing;
  start = λ w. w;
  marshal = λ i. i.name;
  path_join = join "/";
  set_list = λ xs. xs;
}

abbrev pub config : KfConfig
config = record {
  api_version = "kfdef.apps.kubeflow.org/v1";
  name = "odh";
  namespace = "ns";
  annotations = [];
  spec = record {
    app_dir = "/tmp/ns/odh";
    config_file_name = "config.yaml";
    version = "v1";
    use_basic_auth = false;
    platform = "";
    project = "";
    email = "";
    ip_name = "";
    hostname = "";
    skip_init_project = false;
    zone = "";
    delete_storage = false;
    applications = [];
    plugins = [];
    secrets = [];
    repos = [];
  };
  status = record { conditions = []; caches = [] };
}

abbrev deployment : ResourceEnum → Action World (Unit {0})
deployment _ w = if w.broken then (err (text "broken"), w) else (ok tt, w)

abbrev pub loaders : Loaders World
loaders = record {
  load_config_from_uri = λ _ w. (ok config, w);
  write_config_to_file = λ _. nothing;
  new_load_kf_app_from_uri = λ _ w. (
    ok (record {
      apply = deployment;
      delete = deployment;
      dump = deployment;
      generate = deployment;
      init = deployment;
      show = none;
    }),
    w,
  );
}
