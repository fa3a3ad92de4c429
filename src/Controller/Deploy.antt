-- ===== src/Controller/Deploy.antt =====
-- pkg/controller/kfdef/kfdef_controller.go: `kfApply`, `kfDelete`, `kfLoadConfig`, `setAnnotations`.
use opendatahub_operator.Prelude.{String, [], ◌∷◌}
use opendatahub_operator.Result.{Action, ◌>>=◌, ◌>>◌, pure, attempt}
use opendatahub_operator.Maps.{insert}
use opendatahub_operator.Apps.{KfApp, k8s}
use opendatahub_operator.KfConfig.{KfConfig}
use opendatahub_operator.Loaders.Files
use opendatahub_operator.Coordinator.Build.{Builder, new_load_kf_app_from_uri}
use opendatahub_operator.Controller.{KfDef, Cluster}

-- What the controller uses of pkg/kfconfig/loaders and pkg/kfapp/coordinator.
pub record Loaders (S : Type 0) : Type 0 where
  pub load_config_from_uri : String → Action S KfConfig
  pub write_config_to_file : KfConfig → Action S (Unit {0})
  pub new_load_kf_app_from_uri : String → Action S (KfApp S)

-- The loaders and the coordinator as they are.
unfoldable pub loaders_of : {S Obj : Type 0} → Builder S Obj → Loaders S
loaders_of B = record {
  load_config_from_uri = Files.load_config_from_uri B.files;
  write_config_to_file = Files.write_config_to_file B.files;
  new_load_kf_app_from_uri = new_load_kf_app_from_uri B;
}

pub data DeployAction : Type 0 where
  apply_action delete_action : DeployAction

unfoldable pub app_dir : Cluster → KfDef → String
app_dir C instance = C.path_join ("/tmp" ∷ instance.namespace ∷ instance.name ∷ [])

module _ (C : Cluster) (L : Loaders C.State) where
  -- `setAnnotations`, called with one annotation.
  set_annotations : String → String → String → Action C.State (Unit {0})
  set_annotations config_path ann value = do
    config ← L.load_config_from_uri config_path
    L.write_config_to_file (record config { annotations = insert ann value config.annotations })

  -- Errors of `setAnnotations` are not looked at.
  annotate : DeployAction → String → Action C.State (Unit {0})
  unfolding set_annotations
  annotate apply_action path = do
    _ ← attempt (set_annotations path "kfctl.kubeflow.io/set-kubeflow-annotation" "true")
    pure tt
  annotate delete_action path = do
    _ ← attempt (set_annotations path "kfctl.kubeflow.io/force-delete" "true")
    _ ← attempt (set_annotations path "kfctl.kubeflow.io/install-by-operator" "true")
    pure tt

  unfoldable pub kf_load_config : KfDef → DeployAction → Action C.State (KfApp C.State)
  unfolding annotate app_dir
  kf_load_config instance action = do
    C.mkdir_all (app_dir C instance)
    let config_file_path = C.path_join (app_dir C instance ∷ "config.yaml" ∷ [])
    C.write_file config_file_path (C.marshal instance)
    annotate action config_file_path
    L.new_load_kf_app_from_uri config_file_path

  unfoldable pub kf_apply : KfDef → Action C.State (Unit {0})
  unfolding kf_load_config
  kf_apply instance = do kf_app ← kf_load_config instance apply_action; kf_app.apply k8s

  unfoldable pub kf_delete : KfDef → Action C.State (Unit {0})
  unfolding kf_load_config
  kf_delete instance = do kf_app ← kf_load_config instance delete_action; kf_app.delete k8s
