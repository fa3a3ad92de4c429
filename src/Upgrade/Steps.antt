-- ===== src/Upgrade/Steps.antt =====
-- pkg/kfupgrade/kfupgrade.go: the methods of `KfUpgrader`, over the building of a coordinator and a
-- client of the cluster.
use opendatahub_operator.Prelude.{String, ◌<>◌, List, [], ◌∷◌}
use opendatahub_operator.Errors.{kf_error, invalid_argument, error_message}
use opendatahub_operator.Result.{
  Result, ok, err, panics, Action, ◌>>=◌, ◌>>◌, pure, raise, panic, attempt,
}
use opendatahub_operator.Apps.{k8s}
use opendatahub_operator.KfConfig.{KfConfig}
use opendatahub_operator.Coordinator.Build.{Builder, new_load_kf_app_from_uri}

pub record KfUpgrader : Type 0 where
  pub old_kf_cfg : KfConfig
  pub new_kf_cfg : KfConfig
  pub target_path : String

-- `DeleteAllOf` for the objects of a type in a namespace that are part of kubeflow.
pub record Client (S : Type 0) : Type 0 where
  pub delete_all_of : String → String → Action S (Unit {0})

abbrev pub obsolete_kinds : List String
obsolete_kinds =
    "*v1beta1.Application" ∷ "*v1.Deployment" ∷ "*v1.StatefulSet" ∷ "*v1.ReplicaSet"
    ∷ "*v1.DaemonSet" ∷ []

deletion_told : {W : Type 0} → String → Result (Unit {0}) → Action W (Unit {0})
deletion_told kind (ok u) = pure tt
deletion_told kind (err e) =
    raise
      (kf_error invalid_argument ("couldn't delete " <> (kind <> (" Error: " <> error_message e))))
deletion_told kind (panics m) = panic m

module _ {S Obj : Type 0} (B : Builder S Obj) (C : Client S) where
  -- `DeleteResources`
  delete_resources : String → String → Action S (Unit {0})
  unfolding deletion_told
  delete_resources ns kind = do r ← attempt (C.delete_all_of ns kind); deletion_told kind r

  delete_kinds : String → List String → Action S (Unit {0})
  unfolding delete_resources
  delete_kinds ns [] = pure tt
  delete_kinds ns (kind ∷ kinds) = do delete_resources ns kind; delete_kinds ns kinds

  -- `DeleteObsoleteResources`
  delete_obsolete_resources : String → Action S (Unit {0})
  unfolding delete_kinds
  delete_obsolete_resources ns = delete_kinds ns obsolete_kinds

  -- `Generate`, `Apply` and `Dump`
  generate : KfUpgrader → Action S (Unit {0})
  generate u = do app ← new_load_kf_app_from_uri B u.target_path; app.generate k8s

  apply : KfUpgrader → Action S (Unit {0})
  unfolding delete_obsolete_resources
  apply u = do
    app ← new_load_kf_app_from_uri B u.target_path
    app.generate k8s
    delete_obsolete_resources u.old_kf_cfg.namespace
    delete_obsolete_resources "istio-system"
    app.apply k8s

  dump : KfUpgrader → Action S (Unit {0})
  dump u = do app ← new_load_kf_app_from_uri B u.target_path; app.dump k8s
