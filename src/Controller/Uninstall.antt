-- ===== src/Controller/Uninstall.antt =====
-- pkg/controller/kfdef/kfdef_controller.go: the removal of the operator, which a labelled config map
-- asks for.
use opendatahub_operator.Prelude.{
  String, ◌<>◌, Bool, true, false, Option, none, some, List, [], ◌∷◌, ◌==◌, if◌then◌else◌, any,
  find,
}
use opendatahub_operator.Errors.{text, error_message}
use opendatahub_operator.Result.{
  Result, ok, err, panics, Action, ◌>>=◌, ◌>>◌, pure, raise, panic, attempt, modify, gets,
}
use opendatahub_operator.Apps.{kfdef}
use opendatahub_operator.Controller.{
  ApiService, Namespace, ClusterServiceVersion, Request, Cluster, Operator, lift,
  delete_config_map_label, odh_generated_namespace_label,
}
use opendatahub_operator.Controller.Watch.{is_api_not_found}

-- A value read, or the default if there is none; another error is told with a prefix.
unfoldable pub found_or : {W A : Type 0} → A → String → Result A → Action W A
found_or default prefix (ok a) = pure a
found_or default prefix (err e) =
    if is_api_not_found e then pure default else raise (text (prefix <> error_message e))
found_or default prefix (panics m) = panic m

-- An error told with a prefix.
unfoldable pub wrapped : {W A : Type 0} → String → Result A → Action W A
wrapped prefix (ok a) = pure a
wrapped prefix (err e) = raise (text (prefix <> error_message e))
wrapped prefix (panics m) = panic m

nonempty {ℓ} : {A : Type ℓ} → List A → Bool
nonempty [] = false
nonempty (_ ∷ _) = true

listed : {W : Type 0} → Result (List String) → Action W Bool
unfolding nonempty
listed (ok items) = pure (nonempty items)
listed (err e) = pure false
listed (panics m) = panic m

-- Whether the last condition of an API service has the status `False`.
last_false : List Bool → Bool
last_false [] = false
last_false (b ∷ []) = b
last_false (_ ∷ b ∷ bs) = last_false (b ∷ bs)

unfoldable pub wait_for : {W : Type 0} → List String → Action W (Unit {0})
wait_for [] = pure tt
wait_for (_ ∷ _) = raise (text "waiting for KfDef instances to be deleted")

module _ (C : Cluster) where
  config_maps : Result String → Action C.State Bool
  unfolding listed
  config_maps (ok namespace) = do
    items ← attempt (C.list_config_maps namespace delete_config_map_label "true")
    listed items
  config_maps (err e) = pure false
  config_maps (panics m) = panic m

  -- `hasDeleteConfigMap`: false where the operator's namespace or the list cannot be read.
  unfoldable pub has_delete_config_map : Action C.State Bool
  unfolding config_maps
  has_delete_config_map = do namespace ← attempt C.operator_namespace; config_maps namespace

  -- `getClusterServiceVersion`: the first that owns the KfDef resource.
  unfoldable pub get_cluster_service_version :
      String → Action C.State (Option ClusterServiceVersion)
  unfolding wrapped
  get_cluster_service_version watch_name_space = do
    client ← attempt C.new_olm_client
    wrapped "error getting operator client " client
    csvs ← C.list_cluster_service_versions watch_name_space
    pure (find (λ csv. any (λ kind. kind == kfdef) csv.owned_kinds) csvs)

  remove_found : Option ClusterServiceVersion → Action C.State (Unit {0})
  unfolding found_or
  remove_found none = pure tt
  remove_found (some csv) = do
    deleted ← attempt (C.delete_cluster_service_version csv)
    found_or tt "error deleting clusterserviceversion: " deleted

  unfoldable pub remove_csv : Action C.State (Unit {0})
  unfolding get_cluster_service_version remove_found
  remove_csv = do
    operator_namespace ← C.operator_namespace
    operator_csv ← get_cluster_service_version operator_namespace
    remove_found operator_csv

  -- The loop over the API services: those whose last condition is false are deleted.
  unfoldable pub delete_unavailable : List ApiService → Action C.State (Unit {0})
  unfolding wrapped last_false
  delete_unavailable [] = pure tt
  delete_unavailable (s ∷ services) =
      if last_false s.conditions_false
      then (do
        deleted ← attempt (C.delete_api_service s.name)
        wrapped ("error deleting apiservice " <> (s.name <> ": ")) deleted
        delete_unavailable services)
      else delete_unavailable services

  -- The loop over the generated namespaces: the active ones are deleted.
  unfoldable pub delete_generated : List Namespace → Action C.State (Unit {0})
  unfolding wrapped
  delete_generated [] = pure tt
  delete_generated (n ∷ namespaces) =
      if n.active
      then (do
        deleted ← attempt (C.delete_namespace n.name)
        wrapped ("error deleting namespace " <> (n.name <> ": ")) deleted
        modify (
            C.eventf "Normal" "NamespaceDeletionSuccessful"
              ("Namespace " <> (n.name <> " deleted as a part of uninstall.")))
        delete_generated namespaces)
      else delete_generated namespaces

  -- `operatorUninstall`
  unfoldable pub operator_uninstall : Request → Action (Operator C.State) (Unit {0})
  unfolding found_or wait_for delete_unavailable delete_generated remove_csv
  operator_uninstall request = do
    deleted ← attempt (lift (C.delete_namespace request.namespace))
    found_or tt "error deleting current namespace :" deleted
    lift (
        modify (
          C.eventf "Normal" "NamespaceDeletionSuccessful"
            ("Namespace " <> (request.namespace <> " deleted as a part of uninstall."))))
    services ← attempt (lift C.list_api_services)
    services ← found_or [] "error getting dangling apiservices : " services
    lift (delete_unavailable services)
    instances ← gets (λ o. o.kfdef_instances)
    wait_for instances
    generated ← attempt (lift (C.list_namespaces odh_generated_namespace_label "true"))
    generated ← found_or [] "error getting generated namespaces : " generated
    lift (delete_generated generated)
    lift remove_csv
