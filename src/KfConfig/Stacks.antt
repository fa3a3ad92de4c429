-- ===== src/KfConfig/Stacks.antt =====
-- pkg/kfconfig/types.go: the parameters of applications in a kustomize stack, which are kept in config
-- maps on the disk, and `SetApplicationParameter`. The file system and the YAML library are a
-- parameter.
pub mod Written
mod Tests
use opendatahub_operator.Prelude.{
  String, ◌<>◌, Bool, true, false, Option, none, some, List, [], ◌∷◌, ◌++◌, any, ◌==◌,
  if◌then◌else◌,
}
use opendatahub_operator.Errors.{Error, text, with_stack, error_message}
use opendatahub_operator.Result.{
  Result, ok, err, panics, Action, ◌>>=◌, ◌>>◌, pure, raise, panic, attempt, gets, modify,
}
use opendatahub_operator.Maps.{lookup, insert}
use opendatahub_operator.KfConfig.{KfConfig}
use opendatahub_operator.KfConfig.Parameters.{
  kf_apps_stack_name, using_stacks, legacy_set_application_parameter,
}
use opendatahub_operator.KfConfig.Caches.{Stat, directory, file, missing, unknown_stat}

-- What `ioutil.ReadFile` gives.
pub data Read (Bytes : Type 0) : Type 0 where
  contents : Bytes → Read Bytes
  no_file : Read Bytes
  unreadable : Error → Read Bytes

-- `types.Kustomization`, of which only the patches are touched, and `v1.ConfigMap`.
pub record Kustomization : Type 0 where
  pub patches_strategic_merge : List String
  pub others : String

pub record ConfigMap : Type 0 where
  pub name : String
  pub entries : List (String × String)

-- The config map is read into a value that is there.
pub record Store (W Bytes : Type 0) : Type 0 where
  pub path_join : List String → String
  pub stat : String → Action W Stat
  pub mkdir_all : String → Action W (Unit {0})
  pub read_file : String → Action W (Read Bytes)
  pub write_file : String → Bytes → Action W (Unit {0})
  pub unmarshal_kustomization : Bytes → Result Kustomization
  pub marshal_kustomization : Kustomization → Result Bytes
  pub unmarshal_config_map : Bytes → ConfigMap → Result ConfigMap
  pub marshal_config_map : ConfigMap → Result Bytes

-- `addPatchStratgicMerge`: none where the patch is there already.
unfoldable pub add_patch_strategic_merge : Kustomization → String → Option Kustomization
add_patch_strategic_merge k patch_file =
    if any (λ p. p == patch_file) k.patches_strategic_merge
    then none
    else some (record k { patches_strategic_merge = k.patches_strategic_merge ++ patch_file ∷ [] })

-- An error wrapped with a message, and with a stack.
wrapped : {W A : Type 0} → String → Result A → Action W A
wrapped message (ok a) = pure a
wrapped message (err e) = raise (with_stack (text (message <> (": " <> error_message e))))
wrapped message (panics m) = panic m

-- The directory of the stack that an application belongs to.
unfoldable pub app_to_stack : List (String × String)
app_to_stack =
    ("centraldashboard", kf_apps_stack_name)
    ∷ ("cloud-endpoints", "cloud-endpoints")
    ∷ ("default-install", kf_apps_stack_name)
    ∷ ("istio-stack", "istio-stack")
    ∷ ("iap-ingress", "iap-ingress")
    ∷ ("jupyter-web-app", kf_apps_stack_name)
    ∷ ("metacontroller", "metacontroller")
    ∷ ("profiles", kf_apps_stack_name)
    ∷ ("dex", "dex")
    ∷ ("spartakus", "spartakus")
    ∷ ("aws-alb-ingress-controller", kf_apps_stack_name)
    ∷ ("istio-ingress", "istio-ingress")
    ∷ []

abbrev pub empty_map : String → ConfigMap
empty_map app_name = record { name = app_name <> "-config"; entries = [] }

in_config : {W : Type 0} → Result KfConfig → Action W KfConfig
in_config (ok c) = pure c
in_config (err e) = raise e
in_config (panics m) = panic m

module _ {W Bytes : Type 0} (S : Store W Bytes) where
  made_dir : String → Stat → Action W (Unit {0})
  unfolding wrapped
  made_dir dir missing = do
    r ← attempt (S.mkdir_all dir)
    wrapped ("Could not create directory: " <> dir) r
  made_dir dir (unknown_stat e) = raise (with_stack e)
  made_dir dir _ = pure tt

  kustomization_of : String → Read Bytes → Action W Kustomization
  unfolding wrapped
  kustomization_of path (contents s) =
      wrapped ("Failed to unmashal kustomization.yaml: " <> path) (S.unmarshal_kustomization s)
  kustomization_of path no_file = pure (record { patches_strategic_merge = []; others = "" })
  kustomization_of path (unreadable e) = wrapped ("Failed to read: " <> path) (err e)

  save_kustomization : String → String → Option Kustomization → Action W (Unit {0})
  unfolding wrapped
  save_kustomization path app_name none = pure tt
  save_kustomization path app_name (some k) = do
    yaml ←
        wrapped ("Error trying to marshal kustomization for kubeflow application: " <> app_name)
          (S.marshal_kustomization k)
    r ← attempt (S.write_file path yaml)
    wrapped ("Error writing file: " <> path) r

  config_map_of : String → String → Read Bytes → Action W ConfigMap
  unfolding wrapped
  config_map_of path app_name (contents s) =
      wrapped ("Error reading configmap from file: " <> path)
        (S.unmarshal_config_map s (empty_map app_name))
  config_map_of path app_name no_file = pure (empty_map app_name)
  config_map_of path app_name (unreadable e) =
      wrapped ("Error trying to read file: " <> path) (err e)

  -- The config map with the parameter.
  patch_config_map : String → String → String → String → Action W (Unit {0})
  unfolding config_map_of wrapped
  patch_config_map path app_name param_name value = do
    r ← S.read_file path
    c ← config_map_of path app_name r
    bytes ←
        wrapped ("Error while marshaling patch for configMap " <> path)
          (S.marshal_config_map (record c { entries = insert param_name value c.entries }))
    w ← attempt (S.write_file path bytes)
    wrapped ("Error while writing patch file: " <> path) w

  abbrev pub kustomization_file : String → String
  kustomization_file dir = S.path_join (dir ∷ "kustomization.yaml" ∷ [])

  abbrev pub config_map_path : String → String → String
  config_map_path dir app_name = S.path_join (dir ∷ (app_name <> "-config.yaml") ∷ [])

  -- `setApplicationParameterInConfigMap`
  unfoldable pub set_application_parameter_in_config_map :
      String → String → String → String → Action W (Unit {0})
  unfolding made_dir kustomization_of save_kustomization patch_config_map add_patch_strategic_merge
  set_application_parameter_in_config_map kustomize_dir app_name param_name value = do
    s ← S.stat kustomize_dir
    made_dir kustomize_dir s
    r ← S.read_file (kustomization_file kustomize_dir)
    k ← kustomization_of (kustomization_file kustomize_dir) r
    save_kustomization (kustomization_file kustomize_dir) app_name
        (add_patch_strategic_merge k (app_name <> "-config.yaml"))
    patch_config_map (config_map_path kustomize_dir app_name) app_name param_name value

  unfoldable pub stack_dir : KfConfig → String → String
  unfolding app_to_stack
  stack_dir c app_name = S.path_join (
      c.spec.app_dir
      ∷ "kustomize"
      ∷ (elim (lookup app_name app_to_stack) [ some dir ↦ dir | none ↦ app_name ])
      ∷ [])

  -- `SetApplicationParameter`
  unfoldable pub set_application_parameter : KfConfig → String → String → String → Action W KfConfig
  unfolding in_config stack_dir set_application_parameter_in_config_map
  set_application_parameter c app_name param_name value =
      if using_stacks c
      then (do
        set_application_parameter_in_config_map (stack_dir c app_name) app_name param_name value
        pure c)
      else in_config (legacy_set_application_parameter c app_name param_name value)
