-- ===== src/Coordinator.antt =====
-- pkg/kfapp/coordinator/coordinator.go: the coordinator, a `KfApp` that passes each call on to the
-- platform of the configuration and to the package managers.
pub mod Tame
pub mod Failures
pub mod Log
pub mod Plans
pub mod Order
pub mod Deletion
pub mod Build
mod Tests
use opendatahub_operator.Prelude.{
  String, ◌<>◌, Bool, true, false, Option, none, some, List, [], ◌∷◌, ◌==◌, ◌||◌, not,
  if◌then◌else◌,
}
use opendatahub_operator.Errors.{Error, kf_error, internal_error, error_message}
use opendatahub_operator.Result.{
  Result, ok, err, panics, Action, ◌>>=◌, ◌>>◌, pure, raise, panic, attempt, gets,
}
use opendatahub_operator.Maps.{lookup}
use opendatahub_operator.Apps.{
  ResourceEnum, all, k8s, platform, other_resource, KfApp, kf_config_file, gcp,
}
use opendatahub_operator.KfConfig.{KfConfig}

-- What the coordinator uses beside its platforms and package managers. Its field `KfDef` points to the
-- configuration that the platforms share and may change, so it is read from the world. The platform
-- under the name "gcp" is a `*gcp.Gcp`, as `getPlatform` makes it; two more of its methods are called.
pub record Env (S : Type 0) : Type 0 where
  pub kf_def : S → KfConfig
  pub sync_cache : Action S (Unit {0})
  pub write_config_to_file : KfConfig → Action S (Unit {0})
  pub setup_workload_identity_permission : Action S (Unit {0})
  pub config_pod_default : Action S (Unit {0})

-- Go's maps, in the order of a `range`.
pub record Coordinator (S : Type 0) : Type 0 where
  pub platforms : List (String × KfApp S)
  pub package_managers : List (String × KfApp S)

-- A result whose error is told as an internal error under a prefix.
pub told : {W : Type 0} → String → Result (Unit {0}) → Action W (Unit {0})
told prefix (ok _) = pure tt
told prefix (err e) = raise (kf_error internal_error (prefix <> error_message e))
told prefix (panics m) = panic m

-- The error of `WriteConfigToFile` is taken for a `*KfError` unchecked.
pub written : {W : Type 0} → String → Result (Unit {0}) → Action W (Unit {0})
written verb (ok _) = pure tt
written verb (err (kf_error code message)) = raise (
    kf_error code
      ("cannot " <> (verb <> (" config file " <> (kf_config_file <> (": " <> message))))))
written verb (err _) = panic "interface conversion: error is not *apis.KfError"
written verb (panics m) = panic m

-- One call of each package manager, until one fails.
pub managers :
    {S : Type 0}
    → String
    → (KfApp S → Action S (Unit {0}))
    → List (String × KfApp S)
    → Action S (Unit {0})
unfolding told
managers verb method [] = pure tt
managers verb method ((name, manager) ∷ rest) = do
  r ← attempt (method manager)
  told ("kfApp " <> (verb <> (" failed for " <> (name <> ": ")))) r
  managers verb method rest

-- `GetPlugin`
unfoldable pub get_plugin : {S : Type 0} → Coordinator S → String → Option (KfApp S)
get_plugin c name = elim (lookup name c.platforms) [
  | some p ↦ some p
  | none ↦ lookup name c.package_managers
]

module _ {S : Type 0} (E : Env S) (c : Coordinator S) where
  platform_name : Action S String
  platform_name = gets (λ s. (E.kf_def s).spec.platform)

  -- The name in the message is read after the call.
  pub platform_told : String → Result (Unit {0}) → Action S (Unit {0})
  unfolding platform_name told
  platform_told verb r = do
    name ← platform_name
    told ("coordinator " <> (verb <> (" failed for " <> (name <> ": ")))) r

  pub not_in_platforms : Action S (Unit {0})
  unfolding platform_name
  not_in_platforms = do
    name ← platform_name
    raise (kf_error internal_error (name <> " not in Platforms"))

  pub save : String → Action S (Unit {0})
  unfolding written
  save verb = do config ← gets E.kf_def; r ← attempt (E.write_config_to_file config); written verb r

  pub call_platform :
      String
      → (KfApp S → Action S (Unit {0}))
      → Action S (Unit {0})
      → Option (KfApp S)
      → Action S (Unit {0})
  unfolding platform_told not_in_platforms
  call_platform verb method after none = not_in_platforms
  call_platform verb method after (some p) = do r ← attempt (method p); platform_told verb r; after

  -- The closure `platform` of each method: nothing is done where the configuration names none.
  pub on_platform :
      String → (KfApp S → Action S (Unit {0})) → Action S (Unit {0}) → Action S (Unit {0})
  unfolding platform_name call_platform
  on_platform verb method after = do
    name ← platform_name
    if name == "" then pure tt else call_platform verb method after (lookup name c.platforms)

  pub sync : Action S (Unit {0})
  unfolding told
  sync = do r ← attempt E.sync_cache; told "could not sync cache. Error: " r

  gcp_config : Option (KfApp S) → Action S (Unit {0})
  gcp_config none = raise (kf_error internal_error "Platform GCP specified but not loaded.")
  gcp_config (some _) = do E.setup_workload_identity_permission; E.config_pod_default

  gcp_added_config : Action S (Unit {0})
  unfolding gcp_config
  gcp_added_config = do
    config ← gets E.kf_def
    if config.spec.email == "" || not (config.spec.platform == gcp)
        then pure tt
        else gcp_config (lookup config.spec.platform c.platforms)

  apply_platform : ResourceEnum → Action S (Unit {0})
  unfolding on_platform
  apply_platform resources = on_platform "Apply" (λ p. p.apply resources) (pure tt)

  apply_k8s : Action S (Unit {0})
  unfolding managers save
  apply_k8s = do managers "Apply" (λ m. m.apply k8s) c.package_managers; save "update"

  apply_resources : ResourceEnum → Action S (Unit {0})
  unfolding apply_platform apply_k8s gcp_added_config
  apply_resources all = do apply_platform all; apply_k8s; gcp_added_config
  apply_resources platform = apply_platform platform
  apply_resources k8s = do apply_k8s; gcp_added_config
  apply_resources (other_resource _) = pure tt

  -- `Apply`
  unfoldable pub apply : ResourceEnum → Action S (Unit {0})
  unfolding sync apply_resources
  apply resources = do sync; apply_resources resources

  delete_platform : ResourceEnum → Action S (Unit {0})
  unfolding on_platform
  delete_platform resources = on_platform "Delete" (λ p. p.delete resources) (pure tt)

  delete_k8s : Action S (Unit {0})
  unfolding managers
  delete_k8s = managers "Delete" (λ m. m.delete k8s) c.package_managers

  -- On `PLATFORM` the error of the package managers is dropped.
  delete_resources : ResourceEnum → Action S (Unit {0})
  unfolding delete_platform delete_k8s
  delete_resources all = do delete_k8s; delete_platform all
  delete_resources platform = do _ ← attempt delete_k8s; delete_platform platform
  delete_resources k8s = delete_k8s
  delete_resources (other_resource _) = pure tt

  -- `Delete`
  unfoldable pub delete : ResourceEnum → Action S (Unit {0})
  unfolding sync delete_resources
  delete resources = do sync; delete_resources resources

  -- The same switch in `Generate` and `Init`: the platform before the package managers.
  pub both : ResourceEnum → Action S (Unit {0}) → Action S (Unit {0}) → Action S (Unit {0})
  both all p k = do p; k
  both platform p k = p
  both k8s p k = k
  both (other_resource _) p k = pure tt

  generate_platform : ResourceEnum → Action S (Unit {0})
  unfolding on_platform save
  generate_platform resources = on_platform "Generate" (λ p. p.generate resources) (save "create")

  generate_k8s : Action S (Unit {0})
  unfolding managers
  generate_k8s = managers "Generate" (λ m. m.generate k8s) c.package_managers

  -- `Generate`
  unfoldable pub generate : ResourceEnum → Action S (Unit {0})
  unfolding sync both generate_platform generate_k8s
  generate resources = do sync; both resources (generate_platform resources) generate_k8s

  init_platform : ResourceEnum → Action S (Unit {0})
  unfolding on_platform save
  init_platform resources = on_platform "Init" (λ p. p.init resources) (save "create")

  init_k8s : Action S (Unit {0})
  unfolding managers
  init_k8s = managers "Init" (λ m. m.init k8s) c.package_managers

  -- `Init`
  unfoldable pub init : ResourceEnum → Action S (Unit {0})
  unfolding both init_platform init_k8s
  init resources = both resources (init_platform resources) init_k8s

  -- `Dump`; its message says "Apply" in the source too.
  unfoldable pub dump : ResourceEnum → Action S (Unit {0})
  unfolding managers
  dump resources = managers "Apply" (λ m. m.dump k8s) c.package_managers

  pub show_of : Option (KfApp S) → Option (ResourceEnum → Action S (Unit {0}))
  show_of none = none
  show_of (some p) = p.show

  pub no_show : Action S (Unit {0})
  unfolding platform_name
  no_show = do
    name ← platform_name
    raise (
        kf_error internal_error
          ("coordinator Show failed for " <> (name <> ": Not support 'Show'")))

  pub show_platform :
      ResourceEnum → Option (ResourceEnum → Action S (Unit {0})) → Action S (Unit {0})
  unfolding platform_told no_show
  show_platform resources none = no_show
  show_platform resources (some show) = do r ← attempt (show resources); platform_told "Show" r

  pub show_manager : Option (ResourceEnum → Action S (Unit {0})) → Action S (Unit {0})
  show_manager none = pure tt
  show_manager (some show) = show k8s

  show_all : ResourceEnum → Action S (Unit {0})
  unfolding platform_name not_in_platforms show_platform show_of show_manager managers
  show_all resources = do
    name ← platform_name
    if name == "" then not_in_platforms else (do
      show_platform resources (show_of (lookup name c.platforms))
      managers "Show" (λ m. show_manager m.show) c.package_managers)

  -- `Show`
  unfoldable pub show : ResourceEnum → Action S (Unit {0})
  unfolding show_all
  show (other_resource _) = pure tt
  show resources = show_all resources
