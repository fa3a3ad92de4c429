-- ===== src/Coordinator/Order.antt =====
-- The calls that each method of the coordinator makes, and their order.
use opendatahub_operator.Prelude.{
  String, not, ◌||◌, ◌==◌, if◌then◌else◌, Option, none, some, List, [], ◌∷◌, ◌++◌,
}
use opendatahub_operator.Result.{Action, pure, run}
use opendatahub_operator.Maps.{lookup}
use opendatahub_operator.Apps.{ResourceEnum, all, k8s, platform, other_resource, KfApp, gcp}
use opendatahub_operator.Coordinator.{
  Env, Coordinator, gcp_config, gcp_added_config, apply_platform, apply_k8s, apply_resources, apply,
  both, generate_platform, generate_k8s, generate, init_platform, init_k8s, init,
}
use opendatahub_operator.Coordinator.Log.{
  Method, apply_method, generate_method, init_method, Call, sync_call, save_call, permission_call,
  pod_default_call, Logs, Logs-bind, Logs-pure, Logs-raise, Logs-same, Logs-call, Logs-if,
}
use opendatahub_operator.Coordinator.Plans.{
  name_of, email_of, IsLogged, manager_calls, if_loaded, platform_calls, gcp_calls, resource_calls,
  apply_calls, both_calls, Plan, save-Plan, managers-Plan, sync-Plan, on_platform-Plan,
}

module _ {S : Type 0} (E : Env S) (c : Coordinator S) (log : S → List Call) (name email : String)
    (logged : IsLogged E log c) where
  gcp_config-Plan :
      (p : Option (KfApp S))
      → Plan E c log name email logged
          (if_loaded p (permission_call ∷ pod_default_call ∷ []))
          (gcp_config E c p)
  unfolding gcp_config
  gcp_config-Plan none = Logs-raise _
  gcp_config-Plan (some p) =
      Logs-bind (permission_call ∷ []) (pod_default_call ∷ []) (Logs-call logged.permission)
        λ _. Logs-call logged.pod_default

  named_gcp : Action S (Unit {0})
  named_gcp =
      if email == "" || not (name == gcp) then pure tt else gcp_config E c (lookup name c.platforms)

  gcp_added_config-Plan :
      Plan E c log name email logged (gcp_calls c name email) (gcp_added_config E c)
  unfolding gcp_added_config named_gcp run
  gcp_added_config-Plan =
      Logs-same (gcp_calls c name email) {k = named_gcp} (λ s p q. rw (p, q))
        (Logs-if (email == "" || not (name == gcp)) []
          (if_loaded (lookup name c.platforms) (permission_call ∷ pod_default_call ∷ []))
          (Logs-pure tt) (gcp_config-Plan (lookup name c.platforms)))

  apply_platform-Plan :
      (r : ResourceEnum)
      → Plan E c log name email logged
          (platform_calls c apply_method r name [])
          (apply_platform E c r)
  unfolding apply_platform
  apply_platform-Plan r =
      on_platform-Plan E c log name email logged apply_method r _ _ _ [] (λ x m t. t.apply r)
        (Logs-pure tt)

  apply_k8s-Plan :
      Plan E c log name email logged
        (manager_calls apply_method c.package_managers ++ save_call ∷ [])
        (apply_k8s E c)
  unfolding apply_k8s
  apply_k8s-Plan =
      Logs-bind (manager_calls apply_method c.package_managers) (save_call ∷ [])
        (managers-Plan E c log name email logged apply_method _ _ c.package_managers
          (λ x m t. t.apply k8s) logged.package_managers)
        λ _. save-Plan E c log name email logged "update"

  apply_resources-Plan :
      (r : ResourceEnum)
      → Plan E c log name email logged (resource_calls c name email r) (apply_resources E c r)
  unfolding apply_resources
  apply_resources-Plan all =
      Logs-bind (platform_calls c apply_method all name []) _ (apply_platform-Plan all) λ _.
        Logs-bind (manager_calls apply_method c.package_managers ++ save_call ∷ [])
          (gcp_calls c name email) apply_k8s-Plan λ _. gcp_added_config-Plan
  apply_resources-Plan platform = apply_platform-Plan platform
  apply_resources-Plan k8s =
      Logs-bind (manager_calls apply_method c.package_managers ++ save_call ∷ [])
        (gcp_calls c name email) apply_k8s-Plan λ _. gcp_added_config-Plan
  apply_resources-Plan (other_resource x) = Logs-pure tt

  both-Plan :
      (method : Method) (r : ResourceEnum) {p k : Action S (Unit {0})}
      → Plan E c log name email logged (platform_calls c method r name (save_call ∷ [])) p
      → Plan E c log name email logged (manager_calls method c.package_managers) k
      → Plan E c log name email logged (both_calls c name email method r) (both E c r p k)
  unfolding both
  both-Plan method all h g =
      Logs-bind (platform_calls c method all name (save_call ∷ []))
        (manager_calls method c.package_managers) h λ _. g
  both-Plan method platform h g = h
  both-Plan method k8s h g = g
  both-Plan method (other_resource x) h g = Logs-pure tt

  -- `Apply`, `Generate` and `Init` make the calls of their plan in its order, the first ones and no
  -- other, and on a success all of them. Each call to a platform is of the method itself, with the
  -- argument that the method has, and each to a package manager of the method itself for `K8S`: the cache is synchronised first, but in `Init`, the platform
  -- comes before the package managers, and the configuration is written after the package managers
  -- in `Apply`, and after the platform in the other two. Each call is logged once, and none changes
  -- the platform or the e-mail address that the configuration names.
  pub calls_in_order :
      (r : ResourceEnum)
      → Logs log (name_of E) (email_of E) name email (apply_calls c name email r) (apply E c r)
        × Logs log
            (name_of E)
            (email_of E)
            name
            email
            (sync_call ∷ both_calls c name email generate_method r)
            (generate E c r)
        × Logs log
            (name_of E)
            (email_of E)
            name
            email
            (both_calls c name email init_method r)
            (init E c r)
  unfolding apply generate init generate_platform generate_k8s init_platform init_k8s
  calls_in_order r = (
    Logs-bind (sync_call ∷ []) (resource_calls c name email r) (sync-Plan E c log name email logged)
        λ _. apply_resources-Plan r,
    Logs-bind (sync_call ∷ []) (both_calls c name email generate_method r)
        (sync-Plan E c log name email logged)
        λ _.
          both-Plan generate_method r
            (on_platform-Plan E c log name email logged generate_method r _ _ _ (save_call ∷ [])
              (λ x m t. t.generate r) (save-Plan E c log name email logged "create"))
            (managers-Plan E c log name email logged generate_method _ _ c.package_managers
              (λ x m t. t.generate k8s) logged.package_managers),
    both-Plan init_method r
        (on_platform-Plan E c log name email logged init_method r _ _ _ (save_call ∷ [])
          (λ x m t. t.init r) (save-Plan E c log name email logged "create"))
        (managers-Plan E c log name email logged init_method _ _ c.package_managers
          (λ x m t. t.init k8s) logged.package_managers),
  )
