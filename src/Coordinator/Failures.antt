-- ===== src/Coordinator/Failures.antt =====
-- How the coordinator's methods can fail.
use opendatahub_operator.Prelude.{String, refl, ◌==◌, Option, none, some}
use opendatahub_operator.Errors.{
  Error, kf_error, secret_not_found, app_not_found, api_not_found, api_conflict, text, with_stack,
  internal_error,
}
use opendatahub_operator.Result.{Result, ok, err, panics, Action}
use opendatahub_operator.Result.Ends.{
  Ends, Outcome, Any, IsKfError, HasCode, Ends-bind, Ends-pure, Ends-raise, Ends-gets, Ends-attempt,
  Ends-if,
}
use opendatahub_operator.Maps.{lookup}
use opendatahub_operator.Apps.{ResourceEnum, all, k8s, platform, other_resource, KfApp}
use opendatahub_operator.Coordinator.{
  Env, Coordinator, written, platform_name, save, gcp_config, gcp_added_config, apply_platform,
  apply_k8s, apply_resources, apply, delete_platform, delete_k8s, delete_resources, delete,
  generate_platform, generate_k8s, generate, init_platform, init_k8s, init, dump, show_manager,
  show_all, show,
}
use opendatahub_operator.Coordinator.Tame.{
  Tame, TameShow, IsSound, managers-Ends, sync-Ends, not_in_platforms-Ends, on_platform-Ends,
  both-Ends, show_platform-Ends, lookup-TameFound,
}

module _ {S : Type 0} (E : Env S) (c : Coordinator S) where
  show_manager-Ends :
      (show : Option (ResourceEnum → Action S (Unit {0})))
      → TameShow show
      → Tame (show_manager E c show)
  unfolding show_manager
  show_manager-Ends none t = Ends-pure tt tt
  show_manager-Ends (some show) t = t k8s

  written-Ends :
      (verb : String) (r : Result (Unit {0}))
      → Outcome Any IsKfError r
      → Ends {W = S} Any IsKfError (written verb r)
  unfolding written
  written-Ends verb (ok u) o = Ends-pure tt tt
  written-Ends verb (err (kf_error code m)) o = Ends-raise _ tt
  written-Ends verb (err (secret_not_found m)) o = elim o [ ]
  written-Ends verb (err (app_not_found m)) o = elim o [ ]
  written-Ends verb (err (api_not_found m)) o = elim o [ ]
  written-Ends verb (err (api_conflict m)) o = elim o [ ]
  written-Ends verb (err (text m)) o = elim o [ ]
  written-Ends verb (err (with_stack e)) o = elim o [ ]
  written-Ends verb (panics m) o = elim o [ ]

forget-Outcome :
    {A : Type 0} (V : A → Type 0) (P : Error → Type 0) (r : Result A)
    → Outcome V P r
    → Outcome V Any r
forget-Outcome V P (ok a) h = h
forget-Outcome V P (err e) h = tt
forget-Outcome V P (panics m) h = h

forget_error :
    {S A : Type 0} {V : A → Type 0} {P : Error → Type 0} {m : Action S A}
    → Ends V P m
    → Ends V Any m
forget_error {V = V} {P = P} {m = m} h = record { at = λ w. forget-Outcome V P (m w).0 (h.at w) }

module _ {S : Type 0} (E : Env S) (c : Coordinator S) (sound : IsSound E c) where
  save-Ends : (verb : String) → Ends Any IsKfError (save E c verb)
  unfolding save
  save-Ends verb =
      Ends-bind (Ends-gets _)
        λ config _. Ends-bind (Ends-attempt (sound.write config)) λ r o. written-Ends E c verb r o

  gcp_config-Ends : (p : Option (KfApp S)) → Tame (gcp_config E c p)
  unfolding gcp_config
  gcp_config-Ends none = Ends-raise _ tt
  gcp_config-Ends (some p) = Ends-bind sound.permission λ _ _. sound.pod_default

  gcp_added_config-Ends : Tame (gcp_added_config E c)
  unfolding gcp_added_config
  gcp_added_config-Ends = Ends-bind (Ends-gets _) λ config _.
      Ends-if _ (Ends-pure tt tt) (gcp_config-Ends (lookup config.spec.platform c.platforms))

  apply_platform-Ends : (r : ResourceEnum) → Tame (apply_platform E c r)
  unfolding apply_platform
  apply_platform-Ends r =
      on_platform-Ends (λ _. tt) E c sound _ _ _ (λ m t. t.apply r) (Ends-pure tt tt)

  apply_k8s-Ends : Tame (apply_k8s E c)
  unfolding apply_k8s
  apply_k8s-Ends =
      Ends-bind
        (managers-Ends (λ _. tt) _ _ c.package_managers (λ m t. t.apply k8s) sound.package_managers)
        λ _ _. forget_error (save-Ends "update")

  apply_resources-Ends : (r : ResourceEnum) → Tame (apply_resources E c r)
  unfolding apply_resources
  apply_resources-Ends all =
      Ends-bind (apply_platform-Ends all)
        λ _ _. Ends-bind apply_k8s-Ends λ _ _. gcp_added_config-Ends
  apply_resources-Ends platform = apply_platform-Ends platform
  apply_resources-Ends k8s = Ends-bind apply_k8s-Ends λ _ _. gcp_added_config-Ends
  apply_resources-Ends (other_resource x) = Ends-pure tt tt

  delete_platform-Ends :
      (r : ResourceEnum) → Ends Any (HasCode internal_error) (delete_platform E c r)
  unfolding delete_platform
  delete_platform-Ends r =
      on_platform-Ends (λ _. refl) E c sound _ _ _ (λ m t. t.delete r) (Ends-pure tt tt)

  delete_k8s-Ends : Ends Any (HasCode internal_error) (delete_k8s E c)
  unfolding delete_k8s
  delete_k8s-Ends =
      managers-Ends (λ _. refl) _ _ c.package_managers (λ m t. t.delete k8s) sound.package_managers

  delete_resources-Ends :
      (r : ResourceEnum) → Ends Any (HasCode internal_error) (delete_resources E c r)
  unfolding delete_resources
  delete_resources-Ends all = Ends-bind delete_k8s-Ends λ _ _. delete_platform-Ends all
  delete_resources-Ends platform =
      Ends-bind (Ends-attempt delete_k8s-Ends) λ _ _. delete_platform-Ends platform
  delete_resources-Ends k8s = delete_k8s-Ends
  delete_resources-Ends (other_resource x) = Ends-pure tt tt

  show_all-Ends : (r : ResourceEnum) → Ends Any (HasCode internal_error) (show_all E c r)
  unfolding show_all platform_name
  show_all-Ends r = Ends-bind (Ends-gets _) λ name _.
      Ends-if (name == "") (not_in_platforms-Ends (λ _. refl) E c sound) (
        Ends-bind
          (show_platform-Ends (λ _. refl) E c sound r (lookup name c.platforms)
            (lookup-TameFound name c.platforms sound.platforms))
          λ _ _.
            managers-Ends (λ _. refl) _ _ c.package_managers
              (λ m t. show_manager-Ends E c m.show t.show) sound.package_managers)

  show-Ends : (r : ResourceEnum) → Ends Any (HasCode internal_error) (show E c r)
  unfolding show
  show-Ends all = show_all-Ends all
  show-Ends platform = show_all-Ends platform
  show-Ends k8s = show_all-Ends k8s
  show-Ends (other_resource x) = Ends-pure tt tt

  -- When nothing that the coordinator calls panics, and `WriteConfigToFile` fails with a `KfError`
  -- only, which the methods assert unchecked, no method of the coordinator panics. Every error of
  -- `Delete`, `Dump` and `Show` is then a `KfError` with the code of an internal error, and every
  -- error of `Generate` and `Init` is a `KfError`. `Apply` also hands on errors of the platform gcp.
  pub coordinator_failures :
      (r : ResourceEnum)
      → Ends Any (HasCode internal_error) (delete E c r)
        × Ends Any (HasCode internal_error) (dump E c r)
        × Ends Any (HasCode internal_error) (show E c r)
        × Ends Any IsKfError (generate E c r)
        × Ends Any IsKfError (init E c r)
        × Ends Any Any (apply E c r)
  unfolding delete dump generate init apply generate_platform generate_k8s init_platform init_k8s
  coordinator_failures r = (
    Ends-bind (sync-Ends (λ _. refl) E c sound) λ _ _. delete_resources-Ends r,
    managers-Ends (λ _. refl) _ _ c.package_managers (λ m t. t.dump k8s) sound.package_managers,
    show-Ends r,
    Ends-bind (sync-Ends (λ _. tt) E c sound) λ _ _.
        both-Ends (λ _. tt) E c sound r
          (on_platform-Ends (λ _. tt) E c sound _ _ _ (λ m t. t.generate r) (save-Ends "create"))
          (managers-Ends (λ _. tt) _ _ c.package_managers (λ m t. t.generate k8s)
            sound.package_managers),
    both-Ends (λ _. tt) E c sound r
        (on_platform-Ends (λ _. tt) E c sound _ _ _ (λ m t. t.init r) (save-Ends "create"))
        (managers-Ends (λ _. tt) _ _ c.package_managers (λ m t. t.init k8s) sound.package_managers),
    Ends-bind (sync-Ends (λ _. tt) E c sound) λ _ _. apply_resources-Ends r,
  )
