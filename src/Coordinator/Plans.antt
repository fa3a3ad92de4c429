-- ===== src/Coordinator/Plans.antt =====
-- The calls that the coordinator plans, and the parts of its methods that make them.
use mathlib.Core.Path.{subst}
use mathlib.Core.Logic.{if_pos, if_neg}
use opendatahub_operator.Prelude.{
  String, not, ◌||◌, ◌==◌, if◌then◌else◌, Option, none, some, List, [], ◌∷◌, ◌++◌, string_dec,
}
use opendatahub_operator.Errors.{
  kf_error, secret_not_found, app_not_found, api_not_found, api_conflict, text, with_stack,
}
use opendatahub_operator.Result.{Result, ok, err, panics, Action, pure, run}
use opendatahub_operator.Maps.{lookup}
use opendatahub_operator.Apps.{ResourceEnum, all, k8s, platform, other_resource, KfApp, gcp}
use opendatahub_operator.KfConfig.{KfConfig}
use opendatahub_operator.Coordinator.{
  Env, Coordinator, told, written, managers, platform_name, platform_told, not_in_platforms, save,
  call_platform, on_platform, sync,
}
use opendatahub_operator.Coordinator.Log.{
  Method, apply_method, delete_method, generate_method, init_method, Call, sync_call, save_call,
  permission_call, pod_default_call, platform_call, manager_call, Logs, IsCall, Logs-bind,
  Logs-pure, Logs-raise, Logs-gets, Logs-panic, Logs-same, Logs-call, Logs-if, IsCall-attempt,
}

-- The platform and the e-mail address that the configuration names.
abbrev pub name_of : {S : Type 0} → Env S → S → String
name_of E s = (E.kf_def s).spec.platform

abbrev pub email_of : {S : Type 0} → Env S → S → String
email_of E s = (E.kf_def s).spec.email

module _ {S : Type 0} (E : Env S) (log : S → List Call) where
  -- Each method of the app is logged as itself, with its argument.
  pub record IsLoggedApp (call : Method → ResourceEnum → Call) (p : KfApp S) : Type 0 where
    pub apply :
        (r : ResourceEnum) → IsCall log (name_of E) (email_of E) (call apply_method r) (p.apply r)
    pub delete :
        (r : ResourceEnum) → IsCall log (name_of E) (email_of E) (call delete_method r) (p.delete r)
    pub generate :
        (r : ResourceEnum)
        → IsCall log (name_of E) (email_of E) (call generate_method r) (p.generate r)
    pub init :
        (r : ResourceEnum) → IsCall log (name_of E) (email_of E) (call init_method r) (p.init r)

  abbrev pub AllLogged : (Method → ResourceEnum → String → Call) → List (String × KfApp S) → Type 0
  AllLogged call [] = Unit {0}
  AllLogged call ((name, p) ∷ ps) =
      IsLoggedApp (λ method r. call method r name) p × AllLogged call ps

  -- Each call out of the coordinator is logged once, and none changes the two names.
  pub record IsLogged (c : Coordinator S) : Type 0 where
    pub sync : IsCall log (name_of E) (email_of E) sync_call E.sync_cache
    pub write :
        (config : KfConfig)
        → IsCall log (name_of E) (email_of E) save_call (E.write_config_to_file config)
    pub permission :
        IsCall log (name_of E) (email_of E) permission_call E.setup_workload_identity_permission
    pub pod_default : IsCall log (name_of E) (email_of E) pod_default_call E.config_pod_default
    pub platforms : AllLogged platform_call c.platforms
    pub package_managers : AllLogged manager_call c.package_managers

-- The calls that are planned, in order.
abbrev pub manager_calls : {S : Type 0} → Method → List (String × KfApp S) → List Call
manager_calls method [] = []
manager_calls method ((name, _) ∷ ms) = manager_call method k8s name ∷ manager_calls method ms

abbrev pub if_loaded : {S : Type 0} → Option (KfApp S) → List Call → List Call
if_loaded none xs = []
if_loaded (some _) xs = xs

abbrev pub platform_calls :
    {S : Type 0} → Coordinator S → Method → ResourceEnum → String → List Call → List Call
platform_calls c method r name after =
    if name == ""
    then []
    else if_loaded (lookup name c.platforms) (platform_call method r name ∷ after)

abbrev pub gcp_calls : {S : Type 0} → Coordinator S → String → String → List Call
gcp_calls c name email =
    if email == "" || not (name == gcp)
    then []
    else if_loaded (lookup name c.platforms) (permission_call ∷ pod_default_call ∷ [])

module _ {S : Type 0} (c : Coordinator S) (name email : String) where
  abbrev pub resource_calls : ResourceEnum → List Call
  resource_calls all =
      platform_calls c apply_method all name []
      ++ ((manager_calls apply_method c.package_managers ++ save_call ∷ [])
          ++ gcp_calls c name email)
  resource_calls platform = platform_calls c apply_method platform name []
  resource_calls k8s =
      (manager_calls apply_method c.package_managers ++ save_call ∷ []) ++ gcp_calls c name email
  resource_calls (other_resource _) = []

  abbrev pub apply_calls : ResourceEnum → List Call
  apply_calls r = sync_call ∷ resource_calls r

  -- `Generate` and `Init` write the configuration after the platform's call, where there is one.
  abbrev pub both_calls : Method → ResourceEnum → List Call
  both_calls method all =
      platform_calls c method all name (save_call ∷ []) ++ manager_calls method c.package_managers
  both_calls method platform = platform_calls c method platform name (save_call ∷ [])
  both_calls method k8s = manager_calls method c.package_managers
  both_calls method (other_resource _) = []

abbrev pub LoggedFound : {S : Type 0} → Env S → (S → List Call) → String → Option (KfApp S) → Type 0
LoggedFound E log name none = Unit {0}
LoggedFound E log name (some p) = IsLoggedApp E log (λ method r. platform_call method r name) p

pub lookup-LoggedFound :
    {S : Type 0} (E : Env S) (log : S → List Call) (name : String) (ps : List (String × KfApp S))
    → AllLogged E log platform_call ps
    → LoggedFound E log name (lookup name ps)
unfolding lookup
lookup-LoggedFound E log name [] h = tt
lookup-LoggedFound E log name ((n, p) ∷ ps) h = elim (string_dec n name) [
  | yes e ↦
      rw (if_pos _ e)
        (subst (λ x. IsLoggedApp E log (λ method r. platform_call method r x) p) e h.0)
  | no e ↦ rw (if_neg _ e) (lookup-LoggedFound E log name ps h.1)
]

module _ {S : Type 0} (E : Env S) (c : Coordinator S) (log : S → List Call) (name email : String)
    (logged : IsLogged E log c) where
  abbrev pub Plan : {A : Type 0} → List Call → Action S A → Type 0
  Plan xs m = Logs log (name_of E) (email_of E) name email xs m

  pub told-Plan : (prefix : String) (r : Result (Unit {0})) → Plan [] (told prefix r)
  unfolding told
  told-Plan prefix (ok u) = Logs-pure tt
  told-Plan prefix (err e) = Logs-raise _
  told-Plan prefix (panics m) = Logs-panic m

  pub written-Plan : (verb : String) (r : Result (Unit {0})) → Plan [] (written verb r)
  unfolding written
  written-Plan verb (ok u) = Logs-pure tt
  written-Plan verb (err (kf_error code m)) = Logs-raise _
  written-Plan verb (err (secret_not_found m)) = Logs-panic _
  written-Plan verb (err (app_not_found m)) = Logs-panic _
  written-Plan verb (err (api_not_found m)) = Logs-panic _
  written-Plan verb (err (api_conflict m)) = Logs-panic _
  written-Plan verb (err (text m)) = Logs-panic _
  written-Plan verb (err (with_stack e)) = Logs-panic _
  written-Plan verb (panics m) = Logs-panic m

  pub save-Plan : (verb : String) → Plan (save_call ∷ []) (save E c verb)
  unfolding save
  save-Plan verb = Logs-bind [] (save_call ∷ []) (Logs-gets E.kf_def) λ config.
      Logs-bind (save_call ∷ []) [] (Logs-call (IsCall-attempt (logged.write config)))
        λ r. written-Plan verb r

  pub managers-Plan :
      (logged_method : Method) (verb : String) (method : KfApp S → Action S (Unit {0}))
      (ms : List (String × KfApp S))
      → ((x : Method → ResourceEnum → Call) (m : KfApp S)
          → IsLoggedApp E log x m
          → IsCall log (name_of E) (email_of E) (x logged_method k8s) (method m))
      → AllLogged E log manager_call ms
      → Plan (manager_calls logged_method ms) (managers verb method ms)
  unfolding managers
  managers-Plan logged_method verb method [] h l = Logs-pure tt
  managers-Plan logged_method verb method ((n, m) ∷ ms) h l =
      Logs-bind (manager_call logged_method k8s n ∷ []) (manager_calls logged_method ms)
        (Logs-call (IsCall-attempt (h (λ method r. manager_call method r n) m l.0)))
        λ r.
          Logs-bind [] (manager_calls logged_method ms) (told-Plan _ r)
            λ _. managers-Plan logged_method verb method ms h l.1

  pub sync-Plan : Plan (sync_call ∷ []) (sync E c)
  unfolding sync
  sync-Plan =
      Logs-bind (sync_call ∷ []) [] (Logs-call (IsCall-attempt logged.sync)) λ r. told-Plan _ r

  platform_told-Plan : (verb : String) (r : Result (Unit {0})) → Plan [] (platform_told E c verb r)
  unfolding platform_told platform_name
  platform_told-Plan verb r = Logs-bind [] [] (Logs-gets _) λ n. told-Plan _ r

  call_platform-Plan :
      (logged_method : Method) (r : ResourceEnum) (verb : String)
      (method : KfApp S → Action S (Unit {0})) (after : Action S (Unit {0})) (xs : List Call)
      (p : Option (KfApp S))
      → ((x : Method → ResourceEnum → Call) (m : KfApp S)
          → IsLoggedApp E log x m
          → IsCall log (name_of E) (email_of E) (x logged_method r) (method m))
      → Plan xs after
      → LoggedFound E log name p
      → Plan
          (if_loaded p (platform_call logged_method r name ∷ xs))
          (call_platform E c verb method after p)
  unfolding call_platform not_in_platforms platform_name
  call_platform-Plan logged_method r verb method after xs none h k l =
      Logs-bind [] [] (Logs-gets _) λ n. Logs-raise _
  call_platform-Plan logged_method r verb method after xs (some p) h k l =
      Logs-bind (platform_call logged_method r name ∷ []) xs
        (Logs-call (IsCall-attempt (h (λ method r. platform_call method r name) p l)))
        λ result. Logs-bind [] xs (platform_told-Plan verb result) λ _. k

  named_platform :
      String → (KfApp S → Action S (Unit {0})) → Action S (Unit {0}) → Action S (Unit {0})
  named_platform verb method after =
      if name == "" then pure tt else call_platform E c verb method after (lookup name c.platforms)

  pub on_platform-Plan :
      (logged_method : Method) (r : ResourceEnum) (verb : String)
      (method : KfApp S → Action S (Unit {0})) (after : Action S (Unit {0})) (xs : List Call)
      → ((x : Method → ResourceEnum → Call) (m : KfApp S)
          → IsLoggedApp E log x m
          → IsCall log (name_of E) (email_of E) (x logged_method r) (method m))
      → Plan xs after
      → Plan (platform_calls c logged_method r name xs) (on_platform E c verb method after)
  unfolding on_platform platform_name named_platform run
  on_platform-Plan logged_method r verb method after xs h k =
      Logs-same (platform_calls c logged_method r name xs) {k = named_platform verb method after}
        (λ s p q. rw p)
        (Logs-if (name == "") []
          (if_loaded (lookup name c.platforms) (platform_call logged_method r name ∷ xs))
          (Logs-pure tt)
          (call_platform-Plan logged_method r verb method after xs (lookup name c.platforms) h k
            (lookup-LoggedFound E log name c.platforms logged.platforms)))
