-- ===== src/Coordinator/Tame.antt =====
-- What it means that nothing the coordinator calls panics, and what follows for its parts.
use opendatahub_operator.Prelude.{
  String, Bool, true, false, ◌==◌, if◌then◌else◌, Option, none, some, List, [], ◌∷◌,
}
use opendatahub_operator.Errors.{Error, kf_error, internal_error}
use opendatahub_operator.Result.{Result, ok, err, panics, Action}
use opendatahub_operator.Result.Ends.{
  Ends, Outcome, Any, IsKfError, Ends-bind, Ends-pure, Ends-raise, Ends-gets, Ends-attempt, Ends-if,
}
use opendatahub_operator.Maps.{lookup}
use opendatahub_operator.Apps.{ResourceEnum, all, k8s, platform, other_resource, KfApp}
use opendatahub_operator.KfConfig.{KfConfig}
use opendatahub_operator.Coordinator.{
  Env, Coordinator, told, managers, platform_name, platform_told, not_in_platforms, call_platform,
  on_platform, sync, both, show_of, no_show, show_platform, show,
}

-- An action that does not panic.
abbrev pub Tame : {S : Type 0} → Action S (Unit {0}) → Type 0
Tame m = Ends Any Any m

abbrev pub TameShow : {S : Type 0} → Option (ResourceEnum → Action S (Unit {0})) → Type 0
TameShow none = Unit {0}
TameShow (some show) = (r : ResourceEnum) → Tame (show r)

pub record IsTame {S : Type 0} (p : KfApp S) : Type 0 where
  pub apply : (r : ResourceEnum) → Tame (p.apply r)
  pub delete : (r : ResourceEnum) → Tame (p.delete r)
  pub dump : (r : ResourceEnum) → Tame (p.dump r)
  pub generate : (r : ResourceEnum) → Tame (p.generate r)
  pub init : (r : ResourceEnum) → Tame (p.init r)
  pub show : TameShow p.show

abbrev pub AllTame : {S : Type 0} → List (String × KfApp S) → Type 0
AllTame [] = Unit {0}
AllTame ((name, p) ∷ ps) = IsTame p × AllTame ps

abbrev pub TameFound : {S : Type 0} → Option (KfApp S) → Type 0
TameFound none = Unit {0}
TameFound (some p) = IsTame p

-- Nothing that the coordinator calls panics, and `WriteConfigToFile` fails with a `KfError` only.
pub record IsSound {S : Type 0} (E : Env S) (c : Coordinator S) : Type 0 where
  pub sync : Tame E.sync_cache
  pub write : (config : KfConfig) → Ends Any IsKfError (E.write_config_to_file config)
  pub permission : Tame E.setup_workload_identity_permission
  pub pod_default : Tame E.config_pod_default
  pub platforms : AllTame c.platforms
  pub package_managers : AllTame c.package_managers

if-TameFound :
    {S : Type 0} (b : Bool) (x y : Option (KfApp S))
    → TameFound x
    → TameFound y
    → TameFound (if b then x else y)
if-TameFound true x y h k = h
if-TameFound false x y h k = k

pub lookup-TameFound :
    {S : Type 0} (name : String) (ps : List (String × KfApp S))
    → AllTame ps
    → TameFound (lookup name ps)
unfolding lookup
lookup-TameFound name [] h = tt
lookup-TameFound name ((n, p) ∷ ps) h =
    if-TameFound (n == name) (some p) (lookup name ps) h.0 (lookup-TameFound name ps h.1)

-- Errors that include the coordinator's own.
module _ {S : Type 0} {P : Error → Type 0}
    (own : (m : String) → P (kf_error internal_error m)) where
  pub told-Ends :
      (prefix : String) (r : Result (Unit {0}))
      → Outcome Any Any r
      → Ends {W = S} Any P (told prefix r)
  unfolding told
  told-Ends prefix (ok u) h = Ends-pure tt tt
  told-Ends prefix (err e) h = Ends-raise _ (own _)
  told-Ends prefix (panics m) h = elim h [ ]

  pub managers-Ends :
      (verb : String) (method : KfApp S → Action S (Unit {0})) (ms : List (String × KfApp S))
      → ((m : KfApp S) → IsTame m → Tame (method m))
      → AllTame ms
      → Ends Any P (managers verb method ms)
  unfolding managers
  managers-Ends verb method [] h tame = Ends-pure tt tt
  managers-Ends verb method ((name, m) ∷ ms) h tame =
      Ends-bind (Ends-attempt (h m tame.0))
        λ r o. Ends-bind (told-Ends _ r o) λ _ _. managers-Ends verb method ms h tame.1

  module _ (E : Env S) (c : Coordinator S) (sound : IsSound E c) where
    pub sync-Ends : Ends Any P (sync E c)
    unfolding sync
    sync-Ends = Ends-bind (Ends-attempt sound.sync) λ r o. told-Ends _ r o

    pub platform_told-Ends :
        (verb : String) (r : Result (Unit {0}))
        → Outcome Any Any r
        → Ends Any P (platform_told E c verb r)
    unfolding platform_told platform_name
    platform_told-Ends verb r o = Ends-bind (Ends-gets _) λ _ _. told-Ends _ r o

    pub not_in_platforms-Ends : Ends Any P (not_in_platforms E c)
    unfolding not_in_platforms platform_name
    not_in_platforms-Ends = Ends-bind (Ends-gets _) λ _ _. Ends-raise _ (own _)

    call_platform-Ends :
        (verb : String) (method : KfApp S → Action S (Unit {0})) (after : Action S (Unit {0}))
        (p : Option (KfApp S))
        → ((m : KfApp S) → IsTame m → Tame (method m))
        → Ends Any P after
        → TameFound p
        → Ends Any P (call_platform E c verb method after p)
    unfolding call_platform
    call_platform-Ends verb method after none h k t = not_in_platforms-Ends
    call_platform-Ends verb method after (some p) h k t =
        Ends-bind (Ends-attempt (h p t)) λ r o. Ends-bind (platform_told-Ends verb r o) λ _ _. k

    pub on_platform-Ends :
        (verb : String) (method : KfApp S → Action S (Unit {0})) (after : Action S (Unit {0}))
        → ((m : KfApp S) → IsTame m → Tame (method m))
        → Ends Any P after
        → Ends Any P (on_platform E c verb method after)
    unfolding on_platform platform_name
    on_platform-Ends verb method after h k = Ends-bind (Ends-gets _) λ name _.
        Ends-if (name == "") (Ends-pure tt tt) (
          call_platform-Ends verb method after (lookup name c.platforms) h k
            (lookup-TameFound name c.platforms sound.platforms))

    pub both-Ends :
        (r : ResourceEnum) {p k : Action S (Unit {0})}
        → Ends Any P p
        → Ends Any P k
        → Ends Any P (both E c r p k)
    unfolding both
    both-Ends all h k = Ends-bind h λ _ _. k
    both-Ends platform h k = h
    both-Ends k8s h k = k
    both-Ends (other_resource _) h k = Ends-pure tt tt

    no_show-Ends : Ends Any P (no_show E c)
    unfolding no_show platform_name
    no_show-Ends = Ends-bind (Ends-gets _) λ _ _. Ends-raise _ (own _)

    show_found-Ends :
        (r : ResourceEnum) (show : Option (ResourceEnum → Action S (Unit {0})))
        → TameShow show
        → Ends Any P (show_platform E c r show)
    unfolding show_platform
    show_found-Ends r none t = no_show-Ends
    show_found-Ends r (some show) t =
        Ends-bind (Ends-attempt (t r)) λ r o. platform_told-Ends "Show" r o

    pub show_platform-Ends :
        (r : ResourceEnum) (p : Option (KfApp S))
        → TameFound p
        → Ends Any P (show_platform E c r (show_of E c p))
    unfolding show_of
    show_platform-Ends r none t = show_found-Ends r none t
    show_platform-Ends r (some p) t = show_found-Ends r p.show t.show
