-- ===== src/KfConfig/Parameters/Config.antt =====
-- Reading a parameter of a configuration after it was set.
use opendatahub_operator.Prelude.{
  ℕ, zero, suc, String, ◌≡◌, refl, Option, none, some, List, [], ◌∷◌, find, ◌==◌, if◌then◌else◌,
  arith, Option-cases, inl, inr,
}
use opendatahub_operator.Result.{ok}
use opendatahub_operator.KfConfig.{KfConfig, Application, KustomizeConfig}
use opendatahub_operator.KfConfig.Parameters.{
  with_applications, modify_at, get_elem?, get_parameter, set_in, set_in_application,
  get_application_parameter, legacy_set_application_parameter, set_at_index,
}
use opendatahub_operator.KfConfig.Parameters.Laws.{
  index_of_last, last_index_lem, UniqueNames, get_parameter-set_parameter,
}

-- The first application of a name.
abbrev pub find_app : String → List Application → Option Application
find_app n = find (λ a. a.name == n)

-- No two applications have one name.
abbrev pub UniqueApps : List Application → Type 0
UniqueApps [] = Unit {0}
UniqueApps (a ∷ apps) = (find_app a.name apps ≡ none) × UniqueApps apps

abbrev pub last_app : String → List Application → Option ℕ
last_app n = index_of_last (λ a. a.name == n)

last_app-none :
    (n : String) (apps : List Application)
    → (last_app n apps ≡ none → find_app n apps ≡ none)
      × (find_app n apps ≡ none → last_app n apps ≡ none)
last_app-none n [] = (λ h. refl, λ h. refl)
last_app-none n (a ∷ apps) = ground (arith, last_app-none n apps)

-- The last application of a name is the first one, if names are unique.
last_app-find :
    (n : String) (apps : List Application) (i : ℕ)
    → UniqueApps apps
    → last_app n apps ≡ some i
    → get_elem? apps i ≡ find_app n apps
unfolding get_elem?
last_app-find n [] i u h = ground arith
last_app-find n (a ∷ apps) zero u h = ground (arith, last_app-none n apps)
last_app-find n (a ∷ apps) (suc i) u h =
    ground (arith, last_app-find n apps i u.1, last_app-none n apps)

abbrev set_config : KustomizeConfig → Application → Application
set_config k b = record b { kustomize_config = some k }

find-modify_at :
    (k : KustomizeConfig) (n m : String) (apps : List Application) (i : ℕ) (a : Application)
    → UniqueApps apps
    → last_app n apps ≡ some i
    → find_app n apps ≡ some a
    → find_app m (modify_at i (set_config k) apps)
      ≡ (if n == m then some (set_config k a) else find_app m apps)
unfolding modify_at
find-modify_at k n m [] i a u h e = ground arith
find-modify_at k n m (b ∷ apps) zero a u h e = ground (arith, last_app-none n apps)
find-modify_at k n m (b ∷ apps) (suc i) a u h e =
    ground (arith, find-modify_at k n m apps i a u.1, last_app-none n apps)

module _ (c : KfConfig) (app param v : String) (a : Application) (k : KustomizeConfig)
    (unique : UniqueApps c.spec.applications) (there : find_app app c.spec.applications ≡ some a)
    (configured : a.kustomize_config ≡ some k) where
  -- What the call makes of the applications.
  abbrev written_apps : ℕ → List Application
  written_apps i = modify_at i (set_config (set_in k param v)) c.spec.applications

  set_at_index_lem :
      (i : ℕ)
      → last_app app c.spec.applications ≡ some i
      → set_at_index c app param v (some i) ≡ ok (with_applications c (written_apps i))
  unfolding set_at_index set_in_application
  set_at_index_lem i e = ground (arith, last_app-find app c.spec.applications i unique e)

  legacy_set_lem :
      (i : ℕ)
      → last_app app c.spec.applications ≡ some i
      → legacy_set_application_parameter c app param v ≡ ok (with_applications c (written_apps i))
  unfolding legacy_set_application_parameter
  legacy_set_lem i e = rw (last_index_lem, e) (set_at_index_lem i e)

  get_set_at :
      (i : ℕ)
      → last_app app c.spec.applications ≡ some i
      → UniqueNames k.parameters
      → (app' m : String)
      → get_application_parameter (with_applications c (written_apps i)) app' m ≡ (
          if app == app'
          then ok (if param == m then some v else get_parameter k.parameters m)
          else get_application_parameter c app' m)
  unfolding get_application_parameter set_in
  get_set_at i e u app' m = ground (
    arith,
    find-modify_at (set_in k param v) app app' c.spec.applications i a unique e there,
    get_parameter-set_parameter k.parameters param v m u,
  )

  -- `legacySetApplicationParameter` of an application that is there, with a `KustomizeConfig`, in a
  -- configuration where no application and none of its parameters has its name twice, gives no error,
  -- and `GetApplicationParameter` then returns the value for this application and parameter, and for
  -- every other application or parameter what it returned before.
  pub get-legacy_set :
      UniqueNames k.parameters
      → (c' : KfConfig) × (legacy_set_application_parameter c app param v ≡ ok c')
        × ((app' m : String)
            → get_application_parameter c' app' m ≡ (
                if app == app'
                then ok (if param == m then some v else get_parameter k.parameters m)
                else get_application_parameter c app' m))
  get-legacy_set u = elim (Option-cases (last_app app c.spec.applications)) [
    | inl missing ↦ absurd (ground (arith, last_app-none app c.spec.applications))
    | inr (i, e) ↦ (with_applications c (written_apps i), legacy_set_lem i e, get_set_at i e u)
  ]
