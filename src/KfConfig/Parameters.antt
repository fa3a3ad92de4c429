-- ===== src/KfConfig/Parameters.antt =====
-- pkg/kfconfig/types.go: the parameters of an application, kept in the configuration itself.
pub mod Laws
pub mod Config
use opendatahub_operator.Prelude.{
  ℕ, zero, suc, ◌+◌, String, ◌<>◌, Bool, true, false, Option, none, some, List, [], ◌∷◌, ◌++◌, find,
  any, length, ◌==◌, if◌then◌else◌,
}
use opendatahub_operator.Errors.{Error, text, with_stack}
use opendatahub_operator.Result.{Result, ok, err, panics}
use opendatahub_operator.KfConfig.{KfConfig, KfConfigSpec, Application, KustomizeConfig, NameValue}

abbrev pub kf_apps_stack_name : String
kf_apps_stack_name = "kubeflow-apps"

-- The loops that run through a whole list and keep the index of the last item that passes a test:
-- `index` is -1, here none, before the first.
unfoldable pub last_index_from {ℓ} : {A : Type ℓ} → (A → Bool) → ℕ → Option ℕ → List A → Option ℕ
last_index_from p i index [] = index
last_index_from p i index (x ∷ xs) = last_index_from p (suc i) (if p x then some i else index) xs

unfoldable pub last_index {ℓ} : {A : Type ℓ} → (A → Bool) → List A → Option ℕ
unfolding last_index_from
last_index p xs = last_index_from p 0 none xs

-- `xs[i] = f(xs[i])`, for an index in range
unfoldable pub modify_at {ℓ} : {A : Type ℓ} → ℕ → (A → A) → List A → List A
modify_at i f [] = []
modify_at zero f (x ∷ xs) = f x ∷ xs
modify_at (suc i) f (x ∷ xs) = x ∷ modify_at i f xs

-- `xs[i]`
unfoldable pub get_elem? {ℓ} : {A : Type ℓ} → List A → ℕ → Option A
get_elem? [] i = none
get_elem? (x ∷ xs) zero = some x
get_elem? (x ∷ xs) (suc i) = get_elem? xs i

-- `getParameter`
unfoldable pub get_parameter : List NameValue → String → Option String
get_parameter [] param_name = none
get_parameter (p ∷ ps) param_name =
    if p.name == param_name then some p.value else get_parameter ps param_name

write_parameter : List NameValue → String → String → Option ℕ → List NameValue
write_parameter parameters param_name value none =
    parameters ++ record { name = param_name; value = value } ∷ []
write_parameter parameters param_name value (some i) =
    modify_at i (λ _. record { name = param_name; value = value }) parameters

-- `setParameter`: the last parameter of the name is written, or a new one at the end.
unfoldable pub set_parameter : List NameValue → String → String → List NameValue
unfolding write_parameter modify_at last_index
set_parameter parameters param_name value =
    write_parameter parameters param_name value (last_index (λ p. p.name == param_name) parameters)

-- `UsingStacks`
unfoldable pub using_stacks : KfConfig → Bool
using_stacks c = any (λ a. a.name == kf_apps_stack_name) c.spec.applications

-- A pointer to a missing `KustomizeConfig` is followed all the same.
parameter_of : Option KustomizeConfig → String → Result (Option String)
parameter_of none param_name = panics "nil pointer dereference"
parameter_of (some k) param_name = ok (get_parameter k.parameters param_name)

application_parameter : Option Application → String → Result (Option String)
unfolding parameter_of
application_parameter none param_name = ok none
application_parameter (some a) param_name = parameter_of a.kustomize_config param_name

-- `GetApplicationParameter`, of the first application of the name
unfoldable pub get_application_parameter : KfConfig → String → String → Result (Option String)
unfolding application_parameter get_parameter
get_application_parameter c app_name param_name =
    application_parameter (find (λ a. a.name == app_name) c.spec.applications) param_name

abbrev pub with_applications : KfConfig → List Application → KfConfig
with_applications c apps = record c { spec = record c.spec { applications = apps } }

set_in : KustomizeConfig → String → String → KustomizeConfig
unfolding set_parameter
set_in k param_name value = record k { parameters = set_parameter k.parameters param_name value }

set_in_application : KfConfig → String → String → String → ℕ → Option Application → Result KfConfig
unfolding set_in modify_at
set_in_application c app_name param_name value i none = ok c
set_in_application c app_name param_name value i (some a) = elim a.kustomize_config [
  | none ↦ err (with_stack (text ("Application " <> (app_name <> " doesn't have KustomizeConfig"))))
  | some k ↦ ok (
      with_applications c (
        modify_at i (λ b. record b { kustomize_config = some (set_in k param_name value) })
          c.spec.applications))
]

set_at_index : KfConfig → String → String → String → Option ℕ → Result KfConfig
unfolding set_in_application get_elem?
set_at_index c app_name param_name value none = ok c
set_at_index c app_name param_name value (some i) =
    set_in_application c app_name param_name value i (get_elem? c.spec.applications i)

-- `legacySetApplicationParameter`, in the last application of the name; where there is none, only a
-- warning is logged. An error leaves the configuration as it was.
unfoldable pub legacy_set_application_parameter :
    KfConfig → String → String → String → Result KfConfig
unfolding set_at_index last_index
legacy_set_application_parameter c app_name param_name value =
    set_at_index c app_name param_name value
      (last_index (λ a. a.name == app_name) c.spec.applications)
