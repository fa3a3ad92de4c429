-- ===== src/KfConfig/Applications.antt =====
-- pkg/kfconfig/types.go: removing an application, and the overlays of an application.
pub mod Laws
pub mod Overlays
use opendatahub_operator.Prelude.{
  ℕ, zero, suc, String, Bool, true, false, Option, none, some, List, [], ◌∷◌, ◌++◌, ◌==◌,
  if◌then◌else◌,
}
use opendatahub_operator.Result.{Result, ok, err, panics}
use opendatahub_operator.KfConfig.{KfConfig, Application, KustomizeConfig}
use opendatahub_operator.KfConfig.Parameters.{with_applications, last_index, modify_at, get_elem?}

-- `append(xs[:i], xs[i+1:]...)`, for an index in range
unfoldable pub remove_at {ℓ} : {A : Type ℓ} → ℕ → List A → List A
remove_at i [] = []
remove_at zero (x ∷ xs) = xs
remove_at (suc i) (x ∷ xs) = x ∷ remove_at i xs

abbrev pub app_index : KfConfig → String → Option ℕ
app_index c app_name = last_index (λ a. a.name == app_name) c.spec.applications

remove_application : KfConfig → Option ℕ → KfConfig
remove_application c none = c
remove_application c (some i) = with_applications c (remove_at i c.spec.applications)

-- `DeleteApplication`; its error is always nil.
unfoldable pub delete_application : KfConfig → String → KfConfig
unfolding remove_application
delete_application c app_name = remove_application c (app_index c app_name)

overlay_index : List String → String → Option ℕ
overlay_index overlays overlay_name = last_index (λ o. o == overlay_name) overlays

added : List String → String → Option ℕ → List String
added overlays overlay_name none = overlays ++ overlay_name ∷ []
added overlays overlay_name (some i) = overlays

-- The overlays after one is added: one that is there is not added again.
unfoldable pub add_overlay : List String → String → List String
unfolding overlay_index added
add_overlay overlays overlay_name =
    added overlays overlay_name (overlay_index overlays overlay_name)

removed : List String → Option ℕ → List String
removed overlays none = overlays
removed overlays (some i) = remove_at i overlays

-- The overlays after one is removed: the last of its name.
unfoldable pub remove_overlay : List String → String → List String
unfolding overlay_index removed
remove_overlay overlays overlay_name = removed overlays (overlay_index overlays overlay_name)

-- The overlays of the application at an index are changed. The pointer to its `KustomizeConfig` is
-- followed unchecked.
change_at : KfConfig → (List String → List String) → ℕ → Option Application → Result KfConfig
change_at c f i none = ok c
change_at c f i (some a) = elim a.kustomize_config [
  | none ↦ panics "nil pointer dereference"
  | some k ↦ ok (
      with_applications c (
        modify_at i
          (λ b. record b { kustomize_config = some (record k { overlays = f k.overlays }) })
          c.spec.applications))
]

change_overlays : KfConfig → (List String → List String) → Option ℕ → Result KfConfig
unfolding change_at get_elem?
change_overlays c f none = ok c
change_overlays c f (some i) = change_at c f i (get_elem? c.spec.applications i)

-- `AddApplicationOverlay` and `RemoveApplicationOverlay`; their error is always nil.
unfoldable pub add_application_overlay : KfConfig → String → String → Result KfConfig
unfolding change_overlays
add_application_overlay c app_name overlay_name =
    change_overlays c (λ os. add_overlay os overlay_name) (app_index c app_name)

unfoldable pub remove_application_overlay : KfConfig → String → String → Result KfConfig
unfolding change_overlays
remove_application_overlay c app_name overlay_name =
    change_overlays c (λ os. remove_overlay os overlay_name) (app_index c app_name)
