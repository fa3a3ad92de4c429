-- ===== src/KfConfig/Applications/Overlays.antt =====
-- Adding and removing the overlays of an application.
use opendatahub_operator.Prelude.{
  ℕ, String, ◌≡◌, refl, ap, Bool, false, Option, none, some, List, [], ◌∷◌, ◌++◌, ◌==◌, any, length,
  arith,
}
use opendatahub_operator.KfConfig.{KfConfig, Application, KustomizeConfig}
use opendatahub_operator.KfConfig.Parameters.{with_applications, modify_at}
use opendatahub_operator.KfConfig.Parameters.Laws.{index_of_last, last_index_lem}
use opendatahub_operator.KfConfig.Applications.{remove_at, add_overlay, remove_overlay}

abbrev pub has_overlay : String → List String → Bool
has_overlay o = any (λ x. x == o)

abbrev last_overlay : String → List String → Option ℕ
last_overlay o = index_of_last (λ x. x == o)

last_overlay-none :
    (o : String) (os : List String) → has_overlay o os ≡ false → last_overlay o os ≡ none
last_overlay-none o [] h = refl
last_overlay-none o (x ∷ os) h = ground (arith, last_overlay-none o os)

last_overlay-append :
    (o : String) (os : List String)
    → has_overlay o os ≡ false
    → last_overlay o (os ++ o ∷ []) ≡ some (length os)
last_overlay-append o [] h = ground arith
last_overlay-append o (x ∷ os) h = ground (arith, last_overlay-append o os)

remove_at-append : (o : String) (os : List String) → remove_at (length os) (os ++ o ∷ []) ≡ os
unfolding remove_at
remove_at-append o [] = refl
remove_at-append o (x ∷ os) = ap (λ t. x ∷ t) (remove_at-append o os)

pub remove-add_overlay :
    (o : String) (os : List String)
    → has_overlay o os ≡ false
    → remove_overlay (add_overlay os o) o ≡ os
unfolding remove_overlay add_overlay
remove-add_overlay o os fresh =
    rw (last_index_lem {A = String}, last_overlay-none o os fresh)
      (rw (last_index_lem {A = String}, last_overlay-append o os fresh) (remove_at-append o os))

abbrev put_overlays : KustomizeConfig → List String → Application → Application
put_overlays k os b = record b { kustomize_config = some (record k { overlays = os }) }

module _ (c : KfConfig) (app o : String) (i : ℕ) (a : Application) (k : KustomizeConfig) where
  abbrev added_config : KfConfig
  added_config =
      with_applications c
        (modify_at i (put_overlays k (add_overlay k.overlays o)) c.spec.applications)
