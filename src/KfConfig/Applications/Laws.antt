-- ===== src/KfConfig/Applications/Laws.antt =====
-- What is left after an application is removed.
use opendatahub_operator.Prelude.{
  ℕ, zero, suc, ◌+◌, ◌-◌, String, ◌≡◌, ◌≢◌, refl, Option, none, some, List, [], ◌∷◌, ◌==◌,
  if◌then◌else◌, ◌⊎◌, string_dec, arith, Option-cases, inl, inr, ◌≤◌,
}
use opendatahub_operator.KfConfig.{KfConfig, Application}
use opendatahub_operator.KfConfig.Parameters.Laws.{last_index_lem}
use opendatahub_operator.KfConfig.Parameters.Config.{find_app, last_app}
use opendatahub_operator.KfConfig.Applications.{remove_at, delete_application}

-- How many applications have a name.
abbrev pub apps_named : String → List Application → ℕ
apps_named n [] = 0
apps_named n (a ∷ apps) = (if a.name == n then 1 else 0) + apps_named n apps

abbrev after_removal : String → List Application → Option ℕ → List Application
after_removal n apps none = apps
after_removal n apps (some i) = remove_at i apps

last_app-named :
    (n : String) (apps : List Application) (i : ℕ)
    → last_app n apps ≡ some i
    → 1 ≤ apps_named n apps
last_app-named n [] i h = ground arith
last_app-named n (a ∷ apps) i h = elim (Option-cases (last_app n apps)) [
  | inl missing ↦ ground (arith, missing)
  | inr (j, e) ↦ omega (arith, last_app-named n apps j e)
]

last_app-unnamed :
    (n : String) (apps : List Application) → last_app n apps ≡ none → apps_named n apps ≡ 0
last_app-unnamed n [] h = refl
last_app-unnamed n (a ∷ apps) h = ground (arith, last_app-unnamed n apps)

apps_named-remove_at :
    (n m : String) (apps : List Application) (i : ℕ)
    → last_app n apps ≡ some i
    → (apps_named m (remove_at i apps)
        ≡ (if n == m then apps_named m apps - 1 else apps_named m apps))
      × (n ≢ m → find_app m (remove_at i apps) ≡ find_app m apps)
unfolding remove_at
apps_named-remove_at n m [] i h = ground arith
apps_named-remove_at n m (a ∷ apps) zero h = (ground (arith, last_app-unnamed n apps), ground arith)
apps_named-remove_at n m (a ∷ apps) (suc i) h = elim (Option-cases (last_app n apps)) [
  | inl missing ↦ absurd (ground (arith, missing))
  | inr (j, e) ↦ (
    ground (arith, apps_named-remove_at n m apps i, last_app-named n apps i, e),
    ground (arith, apps_named-remove_at n m apps i, e),
  )
]

-- `DeleteApplication` takes one application of the name away, where there is one, and leaves every
-- other name: as many applications have it, and it names the same one.
pub delete_application-named :
    (c : KfConfig) (n m : String)
    → (apps_named m (delete_application c n).spec.applications ≡ (
        if n == m then apps_named m c.spec.applications - 1 else apps_named m c.spec.applications))
      × ((n ≡ m)
          ⊎ (find_app m (delete_application c n).spec.applications
              ≡ find_app m c.spec.applications))
unfolding delete_application
delete_application-named c n m =
    rw last_index_lem (elim (Option-cases (last_app n c.spec.applications)) [
      | inl missing ↦
          rw missing (ground (arith, last_app-unnamed n c.spec.applications missing), inr refl)
      | inr (i, e) ↦
          let (named, others) = apps_named-remove_at n m c.spec.applications i e in
          rw e (named, elim (string_dec n m) [ yes p ↦ inl p | no p ↦ inr (others p) ])
    ])
