-- ===== src/Upgrade/Parameters.antt =====
-- What `MergeKfCfg` does to parameters and to the list of applications.
use mathlib.Core.Path.{subst}
use opendatahub_operator.Prelude.{
  String, ◌≡◌, refl, ap, false, Option, none, some, List, [], ◌∷◌, map, any, find, ◌==◌, string_dec,
  arith, Bool-cases, inl, inr,
}
use opendatahub_operator.Result.{Result, ok, err, panics}
use opendatahub_operator.KfConfig.{KfConfig, Application, KustomizeConfig, NameValue}
use opendatahub_operator.KfConfig.Parameters.{get_parameter}
use opendatahub_operator.KfConfig.Plugins.{Yaml, get_plugin_spec, set_plugin_spec, step, put_plugin}
use opendatahub_operator.Errors.{internal_error, invalid_argument}
use opendatahub_operator.Upgrade.{
  customised, revalued, merge_parameter, merge_config, merge_into, merge_application, cons_ok,
  merge_applications, kept_unless, copy_plugin, merge_plugins,
}

-- No name is there twice.
abbrev pub HaveNames : List NameValue → Type 0
HaveNames [] = Unit {0}
HaveNames (p ∷ ps) = (any (λ o. o.name == p.name) ps ≡ false) × HaveNames ps

-- The old value, where there is one, for a parameter that the new version has.
abbrev pub merged_value : Option String → Option String → Option String
merged_value none old = none
merged_value (some v) none = some v
merged_value (some v) (some old) = some old

abbrev value_or : String → Option String → String
value_or v none = v
value_or v (some old) = old

not_customised :
    (p : NameValue) (name : String) (os : List NameValue)
    → any (λ o. o.name == name) os ≡ false
    → p.name ≡ name
    → customised p os ≡ none
not_customised p name [] h e = refl
not_customised p name (o ∷ os) h e = ground (arith, not_customised p name os)

customised_value :
    (p : NameValue) (os : List NameValue)
    → HaveNames os
    → (revalued p (customised p os)).value ≡ value_or p.value (get_parameter os p.name)
unfolding get_parameter
customised_value p [] h = refl
customised_value p (o ∷ os) h =
    ground (arith, customised_value p os h.1, not_customised p o.name os h.0)

revalued-name : (p : NameValue) (o : Option NameValue) → (revalued p o).name ≡ p.name
revalued-name p none = refl
revalued-name p (some o) = refl

merge_parameter-name : (os : List NameValue) (p : NameValue) → (merge_parameter os p).name ≡ p.name
merge_parameter-name os p = revalued-name p (customised p os)

some_value : (o : Option String) (v : String) → some (value_or v o) ≡ merged_value (some v) o
some_value none v = refl
some_value (some old) v = refl

pub get_parameter-merge :
    (os ps : List NameValue) (q : String)
    → HaveNames os
    → get_parameter (map (merge_parameter os) ps) q
      ≡ merged_value (get_parameter ps q) (get_parameter os q)
unfolding get_parameter
get_parameter-merge os [] q h = refl
get_parameter-merge os (p ∷ ps) q h = elim (string_dec p.name q) [
  | yes e ↦ ground (
    arith,
    merge_parameter-name os p,
    customised_value p os h,
    ap (get_parameter os) e,
    some_value (get_parameter os q) p.value,
  )
  | no e ↦ ground (arith, merge_parameter-name os p, get_parameter-merge os ps q h)
]

merge_config-name :
    (a a' : Application) (k : KustomizeConfig) (ps : List NameValue) (o : Option KustomizeConfig)
    → merge_config a k ps o ≡ ok a'
    → a'.name ≡ a.name
unfolding merge_config
merge_config-name a a' k [] o h = ground arith
merge_config-name a a' k (p ∷ ps) none h = absurd (cc)
merge_config-name a a' k (p ∷ ps) (some old) h = ground arith

merge_into-name :
    (a a' : Application) (k : Option KustomizeConfig) (o : Application)
    → merge_into a k o ≡ ok a'
    → a'.name ≡ a.name
unfolding merge_into
merge_into-name a a' none o h = absurd (cc)
merge_into-name a a' (some k) o h = merge_config-name a a' k k.parameters o.kustomize_config h

merge_application-name :
    (a a' : Application) (o : Option Application) → merge_application a o ≡ ok a' → a'.name ≡ a.name
unfolding merge_application
merge_application-name a a' none h = ground arith
merge_application-name a a' (some o) h = merge_into-name a a' a.kustomize_config o h

cons_ok_inv :
    (r : Result Application) (s : Result (List Application)) (apps : List Application)
    → cons_ok r s ≡ ok apps
    → (a : Application) × (rest : List Application) × (r ≡ ok a) × (s ≡ ok rest) × (apps ≡ a ∷ rest)
unfolding cons_ok
cons_ok_inv (ok a) (ok rest) apps h = (a, rest, refl, refl, ground arith)
cons_ok_inv (ok a) (err e) apps h = absurd (cc)
cons_ok_inv (ok a) (panics m) apps h = absurd (cc)
cons_ok_inv (err e) s apps h = absurd (cc)
cons_ok_inv (panics m) s apps h = absurd (cc)

-- The merged application of a name is the application of the name, merged.
abbrev pub Found : List Application → String → Option Application → Option Application → Type 0
Found olds n none r = r ≡ none
Found olds n (some a) r =
    (a' : Application) × (r ≡ some a')
    × (merge_application a (find (λ o. a.name == o.name) olds) ≡ ok a')

pub find-merged :
    (olds apps apps' : List Application) (n : String)
    → merge_applications olds apps ≡ ok apps'
    → Found olds n (find (λ a. a.name == n) apps) (find (λ a. a.name == n) apps')
unfolding merge_applications
find-merged olds [] apps' n h = ground arith
find-merged olds (a ∷ rest) apps' n h =
    let (a', rest', made, others, e) =
      cons_ok_inv (merge_application a (find (λ o. a.name == o.name) olds))
        (merge_applications olds rest) apps' h in
    let same : (a'.name == n) ≡ (a.name == n) =
      ap (λ x. x == n) (merge_application-name a a' _ made) in
    elim (Bool-cases (a.name == n)) [
      | inl t ↦ rw (e, same, t) (a', refl, made)
      | inr f ↦ rw (e, same, f) (find-merged olds rest rest' n others)
    ]

module _ {T : Type 0} (Y : Yaml T) where
  -- The configuration of a result has these applications.
  abbrev pub HasApplications : List Application → Result KfConfig → Type 0
  HasApplications apps (ok c) = c.spec.applications ≡ apps
  HasApplications apps _ = Unit {0}

  raw-HasApplications :
      (c : KfConfig) (kind : String) (raw : Result (Option String))
      → HasApplications c.spec.applications (
          step internal_error "Could not unmarshal plugin to RawExtension; error " raw λ r.
            ok (record c { spec = record c.spec { plugins = put_plugin kind r c.spec.plugins } }))
  unfolding step
  raw-HasApplications c kind (ok r) = refl
  raw-HasApplications c kind (err e) = tt
  raw-HasApplications c kind (panics m) = tt

  marshalled-HasApplications :
      (c : KfConfig) (kind : String) (bytes : Result String)
      → HasApplications c.spec.applications (
          step invalid_argument "Could not marshal spec; error " bytes λ b.
            step internal_error "Could not unmarshal plugin to RawExtension; error "
              (Y.unmarshal_raw b)
              λ r.
                ok (record c {
                  spec = record c.spec { plugins = put_plugin kind r c.spec.plugins };
                }))
  unfolding step
  marshalled-HasApplications c kind (ok b) = raw-HasApplications c kind (Y.unmarshal_raw b)
  marshalled-HasApplications c kind (err e) = tt
  marshalled-HasApplications c kind (panics m) = tt

  set_plugin_spec-HasApplications :
      (c : KfConfig) (kind : String) (spec : T)
      → HasApplications c.spec.applications (set_plugin_spec Y c kind spec)
  unfolding set_plugin_spec
  set_plugin_spec-HasApplications c kind spec = marshalled-HasApplications c kind (Y.marshal spec)

  kept_unless-HasApplications :
      (new : KfConfig) (r : Result KfConfig)
      → HasApplications new.spec.applications r
      → HasApplications new.spec.applications (kept_unless new r)
  unfolding kept_unless
  kept_unless-HasApplications new (ok c) h = h
  kept_unless-HasApplications new (err e) h = refl
  kept_unless-HasApplications new (panics m) h = tt

  copy_plugin-HasApplications :
      (kind : String) (spec : Result T) (new : KfConfig)
      → HasApplications new.spec.applications (copy_plugin Y kind spec new)
  unfolding copy_plugin
  copy_plugin-HasApplications kind (ok spec) new =
      kept_unless-HasApplications new (set_plugin_spec Y new kind spec)
        (set_plugin_spec-HasApplications new kind spec)
  copy_plugin-HasApplications kind (err e) new = refl
  copy_plugin-HasApplications kind (panics m) new = tt

  pub merge_plugins-HasApplications :
      (kinds : List String) (old : KfConfig) (apps : List Application) (r : Result KfConfig)
      → HasApplications apps r
      → HasApplications apps (merge_plugins Y kinds old r)
  unfolding merge_plugins
  merge_plugins-HasApplications [] old apps r h = h
  merge_plugins-HasApplications (kind ∷ kinds) old apps (ok new) h =
      merge_plugins-HasApplications kinds old apps
        (copy_plugin Y kind (get_plugin_spec Y old kind) new)
        (subst (λ x. HasApplications x (copy_plugin Y kind (get_plugin_spec Y old kind) new)) h
          (copy_plugin-HasApplications kind (get_plugin_spec Y old kind) new))
  merge_plugins-HasApplications (kind ∷ kinds) old apps (err e) h = tt
  merge_plugins-HasApplications (kind ∷ kinds) old apps (panics m) h = tt
