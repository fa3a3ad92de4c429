-- ===== src/Upgrade/Merged.antt =====
-- The parameters of an application after `MergeKfCfg`.
use mathlib.Core.Path.{subst}
use opendatahub_operator.Prelude.{
  String, ◌≡◌, refl, sym, ap, ◌∙◌, Option, none, some, List, [], ◌∷◌, map, find, ◌==◌, arith,
}
use opendatahub_operator.Result.{Result, ok, err, panics}
use opendatahub_operator.KfConfig.{KfConfig, Application, KustomizeConfig, NameValue}
use opendatahub_operator.KfConfig.Parameters.{get_parameter, get_application_parameter}
use opendatahub_operator.KfConfig.Plugins.{Yaml}
use opendatahub_operator.Upgrade.{
  merge_parameter, merge_config, merge_into, merge_application, merge_applications, plugin_kinds,
  merge_plugins, merged_applications, merge_rest, merge_kf_cfg,
}
use opendatahub_operator.Upgrade.Parameters.{
  HaveNames, merged_value, get_parameter-merge, Found, find-merged, HasApplications,
  merge_plugins-HasApplications,
}

merged_applications_inv :
    (c c' : KfConfig) (r : Result (List Application))
    → merged_applications c r ≡ ok c'
    → (r ≡ ok c'.spec.applications) × (c'.name ≡ c.name)
unfolding merged_applications
merged_applications_inv c c' (ok apps) h = (ground arith, ground arith)
merged_applications_inv c c' (err e) h = absurd (cc)
merged_applications_inv c c' (panics m) h = absurd (cc)

merge_rest_inv :
    {T : Type 0} (Y : Yaml T) (old c' : KfConfig) (apps : List Application) (r : Result KfConfig)
    → HasApplications Y apps r
    → merge_rest old r ≡ ok c'
    → merge_applications old.spec.applications apps ≡ ok c'.spec.applications
unfolding merge_rest
merge_rest_inv Y old c' apps (ok c) same h =
    ap (merge_applications old.spec.applications) (sym same)
    ∙ (merged_applications_inv c c' (merge_applications old.spec.applications c.spec.applications)
        h).0
merge_rest_inv Y old c' apps (err e) same h = absurd (cc)
merge_rest_inv Y old c' apps (panics m) same h = absurd (cc)

merge_kf_cfg_inv :
    {T : Type 0} (Y : Yaml T) (old new c' : KfConfig)
    → merge_kf_cfg Y old new ≡ ok c'
    → merge_applications old.spec.applications new.spec.applications ≡ ok c'.spec.applications
unfolding merge_kf_cfg
merge_kf_cfg_inv Y old new c' h =
    merge_rest_inv Y old c' new.spec.applications
      (merge_plugins Y plugin_kinds old (ok (record new { name = old.name })))
      (merge_plugins-HasApplications Y plugin_kinds old new.spec.applications
        (ok (record new { name = old.name })) refl)
      h

-- The application has this value for the parameter.
abbrev HasValue : Application → String → Option String → Type 0
HasValue a q v =
    (k : KustomizeConfig) × (a.kustomize_config ≡ some k) × (get_parameter k.parameters q ≡ v)

merge_config-HasValue :
    (a a' : Application) (k ko : KustomizeConfig) (ps : List NameValue) (q : String)
    → a.kustomize_config ≡ some k
    → k.parameters ≡ ps
    → HaveNames ko.parameters
    → merge_config a k ps (some ko) ≡ ok a'
    → HasValue a' q (merged_value (get_parameter ps q) (get_parameter ko.parameters q))
unfolding merge_config get_parameter
merge_config-HasValue a a' k ko [] q e empty names h =
    (k, ground arith, ap (λ ps. get_parameter ps q) empty)
merge_config-HasValue a a' k ko (p ∷ ps) q e same names h = (
  record k { parameters = map (merge_parameter ko.parameters) (p ∷ ps) },
  ground arith,
  get_parameter-merge ko.parameters (p ∷ ps) q names,
)

application_value :
    (c : KfConfig) (a : Application) (n q : String) (v : Option String)
    → find (λ b. b.name == n) c.spec.applications ≡ some a
    → HasValue a q v
    → get_application_parameter c n q ≡ ok v
unfolding get_application_parameter
application_value c a n q v found (k, e, value) = rw (found, e, value)

-- The parameters of an old application, none where there is no application. No name is there twice.
abbrev pub OldParameters : Option Application → List NameValue → Type 0
OldParameters none ps = ps ≡ []
OldParameters (some o) ps =
    (ko : KustomizeConfig) × (o.kustomize_config ≡ some ko) × (ko.parameters ≡ ps) × HaveNames ps

merged_none : (v : Option String) → merged_value v none ≡ v
merged_none none = refl
merged_none (some v) = refl

merge_application-HasValue :
    (a a' : Application) (k : KustomizeConfig) (o : Option Application) (ps : List NameValue)
    (q : String)
    → a.kustomize_config ≡ some k
    → OldParameters o ps
    → merge_application a o ≡ ok a'
    → HasValue a' q (merged_value (get_parameter k.parameters q) (get_parameter ps q))
unfolding merge_application merge_into get_parameter
merge_application-HasValue a a' k none ps q e old h = (
  k,
  ground arith,
  sym (
      ap (λ qs. merged_value (get_parameter k.parameters q) (get_parameter qs q)) old
      ∙ merged_none (get_parameter k.parameters q)),
)
merge_application-HasValue a a' k (some o) ps q e (ko, eo, same, names) h =
    let h' : merge_config a k k.parameters (some ko) ≡ ok a' =
      ap (merge_config a k k.parameters) (sym eo) ∙ ap (λ c. merge_into a c o) (sym e) ∙ h in
    subst (λ qs. HasValue a' q (merged_value (get_parameter k.parameters q) (get_parameter qs q)))
      same
      (merge_config-HasValue a a' k ko k.parameters q e refl (subst HaveNames (sym same) names) h')

module _ {T : Type 0} (Y : Yaml T) (old new c' : KfConfig) (merged : merge_kf_cfg Y old new ≡ ok c')
    (n q : String) where
  -- After a success of `MergeKfCfg`, an application of the new version that has a `KustomizeConfig`
  -- lacks the parameters that the new version lacks; every other parameter has the value that it has
  -- in the first old application of the name, and where the old one has none, that of the new version.
  -- The old application has a `KustomizeConfig`, if there is one, and no parameter twice.
  pub parameter-merge_kf_cfg :
      (a : Application) (k : KustomizeConfig) (ps : List NameValue)
      → find (λ b. b.name == n) new.spec.applications ≡ some a
      → a.kustomize_config ≡ some k
      → OldParameters (find (λ o. a.name == o.name) old.spec.applications) ps
      → get_application_parameter c' n q
        ≡ ok (merged_value (get_parameter k.parameters q) (get_parameter ps q))
  parameter-merge_kf_cfg a k ps found configured known =
      let pair =
        find-merged old.spec.applications new.spec.applications c'.spec.applications n
          (merge_kf_cfg_inv Y old new c' merged) in
      let (a', found', made) =
        subst (λ r. Found old.spec.applications n r (find (λ b. b.name == n) c'.spec.applications))
          found pair in
      application_value c' a' n q _ found' (
        merge_application-HasValue a a' k (find (λ o. a.name == o.name) old.spec.applications) ps q
          configured known made)
