-- ===== src/Upgrade.antt =====
-- pkg/kfupgrade/kfupgrade.go: `MergeKfCfg`, which brings the customisations of a configuration into
-- that of a new version. The YAML library is a parameter.
pub mod Parameters
pub mod Merged
pub mod Steps
mod Tests
use opendatahub_operator.Prelude.{
  String, Bool, true, false, not, ◌&&◌, Option, none, some, List, [], ◌∷◌, map, find, ◌==◌,
}
use opendatahub_operator.Result.{Result, ok, err, panics}
use opendatahub_operator.KfConfig.{KfConfig, Application, KustomizeConfig, NameValue}
use opendatahub_operator.KfConfig.Parameters.{with_applications}
use opendatahub_operator.KfConfig.Plugins.{Yaml, get_plugin_spec, set_plugin_spec}

-- The first old parameter of the name with another value.
abbrev pub customised : NameValue → List NameValue → Option NameValue
customised p olds = find (λ o. p.name == o.name && not (p.value == o.value)) olds

abbrev pub revalued : NameValue → Option NameValue → NameValue
revalued p none = p
revalued p (some o) = record p { value = o.value }

abbrev pub merge_parameter : List NameValue → NameValue → NameValue
merge_parameter olds p = revalued p (customised p olds)

-- The pointers are followed unchecked; that of the old application only for a parameter.
unfoldable pub merge_config :
    Application → KustomizeConfig → List NameValue → Option KustomizeConfig → Result Application
merge_config a k [] old = ok a
merge_config a k (p ∷ ps) none = panics "nil pointer dereference"
merge_config a k (p ∷ ps) (some old) = ok (record a {
  kustomize_config = some (record k { parameters = map (merge_parameter old.parameters) (p ∷ ps) });
})

unfoldable pub merge_into : Application → Option KustomizeConfig → Application → Result Application
unfolding merge_config
merge_into a none o = panics "nil pointer dereference"
merge_into a (some k) o = merge_config a k k.parameters o.kustomize_config

-- An application takes the parameters of the first old one of its name.
unfoldable pub merge_application : Application → Option Application → Result Application
unfolding merge_into
merge_application a none = ok a
merge_application a (some o) = merge_into a a.kustomize_config o

unfoldable pub cons_ok : Result Application → Result (List Application) → Result (List Application)
cons_ok (ok a) (ok rest) = ok (a ∷ rest)
cons_ok (ok a) r = r
cons_ok (err e) r = err e
cons_ok (panics m) r = panics m

unfoldable pub merge_applications : List Application → List Application → Result (List Application)
unfolding merge_application cons_ok
merge_applications olds [] = ok []
merge_applications olds (a ∷ rest) =
    cons_ok (merge_application a (find (λ o. a.name == o.name) olds)) (merge_applications olds rest)

abbrev pub plugin_kinds : List String
plugin_kinds = "KfAwsPlugin" ∷ "KfGcpPlugin" ∷ "KfMinikubePlugin" ∷ "KfExistingArriktoPlugin" ∷ []

-- An error of `SetPluginSpec` is not looked at.
kept_unless : KfConfig → Result KfConfig → Result KfConfig
kept_unless new (ok c) = ok c
kept_unless new (err e) = ok new
kept_unless new (panics m) = panics m

module _ {T : Type 0} (Y : Yaml T) where
  -- Every plugin is read and written as that of gcp, which is `T`.
  copy_plugin : String → Result T → KfConfig → Result KfConfig
  unfolding kept_unless
  copy_plugin kind (ok spec) new = kept_unless new (set_plugin_spec Y new kind spec)
  copy_plugin kind (err e) new = ok new
  copy_plugin kind (panics m) new = panics m

  pub merge_plugins : List String → KfConfig → Result KfConfig → Result KfConfig
  unfolding copy_plugin
  merge_plugins [] old r = r
  merge_plugins (kind ∷ kinds) old (ok new) =
      merge_plugins kinds old (copy_plugin kind (get_plugin_spec Y old kind) new)
  merge_plugins (kind ∷ kinds) old (err e) = err e
  merge_plugins (kind ∷ kinds) old (panics m) = panics m

pub merged_applications : KfConfig → Result (List Application) → Result KfConfig
merged_applications c (ok apps) = ok (with_applications c apps)
merged_applications c (err e) = err e
merged_applications c (panics m) = panics m

pub merge_rest : KfConfig → Result KfConfig → Result KfConfig
unfolding merged_applications merge_applications
merge_rest old (ok c) =
    merged_applications c (merge_applications old.spec.applications c.spec.applications)
merge_rest old (err e) = err e
merge_rest old (panics m) = panics m

-- `MergeKfCfg`
unfoldable pub merge_kf_cfg : {T : Type 0} → Yaml T → KfConfig → KfConfig → Result KfConfig
unfolding merge_plugins merge_rest
merge_kf_cfg Y old new =
    merge_rest old (merge_plugins Y plugin_kinds old (ok (record new { name = old.name })))
