-- ===== src/KfConfig/Plugins.antt =====
-- pkg/kfconfig/types.go: the specifications of the plugins, which are kept as raw text, and the cache
-- of a repository. The YAML library is a parameter.
pub mod Laws
use opendatahub_operator.Prelude.{
  ℕ, String, ◌<>◌, Bool, true, false, Option, none, some, List, [], ◌∷◌, find, ◌==◌, if◌then◌else◌,
}
use opendatahub_operator.Errors.{
  Error, kf_error, not_found, invalid_argument, internal_error, error_message,
}
use opendatahub_operator.Result.{Result, ok, err, panics}
use opendatahub_operator.KfConfig.{KfConfig, Plugin, Cache}
use opendatahub_operator.KfConfig.Conditions.{plugin_not_found_err_prefix}

-- `yaml.Marshal` and `yaml.Unmarshal` at a plugin's own type and at `RawExtension`.
pub record Yaml (T : Type 0) : Type 0 where
  pub marshal : T → Result String
  pub unmarshal : String → Result T
  pub marshal_raw : Option String → Result String
  pub unmarshal_raw : String → Result (Option String)

-- The rest of a function after a step of YAML; its error is told under a code and a prefix.
unfoldable pub step : {A B : Type 0} → ℕ → String → Result A → (A → Result B) → Result B
step code prefix (ok a) f = f a
step code prefix (err e) f = err (kf_error code (prefix <> error_message e))
step code prefix (panics m) f = panics m

module _ {T : Type 0} (Y : Yaml T) where
  read_spec : String → Option Plugin → Result T
  unfolding step
  read_spec plugin_kind none =
      err (kf_error not_found (plugin_not_found_err_prefix <> (" " <> plugin_kind)))
  read_spec plugin_kind (some p) =
      step invalid_argument ("Could not marshal plugin " <> (plugin_kind <> " args; error "))
        (Y.marshal_raw p.spec)
        λ bytes.
          step internal_error
            ("Could not unmarshal plugin " <> (plugin_kind <> " to the provided type; error "))
            (Y.unmarshal bytes) λ spec. ok spec

  -- `GetPluginSpec`, of the first plugin of the kind
  unfoldable pub get_plugin_spec : KfConfig → String → Result T
  unfolding read_spec
  get_plugin_spec c plugin_kind =
      read_spec plugin_kind (find (λ p. p.kind == plugin_kind) c.spec.plugins)

-- The first plugin of the kind is given the raw text; where there is none, one is added.
unfoldable pub put_plugin : String → Option String → List Plugin → List Plugin
put_plugin plugin_kind r [] =
    record { name = plugin_kind; namespace = ""; kind = plugin_kind; spec = r } ∷ []
put_plugin plugin_kind r (p ∷ plugins) =
    if p.kind == plugin_kind
    then record p { spec = r } ∷ plugins
    else p ∷ put_plugin plugin_kind r plugins

module _ {T : Type 0} (Y : Yaml T) where
  -- `SetPluginSpec`; an error leaves the configuration as it was.
  unfoldable pub set_plugin_spec : KfConfig → String → T → Result KfConfig
  unfolding step put_plugin
  set_plugin_spec c plugin_kind spec =
      step invalid_argument "Could not marshal spec; error " (Y.marshal spec) λ bytes.
        step internal_error "Could not unmarshal plugin to RawExtension; error "
          (Y.unmarshal_raw bytes)
          λ r. ok (record c {
            spec = record c.spec { plugins = put_plugin plugin_kind r c.spec.plugins };
          })

-- `GetRepoCache`
unfoldable pub get_repo_cache : KfConfig → String → Option Cache
get_repo_cache c repo_name = find (λ r. r.name == repo_name) c.status.caches
