-- ===== src/Loaders/Accessors.antt =====
-- pkg/apis/apps/kfdef/v1/application_types.go: the accessors of a KfDef. Those of the configuration
-- (KfConfig/Plugins, KfConfig/Secrets, KfConfig/Applications) differ from them.
use opendatahub_operator.Prelude.{
  String, ◌<>◌, ◌≡◌, Option, none, some, List, [], ◌∷◌, find, ◌==◌, if◌then◌else◌, arith,
}
use opendatahub_operator.Errors.{Error, kf_error, not_found, text}
use opendatahub_operator.Result.{Result, ok, err, panics}
use opendatahub_operator.Loaders.Types.{KfDef, Plugin, Secret, SecretSource, Application}

-- `yaml.Marshal` of a `RawExtension`, and `yaml.Unmarshal` into a variable, with what it leaves in it.
pub record SpecYaml (T : Type 0) : Type 0 where
  pub marshal_raw : Option String → Result String
  pub unmarshal : String → T × Option Error
  pub marshal : T → Result String
  pub unmarshal_raw : String → Option String × Option Error

module _ {T : Type 0} (Y : SpecYaml T) where
  -- The error of `Unmarshal` is logged and dropped.
  unmarshalled : Result String → Result T
  unmarshalled (ok bytes) = ok (Y.unmarshal bytes).0
  unmarshalled (err e) = err e
  unmarshalled (panics m) = panics m

  spec_of : String → Option Plugin → Result T
  unfolding unmarshalled
  spec_of plugin_kind none = err (kf_error not_found ("Plugin not found: " <> plugin_kind))
  spec_of plugin_kind (some p) = unmarshalled (Y.marshal_raw p.spec)

  -- `GetPluginSpec`
  unfoldable pub get_plugin_spec : KfDef → String → Result T
  unfolding spec_of
  get_plugin_spec d plugin_kind =
      spec_of plugin_kind (find (λ p. p.kind == plugin_kind) d.spec.plugins)

-- The first plugin of the kind is given the raw text; where there is none, one is added.
unfoldable pub put_plugin : String → Option String → List Plugin → List Plugin
put_plugin plugin_kind r [] =
    record { name = plugin_kind; namespace = ""; kind = plugin_kind; spec = r } ∷ []
put_plugin plugin_kind r (p ∷ plugins) =
    if p.kind == plugin_kind
    then record p { spec = r } ∷ plugins
    else p ∷ put_plugin plugin_kind r plugins

abbrev pub with_plugins : KfDef → List Plugin → KfDef
with_plugins d plugins = record d { spec = record d.spec { plugins = plugins } }

module _ {T : Type 0} (Y : SpecYaml T) where
  stored : KfDef → String → Result String → Result KfDef
  unfolding put_plugin
  stored d plugin_kind (ok bytes) =
      ok (with_plugins d (put_plugin plugin_kind (Y.unmarshal_raw bytes).0 d.spec.plugins))
  stored d plugin_kind (err e) = err e
  stored d plugin_kind (panics m) = panics m

  -- `SetPluginSpec`
  unfoldable pub set_plugin_spec : KfDef → String → T → Result KfDef
  unfolding stored
  set_plugin_spec d plugin_kind spec = stored d plugin_kind (Y.marshal spec)

from_env : (String → String) → String → Option String → Result String
from_env getenv name (some variable) = ok (getenv variable)
from_env getenv name none = err (text ("No secret source provided for secret " <> name))

from_source : (String → String) → String → SecretSource → Option String → Result String
unfolding from_env
from_source getenv name s (some value) = ok value
from_source getenv name s none = from_env getenv name s.env_source

secret_value : (String → String) → String → Option SecretSource → Result String
unfolding from_source
secret_value getenv name none = panics "nil pointer dereference"
secret_value getenv name (some s) = from_source getenv name s s.literal_source

found_secret : (String → String) → String → Option Secret → Result String
unfolding secret_value
found_secret getenv name none = err (kf_error not_found ("Secret not found: " <> name))
found_secret getenv name (some s) = secret_value getenv name s.secret_source

-- `GetSecret`
unfoldable pub get_secret : (String → String) → KfDef → String → Result String
unfolding found_secret
get_secret getenv d name = found_secret getenv name (find (λ s. s.name == name) d.spec.secrets)

-- The loop of `SetSecret`.
put_secret : Secret → List Secret → List Secret
put_secret new [] = new ∷ []
put_secret new (s ∷ secrets) =
    if s.name == new.name then new ∷ secrets else s ∷ put_secret new secrets

unfoldable pub set_secret : KfDef → Secret → KfDef
unfolding put_secret
set_secret d new = record d { spec = record d.spec { secrets = put_secret new d.spec.secrets } }

without : String → List Application → List Application
without app_name [] = []
without app_name (a ∷ apps) =
    let rest = without app_name apps in if a.name == app_name then rest else a ∷ rest

-- `DeleteApplication`: all applications of the name.
unfoldable pub delete_application : KfDef → String → KfDef
unfolding without
delete_application d app_name = record d {
  spec = record d.spec { applications = without app_name d.spec.applications };
}

abbrev pub find_app : String → List Application → Option Application
find_app n = find (λ a. a.name == n)

find-without :
    (n m : String) (apps : List Application)
    → find_app m (without n apps) ≡ (if n == m then none else find_app m apps)
unfolding without
find-without n m [] = ground arith
find-without n m (a ∷ apps) = ground (arith, find-without n m apps)

-- `DeleteApplication` of a KfDef leaves no application of the name, and every other name names the
-- application that it named.
delete_application_all :
    (d : KfDef) (n m : String)
    → find_app m (delete_application d n).spec.applications
      ≡ (if n == m then none else find_app m d.spec.applications)
unfolding delete_application
delete_application_all d n m = find-without n m d.spec.applications
