-- ===== src/KfConfig/Tests.antt =====
-- The accessors of a configuration at concrete configurations.
use opendatahub_operator.Prelude.{
  ◌-◌, ◌≤◌, ◌⊎◌, String, ◌≡◌, refl, true, false, none, some, [], ◌∷◌, ◌==◌, if◌then◌else◌, arith,
  string_dec,
}
use opendatahub_operator.Result.{ok}
use opendatahub_operator.KfConfig.{
  KfConfig, Condition, condition_true, condition_false, NameValue, Application, Secret,
  KustomizeConfig,
}
use opendatahub_operator.KfConfig.Conditions.{
  get_condition, set_condition, set_plugin_finished, set_plugin_failed, is_plugin_finished,
  is_plugin_failed,
}
use opendatahub_operator.KfConfig.Conditions.Laws.{
  occurrences, get_condition-set_condition_ne, set_condition_unique,
}
use opendatahub_operator.KfConfig.Conditions.PluginState.{plugin_state_exclusive}
use opendatahub_operator.KfConfig.Parameters.{
  get_parameter, set_parameter, get_application_parameter, legacy_set_application_parameter,
}
use opendatahub_operator.KfConfig.Parameters.Laws.{set_parameter_shadowed}
use opendatahub_operator.KfConfig.Parameters.Config.{find_app, get-legacy_set}
use opendatahub_operator.KfConfig.Applications.{delete_application}
use opendatahub_operator.KfConfig.Applications.Laws.{apps_named, delete_application-named}
use opendatahub_operator.KfConfig.Secrets.{get_secret, get_secret_source, set_secret, secret_value}
use opendatahub_operator.KfConfig.Secrets.Laws.{get_secret-set_secret}
use opendatahub_operator.KfConfig.Plugins.{Yaml, get_plugin_spec, set_plugin_spec}
use opendatahub_operator.KfConfig.Plugins.Laws.{IsFaithful, get_plugin_spec-set_plugin_spec}

abbrev parameter : String → String → NameValue
parameter name value = record { name = name; value = value }

abbrev kustomize : KustomizeConfig
kustomize = record {
  repo_ref = none;
  overlays = "debug" ∷ [];
  parameters = parameter "user" "ada" ∷ parameter "zone" "eu" ∷ [];
}

abbrev jupyter : Application
jupyter = record { name = "jupyter"; kustomize_config = some kustomize }

abbrev airflow : Application
airflow = record { name = "airflow"; kustomize_config = none }

abbrev condition : String → Condition
condition type = record {
  type = type;
  status = condition_true;
  last_update_time = 1;
  last_transition_time = 1;
  reason = "";
  message = "";
}

abbrev token : Secret
token = record {
  name = "token";
  secret_source =
      some (record { literal_source = none; hashed_source = none; env_source = some "TOKEN" });
}

abbrev config : KfConfig
config = record {
  api_version = "kfdef.apps.kubeflow.org/v1";
  name = "odh";
  namespace = "ns";
  annotations = [];
  spec = record {
    app_dir = "/tmp/ns/odh";
    config_file_name = "config.yaml";
    version = "v1";
    use_basic_auth = false;
    platform = "";
    project = "";
    email = "";
    ip_name = "";
    hostname = "";
    skip_init_project = false;
    zone = "";
    delete_storage = false;
    applications = jupyter ∷ airflow ∷ [];
    plugins = [];
    secrets = token ∷ [];
    repos = [];
  };
  status = record { conditions = condition "Available" ∷ []; caches = [] };
}

get_condition-set_condition_ne_example :
    get_condition (set_condition "Degraded" condition_true "" "late" 9 config) "Available"
    ≡ get_condition config "Available"
get_condition-set_condition_ne_example =
    get_condition-set_condition_ne config "Degraded" condition_true "" "late" 9 "Available"
      (λ e. cc)

config_unique : (u : String) → occurrences u config.status.conditions ≤ 1
config_unique u = ground arith

set_condition_unique_example :
    occurrences "Available"
      (set_condition "Available" condition_false "" "gone" 9 config).status.conditions
    ≤ 1
set_condition_unique_example =
    set_condition_unique config "Available" condition_false "" "gone" 9 config_unique "Available"

plugin_state_exclusive_example :
    (is_plugin_finished (set_plugin_finished "KfGcpPlugin" "done" 3 4 config) "KfGcpPlugin" ≡ true)
    × (is_plugin_failed (set_plugin_finished "KfGcpPlugin" "done" 3 4 config) "KfGcpPlugin" ≡ false)
    × (is_plugin_failed (set_plugin_failed "KfGcpPlugin" "done" 3 4 config) "KfGcpPlugin" ≡ true)
    × (is_plugin_finished (set_plugin_failed "KfGcpPlugin" "done" 3 4 config) "KfGcpPlugin" ≡ false)
plugin_state_exclusive_example = plugin_state_exclusive "KfGcpPlugin" "done" 3 4 config

set_parameter_shadowed_example :
    get_parameter
      (set_parameter (parameter "user" "ada" ∷ parameter "user" "eve" ∷ []) "user" "bob")
      "user"
    ≡ get_parameter (parameter "user" "ada" ∷ parameter "user" "eve" ∷ []) "user"
unfolding get_parameter string_dec
set_parameter_shadowed_example =
    set_parameter_shadowed (parameter "user" "ada") (parameter "user" "eve" ∷ []) "bob" "eve" refl

get-legacy_set_example :
    (c : KfConfig) × (legacy_set_application_parameter config "jupyter" "user" "bob" ≡ ok c)
    × ((app m : String)
        → get_application_parameter c app m ≡ (
            if "jupyter" == app
            then ok (if "user" == m then some "bob" else get_parameter kustomize.parameters m)
            else get_application_parameter config app m))
unfolding get_parameter string_dec
get-legacy_set_example =
    get-legacy_set config "jupyter" "user" "bob" jupyter kustomize (refl, (refl, tt)) refl refl
      (refl, (refl, tt))

delete_application-named_example :
    (apps_named "airflow" (delete_application config "jupyter").spec.applications ≡ (
      if "jupyter" == "airflow"
      then apps_named "airflow" config.spec.applications - 1
      else apps_named "airflow" config.spec.applications))
    × ((jupyter.name ≡ airflow.name)
        ⊎ (find_app "airflow" (delete_application config "jupyter").spec.applications
            ≡ find_app "airflow" config.spec.applications))
delete_application-named_example = delete_application-named config "jupyter" "airflow"

get_secret-set_secret_example :
    (get_secret (λ v. "value of") (set_secret token config) "token" ≡ (
      if token.name == "token"
      then secret_value (λ v. "value of") "token" token.secret_source
      else get_secret (λ v. "value of") config "token"))
    × (get_secret_source (set_secret token config) "token" ≡ (
        if token.name == "token" then ok token.secret_source else get_secret_source config "token"))
get_secret-set_secret_example = get_secret-set_secret (λ v. "value of") token config "token"

-- A YAML library for plugins that are plain texts.
abbrev plain : Yaml String
plain = record {
  marshal = λ t. ok t;
  unmarshal = λ t. ok t;
  marshal_raw = λ r. ok (elim r [ none ↦ "null" | some t ↦ t ]);
  unmarshal_raw = λ t. ok (some t);
}

plain-IsFaithful : IsFaithful plain
plain-IsFaithful = record { passage = λ spec bytes raw m u. (bytes, ground arith, ground arith) }

abbrev with_gcp : KfConfig
with_gcp = record config {
  spec = record config.spec {
    plugins =
        record { name = "KfGcpPlugin"; namespace = ""; kind = "KfGcpPlugin"; spec = some "gcp" }
        ∷ [];
  };
}

get_plugin_spec-set_plugin_spec_example : get_plugin_spec plain with_gcp "KfGcpPlugin" ≡ (
    if "KfGcpPlugin" == "KfGcpPlugin" then ok "gcp" else get_plugin_spec plain config "KfGcpPlugin")
unfolding set_plugin_spec
get_plugin_spec-set_plugin_spec_example =
    get_plugin_spec-set_plugin_spec plain plain-IsFaithful config with_gcp "KfGcpPlugin"
      "KfGcpPlugin" "gcp" refl
