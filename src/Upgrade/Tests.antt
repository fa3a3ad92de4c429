-- ===== src/Upgrade/Tests.antt =====
-- Two versions of a configuration with one application.
use opendatahub_operator.Prelude.{String, ◌≡◌, refl, none, some, List, [], ◌∷◌, string_dec}
use opendatahub_operator.Errors.{text}
use opendatahub_operator.Result.{ok, err}
use opendatahub_operator.KfConfig.{KfConfig, Application, KustomizeConfig, NameValue}
use opendatahub_operator.KfConfig.Parameters.{get_parameter, get_application_parameter}
use opendatahub_operator.KfConfig.Plugins.{Yaml, get_plugin_spec}
use opendatahub_operator.Controller.Simulation.{config}
use opendatahub_operator.Upgrade.{merge_kf_cfg}
use opendatahub_operator.Upgrade.Parameters.{merged_value}
use opendatahub_operator.Upgrade.Merged.{parameter-merge_kf_cfg}

abbrev yaml : Yaml String
yaml = record {
  marshal = λ s. ok s;
  unmarshal = λ s. ok s;
  marshal_raw = λ r. err (text "none");
  unmarshal_raw = λ s. ok (some s);
}

abbrev customised : List NameValue
customised = record { name = "replicas"; value = "3" } ∷ record { name = "gone"; value = "1" } ∷ []

abbrev defaults : KustomizeConfig
defaults = record {
  repo_ref = none;
  overlays = [];
  parameters =
      record { name = "replicas"; value = "1" } ∷ record { name = "image"; value = "v2" } ∷ [];
}

abbrev app_with : KustomizeConfig → Application
app_with k = record { name = "dex"; kustomize_config = some k }

abbrev config_with : String → KustomizeConfig → KfConfig
config_with name k = record config {
  name = name;
  spec = record config.spec { applications = app_with k ∷ [] };
}

abbrev old : KfConfig
old = config_with "odh" (record defaults { parameters = customised })

abbrev new : KfConfig
new = config_with "next" defaults

abbrev merged : KfConfig
merged = config_with "odh" (record defaults {
  parameters =
      record { name = "replicas"; value = "3" } ∷ record { name = "image"; value = "v2" } ∷ [];
})

merged_lem : merge_kf_cfg yaml old new ≡ ok merged
unfolding merge_kf_cfg get_plugin_spec string_dec
merged_lem = refl

-- The number of replicas is that of the old version.
parameter-merge_kf_cfg_example :
    get_application_parameter merged "dex" "replicas"
    ≡ ok (
        merged_value
          (get_parameter defaults.parameters "replicas")
          (get_parameter customised "replicas"))
unfolding string_dec
parameter-merge_kf_cfg_example =
    parameter-merge_kf_cfg yaml old new merged merged_lem "dex" "replicas" (app_with defaults)
      defaults customised refl refl
      (record defaults { parameters = customised }, refl, refl, (refl, (refl, tt)))
