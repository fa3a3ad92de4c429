-- ===== src/Loaders/Versions.antt =====
-- The converters of the two versions. pkg/kfconfig/loaders/v1beta1.go is the text of v1.go, at the
-- types of pkg/apis/apps/kfdef/v1beta1, which are the text of those of v1.
use opendatahub_operator.Result.{Result}
use opendatahub_operator.KfConfig.{KfConfig}
use opendatahub_operator.Loaders.Types.{GcpPluginSpec}
use opendatahub_operator.Loaders.Accessors.{SpecYaml}
use opendatahub_operator.Loaders.Convert.{KfDefYaml, load_kf_config}
use opendatahub_operator.Loaders.Convert.Written.{load_kf_def}
use opendatahub_operator.Loaders.Files.{Loader}

module _ {Obj : Type 0} (F : KfDefYaml Obj) where
  unfoldable pub v1beta1_load_kf_config : SpecYaml GcpPluginSpec → Obj → Result KfConfig
  unfolding load_kf_config
  v1beta1_load_kf_config Y def = load_kf_config F Y def

  unfoldable pub v1beta1_load_kf_def : KfConfig → Result Obj
  unfolding load_kf_def
  v1beta1_load_kf_def config = load_kf_def F config

  abbrev pub v1_loader : SpecYaml GcpPluginSpec → Loader Obj
  v1_loader Y = record { load_kf_config = load_kf_config F Y; load_kf_def = load_kf_def F }

  abbrev pub v1beta1_loader : SpecYaml GcpPluginSpec → Loader Obj
  v1beta1_loader Y = record {
    load_kf_config = v1beta1_load_kf_config Y;
    load_kf_def = v1beta1_load_kf_def;
  }
