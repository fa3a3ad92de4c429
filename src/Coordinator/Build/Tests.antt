-- ===== src/Coordinator/Build/Tests.antt =====
-- A coordinator for the platform gcp, where the world is its configuration.
use opendatahub_operator.Prelude.{◌≡◌, refl, true, false, none, some, [], ◌∷◌, string_dec}
use opendatahub_operator.Errors.{text}
use opendatahub_operator.Result.{ok, err, Action, run}
use opendatahub_operator.Strings.{join, split, has_prefix, has_suffix}
use opendatahub_operator.Maps.{lookup}
use opendatahub_operator.Apps.{KfApp, all}
use opendatahub_operator.KfConfig.{KfConfig}
use opendatahub_operator.Controller.Simulation.{config}
use opendatahub_operator.Loaders.Files.{
  Files, Loader, version_text, converter, load_config_from_uri,
}
use opendatahub_operator.Coordinator
use opendatahub_operator.Coordinator.{Env, Coordinator}
use opendatahub_operator.Coordinator.Build.{
  Builder, named, coordinator_of, get_platform, kf_app, new_load_kf_app_from_uri,
  repo_version_to_uri,
}
use opendatahub_operator.Coordinator.Build.Complete.{IsComplete, new_load-IsComplete}

abbrev World : Type 0
World = KfConfig

abbrev nothing : Action World (Unit {0})
nothing w = (ok tt, w)

abbrev odh : KfConfig
odh = record config {
  api_version = "kfdef.apps.kubeflow.org/v1";
  name = "odh";
  spec = record config.spec { platform = "gcp" };
}

abbrev loader : Loader (Unit {0})
loader = record { load_kf_config = λ _. ok odh; load_kf_def = λ _. ok tt }

abbrev files : Files World (Unit {0})
files = record {
  parse_scheme = λ _. ok "";
  is_request_uri = λ _. false;
  temp_dir = λ w. (ok "/tmp", w);
  get_file = λ _ _. nothing;
  copy_file = λ _ _. nothing;
  read_file = λ _ w. (ok "", w);
  write_file = λ _ _. nothing;
  getwd = λ w. (ok "/", w);
  path_join = join "/";
  file_dir = λ f. f;
  file_base = λ f. f;
  unmarshal = λ _. ok tt;
  marshal = λ _. ok "";
  api_version = λ _. some (version_text "kfdef.apps.kubeflow.org/v1");
  v1alpha1 = loader;
  v1beta1 = loader;
  v1 = loader;
}

abbrev app : KfApp World
app = record {
  apply = λ _. nothing;
  delete = λ _. nothing;
  dump = λ _. nothing;
  generate = λ _. nothing;
  init = λ _. nothing;
  show = none;
}

abbrev builder : Builder World (Unit {0})
builder = record {
  files = files;
  env = record {
    kf_def = λ w. w;
    sync_cache = nothing;
    write_config_to_file = λ _. nothing;
    setup_workload_identity_permission = nothing;
    config_pod_default = nothing;
  };
  put_kf_def = λ k _. k;
  minikube_platform = λ _. app;
  gcp_platform = λ _. ok app;
  existing_arrikto_platform = λ _. err (text "no");
  aws_platform = λ _. err (text "no");
  kustomize_app = λ _. app;
  read_dir = λ _ w. (ok [], w);
  is_missing = λ _ w. (ok true, w);
  mkdir_all = λ _. nothing;
  abs = λ f w. (ok f, w);
}

abbrev placed : KfConfig
placed = record odh {
  spec = record odh.spec { app_dir = "kfdef.yaml"; config_file_name = "kfdef.yaml" };
}

abbrev coordinator : Coordinator World
coordinator = record { platforms = ("gcp", app) ∷ []; package_managers = ("kustomize", app) ∷ [] }

loaded :
    new_load_kf_app_from_uri builder "kfdef.yaml" odh ≡ (ok (kf_app builder coordinator), placed)
unfolding new_load_kf_app_from_uri load_config_from_uri split Coordinator.init Coordinator.generate
    converter lookup named coordinator_of get_platform string_dec run
loaded = refl

pull_uri :
    repo_version_to_uri "manifests" "pull/1"
    ≡ "https://github.com/kubeflow/manifests/tarball/pull/1/head?archive=tar.gz"
unfolding repo_version_to_uri has_prefix has_suffix string_dec
pull_uri = refl

new_load-IsComplete_example :
    (c : Coordinator World) × (w1 : World) × (w2 : World) × (kf_app builder coordinator
      ≡ kf_app builder c)
    × IsComplete builder c w1
    × (Coordinator.init builder.env c all w1 ≡ (ok tt, w2))
    × (Coordinator.generate builder.env c all w2 ≡ (ok tt, placed))
new_load-IsComplete_example =
    new_load-IsComplete builder (λ k s. refl) "kfdef.yaml" odh placed (kf_app builder coordinator)
      loaded
