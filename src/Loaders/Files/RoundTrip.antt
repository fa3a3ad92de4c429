-- ===== src/Loaders/Files/RoundTrip.antt =====
-- A configuration that `WriteConfigToFile` writes, and `LoadConfigFromURI` of that file.
use opendatahub_operator.Prelude.{
  String, ◌≡◌, ◌≢◌, ◌⊎◌, inl, inr, refl, sym, ap, ◌∙◌, some, string_dec,
}
use opendatahub_operator.Result.{ok}
use opendatahub_operator.Strings.{split}
use opendatahub_operator.KfConfig.{KfConfig}
use opendatahub_operator.Loaders.Types.{KfDef, GcpPluginSpec}
use opendatahub_operator.Loaders.Accessors.{SpecYaml}
use opendatahub_operator.Loaders.Convert.{KfDefYaml, load_kf_config}
use opendatahub_operator.Loaders.Convert.Written.{kf_def_of, load_kf_def}
use opendatahub_operator.Loaders.Convert.PluginLoop.{CanMarshal}
use opendatahub_operator.Loaders.Convert.RoundTrip.{IsReread, HaveSources, config_of-kf_def_of}
use opendatahub_operator.KfConfig.Plugins.Laws.{step_inv}
use opendatahub_operator.Loaders.Versions.{
  v1_loader, v1beta1_loader, v1beta1_load_kf_config, v1beta1_load_kf_def,
}
use opendatahub_operator.Loaders.Files.{
  Loader, Files, version_text, version_of, converter, write_config_to_file, load_config_from_uri,
}
use opendatahub_operator.Loaders.Files.Runs.{
  filename, placed, writing_inv, write_config_lem, load_config_lem,
}

-- A file holds what was written to it, and what YAML writes it reads back.
pub record IsDurable {S Obj : Type 0} (F : Files S Obj) : Type 0 where
  pub read_back :
      (file bytes : String) (w w' : S)
      → F.write_file file bytes w ≡ (ok tt, w')
      → F.read_file file w' ≡ (ok bytes, w')
  pub parsed : (obj : Obj) (bytes : String) → F.marshal obj ≡ ok bytes → F.unmarshal bytes ≡ ok obj

-- A KfDef that is made an untyped value is read back from it, and its version is found in it.
pub record IsTyped {S Obj : Type 0} (F : Files S Obj) (T : KfDefYaml Obj) : Type 0 where
  pub back :
      (d : KfDef) (bytes : String) (obj : Obj)
      → T.marshal_kf_def d ≡ ok bytes
      → T.unmarshal_obj bytes ≡ ok obj
      → (again : String) × (T.marshal_obj obj ≡ ok again) × (T.unmarshal_kf_def again ≡ ok d)
  pub version :
      (d : KfDef) (bytes : String) (obj : Obj)
      → T.marshal_kf_def d ≡ ok bytes
      → T.unmarshal_obj bytes ≡ ok obj
      → F.api_version obj ≡ some (version_text d.api_version)

-- The path of the configuration's file is local, and is taken apart as it was put together.
pub record IsLocal {S Obj : Type 0} (F : Files S Obj) (c : KfConfig) : Type 0 where
  pub has_dir : c.spec.app_dir ≢ ""
  pub has_name : c.spec.config_file_name ≢ ""
  pub named : filename F c ≢ ""
  pub scheme : F.parse_scheme (filename F c) ≡ ok ""
  pub dir : F.file_dir (filename F c) ≡ c.spec.app_dir
  pub base : F.file_base (filename F c) ≡ c.spec.config_file_name

placed-IsReread :
    {S Obj : Type 0} (F : Files S Obj) (file : String) (c c' : KfConfig)
    → IsReread c c'
    → IsReread c (placed F file c')
placed-IsReread F file c c' r = record {
  api_version = r.api_version;
  name = r.name;
  namespace = r.namespace;
  annotations = r.annotations;
  version = r.version;
  applications = r.applications;
  plugins = r.plugins;
  secrets = r.secrets;
  repos = r.repos;
  platform = r.platform;
  status = r.status;
}

module _ {S Obj : Type 0} (F : Files S Obj) (T : KfDefYaml Obj) (Y : SpecYaml GcpPluginSpec)
    (typed : IsTyped F T) (can : CanMarshal Y) (c : KfConfig)
    (sources : HaveSources c.spec.secrets) where
  loader_back :
      (obj : Obj)
      → load_kf_def T c ≡ ok obj
      → (c' : KfConfig) × (load_kf_config T Y obj ≡ ok c')
        × IsReread c c'
        × (F.api_version obj ≡ some (version_text c.api_version))
  unfolding load_kf_def load_kf_config kf_def_of
  loader_back obj h =
      let (bytes, marshalled, h1) = step_inv _ _ (T.marshal_kf_def (kf_def_of c)) _ h in
      let (obj', unmarshalled, h2) = step_inv _ _ (T.unmarshal_obj bytes) _ h1 in
      let e : T.unmarshal_obj bytes ≡ ok obj = unmarshalled ∙ h2 in
      let (again, m, u) = typed.back (kf_def_of c) bytes obj marshalled e in
      let (c', read, r) = config_of-kf_def_of Y can c sources in
      (c', rw (m, u) read, r, typed.version (kf_def_of c) bytes obj marshalled e)

  module _ (durable : IsDurable F) (local : IsLocal F c) (version : String) (loader : Loader Obj)
      (versioned : version_of (split b'/' c.api_version) ≡ some version)
      (modern : version ≢ "v1alpha1") (supported : converter F version ≡ some loader)
      (reads : (obj : Obj) → loader.load_kf_config obj ≡ load_kf_config T Y obj)
      (writes : loader.load_kf_def c ≡ load_kf_def T c) where
    write_load :
        (w w' : S)
        → write_config_to_file F c w ≡ (ok tt, w')
        → (c' : KfConfig) × (load_config_from_uri F (filename F c) w' ≡ (ok c', w'))
          × IsReread c c'
          × (c'.spec.app_dir ≡ c.spec.app_dir)
          × (c'.spec.config_file_name ≡ c.spec.config_file_name)
    write_load w w' h =
        let (obj, bytes, made, marshalled, written) =
          writing_inv F c version loader local.has_dir local.has_name versioned supported w w' (
            sym (
              write_config_lem F c version loader local.has_dir local.has_name versioned supported
                w)
            ∙ h) in
        let (c', read, r, v) = loader_back obj (sym writes ∙ made) in
        (
          placed F (filename F c) c',
          load_config_lem F (filename F c) bytes c.api_version version obj loader c' w' local.named
              local.scheme (durable.read_back _ bytes w w' written)
              (durable.parsed obj bytes marshalled) v versioned modern supported (reads obj ∙ read),
          placed-IsReread F (filename F c) c c' r,
          local.dir,
          local.base,
        )

module _ {S Obj : Type 0} (F : Files S Obj) (T : KfDefYaml Obj) (Y : SpecYaml GcpPluginSpec) where
  v1_supported : F.v1 ≡ v1_loader T Y → converter F "v1" ≡ some (v1_loader T Y)
  unfolding converter string_dec
  v1_supported e = ap (λ (l : Loader Obj). some l) e

  v1beta1_supported :
      F.v1beta1 ≡ v1beta1_loader T Y → converter F "v1beta1" ≡ some (v1beta1_loader T Y)
  unfolding converter string_dec
  v1beta1_supported e = ap (λ (l : Loader Obj). some l) e

v1_version : version_of (split b'/' "kfdef.apps.kubeflow.org/v1") ≡ some "v1"
unfolding version_of split string_dec
v1_version = refl

v1beta1_version : version_of (split b'/' "kfdef.apps.kubeflow.org/v1beta1") ≡ some "v1beta1"
unfolding version_of split string_dec
v1beta1_version = refl

-- A configuration of version v1 or v1beta1 that `WriteConfigToFile` has written with no error is
-- loaded by `LoadConfigFromURI` of its file with no error. It comes back with its place, names,
-- annotations, version, applications, repositories, conditions and caches, its plugins in its
-- namespace, of its secrets the sources in the environment, and the platform of its plugins. All its
-- secrets have a source; the file is local, its path is clean, and a file system and a YAML library
-- give back what they were given.
pub load_config-write_config :
    {S Obj : Type 0} (F : Files S Obj) (T : KfDefYaml Obj) (Y : SpecYaml GcpPluginSpec)
    → IsTyped F T
    → CanMarshal Y
    → IsDurable F
    → F.v1 ≡ v1_loader T Y
    → F.v1beta1 ≡ v1beta1_loader T Y
    → (c : KfConfig)
    → (c.api_version ≡ "kfdef.apps.kubeflow.org/v1")
      ⊎ (c.api_version ≡ "kfdef.apps.kubeflow.org/v1beta1")
    → HaveSources c.spec.secrets
    → IsLocal F c
    → (w w' : S) → write_config_to_file F c w ≡ (ok tt, w')
    → (c' : KfConfig) × (load_config_from_uri F (filename F c) w' ≡ (ok c', w'))
      × IsReread c c'
      × (c'.spec.app_dir ≡ c.spec.app_dir)
      × (c'.spec.config_file_name ≡ c.spec.config_file_name)
unfolding v1beta1_load_kf_config v1beta1_load_kf_def
load_config-write_config F T Y typed can durable e1 e2 c (inl v) sources local w w' h =
    write_load F T Y typed can c sources durable local "v1" (v1_loader T Y)
      (ap (λ x. version_of (split b'/' x)) v ∙ v1_version) (λ e. cc) (v1_supported F T Y e1)
      (λ o. refl) refl w w' h
load_config-write_config F T Y typed can durable e1 e2 c (inr v) sources local w w' h =
    write_load F T Y typed can c sources durable local "v1beta1" (v1beta1_loader T Y)
      (ap (λ x. version_of (split b'/' x)) v ∙ v1beta1_version) (λ e. cc)
      (v1beta1_supported F T Y e2) (λ o. refl) refl w w' h
