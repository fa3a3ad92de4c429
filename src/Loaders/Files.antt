-- ===== src/Loaders/Files.antt =====
-- pkg/kfconfig/loaders/loaders.go, and `IsRemoteFile` of pkg/utils/k8utils.go: the file of a KfDef.
pub mod Laws
pub mod Runs
pub mod RoundTrip
use opendatahub_operator.Prelude.{
  ℕ, String, ◌<>◌, Bool, true, false, Option, none, some, List, [], ◌∷◌, ◌==◌, not, ◌||◌,
  if◌then◌else◌,
}
use opendatahub_operator.Errors.{
  Error, kf_error, text, invalid_argument, internal_error, error_message,
}
use opendatahub_operator.Result.{
  Result, ok, err, panics, Action, ◌>>=◌, ◌>>◌, pure, raise, panic, attempt,
}
use opendatahub_operator.Strings.{split, join}
use opendatahub_operator.KfConfig.{KfConfig}

-- A converter, `Loader`. `Obj` is the type of untyped values, `map[string]interface{}`.
pub record Loader (Obj : Type 0) : Type 0 where
  pub load_kf_config : Obj → Result KfConfig
  pub load_kf_def : KfConfig → Result Obj

-- What a file may hold under `apiVersion`.
pub data ApiVersion : Type 0 where
  version_text : String → ApiVersion
  other_value : ApiVersion

-- The file system, the network, and the libraries for paths, URLs and YAML; and the three converters.
pub record Files (S Obj : Type 0) : Type 0 where
  -- `url.Parse`, with the scheme of the URL
  pub parse_scheme : String → Result String
  -- `url.ParseRequestURI` gives no error
  pub is_request_uri : String → Bool
  pub temp_dir : Action S String
  pub get_file : String → String → Action S (Unit {0})
  pub copy_file : String → String → Action S (Unit {0})
  pub read_file : String → Action S String
  pub write_file : String → String → Action S (Unit {0})
  pub getwd : Action S String
  pub path_join : List String → String
  pub file_dir : String → String
  pub file_base : String → String
  pub unmarshal : String → Result Obj
  pub marshal : Obj → Result String
  pub api_version : Obj → Option ApiVersion
  pub v1alpha1 : Loader Obj
  pub v1beta1 : Loader Obj
  pub v1 : Loader Obj

abbrev pub api : String
api = "kfdef.apps.kubeflow.org"

abbrev pub invalid : String → Error
invalid = kf_error invalid_argument

-- An error told under a code and a prefix.
told_as : {W A : Type 0} → ℕ → String → Result A → Action W A
told_as code prefix (ok a) = pure a
told_as code prefix (err e) = raise (kf_error code (prefix <> error_message e))
told_as code prefix (panics m) = panic m

-- A result of a function that reads and changes nothing.
lifted : {W A : Type 0} → Result A → Action W A
lifted (ok a) = pure a
lifted (err e) = raise e
lifted (panics m) = panic m

-- The part of an API version after the group, if the group is ours.
pub version_of : List String → Option String
version_of (group ∷ version ∷ _) = if group == api then some version else none
version_of _ = none

module _ {S Obj : Type 0} (F : Files S Obj) where
  -- `IsRemoteFile`
  unfoldable pub is_remote_file : String → Action S Bool
  unfolding told_as
  is_remote_file config_file =
      if config_file == "" then raise (text "config file must be a URI or a path") else (do
        scheme ← told_as invalid_argument "Error parsing file path: " (F.parse_scheme config_file)
        pure (not (scheme == "")))

  -- On a failed copy the message tells another error, which is nil.
  fetch : String → String → Action S (Unit {0})
  unfolding told_as
  fetch app_file config_file =
      if F.is_request_uri config_file
      then (do
        r ← attempt (F.get_file app_file config_file)
        told_as invalid_argument ("could not fetch specified config " <> (config_file <> ": ")) r)
      else (do
        r ← attempt (F.copy_file app_file config_file)
        elim r [
          | ok _ ↦ pure tt
          | err _ ↦
              raise (invalid ("could not fetch specified config " <> (config_file <> ": <nil>")))
          | panics m ↦ panic m
        ])

  temp_file : Result String → Action S String
  temp_file (ok dir) = pure (F.path_join (dir ∷ "tmp_app.yaml" ∷ []))
  temp_file (err e) = raise (text "Create a temporary directory to copy the file to.")
  temp_file (panics m) = panic m

  -- The file to read: the one named, or a copy of a remote one.
  local_copy : String → Bool → Action S String
  unfolding temp_file fetch
  local_copy config_file false = pure config_file
  local_copy config_file true = do
    dir ← attempt F.temp_dir
    app_file ← temp_file dir
    fetch app_file config_file
    pure app_file

  version_text_of : Option ApiVersion → Action S String
  version_text_of none = raise (invalid "invalid config: apiVersion is not found.")
  version_text_of (some (version_text v)) = pure v
  version_text_of (some other_value) = panic "interface conversion: interface {} is not string"

  checked_version : String → Option String → Action S String
  checked_version api_version none = raise (
      invalid (
        "invalid config: apiVersion must be in the format of "
        <> (api <> ("/<version>, got " <> api_version))))
  checked_version api_version (some version) = pure version

  unfoldable pub converter : String → Option (Loader Obj)
  converter version =
      if version == "v1alpha1"
      then some F.v1alpha1
      else if version == "v1beta1"
      then some F.v1beta1
      else if version == "v1"
      then some F.v1
      else none

  -- The message lists the versions in the order of a `range` over a map, here that of the source.
  convert : String → Obj → Option (Loader Obj) → Action S KfConfig
  unfolding lifted
  convert version obj none = raise (
      invalid (
        "invalid config: version not supported; supported versions: v1alpha1, v1beta1, v1, got "
        <> version))
  convert version obj (some loader) = lifted (loader.load_kf_config obj)

  app_dir_of : String → Bool → Action S String
  unfolding told_as
  app_dir_of config_file false = pure (F.file_dir config_file)
  app_dir_of config_file true = do
    cwd ← attempt F.getwd
    told_as internal_error "could not get current directory for KfDef " cwd

  no_v1alpha1 : String
  no_v1alpha1 =
      "KfDef version v1alpha1 is not supported by this binary. Please use configs at https://github.com/kubeflow/manifests/tree/v0.7-branch/kfdef for to deploy Kubeflow 0.7 or use old kfctl at https://github.com/kubeflow/kubeflow/releases/tag/v0.6.2 to deploy Kubeflow 0.6"

  load_version : String → Obj → Action S KfConfig
  unfolding convert no_v1alpha1
  load_version version obj =
      if version == "v1alpha1"
      then raise (invalid no_v1alpha1)
      else convert version obj (converter version)

  -- The configuration of what was read, without its place.
  load_object : Obj → Action S KfConfig
  unfolding version_text_of checked_version version_of load_version
  load_object obj = do
    api_version ← version_text_of (F.api_version obj)
    version ← checked_version api_version (version_of (split b'/' api_version))
    load_version version obj

  -- `LoadConfigFromURI`
  unfoldable pub load_config_from_uri : String → Action S KfConfig
  unfolding local_copy load_object app_dir_of told_as is_remote_file
  load_config_from_uri config_file =
      if config_file == "" then raise (text "config file must be the URI of a KfDef spec") else (do
        is_remote ← is_remote_file config_file
        app_file ← local_copy config_file is_remote
        bytes ← attempt (F.read_file app_file)
        contents ←
            told_as internal_error ("could not read from config file " <> (config_file <> ": "))
              bytes
        obj ← told_as invalid_argument "invalid config file format: " (F.unmarshal contents)
        config ← load_object obj
        dir ← app_dir_of config_file is_remote
        pure (record config {
          spec = record config.spec { app_dir = dir; config_file_name = F.file_base config_file };
        }))

  found_converter : String → Option (Loader Obj) → Action S (Loader Obj)
  found_converter api_version none =
      raise (invalid ("invalid config: unable to find converter for version " <> api_version))
  found_converter api_version (some loader) = pure loader

  -- `WriteConfigToFile`
  unfoldable pub write_config_to_file : KfConfig → Action S (Unit {0})
  unfolding checked_version version_of found_converter converter told_as
  write_config_to_file config =
      if config.spec.app_dir == ""
      then raise (invalid "No AppDir, cannot write to file.")
      else if config.spec.config_file_name == ""
      then raise (invalid "No ConfigFileName, cannot write to file.")
      else (do
        let filename = F.path_join (config.spec.app_dir ∷ config.spec.config_file_name ∷ [])
        version ← checked_version config.api_version (version_of (split b'/' config.api_version))
        loader ← found_converter config.api_version (converter version)
        kfdef ← told_as invalid_argument "error when loading KfDef: " (loader.load_kf_def config)
        bytes ← told_as invalid_argument "error when marshaling KfDef: " (F.marshal kfdef)
        r ← attempt (F.write_file filename bytes)
        told_as internal_error "error when writing KfDef: " r)
