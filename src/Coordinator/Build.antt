-- ===== src/Coordinator/Build.antt =====
-- pkg/kfapp/coordinator/coordinator.go: the building of a coordinator from a file.
pub mod Complete
mod Tests
use opendatahub_operator.Prelude.{
  ℕ, String, ◌<>◌, Bool, true, false, not, Option, none, some, List, [], ◌∷◌, length, ltb, ◌==◌,
  if◌then◌else◌,
}
use opendatahub_operator.Errors.{Error, kf_error, text, invalid_argument, error_message}
use opendatahub_operator.Result.{
  Result, ok, err, panics, Action, ◌>>=◌, ◌>>◌, pure, raise, panic, attempt, modify,
}
use opendatahub_operator.Strings.{has_prefix, has_suffix}
use opendatahub_operator.Maps.{insert}
use opendatahub_operator.Apps
use opendatahub_operator.Apps.{all, KfApp, kf_config_file}
use opendatahub_operator.KfConfig.{KfConfig}
use opendatahub_operator.Loaders.Files.{
  Files, load_config_from_uri, write_config_to_file, is_remote_file,
}
use opendatahub_operator.Coordinator
use opendatahub_operator.Coordinator.{Env, Coordinator}

abbrev pub kustomize : String
kustomize = "kustomize"

-- What the building uses: the loaders; the environment of the coordinator, whose configuration is put
-- into the world; the platforms and the package manager, each made from a configuration; and calls of
-- the file system.
pub record Builder (S Obj : Type 0) : Type 0 where
  pub files : Files S Obj
  pub env : Env S
  pub put_kf_def : KfConfig → S → S
  pub minikube_platform : KfConfig → KfApp S
  pub gcp_platform : KfConfig → Result (KfApp S)
  pub existing_arrikto_platform : KfConfig → Result (KfApp S)
  pub aws_platform : KfConfig → Result (KfApp S)
  pub kustomize_app : KfConfig → KfApp S
  pub read_dir : String → Action S (List String)
  -- `os.IsNotExist` of the error of `os.Stat`
  pub is_missing : String → Action S Bool
  pub mkdir_all : String → Action S (Unit {0})
  pub abs : String → Action S String

-- `filterSpartakus`
unfoldable pub filter_spartakus : List String → List String
filter_spartakus [] = []
filter_spartakus (comp ∷ components) =
    let ret = filter_spartakus components in if comp == "spartakus" then ret else comp ∷ ret

-- `repoVersionToUri`
unfoldable pub repo_version_to_uri : String → String → String
repo_version_to_uri repo version =
    let full =
      if has_prefix version "pull"
      then (if has_suffix version "head" then version else version <> "/head")
      else version in
    "https://github.com/kubeflow/" <> (repo <> ("/tarball/" <> (full <> "?archive=tar.gz")))

abbrev creating : String
creating = "Error creating KfApp from config file: "

-- An error told as an invalid argument under a prefix.
invalid_as : {W A : Type 0} → String → Result A → Action W A
invalid_as prefix (ok a) = pure a
invalid_as prefix (err e) = raise (kf_error invalid_argument (prefix <> error_message e))
invalid_as prefix (panics m) = panic m

text_as : {W A : Type 0} → String → Result A → Action W A
text_as prefix (ok a) = pure a
text_as prefix (err e) = raise (text (prefix <> error_message e))
text_as prefix (panics m) = panic m

-- `log.Fatalf` ends the process: like a panic, nothing comes after it.
fatal_as : {W A : Type 0} → String → Result A → Action W A
fatal_as prefix (ok a) = pure a
fatal_as prefix (err e) = panic (prefix <> (error_message e <> " **"))
fatal_as prefix (panics m) = panic m

-- Entries that could not be read count as none.
no_entries : Result (List String) → Bool
no_entries (ok files) = not (ltb 1 (length files))
no_entries _ = true

module _ {S Obj : Type 0} (B : Builder S Obj) where
  -- `getPlatform`
  unfoldable pub get_platform : KfConfig → Result (KfApp S)
  get_platform kfdef =
      let name = kfdef.spec.platform in
      if name == Apps.minikube
      then ok (B.minikube_platform kfdef)
      else if name == Apps.gcp
      then B.gcp_platform kfdef
      else if name == Apps.existing_arrikto
      then B.existing_arrikto_platform kfdef
      else if name == Apps.aws
      then B.aws_platform kfdef
      else err (text ("Unrecognized platform " <> name))

  -- `isDirEmpty`: a directory with one entry counts as empty, and so does one that cannot be read.
  unfoldable pub is_dir_empty : String → Action S Bool
  unfolding no_entries
  is_dir_empty dir = do files ← attempt (B.read_dir dir); pure (no_entries files)

  abbrev pub app_file : KfConfig → String
  app_file c = B.files.path_join (c.spec.app_dir ∷ c.spec.config_file_name ∷ [])

  -- `CreateKfAppCfgFile`
  unfoldable pub create_kf_app_cfg_file : KfConfig → Action S String
  create_kf_app_cfg_file d = do
    missing ← B.is_missing d.spec.app_dir
    (if missing then B.mkdir_all d.spec.app_dir else pure tt)
    write_config_to_file B.files d
    pure (app_file d)

  loaded_alpha : Result KfConfig → Action S KfConfig
  loaded_alpha (ok config) =
      pure (record config { spec = record config.spec { config_file_name = kf_config_file } })
  loaded_alpha (err e) = raise e
  loaded_alpha (panics m) = panic m

  -- `CreateKfAppCfgFileWithKfDef`
  unfoldable pub create_kf_app_cfg_file_with_kf_def : Obj → Action S String
  unfolding loaded_alpha
  create_kf_app_cfg_file_with_kf_def d = do
    config ← loaded_alpha (B.files.v1alpha1.load_kf_config d)
    create_kf_app_cfg_file config

  -- `getPackageManagers`
  unfoldable pub get_package_managers : KfConfig → List (String × KfApp S)
  get_package_managers kfdef = (kustomize, B.kustomize_app kfdef) ∷ []

  name_of_abs : Result String → String
  name_of_abs (ok path) =
      let app_dir = B.files.file_dir path in
      let name = B.files.file_base app_dir in if name == app_dir then "" else name
  name_of_abs _ = ""

  -- `nameFromAppFile`
  unfoldable pub name_from_app_file : String → Action S String
  unfolding name_of_abs
  name_from_app_file file = do path ← attempt (B.abs file); pure (name_of_abs path)

  create_remote : KfConfig → Bool → Action S (Unit {0})
  unfolding invalid_as
  create_remote kfdef false = raise (
      kf_error invalid_argument
        ("current directory " <> (kfdef.spec.app_dir <> " not empty, please switch directories")))
  create_remote kfdef true = do
    r ← attempt (create_kf_app_cfg_file kfdef)
    _ ← invalid_as creating r
    pure tt

  -- A remote file is written to the working directory, which must be empty.
  copied : KfConfig → Bool → Action S (Unit {0})
  unfolding create_remote
  copied kfdef false = pure tt
  copied kfdef true = do empty ← is_dir_empty kfdef.spec.app_dir; create_remote kfdef empty

  nameless : String → Error
  nameless file = kf_error invalid_argument (
      "KfDef.Name isn't set and there was a problem inferring the name based on the path "
      <> (file <> "\nPlease set the name explicitly in the KFDef spec."))

  -- The name of a configuration that has none is that of its directory.
  pub named : KfConfig → Action S KfConfig
  unfolding nameless
  named kfdef =
      if kfdef.name == ""
      then (do
        name ← name_from_app_file (app_file kfdef)
        (if name == ""
            then raise (nameless (app_file kfdef))
            else pure (record kfdef { name = name })))
      else pure kfdef

  pub platforms_of : KfConfig → Action S (List (String × KfApp S))
  unfolding fatal_as
  platforms_of kfdef =
      let platform = kfdef.spec.platform in
      if platform == "" then pure [] else (do
        p ← fatal_as ("Could not get platform " <> (platform <> ": ")) (get_platform kfdef)
        pure ((platform, p) ∷ []))

  -- The platform comes from the configuration, and there is one package manager.
  pub coordinator_of : KfConfig → Action S (Coordinator S)
  unfolding platforms_of
  coordinator_of kfdef = do
    platforms ← platforms_of kfdef
    modify (B.put_kf_def kfdef)
    pure (record {
      platforms = platforms;
      package_managers = (kustomize, B.kustomize_app kfdef) ∷ [];
    })

  -- The coordinator, before its first calls.
  unfoldable pub build : String → Action S (Coordinator S)
  unfolding invalid_as copied
  build config_file = do
    r ← attempt (load_config_from_uri B.files config_file)
    loaded ← invalid_as creating r
    remote ← is_remote_file B.files config_file
    copied loaded remote
    kfdef ← named loaded
    coordinator_of kfdef

  -- The coordinator as a `KfApp`.
  unfoldable pub kf_app : Coordinator S → KfApp S
  kf_app c = record {
    apply = Coordinator.apply B.env c;
    delete = Coordinator.delete B.env c;
    dump = Coordinator.dump B.env c;
    generate = Coordinator.generate B.env c;
    init = Coordinator.init B.env c;
    show = some (Coordinator.show B.env c);
  }

  -- `NewLoadKfAppFromURI`
  unfoldable pub new_load_kf_app_from_uri : String → Action S (KfApp S)
  unfolding build kf_app text_as
  new_load_kf_app_from_uri config_file = do
    c ← build config_file
    r ← attempt (Coordinator.init B.env c all)
    text_as "KfApp initiliazation failed: " r
    s ← attempt (Coordinator.generate B.env c all)
    text_as "couldn't generate KfApp: " s
    pure (kf_app c)
