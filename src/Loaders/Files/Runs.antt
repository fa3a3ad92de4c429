-- ===== src/Loaders/Files/Runs.antt =====
-- `WriteConfigToFile` and `LoadConfigFromURI` where nothing fails.
use mathlib.Core.Logic.{if_neg}
use opendatahub_operator.Prelude.{ℕ, String, ◌≡◌, ◌≢◌, refl, some, [], ◌∷◌, string_dec, arith}
use opendatahub_operator.Errors.{invalid_argument, internal_error}
use opendatahub_operator.Result.{Result, ok, err, panics, Action, ◌>>=◌, continue, attempt, run}
use opendatahub_operator.Strings.{split}
use opendatahub_operator.KfConfig.{KfConfig}
use opendatahub_operator.Loaders.Files.{
  Loader, Files, version_text, told_as, checked_version, version_of, found_converter, converter,
  write_config_to_file, load_config_from_uri, is_remote_file, local_copy, load_object, load_version,
  convert, lifted, version_text_of, app_dir_of,
}

told_as_inv :
    {W A : Type 0} (code : ℕ) (prefix : String) (r : Result A) (w w' : W) (a : A)
    → told_as code prefix r w ≡ (ok a, w')
    → (r ≡ ok a) × (w ≡ w')
unfolding told_as run
told_as_inv code prefix (ok b) w w' a h = (ground arith, ground arith)
told_as_inv code prefix (err e) w w' a h = absurd (ground arith)
told_as_inv code prefix (panics m) w w' a h = absurd (ground arith)

continue_inv :
    {W A B : Type 0} (f : A → Action W B) (r : Result A) (s : W) (b : B) (w' : W)
    → continue f r s ≡ (ok b, w')
    → (a : A) × (r ≡ ok a) × (f a s ≡ (ok b, w'))
unfolding continue
continue_inv f (ok a) s b w' h = (a, refl, h)
continue_inv f (err e) s b w' h = absurd (ground arith)
continue_inv f (panics m) s b w' h = absurd (ground arith)

attempt_inv :
    {W A : Type 0} (m : Action W A) (w w' : W) (r : Result A)
    → attempt m w ≡ (ok r, w')
    → m w ≡ (r, w')
unfolding run
attempt_inv m w w' r h = ground arith

told_bind_inv :
    {W A B : Type 0} (code : ℕ) (prefix : String) (r : Result A) (f : A → Action W B) (w : W)
    (b : B) (w' : W)
    → (told_as code prefix r >>= f) w ≡ (ok b, w')
    → (a : A) × (r ≡ ok a) × (f a w ≡ (ok b, w'))
unfolding told_as run
told_bind_inv code prefix (ok a) f w b w' h = (a, refl, h)
told_bind_inv code prefix (err e) f w b w' h = absurd (ground arith)
told_bind_inv code prefix (panics m) f w b w' h = absurd (ground arith)

abbrev pub filename : {S Obj : Type 0} → Files S Obj → KfConfig → String
filename F c = F.path_join (c.spec.app_dir ∷ c.spec.config_file_name ∷ [])

module _ {S Obj : Type 0} (F : Files S Obj) (c : KfConfig) (version : String) (loader : Loader Obj)
    (has_dir : c.spec.app_dir ≢ "") (has_name : c.spec.config_file_name ≢ "")
    (versioned : version_of (split b'/' c.api_version) ≡ some version)
    (supported : converter F version ≡ some loader) where
  pub writing : Action S (Unit {0})
  writing = do
    kfdef ← told_as invalid_argument "error when loading KfDef: " (loader.load_kf_def c)
    bytes ← told_as invalid_argument "error when marshaling KfDef: " (F.marshal kfdef)
    r ← attempt (F.write_file (filename F c) bytes)
    told_as internal_error "error when writing KfDef: " r

  pub write_config_lem : (w : S) → write_config_to_file F c w ≡ writing w
  unfolding write_config_to_file checked_version found_converter writing run
  write_config_lem w = rw (
    if_neg (string_dec c.spec.app_dir "") has_dir,
    if_neg (string_dec c.spec.config_file_name "") has_name,
    versioned,
    supported,
  )

  stored_inv :
      (bytes : String) (w w' : S)
      → (attempt (F.write_file (filename F c) bytes)
            >>= told_as internal_error "error when writing KfDef: ")
          w
        ≡ (ok tt, w')
      → F.write_file (filename F c) bytes w ≡ (ok tt, w')
  unfolding told_as run
  stored_inv bytes w w' h = ground arith

  pub writing_inv :
      (w w' : S)
      → writing w ≡ (ok tt, w')
      → (kfdef : Obj) × (bytes : String) × (loader.load_kf_def c ≡ ok kfdef)
        × (F.marshal kfdef ≡ ok bytes)
        × (F.write_file (filename F c) bytes w ≡ (ok tt, w'))
  unfolding writing
  writing_inv w w' h =
      let (kfdef, loaded, h1) = told_bind_inv _ _ (loader.load_kf_def c) _ w tt w' h in
      let (bytes, marshalled, h2) = told_bind_inv _ _ (F.marshal kfdef) _ w tt w' h1 in
      (kfdef, bytes, loaded, marshalled, stored_inv bytes w w' h2)

-- The configuration, at the place of its file.
abbrev pub placed : {S Obj : Type 0} → Files S Obj → String → KfConfig → KfConfig
placed F file c = record c {
  spec = record c.spec { app_dir = F.file_dir file; config_file_name = F.file_base file };
}

pub load_config_lem :
    {S Obj : Type 0} (F : Files S Obj) (file bytes v version : String) (obj : Obj)
    (loader : Loader Obj) (c : KfConfig) (w : S)
    → file ≢ ""
    → F.parse_scheme file ≡ ok ""
    → F.read_file file w ≡ (ok bytes, w)
    → F.unmarshal bytes ≡ ok obj
    → F.api_version obj ≡ some (version_text v)
    → version_of (split b'/' v) ≡ some version
    → version ≢ "v1alpha1"
    → converter F version ≡ some loader
    → loader.load_kf_config obj ≡ ok c
    → load_config_from_uri F file w ≡ (ok (placed F file c), w)
unfolding load_config_from_uri is_remote_file local_copy load_object load_version convert lifted
    version_text_of checked_version app_dir_of told_as string_dec run
load_config_lem F file bytes v version obj loader c w named scheme read unmarshalled versioned
      split_ok modern supported loaded =
    rw (
      if_neg (string_dec file "") named,
      scheme,
      read,
      unmarshalled,
      versioned,
      split_ok,
      if_neg (string_dec version "v1alpha1") modern,
      supported,
      loaded,
    )
