-- ===== src/Loaders/Files/Laws.antt =====
-- How `WriteConfigToFile` can fail.
use opendatahub_operator.Prelude.{
  ℕ, String, Bool, true, false, Option, none, some, ◌==◌, if◌then◌else◌,
}
use opendatahub_operator.Result.{Result, ok, err, panics}
use opendatahub_operator.Result.Ends.{
  Ends, Outcome, Any, IsKfError, Ends-bind, Ends-pure, Ends-raise, Ends-attempt, Ends-if,
}
use opendatahub_operator.Strings.{split}
use opendatahub_operator.KfConfig.{KfConfig}
use opendatahub_operator.Loaders.Files.{
  Loader, Files, told_as, checked_version, version_of, found_converter, converter,
  write_config_to_file,
}

-- What `WriteConfigToFile` calls does not panic.
pub record IsQuiet {S Obj : Type 0} (F : Files S Obj) : Type 0 where
  pub v1alpha1 : (c : KfConfig) → Outcome Any Any (F.v1alpha1.load_kf_def c)
  pub v1beta1 : (c : KfConfig) → Outcome Any Any (F.v1beta1.load_kf_def c)
  pub v1 : (c : KfConfig) → Outcome Any Any (F.v1.load_kf_def c)
  pub marshal : (o : Obj) → Outcome Any Any (F.marshal o)
  pub write_file : (name contents : String) → Ends Any Any (F.write_file name contents)

module _ {S Obj : Type 0} (F : Files S Obj) (quiet : IsQuiet F) where
  told_as-Ends :
      {A : Type 0} (code : ℕ) (prefix : String) (r : Result A)
      → Outcome Any Any r
      → Ends {W = S} Any IsKfError (told_as code prefix r)
  unfolding told_as
  told_as-Ends code prefix (ok a) o = Ends-pure a tt
  told_as-Ends code prefix (err e) o = Ends-raise _ tt
  told_as-Ends code prefix (panics m) o = elim o [ ]

  checked_version-Ends :
      (v : String) (version : Option String) → Ends Any IsKfError (checked_version F v version)
  unfolding checked_version
  checked_version-Ends v none = Ends-raise _ tt
  checked_version-Ends v (some version) = Ends-pure version tt

  abbrev Writes : Loader Obj → Type 0
  Writes loader = (c : KfConfig) → Outcome Any Any (loader.load_kf_def c)

  abbrev FoundWrites : Option (Loader Obj) → Type 0
  FoundWrites none = Unit {0}
  FoundWrites (some loader) = Writes loader

  if-FoundWrites :
      (b : Bool) (x y : Option (Loader Obj))
      → FoundWrites x
      → FoundWrites y
      → FoundWrites (if b then x else y)
  if-FoundWrites true x y h k = h
  if-FoundWrites false x y h k = k

  converter-FoundWrites : (version : String) → FoundWrites (converter F version)
  unfolding converter
  converter-FoundWrites version = if-FoundWrites (version == "v1alpha1") _ _ quiet.v1alpha1 (
      if-FoundWrites (version == "v1beta1") _ _ quiet.v1beta1
        (if-FoundWrites (version == "v1") (some F.v1) none quiet.v1 tt))

  found_converter-Ends :
      (v : String) (loader : Option (Loader Obj))
      → FoundWrites loader
      → Ends Writes IsKfError (found_converter F v loader)
  unfolding found_converter
  found_converter-Ends v none h = Ends-raise _ tt
  found_converter-Ends v (some loader) h = Ends-pure loader h

  -- `WriteConfigToFile` of any configuration does not panic, and fails with a `KfError` only, as the
  -- coordinator's methods assume that call it, when nothing that it calls panics.
  pub write_config_failures :
      (config : KfConfig) → Ends Any IsKfError (write_config_to_file F config)
  unfolding write_config_to_file
  write_config_failures config = Ends-if (config.spec.app_dir == "") (Ends-raise _ tt) (
      Ends-if (config.spec.config_file_name == "") (Ends-raise _ tt) (
        Ends-bind
          (checked_version-Ends config.api_version (version_of (split b'/' config.api_version)))
          λ version _.
            Ends-bind
              (found_converter-Ends config.api_version (converter F version)
                (converter-FoundWrites version))
              λ loader h.
                Ends-bind (told_as-Ends _ _ (loader.load_kf_def config) (h config)) λ kfdef _.
                  Ends-bind (told_as-Ends _ _ (F.marshal kfdef) (quiet.marshal kfdef)) λ bytes _.
                    Ends-bind (Ends-attempt (quiet.write_file _ bytes))
                      λ r o. told_as-Ends _ _ r o))
