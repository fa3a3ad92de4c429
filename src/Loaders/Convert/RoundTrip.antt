-- ===== src/Loaders/Convert/RoundTrip.antt =====
-- What of a configuration survives being written to a KfDef and read again.
use opendatahub_operator.Prelude.{
  String, ◌≡◌, ◌≢◌, refl, ap, ◌∙◌, none, some, List, [], ◌∷◌, ◌++◌, map, ◌==◌, if◌then◌else◌, arith,
  Option-cases, inl, inr,
}
use opendatahub_operator.Result.{ok, panics}
use opendatahub_operator.KfConfig
use opendatahub_operator.KfConfig.{KfConfig, KfConfigSpec}
use opendatahub_operator.Loaders.Types
use opendatahub_operator.Loaders.Types.{KfDef, GcpPluginSpec}
use opendatahub_operator.Loaders.Accessors.{SpecYaml}
use opendatahub_operator.Loaders.Convert.{
  maybe_get_platform, kustomize_of, application_of, plugin_of, load_secrets, condition_of,
  spec_before, config_with, config_of,
}
use opendatahub_operator.Loaders.Convert.Written.{
  kustomize_to, application_to, plugin_to, secret_to, condition_to, kf_def_of,
}
use opendatahub_operator.Loaders.Convert.PluginLoop.{
  all_found, CanMarshal, platform_from, load_plugins_lem,
}

map_back :
    {A B : Type 0} (f : B → A) (g : A → B)
    → ((x : A) → f (g x) ≡ x)
    → (xs : List A) → map f (map g xs) ≡ xs
map_back f g h [] = refl
map_back f g h (x ∷ xs) = ground (arith, h x, map_back f g h xs)

kustomize_back : (k : KfConfig.KustomizeConfig) → kustomize_of (kustomize_to k) ≡ k
unfolding kustomize_of kustomize_to
kustomize_back k = ground (
  arith,
  map_back
      (λ (p : Types.NameValue).
        let q : KfConfig.NameValue = record { name = p.name; value = p.value } in q)
      (λ (p : KfConfig.NameValue).
        let q : Types.NameValue = record { name = p.name; value = p.value } in q)
      (λ p. refl) k.parameters,
)

application_back : (a : KfConfig.Application) → application_of (application_to a) ≡ a
unfolding application_of application_to
application_back a = elim (Option-cases a.kustomize_config) [
  | inl e ↦ ground arith
  | inr (k, e) ↦ ground (arith, kustomize_back k)
]

-- What is written of a secret: its source in the environment.
abbrev pub environment_only : KfConfig.Secret → KfConfig.Secret
environment_only s = record {
  name = s.name;
  secret_source = elim s.secret_source [
    | none ↦ none
    | some src ↦
        some (record { literal_source = none; hashed_source = none; env_source = src.env_source })
  ];
}

abbrev pub HaveSources : List KfConfig.Secret → Type 0
HaveSources [] = Unit {0}
HaveSources (s ∷ secrets) = (s.secret_source ≢ none) × HaveSources secrets

load_secrets_lem :
    (secrets : List KfConfig.Secret)
    → HaveSources secrets
    → load_secrets (map secret_to secrets) ≡ ok (map environment_only secrets)
unfolding load_secrets secret_to
load_secrets_lem [] h = refl
load_secrets_lem (s ∷ secrets) h = elim (Option-cases s.secret_source) [
  | inl e ↦ absurd (h.0 e)
  | inr (src, e) ↦ ground (arith, load_secrets_lem secrets h.1)
]

abbrev pub in_namespace : String → KfConfig.Plugin → KfConfig.Plugin
in_namespace n p = record p { namespace = n }

plugins_back :
    (d : KfDef) (ps : List KfConfig.Plugin)
    → map (plugin_of d) (map plugin_to ps) ≡ map (in_namespace d.namespace) ps
unfolding plugin_of plugin_to
plugins_back d [] = refl
plugins_back d (p ∷ ps) = ground (arith, plugins_back d ps)

platform_from_lem :
    (n : String) (ps : List KfConfig.Plugin) (name : String)
    → platform_from name (map (in_namespace n) ps) ≡ platform_from name ps
platform_from_lem n [] name = refl
platform_from_lem n (p ∷ ps) name =
    platform_from_lem n ps
      (if maybe_get_platform p.kind == "" then name else maybe_get_platform p.kind)

-- What survives of a configuration `c` in `c'`.
pub record IsReread (c c' : KfConfig) : Type 0 where
  pub api_version : c'.api_version ≡ c.api_version
  pub name : c'.name ≡ c.name
  pub namespace : c'.namespace ≡ c.namespace
  pub annotations : c'.annotations ≡ c.annotations
  pub version : c'.spec.version ≡ c.spec.version
  pub applications : c'.spec.applications ≡ c.spec.applications
  pub plugins : c'.spec.plugins ≡ map (in_namespace c.namespace) c.spec.plugins
  pub secrets : c'.spec.secrets ≡ map environment_only c.spec.secrets
  pub repos : c'.spec.repos ≡ c.spec.repos
  pub platform : c'.spec.platform ≡ platform_from "" c.spec.plugins
  pub status : c'.status ≡ c.status

module _ (Y : SpecYaml GcpPluginSpec) (can : CanMarshal Y) (c : KfConfig) where
  repos_back : (spec_before (kf_def_of c)).repos ≡ c.spec.repos
  unfolding kf_def_of
  repos_back = map_back _ _ (λ r. refl) c.spec.repos

  applications_back : (spec_before (kf_def_of c)).applications ≡ c.spec.applications
  unfolding kf_def_of
  applications_back = map_back application_of application_to application_back c.spec.applications

  status_back :
      (s : KfConfigSpec) (ss : List KfConfig.Secret)
      → (config_with (kf_def_of c) s ss).status ≡ c.status
  unfolding kf_def_of
  status_back s ss = ground (
    arith,
    map_back condition_of condition_to (λ x. refl) c.status.conditions,
    map_back
        (λ (x : Types.RepoCache).
          let q : KfConfig.Cache = record { name = x.name; local_path = x.local_path } in q)
        (λ (x : KfConfig.Cache).
          let q : Types.RepoCache = record { name = x.name; local_path = x.local_path } in q)
        (λ x. refl) c.status.caches,
  )

  -- A configuration all of whose secrets have a source, written to a KfDef and read again, is read
  -- without an error. Its names, annotations, version, applications, repositories, conditions and
  -- caches come back as they were; its plugins come back in the namespace of the configuration; of
  -- its secrets only the sources in the environment come back; and its platform is the one of the
  -- last plugin whose kind names a platform, or none. The YAML library can write raw extensions.
  pub config_of-kf_def_of :
      HaveSources c.spec.secrets
      → (c' : KfConfig) × (config_of Y (kf_def_of c) ≡ ok c') × IsReread c c'
  unfolding config_of kf_def_of
  config_of-kf_def_of sources =
      let d = kf_def_of c in
      let (s, loaded, l) =
        load_plugins_lem Y can d d.spec.plugins (spec_before d) (all_found [] d.spec.plugins) in
      let secrets = map environment_only c.spec.secrets in
      (
        config_with d s secrets,
        rw (loaded, load_secrets_lem c.spec.secrets sources) refl,
        record {
          api_version = refl;
          name = refl;
          namespace = refl;
          annotations = refl;
          version = l.version;
          applications = l.applications ∙ applications_back;
          plugins = l.plugins ∙ plugins_back d c.spec.plugins;
          secrets = refl;
          repos = l.repos ∙ repos_back;
          platform =
              l.platform
              ∙ ap (platform_from "") (plugins_back d c.spec.plugins)
              ∙ platform_from_lem c.namespace c.spec.plugins "";
          status = status_back s secrets;
        },
      )

load_secrets-sourceless :
    (s : Types.Secret) (before after : List Types.Secret)
    → s.secret_source ≡ none
    → load_secrets (before ++ s ∷ after) ≡ panics "nil pointer dereference"
unfolding load_secrets
load_secrets-sourceless s [] after e = ground arith
load_secrets-sourceless s (t ∷ before) after e =
    ground (arith, load_secrets-sourceless s before after)

-- A KfDef that has a secret without a source cannot be read: the reading ends in a panic.
pub config_of-sourceless :
    (Y : SpecYaml GcpPluginSpec)
    → CanMarshal Y
    → (d : KfDef) (s : Types.Secret) (before after : List Types.Secret)
    → d.spec.secrets ≡ before ++ s ∷ after
    → s.secret_source ≡ none
    → config_of Y d ≡ panics "nil pointer dereference"
unfolding config_of
config_of-sourceless Y can d s before after e missing =
    let (s', loaded, l) =
      load_plugins_lem Y can d d.spec.plugins (spec_before d) (all_found [] d.spec.plugins) in
    rw (loaded, e, load_secrets-sourceless s before after missing) refl
