-- ===== src/Loaders/Convert/PluginLoop.antt =====
-- The loop over the plugins of a KfDef: it ends with no error, and what it makes of the specification.
use mathlib.Core.Path.{subst}
use mathlib.Core.Logic.{if_pos, if_neg}
use mathlib.Core.List.{append_assoc, append-nil}
use opendatahub_operator.Prelude.{
  String, ◌≡◌, ◌≢◌, refl, sym, ap, ◌∙◌, Option, none, List, [], ◌∷◌, ◌++◌, map, find, ◌==◌,
  if◌then◌else◌, arith, string_dec, Option-cases, inl, inr,
}
use opendatahub_operator.Result.{ok}
use opendatahub_operator.KfConfig
use opendatahub_operator.KfConfig.{KfConfig, KfConfigSpec}
use opendatahub_operator.Loaders.Types
use opendatahub_operator.Loaders.Types.{KfDef, GcpPluginSpec}
use opendatahub_operator.Loaders.Accessors.{SpecYaml, get_plugin_spec}
use opendatahub_operator.Loaders.Convert.{
  maybe_get_platform, gcp_plugin_kind, plugin_of, with_gcp, with_platform, load_gcp, next_plugin,
  load_plugins,
}

-- Every kind of the plugins is that of a plugin of the KfDef.
abbrev pub AllFound : List Types.Plugin → List Types.Plugin → Type 0
AllFound held [] = Unit {0}
AllFound held (p ∷ ps) = (find (λ q. q.kind == p.kind) held ≢ none) × AllFound held ps

find-middle :
    (p : Types.Plugin) (before after : List Types.Plugin)
    → find (λ q. q.kind == p.kind) (before ++ p ∷ after) ≢ none
find-middle p [] after = ground arith
find-middle p (q ∷ before) after = ground (arith, find-middle p before after)

pub all_found : (before ps : List Types.Plugin) → AllFound (before ++ ps) ps
all_found before [] = tt
all_found before (p ∷ ps) = (
  find-middle p before ps,
  subst (λ held. AllFound held ps) (append_assoc before (p ∷ []) ps)
      (all_found (before ++ p ∷ []) ps),
)

-- The YAML library can write a raw extension.
pub record CanMarshal (Y : SpecYaml GcpPluginSpec) : Type 0 where
  pub bytes : (raw : Option String) → (b : String) × (Y.marshal_raw raw ≡ ok b)

-- The platform of the last plugin whose kind names one.
abbrev pub platform_from : String → List KfConfig.Plugin → String
platform_from name [] = name
platform_from name (p ∷ ps) =
    platform_from (if maybe_get_platform p.kind == "" then name else maybe_get_platform p.kind) ps

with_platform_lem :
    (p : String) (s : KfConfigSpec)
    → ((with_platform p s).version ≡ s.version)
      × ((with_platform p s).plugins ≡ s.plugins)
      × ((with_platform p s).applications ≡ s.applications)
      × ((with_platform p s).repos ≡ s.repos)
      × ((with_platform p s).platform ≡ (if p == "" then s.platform else p))
unfolding with_platform
with_platform_lem p s = (ground arith, ground arith, ground arith, ground arith, ground arith)

module _ (Y : SpecYaml GcpPluginSpec) (can : CanMarshal Y) (d : KfDef) where
  spec_found :
      (k : String)
      → find (λ p. p.kind == k) d.spec.plugins ≢ none
      → (g : GcpPluginSpec) × (get_plugin_spec Y d k ≡ ok g)
  unfolding get_plugin_spec
  spec_found k there = elim (Option-cases (find (λ p. p.kind == k) d.spec.plugins)) [
    | inl missing ↦ absurd (there missing)
    | inr (p, e) ↦ let (b, m) = can.bytes p.spec in ((Y.unmarshal b).0, ground arith)
  ]

  -- What reading the specification of a plugin leaves alone.
  record IsRead (s s' : KfConfigSpec) : Type 0 where
    version : s'.version ≡ s.version
    plugins : s'.plugins ≡ s.plugins
    applications : s'.applications ≡ s.applications
    repos : s'.repos ≡ s.repos
    platform : s'.platform ≡ s.platform

  with_gcp-IsRead : (s : KfConfigSpec) (g : GcpPluginSpec) → IsRead s (with_gcp s g)
  unfolding with_gcp
  with_gcp-IsRead s g = record {
    version = refl;
    plugins = refl;
    applications = refl;
    repos = refl;
    platform = refl;
  }

  load_gcp_lem :
      (p : Types.Plugin) (s : KfConfigSpec)
      → find (λ q. q.kind == p.kind) d.spec.plugins ≢ none
      → (s' : KfConfigSpec) × (load_gcp Y d p s ≡ ok s') × IsRead s s'
  unfolding load_gcp
  load_gcp_lem p s there = elim (string_dec p.kind gcp_plugin_kind) [
    | yes e ↦
        let (g, read) = spec_found p.kind there in
        (
          with_gcp s g,
          rw (if_pos (string_dec p.kind gcp_plugin_kind) e, read) refl,
          with_gcp-IsRead s g,
        )
    | no e ↦ (
      s,
      rw (if_neg (string_dec p.kind gcp_plugin_kind) e) refl,
      record { version = refl; plugins = refl; applications = refl; repos = refl; platform = refl },
    )
  ]

  -- What the loop over plugins does.
  pub record IsLoaded (ps : List Types.Plugin) (s s' : KfConfigSpec) : Type 0 where
    pub version : s'.version ≡ s.version
    pub plugins : s'.plugins ≡ s.plugins ++ map (plugin_of d) ps
    pub applications : s'.applications ≡ s.applications
    pub repos : s'.repos ≡ s.repos
    pub platform : s'.platform ≡ platform_from s.platform (map (plugin_of d) ps)

  next-IsLoaded :
      (p : Types.Plugin) (ps : List Types.Plugin) (s s1 s2 : KfConfigSpec)
      → IsRead (record s { plugins = s.plugins ++ plugin_of d p ∷ [] }) s1
      → IsLoaded ps (with_platform (maybe_get_platform p.kind) s1) s2
      → IsLoaded (p ∷ ps) s s2
  unfolding plugin_of
  next-IsLoaded p ps s s1 s2 r l = record {
    version = l.version ∙ (with_platform_lem _ s1).0 ∙ r.version;
    plugins =
        l.plugins
        ∙ ap (λ qs. qs ++ map (plugin_of d) ps) ((with_platform_lem _ s1).1 ∙ r.plugins)
        ∙ append_assoc s.plugins (plugin_of d p ∷ []) (map (plugin_of d) ps);
    applications = l.applications ∙ (with_platform_lem _ s1).2 ∙ r.applications;
    repos = l.repos ∙ (with_platform_lem _ s1).3 ∙ r.repos;
    platform =
        l.platform
        ∙ ap (λ n. platform_from n (map (plugin_of d) ps))
            ((with_platform_lem _ s1).4
              ∙ ap (λ n. if maybe_get_platform p.kind == "" then n else maybe_get_platform p.kind)
                  r.platform);
  }

  pub load_plugins_lem :
      (ps : List Types.Plugin) (s : KfConfigSpec)
      → AllFound d.spec.plugins ps
      → (s' : KfConfigSpec) × (load_plugins Y d ps s ≡ ok s') × IsLoaded ps s s'
  unfolding load_plugins
  load_plugins_lem [] s there = (
    s,
    refl,
    record {
      version = refl;
      plugins = sym (append-nil s.plugins);
      applications = refl;
      repos = refl;
      platform = refl;
    },
  )
  load_plugins_lem (p ∷ ps) s there =
      let s0 : KfConfigSpec = record s { plugins = s.plugins ++ plugin_of d p ∷ [] } in
      let (s1, read, r) = load_gcp_lem p s0 there.0 in
      let (s2, loaded, l) =
        load_plugins_lem ps (with_platform (maybe_get_platform p.kind) s1) there.1 in
      (
        s2,
        ap (next_plugin Y d p (load_plugins Y d ps)) read ∙ loaded,
        next-IsLoaded p ps s s1 s2 r l,
      )
