-- ===== src/KfConfig/Plugins/Laws.antt =====
-- Reading a plugin's specification after it was set, and the error for a missing plugin.
use text.Mathlib.TextPositions.{starts_with-append}
use opendatahub_operator.Prelude.{
  ℕ, String, ◌<>◌, ◌≡◌, refl, true, Option, none, some, List, [], ◌∷◌, find, ◌==◌, if◌then◌else◌,
  arith,
}
use opendatahub_operator.Errors.{Error, kf_error, not_found}
use opendatahub_operator.Result.{Result, ok, err, panics}
use opendatahub_operator.KfConfig.{KfConfig, Plugin}
use opendatahub_operator.KfConfig.Conditions.{is_plugin_not_found}
use opendatahub_operator.KfConfig.Plugins.{
  Yaml, step, read_spec, put_plugin, get_plugin_spec, set_plugin_spec,
}

-- What a type's own text says survives the passage through a raw extension.
pub record IsFaithful {T : Type 0} (Y : Yaml T) : Type 0 where
  pub passage :
      (spec : T) (bytes : String) (raw : Option String)
      → Y.marshal spec ≡ ok bytes
      → Y.unmarshal_raw bytes ≡ ok raw
      → (bytes' : String) × (Y.marshal_raw raw ≡ ok bytes') × (Y.unmarshal bytes' ≡ ok spec)

spec_of : Option Plugin → Option (Option String)
spec_of none = none
spec_of (some p) = some p.spec

find-put_plugin :
    (k j : String) (r : Option String) (plugins : List Plugin)
    → spec_of (find (λ p. p.kind == j) (put_plugin k r plugins))
      ≡ (if k == j then some r else spec_of (find (λ p. p.kind == j) plugins))
unfolding put_plugin spec_of
find-put_plugin k j r [] = ground arith
find-put_plugin k j r (p ∷ plugins) = ground (arith, find-put_plugin k j r plugins)

read_spec_of : {T : Type 0} → Yaml T → String → Option (Option String) → Result T
unfolding read_spec
read_spec_of Y k none = read_spec Y k none
read_spec_of Y k (some r) =
    read_spec Y k (some (record { name = k; namespace = ""; kind = k; spec = r }))

read_spec_lem :
    {T : Type 0} (Y : Yaml T) (k : String) (p : Option Plugin)
    → read_spec Y k p ≡ read_spec_of Y k (spec_of p)
unfolding read_spec_of spec_of
read_spec_lem Y k none = refl
read_spec_lem Y k (some p) = refl

pub step_inv :
    {A B : Type 0} (code : ℕ) (prefix : String) (r : Result A) (f : A → Result B) {b : B}
    → step code prefix r f ≡ ok b
    → (a : A) × (r ≡ ok a) × (f a ≡ ok b)
unfolding step
step_inv code prefix (ok a) f h = (a, refl, h)
step_inv code prefix (err e) f h = cc
step_inv code prefix (panics m) f h = cc

module _ {T : Type 0} (Y : Yaml T) where
  set_plugin_spec_inv :
      (c c' : KfConfig) (k : String) (spec : T)
      → set_plugin_spec Y c k spec ≡ ok c'
      → (bytes : String) × (raw : Option String) × (Y.marshal spec ≡ ok bytes)
        × (Y.unmarshal_raw bytes ≡ ok raw)
        × (c'.spec.plugins ≡ put_plugin k raw c.spec.plugins)
  unfolding set_plugin_spec
  set_plugin_spec_inv c c' k spec done =
      let (bytes, m, rest) = step_inv _ _ (Y.marshal spec) _ done in
      let (raw, u, last) = step_inv _ _ (Y.unmarshal_raw bytes) _ rest in
      (bytes, raw, m, u, ground arith)

  get_plugin_spec_lem :
      (c : KfConfig) (j : String)
      → get_plugin_spec Y c j ≡ read_spec_of Y j (spec_of (find (λ p. p.kind == j) c.spec.plugins))
  unfolding get_plugin_spec
  get_plugin_spec_lem c j = read_spec_lem Y j (find (λ p. p.kind == j) c.spec.plugins)

  read_spec_of-if :
      (k j : String) (raw : Option String) (c : KfConfig)
      → read_spec_of Y j
          (if k == j then some raw else spec_of (find (λ p. p.kind == j) c.spec.plugins))
        ≡ (if k == j
            then read_spec_of Y j (some raw)
            else read_spec_of Y j (spec_of (find (λ p. p.kind == j) c.spec.plugins)))
  read_spec_of-if k j raw c = ground arith

  get-put_plugin :
      (c c' : KfConfig) (k j : String) (raw : Option String)
      → c'.spec.plugins ≡ put_plugin k raw c.spec.plugins
      → get_plugin_spec Y c' j
        ≡ (if k == j then read_spec_of Y j (some raw) else get_plugin_spec Y c j)
  get-put_plugin c c' k j raw e =
      rw
        (
          get_plugin_spec_lem c' j,
          get_plugin_spec_lem c j,
          e,
          find-put_plugin k j raw c.spec.plugins,
        )
        (read_spec_of-if k j raw c)

  read_back :
      IsFaithful Y
      → (k : String) (spec : T) (bytes : String) (raw : Option String) → Y.marshal spec ≡ ok bytes
      → Y.unmarshal_raw bytes ≡ ok raw
      → read_spec_of Y k (some raw) ≡ ok spec
  unfolding read_spec_of
  read_back law k spec bytes raw m u =
      let (bytes', m', u') = law.passage spec bytes raw m u in ground (arith, m', u')

  -- After a `SetPluginSpec` that gives no error, `GetPluginSpec` of that kind returns the value that
  -- was set, and of every other kind what it returned before, with a YAML library that reads back
  -- what it wrote.
  pub get_plugin_spec-set_plugin_spec :
      IsFaithful Y
      → (c c' : KfConfig) (k j : String) (spec : T) → set_plugin_spec Y c k spec ≡ ok c'
      → get_plugin_spec Y c' j ≡ (if k == j then ok spec else get_plugin_spec Y c j)
  get_plugin_spec-set_plugin_spec law c c' k j spec done =
      let (bytes, raw, m, u, e) = set_plugin_spec_inv c c' k spec done in
      ground (arith, get-put_plugin c c' k j raw e, read_back law j spec bytes raw m u)

  -- For a kind that the configuration has no plugin of, `GetPluginSpec` returns an error that
  -- `IsPluginNotFound` recognises.
  get_plugin_spec_missing :
      (c : KfConfig) (k : String)
      → find (λ p. p.kind == k) c.spec.plugins ≡ none
      → (e : Error) × (get_plugin_spec Y c k ≡ err e) × (is_plugin_not_found e ≡ true)
  unfolding get_plugin_spec is_plugin_not_found
  get_plugin_spec_missing c k missing = (
    kf_error not_found ("Missing plugin" <> (" " <> k)),
    rw missing,
    starts_with-append "Missing plugin" (" " <> k),
  )
