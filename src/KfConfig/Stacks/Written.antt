-- ===== src/KfConfig/Stacks/Written.antt =====
-- What is on the disk after a parameter is set in a config map.
use opendatahub_operator.Prelude.{
  String, ◌<>◌, ◌≡◌, ◌≢◌, ◌⊎◌, inl, inr, refl, ap, ◌∙◌, true, false, Option, none, some, [], ◌∷◌,
  ◌++◌, any, ◌==◌, if◌then◌else◌, arith, Bool-cases,
}
use opendatahub_operator.Result.{ok, run}
use opendatahub_operator.Maps.{lookup, insert, lookup-insert}
use opendatahub_operator.KfConfig.Caches.{directory}
use opendatahub_operator.KfConfig.Stacks.{
  Read, contents, no_file, Kustomization, ConfigMap, Store, add_patch_strategic_merge, wrapped,
  made_dir, kustomization_of, save_kustomization, empty_map, config_map_of, patch_config_map,
  kustomization_file, config_map_path, set_application_parameter_in_config_map,
}

abbrev pub read_of : {Bytes : Type 0} → Option Bytes → Read Bytes
read_of none = no_file
read_of (some s) = contents s

-- A disk whose files are read as they were written, and values that are read from the bytes that they
-- are written as.
pub record IsDurable {W Bytes : Type 0} (S : Store W Bytes) (get : W → String → Option Bytes)
    (put : String → Bytes → W → W) (kustomization_text : Kustomization → Bytes)
    (config_map_text : ConfigMap → Bytes) : Type 0 where
  pub read : (f : String) (w : W) → S.read_file f w ≡ (ok (read_of (get w f)), w)
  pub write : (f : String) (s : Bytes) (w : W) → S.write_file f s w ≡ (ok tt, put f s w)
  pub get-put :
      (f g : String) (s : Bytes) (w : W) → get (put f s w) g ≡ (if f == g then some s else get w g)
  pub marshal_kustomization :
      (k : Kustomization) → S.marshal_kustomization k ≡ ok (kustomization_text k)
  pub unmarshal_kustomization :
      (k : Kustomization) → S.unmarshal_kustomization (kustomization_text k) ≡ ok k
  pub marshal_config_map : (c : ConfigMap) → S.marshal_config_map c ≡ ok (config_map_text c)
  pub unmarshal_config_map : (c d : ConfigMap) → S.unmarshal_config_map (config_map_text c) d ≡ ok c

-- A file holds a value, or there is no file and the value is the one to start from.
abbrev pub Holds : {A Bytes : Type 0} → Option Bytes → (A → Bytes) → A → A → Type 0
Holds o text start a = (o ≡ some (text a)) ⊎ ((o ≡ none) × (a ≡ start))

abbrev pub no_patches : Kustomization
no_patches = record { patches_strategic_merge = []; others = "" }

-- The kustomization with the patch at the end of its list, if it is not listed already. All else of
-- it stays.
abbrev pub patched : Kustomization → String → Kustomization
patched k f =
    if any (λ p. p == f) k.patches_strategic_merge
    then k
    else record k { patches_strategic_merge = k.patches_strategic_merge ++ f ∷ [] }

listed :
    (k : Kustomization) (f : String)
    → any (λ p. p == f) k.patches_strategic_merge ≡ true
    → add_patch_strategic_merge k f ≡ none
unfolding add_patch_strategic_merge
listed k f t = rw t

unlisted :
    (k : Kustomization) (f : String)
    → any (λ p. p == f) k.patches_strategic_merge ≡ false
    → add_patch_strategic_merge k f
      ≡ some (record k { patches_strategic_merge = k.patches_strategic_merge ++ f ∷ [] })
unfolding add_patch_strategic_merge
unlisted k f t = rw t

module _ {W Bytes : Type 0} (S : Store W Bytes) (get : W → String → Option Bytes)
    (put : String → Bytes → W → W) (kustomization_text : Kustomization → Bytes)
    (config_map_text : ConfigMap → Bytes)
    (durable : IsDurable S get put kustomization_text config_map_text) where
  kustomization_of_lem :
      (path : String) (k : Kustomization) (o : Option Bytes) (w : W)
      → Holds o kustomization_text no_patches k
      → kustomization_of S path (read_of o) w ≡ (ok k, w)
  unfolding kustomization_of wrapped run
  kustomization_of_lem path k o w (inl e) = rw (e, durable.unmarshal_kustomization k)
  kustomization_of_lem path k o w (inr (e, start)) = rw (e, start)

  config_map_of_lem :
      (path app_name : String) (c : ConfigMap) (o : Option Bytes) (w : W)
      → Holds o config_map_text (empty_map app_name) c
      → config_map_of S path app_name (read_of o) w ≡ (ok c, w)
  unfolding config_map_of wrapped run
  config_map_of_lem path app_name c o w (inl e) =
      rw (e, durable.unmarshal_config_map c (empty_map app_name))
  config_map_of_lem path app_name c o w (inr (e, start)) = rw (e, start)

  saved : String → Option Kustomization → W → W
  saved path none w = w
  saved path (some k) w = put path (kustomization_text k) w

  save_lem :
      (path app_name : String) (k : Option Kustomization) (w : W)
      → save_kustomization S path app_name k w ≡ (ok tt, saved path k w)
  unfolding save_kustomization wrapped saved run
  save_lem path app_name none w = refl
  save_lem path app_name (some k) w =
      rw (durable.marshal_kustomization k, durable.write path (kustomization_text k) w)

  abbrev with_entry : ConfigMap → String → String → ConfigMap
  with_entry c param_name value = record c { entries = insert param_name value c.entries }

  patch_lem :
      (path app_name param_name value : String) (c : ConfigMap) (w : W)
      → Holds (get w path) config_map_text (empty_map app_name) c
      → patch_config_map S path app_name param_name value w
        ≡ (ok tt, put path (config_map_text (with_entry c param_name value)) w)
  unfolding patch_config_map wrapped run
  patch_lem path app_name param_name value c w h = rw (
    durable.read path w,
    config_map_of_lem path app_name c (get w path) w h,
    durable.marshal_config_map (with_entry c param_name value),
    durable.write path (config_map_text (with_entry c param_name value)) w,
  )

  saved_other :
      (path other : String) (k : Option Kustomization) (w : W)
      → path ≢ other
      → get (saved path k w) other ≡ get w other
  unfolding saved
  saved_other path other none w differ = refl
  saved_other path other (some k) w differ =
      ground (arith, durable.get-put path other (kustomization_text k) w)

  get-put_self : (f : String) (s : Bytes) (w : W) → get (put f s w) f ≡ some s
  get-put_self f s w = ground (arith, durable.get-put f f s w)

  saved_self :
      (path patch : String) (k : Kustomization) (w : W)
      → Holds (get w path) kustomization_text no_patches k
      → get (saved path (add_patch_strategic_merge k patch) w) path
        ≡ some (kustomization_text (patched k patch))
  unfolding saved
  saved_self path patch k w h =
      elim (Bool-cases (any (λ p. p == patch) k.patches_strategic_merge)) [
        | inr f ↦ rw (unlisted k patch f, f) (get-put_self path _ w)
        | inl t ↦ elim h [
          | inl e ↦ rw (listed k patch t, t) e
          | inr (_, start) ↦
              let none_is : any (λ p. p == patch) k.patches_strategic_merge ≡ false =
                ap (λ (j : Kustomization). any (λ p. p == patch) j.patches_strategic_merge) start in
              absurd (cc)
        ]
      ]

  -- Setting a parameter of an application in a config map, where the directory of its stack is there,
  -- succeeds. The config map on the disk then has the value for the parameter and every other parameter
  -- as before, and the kustomization on the disk is the one it held with the patch of the application:
  -- unchanged where it lists that patch, and with it after the patches it had otherwise. The files are two, each holds what it was written with or is not there yet, and
  -- the disk and the YAML library give back what they were given.
  pub set_in_config_map :
      (dir app_name param_name value : String) (w : W)
      → S.stat dir w ≡ (ok directory, w)
      → kustomization_file S dir ≢ config_map_path S dir app_name
      → (k : Kustomization)
      → Holds (get w (kustomization_file S dir)) kustomization_text no_patches k
      → (c : ConfigMap)
      → Holds (get w (config_map_path S dir app_name)) config_map_text (empty_map app_name) c
      → (w' : W) × (c' : ConfigMap) × (set_application_parameter_in_config_map S dir app_name
            param_name value w
          ≡ (ok tt, w'))
        × (get w' (config_map_path S dir app_name) ≡ some (config_map_text c'))
        × ((q : String)
            → lookup q c'.entries ≡ (if param_name == q then some value else lookup q c.entries))
        × (get w' (kustomization_file S dir)
            ≡ some (kustomization_text (patched k (app_name <> "-config.yaml"))))
  unfolding set_application_parameter_in_config_map made_dir run
  set_in_config_map dir app_name param_name value w there differ k hk c hc =
      let kf = kustomization_file S dir in
      let cm = config_map_path S dir app_name in
      let patch = app_name <> "-config.yaml" in
      let c' = with_entry c param_name value in
      let w1 = saved kf (add_patch_strategic_merge k patch) w in
      let same : get w1 cm ≡ get w cm =
        saved_other kf cm (add_patch_strategic_merge k patch) w differ in
      let hc1 : Holds (get w1 cm) config_map_text (empty_map app_name) c = rw same hc in
      let other : get (put cm (config_map_text c') w1) kf ≡ get w1 kf =
        ground (arith, durable.get-put cm kf (config_map_text c') w1, differ) in
      (
        put cm (config_map_text c') w1,
        c',
        rw (
          there,
          durable.read kf w,
          kustomization_of_lem kf k (get w kf) w hk,
          save_lem kf app_name (add_patch_strategic_merge k patch) w,
          patch_lem cm app_name param_name value c w1 hc1,
        ),
        get-put_self cm (config_map_text c') w1,
        λ q. lookup-insert param_name q value c.entries,
        other ∙ saved_self kf patch k w hk,
      )
