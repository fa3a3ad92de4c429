-- ===== src/Coordinator/Build/Complete.antt =====
-- What a coordinator has that was built from a file.
use opendatahub_operator.Prelude.{
  String, ◌≡◌, ◌≢◌, ◌⊎◌, inl, inr, refl, sym, ◌∙◌, List, [], ◌∷◌, if◌then◌else◌, ◌==◌, true, false,
  ap, arith,
}
use opendatahub_operator.Result.{
  Result, ok, err, panics, Action, attempt, ◌>>=◌, ◌>>◌, pure, raise, run,
}
use opendatahub_operator.Result.Inversion.{
  >>=-eq-ok, pure-eq-ok, raise-ne-ok, attempt-eq-ok, if-eq-ok,
}
use opendatahub_operator.Apps.{KfApp, all}
use opendatahub_operator.KfConfig.{KfConfig}
use opendatahub_operator.Loaders.Files.{load_config_from_uri, is_remote_file}
use opendatahub_operator.Coordinator
use opendatahub_operator.Coordinator.{Env, Coordinator}
use opendatahub_operator.Coordinator.Build.{
  Builder, kustomize, get_platform, app_file, nameless, named, name_from_app_file, fatal_as,
  platforms_of, creating, invalid_as, copied, coordinator_of, build, text_as, kf_app,
  new_load_kf_app_from_uri,
}

-- The platforms of a coordinator are those that its configuration asks for.
pub record IsComplete {S Obj : Type 0} (B : Builder S Obj) (c : Coordinator S) (kfdef : KfConfig)
    : Type 0 where
  pub named : kfdef.name ≢ ""
  pub package_managers : c.package_managers ≡ (kustomize, B.kustomize_app kfdef) ∷ []
  pub platforms :
      ((kfdef.spec.platform ≡ "") × (c.platforms ≡ []))
      ⊎ ((p : KfApp S) × (get_platform B kfdef ≡ ok p)
          × (c.platforms ≡ (kfdef.spec.platform, p) ∷ []))

string_eq : (s t : String) → (s == t) ≡ true → s ≡ t
string_eq s t h = ground arith

string_ne : (s t : String) → (s == t) ≡ false → s ≢ t
string_ne s t h = ground arith

fatal_as_inv :
    {W A : Type 0} (prefix : String) (r : Result A) (w w' : W) (a : A)
    → fatal_as prefix r w ≡ (ok a, w')
    → r ≡ ok a
unfolding fatal_as run
fatal_as_inv prefix (ok b) w w' a h = ground arith
fatal_as_inv prefix (err e) w w' a h = absurd (ground arith)
fatal_as_inv prefix (panics m) w w' a h = absurd (ground arith)

module _ {S Obj : Type 0} (B : Builder S Obj) where
  checked_name_inv :
      (k k' : KfConfig) (name : String) (w w' : S)
      → (if name == "" then raise (nameless B (app_file B k)) else pure (record k { name = name }))
          w
        ≡ (ok k', w')
      → k'.name ≢ ""
  checked_name_inv k k' name w w' h = elim (if-eq-ok (name == "") _ _ w k' w' h) [
    | inl (_, e) ↦ absurd (raise-ne-ok _ k' w w' e)
    | inr (differ, e) ↦
        rw (← (pure-eq-ok (record k { name = name }) k' w w' e).0) (string_ne name "" differ)
  ]

  named_inv : (k k' : KfConfig) (w w' : S) → named B k w ≡ (ok k', w') → k'.name ≢ ""
  unfolding named
  named_inv k k' w w' h = elim (if-eq-ok (k.name == "") _ _ w k' w' h) [
    | inl (_, e) ↦
        let (name, s, _, e') = >>=-eq-ok (name_from_app_file B (app_file B k)) _ w k' w' e in
        checked_name_inv k k' name s w' e'
    | inr (differ, e) ↦ rw (← (pure-eq-ok k k' w w' e).0) (string_ne k.name "" differ)
  ]

  platforms_of_inv :
      (k : KfConfig) (ps : List (String × KfApp S)) (w w' : S)
      → platforms_of B k w ≡ (ok ps, w')
      → ((k.spec.platform ≡ "") × (ps ≡ []))
        ⊎ ((p : KfApp S) × (get_platform B k ≡ ok p) × (ps ≡ (k.spec.platform, p) ∷ []))
  unfolding platforms_of
  platforms_of_inv k ps w w' h = elim (if-eq-ok (k.spec.platform == "") _ _ w ps w' h) [
    | inl (same, e) ↦ inl (string_eq k.spec.platform "" same, sym (pure-eq-ok [] ps w w' e).0)
    | inr (_, e) ↦
        let (p, s, got, e') = >>=-eq-ok (fatal_as _ (get_platform B k)) _ w ps w' e in
        inr (p, fatal_as_inv _ (get_platform B k) w s p got, sym (pure-eq-ok _ ps s w' e').0)
  ]

  coordinator_of-IsComplete :
      ((k : KfConfig) (s : S) → B.env.kf_def (B.put_kf_def k s) ≡ k)
      → (k : KfConfig) → k.name ≢ ""
      → (w w' : S) (c : Coordinator S) → coordinator_of B k w ≡ (ok c, w')
      → IsComplete B c (B.env.kf_def w')
  unfolding coordinator_of run
  coordinator_of-IsComplete kept k named w w' c h =
      let (ps, s, got, e) = >>=-eq-ok (platforms_of B k) _ w c w' h in
      let same_world : B.put_kf_def k s ≡ w' = ap (λ r. r.1) e in
      let made : record { platforms = ps; package_managers = (kustomize, B.kustomize_app k) ∷ [] }
          ≡ c =
        ground arith in
      let same : B.env.kf_def w' ≡ k = ap B.env.kf_def (sym same_world) ∙ kept k s in
      rw (same, ← made)
        (record {
          named = named;
          package_managers = refl;
          platforms = platforms_of_inv k ps w s got;
        })

  build-IsComplete :
      ((k : KfConfig) (s : S) → B.env.kf_def (B.put_kf_def k s) ≡ k)
      → (config_file : String) (w w' : S) (c : Coordinator S) → build B config_file w ≡ (ok c, w')
      → IsComplete B c (B.env.kf_def w')
  unfolding build
  build-IsComplete kept config_file w w' c h =
      let (r, s1, _, h1) =
        >>=-eq-ok (attempt (load_config_from_uri B.files config_file)) _ w c w' h in
      let (loaded, s2, _, h2) = >>=-eq-ok (invalid_as creating r) _ s1 c w' h1 in
      let (remote, s3, _, h3) = >>=-eq-ok (is_remote_file B.files config_file) _ s2 c w' h2 in
      let (_, s4, _, h4) = >>=-eq-ok (copied B loaded remote) _ s3 c w' h3 in
      let (kfdef, s5, e, h5) = >>=-eq-ok (named B loaded) _ s4 c w' h4 in
      coordinator_of-IsComplete kept kfdef (named_inv loaded kfdef s4 s5 e) s5 w' c h5

  text_as_inv :
      (prefix : String) (r : Result (Unit {0})) (w w' : S)
      → text_as prefix r w ≡ (ok tt, w')
      → (r ≡ ok tt) × (w ≡ w')
  unfolding text_as run
  text_as_inv prefix (ok u) w w' h = (refl, ground arith)
  text_as_inv prefix (err e) w w' h = absurd (ground arith)
  text_as_inv prefix (panics m) w w' h = absurd (ground arith)

  -- A call of the coordinator whose error is told as a text.
  told_call_inv :
      {A : Type 0} (prefix : String) (m : Action S (Unit {0})) (k : Action S A) (w w' : S) (a : A)
      → (attempt m >>= λ r. text_as prefix r >> k) w ≡ (ok a, w')
      → (s : S) × (m w ≡ (ok tt, s)) × (k s ≡ (ok a, w'))
  told_call_inv prefix m k w w' a h =
      let (r, s, called, h1) = >>=-eq-ok (attempt m) _ w a w' h in
      let (u, s1, told, h2) = >>=-eq-ok (text_as prefix r) _ s a w' h1 in
      let (succeeded, same) = text_as_inv prefix r s s1 told in
      (
        s,
        attempt-eq-ok m w s r called ∙ ap (λ (q : Result (Unit {0})). (q, s)) succeeded,
        rw same h2,
      )

  -- When `NewLoadKfAppFromURI` succeeds, it returns a coordinator that has `Init` and then `Generate`
  -- of everything behind it, both with no error. The configuration that the coordinator was built
  -- from has a name; its package manager is kustomize, and its platform is the one that the
  -- configuration names, or none where it names none, so that no platform it names is missing.
  pub new_load-IsComplete :
      ((k : KfConfig) (s : S) → B.env.kf_def (B.put_kf_def k s) ≡ k)
      → (config_file : String) (w w' : S) (app : KfApp S)
      → new_load_kf_app_from_uri B config_file w ≡ (ok app, w')
      → (c : Coordinator S) × (w1 : S) × (w2 : S) × (app ≡ kf_app B c)
        × IsComplete B c (B.env.kf_def w1)
        × (Coordinator.init B.env c all w1 ≡ (ok tt, w2))
        × (Coordinator.generate B.env c all w2 ≡ (ok tt, w'))
  unfolding new_load_kf_app_from_uri
  new_load-IsComplete kept config_file w w' app h =
      let (c, w1, built, h1) = >>=-eq-ok (build B config_file) _ w app w' h in
      let (w2, initialised, h2) = told_call_inv _ (Coordinator.init B.env c all) _ w1 w' app h1 in
      let (w3, generated, h3) = told_call_inv _ (Coordinator.generate B.env c all) _ w2 w' app h2 in
      let (same, last) = pure-eq-ok (kf_app B c) app w3 w' h3 in
      (
        c,
        w1,
        w2,
        sym same,
        build-IsComplete kept config_file w w1 c built,
        initialised,
        generated ∙ ap (λ s. (ok tt, s)) last,
      )
