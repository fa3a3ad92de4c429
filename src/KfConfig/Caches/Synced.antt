-- ===== src/KfConfig/Caches/Synced.antt =====
-- What `SyncCache` records of the repositories.
use mathlib.Core.Path.{subst}
use mathlib.Core.Logic.{if_neg}
use mathlib.Core.List.{append_assoc}
use opendatahub_operator.Prelude.{
  String, ◌≡◌, refl, sym, ap, ◌∙◌, Bool, true, false, ◌||◌, List, [], ◌∷◌, ◌++◌, any, ◌==◌,
  if◌then◌else◌, ◌≢◌, string_dec, arith,
}
use opendatahub_operator.Result.{ok, Action, pure, gets, run}
use opendatahub_operator.Result.Keeps.{
  Keeps, Leaves, Keeps-attempt, Leaves-Keeps, Leaves-pure, Leaves-raise, Leaves-bind,
}
use opendatahub_operator.KfConfig.{KfConfigSpec, Repo, Cache}
use opendatahub_operator.KfConfig.Caches.{
  Disk, directory, add_cache, download, refreshed, is_cached, sync_existing, sync_repo, sync_repos,
  made_base, sync_cache, default_cache_dir,
}
use opendatahub_operator.KfConfig.Caches.Frame.{
  IsApart, framed, stacked-Kept, stat-Kept, mkdir_all-Kept, fetched-Kept, local_path-Kept,
  made_base-Kept, sync_cache-Kept,
}

-- The repository is recorded.
abbrev pub is_recorded : String → List Cache → Bool
is_recorded name cs = any (λ c. c.name == name) cs

abbrev pub AreRecorded : List Repo → List Cache → Type 0
AreRecorded [] cs = Unit {0}
AreRecorded (r ∷ rs) cs = (is_recorded r.name cs ≡ true) × AreRecorded rs cs

abbrev pub Extends : List Cache → List Cache → Type 0
Extends base cs = (extra : List Cache) × (cs ≡ base ++ extra)

Leaves-weaken :
    {W A : Type 0} {P P' : W → Type 0} {Q Q' : A → W → Type 0} {m : Action W A}
    → ((w : W) → P' w → P w)
    → ((a : A) (w : W) → Q a w → Q' a w)
    → Leaves P Q m
    → Leaves P' Q' m
Leaves-weaken {m = m} pre post l = record { at = λ w a p e. post a (m w).1 (l.at w a (pre w p) e) }

Leaves-gets :
    {W A : Type 0} {P : W → Type 0} (f : W → A) → Leaves P (λ a w. P w × (a ≡ f w)) (gets f)
unfolding run
Leaves-gets f = record { at = λ w a p e. (p, ground arith) }

Leaves-if :
    {W A : Type 0} {P : W → Type 0} {Q : A → W → Type 0} (b : Bool) {m n : Action W A}
    → Leaves P Q m
    → Leaves P Q n
    → Leaves P Q (if b then m else n)
Leaves-if true h k = h
Leaves-if false h k = k

is_recorded-append :
    (name : String) (c : Cache) (cs : List Cache)
    → is_recorded name (cs ++ c ∷ []) ≡ (is_recorded name cs || c.name == name)
is_recorded-append name c [] = ground arith
is_recorded-append name c (d ∷ cs) = ground (arith, is_recorded-append name c cs)

is_cached-recorded :
    (name : String) (cs : List Cache) → is_cached name cs ≡ true → is_recorded name cs ≡ true
unfolding is_cached
is_cached-recorded name [] h = cc
is_cached-recorded name (c ∷ cs) h = ground (arith, is_cached-recorded name cs)

recorded_self :
    (name path : String) (cs : List Cache)
    → is_recorded name (cs ++ record { name = name; local_path = path } ∷ []) ≡ true
recorded_self name path cs =
    ground (arith, is_recorded-append name (record { name = name; local_path = path }) cs)

module _ {W Handle : Type 0} (D : Disk W Handle) (apart : IsApart D) where
  module _ (P : List Cache → Type 0)
      (grows : (c : Cache) (cs : List Cache) → P cs → P (cs ++ c ∷ [])) where
    abbrev Before : W → Type 0
    Before w = P (D.caches w)

    abbrev After : String → Unit {0} → W → Type 0
    After name _ w = P (D.caches w) × (is_recorded name (D.caches w) ≡ true)

    add_cache-Leaves : (name path : String) → Leaves Before (After name) (add_cache D name path)
    unfolding add_cache run
    add_cache-Leaves name path = record {
      at = λ w a p e.
          subst (λ cs. P cs × (is_recorded name cs ≡ true)) (sym (apart.put _ w))
            (grows _ (D.caches w) p, recorded_self name path (D.caches w));
    }

    download-Leaves : (r : Repo) (dir : String) → Leaves Before (After r.name) (download D r dir)
    unfolding download
    download-Leaves r dir =
        Leaves-bind (Leaves-Keeps (stacked-Kept D apart P grows (D.parse_scheme r.uri))) λ scheme.
          Leaves-bind (Leaves-Keeps (Keeps-attempt (mkdir_all-Kept D apart P grows dir))) λ made.
            Leaves-bind (Leaves-Keeps (stacked-Kept D apart P grows made)) λ _.
              Leaves-bind (Leaves-Keeps (stat-Kept D apart P grows r.uri)) λ s.
                Leaves-bind (Leaves-Keeps (fetched-Kept D apart P grows r.uri dir s)) λ _.
                  Leaves-bind
                    (Leaves-Keeps (Keeps-attempt (framed D apart P grows (apart.read_dir dir))))
                    λ listed.
                      Leaves-bind (Leaves-Keeps (stacked-Kept D apart P grows listed)) λ files.
                        Leaves-bind
                          (Leaves-Keeps (local_path-Kept D apart P grows r.uri dir files scheme))
                          λ path. add_cache-Leaves r.name path

    refreshed-Leaves : (r : Repo) (dir : String) → Leaves Before (After r.name) (refreshed D r dir)
    unfolding refreshed
    refreshed-Leaves r dir =
        Leaves-bind (Leaves-Keeps (Keeps-attempt (framed D apart P grows (apart.remove_all dir))))
          λ removed.
            Leaves-bind (Leaves-Keeps (stacked-Kept D apart P grows removed))
              λ _. download-Leaves r dir

    skipped-Leaves :
        (r : Repo) (dir : String) (cs : List Cache) (b : Bool)
        → is_cached r.name cs ≡ b
        → Leaves
            (λ w. Before w × (cs ≡ D.caches w))
            (After r.name)
            (if b then pure tt else refreshed D r dir)
    skipped-Leaves r dir cs true h =
        Leaves-pure tt
          λ w q. (q.0, ap (is_recorded r.name) (sym q.1) ∙ is_cached-recorded r.name cs h)
    skipped-Leaves r dir cs false h =
        Leaves-weaken (λ w q. q.0) (λ a w q. q) (refreshed-Leaves r dir)

    sync_existing-Leaves :
        (r : Repo) (dir : String) (b : Bool)
        → Leaves Before (After r.name) (sync_existing D r dir b)
    unfolding sync_existing
    sync_existing-Leaves r dir false = download-Leaves r dir
    sync_existing-Leaves r dir true =
        Leaves-bind (Leaves-gets D.caches) λ cs. skipped-Leaves r dir cs (is_cached r.name cs) refl

    sync_repo-Leaves :
        (base : String) (r : Repo) → Leaves Before (After r.name) (sync_repo D base r)
    unfolding sync_repo
    sync_repo-Leaves base r =
        Leaves-bind (Leaves-Keeps (stat-Kept D apart P grows _)) λ s. sync_existing-Leaves r _ _

  recorded_grows :
      (P : List Cache → Type 0) (name : String)
      → ((c : Cache) (cs : List Cache) → P cs → P (cs ++ c ∷ []))
      → (c : Cache) (cs : List Cache) → P cs × (is_recorded name cs ≡ true)
      → P (cs ++ c ∷ []) × (is_recorded name (cs ++ c ∷ []) ≡ true)
  recorded_grows P name grows c cs (p, h) =
      (grows c cs p, ground (arith, is_recorded-append name c cs))

  sync_repos-Leaves :
      (P : List Cache → Type 0)
      → ((c : Cache) (cs : List Cache) → P cs → P (cs ++ c ∷ []))
      → (base : String) (rs : List Repo)
      → Leaves
          (λ w. P (D.caches w))
          (λ _ w. P (D.caches w) × AreRecorded rs (D.caches w))
          (sync_repos D base rs)
  unfolding sync_repos
  sync_repos-Leaves P grows base [] = Leaves-pure tt λ w p. (p, tt)
  sync_repos-Leaves P grows base (r ∷ rs) = Leaves-bind (sync_repo-Leaves P grows base r) λ _.
      Leaves-weaken (λ w q. q) (λ a w q. (q.0.0, (q.0.1, q.1)))
        (sync_repos-Leaves (λ cs. P cs × (is_recorded r.name cs ≡ true))
          (recorded_grows P r.name grows) base rs)

  -- `SyncCache` only adds to the caches of the configuration, at their end, also when it fails or
  -- panics; and when it succeeds, every repository of the configuration has a cache recorded under its
  -- name. The file system and the network do not change the configuration.
  pub sync_cache_recorded :
      (spec : KfConfigSpec)
      → ((base : List Cache) → Keeps (λ w. Extends base (D.caches w)) (sync_cache D spec))
        × Leaves (λ _. Unit {0}) (λ _ w. AreRecorded spec.repos (D.caches w)) (sync_cache D spec)
  unfolding sync_cache
  sync_cache_recorded spec = (
    λ base.
        sync_cache-Kept D apart (Extends base)
          (λ c cs p. (p.0 ++ c ∷ [], ap (λ xs. xs ++ c ∷ []) p.1 ∙ append_assoc base p.0 (c ∷ [])))
          spec,
    Leaves-if (spec.app_dir == "") (Leaves-raise _) (
        Leaves-bind (Leaves-Keeps (stat-Kept D apart (λ _. Unit {0}) (λ c cs p. p) _)) λ s.
          Leaves-bind (Leaves-Keeps (made_base-Kept D apart (λ _. Unit {0}) (λ c cs p. p) _ s)) λ _.
            Leaves-weaken (λ w q. q) (λ a w q. q.1)
              (sync_repos-Leaves (λ _. Unit {0}) (λ c cs p. p) _ spec.repos)),
  )

module _ {W Handle : Type 0} (D : Disk W Handle) where
  -- The path names a directory, and to find that out changes nothing.
  abbrev pub IsDirectory : String → W → Type 0
  IsDirectory f w = D.stat f w ≡ (ok directory, w)

  -- Each repository has its directory under the cache directory, and an up-to-date cache recorded.
  abbrev pub AreCached : String → W → List Repo → Type 0
  AreCached base w [] = Unit {0}
  AreCached base w (r ∷ rs) =
      (IsDirectory (D.path_join (base ∷ r.name ∷ [])) w × (is_cached r.name (D.caches w) ≡ true))
      × AreCached base w rs

  sync_repos_idle :
      (base : String) (w : W) (rs : List Repo)
      → AreCached base w rs
      → sync_repos D base rs w ≡ (ok tt, w)
  unfolding sync_repos sync_repo sync_existing run
  sync_repos_idle base w [] h = refl
  sync_repos_idle base w (r ∷ rs) h = rw (h.0.0, h.0.1) (sync_repos_idle base w rs h.1)

  -- `SyncCache` of a configuration with a directory does nothing, and succeeds, where the cache
  -- directory is there, and for each repository its directory in the cache directory is there and an
  -- up-to-date cache is recorded.
  pub sync_cache_idle :
      (spec : KfConfigSpec) (w : W)
      → spec.app_dir ≢ ""
      → IsDirectory (D.path_join (spec.app_dir ∷ default_cache_dir ∷ [])) w
      → AreCached (D.path_join (spec.app_dir ∷ default_cache_dir ∷ [])) w spec.repos
      → sync_cache D spec w ≡ (ok tt, w)
  unfolding sync_cache made_base run
  sync_cache_idle spec w named there h =
      rw (if_neg (string_dec spec.app_dir "") named, there) (sync_repos_idle _ w spec.repos h)
