-- ===== src/KfConfig/Caches/Frame.antt =====
-- What `SyncCache` keeps: a property of the caches that more of them do not spoil.
use mathlib.Core.Path.{subst}
use opendatahub_operator.Prelude.{ℕ, String, ◌≡◌, sym, Bool, true, false, List, [], ◌∷◌, ◌++◌}
use opendatahub_operator.Result.{Result, ok, err, panics, Action, run}
use opendatahub_operator.Result.Keeps.{
  Keeps, Keeps-bind, Keeps-pure, Keeps-raise, Keeps-panic, Keeps-attempt, Keeps-if, Keeps-gets,
}
use opendatahub_operator.KfConfig.{KfConfigSpec, Repo, Cache}
use opendatahub_operator.KfConfig.Caches.{
  Disk, Stat, directory, file, missing, unknown_stat, Header, Typeflag, type_dir, type_reg,
  other_type, Archive, eof, broken, no_header, entry, stacked, lifted, invalid_as, unpack,
  unpack_all, untar, copied, downloaded, fetched, first_dir, probed, local_path, add_cache,
  download, refreshed, sync_existing, sync_repo, sync_repos, made_base, sync_cache,
}

-- The file system and the network do not change the configuration.
pub record IsApart {W Handle : Type 0} (D : Disk W Handle) : Type 0 where
  pub put : (cs : List Cache) (w : W) → D.caches (D.put_caches cs w) ≡ cs
  pub stat : (f : String) (w : W) → D.caches (D.stat f w).1 ≡ D.caches w
  pub mkdir_all : (f : String) (w : W) → D.caches (D.mkdir_all f w).1 ≡ D.caches w
  pub remove_all : (f : String) (w : W) → D.caches (D.remove_all f w).1 ≡ D.caches w
  pub read_dir : (f : String) (w : W) → D.caches (D.read_dir f w).1 ≡ D.caches w
  pub abs : (f : String) (w : W) → D.caches (D.abs f w).1 ≡ D.caches w
  pub copy : (f g : String) (w : W) → D.caches (D.copy f g w).1 ≡ D.caches w
  pub get : (u : String) (w : W) → D.caches (D.get u w).1 ≡ D.caches w
  pub read_body : (u : String) (w : W) → D.caches (D.read_body u w).1 ≡ D.caches w
  pub open_file : (f : String) (mode : ℕ) (w : W) → D.caches (D.open_file f mode w).1 ≡ D.caches w
  pub copy_to : (h : Handle) (s : String) (w : W) → D.caches (D.copy_to h s w).1 ≡ D.caches w
  pub close : (h : Handle) (w : W) → D.caches (D.close h w).1 ≡ D.caches w

module _ {W Handle : Type 0} (D : Disk W Handle) (apart : IsApart D) where
  -- A property of the caches that more of them do not spoil.
  module _ (P : List Cache → Type 0)
      (grows : (c : Cache) (cs : List Cache) → P cs → P (cs ++ c ∷ [])) where
    abbrev pub Kept : {A : Type 0} → Action W A → Type 0
    Kept m = Keeps (λ w. P (D.caches w)) m

    pub framed : {A : Type 0} {m : Action W A} → ((w : W) → D.caches (m w).1 ≡ D.caches w) → Kept m
    framed same = record { at = λ w p. subst P (sym (same w)) p }

    pub stacked-Kept : {A : Type 0} (r : Result A) → Kept (stacked r)
    unfolding stacked
    stacked-Kept (ok a) = Keeps-pure a
    stacked-Kept (err e) = Keeps-raise _
    stacked-Kept (panics m) = Keeps-panic m

    lifted-Kept : {A : Type 0} (r : Result A) → Kept (lifted r)
    unfolding lifted
    lifted-Kept (ok a) = Keeps-pure a
    lifted-Kept (err e) = Keeps-raise _
    lifted-Kept (panics m) = Keeps-panic m

    invalid_as-Kept : {A : Type 0} (prefix : String) (r : Result A) → Kept (invalid_as prefix r)
    unfolding invalid_as
    invalid_as-Kept prefix (ok a) = Keeps-pure a
    invalid_as-Kept prefix (err e) = Keeps-raise _
    invalid_as-Kept prefix (panics m) = Keeps-panic m

    pub stat-Kept : (f : String) → Kept (D.stat f)
    stat-Kept f = framed (apart.stat f)

    pub mkdir_all-Kept : (f : String) → Kept (D.mkdir_all f)
    mkdir_all-Kept f = framed (apart.mkdir_all f)

    unpack-Kept : (target : String) (h : Header) (t : Typeflag) → Kept (unpack D target h t)
    unfolding unpack
    unpack-Kept target h type_dir =
        Keeps-bind (stat-Kept target) λ s. Keeps-if _ (Keeps-pure tt) (mkdir_all-Kept target)
    unpack-Kept target h type_reg =
        Keeps-bind (framed (apart.open_file target h.mode))
          λ f. Keeps-bind (framed (apart.copy_to f h.contents)) λ _. framed (apart.close f)
    unpack-Kept target h other_type = Keeps-pure tt

    unpack_all-Kept : (dir : String) (a : Archive) → Kept (unpack_all D dir a)
    unfolding unpack_all
    unpack_all-Kept dir eof = Keeps-pure tt
    unpack_all-Kept dir (broken e) = Keeps-raise e
    unpack_all-Kept dir (no_header rest) = unpack_all-Kept dir rest
    unpack_all-Kept dir (entry h rest) =
        Keeps-bind (unpack-Kept _ h h.typeflag) λ _. unpack_all-Kept dir rest

    untar-Kept : (body dir : String) → Kept (untar D body dir)
    unfolding untar
    untar-Kept body dir = Keeps-bind (lifted-Kept (D.unzip body)) λ a. unpack_all-Kept dir a

    copied-Kept : (uri dir : String) → Kept (copied D uri dir)
    unfolding copied
    copied-Kept uri dir = Keeps-bind (Keeps-attempt (framed (apart.abs dir))) λ a.
        Keeps-bind (stacked-Kept a) λ abs_cache_dir.
          Keeps-bind (Keeps-attempt (framed (apart.abs uri))) λ b.
            Keeps-bind (stacked-Kept b) λ abs_uri.
              Keeps-bind (stacked-Kept (D.rel abs_uri abs_cache_dir)) λ rel_dir.
                Keeps-if _ (Keeps-raise _)
                  (Keeps-bind (Keeps-attempt (framed (apart.copy uri dir))) λ r. stacked-Kept r)

    downloaded-Kept : (uri dir : String) → Kept (downloaded D uri dir)
    unfolding downloaded
    downloaded-Kept uri dir = Keeps-bind (Keeps-attempt (framed (apart.get uri))) λ r.
        Keeps-bind (invalid_as-Kept _ r) λ _.
          Keeps-bind (Keeps-attempt (framed (apart.read_body uri))) λ b.
            Keeps-bind (stacked-Kept b)
              λ body. Keeps-bind (Keeps-attempt (untar-Kept body dir)) λ u. stacked-Kept u

    pub fetched-Kept : (uri dir : String) (s : Stat) → Kept (fetched D uri dir s)
    unfolding fetched
    fetched-Kept uri dir s = Keeps-if _ (copied-Kept uri dir) (downloaded-Kept uri dir)

    first_dir-Kept : (dir : String) (files : List String) → Kept (first_dir D dir files)
    unfolding first_dir
    first_dir-Kept dir [] = Keeps-panic _
    first_dir-Kept dir (f ∷ fs) = Keeps-pure _

    probed-Kept :
        (path dir : String) (files : List String) (s : Stat) → Kept (probed D path dir files s)
    unfolding probed
    probed-Kept path dir files directory = Keeps-pure dir
    probed-Kept path dir files file = first_dir-Kept dir files
    probed-Kept path dir files missing = Keeps-raise _
    probed-Kept path dir files (unknown_stat e) = Keeps-raise _

    pub local_path-Kept :
        (uri dir : String) (files : List String) (scheme : String)
        → Kept (local_path D uri dir files scheme)
    unfolding local_path
    local_path-Kept uri dir files scheme =
        Keeps-if _ (first_dir-Kept dir files)
          (Keeps-if _ (Keeps-bind (stat-Kept _) λ s. probed-Kept _ dir files s) (Keeps-pure dir))

    add_cache-Kept : (name path : String) → Kept (add_cache D name path)
    unfolding add_cache run
    add_cache-Kept name path = record {
      at = λ w p. subst P (sym (apart.put _ w)) (grows _ (D.caches w) p);
    }

    pub download-Kept : (r : Repo) (dir : String) → Kept (download D r dir)
    unfolding download
    download-Kept r dir = Keeps-bind (stacked-Kept (D.parse_scheme r.uri)) λ scheme.
        Keeps-bind (Keeps-attempt (mkdir_all-Kept dir)) λ made. Keeps-bind (stacked-Kept made) λ _.
          Keeps-bind (stat-Kept r.uri) λ s. Keeps-bind (fetched-Kept r.uri dir s) λ _.
            Keeps-bind (Keeps-attempt (framed (apart.read_dir dir))) λ listed.
              Keeps-bind (stacked-Kept listed) λ files.
                Keeps-bind (local_path-Kept r.uri dir files scheme)
                  λ path. add_cache-Kept r.name path

    pub refreshed-Kept : (r : Repo) (dir : String) → Kept (refreshed D r dir)
    unfolding refreshed
    refreshed-Kept r dir =
        Keeps-bind (Keeps-attempt (framed (apart.remove_all dir)))
          λ removed. Keeps-bind (stacked-Kept removed) λ _. download-Kept r dir

    sync_existing-Kept : (r : Repo) (dir : String) (b : Bool) → Kept (sync_existing D r dir b)
    unfolding sync_existing
    sync_existing-Kept r dir false = download-Kept r dir
    sync_existing-Kept r dir true =
        Keeps-bind (Keeps-gets D.caches) λ cs. Keeps-if _ (Keeps-pure tt) (refreshed-Kept r dir)

    sync_repo-Kept : (base : String) (r : Repo) → Kept (sync_repo D base r)
    unfolding sync_repo
    sync_repo-Kept base r = Keeps-bind (stat-Kept _) λ s. sync_existing-Kept r _ _

    sync_repos-Kept : (base : String) (rs : List Repo) → Kept (sync_repos D base rs)
    unfolding sync_repos
    sync_repos-Kept base [] = Keeps-pure tt
    sync_repos-Kept base (r ∷ rs) = Keeps-bind (sync_repo-Kept base r) λ _. sync_repos-Kept base rs

    pub made_base-Kept : (dir : String) (s : Stat) → Kept (made_base D dir s)
    unfolding made_base
    made_base-Kept dir missing = mkdir_all-Kept dir
    made_base-Kept dir directory = Keeps-pure tt
    made_base-Kept dir file = Keeps-pure tt
    made_base-Kept dir (unknown_stat e) = Keeps-pure tt

    pub sync_cache-Kept : (spec : KfConfigSpec) → Kept (sync_cache D spec)
    unfolding sync_cache
    sync_cache-Kept spec = Keeps-if _ (Keeps-raise _) (
        Keeps-bind (stat-Kept _)
          λ s. Keeps-bind (made_base-Kept _ s) λ _. sync_repos-Kept _ spec.repos)
