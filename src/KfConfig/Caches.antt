-- ===== src/KfConfig/Caches.antt =====
-- pkg/kfconfig/types.go: `SyncCache`, which downloads the repositories of a configuration and records
-- where they are, and `untar`. The file system, the network and the libraries for archives and URLs are
-- a parameter.
pub mod Frame
pub mod Synced
mod Tests
use opendatahub_operator.Prelude.{
  ℕ, String, ◌<>◌, Bool, true, false, not, ◌&&◌, ◌||◌, Option, none, some, List, [], ◌∷◌, ◌++◌, any,
  ◌==◌, if◌then◌else◌,
}
use opendatahub_operator.Errors.{Error, kf_error, text, with_stack, invalid_argument, error_message}
use opendatahub_operator.Result.{
  Result, ok, err, panics, Action, ◌>>=◌, ◌>>◌, pure, raise, panic, attempt, gets, modify,
}
use opendatahub_operator.Strings.{has_prefix, trim_prefix}
use opendatahub_operator.KfConfig.{KfConfigSpec, Repo, Cache}

abbrev pub default_cache_dir : String
default_cache_dir = ".cache"

-- What `os.Stat` tells of a path.
pub data Stat : Type 0 where
  directory file : Stat
  missing : Stat
  unknown_stat : Error → Stat

abbrev pub exists : Stat → Bool
exists directory = true
exists file = true
exists _ = false

abbrev pub is_dir : Stat → Bool
is_dir directory = true
is_dir _ = false

-- A header of an archive, with its contents.
pub data Typeflag : Type 0 where
  type_dir type_reg other_type : Typeflag

pub record Header : Type 0 where
  pub name : String
  pub typeflag : Typeflag
  pub mode : ℕ
  pub contents : String

-- What the calls of `Next` on an archive give, one after the other: a header, or none, until the end
-- of the file or an error.
pub data Archive : Type 0 where
  eof : Archive
  broken : Error → Archive
  no_header : Archive → Archive
  entry : Header → Archive → Archive

-- The world has the caches of the configuration.
pub record Disk (W Handle : Type 0) : Type 0 where
  pub caches : W → List Cache
  pub put_caches : List Cache → W → W
  pub path_join : List String → String
  pub stat : String → Action W Stat
  pub mkdir_all : String → Action W (Unit {0})
  pub remove_all : String → Action W (Unit {0})
  pub read_dir : String → Action W (List String)
  pub parse_scheme : String → Result String
  pub abs : String → Action W String
  pub rel : String → String → Result String
  pub copy : String → String → Action W (Unit {0})
  -- `Do` of a request with the header of the program, and the reading of the body
  pub get : String → Action W (Unit {0})
  pub read_body : String → Action W String
  -- `gzip.NewReader` and `tar.NewReader`
  pub unzip : String → Result Archive
  pub open_file : String → ℕ → Action W Handle
  pub copy_to : Handle → String → Action W (Unit {0})
  pub close : Handle → Action W (Unit {0})

-- An error with a stack.
pub stacked : {W A : Type 0} → Result A → Action W A
stacked (ok a) = pure a
stacked (err e) = raise (with_stack e)
stacked (panics m) = panic m

lifted : {W A : Type 0} → Result A → Action W A
lifted (ok a) = pure a
lifted (err e) = raise e
lifted (panics m) = panic m

invalid_as : {W A : Type 0} → String → Result A → Action W A
invalid_as prefix (ok a) = pure a
invalid_as prefix (err e) = raise (kf_error invalid_argument (prefix <> error_message e))
invalid_as prefix (panics m) = panic m

-- An up-to-date cache of the repository is recorded.
unfoldable pub is_cached : String → List Cache → Bool
is_cached name caches = any (λ c. c.name == name && not (c.local_path == "")) caches

module _ {W Handle : Type 0} (D : Disk W Handle) where
  unpack : String → Header → Typeflag → Action W (Unit {0})
  unpack target h type_dir = do
    s ← D.stat target
    (if exists s then pure tt else D.mkdir_all target)
  unpack target h type_reg = do f ← D.open_file target h.mode; D.copy_to f h.contents; D.close f
  unpack target h other_type = pure tt

  unpack_all : String → Archive → Action W (Unit {0})
  unfolding unpack
  unpack_all cache_dir eof = pure tt
  unpack_all cache_dir (broken e) = raise e
  unpack_all cache_dir (no_header rest) = unpack_all cache_dir rest
  unpack_all cache_dir (entry h rest) = do
    unpack (D.path_join (cache_dir ∷ h.name ∷ [])) h h.typeflag
    unpack_all cache_dir rest

  -- `untar`
  unfoldable pub untar : String → String → Action W (Unit {0})
  unfolding lifted unpack_all
  untar body cache_dir = do archive ← lifted (D.unzip body); unpack_all cache_dir archive

  -- Manifests in a local directory, which may not hold the cache.
  copied : String → String → Action W (Unit {0})
  unfolding stacked
  copied uri cache_dir = do
    a ← attempt (D.abs cache_dir)
    abs_cache_dir ← stacked a
    b ← attempt (D.abs uri)
    abs_uri ← stacked b
    rel_dir ← stacked (D.rel abs_uri abs_cache_dir)
    (if not (has_prefix rel_dir "../")
        then raise (
            with_stack (
              text (
                "SyncCache: could not sync cache when the cache path "
                <> (cache_dir <> (" is sub directory of manifests " <> uri)))))
        else (do r ← attempt (D.copy uri cache_dir); stacked r))

  downloaded : String → String → Action W (Unit {0})
  unfolding stacked invalid_as
  downloaded uri cache_dir = do
    r ← attempt (D.get uri)
    invalid_as ("couldn't download URI " <> (uri <> ": ")) r
    b ← attempt (D.read_body uri)
    body ← stacked b
    u ← attempt (untar body cache_dir)
    stacked u

  pub fetched : String → String → Stat → Action W (Unit {0})
  unfolding copied downloaded
  fetched uri cache_dir s = if is_dir s then copied uri cache_dir else downloaded uri cache_dir

  -- `files[0]`
  first_dir : String → List String → Action W String
  first_dir cache_dir [] = panic "index out of range"
  first_dir cache_dir (subdir ∷ _) = pure (D.path_join (cache_dir ∷ subdir ∷ []))

  probed : String → String → List String → Stat → Action W String
  unfolding first_dir
  probed path cache_dir files directory = pure cache_dir
  probed path cache_dir files file = first_dir cache_dir files
  probed path cache_dir files missing = raise (
      kf_error invalid_argument (
        "couldn't stat the path "
        <> (path <> (": stat " <> (path <> ": no such file or directory")))))
  probed path cache_dir files (unknown_stat e) =
      raise (
        kf_error invalid_argument
          ("couldn't stat the path " <> (path <> (": " <> error_message e))))

  -- Where the manifests are: a tarball unpacks to a directory of its own.
  pub local_path : String → String → List String → String → Action W String
  unfolding first_dir probed
  local_path uri cache_dir files scheme =
      if scheme == "http" || scheme == "https"
      then first_dir cache_dir files
      else if scheme == "file"
      then (do let path = trim_prefix uri "file:"; s ← D.stat path; probed path cache_dir files s)
      else pure cache_dir

  pub add_cache : String → String → Action W (Unit {0})
  add_cache name path =
      modify (λ w. D.put_caches (D.caches w ++ record { name = name; local_path = path } ∷ []) w)

  -- A repository is downloaded, and where it is is recorded.
  pub download : Repo → String → Action W (Unit {0})
  unfolding stacked fetched local_path add_cache
  download r cache_dir = do
    scheme ← stacked (D.parse_scheme r.uri)
    made ← attempt (D.mkdir_all cache_dir)
    stacked made
    s ← D.stat r.uri
    fetched r.uri cache_dir s
    listed ← attempt (D.read_dir cache_dir)
    files ← stacked listed
    path ← local_path r.uri cache_dir files scheme
    add_cache r.name path

  pub refreshed : Repo → String → Action W (Unit {0})
  unfolding stacked download
  refreshed r cache_dir = do
    removed ← attempt (D.remove_all cache_dir)
    stacked removed
    download r cache_dir

  pub sync_existing : Repo → String → Bool → Action W (Unit {0})
  unfolding refreshed download is_cached
  sync_existing r cache_dir false = download r cache_dir
  sync_existing r cache_dir true = do
    caches ← gets D.caches
    (if is_cached r.name caches then pure tt else refreshed r cache_dir)

  -- One round of the loop over the repositories.
  pub sync_repo : String → Repo → Action W (Unit {0})
  unfolding sync_existing
  sync_repo base_cache_dir r = do
    let cache_dir = D.path_join (base_cache_dir ∷ r.name ∷ [])
    s ← D.stat cache_dir
    sync_existing r cache_dir (exists s)

  pub sync_repos : String → List Repo → Action W (Unit {0})
  unfolding sync_repo
  sync_repos base_cache_dir [] = pure tt
  sync_repos base_cache_dir (r ∷ rs) = do sync_repo base_cache_dir r; sync_repos base_cache_dir rs

  pub made_base : String → Stat → Action W (Unit {0})
  made_base dir missing = D.mkdir_all dir
  made_base dir _ = pure tt

  -- `SyncCache`
  unfoldable pub sync_cache : KfConfigSpec → Action W (Unit {0})
  unfolding made_base sync_repos
  sync_cache spec = if spec.app_dir == "" then raise (text "AppDir must be specified") else (do
    let base_cache_dir = D.path_join (spec.app_dir ∷ default_cache_dir ∷ [])
    s ← D.stat base_cache_dir
    made_base base_cache_dir s
    sync_repos base_cache_dir spec.repos)
