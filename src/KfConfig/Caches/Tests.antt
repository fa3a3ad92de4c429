-- ===== src/KfConfig/Caches/Tests.antt =====
-- `SyncCache` where the world is the caches, and everything can be fetched.
use opendatahub_operator.Prelude.{◌≡◌, refl, [], ◌∷◌, List, ◌==◌, ◌||◌, if◌then◌else◌, string_dec}
use opendatahub_operator.Result.{ok, Action, run}
use opendatahub_operator.Result.Keeps.{Keeps, Leaves}
use opendatahub_operator.Strings.{join}
use opendatahub_operator.KfConfig.{KfConfigSpec, Cache}
use opendatahub_operator.Controller.Simulation.{config}
use opendatahub_operator.KfConfig.Caches.{
  Disk, Stat, directory, missing, eof, is_cached, untar, sync_cache,
}
use opendatahub_operator.KfConfig.Caches.Frame.{IsApart}
use opendatahub_operator.KfConfig.Caches.Synced.{
  AreRecorded, Extends, sync_cache_recorded, sync_cache_idle,
}

abbrev nothing : Action (List Cache) (Unit {0})
nothing w = (ok tt, w)

abbrev disk : Stat → Disk (List Cache) (Unit {0})
disk s = record {
  caches = λ w. w;
  put_caches = λ cs w. cs;
  path_join = join "/";
  stat = λ f w. (ok s, w);
  mkdir_all = λ f. nothing;
  remove_all = λ f. nothing;
  read_dir = λ f w. (ok ("manifests-1" ∷ []), w);
  parse_scheme = λ u. ok "https";
  abs = λ f w. (ok f, w);
  rel = λ f g. ok "../x";
  copy = λ f g. nothing;
  get = λ u. nothing;
  read_body = λ u w. (ok "", w);
  unzip = λ s. ok eof;
  open_file = λ f mode w. (ok tt, w);
  copy_to = λ h s. nothing;
  close = λ h. nothing;
}

disk-IsApart : (s : Stat) → IsApart (disk s)
disk-IsApart s = record {
  put = λ cs w. refl;
  stat = λ f w. refl;
  mkdir_all = λ f w. refl;
  remove_all = λ f w. refl;
  read_dir = λ f w. refl;
  abs = λ f w. refl;
  copy = λ f g w. refl;
  get = λ u w. refl;
  read_body = λ u w. refl;
  open_file = λ f mode w. refl;
  copy_to = λ h s w. refl;
  close = λ h w. refl;
}

abbrev spec : KfConfigSpec
spec = record config.spec { repos = record { name = "manifests"; uri = "https://x" } ∷ [] }

abbrev fetched : List Cache
fetched =
    record { name = "manifests"; local_path = "/tmp/ns/odh/.cache/manifests/manifests-1" } ∷ []

first_sync : sync_cache (disk missing) spec [] ≡ (ok tt, fetched)
unfolding sync_cache join untar string_dec run
first_sync = refl

sync_cache_recorded_example :
    ((base : List Cache) → Keeps (λ w. Extends base w) (sync_cache (disk missing) spec))
    × Leaves (λ _. Unit {0}) (λ _ w. AreRecorded spec.repos w) (sync_cache (disk missing) spec)
sync_cache_recorded_example = sync_cache_recorded (disk missing) (disk-IsApart missing) spec

-- A disk with the two directories of the cache and no other.
abbrev two_directories : Disk (List Cache) (Unit {0})
two_directories = record (disk missing) {
  stat = λ f w. (
    ok (
        if f == "/tmp/ns/odh/.cache" || f == "/tmp/ns/odh/.cache/manifests"
        then directory
        else missing),
    w,
  );
}

-- A second call.
sync_cache_idle_example : sync_cache two_directories spec fetched ≡ (ok tt, fetched)
unfolding is_cached join string_dec
sync_cache_idle_example =
    sync_cache_idle two_directories spec fetched (λ e. cc) refl ((refl, refl), tt)
