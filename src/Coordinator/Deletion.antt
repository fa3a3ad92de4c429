-- ===== src/Coordinator/Deletion.antt =====
-- `Delete` of the coordinator: what is deleted when the package managers fail.
use opendatahub_operator.Prelude.{String, ◌≡◌, refl, ◌==◌, if◌then◌else◌, List}
use opendatahub_operator.Result.{Result, ok, err, panics, Action, ◌>>◌, pure, run}
use opendatahub_operator.Maps.{lookup}
use opendatahub_operator.Apps.{platform}
use opendatahub_operator.Coordinator.{
  Env, Coordinator, told, platform_name, platform_told, call_platform, delete,
}
use opendatahub_operator.Coordinator.Log.{Call}
use opendatahub_operator.Coordinator.Plans.{IsLogged}

told_world :
    {S : Type 0} (prefix : String) (r : Result (Unit {0})) (s : S) → (told prefix r s).1 ≡ s
unfolding told run
told_world prefix (ok u) s = refl
told_world prefix (err e) s = refl
told_world prefix (panics m) s = refl

module _ {S : Type 0} (E : Env S) (c : Coordinator S) (log : S → List Call) (name email : String)
    (logged : IsLogged E log c) where
  platform_told_world :
      (verb : String) (r : Result (Unit {0})) (s : S)
      → ((platform_told E c verb r >> pure tt) s).1 ≡ s
  unfolding platform_told platform_name told run
  platform_told_world verb (ok u) s = refl
  platform_told_world verb (err e) s = refl
  platform_told_world verb (panics m) s = refl

  named_call : (p : String) → (s : S) → Action S (Unit {0})
  named_call n s =
      if n == ""
      then pure tt
      else call_platform E c "Delete" (λ m. m.delete platform) (pure tt) (lookup n c.platforms)
