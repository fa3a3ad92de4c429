-- ===== src/Coordinator/Tests.antt =====
-- The coordinator with the platform gcp and one package manager, whose deletion fails.
use opendatahub_operator.Prelude.{◌≡◌, refl, none, List, [], ◌∷◌, ◌++◌, string_dec}
use opendatahub_operator.Errors.{Error, text, internal_error}
use opendatahub_operator.Result.{Result, ok, err, Action, run}
use opendatahub_operator.Result.Ends.{Ends, Any, IsKfError, HasCode}
use opendatahub_operator.Maps.{lookup}
use opendatahub_operator.Apps.{ResourceEnum, all, k8s, platform, KfApp}
use opendatahub_operator.KfConfig.{KfConfig}
use opendatahub_operator.Controller.Simulation.{config}
use opendatahub_operator.Coordinator.{Env, Coordinator, apply, delete, generate, init, dump, show}
use opendatahub_operator.Coordinator.Tame.{Tame, IsSound}
use opendatahub_operator.Coordinator.Failures.{coordinator_failures}
use opendatahub_operator.Coordinator.Log.{
  Method, apply_method, delete_method, generate_method, init_method, Call, sync_call, save_call,
  permission_call, pod_default_call, platform_call, manager_call, IsCall, Logs,
}
use opendatahub_operator.Coordinator.Plans.{
  name_of, email_of, IsLogged, IsLoggedApp, apply_calls, both_calls,
}
use opendatahub_operator.Coordinator.Order.{calls_in_order}

-- The world is the log.
abbrev World : Type 0
World = List Call

abbrev call : Call → Result (Unit {0}) → Action World (Unit {0})
call x r w = (r, w ++ x ∷ [])

abbrev gcp_config : KfConfig
gcp_config = record config { spec = record config.spec { platform = "gcp"; email = "me@odh.io" } }

abbrev env : Env World
env = record {
  kf_def = λ _. gcp_config;
  sync_cache = call sync_call (ok tt);
  write_config_to_file = λ _. call save_call (ok tt);
  setup_workload_identity_permission = call permission_call (ok tt);
  config_pod_default = call pod_default_call (ok tt);
}

abbrev app : (Method → ResourceEnum → Call) → Result (Unit {0}) → KfApp World
app x deletion = record {
  apply = λ r. call (x apply_method r) (ok tt);
  delete = λ r. call (x delete_method r) deletion;
  dump = λ _ w. (ok tt, w);
  generate = λ r. call (x generate_method r) (ok tt);
  init = λ r. call (x init_method r) (ok tt);
  show = none;
}

abbrev coordinator : Coordinator World
coordinator = record {
  platforms = ("gcp", app (λ method r. platform_call method r "gcp") (ok tt)) ∷ [];
  package_managers =
      ("kustomize", app (λ method r. manager_call method r "kustomize") (err (text "stuck"))) ∷ [];
}

is_call :
    (x : Call) (r : Result (Unit {0})) → IsCall (λ w. w) (name_of env) (email_of env) x (call x r)
is_call x r = record { logged = λ w. refl; same_name = λ w. refl; same_email = λ w. refl }

app-IsLoggedApp :
    (x : Method → ResourceEnum → Call) (r : Result (Unit {0}))
    → IsLoggedApp env (λ w. w) x (app x r)
app-IsLoggedApp x r = record {
  apply = λ k. is_call (x apply_method k) (ok tt);
  delete = λ k. is_call (x delete_method k) r;
  generate = λ k. is_call (x generate_method k) (ok tt);
  init = λ k. is_call (x init_method k) (ok tt);
}

env-IsLogged : IsLogged env (λ w. w) coordinator
env-IsLogged = record {
  sync = is_call sync_call (ok tt);
  write = λ _. is_call save_call (ok tt);
  permission = is_call permission_call (ok tt);
  pod_default = is_call pod_default_call (ok tt);
  platforms = (app-IsLoggedApp _ _, tt);
  package_managers = (app-IsLoggedApp _ _, tt);
}

call-Ends : {P : Error → Type 0} (x : Call) → Ends Any P (call x (ok tt))
call-Ends x = record { at = λ w. tt }

stuck-Tame : (x : Call) → Tame (call x (err (text "stuck")))
stuck-Tame x = record { at = λ w. tt }

env-IsSound : IsSound env coordinator
env-IsSound = record {
  sync = call-Ends _;
  write = λ _. call-Ends _;
  permission = call-Ends _;
  pod_default = call-Ends _;
  platforms = (
    record {
      apply = λ _. call-Ends _;
      delete = λ _. call-Ends _;
      dump = λ _. record { at = λ w. tt };
      generate = λ _. call-Ends _;
      init = λ _. call-Ends _;
      show = tt;
    },
    tt,
  );
  package_managers = (
    record {
      apply = λ _. call-Ends _;
      delete = λ _. stuck-Tame _;
      dump = λ _. record { at = λ w. tt };
      generate = λ _. call-Ends _;
      init = λ _. call-Ends _;
      show = tt;
    },
    tt,
  );
}

coordinator_failures_example :
    Ends Any (HasCode internal_error) (delete env coordinator all)
    × Ends Any (HasCode internal_error) (dump env coordinator all)
    × Ends Any (HasCode internal_error) (show env coordinator all)
    × Ends Any IsKfError (generate env coordinator all)
    × Ends Any IsKfError (init env coordinator all)
    × Ends Any Any (apply env coordinator all)
coordinator_failures_example = coordinator_failures env coordinator env-IsSound all

calls_in_order_example :
    Logs
      (λ w. w)
      (name_of env)
      (email_of env)
      "gcp"
      "me@odh.io"
      (apply_calls coordinator "gcp" "me@odh.io" all)
      (apply env coordinator all)
    × Logs
        (λ w. w)
        (name_of env)
        (email_of env)
        "gcp"
        "me@odh.io"
        (sync_call ∷ both_calls coordinator "gcp" "me@odh.io" generate_method all)
        (generate env coordinator all)
    × Logs
        (λ w. w)
        (name_of env)
        (email_of env)
        "gcp"
        "me@odh.io"
        (both_calls coordinator "gcp" "me@odh.io" init_method all)
        (init env coordinator all)
calls_in_order_example = calls_in_order env coordinator (λ w. w) "gcp" "me@odh.io" env-IsLogged all

-- All calls of a deployment, in order.
applied : apply env coordinator all [] ≡ (
  ok tt,
  sync_call
      ∷ platform_call apply_method all "gcp"
      ∷ manager_call apply_method k8s "kustomize"
      ∷ save_call
      ∷ permission_call
      ∷ pod_default_call
      ∷ [],
)
unfolding apply lookup string_dec run
applied = refl
