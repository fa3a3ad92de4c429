-- ===== src/Controller/Reconcile/FinalizerRemoval/Tests.antt =====
-- The removal of the finalizer on a server with optimistic locking and one object.
use opendatahub_operator.Prelude.{
  ℕ, suc, ◌-◌, ◌≤◌, ◌<◌, ◌⊎◌, String, ◌≡◌, refl, false, some, [], nat_eq, if◌then◌else◌, arith,
}
use opendatahub_operator.Errors.{api_conflict}
use opendatahub_operator.Result.{ok, err, Action}
use opendatahub_operator.Strings.{join}
use opendatahub_operator.Controller.{KfDef, Cluster, has, finalizer}
use opendatahub_operator.Controller.Reconcile.{remove_finalizer}
use opendatahub_operator.Controller.Reconcile.FinalizerRemoval.{IsLocking, remove_finalizer_exact}
use opendatahub_operator.Controller.Simulation.{instance_named, request}

-- The object, and how many of our updates another client overtakes.
record Server : Type 0 where
  object : KfDef
  others : ℕ

abbrev written : KfDef → ℕ → KfDef
written i version = record i { resource_version = suc version }

abbrev update : KfDef → Action Server KfDef
update i w =
    if nat_eq w.others 0
    then if nat_eq i.resource_version w.object.resource_version
      then (
        ok (written i w.object.resource_version),
        record w { object = written i w.object.resource_version },
      )
      else (err (api_conflict "stale"), w)
    else (
      err (api_conflict "overtaken"),
      record w { object = written w.object w.object.resource_version; others = w.others - 1 },
    )

abbrev nothing : Action Server (Unit {0})
nothing w = (ok tt, w)

abbrev server : Cluster
server = record {
  State = Server;
  get = λ _ w. (ok w.object, w);
  update = update;
  update_status = λ _. nothing;
  delete_kf_def = λ _. nothing;
  delete_namespace = λ _. nothing;
  list_api_services = λ w. (ok [], w);
  delete_api_service = λ _. nothing;
  list_namespaces = λ _ _ w. (ok [], w);
  list_config_maps = λ _ _ _ w. (ok [], w);
  operator_namespace = λ w. (ok "odh-operator", w);
  new_olm_client = nothing;
  list_cluster_service_versions = λ _ w. (ok [], w);
  delete_cluster_service_version = λ _. nothing;
  eventf = λ _ _ _ w. w;
  remove_all = λ _. nothing;
  mkdir_all = λ _. nothing;
  write_file = λ _ _. nothing;
  new_controller = λ _. nothing;
  watch = λ _. nothing;
  start = λ w. w;
  marshal = λ i. i.name;
  path_join = join "/";
  set_list = λ xs. xs;
}

server-IsLocking :
    IsLocking server request
      (λ w. w.object.resource_version)
      (λ w. w.others)
      (λ w. w.object.finalizers)
server-IsLocking = record {
  overtaken = λ i w n h. (
    "overtaken",
    record { object = written w.object w.object.resource_version; others = n },
    ground arith,
    omega arith,
    refl,
  );
  stale = λ i w h old. ("stale", w, ground arith, h);
  current = λ i w h now. (
    written i w.object.resource_version,
    record w { object = written i w.object.resource_version },
    ground arith,
    refl,
  );
  read = λ w. (w.object, w, refl, refl, refl);
  listed = λ x xs. refl;
}

abbrev leaving_odh : KfDef
leaving_odh = instance_named "odh" (some 7)

-- The server has a newer version than ours, and ten updates are overtaken.
abbrev contended : Server
contended = record { object = record leaving_odh { resource_version = 5 }; others = 10 }

remove_finalizer_exact_example :
    ((contended.others ≤ 10)
      × (w : Server) × (remove_finalizer server request leaving_odh contended ≡ (ok tt, w))
      × (has finalizer w.object.finalizers ≡ false))
    ⊎ ((10 < contended.others)
        × (m : String) × (w : Server) × (remove_finalizer server request leaving_odh contended
            ≡ (err (api_conflict m), w)))
remove_finalizer_exact_example =
    remove_finalizer_exact server request (λ w. w.object.resource_version) (λ w. w.others)
      (λ w. w.object.finalizers) server-IsLocking leaving_odh contended
