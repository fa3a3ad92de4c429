-- ===== src/Controller/Reconcile/Tests.antt =====
-- `Reconcile` and its parts on a small cluster.
use opendatahub_operator.Prelude.{
  arith, sym, String, ◌≡◌, ◌≢◌, refl, true, false, none, some, List, [], ◌∷◌, ◌==◌, if◌then◌else◌,
  string_dec,
}
use opendatahub_operator.Errors.{text}
use opendatahub_operator.Result.{ok, err, panics, run}
use opendatahub_operator.Result.Keeps.{Keeps}
use opendatahub_operator.Strings.{split, join}
use opendatahub_operator.Controller.{KfDef, Operator, has, delete, instance_key, lift, open_channel}
use opendatahub_operator.Controller.Watch.{parse_instance}
use opendatahub_operator.Controller.Status.{
  get_reconcile_status, set_kf_def_status, KfDefStatus-discrete,
}
use opendatahub_operator.Controller.Deploy.{kf_apply, kf_delete}
use opendatahub_operator.Controller.Uninstall.{has_delete_config_map, operator_uninstall}
use opendatahub_operator.Controller.Reconcile.{
  done, reconcile, deploy, remove_finalizer, delete_one, live, found, present, deleted, finalize,
  uninstall_or_deploy, deployed, finish, returned, clear_app_dir, ensure_finalizer, watched,
  created, start_second_controller, remember_instance, forget_instance, stop_second_controller,
  report_deletion, retry_update, update_stored,
}
use opendatahub_operator.Controller.Reconcile.Coherence.{IsCoherent, reconcile-IsCoherent}
use opendatahub_operator.Controller.Reconcile.Deletion.{
  IsLeaving, reconcile_forgets, reconcile_retry_panics,
}
use opendatahub_operator.Controller.Reconcile.Deployment.{
  IsStaying, IsNaming, with_instance, reconcile_remembers, failure_of, failure_status,
  reconcile_failure,
}
use opendatahub_operator.Controller.Reconcile.Keys.{
  request_of, parse_instance-instance_key, delete_one-dotted_name,
}
use opendatahub_operator.Controller.Reconcile.Uninstalling.{
  IsSpared, IsHolding, operator_uninstall_waits, reconcile_absent_fails,
}
use opendatahub_operator.Controller.Simulation.{
  World, world, instance_named, request, cluster, loaders,
}

abbrev odh : KfDef
odh = instance_named "odh" none

abbrev leaving_odh : KfDef
leaving_odh = instance_named "odh" (some 7)

abbrev operator : World → List String → Operator World
operator w keys = record {
  cluster = w;
  kfdef_instances = keys;
  b2nd_controller = true;
  stop = open_channel;
}

odh-IsStaying : IsStaying odh
unfolding has string_dec
odh-IsStaying = record { unmarked = refl; holds_finalizer = refl }

leaving_odh-IsLeaving : IsLeaving leaving_odh
unfolding has string_dec
leaving_odh-IsLeaving = record { at = 7; marked = refl; holds_finalizer = refl }

-- One instance is held, beside another, and a KfDef of its name is deployed.
abbrev two_held : Operator World
two_held = operator (record world { stored = some leaving_odh }) ("odh.ns" ∷ "kf.ns" ∷ [])

abbrev deploying : Operator World
deploying = operator (record world { stored = some odh }) ("kf.ns" ∷ [])

reconcile-IsCoherent_example : IsCoherent (reconcile cluster loaders request two_held).1
unfolding has string_dec
reconcile-IsCoherent_example =
    reconcile-IsCoherent cluster loaders request two_held
      (record { running = λ _. refl; opened = λ _. refl; distinct = (refl, (refl, tt)) })

reconcile_forgets_example :
    has "odh.ns" (reconcile cluster loaders request two_held).1.kfdef_instances ≡ (
      if instance_key leaving_odh == "odh.ns" then false else has "odh.ns" two_held.kfdef_instances)
unfolding reconcile found present deleted finalize stop_second_controller report_deletion kf_delete
    forget_instance remove_finalizer has_delete_config_map lift run has string_dec delete
    retry_update update_stored
reconcile_forgets_example =
    reconcile_forgets cluster loaders request leaving_odh two_held
      (reconcile cluster loaders request two_held).1 two_held.cluster (done false) "odh.ns" refl
      leaving_odh-IsLeaving refl

cluster-IsNaming : IsNaming cluster
unfolding instance_key
cluster-IsNaming = record { update = λ k j w e. ground arith }

-- Without the finalizer, which is added first.
abbrev bare_odh : KfDef
bare_odh = record odh { finalizers = [] }

abbrev bare : Operator World
bare = operator (record world { stored = some bare_odh }) ("kf.ns" ∷ [])

reconcile_remembers_example : (reconcile cluster loaders request bare).1.kfdef_instances ≡ (
    if (done false).requeue
    then bare.kfdef_instances
    else with_instance (instance_key bare_odh) bare.kfdef_instances)
unfolding reconcile found present live ensure_finalizer clear_app_dir has_delete_config_map
    uninstall_or_deploy deploy deployed finish returned remember_instance start_second_controller
    created watched kf_apply set_kf_def_status get_reconcile_status KfDefStatus-discrete lift run
    has string_dec instance_key join
reconcile_remembers_example =
    reconcile_remembers cluster loaders cluster-IsNaming request bare_odh bare
      (reconcile cluster loaders request bare).1 bare.cluster (done false) refl refl refl

-- The deployment does what it is asked to: the new instance is held, and the second controller runs.
deploying_holds :
    (reconcile cluster loaders request deploying).1.kfdef_instances ≡ "odh.ns" ∷ "kf.ns" ∷ []
unfolding reconcile found present live ensure_finalizer clear_app_dir has_delete_config_map
    uninstall_or_deploy deploy deployed finish returned remember_instance start_second_controller
    created watched kf_apply set_kf_def_status get_reconcile_status KfDefStatus-discrete lift run
    has string_dec instance_key join
deploying_holds = refl

abbrev failing : Operator World
failing = operator (record world { stored = some odh; broken = true }) ("kf.ns" ∷ [])

told : odh.status ≢ failure_status odh (text "broken")
told e = cc

reconcile_failure_example :
    reconcile cluster loaders request failing ≡ (failure_of (text "broken") (ok tt), failing)
unfolding has_delete_config_map clear_app_dir kf_apply has run string_dec
reconcile_failure_example =
    let w : World = failing.cluster in
    reconcile_failure cluster loaders request odh failing odh (text "broken") w w w w w w (ok tt)
      refl odh-IsStaying refl refl refl refl (λ e. told (sym e)) refl

abbrev locked : World
locked = record world { stored = some leaving_odh; locked = true }

reconcile_retry_panics_example :
    ((reconcile cluster loaders request (operator locked ("odh.ns" ∷ []))).0 ≡ err (text "locked"))
    × ((reconcile cluster loaders request
          (reconcile cluster loaders request (operator locked ("odh.ns" ∷ []))).1).0
        ≡ panics "close of closed channel")
unfolding kf_delete report_deletion run
reconcile_retry_panics_example =
    reconcile_retry_panics cluster loaders request leaving_odh (operator locked ("odh.ns" ∷ []))
      "odh.ns" (ok tt) (text "locked") locked locked locked locked request leaving_odh refl refl
      refl leaving_odh-IsLeaving refl refl refl leaving_odh-IsLeaving

parse_instance-instance_key_example :
    parse_instance (instance_key odh) world ≡ (ok (request_of odh), world)
parse_instance-instance_key_example =
    parse_instance-instance_key odh world (refl, (refl, (refl, tt))) (refl, (refl, tt))

abbrev dotted : KfDef
dotted = instance_named "odh.v1" none

delete_one-dotted_name_example :
    delete_one cluster (split b'.' (instance_key dotted)) world
    ≡ (err (text "error getting kfdef instance name and namespace"), world)
delete_one-dotted_name_example = delete_one-dotted_name cluster dotted "odh" "v1" world refl

-- What namespaces, API services and events leave as it is here: the KfDef that is stored.
abbrev StoresOdh : World → Type 0
StoresOdh w = w.stored ≡ some odh

cluster-IsSpared : IsSpared cluster StoresOdh
cluster-IsSpared = record {
  delete_namespace = λ n. record { at = λ w p. p };
  list_api_services = record { at = λ w p. p };
  delete_api_service = λ n. record { at = λ w p. p };
  eventf = λ t r m w p. p;
}

operator_uninstall_waits_example :
    ((x : String) (xs : List String)
      → Keeps (IsHolding StoresOdh x xs) (operator_uninstall cluster request))
    × ((o o' : Operator World)
        → operator_uninstall cluster request o ≡ (ok tt, o')
        → (o.kfdef_instances ≡ []) × (o'.kfdef_instances ≡ []))
operator_uninstall_waits_example =
    operator_uninstall_waits cluster StoresOdh cluster-IsSpared request

abbrev uninstalling : World
uninstalling = record world { uninstalling = true }

reconcile_absent_fails_example :
    (reconcile cluster loaders request (operator uninstalling ("kf.ns" ∷ []))).0 ≢ ok (done false)
unfolding has_delete_config_map run
reconcile_absent_fails_example =
    reconcile_absent_fails cluster loaders request (operator uninstalling ("kf.ns" ∷ []))
      "not found" uninstalling uninstalling (done false) refl refl
