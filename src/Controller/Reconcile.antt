-- ===== src/Controller/Reconcile.antt =====
-- pkg/controller/kfdef/kfdef_controller.go: `Reconcile`. A returned error goes with the empty result.
pub mod Instances
pub mod Deletion
pub mod Coherence
pub mod Deployment
pub mod FinalizerRemoval
pub mod Keys
pub mod Uninstalling
mod Tests
use opendatahub_operator.Prelude.{
  ℕ, zero, suc, String, ◌<>◌, Bool, true, false, Option, none, some, List, [], ◌∷◌, ◌==◌, ◌&&◌,
  if◌then◌else◌,
}
use opendatahub_operator.Errors.{Error, text, error_message, api_conflict}
use opendatahub_operator.Result.{
  Result, ok, err, panics, Action, ◌>>=◌, ◌>>◌, pure, raise, panic, attempt, modify, gets,
}
use opendatahub_operator.Strings.{split}
use opendatahub_operator.Controller.{
  KfDef, Request, Requeue, Cluster, Operator, Channel, nil_channel, open_channel, closed_channel,
  GroupVersionKind, lift, has, delete, instance_key, finalizer, finalizer_max_retries,
}
use opendatahub_operator.Controller.Watch.{is_api_not_found, watch_kubeflow_resources}
use opendatahub_operator.Controller.Status.{get_reconcile_status, set_kf_def_status}
use opendatahub_operator.Controller.Deploy.{Loaders, app_dir, kf_apply, kf_delete}
use opendatahub_operator.Controller.Uninstall.{has_delete_config_map, operator_uninstall}

abbrev pub done : Bool → Requeue
done b = record { requeue = b }

-- `errors.IsConflict`
abbrev pub is_conflict : Error → Bool
is_conflict (api_conflict _) = true
is_conflict _ = false

abbrev pub error_of {ℓ} : {A : Type ℓ} → Result A → Option Error
error_of (err e) = some e
error_of _ = none

-- `WatchedKubeflowResources` of const.go
abbrev watched_kubeflow_resources : List GroupVersionKind
watched_kubeflow_resources =
    record { group = "app.k8s.io"; version = "v1beta1"; kind = "Application" }
    ∷ record { group = "networking.istio.io"; version = "v1beta1"; kind = "VirtualService" }
    ∷ record { group = "argoproj.io"; version = "v1alpha1"; kind = "Workflow" }
    ∷ record { group = "tekton.dev"; version = "v1beta1"; kind = "Condition" }
    ∷ []

-- `close(c)`
close_channel : Channel → Result Channel
close_channel nil_channel = panics "close of nil channel"
close_channel open_channel = ok closed_channel
close_channel closed_channel = panics "close of closed channel"

pub returned : {W : Type 0} → Result (Unit {0}) → Action W Requeue
returned (ok _) = pure (done false)
returned (err e) = raise e
returned (panics m) = panic m

module _ {S : Type 0} where
  -- With one instance left the second controller is stopped.
  close_stop : Result Channel → Action (Operator S) (Unit {0})
  close_stop (ok c) o = (ok tt, record o { stop = c; b2nd_controller = false })
  close_stop (err e) o = (err e, o)
  close_stop (panics m) o = (panics m, o)

  stop_controller : List String → Action (Operator S) (Unit {0})
  unfolding close_channel close_stop
  stop_controller (_ ∷ []) o = close_stop (close_channel o.stop) o
  stop_controller _ o = (ok tt, o)

  pub stop_second_controller : Action (Operator S) (Unit {0})
  unfolding stop_controller
  stop_second_controller o = stop_controller o.kfdef_instances o

  pub forget_instance : String → Action (Operator S) (Unit {0})
  forget_instance key o = (ok tt, record o { kfdef_instances = delete key o.kfdef_instances })

  pub remember_instance : String → Action (Operator S) (Unit {0})
  remember_instance key o = (
    ok tt,
    if has key o.kfdef_instances then o else record o { kfdef_instances = key ∷ o.kfdef_instances },
  )

module _ (C : Cluster) where
  abbrev pub without_finalizer : KfDef → KfDef
  without_finalizer i = record i { finalizers = C.set_list (delete finalizer i.finalizers) }

  -- The loop that updates again on a conflict, from what the server has now; what it had last, where
  -- that cannot be read. The number is of the retries left.
  pub retry_update : ℕ → Request → KfDef → Result KfDef → Action C.State (Result KfDef)
  retry_update zero request i r = pure r
  retry_update (suc n) request i (err e) =
      if is_conflict e
      then (do
        got ← attempt (C.get request)
        let i' = without_finalizer (elim got [ ok j ↦ j | _ ↦ i ])
        r ← attempt (C.update i')
        retry_update n request i' r)
      else pure (err e)
  retry_update (suc n) request i r = pure r

  pub update_stored : Result KfDef → Action C.State (Unit {0})
  update_stored (ok _) = pure tt
  update_stored (err e) = raise e
  update_stored (panics m) = panic m

  pub remove_finalizer : Request → KfDef → Action C.State (Unit {0})
  remove_finalizer request instance = do
    let i = without_finalizer instance
    first ← attempt (C.update i)
    last ← retry_update finalizer_max_retries request i first
    update_stored last

  pub report_deletion : KfDef → Result (Unit {0}) → C.State → C.State
  report_deletion i (ok _) =
      C.eventf "Normal" "KfDefDeletionSuccessful"
        ("KF instance " <> (i.name <> " deleted successfully"))
  report_deletion i _ =
      C.eventf "Warning" "KfDefDeletionFailed" ("Error deleting KF instance " <> i.name)

  pub absent : Request → Bool → Action (Operator C.State) Requeue
  absent request false = pure (done false)
  absent request true = do
    lift (
        modify (
          C.eventf "Warning" "UninstallInProgress"
            "Resource deletion restricted as the operator uninstall is in progress"))
    r ← attempt (operator_uninstall C request)
    raise (
        text (
          "error while operator uninstall: "
          <> (elim (error_of r) [ none ↦ "<nil>" | some e ↦ error_message e ])))

  -- One instance after another is deleted; the rest is left when one cannot be.
  pub delete_one : List String → Action C.State (Unit {0})
  delete_one (name ∷ namespace ∷ []) = do
    r ← attempt (C.delete_kf_def (record { namespace = namespace; name = name }))
    elim r [
      | ok _ ↦ pure tt
      | err e ↦ if is_api_not_found e then pure tt else raise e
      | panics m ↦ panic m
    ]
  delete_one _ = raise (text "error getting kfdef instance name and namespace")

  pub delete_instances : List String → Action C.State (Unit {0})
  unfolding delete_one
  delete_instances [] = pure tt
  delete_instances (key ∷ keys) = do delete_one (split b'.' key); delete_instances keys

  -- The second controller; `false` where `Reconcile` returns with no more to do.
  pub watched : Result (Unit {0}) → Action (Operator C.State) Bool
  watched (ok _) o = (
    ok true,
    record o { stop = open_channel; cluster = C.start o.cluster; b2nd_controller = true },
  )
  watched _ o = (ok false, o)

  pub created : Result (Unit {0}) → Action (Operator C.State) Bool
  created (ok _) = do
    w ← attempt (lift (watch_kubeflow_resources C watched_kubeflow_resources))
    watched w
  created _ = pure false

  pub start_second_controller : Bool → Action (Operator C.State) Bool
  start_second_controller true = pure true
  start_second_controller false = do
    c ← attempt (lift (C.new_controller "kubeflow-controller"))
    created c

  pub ensure_finalizer : KfDef → Action C.State KfDef
  ensure_finalizer i =
      if has finalizer i.finalizers
      then pure i
      else C.update (record i { finalizers = C.set_list (finalizer ∷ i.finalizers) })

  pub clear_app_dir : Request → KfDef → Action C.State (Unit {0})
  clear_app_dir request i =
      if request.name == i.name && request.namespace == i.namespace
      then C.remove_all (app_dir C i)
      else pure tt

module _ (C : Cluster) (L : Loaders C.State) where
  pub finalize : Request → KfDef → Action (Operator C.State) Requeue
  finalize request instance = do
    stop_second_controller
    r ← attempt (lift (kf_delete C L instance))
    lift (modify (report_deletion C instance r))
    lift (C.remove_all (app_dir C instance))
    forget_instance (instance_key instance)
    lift (remove_finalizer C request instance)
    uninstalling ← lift (has_delete_config_map C)
    pure (done uninstalling)

  pub deleted : Request → KfDef → Action (Operator C.State) Requeue
  deleted request instance =
      if has finalizer instance.finalizers
      then finalize request instance
      else (do uninstalling ← lift (has_delete_config_map C); pure (done uninstalling))

  -- The status is written whether or not the deployment failed, and its error is then returned.
  pub finish : KfDef → Result (Unit {0}) → Bool → Action (Operator C.State) Requeue
  finish i r false = pure (done false)
  finish i r true = do lift (set_kf_def_status C i); returned r

  pub deployed : KfDef → KfDef → Result (Unit {0}) → Action (Operator C.State) Requeue
  deployed i i' (ok u) = do
    lift (
        modify (
          C.eventf "Normal" "KfDefCreationSuccessful"
            ("KfDef instance " <> (i.name <> " created and deployed successfully"))))
    remember_instance (instance_key i)
    running ← gets (λ o. o.b2nd_controller)
    started ← start_second_controller C running
    finish i' (ok u) started
  deployed i i' r = finish i' r true

  pub deploy : KfDef → Action (Operator C.State) Requeue
  deploy i = do
    r ← attempt (lift (kf_apply C L i))
    deployed i (get_reconcile_status i (error_of r)) r

  pub uninstall_or_deploy : KfDef → Bool → Action (Operator C.State) Requeue
  uninstall_or_deploy i true = do
    keys ← gets (λ o. o.kfdef_instances)
    lift (delete_instances C keys)
    pure (done true)
  uninstall_or_deploy i false = deploy i

  pub live : Request → KfDef → Action (Operator C.State) Requeue
  live request instance = do
    i ← lift (ensure_finalizer C instance)
    lift (clear_app_dir C request i)
    uninstalling ← lift (has_delete_config_map C)
    uninstall_or_deploy i uninstalling

  pub present : Request → KfDef → Option ℕ → Action (Operator C.State) Requeue
  present request instance (some _) = deleted request instance
  present request instance none = live request instance

  pub found : Request → Result KfDef → Action (Operator C.State) Requeue
  found request (err e) =
      if is_api_not_found e
      then (do uninstalling ← lift (has_delete_config_map C); absent C request uninstalling)
      else raise e
  found request (ok instance) = present request instance instance.deletion_timestamp
  found request (panics m) = panic m

  -- `Reconcile`
  unfoldable pub reconcile : Request → Action (Operator C.State) Requeue
  reconcile request = do got ← attempt (lift (C.get request)); found request got
