-- ===== src/Controller/Watch.antt =====
-- pkg/controller/kfdef/kfdef_controller.go: the maps from an event's object to the requests that it
-- queues, and the set-up of the two controllers. `WatchedResources` is in const.go.
use opendatahub_operator.Prelude.{
  String, Bool, true, false, Option, none, some, List, [], ◌∷◌, ◌==◌, if◌then◌else◌,
}
use opendatahub_operator.Errors.{Error, api_not_found}
use opendatahub_operator.Result.{Result, ok, err, panics, Action, ◌>>=◌, pure, panic, attempt, gets}
pub mod Owners
use opendatahub_operator.Maps.{lookup}
use opendatahub_operator.Strings.{split}
use opendatahub_operator.Controller.{
  KfDef, Request, GroupVersionKind, Cluster, Operator, lift, has, finalizer,
}
use opendatahub_operator.Controller.Predicates.{Object, has_delete_label}

-- `errors.IsNotFound`
abbrev pub is_api_not_found : Error → Bool
is_api_not_found (api_not_found _) = true
is_api_not_found _ = false

abbrev pub kfdef_instance_annotation : String
kfdef_instance_annotation = "kfctl.kubeflow.io/kfdef-instance"

-- `NamespacedName{Name: pieces[0], Namespace: pieces[1]}`
request_of_pieces : {W : Type 0} → List String → Action W Request
request_of_pieces (name ∷ namespace ∷ _) = pure (record { namespace = namespace; name = name })
request_of_pieces _ = panic "index out of range"

-- The request that names a KfDef, read from a text `name.namespace`.
unfoldable pub parse_instance : {W : Type 0} → String → Action W Request
unfolding request_of_pieces
parse_instance key = request_of_pieces (split b'.' key)

module _ (C : Cluster) where
  after_get : KfDef → List String → Result KfDef → Action C.State (List Request)
  after_get meta finalizers (ok instance) = do
    _ ← attempt (C.update (record instance { finalizers = finalizers }))
    pure []
  after_get meta finalizers (err e) = pure []
  after_get meta finalizers (panics m) = panic m

  -- The map of the first controller, on the KfDef of the event: one with no finalizer gets it, and is
  -- not queued, since the update is an event of its own. An error is only logged.
  unfoldable pub map_kf_def : KfDef → Action C.State (List Request)
  unfolding after_get
  map_kf_def meta =
      let request : Request = record { namespace = meta.namespace; name = meta.name } in
      if has finalizer meta.finalizers then pure (request ∷ []) else do
        got ← attempt (C.get request)
        after_get meta (C.set_list (finalizer ∷ meta.finalizers)) got

  -- An owner that is gone or going is not queued; one that cannot be read is.
  queue_owner : {W : Type 0} → Request → Result KfDef → Action W (List Request)
  queue_owner request (err e) = pure (if is_api_not_found e then [] else request ∷ [])
  queue_owner request (ok instance) =
      pure (elim instance.deletion_timestamp [ some _ ↦ [] | none ↦ request ∷ [] ])
  queue_owner request (panics m) = panic m

  first_instance : List String → Action (Operator C.State) (List Request)
  first_instance [] = pure []
  first_instance (key ∷ _) = do request ← parse_instance key; pure (request ∷ [])

  map_by_annotation : Object → Option String → Action (Operator C.State) (List Request)
  unfolding first_instance queue_owner
  map_by_annotation a (some owner) = do
    request ← parse_instance owner
    got ← attempt (lift (C.get request))
    queue_owner request got
  map_by_annotation a none = do
    instances ← gets (λ o. o.kfdef_instances)
    if a.kind == "ConfigMap"
        then (if has_delete_label a then first_instance instances else pure [])
        else pure []

  -- The map of `watchKubeflowResources`.
  unfoldable pub map_owned : Object → Action (Operator C.State) (List Request)
  unfolding map_by_annotation
  map_owned a = map_by_annotation a (lookup kfdef_instance_annotation a.annotations)

  -- `watchKubeflowResources`: a watch that cannot be made is logged, and the next one is made.
  unfoldable pub watch_kubeflow_resources : List GroupVersionKind → Action C.State (Unit {0})
  watch_kubeflow_resources [] = pure tt
  watch_kubeflow_resources (t ∷ ts) = do _ ← attempt (C.watch t); watch_kubeflow_resources ts
