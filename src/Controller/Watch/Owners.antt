-- ===== src/Controller/Watch/Owners.antt =====
-- Which KfDef an event of an owned resource queues.
use opendatahub_operator.Prelude.{
  String, ◌≡◌, refl, ◌∙◌, none, some, List, [], ◌∷◌, arith, if◌then◌else◌,
}
use opendatahub_operator.Result.{Result, ok, err, panics, Action, attempt, run}
use opendatahub_operator.Result.Keeps.{bind-ok}
use opendatahub_operator.Strings.{Lacks, split_of_Lacks}
use opendatahub_operator.Maps.{lookup}
use opendatahub_operator.Controller.Reconcile.Keys.{request_of, parse_instance-instance_key}
use opendatahub_operator.Controller.{KfDef, Request, Cluster, Operator, instance_key, lift}
use opendatahub_operator.Controller.Predicates.{Object}
use opendatahub_operator.Controller.Watch.{
  is_api_not_found, parse_instance, kfdef_instance_annotation, map_owned, map_by_annotation,
  queue_owner,
}

-- What is queued for an owner, from the answer of the API server about it.
abbrev pub queued : Request → Result KfDef → List Request
queued request (ok i) = elim i.deletion_timestamp [ some _ ↦ [] | none ↦ request ∷ [] ]
queued request (err e) = if is_api_not_found e then [] else request ∷ []
queued request (panics m) = []

attempt-lift :
    {S A : Type 0} (m : Action S A) (o : Operator S) {r : Result A} {s : S}
    → attempt m o.cluster ≡ (ok r, s)
    → attempt (lift m) o ≡ (ok r, record o { cluster = s })
unfolding lift run
attempt-lift m o h = ground arith

queue_owner_lem :
    (C : Cluster) (request : Request) (m : Action C.State KfDef) (r : Result KfDef) (s s' : C.State)
    (o : Operator C.State)
    → attempt m s ≡ (ok r, s')
    → queue_owner C request r o ≡ (ok (queued request r), o)
unfolding queue_owner run
queue_owner_lem C request m (ok i) s s' o h = refl
queue_owner_lem C request m (err e) s s' o h = refl
queue_owner_lem C request m (panics x) s s' o h = absurd (ground arith)

module _ (C : Cluster) (a : Object) (o : Operator C.State) where
  -- An event of a resource whose annotation has no dot, as no KfDef writes it, ends in a panic.
  pub map_owned_undotted :
      (owner : String)
      → lookup kfdef_instance_annotation a.annotations ≡ some owner
      → Lacks b'.' owner
      → map_owned C a o ≡ (panics "index out of range", o)
  unfolding map_owned map_by_annotation parse_instance run
  map_owned_undotted owner found plain = simp (found, split_of_Lacks b'.' owner plain)

  -- An event of a resource whose annotation names a KfDef, by a name and a namespace without dots,
  -- reads that KfDef and no other. It queues the request for it when the KfDef is there and not being
  -- deleted, or when it cannot be read for another reason than that it is gone; else nothing.
  pub map_owned_annotated :
      (i : KfDef) (r : Result KfDef) (s : C.State)
      → lookup kfdef_instance_annotation a.annotations ≡ some (instance_key i)
      → Lacks b'.' i.name
      → Lacks b'.' i.namespace
      → attempt (C.get (request_of i)) o.cluster ≡ (ok r, s)
      → map_owned C a o ≡ (ok (queued (request_of i) r), record o { cluster = s })
  unfolding map_owned map_by_annotation
  map_owned_annotated i r s found p q got = rw found (
      bind-ok (parse_instance (instance_key i)) _ (parse_instance-instance_key i o p q)
      ∙ bind-ok (attempt (lift (C.get (request_of i)))) _
          (attempt-lift (C.get (request_of i)) o got)
      ∙ queue_owner_lem C (request_of i) (C.get (request_of i)) r o.cluster s
          (record o { cluster = s }) got)
