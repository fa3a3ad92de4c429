-- ===== src/Controller/Reconcile/Deletion.antt =====
-- The deletion of a KfDef: what is forgotten, what stays, and when `close(stop)` panics.
use opendatahub_operator.Prelude.{
  ℕ, String, ◌≡◌, refl, sym, ap, ◌∙◌, true, false, some, [], ◌∷◌, ◌==◌, if◌then◌else◌, arith,
}
use opendatahub_operator.Errors.{Error}
use opendatahub_operator.Result.{Result, ok, err, panics, Action, attempt, run}
use opendatahub_operator.Controller.{
  KfDef, Request, Requeue, Cluster, Operator, lift, has, instance_key, finalizer, closed_channel,
  open_channel,
}
use opendatahub_operator.Controller.Deploy.{Loaders, app_dir, kf_delete}
use opendatahub_operator.Result.Keeps.{bind-attempt_ok, bind-panics}
use opendatahub_operator.Controller.Reconcile.Instances.{lift_lem, has-delete, finalize-Leaves}
use opendatahub_operator.Controller.Reconcile.{
  finalize, deleted, found, present, report_deletion, reconcile, stop_second_controller,
}

-- A KfDef on its way out, as the API server gives it: marked as deleted, with the finalizer.
pub record IsLeaving (i : KfDef) : Type 0 where
  pub at : ℕ
  pub marked : i.deletion_timestamp ≡ some at
  pub holds_finalizer : has finalizer i.finalizers ≡ true

stop_of_closed :
    {S : Type 0} (o : Operator S) (key : String)
    → o.kfdef_instances ≡ key ∷ []
    → o.stop ≡ closed_channel
    → stop_second_controller o ≡ (panics "close of closed channel", o)
unfolding stop_second_controller
stop_of_closed o key one closed = ground arith

stop_of_open :
    {S : Type 0} (o : Operator S) (key : String)
    → o.kfdef_instances ≡ key ∷ []
    → o.stop ≡ open_channel
    → stop_second_controller o
      ≡ (ok tt, record o { stop = closed_channel; b2nd_controller = false })
unfolding stop_second_controller
stop_of_open o key one opened = ground arith

module _ (C : Cluster) (L : Loaders C.State) (request : Request) (i : KfDef) where
  found_of_leaving : IsLeaving i → found C L request (ok i) ≡ finalize C L request i
  unfolding found present deleted
  found_of_leaving leaving = simp (leaving.marked, leaving.holds_finalizer)

  -- Which branch `Reconcile` takes.
  pub reconcile_of_leaving :
      (o : Operator C.State) (s : C.State)
      → C.get request o.cluster ≡ (ok i, s)
      → IsLeaving i
      → reconcile C L request o ≡ finalize C L request i (record o { cluster = s })
  unfolding reconcile
  reconcile_of_leaving o s got leaving =
      bind-attempt_ok (lift (C.get request)) (found C L request) (lift_lem (C.get request) o got)
      ∙ ap (λ (m : Action (Operator C.State) Requeue). m (record o { cluster = s }))
          (found_of_leaving leaving)

  -- When `Reconcile` of a KfDef that is on its way out ends with no error, the operator no longer
  -- holds that KfDef, and holds every other one just as before.
  pub reconcile_forgets :
      (o o' : Operator C.State) (s : C.State) (q : Requeue) (k : String)
      → C.get request o.cluster ≡ (ok i, s)
      → IsLeaving i
      → reconcile C L request o ≡ (ok q, o')
      → has k o'.kfdef_instances ≡ (if instance_key i == k then false else has k o.kfdef_instances)
  reconcile_forgets o o' s q k got leaving h =
      let e = sym (reconcile_of_leaving o s got leaving) ∙ h in
      let kept =
        (finalize-Leaves C L request i o.kfdef_instances).at (record o { cluster = s }) q
          (record { same = refl }) (ap (λ p. p.0) e) in
      rw (sym (ap (λ p. p.1.kfdef_instances) e) ∙ kept.same, has-delete) refl

  -- With one instance held, closing a channel that is not open panics.
  finalize_of_closed :
      (o : Operator C.State) (key : String)
      → o.kfdef_instances ≡ key ∷ []
      → o.stop ≡ closed_channel
      → finalize C L request i o ≡ (panics "close of closed channel", o)
  unfolding finalize
  finalize_of_closed o key one closed =
      bind-panics stop_second_controller _ (stop_of_closed o key one closed)

  -- The first steps of a deletion that cannot remove the directory of the application.
  finalize_of_kept_directory :
      (o : Operator C.State) (key : String) (r : Result (Unit {0})) (e : Error) (s s' : C.State)
      → o.kfdef_instances ≡ key ∷ []
      → o.stop ≡ open_channel
      → attempt (kf_delete C L i) o.cluster ≡ (ok r, s)
      → C.remove_all (app_dir C i) (report_deletion C i r s) ≡ (err e, s')
      → finalize C L request i o
        ≡ (err e, record o { cluster = s'; b2nd_controller = false; stop = closed_channel })
  unfolding finalize stop_second_controller lift run
  finalize_of_kept_directory o key r e s s' one opened del fails = ground arith

  panics_when_closed :
      (o : Operator C.State) (s : C.State) (key : String)
      → o.kfdef_instances ≡ key ∷ []
      → o.stop ≡ closed_channel
      → C.get request o.cluster ≡ (ok i, s)
      → IsLeaving i
      → (reconcile C L request o).0 ≡ panics "close of closed channel"
  panics_when_closed o s key one closed got leaving =
      ap (λ p. p.0)
        (reconcile_of_leaving o s got leaving
          ∙ finalize_of_closed (record o { cluster = s }) key one closed)

module _ (C : Cluster) (L : Loaders C.State) (request : Request) (i : KfDef) where
  -- A deletion whose directory cannot be removed fails with the channel `stop` closed and the
  -- instance still held, so that the next `Reconcile` of a KfDef on its way out, the same one or
  -- another, panics at `close(stop)`. The first call is made with one instance held and the second
  -- controller running, and `kfDelete` itself may have failed or not.
  pub reconcile_retry_panics :
      (o : Operator C.State) (key : String) (r : Result (Unit {0})) (e : Error)
      (s0 s1 s2 s3 : C.State) (request' : Request) (j : KfDef)
      → o.kfdef_instances ≡ key ∷ []
      → o.stop ≡ open_channel
      → C.get request o.cluster ≡ (ok i, s0)
      → IsLeaving i
      → attempt (kf_delete C L i) s0 ≡ (ok r, s1)
      → C.remove_all (app_dir C i) (report_deletion C i r s1) ≡ (err e, s2)
      → C.get request' s2 ≡ (ok j, s3)
      → IsLeaving j
      → ((reconcile C L request o).0 ≡ err e)
        × ((reconcile C L request' (reconcile C L request o).1).0
            ≡ panics "close of closed channel")
  reconcile_retry_panics o key r e s0 s1 s2 s3 request' j one opened got leaving del fails got'
        leaving' =
      let o1 : Operator C.State = record o { cluster = s0 } in
      let o2 : Operator C.State = record o {
        cluster = s2;
        b2nd_controller = false;
        stop = closed_channel;
      } in
      let first : reconcile C L request o ≡ (err e, o2) =
        reconcile_of_leaving C L request i o s0 got leaving
        ∙ finalize_of_kept_directory C L request i o1 key r e s1 s2 one opened del fails in
      (
        ap (λ p. p.0) first,
        rw first (panics_when_closed C L request' j o2 s3 key one refl got' leaving'),
      )
