-- ===== src/Controller/Reconcile/Deployment.antt =====
-- `Reconcile` of a KfDef that is not being deleted: what a deployment leaves in `kfdefInstances`, and
-- what it reports.
use mathlib.Core.Path.{subst}
use mathlib.Core.Logic.{if_neg}
use opendatahub_operator.Prelude.{
  String, ◌≡◌, refl, sym, ap, ◌∙◌, Bool, true, false, some, none, List, [], ◌∷◌, ◌≢◌, if◌then◌else◌,
  arith,
}
use opendatahub_operator.Errors.{Error, error_message}
use opendatahub_operator.Result.{pure, Result, ok, err, panics, Action, ◌>>=◌, ◌>>◌, run, continue}
use opendatahub_operator.Result.Keeps.{
  Keeps, Leaves, Leaves-bind, Leaves-Keeps, keeps_rules, Keeps-pure, Keeps-gets, Keeps-attempt,
  Leaves-raise, Leaves-panic, Leaves-pure, bind-attempt_ok, bind-attempt_err, bind-result, bind-ok,
}
use opendatahub_operator.Controller.{
  KfDef, KfDefStatus, kf_available, kf_degraded, Request, Requeue, finalizer, Cluster, Operator,
  has, instance_key, lift,
}
use opendatahub_operator.Controller.Status.{
  get_reconcile_status, set_kf_def_status, KfDefStatus-discrete,
}
use opendatahub_operator.Controller.Uninstall.{has_delete_config_map}
use opendatahub_operator.Controller.Deploy.{Loaders, kf_apply}
use opendatahub_operator.Controller.Reconcile.{
  reconcile, found, present, live, ensure_finalizer, clear_app_dir, uninstall_or_deploy, error_of,
  deploy, deployed, finish, returned, remember_instance, start_second_controller, created, watched,
}
use opendatahub_operator.Controller.Reconcile.Instances.{Holds, lift-Holds, lift_lem}

-- The instances with one more, if it is not there.
abbrev pub with_instance : String → List String → List String
with_instance k xs = if has k xs then xs else k ∷ xs

remember_instance-Leaves :
    {S : Type 0} {xs : List String} (k : String)
    → Leaves (Holds {S = S} xs) (λ _. Holds (with_instance k xs)) (remember_instance k)
unfolding remember_instance
remember_instance-Leaves k = record {
  at = λ o a h e. record { same = rw (← h.same) (ground arith) };
}

module _ (C : Cluster) (L : Loaders C.State) {xs : List String} where
  watched-Holds : (r : Result (Unit {0})) → Keeps (Holds xs) (watched C r)
  unfolding watched
  watched-Holds (ok x) = record { at = λ o h. record { same = h.same } }
  watched-Holds _ = record { at = λ o h. h }

  created-Holds : (r : Result (Unit {0})) → Keeps (Holds xs) (created C r)
  unfolding created
  created-Holds (ok x) = search (keeps_rules, lift-Holds, watched-Holds)
  created-Holds _ = Keeps-pure false

  start_second_controller-Holds : (b : Bool) → Keeps (Holds xs) (start_second_controller C b)
  unfolding start_second_controller
  start_second_controller-Holds true = Keeps-pure true
  start_second_controller-Holds false = search (keeps_rules, lift-Holds, created-Holds)

module _ (C : Cluster) (L : Loaders C.State) (i : KfDef) (xs : List String) where
  -- The instances after a success: those before it if it is to be done again, and with one more else.
  abbrev settled : Requeue → List String
  settled q = if q.requeue then xs else with_instance (instance_key i) xs

  finish_ok-Leaves :
      (j : KfDef) (u : Unit {0}) (b : Bool)
      → Leaves
          (Holds (with_instance (instance_key i) xs))
          (λ q. Holds (settled q))
          (finish C L j (ok u) b)
  unfolding finish returned
  finish_ok-Leaves j u true =
      Leaves-bind (Leaves-Keeps (lift-Holds _)) λ _. Leaves-pure _ (λ o h. h)
  finish_ok-Leaves j u false = Leaves-pure _ (λ o h. h)

  deployed-Leaves :
      (j : KfDef) (r : Result (Unit {0}))
      → Leaves (Holds xs) (λ q. Holds (settled q)) (deployed C L i j r)
  unfolding deployed finish returned
  deployed-Leaves j (ok u) = Leaves-bind (Leaves-Keeps (lift-Holds _)) λ _.
      Leaves-bind (remember_instance-Leaves (instance_key i)) λ _.
        Leaves-bind (Leaves-Keeps (Keeps-gets _)) λ b.
          Leaves-bind (Leaves-Keeps (start_second_controller-Holds C L b))
            λ started. finish_ok-Leaves j u started
  deployed-Leaves j (err e) = Leaves-bind (Leaves-Keeps (lift-Holds _)) λ _. Leaves-raise e
  deployed-Leaves j (panics m) = Leaves-bind (Leaves-Keeps (lift-Holds _)) λ _. Leaves-panic m

  branch-Leaves :
      (b : Bool) → Leaves (Holds xs) (λ q. Holds (settled q)) (uninstall_or_deploy C L i b)
  unfolding uninstall_or_deploy deploy
  branch-Leaves true =
      Leaves-bind (Leaves-Keeps (Keeps-gets _))
        λ keys. Leaves-bind (Leaves-Keeps (lift-Holds _)) λ _. Leaves-pure _ (λ o h. h)
  branch-Leaves false =
      Leaves-bind (Leaves-Keeps (Keeps-attempt (lift-Holds _))) λ r. deployed-Leaves _ r

  rest_of_live : Request → Action (Operator C.State) Requeue
  rest_of_live request = do
    lift (clear_app_dir C request i)
    uninstalling ← lift (has_delete_config_map C)
    uninstall_or_deploy C L i uninstalling

  live_of_held :
      (request : Request) (o : Operator C.State)
      → has finalizer i.finalizers ≡ true
      → live C L request i o ≡ rest_of_live request o
  unfolding live ensure_finalizer rest_of_live lift run
  live_of_held request o held = rw held

  rest_of_live-Leaves :
      (request : Request) → Leaves (Holds xs) (λ q. Holds (settled q)) (rest_of_live request)
  unfolding rest_of_live
  rest_of_live-Leaves request =
      Leaves-bind (Leaves-Keeps (lift-Holds _))
        λ _. Leaves-bind (Leaves-Keeps (lift-Holds _)) λ b. branch-Leaves b

-- A KfDef that is not being deleted, and that has the finalizer.
pub record IsStaying (i : KfDef) : Type 0 where
  pub unmarked : i.deletion_timestamp ≡ none
  pub holds_finalizer : has finalizer i.finalizers ≡ true

module _ (C : Cluster) (L : Loaders C.State) (request : Request) (i : KfDef) where
  reconcile_of_staying :
      (o : Operator C.State) (s : C.State)
      → C.get request o.cluster ≡ (ok i, s)
      → i.deletion_timestamp ≡ none
      → reconcile C L request o ≡ live C L request i (record o { cluster = s })
  unfolding reconcile found present
  reconcile_of_staying o s got unmarked =
      bind-attempt_ok (lift (C.get request)) (found C L request) (lift_lem (C.get request) o got)
      ∙ simp unmarked

-- The API server stores an object under the name and the namespace that it is updated with.
pub record IsNaming (C : Cluster) : Type 0 where
  pub update :
      (k j : KfDef) (s : C.State) → (C.update k s).0 ≡ ok j → instance_key j ≡ instance_key k

module _ (C : Cluster) (L : Loaders C.State) (naming : IsNaming C) (request : Request)
    (i : KfDef) where
  ensured_key :
      (b : Bool) (j : KfDef) (s : C.State)
      → ((if b
            then pure i
            else C.update (record i { finalizers = C.set_list (finalizer ∷ i.finalizers) }))
          s).0
        ≡ ok j
      → instance_key j ≡ instance_key i
  unfolding instance_key run
  ensured_key true j s e = cc
  ensured_key false j s e = naming.update _ j s e

  ensure_finalizer-Leaves :
      (xs : List String)
      → Leaves
          (Holds xs)
          (λ j o. Holds xs o × (instance_key j ≡ instance_key i))
          (lift (ensure_finalizer C i))
  unfolding ensure_finalizer lift
  ensure_finalizer-Leaves xs = record {
    at = λ o j h e.
        (record { same = h.same }, ensured_key (has finalizer i.finalizers) j o.cluster e);
  }

  live-Leaves :
      (xs : List String)
      → Leaves
          (Holds xs)
          (λ q. Holds (if q.requeue then xs else with_instance (instance_key i) xs))
          (live C L request i)
  unfolding live rest_of_live
  live-Leaves xs = Leaves-bind (ensure_finalizer-Leaves xs) λ j. record {
    at = λ o q p e.
        subst
          (λ k.
            Holds (if q.requeue then xs else with_instance k xs)
              (rest_of_live C L j xs request o).1)
          p.1 ((rest_of_live-Leaves C L j xs request).at o q p.0 e);
  }

  -- When `Reconcile` of a KfDef that is not being deleted ends with no error, then either the request
  -- is queued again, as it is during an uninstallation, and the operator holds the instances that it
  -- held, or the KfDef was deployed: the operator holds it, beside all that it held. That is so whether
  -- the KfDef has the finalizer or gets it first; an update keeps the name and the namespace.
  pub reconcile_remembers :
      (o o' : Operator C.State) (s : C.State) (q : Requeue)
      → C.get request o.cluster ≡ (ok i, s)
      → i.deletion_timestamp ≡ none
      → reconcile C L request o ≡ (ok q, o')
      → o'.kfdef_instances ≡ (
          if q.requeue then o.kfdef_instances else with_instance (instance_key i) o.kfdef_instances)
  reconcile_remembers o o' s q got unmarked h =
      let e = sym (reconcile_of_staying C L request i o s got unmarked) ∙ h in
      sym (ap (λ p. p.1.kfdef_instances) e)
      ∙ ((live-Leaves o.kfdef_instances).at (record o { cluster = s }) q (record { same = refl })
          (ap (λ p. p.0) e)).same

-- What `Reconcile` returns after a failed deployment, from how the writing of the status ended.
abbrev pub failure_of : Error → Result (Unit {0}) → Result Requeue
failure_of e (ok _) = err e
failure_of e (err e') = err e'
failure_of e (panics m) = panics m

continue-returned :
    {W : Type 0} (e : Error) (r : Result (Unit {0})) (w : W)
    → continue (λ _. returned (err e)) r w ≡ (failure_of e r, w)
unfolding returned run
continue-returned e (ok u) w = refl
continue-returned e (err e') w = refl
continue-returned e (panics m) w = refl

-- The status that a failed deployment leaves: degraded with the error's text, and all the same available
-- as completed. The caches stay.
abbrev pub failure_status : KfDef → Error → KfDefStatus
failure_status i e = record {
  conditions =
      record {
        type = kf_degraded;
        status = "True";
        last_update_time = i.creation_timestamp;
        last_transition_time = 0;
        reason = error_message e;
        message = "";
      }
      ∷ record {
        type = kf_available;
        status = "True";
        last_update_time = i.creation_timestamp;
        last_transition_time = 0;
        reason = "Kubeflow Deployment completed";
        message = "";
      }
      ∷ [];
  repos_cache = i.status.repos_cache;
}

module _ (C : Cluster) (L : Loaders C.State) (request : Request) (i : KfDef) where
  status_written :
      (current : KfDef) (e : Error) (s s' : C.State)
      → C.get (record { namespace = i.namespace; name = i.name }) s ≡ (ok current, s')
      → failure_status i e ≢ current.status
      → set_kf_def_status C (get_reconcile_status i (some e)) s
        ≡ C.update_status (record current { status = failure_status i e }) s'
  unfolding set_kf_def_status get_reconcile_status
  status_written current e s s' got differ =
      bind-ok (C.get (record { namespace = i.namespace; name = i.name })) _ got
      ∙ ap (λ (m : Action C.State (Unit {0})). m s')
          (if_neg (KfDefStatus-discrete (failure_status i e) current.status) differ _ _)

  -- A deployment that fails is told. When `Reconcile` finds a KfDef that is not being deleted and has
  -- the finalizer, its directory is cleared, no uninstallation is asked for, and `kfApply` fails, then
  -- the KfDef as it is stored by then, where its status is another, gets a status of two conditions, both
  -- true: degraded, with the error's text as its reason, and available, with the reason "Kubeflow
  -- Deployment completed". `Reconcile` returns the error, or the one that the writing of the status met,
  -- and the variables of the package stay as they were.
  pub reconcile_failure :
      (o : Operator C.State) (current : KfDef) (e : Error) (s1 s2 s3 s4 s5 s6 : C.State)
      (r : Result (Unit {0}))
      → C.get request o.cluster ≡ (ok i, s1)
      → IsStaying i
      → clear_app_dir C request i s1 ≡ (ok tt, s2)
      → has_delete_config_map C s2 ≡ (ok false, s3)
      → kf_apply C L i s3 ≡ (err e, s4)
      → C.get (record { namespace = i.namespace; name = i.name }) s4 ≡ (ok current, s5)
      → failure_status i e ≢ current.status
      → C.update_status (record current { status = failure_status i e }) s5 ≡ (r, s6)
      → reconcile C L request o ≡ (failure_of e r, record o { cluster = s6 })
  unfolding rest_of_live uninstall_or_deploy deploy deployed finish
  reconcile_failure o current e s1 s2 s3 s4 s5 s6 r got staying cleared asked failed read differ
        written =
      let m = set_kf_def_status C (get_reconcile_status i (some e)) in
      reconcile_of_staying C L request i o s1 got staying.unmarked
      ∙ live_of_held C L i o.kfdef_instances request (record o { cluster = s1 })
          staying.holds_finalizer
      ∙ bind-ok (lift (clear_app_dir C request i)) _
          (lift_lem (clear_app_dir C request i) (record o { cluster = s1 }) cleared)
      ∙ bind-ok (lift (has_delete_config_map C)) _
          (lift_lem (has_delete_config_map C) (record o { cluster = s2 }) asked)
      ∙ bind-attempt_err (lift (kf_apply C L i))
          (λ r. deployed C L i (get_reconcile_status i (error_of r)) r)
          (lift_lem (kf_apply C L i) (record o { cluster = s3 }) failed)
      ∙ bind-result (lift m) (λ _. returned (err e))
          (lift_lem m (record o { cluster = s4 })
            (status_written current e s4 s5 read differ ∙ written))
      ∙ continue-returned e r (record o { cluster = s6 })
