-- ===== src/Controller/Reconcile/Uninstalling.antt =====
-- The removal of the operator: it waits for every KfDef, and the call that makes it never succeeds.
use opendatahub_operator.Prelude.{String, ◌≡◌, ◌≢◌, refl, sym, ap, ◌∙◌, true, List, [], ◌∷◌}
use opendatahub_operator.Errors.{api_not_found}
use opendatahub_operator.Result.{Result, ok, err, panics, Action, ◌>>=◌, ◌>>◌, gets, modify, run}
use opendatahub_operator.Result.Keeps.{
  Keeps, Leaves, Leaves-bind, Leaves-Keeps, Leaves-raise, Leaves-pure, Keeps-attempt,
  bind-attempt_err, bind-ok, Keeps-bind, Keeps-if, Keeps-pure, Keeps-raise, Keeps-panic,
}
use opendatahub_operator.Controller.{ApiService, Request, Requeue, Cluster, Operator, lift}
use opendatahub_operator.Controller.Deploy.{Loaders}
use opendatahub_operator.Controller.Uninstall.{
  has_delete_config_map, operator_uninstall, wait_for, wrapped, delete_unavailable,
}
use opendatahub_operator.Controller.Reconcile.{absent, found, reconcile}
use opendatahub_operator.Controller.Reconcile.Instances.{
  found_or-Keeps, Holds, lift-Holds, lift_lem,
}

-- The operator holds these instances, and they are none.
record IsIdle {S : Type 0} (xs : List String) (o : Operator S) : Type 0 where
  held : o.kfdef_instances ≡ xs
  empty : xs ≡ []

module _ {S : Type 0} {xs : List String} where
  lift-IsIdle : {A : Type 0} (m : Action S A) → Keeps (IsIdle xs) (lift m)
  unfolding lift
  lift-IsIdle m = record { at = λ o h. record { held = h.held; empty = h.empty } }

  held_instances :
      Leaves (Holds {S = S} xs) (λ ys o. (ys ≡ xs) × Holds xs o) (gets (λ o. o.kfdef_instances))
  unfolding run
  held_instances = record { at = λ o a h e. (cc h.same, h) }

  wait_for-Leaves :
      (ys : List String)
      → Leaves (λ (o : Operator S). (ys ≡ xs) × Holds xs o) (λ _. IsIdle xs) (wait_for ys)
  unfolding wait_for
  wait_for-Leaves [] = Leaves-pure tt (λ o h. record { held = h.1.same; empty = sym h.0 })
  wait_for-Leaves (y ∷ ys) = Leaves-raise _

module _ (C : Cluster) (request : Request) where
  operator_uninstall-Leaves :
      (xs : List String) → Leaves (Holds xs) (λ _. IsIdle xs) (operator_uninstall C request)
  unfolding operator_uninstall
  operator_uninstall-Leaves xs = Leaves-bind (Leaves-Keeps (Keeps-attempt (lift-Holds _))) λ a.
      Leaves-bind (Leaves-Keeps (found_or-Keeps _ _ a)) λ _.
        Leaves-bind (Leaves-Keeps (lift-Holds _)) λ _.
          Leaves-bind (Leaves-Keeps (Keeps-attempt (lift-Holds _))) λ b.
            Leaves-bind (Leaves-Keeps (found_or-Keeps _ _ b)) λ _.
              Leaves-bind (Leaves-Keeps (lift-Holds _)) λ _. Leaves-bind held_instances λ ys.
                Leaves-bind (wait_for-Leaves ys) λ _.
                  Leaves-bind (Leaves-Keeps (Keeps-attempt (lift-IsIdle _))) λ c.
                    Leaves-bind (Leaves-Keeps (found_or-Keeps _ _ c)) λ _.
                      Leaves-bind (Leaves-Keeps (lift-IsIdle _)) λ _. Leaves-Keeps (lift-IsIdle _)

  success_means_none :
      (o o' : Operator C.State)
      → operator_uninstall C request o ≡ (ok tt, o')
      → (o.kfdef_instances ≡ []) × (o'.kfdef_instances ≡ [])
  success_means_none o o' h =
      let idle =
        (operator_uninstall-Leaves o.kfdef_instances).at o tt (record { same = refl })
          (ap (λ p. p.0) h) in
      (idle.empty, sym (ap (λ p. p.1.kfdef_instances) h) ∙ idle.held ∙ idle.empty)

-- What holds of the cluster whatever namespaces and API services are deleted and events recorded, such
-- as that the cluster service version of the operator is installed. Nothing is said of its deletion.
pub record IsSpared (C : Cluster) (P : C.State → Type 0) : Type 0 where
  pub delete_namespace : (name : String) → Keeps P (C.delete_namespace name)
  pub list_api_services : Keeps P C.list_api_services
  pub delete_api_service : (name : String) → Keeps P (C.delete_api_service name)
  pub eventf :
      (type reason message : String) (s : C.State) → P s → P (C.eventf type reason message s)

-- The operator holds `x` and `xs`, and the cluster has the property.
pub record IsHolding {S : Type 0} (P : S → Type 0) (x : String) (xs : List String) (o : Operator S)
    : Type 0 where
  pub spared : P o.cluster
  pub held : o.kfdef_instances ≡ x ∷ xs

module _ {S : Type 0} {P : S → Type 0} {x : String} {xs : List String} where
  lift-IsHolding : {A : Type 0} {m : Action S A} → Keeps P m → Keeps (IsHolding P x xs) (lift m)
  unfolding lift
  lift-IsHolding k = record {
    at = λ o h. record { spared = k.at o.cluster h.spared; held = h.held };
  }

  -- Nothing after the waiting is done.
  waiting-IsHolding :
      {A : Type 0} (rest : Action (Operator S) A)
      → Keeps (IsHolding P x xs) (gets (λ o. o.kfdef_instances) >>= λ ys. wait_for ys >> rest)
  unfolding wait_for run
  waiting-IsHolding rest = record {
    at = λ o h. rw h.held (record { spared = h.spared; held = refl });
  }

module _ (C : Cluster) (P : C.State → Type 0) (spared : IsSpared C P) where
  wrapped-Keeps : {A : Type 0} (prefix : String) (r : Result A) → Keeps P (wrapped prefix r)
  unfolding wrapped
  wrapped-Keeps prefix (ok a) = Keeps-pure a
  wrapped-Keeps prefix (err e) = Keeps-raise _
  wrapped-Keeps prefix (panics m) = Keeps-panic m

  delete_unavailable-Keeps : (services : List ApiService) → Keeps P (delete_unavailable C services)
  unfolding delete_unavailable
  delete_unavailable-Keeps [] = Keeps-pure tt
  delete_unavailable-Keeps (s ∷ services) =
      let rest = delete_unavailable-Keeps services in
      Keeps-if _
        (Keeps-bind (Keeps-attempt (spared.delete_api_service s.name))
          λ r. Keeps-bind (wrapped-Keeps _ r) λ _. rest)
        rest

  event-Keeps : (type reason message : String) → Keeps P (modify (C.eventf type reason message))
  unfolding run
  event-Keeps type reason message = record { at = λ s p. spared.eventf type reason message s p }

  -- While the operator holds a KfDef, `operatorUninstall` does not remove it: it ends with no success,
  -- holding what it held, and what holds of the cluster and is kept by the deletion of namespaces and
  -- API services and by events, as that the operator is installed, still holds. A success of it means
  -- that it held no KfDef, and holds none.
  pub operator_uninstall_waits :
      (request : Request)
      → ((x : String) (xs : List String) → Keeps (IsHolding P x xs) (operator_uninstall C request))
        × ((o o' : Operator C.State)
            → operator_uninstall C request o ≡ (ok tt, o')
            → (o.kfdef_instances ≡ []) × (o'.kfdef_instances ≡ []))
  unfolding operator_uninstall
  operator_uninstall_waits request = (
    λ x xs.
        Keeps-bind (Keeps-attempt (lift-IsHolding (spared.delete_namespace request.namespace))) λ a.
          Keeps-bind (found_or-Keeps _ _ a) λ _.
            Keeps-bind (lift-IsHolding (event-Keeps _ _ _)) λ _.
              Keeps-bind (Keeps-attempt (lift-IsHolding spared.list_api_services)) λ b.
                Keeps-bind (found_or-Keeps _ _ b) λ services.
                  Keeps-bind (lift-IsHolding (delete_unavailable-Keeps services))
                    λ _. waiting-IsHolding _,
    success_means_none C request,
  )

module _ (C : Cluster) (L : Loaders C.State) (request : Request) where
  absent-Leaves : Leaves (λ (o : Operator C.State). Unit {0}) (λ _ _. ⊥) (absent C request true)
  unfolding absent
  absent-Leaves =
      Leaves-bind (Leaves-Keeps (record { at = λ o h. h }))
        λ _. Leaves-bind (Leaves-Keeps (record { at = λ o h. h })) λ r. Leaves-raise _

  -- `Reconcile` of a KfDef that is not there, while the removal of the operator is asked for, never
  -- ends without an error, also where the removal itself succeeds.
  pub reconcile_absent_fails :
      (o : Operator C.State) (m : String) (s s' : C.State) (q : Requeue)
      → C.get request o.cluster ≡ (err (api_not_found m), s)
      → has_delete_config_map C s ≡ (ok true, s')
      → (reconcile C L request o).0 ≢ ok q
  unfolding reconcile found
  reconcile_absent_fails o m s s' q got asked =
      let o1 : Operator C.State = record o { cluster = s } in
      let o2 : Operator C.State = record o { cluster = s' } in
      let steps =
        bind-attempt_err (lift (C.get request)) (found C L request) (lift_lem (C.get request) o got)
        ∙ bind-ok (lift (has_delete_config_map C)) (absent C request)
            (lift_lem (has_delete_config_map C) o1 asked) in
      λ h. absent-Leaves.at o2 q tt (sym (ap (λ p. p.0) steps) ∙ h)
