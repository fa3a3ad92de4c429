-- ===== src/Controller/Reconcile/Instances.antt =====
-- Calls of the cluster's client leave the operator's own variables alone; the rules that follow from
-- that, and what each step does to `kfdefInstances`.
use opendatahub_operator.Prelude.{String, ◌≡◌, false, List, [], ◌∷◌, ◌==◌, if◌then◌else◌, arith}
use opendatahub_operator.Result.{Result, ok, err, panics, Action}
use opendatahub_operator.Result.Keeps.{
  Keeps, Leaves, Leaves-bind, Leaves-Keeps, keeps_rules, Keeps-pure, Keeps-panic,
}
use opendatahub_operator.Controller.{
  KfDef, Request, Cluster, Operator, lift, has, delete, instance_key,
}
use opendatahub_operator.Controller.Uninstall.{found_or}
use opendatahub_operator.Controller.Deploy.{Loaders}
use opendatahub_operator.Controller.Reconcile.{finalize, stop_second_controller, forget_instance}

pub has-delete :
    (x y : String) (xs : List String) → has y (delete x xs) ≡ (if x == y then false else has y xs)
unfolding has delete
has-delete x y [] = ground arith
has-delete x y (z ∷ xs) = ground (arith, has-delete x y xs)

pub found_or-Keeps :
    {W A : Type 0} {P : W → Type 0} (x : A) (prefix : String) (r : Result A)
    → Keeps P (found_or x prefix r)
unfolding found_or
found_or-Keeps x prefix (ok a) = Keeps-pure a
found_or-Keeps x prefix (err e) = search keeps_rules
found_or-Keeps x prefix (panics m) = Keeps-panic m

-- The operator holds these instances.
pub record Holds {S : Type 0} (xs : List String) (o : Operator S) : Type 0 where
  pub same : o.kfdef_instances ≡ xs

pub instances-stop_second_controller :
    {S : Type 0} (o : Operator S) → (stop_second_controller o).1.kfdef_instances ≡ o.kfdef_instances
unfolding stop_second_controller
instances-stop_second_controller o = ground arith

module _ {S : Type 0} {xs : List String} where
  pub lift-Holds : {A : Type 0} (m : Action S A) → Keeps (Holds xs) (lift m)
  unfolding lift
  lift-Holds m = record { at = λ o h. record { same = h.same } }

  stop_second_controller-Holds : Keeps (Holds {S = S} xs) stop_second_controller
  unfolding stop_second_controller
  stop_second_controller-Holds = record { at = λ o h. record { same = ground arith } }

  forget_instance-Leaves :
      (key : String) → Leaves (Holds {S = S} xs) (λ _. Holds (delete key xs)) (forget_instance key)
  unfolding forget_instance
  forget_instance-Leaves key = record { at = λ o a h e. record { same = ground arith } }

pub lift_lem :
    {S A : Type 0} (m : Action S A) (o : Operator S) {r : Result A} {s : S}
    → m o.cluster ≡ (r, s)
    → lift m o ≡ (r, record o { cluster = s })
unfolding lift
lift_lem m o h = rw h

module _ (C : Cluster) (L : Loaders C.State) (request : Request) (i : KfDef)
    (xs : List String) where
  -- A finished deletion forgets the instance and no other.
  pub finalize-Leaves :
      Leaves (Holds xs) (λ _. Holds (delete (instance_key i) xs)) (finalize C L request i)
  unfolding finalize
  finalize-Leaves = Leaves-bind (Leaves-Keeps stop_second_controller-Holds) λ _.
      Leaves-bind (Leaves-Keeps (search (keeps_rules, lift-Holds))) λ r.
        Leaves-bind (Leaves-Keeps (lift-Holds _)) λ _.
          Leaves-bind (Leaves-Keeps (lift-Holds _)) λ _.
            Leaves-bind (forget_instance-Leaves (instance_key i))
              λ _. Leaves-Keeps (search (keeps_rules, lift-Holds))
