-- ===== src/Controller/Reconcile/Coherence.antt =====
-- What holds of the operator's variables between any two calls of `Reconcile`.
use mathlib.Core.Path.{subst}
use opendatahub_operator.Prelude.{
  ℕ, String, ◌≡◌, refl, sym, Bool, true, false, Option, none, some, List, [], ◌∷◌, inl, inr, arith,
  Bool-cases,
}
use opendatahub_operator.Result.{Result, ok, err, panics, Action}
use opendatahub_operator.Result.Keeps.{Keeps, keeps_rules, Keeps-pure, Keeps-raise, Keeps-panic}
use opendatahub_operator.Controller.Reconcile.Instances.{
  found_or-Keeps, instances-stop_second_controller,
}
use opendatahub_operator.Controller.{
  KfDef, Request, Cluster, Operator, open_channel, lift, has, delete,
}
use opendatahub_operator.Controller.Deploy.{Loaders}
use opendatahub_operator.Controller.Uninstall.{operator_uninstall, wait_for}
use opendatahub_operator.Controller.Reconcile.{
  finalize, deleted, found, present, live, uninstall_or_deploy, deploy, deployed, finish, returned,
  absent, reconcile, stop_second_controller, forget_instance, remember_instance,
  start_second_controller, created, watched,
}

abbrev pub IsDistinct : List String → Type 0
IsDistinct [] = Unit {0}
IsDistinct (x ∷ xs) = (has x xs ≡ false) × IsDistinct xs

-- The second controller runs just when `stop` is an open channel, and no instance is held twice.
pub record IsCoherent {S : Type 0} (o : Operator S) : Type 0 where
  pub running : o.b2nd_controller ≡ true → o.stop ≡ open_channel
  pub opened : o.stop ≡ open_channel → o.b2nd_controller ≡ true
  pub distinct : IsDistinct o.kfdef_instances

has-delete_false :
    (x y : String) (xs : List String) → has y xs ≡ false → has y (delete x xs) ≡ false
unfolding has delete
has-delete_false x y [] h = h
has-delete_false x y (z ∷ xs) h = ground (arith, has-delete_false x y xs)

delete-IsDistinct : (x : String) (xs : List String) → IsDistinct xs → IsDistinct (delete x xs)
unfolding delete
delete-IsDistinct x [] h = h
delete-IsDistinct x (y ∷ xs) h =
    ground (arith, delete-IsDistinct x xs h.1, has-delete_false x y xs h.0)

module _ {S : Type 0} where
  lift-IsCoherent : {A : Type 0} (m : Action S A) → Keeps IsCoherent (lift m)
  unfolding lift
  lift-IsCoherent m = record {
    at = λ o h. record { running = h.running; opened = h.opened; distinct = h.distinct };
  }

  stop_second_controller-IsCoherent : Keeps (IsCoherent {S = S}) stop_second_controller
  unfolding stop_second_controller
  stop_second_controller-IsCoherent = record {
    at = λ o h. record {
      running = ground arith;
      opened = ground arith;
      distinct = subst IsDistinct (sym (instances-stop_second_controller o)) h.distinct;
    };
  }

  forget_instance-IsCoherent : (k : String) → Keeps (IsCoherent {S = S}) (forget_instance k)
  unfolding forget_instance
  forget_instance-IsCoherent k = record {
    at = λ o h. record {
      running = h.running;
      opened = h.opened;
      distinct = delete-IsDistinct k o.kfdef_instances h.distinct;
    };
  }

  remember_instance-IsCoherent : (k : String) → Keeps (IsCoherent {S = S}) (remember_instance k)
  unfolding remember_instance
  remember_instance-IsCoherent k = record {
    at = λ o h. elim (Bool-cases (has k o.kfdef_instances)) [
      | inl held ↦ rw held h
      | inr new ↦
          rw new (record { running = h.running; opened = h.opened; distinct = (new, h.distinct) })
    ];
  }

module _ {W : Type 0} {P : W → Type 0} where
  wait_for-Keeps : (xs : List String) → Keeps P (wait_for xs)
  unfolding wait_for
  wait_for-Keeps [] = Keeps-pure tt
  wait_for-Keeps (x ∷ xs) = Keeps-raise _

  returned-Keeps : (r : Result (Unit {0})) → Keeps P (returned r)
  unfolding returned
  returned-Keeps (ok x) = Keeps-pure _
  returned-Keeps (err e) = Keeps-raise e
  returned-Keeps (panics m) = Keeps-panic m

ruleset coherence_rules = (
  keeps_rules, lift-IsCoherent, stop_second_controller-IsCoherent, forget_instance-IsCoherent,
  remember_instance-IsCoherent, found_or-Keeps, wait_for-Keeps, returned-Keeps,
)

module _ (C : Cluster) where
  watched-IsCoherent : (r : Result (Unit {0})) → Keeps IsCoherent (watched C r)
  unfolding watched
  watched-IsCoherent (ok x) = record {
    at = λ o h. record { running = λ _. refl; opened = λ _. refl; distinct = h.distinct };
  }
  watched-IsCoherent _ = record { at = λ o h. h }

  created-IsCoherent : (r : Result (Unit {0})) → Keeps IsCoherent (created C r)
  unfolding created
  created-IsCoherent (ok x) = search (coherence_rules, watched-IsCoherent)
  created-IsCoherent _ = Keeps-pure false

  start_second_controller-IsCoherent : (b : Bool) → Keeps IsCoherent (start_second_controller C b)
  unfolding start_second_controller
  start_second_controller-IsCoherent true = Keeps-pure true
  start_second_controller-IsCoherent false = search (coherence_rules, created-IsCoherent)

  operator_uninstall-IsCoherent :
      (request : Request) → Keeps IsCoherent (operator_uninstall C request)
  unfolding operator_uninstall
  operator_uninstall-IsCoherent request = search coherence_rules depth 20

  absent-IsCoherent : (request : Request) (b : Bool) → Keeps IsCoherent (absent C request b)
  unfolding absent
  absent-IsCoherent request true = search (coherence_rules, operator_uninstall-IsCoherent) depth 10
  absent-IsCoherent request false = Keeps-pure _

module _ (C : Cluster) (L : Loaders C.State) where
  finish-IsCoherent :
      (i : KfDef) (r : Result (Unit {0})) (b : Bool) → Keeps IsCoherent (finish C L i r b)
  unfolding finish
  finish-IsCoherent i r true = search coherence_rules
  finish-IsCoherent i r false = Keeps-pure _

  deployed-IsCoherent :
      (i j : KfDef) (r : Result (Unit {0})) → Keeps IsCoherent (deployed C L i j r)
  unfolding deployed
  deployed-IsCoherent i j (ok x) =
      search (coherence_rules, start_second_controller-IsCoherent, finish-IsCoherent) depth 12
  deployed-IsCoherent i j r = finish-IsCoherent j r true

  deleted-IsCoherent : (request : Request) (i : KfDef) → Keeps IsCoherent (deleted C L request i)
  unfolding deleted finalize
  deleted-IsCoherent request i = search coherence_rules depth 16

  uninstall_or_deploy-IsCoherent :
      (i : KfDef) (b : Bool) → Keeps IsCoherent (uninstall_or_deploy C L i b)
  unfolding uninstall_or_deploy deploy
  uninstall_or_deploy-IsCoherent i true = search coherence_rules
  uninstall_or_deploy-IsCoherent i false = search (coherence_rules, deployed-IsCoherent)

  live-IsCoherent : (request : Request) (i : KfDef) → Keeps IsCoherent (live C L request i)
  unfolding live
  live-IsCoherent request i = search (coherence_rules, uninstall_or_deploy-IsCoherent) depth 16

  present-IsCoherent :
      (request : Request) (i : KfDef) (t : Option ℕ) → Keeps IsCoherent (present C L request i t)
  unfolding present
  present-IsCoherent request i (some t) = deleted-IsCoherent request i
  present-IsCoherent request i none = live-IsCoherent request i

  found-IsCoherent : (request : Request) (r : Result KfDef) → Keeps IsCoherent (found C L request r)
  unfolding found
  found-IsCoherent request (ok i) = present-IsCoherent request i i.deletion_timestamp
  found-IsCoherent request (err e) = search (coherence_rules, absent-IsCoherent) depth 10
  found-IsCoherent request (panics m) = Keeps-panic m

  -- Whatever the request and whatever the cluster answers, `Reconcile` leaves the operator coherent:
  -- its second controller runs just when `stop` is open, and no instance is held twice. This covers
  -- the calls that end in an error or in a panic.
  pub reconcile-IsCoherent :
      (request : Request) (o : Operator C.State)
      → IsCoherent o
      → IsCoherent (reconcile C L request o).1
  unfolding reconcile
  reconcile-IsCoherent request =
      let k : Keeps IsCoherent (reconcile C L request) =
        search (coherence_rules, found-IsCoherent) in
      k.at
