-- ===== src/Controller/Status.antt =====
-- pkg/controller/kfdef/status.go
use native.Mathlib.Decide.{ℕ_discrete}
use mathlib.Core.Logic.{ite}
use opendatahub_operator.Prelude.{String, Option, none, some, List, [], ◌∷◌, ◌++◌, string_dec}
use opendatahub_operator.Errors.{Error, error_message}
use opendatahub_operator.Result.{Action, ◌>>=◌, pure}
use opendatahub_operator.Controller.{
  KfDef, KfDefCondition, KfDefStatus, ConditionType, kf_available, kf_degraded, Cluster,
}

abbrev pub deployment_completed : String
deployment_completed = "Kubeflow Deployment completed"

abbrev pub condition_of : KfDef → ConditionType → String → KfDefCondition
condition_of cr type reason = record {
  type = type;
  status = "True";
  last_update_time = cr.creation_timestamp;
  last_transition_time = 0;
  reason = reason;
  message = "";
}

degraded_conditions : KfDef → Option Error → List KfDefCondition
degraded_conditions cr none = []
degraded_conditions cr (some e) = condition_of cr kf_degraded (error_message e) ∷ []

-- `getReconcileStatus`: the resource with its conditions set. Its error is the one it is given.
unfoldable pub get_reconcile_status : KfDef → Option Error → KfDef
unfolding degraded_conditions
get_reconcile_status cr e = record cr {
  status = record cr.status {
    conditions =
        degraded_conditions cr e ++ (condition_of cr kf_available deployment_completed ∷ []);
  };
}

-- `reflect.DeepEqual` on statuses. It also tells a nil list from an empty one; the lists here come
-- from one decoder, or are not empty.
unfoldable pub KfDefStatus-discrete : Discrete KfDefStatus
KfDefStatus-discrete = hlevel (string_dec, ℕ_discrete)

module _ (C : Cluster) where
  -- `setKfDefStatus` and `reconcileStatus`: the stored resource gets the status if its own differs.
  unfoldable pub set_kf_def_status : KfDef → Action C.State (Unit {0})
  set_kf_def_status cr = do
    current ← C.get (record { namespace = cr.namespace; name = cr.name })
    ite (KfDefStatus-discrete cr.status current.status) (pure tt)
        (C.update_status (record current { status = cr.status }))
