-- ===== src/KfConfig/Conditions.antt =====
-- pkg/kfconfig/types.go: the conditions of a configuration's status, and the plugin states that are
-- kept in them.
pub mod Laws
pub mod PluginState
use opendatahub_operator.Prelude.{
  ℕ, String, ◌<>◌, Bool, true, false, List, [], ◌∷◌, find, ◌==◌, if◌then◌else◌, ◌&&◌, none, some,
  Option, nat_eq,
}
use text.Mathlib.Text.{starts_with}
use opendatahub_operator.Errors.{Error, kf_error, not_found}
use opendatahub_operator.Result.{Result, ok, err, panics}
use opendatahub_operator.KfConfig.{
  KfConfig, Status, Condition, ConditionStatus, condition_true, condition_false, condition_unknown,
}

abbrev pub available : String
available = "Available"

abbrev pub degraded : String
degraded = "Degraded"

abbrev pub pending : String
pending = "Pending"

abbrev pub plugin_not_found_err_prefix : String
plugin_not_found_err_prefix = "Missing plugin"

abbrev pub condition_not_found_err_prefix : String
condition_not_found_err_prefix = "Missing condition"

-- `GetPluginSucceededCondition` and `GetPluginFailedCondition`
unfoldable pub get_plugin_succeeded_condition : String → String
get_plugin_succeeded_condition plugin_kind = plugin_kind <> "Succeeded"

unfoldable pub get_plugin_failed_condition : String → String
get_plugin_failed_condition plugin_kind = plugin_kind <> "Failed"

abbrev pub same_status : ConditionStatus → ConditionStatus → Bool
same_status condition_true condition_true = true
same_status condition_false condition_false = true
same_status condition_unknown condition_unknown = true
same_status _ _ = false

-- The loop of `SetCondition`: the first condition of the type is replaced, and keeps its transition
-- time if its status stays; else the new one goes to the end.
unfoldable pub put_condition : Condition → List Condition → List Condition
put_condition cond [] = cond ∷ []
put_condition cond (c ∷ cs) =
    if c.type == cond.type
    then (if same_status c.status cond.status
        then record cond { last_transition_time = c.last_transition_time }
        else cond)
      ∷ cs
    else c ∷ put_condition cond cs

abbrev pub new_condition : String → ConditionStatus → String → String → ℕ → Condition
new_condition cond_type status reason message now = record {
  type = cond_type;
  status = status;
  last_update_time = now;
  last_transition_time = now;
  reason = reason;
  message = message;
}

-- `SetCondition`; `now` is the time that it reads.
unfoldable pub set_condition : String → ConditionStatus → String → String → ℕ → KfConfig → KfConfig
set_condition cond_type status reason message now c = record c {
  status = record c.status {
    conditions =
        put_condition (new_condition cond_type status reason message now) c.status.conditions;
  };
}

found_or_missing : String → Option Condition → Result Condition
found_or_missing cond_type none =
    err (kf_error not_found (condition_not_found_err_prefix <> (" " <> cond_type)))
found_or_missing cond_type (some c) = ok c

-- `GetCondition`
unfoldable pub get_condition : KfConfig → String → Result Condition
unfolding found_or_missing
get_condition c cond_type =
    found_or_missing cond_type (find (λ d. d.type == cond_type) c.status.conditions)

-- `IsConditionNotFound` and `IsPluginNotFound`
unfoldable pub is_condition_not_found : Error → Bool
is_condition_not_found (kf_error code message) =
    nat_eq code not_found && starts_with message condition_not_found_err_prefix
is_condition_not_found _ = false

unfoldable pub is_plugin_not_found : Error → Bool
is_plugin_not_found (kf_error code message) =
    nat_eq code not_found && starts_with message plugin_not_found_err_prefix
is_plugin_not_found _ = false

-- On an error both branches return `false`; they differ in a warning.
is_condition_true : Result Condition → Bool
is_condition_true (ok cond) = same_status cond.status condition_true
is_condition_true (err e) = if is_condition_not_found e then false else false
is_condition_true (panics m) = false

unfoldable pub is_plugin_finished : KfConfig → String → Bool
unfolding is_condition_true
is_plugin_finished c plugin_kind =
    is_condition_true (get_condition c (get_plugin_succeeded_condition plugin_kind))

unfoldable pub is_plugin_failed : KfConfig → String → Bool
unfolding is_condition_true
is_plugin_failed c plugin_kind =
    is_condition_true (get_condition c (get_plugin_failed_condition plugin_kind))

-- Set a condition to false, if it is there.
reset_condition : String → String → ℕ → Result Condition → KfConfig → KfConfig
reset_condition cond_type message now (ok _) c =
    set_condition cond_type condition_false "" message now c
reset_condition cond_type message now _ c = c

-- `SetPluginFinished`; `SetCondition` is called twice, and reads the time twice.
unfoldable pub set_plugin_finished : String → String → ℕ → ℕ → KfConfig → KfConfig
unfolding reset_condition
set_plugin_finished plugin_kind msg now now' c =
    let failed_cond = get_plugin_failed_condition plugin_kind in
    set_condition (get_plugin_succeeded_condition plugin_kind) condition_true "" msg now' (
      reset_condition failed_cond "Reset to false as the plugin is set to be finished." now
        (get_condition c failed_cond) c)

-- `SetPluginFailed`
unfoldable pub set_plugin_failed : String → String → ℕ → ℕ → KfConfig → KfConfig
unfolding reset_condition
set_plugin_failed plugin_kind msg now now' c =
    let succeeded_cond = get_plugin_succeeded_condition plugin_kind in
    set_condition (get_plugin_failed_condition plugin_kind) condition_true "" msg now' (
      reset_condition succeeded_cond "Reset to false as the plugin is set to be failed." now
        (get_condition c succeeded_cond) c)
