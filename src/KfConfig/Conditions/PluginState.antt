-- ===== src/KfConfig/Conditions/PluginState.antt =====
-- A plugin is finished, failed or neither, as the last call of `SetPluginFinished` or
-- `SetPluginFailed` left it.
use Prim.Native.String.{len}
use text.Mathlib.TextPositions.{len-append}
use opendatahub_operator.Prelude.{ℕ, String, ◌≡◌, ◌≢◌, ap, sym, true, false, arith}
use opendatahub_operator.KfConfig.{
  KfConfig, Condition, ConditionStatus, condition_true, condition_false,
}
use opendatahub_operator.Result.{Result}
use opendatahub_operator.KfConfig.Conditions.{
  get_plugin_succeeded_condition, get_plugin_failed_condition, set_condition, get_condition,
  is_condition_true, same_status, reset_condition, is_plugin_finished, is_plugin_failed,
  set_plugin_finished, set_plugin_failed,
}
use opendatahub_operator.KfConfig.Conditions.Laws.{
  get_condition-set_condition_self, get_condition-set_condition_ne,
}

succeeded-ne-failed :
    (k : String) → get_plugin_succeeded_condition k ≢ get_plugin_failed_condition k
unfolding get_plugin_succeeded_condition get_plugin_failed_condition
succeeded-ne-failed k e = omega (arith, ap len e, len-append k "Succeeded", len-append k "Failed")

-- A condition counts as true after it was set just when it was set to true.
is_condition_true-set_condition :
    (t : String) (s : ConditionStatus) (reason message : String) (now : ℕ) (c : KfConfig)
    → is_condition_true (get_condition (set_condition t s reason message now c) t)
      ≡ same_status s condition_true
unfolding is_condition_true
is_condition_true-set_condition t s reason message now c =
    ground (arith, get_condition-set_condition_self c t s reason message now)

-- After a reset the condition does not count as true, whether it was there or not.
is_condition_true-reset_condition :
    (t message : String) (now : ℕ) (c : KfConfig) (r : Result Condition)
    → get_condition c t ≡ r
    → is_condition_true (get_condition (reset_condition t message now r c) t) ≡ false
unfolding is_condition_true reset_condition
is_condition_true-reset_condition t message now c r e =
    ground (arith, get_condition-set_condition_self c t condition_false "" message now)

get_condition-reset_condition_ne :
    (t message : String) (now : ℕ) (c : KfConfig) (r : Result Condition) (u : String)
    → t ≢ u
    → get_condition (reset_condition t message now r c) u ≡ get_condition c u
unfolding reset_condition
get_condition-reset_condition_ne t message now c r u differ =
    ground (arith, get_condition-set_condition_ne c t condition_false "" message now u)

-- Reset one condition and set another to true: what both callers do.
switch_state :
    (t u m msg : String) (now now' : ℕ) (c : KfConfig)
    → t ≢ u
    → let c' =
        set_condition u condition_true "" msg now'
          (reset_condition t m now (get_condition c t) c) in
      (is_condition_true (get_condition c' u) ≡ true)
      × (is_condition_true (get_condition c' t) ≡ false)
switch_state t u m msg now now' c differ =
    let c1 = reset_condition t m now (get_condition c t) c in
    ground (
      arith,
      is_condition_true-set_condition u condition_true "" msg now' c1,
      get_condition-set_condition_ne c1 u condition_true "" msg now' t,
      is_condition_true-reset_condition t m now c (get_condition c t),
    )

switch_frame :
    (t u m msg : String) (now now' : ℕ) (c : KfConfig) (v : String)
    → t ≢ v
    → u ≢ v
    → get_condition
        (set_condition u condition_true "" msg now' (reset_condition t m now (get_condition c t) c))
        v
      ≡ get_condition c v
switch_frame t u m msg now now' c v p q =
    let c1 = reset_condition t m now (get_condition c t) c in
    ground (
      arith,
      get_condition-set_condition_ne c1 u condition_true "" msg now' v,
      get_condition-reset_condition_ne t m now c (get_condition c t) v,
    )

module _ (k msg : String) (now now' : ℕ) (c : KfConfig) where
  -- After `SetPluginFinished` the plugin is finished and not failed, whatever it was before; after
  -- `SetPluginFailed` it is failed and not finished.
  pub plugin_state_exclusive :
      (is_plugin_finished (set_plugin_finished k msg now now' c) k ≡ true)
      × (is_plugin_failed (set_plugin_finished k msg now now' c) k ≡ false)
      × (is_plugin_failed (set_plugin_failed k msg now now' c) k ≡ true)
      × (is_plugin_finished (set_plugin_failed k msg now now' c) k ≡ false)
  unfolding set_plugin_finished set_plugin_failed is_plugin_finished is_plugin_failed
  plugin_state_exclusive =
      let S = get_plugin_succeeded_condition k in
      let F = get_plugin_failed_condition k in
      let differ = succeeded-ne-failed k in
      let a = switch_state F S _ msg now now' c (λ e. differ (sym e)) in
      let b = switch_state S F _ msg now now' c differ in (a.0, a.1, b.0, b.1)

  -- `SetPluginFinished` and `SetPluginFailed` leave every condition but the plugin's two as it was.
  plugin_state_frame :
      (t : String)
      → get_plugin_succeeded_condition k ≢ t
      → get_plugin_failed_condition k ≢ t
      → (get_condition (set_plugin_finished k msg now now' c) t ≡ get_condition c t)
        × (get_condition (set_plugin_failed k msg now now' c) t ≡ get_condition c t)
  unfolding set_plugin_finished set_plugin_failed
  plugin_state_frame t p q =
      (switch_frame _ _ _ msg now now' c t q p, switch_frame _ _ _ msg now now' c t p q)
