-- ===== src/KfConfig/Conditions/Laws.antt =====
-- Reading a condition after `SetCondition`, and the number of conditions of a type.
use opendatahub_operator.Prelude.{
  ℕ, ◌+◌, ◌≤◌, String, ◌≡◌, ◌≢◌, Option, none, some, List, [], ◌∷◌, find, ◌==◌, if◌then◌else◌,
  arith, leb,
}
use opendatahub_operator.KfConfig.{KfConfig, Condition, ConditionStatus}
use opendatahub_operator.KfConfig.Conditions.{
  new_condition, put_condition, set_condition, get_condition, same_status,
}
use opendatahub_operator.Result.{ok}

-- The conditions that the list holds of a type.
abbrev pub occurrences : String → List Condition → ℕ
occurrences t [] = 0
occurrences t (c ∷ cs) = (if c.type == t then 1 else 0) + occurrences t cs

-- The transition time that a status leaves: that of the condition it replaces, if the status is the
-- same, and the present time otherwise.
abbrev pub transition_time : Option Condition → ConditionStatus → ℕ → ℕ
transition_time none status now = now
transition_time (some c) status now =
    if same_status c.status status then c.last_transition_time else now

abbrev pub written : Option Condition → Condition → Condition
written old cond = record cond {
  last_transition_time = transition_time old cond.status cond.last_transition_time;
}

find-put_condition :
    (cond : Condition) (t : String) (cs : List Condition)
    → find (λ d. d.type == t) (put_condition cond cs) ≡ (
        if cond.type == t
        then some (written (find (λ d. d.type == cond.type) cs) cond)
        else find (λ d. d.type == t) cs)
unfolding put_condition
find-put_condition cond t [] = ground arith
find-put_condition cond t (c ∷ cs) = ground (arith, find-put_condition cond t cs)

occurrences-put_condition :
    (cond : Condition) (t : String) (cs : List Condition)
    → occurrences t (put_condition cond cs) ≡ (
        if cond.type == t
        then (if leb 1 (occurrences t cs) then occurrences t cs else 1)
        else occurrences t cs)
unfolding put_condition
occurrences-put_condition cond t [] = ground arith
occurrences-put_condition cond t (c ∷ cs) = ground (arith, occurrences-put_condition cond t cs)

-- The condition that `SetCondition` writes, given what the configuration had of the type.
abbrev pub set_value : KfConfig → String → ConditionStatus → String → String → ℕ → Condition
set_value c t s reason message now =
    written (find (λ d. d.type == t) c.status.conditions) (new_condition t s reason message now)

module _ (c : KfConfig) (t : String) (s : ConditionStatus) (reason message : String) (now : ℕ) where
  pub get_condition-set_condition_self :
      get_condition (set_condition t s reason message now c) t
      ≡ ok (set_value c t s reason message now)
  unfolding set_condition get_condition
  get_condition-set_condition_self =
      ground
        (arith, find-put_condition (new_condition t s reason message now) t c.status.conditions)

  -- `SetCondition` of one type leaves what `GetCondition` returns for every other.
  pub get_condition-set_condition_ne :
      (u : String)
      → t ≢ u
      → get_condition (set_condition t s reason message now c) u ≡ get_condition c u
  unfolding set_condition get_condition
  get_condition-set_condition_ne u differ =
      ground
        (arith, find-put_condition (new_condition t s reason message now) u c.status.conditions)

  -- If no type has two conditions before `SetCondition`, none has two after it.
  pub set_condition_unique :
      ((u : String) → occurrences u c.status.conditions ≤ 1)
      → (u : String) → occurrences u (set_condition t s reason message now c).status.conditions ≤ 1
  unfolding set_condition
  set_condition_unique h u = ground (
    arith,
    h u,
    occurrences-put_condition (new_condition t s reason message now) u c.status.conditions,
  )
