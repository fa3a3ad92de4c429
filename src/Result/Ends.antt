-- ===== src/Result/Ends.antt =====
-- Rules for how an action can end: with which values, with which errors, and whether by a panic.
use opendatahub_operator.Prelude.{ℕ, ◌≡◌, Bool, true, false, if◌then◌else◌}
use opendatahub_operator.Errors.{Error, kf_error}
use opendatahub_operator.Result.{
  Result, ok, err, panics, Action, continue, ◌>>=◌, pure, raise, attempt, attempt_result, gets, run,
}

-- A value with `V`, or an error with `E`, and no panic.
abbrev pub Outcome : {A : Type 0} → (A → Type 0) → (Error → Type 0) → Result A → Type 0
Outcome V E (ok a) = V a
Outcome V E (err e) = E e
Outcome V E (panics m) = ⊥

pub record Ends {W A : Type 0} (V : A → Type 0) (E : Error → Type 0) (m : Action W A) : Type 0 where
  pub at : (w : W) → Outcome V E (m w).0

abbrev pub Any : {A : Type 0} → A → Type 0
Any _ = Unit {0}

abbrev pub IsKfError : Error → Type 0
IsKfError (kf_error _ _) = Unit {0}
IsKfError _ = ⊥

abbrev pub HasCode : ℕ → Error → Type 0
HasCode n (kf_error code _) = code ≡ n
HasCode n _ = ⊥

attempt_result-Outcome :
    {W A : Type 0} (V : A → Type 0) (E' E : Error → Type 0) (r : Result A) (w : W)
    → Outcome V E' r
    → Outcome (Outcome V E') E (attempt_result r w).0
unfolding attempt_result
attempt_result-Outcome V E' E (ok a) w v = v
attempt_result-Outcome V E' E (err e) w v = v
attempt_result-Outcome V E' E (panics m) w v = v

module _ {W : Type 0} {E : Error → Type 0} where
  continue-Outcome :
      {A B : Type 0} {V : A → Type 0} {V' : B → Type 0} (f : A → Action W B)
      → ((a : A) → V a → Ends V' E (f a))
      → (r : Result A) (w : W) → Outcome V E r
      → Outcome V' E (continue f r w).0
  unfolding run
  continue-Outcome f h (ok a) w v = (h a v).at w
  continue-Outcome f h (err e) w v = v
  continue-Outcome f h (panics m) w v = v

  pub Ends-bind :
      {A B : Type 0} {V : A → Type 0} {V' : B → Type 0} {m : Action W A} {f : A → Action W B}
      → Ends V E m
      → ((a : A) → V a → Ends V' E (f a))
      → Ends V' E (m >>= f)
  unfolding run
  Ends-bind {m = m} {f = f} k h = record { at = λ w. continue-Outcome f h (m w).0 (m w).1 (k.at w) }

  pub Ends-pure : {A : Type 0} {V : A → Type 0} (a : A) → V a → Ends V E (pure {W = W} a)
  unfolding run
  Ends-pure a v = record { at = λ w. v }

  pub Ends-raise : {A : Type 0} {V : A → Type 0} (e : Error) → E e → Ends V E (raise {W = W} e)
  unfolding run
  Ends-raise e h = record { at = λ w. h }

  pub Ends-gets : {A : Type 0} (f : W → A) → Ends Any E (gets f)
  unfolding run
  Ends-gets f = record { at = λ w. tt }

  -- What `attempt` hands on is the outcome of the call.
  pub Ends-attempt :
      {A : Type 0} {V : A → Type 0} {E' : Error → Type 0} {m : Action W A}
      → Ends V E' m
      → Ends (Outcome V E') E (attempt m)
  unfolding run
  Ends-attempt {V = V} {E' = E'} {m = m} k = record {
    at = λ w. attempt_result-Outcome V E' E (m w).0 (m w).1 (k.at w);
  }

  pub Ends-if :
      {A : Type 0} {V : A → Type 0} (b : Bool) {m n : Action W A}
      → Ends V E m
      → Ends V E n
      → Ends V E (if b then m else n)
  Ends-if true h k = h
  Ends-if false h k = k
