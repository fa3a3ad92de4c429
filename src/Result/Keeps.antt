-- ===== src/Result/Keeps.antt =====
-- Rules for what an action keeps and for what a success of it leaves.
use mathlib.Core.Path.{subst}
use opendatahub_operator.Prelude.{String, ◌≡◌, refl, sym, Bool, true, false, if◌then◌else◌, arith}
use opendatahub_operator.Errors.{Error}
use opendatahub_operator.Result.{
  Result, ok, err, panics, Action, continue, ◌>>=◌, pure, raise, panic, attempt, gets, run,
}

-- From a world with `P` the action ends in one with `P`, whatever its result.
pub record Keeps {W A : Type 0} (P : W → Type 0) (m : Action W A) : Type 0 where
  pub at : (w : W) → P w → P (m w).1

-- From a world with `P` a success of the action, with a value `a`, ends in one with `Q a`.
pub record Leaves {W A : Type 0} (P : W → Type 0) (Q : A → W → Type 0) (m : Action W A)
    : Type 0 where
  pub at : (w : W) (a : A) → P w → (m w).0 ≡ ok a → Q a (m w).1

pub attempt_world : {W A : Type 0} (m : Action W A) (w : W) → (attempt m w).1 ≡ (m w).1
unfolding run
attempt_world m w = ground arith

module _ {W : Type 0} {P : W → Type 0} where
  continue-keeps :
      {A B : Type 0} (f : A → Action W B)
      → ((a : A) → Keeps P (f a))
      → (r : Result A) (w : W) → P w
      → P (continue f r w).1
  unfolding run
  continue-keeps f h (ok a) w p = (h a).at w p
  continue-keeps f h (err e) w p = p
  continue-keeps f h (panics m) w p = p

  pub Keeps-bind :
      {A B : Type 0} {m : Action W A} {f : A → Action W B}
      → Keeps P m
      → ((a : A) → Keeps P (f a))
      → Keeps P (m >>= f)
  unfolding run
  Keeps-bind {m = m} {f = f} k h = record {
    at = λ w p. continue-keeps f h (m w).0 (m w).1 (k.at w p);
  }

  pub Keeps-pure : {A : Type 0} (a : A) → Keeps P (pure a)
  unfolding run
  Keeps-pure a = record { at = λ w p. p }

  pub Keeps-raise : {A : Type 0} (e : Error) → Keeps P (raise {A = A} e)
  unfolding run
  Keeps-raise e = record { at = λ w p. p }

  pub Keeps-panic : {A : Type 0} (m : String) → Keeps P (panic {A = A} m)
  unfolding run
  Keeps-panic m = record { at = λ w p. p }

  pub Keeps-attempt : {A : Type 0} {m : Action W A} → Keeps P m → Keeps P (attempt m)
  Keeps-attempt {m = m} k = record { at = λ w p. subst P (sym (attempt_world m w)) (k.at w p) }

  pub Keeps-if :
      {A : Type 0} (b : Bool) {m n : Action W A}
      → Keeps P m
      → Keeps P n
      → Keeps P (if b then m else n)
  Keeps-if true h k = h
  Keeps-if false h k = k

ok-injective : {A : Type 0} (a b : A) → ok a ≡ ok b → a ≡ b
ok-injective a b e = cc

module _ {W : Type 0} where
  pub Leaves-Keeps :
      {A : Type 0} {P : W → Type 0} {m : Action W A} → Keeps P m → Leaves P (λ _. P) m
  Leaves-Keeps k = record { at = λ w a p e. k.at w p }

  pub Leaves-pure :
      {A : Type 0} {P : W → Type 0} {Q : A → W → Type 0} (a : A)
      → ((w : W) → P w → Q a w)
      → Leaves P Q (pure a)
  unfolding run
  Leaves-pure {Q = Q} a h = record {
    at = λ w b p e. subst (λ x. Q x w) (ok-injective a b e) (h w p);
  }

  -- An action that raises has no success.
  pub Leaves-raise :
      {A : Type 0} {P : W → Type 0} {Q : A → W → Type 0} (e : Error) → Leaves P Q (raise e)
  unfolding run
  Leaves-raise e = record { at = λ w a p h. absurd (cc) }

  pub Leaves-panic :
      {A : Type 0} {P : W → Type 0} {Q : A → W → Type 0} (m : String) → Leaves P Q (panic m)
  unfolding run
  Leaves-panic m = record { at = λ w a p h. absurd (cc) }

  continue-Leaves :
      {A B : Type 0} {Q : A → W → Type 0} {R : B → W → Type 0} (f : A → Action W B)
      → ((a : A) → Leaves (Q a) R (f a))
      → (r : Result A) (w : W) (b : B) → ((a : A) → r ≡ ok a → Q a w)
      → (continue f r w).0 ≡ ok b
      → R b (continue f r w).1
  unfolding run
  continue-Leaves f h (ok a) w b q e = (h a).at w b (q a refl) e
  continue-Leaves f h (err x) w b q e = absurd (cc)
  continue-Leaves f h (panics m) w b q e = absurd (cc)

  pub Leaves-bind :
      {A B : Type 0} {P : W → Type 0} {Q : A → W → Type 0} {R : B → W → Type 0} {m : Action W A}
      {f : A → Action W B}
      → Leaves P Q m
      → ((a : A) → Leaves (Q a) R (f a))
      → Leaves P R (m >>= f)
  unfolding run
  Leaves-bind {m = m} {f = f} k h = record {
    at = λ w b p e. continue-Leaves f h (m w).0 (m w).1 b (λ a x. k.at w a p x) e;
  }

-- The steps of an action whose first call is known.
module _ {W A B : Type 0} {w w' : W} (m : Action W A) where
  pub bind-attempt_ok :
      (f : Result A → Action W B) {a : A} → m w ≡ (ok a, w') → (attempt m >>= f) w ≡ f (ok a) w'
  unfolding run
  bind-attempt_ok f h = rw h

  pub bind-attempt_err :
      (f : Result A → Action W B) {e : Error}
      → m w ≡ (err e, w')
      → (attempt m >>= f) w ≡ f (err e) w'
  unfolding run
  bind-attempt_err f h = rw h

  pub bind-result :
      (f : A → Action W B) {r : Result A} → m w ≡ (r, w') → (m >>= f) w ≡ continue f r w'
  unfolding run
  bind-result f h = rw h

  pub bind-ok : (f : A → Action W B) {a : A} → m w ≡ (ok a, w') → (m >>= f) w ≡ f a w'
  unfolding run
  bind-ok f h = rw h

  pub bind-err : (f : A → Action W B) {e : Error} → m w ≡ (err e, w') → (m >>= f) w ≡ (err e, w')
  unfolding run
  bind-err f h = rw h

  pub bind-panics :
      (f : A → Action W B) {x : String} → m w ≡ (panics x, w') → (m >>= f) w ≡ (panics x, w')
  unfolding run
  bind-panics f h = rw h

pub Keeps-gets : {W A : Type 0} {P : W → Type 0} (f : W → A) → Keeps P (gets f)
unfolding run
Keeps-gets f = record { at = λ w p. p }

pub ruleset keeps_rules =
    (Keeps-bind, Keeps-pure, Keeps-raise, Keeps-panic, Keeps-attempt, Keeps-if, Keeps-gets)
