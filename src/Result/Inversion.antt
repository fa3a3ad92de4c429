-- ===== src/Result/Inversion.antt =====
-- What a successful action says of its steps.
use opendatahub_operator.Prelude.{
  ◌≡◌, ◌≢◌, ◌⊎◌, inl, inr, refl, Bool, true, false, if◌then◌else◌, arith,
}
use opendatahub_operator.Errors.{Error}
use opendatahub_operator.Result.{
  Result, ok, err, panics, Action, ◌>>=◌, continue, attempt, pure, raise, run,
}

continue_inv :
    {W A B : Type 0} (f : A → Action W B) (r : Result A) (s : W) (b : B) (w' : W)
    → continue f r s ≡ (ok b, w')
    → (a : A) × (r ≡ ok a) × (f a s ≡ (ok b, w'))
unfolding continue
continue_inv f (ok a) s b w' h = (a, refl, h)
continue_inv f (err e) s b w' h = absurd (ground arith)
continue_inv f (panics m) s b w' h = absurd (ground arith)

pub >>=-eq-ok :
    {W A B : Type 0} (m : Action W A) (f : A → Action W B) (w : W) (b : B) (w' : W)
    → (m >>= f) w ≡ (ok b, w')
    → (a : A) × (s : W) × (m w ≡ (ok a, s)) × (f a s ≡ (ok b, w'))
unfolding run
>>=-eq-ok m f w b w' h =
    let (a, e, k) = continue_inv f (m w).0 (m w).1 b w' h in (a, (m w).1, ground arith, k)

pub pure-eq-ok : {W A : Type 0} (a b : A) (w w' : W) → pure a w ≡ (ok b, w') → (a ≡ b) × (w ≡ w')
unfolding run
pure-eq-ok a b w w' h = (ground arith, ground arith)

pub raise-ne-ok : {W A : Type 0} (e : Error) (a : A) (w w' : W) → raise e w ≢ (ok a, w')
unfolding run
raise-ne-ok e a w w' = ground arith

pub if-eq-ok :
    {W A : Type 0} (b : Bool) (m n : Action W A) (w : W) (a : A) (w' : W)
    → (if b then m else n) w ≡ (ok a, w')
    → ((b ≡ true) × (m w ≡ (ok a, w'))) ⊎ ((b ≡ false) × (n w ≡ (ok a, w')))
if-eq-ok true m n w a w' h = inl (refl, h)
if-eq-ok false m n w a w' h = inr (refl, h)

pub attempt-eq-ok :
    {W A : Type 0} (m : Action W A) (w w' : W) (r : Result A)
    → attempt m w ≡ (ok r, w')
    → m w ≡ (r, w')
unfolding run
attempt-eq-ok m w w' r h = ground arith
