-- ===== src/Result.antt =====
-- What a Go function returns: a value, an error, or a panic, which no caller in the program recovers
-- from. `Action W` is a function that also changes a world `W`; what it changed before an error stays.
pub mod Keeps
pub mod Ends
pub mod Inversion
use opendatahub_operator.Prelude.{String}
use opendatahub_operator.Errors.{Error}

pub data Result {ℓ} (A : Type ℓ) : Type ℓ where
  ok : A → Result A
  err : Error → Result A
  panics : String → Result A

abbrev pub Action : Type 0 → Type 0 → Type 0
Action W A = W → Result A × W

-- The rest of a function after a step: it is skipped on an error and on a panic.
unfoldable pub continue : {W A B : Type 0} → (A → Action W B) → Result A → W → Result B × W
continue f (ok a) w = f a w
continue f (err e) w = (err e, w)
continue f (panics m) w = (panics m, w)

infixl 5 ◌>>=◌ ◌>>◌
unfoldable pub ◌>>=◌ : {W A B : Type 0} → Action W A → (A → Action W B) → Action W B
unfolding continue
◌>>=◌ m f w = let (r, w') = m w in continue f r w'

abbrev pub ◌>>◌ : {W B : Type 0} → Action W (Unit {0}) → Action W B → Action W B
m >> k = m >>= λ _. k

unfoldable pub pure : {W A : Type 0} → A → Action W A
pure a w = (ok a, w)

unfoldable pub raise : {W A : Type 0} → Error → Action W A
raise e w = (err e, w)

unfoldable pub panic : {W A : Type 0} → String → Action W A
panic m w = (panics m, w)

-- `v, err := f()`: the caller looks at the error itself.
unfoldable pub attempt_result : {W A : Type 0} → Result A → W → Result (Result A) × W
attempt_result (panics m) w = (panics m, w)
attempt_result r w = (ok r, w)

unfoldable pub attempt : {W A : Type 0} → Action W A → Action W (Result A)
unfolding attempt_result
attempt m w = let (r, w') = m w in attempt_result r w'

unfoldable pub modify : {W : Type 0} → (W → W) → Action W (Unit {0})
modify f w = (ok tt, f w)

unfoldable pub gets : {W A : Type 0} → (W → A) → Action W A
gets f w = (ok (f w), w)

-- To run an action; a proof that unfolds `run` computes with all of the above.
unfoldable pub run : {W A : Type 0} → Action W A → W → Result A × W
unfolding ◌>>=◌ pure raise panic attempt modify gets
run m w = m w
