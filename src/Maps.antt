-- ===== src/Maps.antt =====
-- A Go map with string keys, as an association list: an assignment replaces the entry of its key, or
-- adds one.
pub mod Laws
use opendatahub_operator.Prelude.{
  String, ◌≡◌, refl, Option, none, some, List, [], ◌∷◌, ◌==◌, if◌then◌else◌, arith,
}

module _ {ℓ} {V : Type ℓ} where
  -- `v, ok := m[key]`
  unfoldable pub lookup : String → List (String × V) → Option V
  lookup key [] = none
  lookup key ((k, v) ∷ m) = if k == key then some v else lookup key m

  -- `m[key] = value`
  unfoldable pub insert : String → V → List (String × V) → List (String × V)
  insert key value [] = (key, value) ∷ []
  insert key value ((k, v) ∷ m) = if k == key then (key, value) ∷ m else (k, v) ∷ insert key value m

  pub lookup-insert :
      (key k : String) (value : V) (m : List (String × V))
      → lookup k (insert key value m) ≡ (if key == k then some value else lookup k m)
  unfolding lookup insert
  lookup-insert key k value [] = refl
  lookup-insert key k value ((j, v) ∷ m) = ground (arith, lookup-insert key k value m)
