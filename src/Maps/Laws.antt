-- ===== src/Maps/Laws.antt =====
-- An association list with one entry for each key, as the assignments of a Go map leave it.
use opendatahub_operator.Prelude.{
  String, ◌≡◌, refl, Bool, false, Option, none, some, List, [], ◌∷◌, ◌==◌, ◌&&◌, any, arith,
}
use opendatahub_operator.Maps.{lookup, insert}

module _ {ℓ} {V : Type ℓ} where
  abbrev pub has_key : String → List (String × V) → Bool
  has_key key m = any (λ e. e.0 == key) m

  abbrev pub IsMap : List (String × V) → Type 0
  IsMap [] = Unit {0}
  IsMap ((k, v) ∷ m) = (has_key k m ≡ false) × IsMap m

  -- A test on the value of a key, false where there is none.
  abbrev pub passes : (V → Bool) → Option V → Bool
  passes p none = false
  passes p (some v) = p v

  has_key-insert :
      (k key : String) (value : V) (m : List (String × V))
      → (key == k) ≡ false
      → has_key k m ≡ false
      → has_key k (insert key value m) ≡ false
  unfolding insert
  has_key-insert k key value [] h d = ground arith
  has_key-insert k key value ((j, v) ∷ m) h d = ground (arith, has_key-insert k key value m)

  pub insert-IsMap :
      (key : String) (value : V) (m : List (String × V)) → IsMap m → IsMap (insert key value m)
  unfolding insert
  insert-IsMap key value [] h = (refl, tt)
  insert-IsMap key value ((k, v) ∷ m) h =
      ground (arith, insert-IsMap key value m, has_key-insert k key value m)

  lookup-absent : (k : String) (m : List (String × V)) → has_key k m ≡ false → lookup k m ≡ none
  unfolding lookup
  lookup-absent k [] h = refl
  lookup-absent k ((j, v) ∷ m) h = ground (arith, lookup-absent k m)

  -- An entry of a key with a test on its value is the value of the key, tested.
  pub any-lookup :
      (p : V → Bool) (k : String) (m : List (String × V))
      → IsMap m
      → any (λ e. (e.0 == k) && p e.1) m ≡ passes p (lookup k m)
  unfolding lookup
  any-lookup p k [] h = refl
  any-lookup p k ((j, v) ∷ m) h = ground (arith, any-lookup p k m h.1, lookup-absent k m)
