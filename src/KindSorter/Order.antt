-- ===== src/KindSorter/Order.antt =====
-- Where `Less` orders the kinds as its list says, and where it does not.
use opendatahub_operator.Prelude.{
  ℕ, suc, String, ◌≡◌, ◌≢◌, refl, true, false, Option, none, some, List, [], ◌∷◌, ◌==◌,
  if◌then◌else◌, ltb, arith,
}
use opendatahub_operator.Maps.{lookup, insert, lookup-insert}
use opendatahub_operator.KindSorter.{SortOrder, string_lt, ordering_from, new_ordering, less}

-- The last position of a kind in an order, counted from `v`.
abbrev pub position_from : ℕ → String → SortOrder → Option ℕ
position_from v k [] = none
position_from v k (j ∷ js) = elim (position_from (suc v) k js) [
  | some i ↦ some i
  | none ↦ if j == k then some v else none
]

abbrev pub position : String → SortOrder → Option ℕ
position = position_from 0

or_else : Option ℕ → Option ℕ → Option ℕ
or_else none y = y
or_else (some x) y = some x

lookup-ordering_from :
    (v : ℕ) (k : String) (s : SortOrder) (o : List (String × ℕ))
    → lookup k (ordering_from v s o) ≡ or_else (position_from v k s) (lookup k o)
unfolding ordering_from or_else
lookup-ordering_from v k [] o = refl
lookup-ordering_from v k (j ∷ js) o =
    ground (arith, lookup-ordering_from (suc v) k js (insert j v o), lookup-insert j k v o)

lookup-new_ordering : (k : String) (s : SortOrder) → lookup k (new_ordering s) ≡ position k s
unfolding new_ordering lookup or_else
lookup-new_ordering k s = ground (arith, lookup-ordering_from 0 k s [])

module _ (s : SortOrder) (a b : String) where
  -- Two kinds at different places of the list are ordered by their places.
  pub less_of_known :
      (i j : ℕ)
      → position a s ≡ some i
      → position b s ≡ some j
      → i ≢ j
      → less (new_ordering s) a b ≡ ltb i j
  unfolding less
  less_of_known i j p q h = ground (arith, lookup-new_ordering a s, lookup-new_ordering b s)

  -- A kind of the list, but for the first one, stands before every kind that is not in it.
  less_of_unknown :
      (i : ℕ)
      → position a s ≡ some (suc i)
      → position b s ≡ none
      → (less (new_ordering s) a b ≡ true) × (less (new_ordering s) b a ≡ false)
  unfolding less
  less_of_unknown i p q = ground (arith, lookup-new_ordering a s, lookup-new_ordering b s)

  -- The first kind of the list has the place that an unknown kind is given, and the two are ordered
  -- by their names. So an unknown kind with a lower name stands before the first kind, which stands
  -- before each later one, which stands before the unknown one: `Less` goes round in a circle.
  pub less_cycle :
      (u : String) (i : ℕ)
      → position a s ≡ some 0
      → position b s ≡ some (suc i)
      → position u s ≡ none
      → string_lt u a ≡ true
      → (less (new_ordering s) u a ≡ true)
        × (less (new_ordering s) a b ≡ true)
        × (less (new_ordering s) b u ≡ true)
  unfolding less
  less_cycle u i p q r h =
      ground (arith, lookup-new_ordering a s, lookup-new_ordering b s, lookup-new_ordering u s)
