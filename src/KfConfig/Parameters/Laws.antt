-- ===== src/KfConfig/Parameters/Laws.antt =====
-- Reading a parameter after it was set.
use opendatahub_operator.Prelude.{
  ℕ, suc, ◌+◌, String, ◌≡◌, refl, Bool, Option, none, some, List, [], ◌∷◌, ◌==◌, if◌then◌else◌,
  arith,
}
use opendatahub_operator.KfConfig.{NameValue}
use opendatahub_operator.KfConfig.Parameters.{
  last_index_from, last_index, modify_at, get_parameter, set_parameter, write_parameter,
}

-- The index of the last item that passes a test, by recursion on the list.
abbrev pub index_of_last {ℓ} : {A : Type ℓ} → (A → Bool) → List A → Option ℕ
index_of_last p [] = none
index_of_last p (x ∷ xs) = elim (index_of_last p xs) [
  | some i ↦ some (suc i)
  | none ↦ if p x then some 0 else none
]

abbrev shifted : ℕ → Option ℕ → Option ℕ → Option ℕ
shifted i none old = old
shifted i (some j) old = some (i + j)

last_index_from_lem {ℓ} :
    {A : Type ℓ} (p : A → Bool) (i : ℕ) (old : Option ℕ) (xs : List A)
    → last_index_from p i old xs ≡ shifted i (index_of_last p xs) old
unfolding last_index_from
last_index_from_lem p i old [] = refl
last_index_from_lem p i old (x ∷ xs) =
    ground (arith, last_index_from_lem p (suc i) (if p x then some i else old) xs)

pub last_index_lem {ℓ} :
    {A : Type ℓ} (p : A → Bool) (xs : List A) → last_index p xs ≡ index_of_last p xs
unfolding last_index
last_index_lem p xs = ground (arith, last_index_from_lem p 0 none xs)

-- No two parameters have one name.
abbrev pub UniqueNames : List NameValue → Type 0
UniqueNames [] = Unit {0}
UniqueNames (p ∷ ps) = (get_parameter ps p.name ≡ none) × UniqueNames ps

abbrev write : List NameValue → String → String → List NameValue
write ps n v = write_parameter ps n v (index_of_last (λ p. p.name == n) ps)

index_of_last-none :
    (n : String) (ps : List NameValue)
    → (index_of_last (λ p. p.name == n) ps ≡ none → get_parameter ps n ≡ none)
      × (get_parameter ps n ≡ none → index_of_last (λ p. p.name == n) ps ≡ none)
unfolding get_parameter
index_of_last-none n [] = (λ h. refl, λ h. refl)
index_of_last-none n (p ∷ ps) = ground (arith, index_of_last-none n ps)

write_nil : (n v : String) → write [] n v ≡ record { name = n; value = v } ∷ []
unfolding write_parameter
write_nil n v = refl

write_cons :
    (p : NameValue) (ps : List NameValue) (n v : String)
    → write (p ∷ ps) n v ≡ (elim (index_of_last (λ q. q.name == n) ps) [
      | some i ↦ p ∷ write ps n v
      | none ↦ if p.name == n then record { name = n; value = v } ∷ ps else p ∷ write ps n v
    ])
unfolding write_parameter modify_at
write_cons p ps n v = ground arith

get_parameter-write :
    (ps : List NameValue) (n v m : String)
    → UniqueNames ps
    → get_parameter (write ps n v) m ≡ (if n == m then some v else get_parameter ps m)
unfolding get_parameter
get_parameter-write [] n v m u = rw write_nil (ground arith)
get_parameter-write (p ∷ ps) n v m u =
    rw write_cons (ground (arith, get_parameter-write ps n v m u.1, index_of_last-none n ps))

set_parameter_lem : (ps : List NameValue) (n v : String) → set_parameter ps n v ≡ write ps n v
unfolding set_parameter
set_parameter_lem ps n v = rw last_index_lem

-- After `setParameter`, `getParameter` of that name returns the value, and of every other name what
-- it returned before, when no name is there twice.
pub get_parameter-set_parameter :
    (ps : List NameValue) (n v m : String)
    → UniqueNames ps
    → get_parameter (set_parameter ps n v) m ≡ (if n == m then some v else get_parameter ps m)
get_parameter-set_parameter ps n v m u = rw set_parameter_lem (get_parameter-write ps n v m u)

write-UniqueNames :
    (ps : List NameValue) (n v : String) → UniqueNames ps → UniqueNames (write ps n v)
unfolding get_parameter
write-UniqueNames [] n v u = rw write_nil (refl, tt)
write-UniqueNames (p ∷ ps) n v u = rw write_cons (
    ground (
      arith,
      get_parameter-write ps n v p.name u.1,
      write-UniqueNames ps n v u.1,
      index_of_last-none n ps,
    ))

-- A name that is there twice is written where `getParameter` does not look: it returns what it
-- returned before.
pub set_parameter_shadowed :
    (p : NameValue) (ps : List NameValue) (v w : String)
    → get_parameter ps p.name ≡ some w
    → get_parameter (set_parameter (p ∷ ps) p.name v) p.name ≡ get_parameter (p ∷ ps) p.name
unfolding get_parameter
set_parameter_shadowed p ps v w twice =
    rw (set_parameter_lem, write_cons) (ground (arith, index_of_last-none p.name ps))
