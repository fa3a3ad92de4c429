-- ===== src/Iam/Read.antt =====
-- What `ReadIamBindingsYAML` makes of the bindings in a file.
use opendatahub_operator.Prelude.{
  String, ◌≡◌, refl, ◌∙◌, Bool, true, false, ◌||◌, Option, none, some, List, [], ◌∷◌, find, ◌==◌,
  if◌then◌else◌, arith, ap, string_dec, Option-cases, inl, inr,
}
use opendatahub_operator.Maps.{lookup, insert, lookup-insert}
use opendatahub_operator.Maps.Laws.{IsMap, insert-IsMap, passes}
use opendatahub_operator.Iam.{
  Bindings, IamBindingsYaml, MemberSet, PolicyMap, RangeOrder, contains, add_members, set_roles,
  read_bindings, policy_of,
}
use opendatahub_operator.Iam.Rewrite.{IsRange, granted, flag, add_members-flag, bindings_of-granted}

-- The members of a binding, where there is one.
abbrev pub first_members : Option Bindings → String → Bool
first_members none x = false
first_members (some b) x = contains b.members x

abbrev or_else : Option MemberSet → Option MemberSet → Option MemberSet
or_else none o = o
or_else (some s) o = some s

abbrev given : List String → String → MemberSet → Option MemberSet
given roles role s = if contains roles role then some s else none

abbrev put : String → MemberSet → PolicyMap → PolicyMap
put r s m = elim (lookup r m) [ some _ ↦ m | none ↦ insert r s m ]

put-lookup :
    (role r : String) (s : MemberSet) (m : PolicyMap)
    → lookup role (put r s m) ≡ or_else (lookup role m) (if r == role then some s else none)
put-lookup role r s m = elim (string_dec r role) [
  | yes p ↦ elim (Option-cases (lookup r m)) [
    | inl e ↦ ground (arith, e, lookup-insert r role s m, ap (λ k. lookup k m) p)
    | inr (t, e) ↦ ground (arith, e, ap (λ k. lookup k m) p)
  ]
  | no p ↦ elim (Option-cases (lookup r m)) [
    | inl e ↦ ground (arith, e, lookup-insert r role s m)
    | inr (t, e) ↦ ground (arith, e)
  ]
]

or_else-given :
    (o : Option MemberSet) (s : MemberSet) (b c : Bool)
    → or_else (or_else o (if b then some s else none)) (if c then some s else none)
      ≡ or_else o (if b || c then some s else none)
or_else-given none s true c = refl
or_else-given none s false c = refl
or_else-given (some t) s b c = refl

set_roles-lookup :
    (role : String) (roles : List String) (s : MemberSet) (m : PolicyMap)
    → lookup role (set_roles roles s m) ≡ or_else (lookup role m) (given roles role s)
unfolding set_roles
set_roles-lookup role [] s m = ground arith
set_roles-lookup role (r ∷ roles) s m =
    set_roles-lookup role roles s (put r s m)
    ∙ ap (λ o. or_else o (given roles role s)) (put-lookup role r s m)
    ∙ or_else-given (lookup role m) s (r == role) (contains roles role)

chosen-IsMap :
    (o : Option MemberSet) (m m' : PolicyMap)
    → IsMap m
    → IsMap m'
    → IsMap (elim o [ some _ ↦ m | none ↦ m' ])
chosen-IsMap none m m' h h' = h'
chosen-IsMap (some s) m m' h h' = h

put-IsMap : (r : String) (s : MemberSet) (m : PolicyMap) → IsMap m → IsMap (put r s m)
put-IsMap r s m h = chosen-IsMap (lookup r m) m _ h (insert-IsMap r s m h)

set_roles-IsMap :
    (roles : List String) (s : MemberSet) (m : PolicyMap) → IsMap m → IsMap (set_roles roles s m)
unfolding set_roles
set_roles-IsMap [] s m h = h
set_roles-IsMap (r ∷ roles) s m h = set_roles-IsMap roles s (put r s m) (put-IsMap r s m h)

read_bindings-IsMap : (bs : List Bindings) (m : PolicyMap) → IsMap m → IsMap (read_bindings bs m)
unfolding read_bindings
read_bindings-IsMap [] m h = h
read_bindings-IsMap (b ∷ bs) m h = read_bindings-IsMap bs _ (set_roles-IsMap b.roles _ m h)

-- The set of the first binding that lists a role.
abbrev first_set : Option Bindings → Option MemberSet
first_set none = none
first_set (some b) = some (add_members b.members [])

read_bindings-lookup :
    (role : String) (bs : List Bindings) (m : PolicyMap)
    → lookup role (read_bindings bs m)
      ≡ or_else (lookup role m) (first_set (find (λ b. contains b.roles role) bs))
unfolding read_bindings
read_bindings-lookup role [] m = ground arith
read_bindings-lookup role (b ∷ bs) m =
    let s = add_members b.members [] in
    ground (
      arith,
      read_bindings-lookup role bs (set_roles b.roles s m),
      set_roles-lookup role b.roles s m,
    )

first_set-flag :
    (x : String) (o : Option Bindings) → passes (flag x) (first_set o) ≡ first_members o x
first_set-flag x none = refl
first_set-flag x (some b) = ground (arith, add_members-flag b.members x [])

-- The policy that is read from a file gives a role to the members of the first binding that lists the
-- role, and to no other: the members of later bindings of that role are dropped. A range visits each
-- entry of a map.
pub policy_of-granted :
    (R : RangeOrder)
    → IsRange R
    → (iam : IamBindingsYaml) (role x : String)
    → granted (policy_of R iam).bindings role x
      ≡ first_members (find (λ b. contains b.roles role) iam.bindings) x
unfolding policy_of lookup
policy_of-granted R range iam role x =
    bindings_of-granted R range role x (read_bindings iam.bindings [])
      (read_bindings-IsMap iam.bindings [] tt)
    ∙ ap (passes (flag x)) (read_bindings-lookup role iam.bindings [])
    ∙ first_set-flag x (find (λ b. contains b.roles role) iam.bindings)
