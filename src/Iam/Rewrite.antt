-- ===== src/Iam/Rewrite.antt =====
-- What `ClearIamPolicy` and `RewriteIamPolicy` make of a policy, as a relation of roles and members.
use opendatahub_operator.Prelude.{
  String, ◌≡◌, refl, ◌∙◌, Bool, true, false, not, ◌&&◌, ◌||◌, List, [], ◌∷◌, map, any, ◌==◌,
  if◌then◌else◌, arith, ap, string_dec, Bool-cases, any_ext, any-map, Option-cases, inl, inr,
}
use opendatahub_operator.Maps.{lookup, insert, lookup-insert}
use opendatahub_operator.Maps.Laws.{IsMap, passes, insert-IsMap, any-lookup}
use opendatahub_operator.Iam.{
  Binding, Policy, MemberSet, PolicyMap, RangeOrder, contains, kept, service_accounts,
  clear_iam_policy, add_members, current_roles, set_of, add_binding, added_roles, existing,
  bindings_of, rewrite_iam_policy,
}

-- The abstract view of a policy: whether it gives the role to the member.
abbrev pub granted : List Binding → String → String → Bool
granted bs role member = any (λ b. (b.role == role) && contains b.members member) bs

-- No two bindings are of one role.
abbrev pub HaveRoles : List Binding → Type 0
HaveRoles [] = Unit {0}
HaveRoles (b ∷ bs) = (any (λ c. c.role == b.role) bs ≡ false) × HaveRoles bs

-- A range visits the entries of a map, each as often as the map has it.
pub record IsRange (R : RangeOrder) : Type 0 where
  pub members : (p : (String × Bool) → Bool) (s : MemberSet) → any p (R.members s) ≡ any p s
  pub roles : (p : (String × MemberSet) → Bool) (m : PolicyMap) → any p (R.roles m) ≡ any p m

abbrev pub flag : String → MemberSet → Bool
flag x s = any (λ e. (e.0 == x) && e.1) s

abbrev pub role_flag : String → String → PolicyMap → Bool
role_flag role x m = passes (flag x) (lookup role m)

insert-flag : (m x : String) (s : MemberSet) → flag x (insert m true s) ≡ ((m == x) || flag x s)
unfolding insert
insert-flag m x [] = ground arith
insert-flag m x ((k, v) ∷ s) = ground (arith, insert-flag m x s)

pub add_members-flag :
    (ms : List String) (x : String) (s : MemberSet)
    → flag x (add_members ms s) ≡ (contains ms x || flag x s)
unfolding add_members
add_members-flag [] x s = refl
add_members-flag (m ∷ ms) x s =
    ground (arith, add_members-flag ms x (insert m true s), insert-flag m x s)

existing-flag : (x : String) (s : MemberSet) → contains (existing s) x ≡ flag x s
unfolding existing
existing-flag x [] = refl
existing-flag x ((k, v) ∷ s) = ground (arith, existing-flag x s)

current_roles-IsMap : (bs : List Binding) (m : PolicyMap) → IsMap m → IsMap (current_roles bs m)
unfolding current_roles
current_roles-IsMap [] m h = h
current_roles-IsMap (b ∷ bs) m h = current_roles-IsMap bs _ (insert-IsMap b.role _ m h)

add_binding-IsMap :
    (role : String) (xs : List String) (m : PolicyMap) → IsMap m → IsMap (add_binding role xs m)
unfolding add_binding
add_binding-IsMap role [] m h = h
add_binding-IsMap role (x ∷ xs) m h = add_binding-IsMap role xs _ (insert-IsMap role _ m h)

added_roles-IsMap : (bs : List Binding) (m : PolicyMap) → IsMap m → IsMap (added_roles bs m)
unfolding added_roles
added_roles-IsMap [] m h = h
added_roles-IsMap (b ∷ bs) m h = added_roles-IsMap bs _ (add_binding-IsMap b.role b.members m h)

role_flag-insert :
    (role r x : String) (s : MemberSet) (m : PolicyMap)
    → role_flag r x (insert role s m) ≡ (if role == r then flag x s else role_flag r x m)
role_flag-insert role r x s m = ground (arith, lookup-insert role r s m)

granted_absent :
    (role x : String) (bs : List Binding)
    → any (λ b. b.role == role) bs ≡ false
    → granted bs role x ≡ false
granted_absent role x [] h = refl
granted_absent role x (b ∷ bs) h = ground (arith, granted_absent role x bs)

current_roles-flag :
    (role x : String) (bs : List Binding) (m : PolicyMap)
    → HaveRoles bs
    → role_flag role x (current_roles bs m)
      ≡ (if any (λ b. b.role == role) bs then granted bs role x else role_flag role x m)
unfolding current_roles
current_roles-flag role x [] m h = refl
current_roles-flag role x (b ∷ bs) m h =
    let ih = current_roles-flag role x bs (insert b.role (add_members b.members []) m) h.1 in
    elim (string_dec b.role role) [
      | yes p ↦
          let absent : any (λ c. c.role == role) bs ≡ false = rw (← p) h.0 in
          ground (
            arith,
            ih,
            absent,
            granted_absent role x bs absent,
            role_flag-insert b.role role x (add_members b.members []) m,
            add_members-flag b.members x [],
          )
      | no p ↦ ground (arith, ih, role_flag-insert b.role role x (add_members b.members []) m)
    ]

set_of-flag :
    (role x : String) (m : PolicyMap) → flag x (set_of (lookup role m)) ≡ role_flag role x m
set_of-flag role x m = elim (Option-cases (lookup role m)) [ inl e ↦ rw e | inr (s, e) ↦ rw e ]

current_roles-granted :
    (role x : String) (bs : List Binding)
    → HaveRoles bs
    → role_flag role x (current_roles bs []) ≡ granted bs role x
unfolding lookup
current_roles-granted role x bs h = elim (Bool-cases (any (λ b. b.role == role) bs)) [
  | inl e ↦ current_roles-flag role x bs [] h ∙ rw e
  | inr e ↦ current_roles-flag role x bs [] h ∙ rw (e, granted_absent role x bs e)
]

or_comm : (a b : Bool) → (a || b) ≡ (b || a)
or_comm a b = ground arith

add_binding-flag :
    (r role x : String) (xs : List String) (m : PolicyMap)
    → role_flag r x (add_binding role xs m) ≡ (((role == r) && contains xs x) || role_flag r x m)
unfolding add_binding
add_binding-flag r role x [] m = ground arith
add_binding-flag r role x (y ∷ ys) m =
    let grown = insert y true (set_of (lookup role m)) in
    elim (string_dec role r) [
      | yes p ↦ ground (
        arith,
        add_binding-flag r role x ys (insert role grown m),
        role_flag-insert role r x grown m,
        insert-flag y x (set_of (lookup role m)),
        set_of-flag role x m,
        ap (λ k. role_flag k x m) p,
      )
      | no p ↦ ground (
        arith,
        add_binding-flag r role x ys (insert role grown m),
        role_flag-insert role r x grown m,
      )
    ]

added_roles-flag :
    (role x : String) (bs : List Binding) (m : PolicyMap)
    → role_flag role x (added_roles bs m) ≡ (granted bs role x || role_flag role x m)
unfolding added_roles
added_roles-flag role x [] m = refl
added_roles-flag role x (b ∷ bs) m = ground (
  arith,
  added_roles-flag role x bs (add_binding b.role b.members m),
  add_binding-flag role b.role x b.members m,
)

module _ (R : RangeOrder) (range : IsRange R) where
  ranged-flag : (x : String) (s : MemberSet) → contains (existing (R.members s)) x ≡ flag x s
  ranged-flag x s = existing-flag x (R.members s) ∙ range.members (λ e. (e.0 == x) && e.1) s

  pub bindings_of-granted :
      (role x : String) (m : PolicyMap)
      → IsMap m
      → granted (bindings_of R m) role x ≡ role_flag role x m
  unfolding bindings_of
  bindings_of-granted role x m h =
      any-map (λ b. (b.role == role) && contains b.members x)
        (λ e. record { role = e.0; members = existing (R.members e.1) }) (R.roles m)
      ∙ range.roles (λ e. (e.0 == role) && contains (existing (R.members e.1)) x) m
      ∙ any_ext (λ e. (e.0 == role) && contains (existing (R.members e.1)) x)
          (λ e. (e.0 == role) && flag x e.1) (λ e. ap (λ t. (e.0 == role) && t) (ranged-flag x e.1))
          m
      ∙ any-lookup (flag x) role m h

  pub rewrite_iam_policy-granted :
      (current adding : Policy) (role x : String)
      → HaveRoles current.bindings
      → granted (rewrite_iam_policy R current adding).bindings role x
        ≡ (granted current.bindings role x || granted adding.bindings role x)
  unfolding rewrite_iam_policy
  rewrite_iam_policy-granted current adding role x h =
      let now = current_roles current.bindings [] in
      let both = added_roles adding.bindings now in
      let both-IsMap : IsMap both =
        added_roles-IsMap adding.bindings now (current_roles-IsMap current.bindings [] tt) in
      bindings_of-granted role x both both-IsMap
      ∙ added_roles-flag role x adding.bindings now
      ∙ ap (λ t. granted adding.bindings role x || t)
          (current_roles-granted role x current.bindings h)
      ∙ or_comm (granted adding.bindings role x) (granted current.bindings role x)

contains-kept :
    (p : String → Bool) (xs : List String) (x : String)
    → contains (kept p xs) x ≡ (contains xs x && p x)
contains-kept p [] x = refl
contains-kept p (y ∷ ys) x = elim (string_dec y x) [
  | yes e ↦ ground (arith, contains-kept p ys x, ap p e, Bool-cases (p x))
  | no e ↦ ground (arith, contains-kept p ys x)
]

clear-granted :
    (p : String → Bool) (bs : List Binding) (role x : String)
    → granted (map (λ b. record { role = b.role; members = kept p b.members }) bs) role x
      ≡ (granted bs role x && p x)
clear-granted p [] role x = refl
clear-granted p (b ∷ bs) role x =
    ground (arith, clear-granted p bs role x, contains-kept p b.members x)

pub clear_iam_policy-granted :
    (p : Policy) (deploy_name project role x : String)
    → granted (clear_iam_policy p deploy_name project).bindings role x
      ≡ (granted p.bindings role x && not (contains (service_accounts deploy_name project) x))
unfolding clear_iam_policy
clear_iam_policy-granted p deploy_name project role x =
    let accounts = service_accounts deploy_name project in
    clear-granted (λ member. not (contains accounts member)) p.bindings role x
