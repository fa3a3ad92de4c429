-- ===== src/Iam.antt =====
-- pkg/utils/iamutils.go: the policies that say which members have which roles in a Google Cloud
-- project. The clients of the cloud, the file system and the YAML library are a parameter, and so is
-- the order in which Go ranges over a map.
pub mod Rewrite
pub mod Read
pub mod Tests
use opendatahub_operator.Prelude.{
  String, ◌<>◌, ◌≡◌, Bool, true, false, not, ◌&&◌, Option, none, some, List, [], ◌∷◌, ◌++◌, map,
  any, ◌==◌, if◌then◌else◌,
}
use opendatahub_operator.Errors.{kf_error, invalid_argument, error_message}
use opendatahub_operator.Result.{
  Result, ok, err, panics, Action, ◌>>=◌, pure, raise, panic, attempt,
}
use opendatahub_operator.Maps.{lookup, insert}

-- `cloudresourcemanager.Binding` and `Policy`
pub record Binding : Type 0 where
  pub role : String
  pub members : List String

pub record Policy : Type 0 where
  pub bindings : List Binding

-- `Bindings` and `IamBindingsYAML`
pub record Bindings : Type 0 where
  pub members : List String
  pub roles : List String

pub record IamBindingsYaml : Type 0 where
  pub bindings : List Bindings

abbrev pub contains : List String → String → Bool
contains xs x = any (λ y. y == x) xs

abbrev pub kept : (String → Bool) → List String → List String
kept p [] = []
kept p (x ∷ xs) = if p x then x ∷ kept p xs else kept p xs

-- The service accounts of a deployment.
service_account : String → String → String → String
service_account deploy_name kind project =
    "serviceAccount:"
    <> (deploy_name <> ("-" <> (kind <> ("@" <> (project <> ".iam.gserviceaccount.com")))))

unfoldable pub service_accounts : String → String → List String
unfolding service_account
service_accounts deploy_name project =
    service_account deploy_name "admin" project
    ∷ service_account deploy_name "user" project
    ∷ service_account deploy_name "vm" project
    ∷ []

-- `ClearIamPolicy`
unfoldable pub clear_iam_policy : Policy → String → String → Policy
clear_iam_policy current_policy deploy_name project =
    let accounts = service_accounts deploy_name project in
    record {
      bindings =
          map
            (λ b. record {
              role = b.role;
              members = kept (λ member. not (contains accounts member)) b.members;
            })
            current_policy.bindings;
    }

-- `map[string]bool`, and `map[string]map[string]bool`
abbrev pub MemberSet : Type 0
MemberSet = List (String × Bool)

abbrev pub PolicyMap : Type 0
PolicyMap = List (String × MemberSet)

-- The entries of a map in the order of a `range`.
pub record RangeOrder : Type 0 where
  pub members : MemberSet → MemberSet
  pub roles : PolicyMap → PolicyMap

unfoldable pub add_members : List String → MemberSet → MemberSet
add_members [] s = s
add_members (m ∷ ms) s = add_members ms (insert m true s)

-- The first loop of `RewriteIamPolicy`: a binding replaces what an earlier one of its role had.
unfoldable pub current_roles : List Binding → PolicyMap → PolicyMap
unfolding add_members
current_roles [] m = m
current_roles (b ∷ bs) m = current_roles bs (insert b.role (add_members b.members []) m)

abbrev pub set_of : Option MemberSet → MemberSet
set_of none = []
set_of (some s) = s

unfoldable pub add_binding : String → List String → PolicyMap → PolicyMap
add_binding role [] m = m
add_binding role (x ∷ xs) m =
    add_binding role xs (insert role (insert x true (set_of (lookup role m))) m)

-- The second loop.
unfoldable pub added_roles : List Binding → PolicyMap → PolicyMap
unfolding add_binding
added_roles [] m = m
added_roles (b ∷ bs) m = added_roles bs (add_binding b.role b.members m)

-- The keys whose value is true.
unfoldable pub existing : MemberSet → List String
existing [] = []
existing ((x, exists) ∷ s) = if exists then x ∷ existing s else existing s

-- A role that has a set of members keeps it: the union of both sets is made, and dropped.
unfoldable pub set_roles : List String → MemberSet → PolicyMap → PolicyMap
set_roles [] members_set entries = entries
set_roles (role ∷ roles) members_set entries =
    set_roles roles members_set
      (elim (lookup role entries) [ some _ ↦ entries | none ↦ insert role members_set entries ])

unfoldable pub read_bindings : List Bindings → PolicyMap → PolicyMap
unfolding set_roles add_members
read_bindings [] entries = entries
read_bindings (b ∷ bs) entries =
    read_bindings bs (set_roles b.roles (add_members b.members []) entries)

module _ (R : RangeOrder) where
  -- The third loop.
  unfoldable pub bindings_of : PolicyMap → List Binding
  unfolding existing
  bindings_of m = map (λ e. record { role = e.0; members = existing (R.members e.1) }) (R.roles m)

  -- `RewriteIamPolicy`
  unfoldable pub rewrite_iam_policy : Policy → Policy → Policy
  unfolding bindings_of current_roles added_roles
  rewrite_iam_policy current_policy adding = record {
    bindings = bindings_of (added_roles adding.bindings (current_roles current_policy.bindings []));
  }

  -- The policy of the bindings in a file.
  unfoldable pub policy_of : IamBindingsYaml → Policy
  unfolding read_bindings bindings_of
  policy_of iam = record { bindings = bindings_of (read_bindings iam.bindings []) }

-- The clients of the cloud, the file system and the YAML library, over a world.
pub record IamServices (S : Type 0) : Type 0 where
  -- `cloudresourcemanager.New` with what is called on it
  pub get_policy : String → Action S Policy
  pub set_policy : String → Policy → Action S (Unit {0})
  -- The policy of a service account, by its resource name.
  pub get_account_policy : String → Action S Policy
  pub set_account_policy : String → Policy → Action S (Unit {0})
  pub read_file : String → Action S String
  pub unmarshal : String → Result IamBindingsYaml

-- `UpdateWorkloadIdentityBindingsPolicy`; its error is always nil.
unfoldable pub update_workload_identity_bindings_policy : Policy → String → String → String → Policy
update_workload_identity_bindings_policy current_policy project namespace ksa = record {
  bindings =
      current_policy.bindings
      ++ record {
        role = "roles/iam.workloadIdentityUser";
        members =
            ("serviceAccount:"
              <> (project <> (".svc.id.goog[" <> (namespace <> ("/" <> (ksa <> "]"))))))
            ∷ [];
      }
        ∷ [];
}

-- An error of a library, told as an invalid argument.
refused : {W A : Type 0} → Result A → Action W A
refused (ok a) = pure a
refused (err e) = raise (kf_error invalid_argument (error_message e))
refused (panics m) = panic m

refused_as : {W A : Type 0} → String → Result A → Action W A
refused_as prefix (ok a) = pure a
refused_as prefix (err e) = raise (kf_error invalid_argument (prefix <> error_message e))
refused_as prefix (panics m) = panic m

account_resource : String → String → String
account_resource project gsa = "projects/" <> (project <> ("/serviceAccounts/" <> gsa))

module _ {S : Type 0} (I : IamServices S) where
  -- `GetIamPolicy`
  unfoldable pub get_iam_policy : String → Action S Policy
  unfolding refused
  get_iam_policy project = do r ← attempt (I.get_policy project); refused r

  -- `SetIamPolicy`
  unfoldable pub set_iam_policy : String → Policy → Action S (Unit {0})
  unfolding refused
  set_iam_policy project policy = do r ← attempt (I.set_policy project policy); refused r

  -- `GetServiceAccountIamPolicy`
  unfoldable pub get_service_account_iam_policy : String → String → Action S Policy
  unfolding refused_as account_resource
  get_service_account_iam_policy project gsa = do
    r ← attempt (I.get_account_policy (account_resource project gsa))
    refused_as "Get IAM Policy error: " r

  -- `SetServiceAccountIamPolicy`
  unfoldable pub set_service_account_iam_policy : Policy → String → String → Action S (Unit {0})
  unfolding refused_as account_resource
  set_service_account_iam_policy policy project gsa = do
    r ← attempt (I.set_account_policy (account_resource project gsa) policy)
    refused_as "Set IAM Policy error: " r

  -- `ReadIamBindingsYAML`
  unfoldable pub read_iam_bindings_yaml : RangeOrder → String → Action S Policy
  unfolding refused policy_of
  read_iam_bindings_yaml R filename = do
    buf ← attempt (I.read_file filename)
    contents ← refused buf
    iam ← refused (I.unmarshal contents)
    pure (policy_of R iam)
