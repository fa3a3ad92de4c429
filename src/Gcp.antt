-- ===== src/Gcp.antt =====
-- pkg/kfapp/gcp/gcp.go: what `Apply` and `Delete` of the platform do to the policy of the project. The
-- rest of the platform calls the interfaces of Google Cloud.
pub mod Access
mod Tests
use opendatahub_operator.Prelude.{
  String, ◌<>◌, Bool, true, false, not, List, [], ◌∷◌, map, if◌then◌else◌,
}
use opendatahub_operator.Errors.{
  Error, kf_error, internal_error, error_message, new_kf_error_with_message,
}
use opendatahub_operator.Result.{
  Result, ok, err, panics, Action, ◌>>=◌, ◌>>◌, pure, raise, panic, attempt,
}
use opendatahub_operator.KfConfig.{KfConfig}
use opendatahub_operator.Iam.{
  Binding, Policy, RangeOrder, IamServices, contains, clear_iam_policy, rewrite_iam_policy,
  get_iam_policy, set_iam_policy, read_iam_bindings_yaml,
}

-- What `os.Stat` tells of a file.
pub data Stat : Type 0 where
  there : Stat
  not_exist : Stat
  failed : Error → Stat

-- The services of the cloud, the file system, and `backoff.Retry` with the limits that `Apply` sets.
pub record GcpServices (S : Type 0) : Type 0 where
  pub iam : IamServices S
  pub range : RangeOrder
  pub path_join : List String → String
  pub stat : String → Action S Stat
  pub retry : Action S (Unit {0}) → Action S (Unit {0})

abbrev pub gcp_config : String
gcp_config = "gcp_config"

abbrev pub iam_bindings : String
iam_bindings = "iam_bindings.yaml"

-- An error whose code is kept; one that is no `KfError` fails the type assertion.
relabelled : {W A : Type 0} → String → Result A → Action W A
relabelled prefix (ok a) = pure a
relabelled prefix (err (kf_error code message)) = raise (kf_error code (prefix <> message))
relabelled prefix (err e) = panic "interface conversion: error is not *apis.KfError"
relabelled prefix (panics m) = panic m

with_message : {W A : Type 0} → String → Result A → Action W A
with_message msg (ok a) = pure a
with_message msg (err e) = raise (new_kf_error_with_message e msg)
with_message msg (panics m) = panic m

-- `getSA`
unfoldable pub get_sa : String → String → String → String
get_sa name name_suffix project =
    name <> ("-" <> (name_suffix <> ("@" <> (project <> ".iam.gserviceaccount.com"))))

-- The members of a binding that `Delete` leaves.
unfoldable pub cleaned_members : List String → List String → List String
cleaned_members sa_set [] = []
cleaned_members sa_set (m ∷ ms) =
    let rest = cleaned_members sa_set ms in if contains sa_set m then rest else m ∷ rest

unfoldable pub sa_set_of : KfConfig → List String
unfolding get_sa
sa_set_of c =
    ("serviceAccount:" <> get_sa c.name "admin" c.spec.project)
    ∷ ("serviceAccount:" <> get_sa c.name "user" c.spec.project)
    ∷ ("serviceAccount:" <> get_sa c.name "vm" c.spec.project)
    ∷ []

abbrev pub cleaned_binding : List String → Binding → Binding
cleaned_binding sa_set b = record b { members = cleaned_members sa_set b.members }

-- The policy that `Delete` writes.
unfoldable pub cleaned_policy : KfConfig → Policy → Policy
unfolding cleaned_members sa_set_of
cleaned_policy c policy = record { bindings = map (cleaned_binding (sa_set_of c)) policy.bindings }

module _ {S : Type 0} (G : GcpServices S) (c : KfConfig) where
  -- A round of the first retry.
  unfoldable pub clear_round : Action S (Unit {0})
  unfolding with_message
  clear_round = do
    got ← attempt (get_iam_policy G.iam c.spec.project)
    policy ← with_message "GetIamPolicy error" got
    r ←
        attempt
          (set_iam_policy G.iam c.spec.project (clear_iam_policy policy c.name c.spec.project))
    with_message "Set Cleared IamPolicy error: %v" r

  -- A round of the second retry.
  unfoldable pub add_round : Policy → Action S (Unit {0})
  unfolding relabelled
  add_round iam_policy = do
    got ← attempt (get_iam_policy G.iam c.spec.project)
    new_policy ← relabelled "GetIamPolicy error: " got
    r ←
        attempt
          (set_iam_policy G.iam c.spec.project (rewrite_iam_policy G.range new_policy iam_policy))
    relabelled "Set New IamPolicy error: " r

  abbrev pub bindings_file : String
  bindings_file = G.path_join (c.spec.app_dir ∷ gcp_config ∷ iam_bindings ∷ [])

  unfoldable pub update_iam_from : Stat → Action S (Unit {0})
  unfolding clear_round add_round relabelled
  update_iam_from not_exist = pure tt
  update_iam_from (failed e) =
      raise (kf_error internal_error ("Error loading IAM template: " <> error_message e))
  update_iam_from there = do
    G.retry clear_round
    read ← attempt (read_iam_bindings_yaml G.iam G.range bindings_file)
    iam_policy ← relabelled "Read IAM policy YAML error: " read
    G.retry (add_round iam_policy)

  -- The part of `updateDM` that follows the deployments: the policy of the project.
  unfoldable pub update_iam : Action S (Unit {0})
  unfolding update_iam_from
  update_iam = do s ← G.stat bindings_file; update_iam_from s

  -- The part of `Delete` that follows the deployments.
  unfoldable pub delete_iam : Action S (Unit {0})
  unfolding relabelled cleaned_policy
  delete_iam = do
    got ← attempt (get_iam_policy G.iam c.spec.project)
    policy ← relabelled "Error when getting IAM policy: " got
    r ← attempt (set_iam_policy G.iam c.spec.project (cleaned_policy c policy))
    relabelled "Error when cleaning IAM policy: " r
