-- ===== src/KindSorter.antt =====
-- pkg/utils/kindsorter.go: the order in which resources are installed and uninstalled. A resource is
-- only looked at for its kind. The sort itself is Go's `sort.Sort`, which makes its comparisons with
-- `Less`.
pub mod Order
mod Tests
use Prim.Native.Nat.{Ordering}
use Prim.Native.String.{compare}
use opendatahub_operator.Prelude.{
  ℕ, zero, suc, ◌+◌, String, Bool, true, false, Option, none, some, List, [], ◌∷◌, ◌==◌, not, ◌&&◌,
  if◌then◌else◌, nat_eq, ltb,
}
use opendatahub_operator.Maps.{lookup, insert}

abbrev pub SortOrder : Type 0
SortOrder = List String

abbrev pub install_order : SortOrder
install_order =
    "Namespace" ∷ "ResourceQuota" ∷ "LimitRange" ∷ "PodSecurityPolicy" ∷ "Secret" ∷ "ConfigMap"
    ∷ "StorageClass" ∷ "PersistentVolume" ∷ "PersistentVolumeClaim" ∷ "ServiceAccount"
    ∷ "CustomResourceDefinition" ∷ "ClusterRole" ∷ "ClusterRoleBinding" ∷ "Role" ∷ "RoleBinding"
    ∷ "Service" ∷ "DaemonSet" ∷ "Pod" ∷ "ReplicationController" ∷ "ReplicaSet" ∷ "Deployment"
    ∷ "StatefulSet" ∷ "Job" ∷ "CronJob" ∷ "Ingress" ∷ "MutatingWebhookConfiguration"
    ∷ "ValidatingWebhookConfiguration" ∷ "APIService" ∷ []

abbrev pub uninstall_order : SortOrder
uninstall_order =
    "APIService" ∷ "ValidatingWebhookConfiguration" ∷ "MutatingWebhookConfiguration"
    ∷ "CustomResourceDefinition" ∷ "Ingress" ∷ "Service" ∷ "CronJob" ∷ "Job" ∷ "StatefulSet"
    ∷ "Deployment" ∷ "ReplicaSet" ∷ "ReplicationController" ∷ "Pod" ∷ "DaemonSet" ∷ "RoleBinding"
    ∷ "Role" ∷ "ClusterRoleBinding" ∷ "ClusterRole" ∷ "ServiceAccount" ∷ "PersistentVolumeClaim"
    ∷ "PersistentVolume" ∷ "StorageClass" ∷ "ConfigMap" ∷ "Secret" ∷ "PodSecurityPolicy"
    ∷ "LimitRange" ∷ "ResourceQuota" ∷ "Namespace" ∷ []

-- `a < b` on strings
abbrev pub string_lt : String → String → Bool
string_lt a b = elim (compare a b) [ Ordering.lt ↦ true | _ ↦ false ]

-- The loop of `newKindSorter`, from the position `v`.
unfoldable pub ordering_from : ℕ → SortOrder → List (String × ℕ) → List (String × ℕ)
ordering_from v [] o = o
ordering_from v (k ∷ ks) o = ordering_from (suc v) ks (insert k v o)

unfoldable pub new_ordering : SortOrder → List (String × ℕ)
unfolding ordering_from
new_ordering s = ordering_from 0 s []

-- `v, ok := m[key]` gives 0 and false where there is no entry.
value_or_zero : Option ℕ → ℕ
value_or_zero none = 0
value_or_zero (some v) = v

is_some : Option ℕ → Bool
is_some none = false
is_some (some _) = true

-- `Less`, on the kinds of two resources.
less_at : String → String → Option ℕ → Option ℕ → Bool
unfolding value_or_zero is_some
less_at a b x y =
    let first = value_or_zero x in
    let second = value_or_zero y in
    let aok = is_some x in
    let bok = is_some y in
    if nat_eq first second
    then (if not aok && not bok && not (a == b) then string_lt a b else string_lt a b)
    else if not aok
    then false
    else if not bok
    then true
    else ltb first second

unfoldable pub less : List (String × ℕ) → String → String → Bool
unfolding less_at
less ordering a b = less_at a b (lookup a ordering) (lookup b ordering)
