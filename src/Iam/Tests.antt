-- ===== src/Iam/Tests.antt =====
-- Bindings of a small file, with a range in the order of the assignments.
use opendatahub_operator.Prelude.{◌≡◌, refl, string_dec, true, false, [], ◌∷◌, find}
use opendatahub_operator.Maps.{lookup, insert}
use opendatahub_operator.Iam.{
  IamBindingsYaml, Policy, RangeOrder, contains, policy_of, clear_iam_policy, service_accounts,
  rewrite_iam_policy,
}
use opendatahub_operator.Iam.Rewrite.{IsRange, granted}
use opendatahub_operator.Iam.Read.{first_members, policy_of-granted}

abbrev pub in_order : RangeOrder
in_order = record { members = λ s. s; roles = λ m. m }

pub in_order-IsRange : IsRange in_order
in_order-IsRange = record { members = λ p s. refl; roles = λ p m. refl }

-- The role of an editor is listed twice.
abbrev pub two_bindings : IamBindingsYaml
two_bindings = record {
  bindings =
      record {
        members = "user:ann" ∷ "user:ann" ∷ [];
        roles = "roles/editor" ∷ "roles/viewer" ∷ [];
      }
      ∷ record { members = "user:bob" ∷ []; roles = "roles/editor" ∷ "roles/owner" ∷ [] }
      ∷ [];
}

bob_is_no_editor :
    granted (policy_of in_order two_bindings).bindings "roles/editor" "user:bob" ≡ false
unfolding policy_of string_dec lookup insert
bob_is_no_editor = refl

bob_is_owner : granted (policy_of in_order two_bindings).bindings "roles/owner" "user:bob" ≡ true
unfolding policy_of string_dec lookup insert
bob_is_owner = refl

-- The editors of the file are those of its first binding.
policy_of-granted_example :
    granted (policy_of in_order two_bindings).bindings "roles/editor" "user:bob"
    ≡ first_members (find (λ b. contains b.roles "roles/editor") two_bindings.bindings) "user:bob"
policy_of-granted_example =
    policy_of-granted in_order in_order-IsRange two_bindings "roles/editor" "user:bob"

abbrev pub odh_policy : Policy
odh_policy = record {
  bindings =
      record {
        role = "roles/editor";
        members = "serviceAccount:odh-vm@prj.iam.gserviceaccount.com" ∷ "user:cat" ∷ [];
      }
      ∷ record { role = "roles/viewer"; members = "user:dan" ∷ [] }
      ∷ [];
}

rewritten :
    rewrite_iam_policy in_order
      (clear_iam_policy odh_policy "odh" "prj")
      (policy_of in_order two_bindings)
    ≡ record {
      bindings =
          record { role = "roles/editor"; members = "user:cat" ∷ "user:ann" ∷ [] }
          ∷ record { role = "roles/viewer"; members = "user:dan" ∷ "user:ann" ∷ [] }
          ∷ record { role = "roles/owner"; members = "user:bob" ∷ [] }
          ∷ [];
    }
unfolding rewrite_iam_policy clear_iam_policy policy_of service_accounts string_dec lookup insert
rewritten = refl
