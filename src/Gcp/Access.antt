-- ===== src/Gcp/Access.antt =====
-- Who has access to the project after `Apply` and `Delete` of the platform.
use opendatahub_operator.Prelude.{String, ◌≡◌}
use opendatahub_operator.Result.{ok, Action}
use opendatahub_operator.KfConfig.{KfConfig}
use opendatahub_operator.Iam.{
  Policy, IamBindingsYaml, clear_iam_policy, rewrite_iam_policy, policy_of,
}
use opendatahub_operator.Gcp.{GcpServices, there, bindings_file}

-- A cloud that keeps the policy it is given and can be reached, where an action that succeeds is not
-- retried.
pub record Keeps {S : Type 0} (G : GcpServices S) (policy : S → Policy) (put : Policy → S → S)
    : Type 0 where
  pub got : (project : String) (w : S) → G.iam.get_policy project w ≡ (ok (policy w), w)
  pub set :
      (project : String) (p : Policy) (w : S) → G.iam.set_policy project p w ≡ (ok tt, put p w)
  pub policy-put : (p : Policy) (w : S) → policy (put p w) ≡ p
  pub once : (m : Action S (Unit {0})) (w w' : S) → m w ≡ (ok tt, w') → G.retry m w ≡ (ok tt, w')

-- The file of bindings is there, and holds these.
pub record HasFile {S : Type 0} (G : GcpServices S) (c : KfConfig) (iam : IamBindingsYaml)
    : Type 0 where
  pub contents : String
  pub stat : (w : S) → G.stat (bindings_file G c) w ≡ (ok there, w)
  pub read : (w : S) → G.iam.read_file (bindings_file G c) w ≡ (ok contents, w)
  pub parsed : G.iam.unmarshal contents ≡ ok iam

module _ {S : Type 0} (G : GcpServices S) (policy : S → Policy) (put : Policy → S → S)
    (cloud : Keeps G policy put) (c : KfConfig) where
  abbrev cleared : S → Policy
  cleared w = clear_iam_policy (policy w) c.name c.spec.project

  abbrev widened : Policy → S → Policy
  widened p w = rewrite_iam_policy G.range (policy w) p

  updated : IamBindingsYaml → S → S
  updated iam w = let w1 = put (cleared w) w in put (widened (policy_of G.range iam) w1) w1
