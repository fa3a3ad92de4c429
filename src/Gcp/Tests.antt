-- ===== src/Gcp/Tests.antt =====
-- The theorems at a cloud that is a policy and nothing else.
use opendatahub_operator.Result.{ok}
use opendatahub_operator.Strings.{join}
use opendatahub_operator.KfConfig.{KfConfig}
use opendatahub_operator.Controller.Simulation.{config}
use opendatahub_operator.Iam.{Policy, IamServices}
use opendatahub_operator.Iam.Tests.{in_order, two_bindings}
use opendatahub_operator.Gcp.{GcpServices, there}

abbrev iam_services : IamServices Policy
iam_services = record {
  get_policy = λ project w. (ok w, w);
  set_policy = λ project p w. (ok tt, p);
  get_account_policy = λ account w. (ok w, w);
  set_account_policy = λ account p w. (ok tt, p);
  read_file = λ file w. (ok "bindings", w);
  unmarshal = λ contents. ok two_bindings;
}

abbrev services : GcpServices Policy
services = record {
  iam = iam_services;
  range = in_order;
  path_join = join "/";
  stat = λ file w. (ok there, w);
  retry = λ m. m;
}

abbrev odh : KfConfig
odh = record config { name = "odh"; spec = record config.spec { project = "prj" } }
