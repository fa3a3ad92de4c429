-- ===== src/Apps.antt =====
-- pkg/apis/apps/group.go: the interface of a package manager or a platform, and what may be asked of
-- one. A value of a Go interface is a record of its methods, each an action on the world.
use opendatahub_operator.Result.{Action}
use opendatahub_operator.Prelude.{String, Option}

-- The source's type is a string: a value may be none of the three names.
pub data ResourceEnum : Type 0 where
  all k8s platform : ResourceEnum
  other_resource : String → ResourceEnum

-- `Show` is of the interface `KfShow`, which not every implementation has.
pub record KfApp (S : Type 0) : Type 0 where
  pub apply : ResourceEnum → Action S (Unit {0})
  pub delete : ResourceEnum → Action S (Unit {0})
  pub dump : ResourceEnum → Action S (Unit {0})
  pub generate : ResourceEnum → Action S (Unit {0})
  pub init : ResourceEnum → Action S (Unit {0})
  pub show : Option (ResourceEnum → Action S (Unit {0}))

abbrev pub kfdef : String
kfdef = "KfDef"

abbrev pub kf_config_file : String
kf_config_file = "app.yaml"

abbrev pub gcp : String
gcp = "gcp"

abbrev pub aws : String
aws = "aws"

abbrev pub existing_arrikto : String
existing_arrikto = "existing_arrikto"

abbrev pub minikube : String
minikube = "minikube"
