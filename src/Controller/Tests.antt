-- ===== src/Controller/Tests.antt =====
-- The maps from events to requests, and the status, at concrete inputs.
use opendatahub_operator.Prelude.{String, ◌≡◌, refl, false, some, none, [], ◌∷◌, string_dec}
use opendatahub_operator.Result.{ok, panics, run}
use opendatahub_operator.Maps.{lookup}
use opendatahub_operator.Strings.{join}
use opendatahub_operator.Controller.{KfDef, Operator, nil_channel, instance_key}
use opendatahub_operator.Controller.Predicates.{Object}
use opendatahub_operator.Controller.Watch.{map_owned}
use opendatahub_operator.Controller.Watch.Owners.{queued, map_owned_annotated, map_owned_undotted}
use opendatahub_operator.Controller.Reconcile.Keys.{request_of}
use opendatahub_operator.Controller.Simulation.{World, world, instance_named, cluster}

abbrev odh : KfDef
odh = instance_named "odh" none

abbrev idle : Operator World
idle = record {
  cluster = record world { stored = some odh };
  kfdef_instances = [];
  b2nd_controller = false;
  stop = nil_channel;
}

abbrev route : String → Object
route owner = record {
  kind = "Route";
  name = "route";
  namespace = "ns";
  labels = [];
  annotations = ("kfctl.kubeflow.io/kfdef-instance", owner) ∷ [];
  owner_references = [];
}

map_owned_annotated_example :
    map_owned cluster (route "odh.ns") idle ≡ (ok (queued (request_of odh) (ok odh)), idle)
unfolding lookup instance_key join string_dec run
map_owned_annotated_example =
    map_owned_annotated cluster (route "odh.ns") idle odh (ok odh) idle.cluster refl
      (refl, (refl, (refl, tt))) (refl, (refl, tt)) refl

map_owned_undotted_example :
    map_owned cluster (route "odh") idle ≡ (panics "index out of range", idle)
unfolding lookup string_dec
map_owned_undotted_example =
    map_owned_undotted cluster (route "odh") idle "odh" refl (refl, (refl, (refl, tt)))
