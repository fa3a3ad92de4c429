-- ===== src/Controller/Predicates.antt =====
-- pkg/controller/kfdef/kfdef_controller.go: the predicates that choose which events reach the
-- controllers. `meta.Accessor` fails for what is no API object; an object is then `none`.
use opendatahub_operator.Prelude.{
  String, Bool, true, false, Option, none, some, List, [], ◌∷◌, ◌==◌, if◌then◌else◌,
}
use opendatahub_operator.Result.{Result, ok, panics}
use opendatahub_operator.Maps.{lookup}
use opendatahub_operator.Controller.{delete_config_map_label}

pub record Object : Type 0 where
  pub kind : String
  pub name : String
  pub namespace : String
  pub labels : List (String × String)
  pub annotations : List (String × String)
  pub owner_references : List String

pub data Event : Type 0 where
  create_event : Option Object → Event
  generic_event : Option Object → Event
  delete_event : Option Object → Event
  -- the old object
  update_event : Option Object → Event

-- The name of the object is logged first: without one, a method of a nil interface is called.
accessed : Option Object → Bool → Result Bool
accessed none b = panics "invalid memory address or nil pointer dereference"
accessed (some _) b = ok b

unfoldable pub kfdef_predicates : Event → Result Bool
unfolding accessed
kfdef_predicates (create_event o) = accessed o true
kfdef_predicates (generic_event o) = accessed o true
kfdef_predicates (delete_event o) = accessed o false
kfdef_predicates (update_event o) = accessed o true

is_true : Option String → Bool
is_true none = false
is_true (some val) = val == "true"

-- The label that asks for the removal of the operator, set to "true".
unfoldable pub has_delete_label : Object → Bool
unfolding is_true
has_delete_label o = is_true (lookup delete_config_map_label o.labels)

has_no_owner : List String → Bool
has_no_owner [] = true
has_no_owner (_ ∷ _) = false

unfoldable pub owned_resource_predicates : Event → Bool
unfolding has_no_owner
owned_resource_predicates (create_event none) = false
owned_resource_predicates (create_event (some o)) =
    if o.kind == "ConfigMap" then has_delete_label o else false
owned_resource_predicates (generic_event _) = false
owned_resource_predicates (delete_event none) = false
owned_resource_predicates (delete_event (some o)) = has_no_owner o.owner_references
owned_resource_predicates (update_event none) = false
owned_resource_predicates (update_event (some o)) = has_no_owner o.owner_references
