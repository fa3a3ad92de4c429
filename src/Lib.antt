-- ===== src/Lib.antt =====
-- Open Data Hub operator: the controller of KfDef resources, the configuration that it loads, and the
-- order in which it installs resources.
--
-- The program. A KfDef resource names applications to deploy. The controller (pkg/controller/kfdef)
-- gets an event for a KfDef or for a resource that belongs to one, maps it to a request, and
-- `Reconcile` deploys, deletes or uninstalls. It writes the resource to a file, loads it by
-- pkg/kfconfig/loaders into the internal configuration of pkg/kfconfig/types.go, and calls the
-- coordinator of pkg/kfapp/coordinator, which calls a platform and the package managers.
--
-- The files.
--   Errors        pkg/apis/kferrors.go, and the API server's errors that the code tells apart
--   Result        what a Go function returns: a value, an error or a panic; actions on a world, and
--                 rules for what an action keeps (Result/Keeps)
--   Strings, Maps functions of Go's `strings` package, and Go's maps with string keys
--   Apps          pkg/apis/apps/group.go: the interface of a package manager or a platform
--   KfConfig      pkg/kfconfig/types.go. The types are in KfConfig, the conditions and plugin states in
--                 KfConfig/Conditions, the parameters of applications in KfConfig/Parameters, removal of
--                 applications and their overlays in KfConfig/Applications, secrets in KfConfig/Secrets,
--                 the specifications of plugins in KfConfig/Plugins, the download of repositories in
--                 KfConfig/Caches, and the parameters of stacks, which are in files, in KfConfig/Stacks
--   KindSorter    pkg/utils/kindsorter.go
--   Coordinator   pkg/kfapp/coordinator/coordinator.go: the methods of the coordinator, over its platforms
--                 and package managers. Coordinator/Log and Coordinator/Plans have the abstract view,
--                 a log of the calls and the plan of each method, and Coordinator/Build builds a
--                 coordinator from a file
--   Loaders       pkg/kfconfig/loaders and the KfDef types of pkg/apis/apps/kfdef/v1: the types and their
--                 accessors in Loaders/Types and Loaders/Accessors, the converters in Loaders/Convert,
--                 both versions in Loaders/Versions, the file in Loaders/Files
--   Iam, Gcp      pkg/utils/iamutils.go, the access policies of a Google Cloud project, and what
--                 pkg/kfapp/gcp/gcp.go does to the policy in `Apply` and `Delete`
--   Upgrade       pkg/kfupgrade/kfupgrade.go: `MergeKfCfg`, and the methods of an upgrade in
--                 Upgrade/Steps
--   Controller    pkg/controller/kfdef: the types and the interface `Cluster` of what the controller
--                 calls. Controller/Predicates and Controller/Watch have the predicates and the maps of
--                 events, Controller/Status the status, Controller/Deploy `kfApply`, `kfDelete` and
--                 `kfLoadConfig`, Controller/Uninstall `operatorUninstall` and what it calls, and
--                 Controller/Reconcile `Reconcile`, in one definition for each of its steps
--
-- How state is modelled. A method that changes an object returns the new object. The controller's
-- variables (`kfdefInstances`, `b2ndController`, `stop`) are the record `Operator`, beside the state
-- of the cluster, which is a parameter: `Cluster` has an action for each call of the API server's
-- client, of the file system and of the libraries. An action's changes stay when it returns an error,
-- and a panic ends all. A Go map that is ranged over is the list of its keys in the order of the
-- range, which the theorems leave open. Time is an argument. `Controller/Simulation` is one concrete
-- cluster with one client, at which the theorems are tried; the removal of the finalizer is tried at a
-- server that other clients write to, in Controller/Reconcile/FinalizerRemoval/Tests.
--
-- Bounds. The loop on update conflicts has the source's own bound, `finalizerMaxRetries`. `decimal`
-- takes one digit from each round, with one round more than the number, which is at least its number
-- of digits. All other loops are recursions on a list.
--
-- Not modelled. Logging. The goroutine of the second controller after its start. The converter of
-- v1alpha1 and its types: a version that `LoadConfigFromURI` refuses, so that the converter is a field
-- of an interface. The platforms aws, existing_arrikto, minikube and dockerfordesktop, the rest of the
-- platform gcp, and the kustomize package manager are calls of vendors' and kustomize's libraries. Of
-- an upgrade, the search for the configurations on the disk and the hash that names a directory. The
-- mirror of images and the functions of kustomize-fns, which stand beside the operator and work on
-- YAML documents. The command line only reads flags and sets libraries up.
pub mod Prelude
pub mod Errors
pub mod Result
pub mod Strings
pub mod Maps
pub mod Apps
pub mod KfConfig
pub mod KindSorter
pub mod Coordinator
pub mod Loaders
pub mod Iam
pub mod Gcp
pub mod Upgrade
pub mod Controller
