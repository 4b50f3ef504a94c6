-- ===== src/Lib.antt =====
-- The RabbitMQ cluster operator, the Go program under
-- deployment/cloud/k8/data-services/rabbitmq/setup/install_commericial/cluster-operator (the paths
-- below start there). A RabbitmqCluster object says which cluster is wished; the operator's
-- reconcile loop computes the child resources (labels, service, StatefulSet, config maps, secret)
-- from it, scales the storage, and reports the state of the children in the conditions of the
-- object's status.
--
-- Which file models what:
--   Prelude               names of the libraries, tests, lists, maps, text, decimal numbers
--   Kube                  what the operator sees of the Kubernetes API: objects (Kube.Objects), errors
--                         (Kube.Error), pods (Kube.Pods), calls that change a world and may fail
--                         (Kube.Exec), functions that may fail or panic (Kube.Outcome)
--   Metadata              internal/metadata/label.go and annotation.go
--   Status                internal/status: the four conditions, each from the child resources
--   ClusterStatus         api/v1beta1/rabbitmqcluster_status.go: SetConditions, SetCondition
--   Cluster               api/v1beta1/rabbitmqcluster_types.go: the specification and its methods
--   Override              api/v1beta1/rabbitmqcluster_types.go: the override of the StatefulSet
--   Resource.ServicePorts   internal/resource/service.go: the ports of the client service
--   Resource.ClientService  internal/resource/service.go: Build, Update and the override
--   Resource.ContainerPorts internal/resource/statefulset.go: the ports of the RabbitMQ container
--   Resource.StatefulSets   internal/resource/statefulset.go: Build and Update, with the override in
--                           Resource.PodPatch and the two sorts in Resource.Order
--   Resource.PodTemplate    internal/resource/statefulset.go: podTemplateSpec, with its parts in
--                           Resource.Volumes, Resource.Containers and Resource.Vault
--   Resource.Accounts       internal/resource/service_account.go, role.go and role_binding.go
--   Resource.HeadlessService, Resource.ErlangCookie
--                           internal/resource/headless_service.go and erlang_cookie.go
--   Resource.Plugins        internal/resource/rabbitmq_plugins.go, with the config map in its File
--   Resource.ServerConfig   internal/resource/configmap.go: the settings, with the config map in its
--                           Files
--   Resource.Ini            what is called of the package gopkg.in/ini.v1
--   Resource.Headroom       internal/resource/configmap.go: removeHeadroom
--   Resource.Builders       internal/resource/rabbitmq_resource_builder.go
--   Resource.DefaultUser    internal/resource/default_user_secret.go: updatePorts, with Build and
--                           Update in its Secret
--   Scaling               internal/scaling/scaling.go, every function
--   Controllers           controllers: the operator's record and the state of its loop, with
--     OperatorDefaults      reconcile_operator_defaults.go
--     TlsCheck              reconcile_tls.go
--     Deletion              reconcile_finalizer.go and statefulSetUID of utils.go
--     ScaleDown             reconcile_scale_down.go
--     Steps                 what a step of Reconcile replies
--     Stages, Reconcile     Reconcile of rabbitmqcluster_controller.go, and reconcilePVC
--     Children              the builders as Reconcile calls them, and the index of owned objects
--     Access                the other functions of utils.go
--     Configurations        reconcile_rabbitmq_configurations.go
--     Commands              reconcile_cli.go
--     UserReferences        reconcile_status.go
--     QueueRebalance        the tests of reconcile_cli.go and markForQueueRebalance
--     StatusConditions      updateStatusConditions and getChildResources of
--                           rabbitmqcluster_controller.go
--   EntryPoint            main.go, pkg/profiling/pprof.go and SetupWithManager
--   Tests                 the theorems at concrete inputs, among them a run of Scale on a small server
-- A function keeps its Go name in snake case. A child module holds the proofs about its parent.
--
-- Calls of the API server are the fields of a record (Scaling.ScalerClient, Controllers.Reconciler)
-- over an arbitrary world `W`; what the code relies on of them is in Scaling.Claims.PvcLaws,
-- Controllers.Deletion.Laws.FinalizerLaws and ServerFinalizers,
-- Controllers.OperatorDefaults.Laws.StoresSpec, Controllers.QueueRebalance.Laws.StoresAnnotations,
-- Controllers.UserReferences.Settled.StoresStatus and ServerStatus,
-- Controllers.Configurations.Restarts.RestartLaws and Controllers.Commands.Plugins.PodLaws, which the
-- modules under Tests fill for small servers. The packages that the builder of the StatefulSet calls
-- are Resource.StatefulSets.Packages, with Resource.StatefulSets.Startable.PackageLaws; what is asked
-- of the owner references of other children is Resource.Accounts.Granted.ReferenceLaws,
-- Resource.HeadlessService.Found.ServiceLaw and Controllers.Children.Indexed.OwnerLaws, and of ini
-- files Resource.ServerConfig.Precedence.IniLaws; what starts the operator is EntryPoint.Packages. A
-- handler of the loop works on the cluster object behind its pointer and on the world
-- (Controllers.Loop): what it writes to the object stays there if a later call fails. `time.Now()`
-- is an argument, or a field that reads the world. A Go map is an association list in which a key
-- may be asked to stand once, and a `range` over it follows the list, but for the profiling endpoints,
-- whose order is a parameter. A nil map
-- is the empty list; where the code writes to a map of an object that it has read (Data of the default
-- user's secret, the requests of a claim template) the empty list panics as nil does, since the API
-- leaves out empty maps. Quantities and int32 counts
-- are natural numbers, as the validation of the API has them; a time.Duration is the bits of an int64.
--
-- Bounds and fuel: `decimal n` runs on fuel n + 1, which exceeds the number of digits of n; `split`
-- runs on one more than the length of its text; the poll of deleteSts is the source's 10 rounds;
-- all other loops are structural.
--
-- Not modelled: flags and logging; affinity and tolerations, which are only copied;
-- the ini package, strategic merge patches, the API server, owner references and random texts
-- (third-party packages), which are parameters; pod execution itself, generated copies, the C#
-- applications and the scripts.
pub mod Prelude
pub mod Kube
pub mod Metadata
pub mod Status
pub mod ClusterStatus
pub mod Override
pub mod Cluster
pub mod Resource
pub mod Scaling
pub mod Controllers
pub mod EntryPoint
pub mod Tests
