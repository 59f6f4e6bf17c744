-- ===== src/Lib.antt =====
-- Espejote: a Kubernetes controller. A ManagedResource holds a Jsonnet template, triggers and contexts;
-- for each one a controller of its own watches what the triggers name, renders the template and applies
-- the objects that it returns. Admissions hold templates that answer requests of the API server.
--
-- The parts, from the data inward to the controllers:
--
-- - Api: the ManagedResource and the accessors of api/v1alpha1/managed_resource_types.go.
-- - Applygroup: controllers/applygroup/applygroup.go. Data is the tree of objects that a template
--   returns, Options reads the options of one object, Decode is UnmarshalJSONFrom, Walk and Apply are
--   the methods of that name. The cluster is a state that the calls of a client change; a tree's calls
--   and its depth-first order are described by themselves in Apply/Calls and Walk/Order.
-- - Importer: controllers/jsonnet.go, the importer of JsonnetLibrary manifests: the path that an import
--   means, the manifest that the path names, and the cache.
-- - Selection: which objects a cache holds, as newCacheForResourceAndRESTClient and
--   wrapNewInformerWithFilter of controllers/managedresource_controller_manager.go configure it, and
--   as objectSelectorForClusterResource of cmd/render.go has it for the command line.
-- - Renderer: the Renderer of controllers/managedresource_controller.go, with the values that a
--   template sees (jsonValueToJsonnetNode) in Nodes and what they evaluate to in Meaning.
-- - Reconciler: ManagedResourceReconciler of controllers/managedresource_controller.go, the instance
--   for one resource. `reconcile_inner` is its reconcile, and Status has Reconcile and
--   recordReconcileErr, the status, the events and the counters.
-- - Manager: ManagedResourceControllerManager of controllers/managedresource_controller_manager.go.
--   The root has the map of controllers, the contexts that bound their lifetimes, and
--   ensureInstanceControllerFor; Caches has cacheFor, Requests has Reconcile and recordErr, Tokens has
--   tokenRefreshRoundTripper, and Duplicates has findFirstDuplicate. Spec says what is promised of all
--   this, as which configuration each resource runs with. Concurrent cuts Reconcile into the turns that
--   the goroutines of the instances can come between, with all their orders as a step relation.
-- - Admission: AdmissionReconciler of controllers/admission_controller.go, in Order what it sorts by, and
--   in Handler the handler of admission/handler.go with its counter.
-- - Native: internal/jsonnet and applyPatchNativeFunction of admission/handler.go, the functions that
--   templates call.
-- - Cli: cmd/render.go and cmd/collect_input.go. The root renders from an input, with the importer and
--   the reader of static content; Selecting is objectSelectingReader, Collect is collectInput,
--   Libraries what the importer leaves for an input, Live the rendering with the importer that reads the
--   cluster, and Commands the two commands behind their flags.
-- - Metrics: the two collectors of controllers/metrics.go, as the metrics that they emit.
-- - Base and Kube: tests, results, lists and texts, and what is taken from the Kubernetes libraries.
-- - Tests: sample data, runs, and the theorems at concrete inputs.
--
-- How they interact: the manager makes an instance's caches by Selection and hands it requests; the
-- instance reads its resource, renders it (Renderer, Importer), decodes, walks and applies the result
-- (Applygroup), and records the outcome. Reconciler computes the hash as Manager does, and takes the
-- renderer as a field of an environment, whose code is `render` of Renderer.
-- The commands of Cli select objects as Selection does, and render with the Renderer, from readers and
-- libraries of their own; the collectors of Metrics read the caches of the manager's instances.
--
-- Correspondence: a function of Go has its name in lower case with underscores; a mutex, a map or a
-- counter that a function changes is part of a state that it takes and returns; an error is a value
-- that keeps the place it was made and its cause, but not its text. Maps are association lists.
-- Texts that are cut apart are lists of bytes in Importer, and native strings elsewhere.
--
-- Parameters stand for code that is not in the repository: unstructured objects (Kube, with the
-- documented laws of their setters), the API client, the JSON decoder, whose view of the input is a
-- tree of tokens, the Jsonnet VM, md5 and the JSON encoders, and the controller runtime with its caches,
-- watches and responses. An int64 that is only passed on is its bit pattern; durations and times are
-- natural numbers of nanoseconds. What other goroutines do to a token is a function where Manager/Tokens
-- has one call of RoundTrip; Tokens/Shared has all goroutines that share the token.
--
-- All functions are structural recursions over lists and trees, so that none has fuel.
-- What goroutines do in any order is a step relation: Manager/Concurrent for the manager and its
-- instances, Manager/Tokens/Shared for a token. Elsewhere a function is one step.
--
-- Not modelled: cmd/controller.go with its flags and wiring, the flags and files of the other commands,
-- the bcrypt copy, which is of another project, generated code, log lines, and the end of the process.
pub mod Base
pub mod Kube
pub mod Api
pub mod Applygroup
pub mod Importer
pub mod Selection
pub mod Renderer
pub mod Reconciler
pub mod Manager
pub mod Admission
pub mod Native
pub mod Cli
pub mod Metrics
mod Tests
