-- ===== src/Lib.antt =====
-- lib-bucket-provisioner: a Kubernetes controller for ObjectBucketClaims (OBC). For a claim it has
-- an external provisioner make a bucket or grant access to one, and it keeps an ObjectBucket (OB),
-- a secret and a config map for it; it takes these back when the claim is deleted.
--
-- Parts and how they work together. The informer's events pass the filter of updateSupported and
-- put a claim's key in the work queue. The manager makes the clients, one informer factory for the
-- given namespace and the controller, and starts them. A worker takes a key and runs syncHandler,
-- which reads the claim and its storage class and calls handleProvisionClaim or handleDeleteClaim.
-- These two call the API server through resourcehandlers.go and helpers.go, and the provisioner.
--
-- Files and the code that they model:
--   Base                   Go strings as lists of bytes, `map[string]string` as a list of entries
--   V1alpha1               pkg/apis/objectbucket.io/v1alpha1: objectbucket_types.go,
--                          objectbucketclaim_types.go, the text of SchemeGroupVersion; Lists: the two
--                          list types
--   V1alpha1/DeepCopy      pkg/apis/objectbucket.io/v1alpha1/zz_generated.deepcopy.go; Shared:
--                          an ObjectBucket with the addresses of its pointers and maps
--   Cluster                the calls of the API server and of the provisioner
--                          (pkg/provisioner/api/provisioner.go), errors, and Go functions as
--                          functions from a world to an outcome and a world
--   Helpers                pkg/provisioner/helpers.go: Names (composeBucketName, labelValue, ...),
--                          Metadata (addFinalizers, removeFinalizer, addLabels), Ownership
--                          (makeObjectReference, bucketIsOwnedByClaim, ...), Lookups (claimForKey,
--                          storageClassForClaim, isNewBucketByObjectBucket, ...)
--   Handlers               pkg/provisioner/resourcehandlers.go: Objects (newBucketConfigMap,
--                          newCredentialsSecret), Create (createOrUpdate...), Release (release...,
--                          deleteObjectBucket), Update (updateClaim, the phases, getObFromKey,
--                          errIfObcConfigHasBeenModified)
--   Clientset              pkg/client/clientset/versioned: Claims and Buckets (objectbucketclaim.go,
--                          objectbucket.go of typed/objectbucket.io/v1alpha1) as the requests that
--                          they send (Rest), Fake (their fakes, as actions; Simple: NewSimpleClientset of
--                          clientset_generated.go), Versioned (either as versioned.Interface),
--                          Config (clientset.go, objectbucket.io_client.go), Calls (real and fake
--                          clients compared)
--   Informers              pkg/client/informers/externalversions: Factory (factory.go), Scoped
--                          (generic.go, interface.go, objectbucketclaim.go, objectbucket.go), Entries,
--                          Starts and Runs (a factory's life)
--   Listers                pkg/client/listers/objectbucket.io/v1alpha1
--   Controller             pkg/provisioner/controller.go: Resources (obcController, SetLabels,
--                          getExistingResourcesFromKey), Provision (handleProvisionClaim), Delete
--                          (handleDeleteClaim, deleteResources), Sync (syncHandler), Queue
--                          (processNextItemInQueue, runWorker, enqueueOBC, the worker count of
--                          Start), Watch (updateSupported, the UpdateFunc of NewController);
--                          Queue/Worker describes a worker's life as a relation, Naming repeats
--                          syncHandler for one key
--   Manager                pkg/provisioner/manager.go: SetLabels, Make (NewProvisioner,
--                          setupInformerFactory), Running (Run, RunWithContext and the goroutine of
--                          the controller's Start as steps)
--   ProvisionerErrors      pkg/provisioner/api/errors/errors.go
--   Scheme                 register.go of pkg/apis/objectbucket.io/v1alpha1 and of the packages scheme
--                          and fake in pkg/client/clientset/versioned
--   Tests                  concrete claims and environments
--
-- State. The world is a record `Env` of functions, one for each call, over a state of any type: a
-- call answers with a value or an error and may change the state in any way, so that other clients
-- of the API server are covered. Every call is logged with its arguments and its answer. A function
-- ends with a value, an error or a panic (a nil pointer). An error keeps what IsNotFound and
-- IsAlreadyExists tell apart. Whether the result beside an error of an object bucket's UpdateStatus is
-- nil, as for the fake client, is a parameter of the environment.
--
-- Bounds and fuel. The loops run over finite lists. The worker's loop takes the number of items that
-- it may handle at most, since it ends only when the queue is shut down; any number larger than that of
-- the items got before is enough. The decimal digits of a number n have the fuel n + 1, which is more
-- than it has digits. Ports are integers without a bound.
--
-- The clients of client-go under pkg/client are parameters: a REST client that answers requests, an
-- object tracker that answers actions, an indexer; so is apimachinery's scheme. The typed clients,
-- fakes, informers and listers are definitions over these. A timeout in seconds is multiplied modulo
-- 2^64. A factory's lock makes each of its operations one step. Run takes at most three steps and
-- RunWithContext five, in any order with those of the goroutine that calls Start and of the caller; a
-- return reads the named result, which the goroutine writes, after the deferred Flush.
--
-- Not modelled: the text of messages and logs, flags, the rate limiter, what a cache does with its
-- events, the codecs made of a scheme, and the workers of Start beside their number. uuid.New,
-- SplitMetaNamespaceKey, MetaNamespaceKeyFunc, IsValidLabelValue, Atoi and apiequality are parameters.
pub mod Base
pub mod V1alpha1
pub mod Cluster
pub mod Helpers
pub mod Handlers
pub mod Clientset
pub mod Informers
pub mod Listers
pub mod Controller
pub mod Manager
pub mod ProvisionerErrors
pub mod Scheme
pub mod Tests
