-- ===== src/Informers.antt =====
-- pkg/client/informers/externalversions: the shared informers. This file has what the factory and the
-- informers of the two kinds share; Factory is factory.go, Scoped the informers of a namespace with
-- generic.go, Entries,
-- Starts and Runs the starts over a factory's life.
use lib_bucket_provisioner.Base.{ℕ, Bool, true, false, Option, none, some, List, [], ◌∷◌}
use lib_bucket_provisioner.V1alpha1.Lists.{ObjectBucketList, ObjectBucketClaimList}
use lib_bucket_provisioner.Cluster.Error.{Error, Reply}
use lib_bucket_provisioner.Clientset.Rest.{ListOptions}
use lib_bucket_provisioner.Clientset.Versioned.{Versioned}
pub mod Factory
pub mod Scoped
pub mod Entries
pub mod Starts
pub mod Runs

-- The reflect.Type of a pointer to an object.
pub data Kind : Type 0 where
  bucket claim : Kind

abbrev pub same : Kind → Kind → Bool
same Kind.bucket Kind.bucket = true
same Kind.claim Kind.claim = true
same _ _ = false

-- A Go map from types: at most one entry for a key.
module _ {A : Type 0} where
  unfoldable pub find : Kind → List (Kind × A) → Option A
  find k [] = none
  find k ((k', a) ∷ m) = elim (same k k') [ true ↦ some a | false ↦ find k m ]

  unfoldable pub put : Kind → A → List (Kind × A) → List (Kind × A)
  put k a [] = (k, a) ∷ []
  put k a ((k', b) ∷ m) = elim (same k k') [ true ↦ (k, a) ∷ m | false ↦ (k', b) ∷ put k a m ]

-- runtime.Object and watch.Interface of the ListWatch functions.
pub data Listed : Type 0 where
  claims : Option ObjectBucketClaimList → Listed
  buckets : Option ObjectBucketList → Listed

-- cache.Indexers with cache.MetaNamespaceIndexFunc
pub data Indexer : Type 0 where
  namespace_index : Indexer

-- The arguments of cache.NewSharedIndexInformer.
pub record SharedInformer (V : Versioned) : Type 0 where
  pub list_func : ListOptions → V.State → (Listed × Option Error) × V.State
  pub watch_func : ListOptions → V.State → Reply V.Watcher × V.State
  pub object : Kind
  pub resync_period : ℕ
  pub indexers : List Indexer

-- internalinterfaces.TweakListOptionsFunc, which changes the options in place; it may be nil.
abbrev pub Tweak : Type 0
Tweak = Option (ListOptions → ListOptions)

unfoldable pub tweaked : Tweak → ListOptions → ListOptions
tweaked none options = options
tweaked (some tweak) options = tweak options
