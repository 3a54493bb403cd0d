-- ===== src/Listers.antt =====
-- listers/objectbucket.io/v1alpha1: objectbucketclaim.go and objectbucket.go. The indexer is
-- client-go's cache; a lister reads one state of it.
pub mod Laws
use lib_bucket_provisioner.Base.{Text, codes, Option, none, some, List, [], ◌∷◌, ◌++◌}
use lib_bucket_provisioner.V1alpha1.{ObjectBucket, ObjectBucketClaim}
use lib_bucket_provisioner.Cluster.Error.{Error, not_found, Reply, done, failed}
use lib_bucket_provisioner.Clientset.Fake.{appended}

pub record Indexer (A Selector : Type 0) : Type 0 where
  -- GetByKey: the object if it exists, or an error
  pub get_by_key : Text → Reply (Option A)
  -- cache.ListAll and cache.ListAllByNamespace: the objects on which they call the function, in order
  pub list_all : Selector → List A × Option Error
  pub list_all_by_namespace : Text → Selector → List A × Option Error

-- The calls of `func(m interface{}) { ret = append(ret, m) }`.
unfoldable pub append_all : {A : Type 0} → List A → Option (List A) → Option (List A)
append_all [] ret = ret
append_all (m ∷ ms) ret = append_all ms (some (appended ret m))

-- `if err != nil`, then `if !exists`.
unfoldable pub existing : {A : Type 0} → Reply (Option A) → Reply A
existing (failed err) = failed err
existing (done none) = failed not_found
existing (done (some obj)) = done obj

pub record ObjectBucketClaimLister (Selector : Type 0) : Type 0 where
  pub indexer : Indexer ObjectBucketClaim Selector

pub record ObjectBucketClaimNamespaceLister (Selector : Type 0) : Type 0 where
  pub indexer : Indexer ObjectBucketClaim Selector
  pub namespace : Text

pub record ObjectBucketLister (Selector : Type 0) : Type 0 where
  pub indexer : Indexer ObjectBucket Selector

module _ {Selector : Type 0} where
  unfoldable pub new_claim_lister :
      Indexer ObjectBucketClaim Selector → ObjectBucketClaimLister Selector
  new_claim_lister indexer = record { indexer = indexer }

  unfoldable pub list_claims :
      ObjectBucketClaimLister Selector → Selector → Option (List ObjectBucketClaim) × Option Error
  list_claims s selector = let (ms, err) = s.indexer.list_all selector in (append_all ms none, err)

  unfoldable pub object_bucket_claims :
      ObjectBucketClaimLister Selector → Text → ObjectBucketClaimNamespaceLister Selector
  object_bucket_claims s namespace = record { indexer = s.indexer; namespace = namespace }

  unfoldable pub list_claims_in :
      ObjectBucketClaimNamespaceLister Selector
      → Selector
      → Option (List ObjectBucketClaim) × Option Error
  list_claims_in s selector =
      let (ms, err) = s.indexer.list_all_by_namespace s.namespace selector in
      (append_all ms none, err)

  unfoldable pub get_claim :
      ObjectBucketClaimNamespaceLister Selector → Text → Reply ObjectBucketClaim
  get_claim s name = existing (s.indexer.get_by_key (s.namespace ++ (codes "/" ++ name)))

  unfoldable pub new_bucket_lister : Indexer ObjectBucket Selector → ObjectBucketLister Selector
  new_bucket_lister indexer = record { indexer = indexer }

  unfoldable pub list_buckets :
      ObjectBucketLister Selector → Selector → Option (List ObjectBucket) × Option Error
  list_buckets s selector = let (ms, err) = s.indexer.list_all selector in (append_all ms none, err)

  unfoldable pub get_bucket : ObjectBucketLister Selector → Text → Reply ObjectBucket
  get_bucket s name = existing (s.indexer.get_by_key name)
