-- ===== src/Cluster/Env.antt =====
-- The world outside the controller, as a parameter: each call may change its state in any way,
-- which covers what other clients of the API server do in the meantime. A call returns (it does not
-- panic), and does not write to the values that it is given.
use lib_bucket_provisioner.Base.{Text, Bool, Option}
use lib_bucket_provisioner.V1alpha1.{
  ObjectMeta, ObjectBucketClaim, ObjectBucket, Secret, ConfigMap, StorageClass,
}
use lib_bucket_provisioner.Cluster.Error.{Reply}
use lib_bucket_provisioner.Cluster.Event.{BucketOptions, Item}

pub record Env : Type 1 where
  pub State : Type 0
  pub get_claim : Text → Text → State → Reply ObjectBucketClaim × State
  pub update_claim : ObjectBucketClaim → State → Reply ObjectBucketClaim × State
  pub update_claim_status : ObjectBucketClaim → State → Reply ObjectBucketClaim × State
  pub get_bucket : Text → State → Reply ObjectBucket × State
  pub create_bucket : ObjectBucket → State → Reply ObjectBucket × State
  pub update_bucket : ObjectBucket → State → Reply ObjectBucket × State
  pub update_bucket_status : ObjectBucket → State → Reply ObjectBucket × State
  -- whether the result beside an error of UpdateStatus is nil: the typed client returns a pointer to a
  -- zero value there, its fake nil
  pub status_result_nil : Bool
  pub delete_bucket : Text → State → Reply (Unit {0}) × State
  pub get_secret : Text → Text → State → Reply Secret × State
  pub create_secret : Secret → State → Reply Secret × State
  pub update_secret : Secret → State → Reply Secret × State
  pub get_config_map : Text → Text → State → Reply ConfigMap × State
  pub create_config_map : ConfigMap → State → Reply ConfigMap × State
  pub update_config_map : ConfigMap → State → Reply ConfigMap × State
  pub get_storage_class : Text → State → Reply StorageClass × State
  pub generate_user_id : ObjectBucketClaim → Option ObjectBucket → State → Reply Text × State
  pub provision : BucketOptions → State → Reply (Option ObjectBucket) × State
  pub grant : BucketOptions → State → Reply (Option ObjectBucket) × State
  pub remove : ObjectBucket → State → Reply (Unit {0}) × State
  pub revoke : ObjectBucket → State → Reply (Unit {0}) × State
  pub new_uuid : State → Text × State
  -- workqueue.Get: no item once the queue is shut down
  pub next_item : State → Option Item × State
  -- cache.SplitMetaNamespaceKey: namespace and name
  pub split_key : Text → Reply (Text × Text)
  -- cache.MetaNamespaceKeyFunc, on the metadata
  pub meta_namespace_key : ObjectMeta → Reply Text
  -- apiequality.Semantic.DeepEqual
  pub semantic_equal : ObjectBucket → ObjectBucket → Bool
