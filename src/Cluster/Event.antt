-- ===== src/Cluster/Event.antt =====
-- The calls that the controller makes, each with its arguments and its answer, and the options that
-- it passes to the provisioner (BucketOptions of pkg/provisioner/api/provisioner.go).
use lib_bucket_provisioner.Base.{Text, StringMap, Option, List}
use lib_bucket_provisioner.V1alpha1.{
  ObjectBucketClaim, ObjectBucket, Secret, ConfigMap, StorageClass,
}
use lib_bucket_provisioner.Cluster.Error.{Reply}

pub record BucketOptions : Type 0 where
  pub reclaim_policy : Option Text
  pub bucket_name : Text
  pub user_id : Text
  pub object_bucket_claim : Option ObjectBucketClaim
  pub parameters : StringMap

-- An item of the work queue: a key, or a value of another type.
pub data Item : Type 0 where
  key : Text → Item
  invalid : Item

pub data Event : Type 0 where
  -- ObjectBucketClaims(ns): Get, Update, UpdateStatus
  claim_got : Text → Text → Reply ObjectBucketClaim → Event
  claim_updated claim_status_updated : ObjectBucketClaim → Reply ObjectBucketClaim → Event
  -- ObjectBuckets(): Get, Create, Update, UpdateStatus, Delete
  bucket_got : Text → Reply ObjectBucket → Event
  bucket_created bucket_updated bucket_status_updated : ObjectBucket → Reply ObjectBucket → Event
  bucket_deleted : Text → Reply (Unit {0}) → Event
  -- Secrets(ns) and ConfigMaps(ns): Get, Create, Update
  secret_got : Text → Text → Reply Secret → Event
  secret_created secret_updated : Secret → Reply Secret → Event
  config_map_got : Text → Text → Reply ConfigMap → Event
  config_map_created config_map_updated : ConfigMap → Reply ConfigMap → Event
  -- StorageClasses(): Get
  class_got : Text → Reply StorageClass → Event
  -- api.Provisioner: GenerateUserID, Provision, Grant, Delete, Revoke
  user_id_generated : ObjectBucketClaim → Option ObjectBucket → Reply Text → Event
  provisioned granted : BucketOptions → Reply (Option ObjectBucket) → Event
  removed revoked : ObjectBucket → Reply (Unit {0}) → Event
  -- uuid.New()
  uuid_made : Text → Event
  -- workqueue: AddRateLimited, Forget, Done
  requeued forgotten finished : Item → Event

-- The newest event first.
abbrev pub Trace : Type 0
Trace = List Event
