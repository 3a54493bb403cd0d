-- ===== src/Controller/Watch.antt =====
-- controller.go: updateSupported, and the event handlers that NewController registers. What a
-- handler does is whether it queues the object that it is given.
pub mod Laws
use lib_bucket_provisioner.Base.{
  ◌==◌, deep_equal, is_none, Bool, true, false, ◌&&◌, not, if◌then◌else◌,
}
use lib_bucket_provisioner.V1alpha1.{ObjectBucketClaim, ObjectBucketClaimSpec}
use lib_bucket_provisioner.V1alpha1.DeepCopy.{deep_copy_claim_spec}

-- reflect.DeepEqual on claim specs
unfoldable pub spec_equal : ObjectBucketClaimSpec → ObjectBucketClaimSpec → Bool
spec_equal a b =
    a.storage_class_name == b.storage_class_name
    && (a.bucket_name == b.bucket_name
        && (a.generate_bucket_name == b.generate_bucket_name
            && (deep_equal a.additional_config b.additional_config
                && a.object_bucket_name == b.object_bucket_name)))

unfoldable pub update_supported : ObjectBucketClaim → ObjectBucketClaim → Bool
unfolding spec_equal
update_supported old new =
    if not (is_none new.meta.deletion_timestamp)
    then true
    else if spec_equal new.spec old.spec
    then false
    else if not (
        spec_equal
          (record (deep_copy_claim_spec old.spec) {
            additional_config = new.spec.additional_config;
          })
          new.spec)
    then false
    else true

-- UpdateFunc: whether the new claim is queued.
unfoldable pub queues_update : ObjectBucketClaim → ObjectBucketClaim → Bool
unfolding update_supported
queues_update old new =
    if new.meta.resource_version == old.meta.resource_version
    then false
    else if not (is_none new.meta.deletion_timestamp) && not (is_none old.meta.deletion_timestamp)
    then false
    else if not (update_supported old new)
    then false
    else true
