-- ===== src/Controller/Watch/Laws.antt =====
-- What changes of a claim reach the work queue.
use lib_bucket_provisioner.Base.{
  ◌==◌, ==_iff, deep_equal, deep_equal_refl, is_none, Bool, ◌&&◌, ◌||◌, not, if◌then◌else◌, ◌≡◌,
  arith,
}
use lib_bucket_provisioner.V1alpha1.{ObjectBucketClaim, ObjectBucketClaimSpec}
use lib_bucket_provisioner.V1alpha1.DeepCopy.{deep_copy_claim_spec}
use lib_bucket_provisioner.Controller.Watch.{update_supported, queues_update}

-- The fields of two specs agree, but for additionalConfig.
abbrev pub same_but_config : ObjectBucketClaimSpec → ObjectBucketClaimSpec → Bool
same_but_config a b =
    a.storage_class_name == b.storage_class_name
    && (a.bucket_name == b.bucket_name
        && (a.generate_bucket_name == b.generate_bucket_name
            && a.object_bucket_name == b.object_bucket_name))

-- An update is supported exactly when the new claim is being deleted, or when its spec differs from
-- the old one in additionalConfig and in nothing else.
pub update_supported_lem :
    (old new : ObjectBucketClaim)
    → update_supported old new ≡ (
        not (is_none new.meta.deletion_timestamp)
        || (same_but_config old.spec new.spec
            && not (deep_equal new.spec.additional_config old.spec.additional_config)))
unfolding update_supported deep_copy_claim_spec
update_supported_lem old new = ground (
  arith,
  deep_equal_refl new.spec.additional_config,
  ==_iff old.spec.storage_class_name new.spec.storage_class_name,
  ==_iff new.spec.storage_class_name old.spec.storage_class_name,
  ==_iff old.spec.bucket_name new.spec.bucket_name,
  ==_iff new.spec.bucket_name old.spec.bucket_name,
  ==_iff old.spec.generate_bucket_name new.spec.generate_bucket_name,
  ==_iff new.spec.generate_bucket_name old.spec.generate_bucket_name,
  ==_iff old.spec.object_bucket_name new.spec.object_bucket_name,
  ==_iff new.spec.object_bucket_name old.spec.object_bucket_name,
)

-- An update queues the new claim exactly when its resource version is new, and either its deletion
-- has just begun, or it is not being deleted and its spec has changed in additionalConfig and in
-- nothing else.
pub queues_update_lem :
    (old new : ObjectBucketClaim)
    → queues_update old new ≡ (
        not (new.meta.resource_version == old.meta.resource_version)
        && (if is_none new.meta.deletion_timestamp
            then same_but_config old.spec new.spec
              && not (deep_equal new.spec.additional_config old.spec.additional_config)
            else is_none old.meta.deletion_timestamp))
unfolding queues_update
queues_update_lem old new = ground (arith, update_supported_lem old new)
