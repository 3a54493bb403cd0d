-- ===== src/Handlers/Update.antt =====
-- resourcehandlers.go: updateClaim, updateObjectBucketClaimPhase, updateObjectBucketPhase,
-- getObFromKey, errIfObcConfigHasBeenModified. Where a function returns its argument beside an
-- error, all callers return at that error, so that only the error is kept.
use lib_bucket_provisioner.Base.{Text, ◌==◌, not, if◌then◌else◌, Option, none, some}
use lib_bucket_provisioner.V1alpha1.{ObjectBucketClaim, ObjectBucket}
use lib_bucket_provisioner.V1alpha1.DeepCopy.{deep_copy_bucket, deep_copy_claim}
use lib_bucket_provisioner.Cluster.Error.{
  Reply, done, failed, failure, wrapped, is_not_found, claim_update, claim_phase_update,
  bucket_phase_update, bucket_name_from_key, bucket_get, bucket_name_changed, storage_class_changed,
}
use lib_bucket_provisioner.Cluster.Env.{Env}
use lib_bucket_provisioner.Cluster.Monad.{M, pure, raise, lift, attempt, wrap, deref, ◌>>=◌}
use lib_bucket_provisioner.Cluster.Calls.{
  update_claim, update_claim_status, get_bucket, update_bucket_status,
}
use lib_bucket_provisioner.Helpers.Names.{object_bucket_name_from_claim_key}

module _ {E : Env} where
  unfoldable pub store_claim : ObjectBucketClaim → M E ObjectBucketClaim
  store_claim obc = wrap claim_update (update_claim obc)

  unfoldable pub update_object_bucket_claim_phase : ObjectBucketClaim → Text → M E ObjectBucketClaim
  update_object_bucket_claim_phase obc phase =
      wrap claim_phase_update
        (update_claim_status (record (deep_copy_claim obc) { status = record { phase = phase } }))

  unfoldable pub update_object_bucket_phase : ObjectBucket → Text → M E ObjectBucket
  update_object_bucket_phase ob phase =
      wrap bucket_phase_update
        (update_bucket_status (record (deep_copy_bucket ob) { status = record { phase = phase } }))

  -- No object bucket is no error.
  unfoldable pub found_bucket : Reply ObjectBucket → M E (Option ObjectBucket)
  found_bucket (done ob) = pure (some ob)
  found_bucket (failed e) = if is_not_found e then pure none else raise (wrapped bucket_get e)

  unfoldable pub get_ob_from_key : Text → M E (Option ObjectBucket)
  get_ob_from_key key = do
    name ← wrap bucket_name_from_key (lift (object_bucket_name_from_claim_key E key))
    ob ← attempt (get_bucket name)
    found_bucket ob

  -- Reading the bucket name goes through two pointers, either of which may be nil.
  unfoldable pub err_if_obc_config_has_been_modified :
      Option ObjectBucket → ObjectBucketClaim → M E (Unit {0})
  err_if_obc_config_has_been_modified none obc = pure tt
  err_if_obc_config_has_been_modified (some ob) obc = do
    connection ← deref ob.spec.connection
    endpoint ← deref connection.endpoint
    if not (obc.spec.bucket_name == endpoint.bucket_name)
        then raise (failure bucket_name_changed)
        else if not (obc.spec.storage_class_name == ob.spec.storage_class_name)
        then raise (failure storage_class_changed)
        else pure tt
