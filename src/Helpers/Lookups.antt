-- ===== src/Helpers/Lookups.antt =====
-- helpers.go: what is read from the API server, by key or by claim, and the tests on storage
-- classes.
use lib_bucket_provisioner.Base.{
  Text, ◌==◌, index, Bool, false, if◌then◌else◌, Option, none, some, [],
}
use lib_bucket_provisioner.V1alpha1.{
  ObjectBucketClaim, ObjectBucket, Secret, ConfigMap, StorageClass, ObjectReference,
  storage_class_bucket,
}
use lib_bucket_provisioner.Cluster.Error.{
  Reply, done, failed, failure, class_nil_claim, class_claim_undefined, class_nil_bucket,
  class_bucket_undefined, class_get,
}
use lib_bucket_provisioner.Cluster.Env.{Env}
use lib_bucket_provisioner.Cluster.Monad.{M, pure, raise, lift, attempt, wrap, ◌>>=◌}
use lib_bucket_provisioner.Cluster.Calls.{get_claim, get_config_map, get_secret, get_storage_class}
use lib_bucket_provisioner.Helpers.Ownership.{make_object_reference}

unfoldable pub is_new_bucket_by_storage_class : StorageClass → Bool
is_new_bucket_by_storage_class class = index class.parameters storage_class_bucket == []

-- Without its storage class a bucket counts as an existing one.
unfoldable pub new_by_reply : Reply StorageClass → Bool
new_by_reply (failed e) = false
new_by_reply (done class) = is_new_bucket_by_storage_class class

module _ {E : Env} where
  unfoldable pub claim_for_key : Text → M E ObjectBucketClaim
  claim_for_key key = do (ns, name) ← lift (E.split_key key); get_claim ns name

  unfoldable pub claim_ref_for_key : Text → M E ObjectReference
  claim_ref_for_key key = do claim ← claim_for_key key; pure (make_object_reference claim)

  unfoldable pub config_map_for_claim_key : Text → M E ConfigMap
  config_map_for_claim_key key = do (ns, name) ← lift (E.split_key key); get_config_map ns name

  unfoldable pub secret_for_claim_key : Text → M E Secret
  secret_for_claim_key key = do (ns, name) ← lift (E.split_key key); get_secret ns name

  unfoldable pub storage_class_for_claim : Option ObjectBucketClaim → M E StorageClass
  storage_class_for_claim none = raise (failure class_nil_claim)
  storage_class_for_claim (some obc) =
      if obc.spec.storage_class_name == []
      then raise (failure class_claim_undefined)
      else wrap class_get (get_storage_class obc.spec.storage_class_name)

  unfoldable pub storage_class_for_object_bucket : Option ObjectBucket → M E StorageClass
  storage_class_for_object_bucket none = raise (failure class_nil_bucket)
  storage_class_for_object_bucket (some ob) =
      if ob.spec.storage_class_name == []
      then raise (failure class_bucket_undefined)
      else wrap class_get (get_storage_class ob.spec.storage_class_name)

  unfoldable pub is_new_bucket_by_object_bucket : ObjectBucket → M E Bool
  unfolding new_by_reply
  is_new_bucket_by_object_bucket ob = do
    class ← attempt (storage_class_for_object_bucket (some ob))
    pure (new_by_reply class)
