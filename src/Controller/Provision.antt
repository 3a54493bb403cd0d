-- ===== src/Controller/Provision.antt =====
-- controller.go: setOBCMetaFields and handleProvisionClaim, in the stages of its comments.
pub mod Order
pub mod Saving
pub mod Bind
pub mod Complete
pub mod Unmodified
pub mod Delivery
use lib_bucket_provisioner.Base.{Text, ◌==◌, index, if◌then◌else◌, Option, none, some, [], ◌∷◌}
use lib_bucket_provisioner.V1alpha1.{
  ObjectBucketClaim, ObjectBucket, StorageClass, storage_class_bucket, empty_bucket,
}
use lib_bucket_provisioner.V1alpha1.Phase
use lib_bucket_provisioner.V1alpha1.DeepCopy.{deep_copy_claim}
use lib_bucket_provisioner.Cluster.Error.{
  failure, claim_metadata, claim_find_bucket, compose_name, bucket_name_missing, claim_store_name,
  user_id, provisioning, empty_object_bucket, creating_secret, creating_config_map, claim_reference,
  creating_bucket, bucket_status, claim_final, claim_bound,
}
use lib_bucket_provisioner.Cluster.Event.{BucketOptions}
use lib_bucket_provisioner.Cluster.Env.{Env}
use lib_bucket_provisioner.Cluster.Monad.{
  blame_result, M, pure, raise, wrap, blame, deref, ◌>>=◌, ◌>>◌,
}
use lib_bucket_provisioner.Cluster.Calls.{generate_user_id, provision, grant, update_bucket_status}
use lib_bucket_provisioner.Helpers.Names.{compose_bucket_name, set_object_bucket_name}
use lib_bucket_provisioner.Helpers.Metadata.{finalizer, add_labels, add_finalizers}
use lib_bucket_provisioner.Helpers.Lookups.{claim_ref_for_key, is_new_bucket_by_storage_class}
use lib_bucket_provisioner.Handlers.Create.{
  create_or_update_object_bucket, create_or_update_secret, create_or_update_config_map,
}
use lib_bucket_provisioner.Handlers.Update.{
  store_claim, update_object_bucket_claim_phase, get_ob_from_key,
  err_if_obc_config_has_been_modified,
}
use lib_bucket_provisioner.Controller.Resources.{Controller}

-- The claim with the finalizer and the labels, as setOBCMetaFields sends it.
unfoldable pub with_meta_fields : Controller → ObjectBucketClaim → ObjectBucketClaim
with_meta_fields c obc =
    let copy = deep_copy_claim obc in
    record copy {
      meta = add_labels (add_finalizers copy.meta (finalizer ∷ [])) c.provisioner_labels;
    }

-- A missing reclaim policy is taken from the storage class.
unfoldable pub reclaim_policy_or : Option Text → Option Text → Option Text
reclaim_policy_or none default = default
reclaim_policy_or (some policy) default = if policy == [] then default else some policy

-- The object bucket as it is created or updated, but for its reference to the claim.
unfoldable pub completed_bucket :
    Env → Controller → Text → ObjectBucketClaim → StorageClass → ObjectBucket → ObjectBucket
unfolding reclaim_policy_or
completed_bucket E c key obc class provided =
    let ob = set_object_bucket_name E provided key in
    record ob {
      meta = add_finalizers (add_labels ob.meta c.provisioner_labels) (finalizer ∷ []);
      spec = record ob.spec {
        storage_class_name = obc.spec.storage_class_name;
        reclaim_policy = reclaim_policy_or ob.spec.reclaim_policy class.reclaim_policy;
      };
    }

unfoldable pub bucket_options : ObjectBucketClaim → StorageClass → Text → Text → BucketOptions
bucket_options obc class name id = record {
  reclaim_policy = class.reclaim_policy;
  bucket_name = name;
  user_id = id;
  object_bucket_claim = some (deep_copy_claim obc);
  parameters = class.parameters;
}

module _ {E : Env} where
  unfoldable pub set_obc_meta_fields : Controller → ObjectBucketClaim → M E ObjectBucketClaim
  set_obc_meta_fields c obc = wrap claim_metadata (store_claim (with_meta_fields c obc))

  -- The name of the bucket: new and composed, or given by the storage class.
  unfoldable pub choose_bucket_name : StorageClass → ObjectBucketClaim → M E Text
  choose_bucket_name class obc = do
    name ←
        if is_new_bucket_by_storage_class class
        then wrap compose_name (compose_bucket_name obc)
        else pure (index class.parameters storage_class_bucket)
    if name == [] then raise (failure bucket_name_missing) else pure name

  -- The name is stored in the claim before anything is provisioned.
  unfoldable pub store_bucket_name : ObjectBucketClaim → Text → M E ObjectBucketClaim
  store_bucket_name obc name =
      if obc.spec.bucket_name == []
      then wrap claim_store_name
          (store_claim (record obc { spec = record obc.spec { bucket_name = name } }))
      else pure obc

  -- Neither nil nor the zero value.
  unfoldable pub non_empty : Option ObjectBucket → M E ObjectBucket
  non_empty none = raise (failure empty_object_bucket)
  non_empty (some ob) =
      if E.semantic_equal ob empty_bucket then raise (failure empty_object_bucket) else pure ob

  -- Provision for a new bucket, Grant for an existing one.
  unfoldable pub run_provisioner :
      ObjectBucketClaim → Option ObjectBucket → StorageClass → Text → M E ObjectBucket
  run_provisioner obc ob class name = do
    id ← wrap user_id (generate_user_id obc ob)
    let options = bucket_options obc class name id
    provided ←
        wrap provisioning
          (if is_new_bucket_by_storage_class class then provision options else grant options)
    non_empty provided

  -- The secret and the config map.
  unfoldable pub save_connection : Controller → ObjectBucketClaim → ObjectBucket → M E (Unit {0})
  save_connection c obc ob = do
    connection ← deref ob.spec.connection
    wrap creating_secret
        (create_or_update_secret obc connection.authentication c.provisioner_labels)
    wrap creating_config_map
        (create_or_update_config_map obc connection.endpoint c.provisioner_labels)

  -- The object bucket with its reference to the claim, and then its phase.
  unfoldable pub save_bucket :
      Controller → Text → ObjectBucketClaim → StorageClass → ObjectBucket → M E ObjectBucket
  save_bucket c key obc class provided = do
    let ob = completed_bucket E c key obc class provided
    ref ← wrap claim_reference (claim_ref_for_key key)
    saved ← wrap creating_bucket (
        create_or_update_object_bucket
          (record ob { spec = record ob.spec { claim_ref = some ref } }))
    blame_result E.status_result_nil bucket_status
        (update_bucket_status (record saved { status = record { phase = Phase.bound } }))

  -- The claim's reference to the object bucket, and then its phase.
  unfoldable pub bind_claim : ObjectBucketClaim → ObjectBucket → Text → M E (Unit {0})
  bind_claim obc ob name = do
    stored ← wrap claim_final (
        store_claim (record obc {
          spec = record obc.spec { object_bucket_name = ob.meta.name; bucket_name = name };
        }))
    wrap claim_bound (update_object_bucket_claim_phase stored Phase.bound)
    pure tt

  unfoldable pub handle_provision_claim :
      Controller → Text → ObjectBucketClaim → StorageClass → M E (Unit {0})
  handle_provision_claim c key given class = do
    marked ← set_obc_meta_fields c given
    ob ← blame claim_find_bucket (get_ob_from_key key)
    err_if_obc_config_has_been_modified ob marked
    name ← choose_bucket_name class marked
    obc ← store_bucket_name marked name
    provided ← run_provisioner obc ob class name
    save_connection c obc provided
    saved ← save_bucket c key obc class provided
    bind_claim obc saved name
