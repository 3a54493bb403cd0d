-- ===== src/Handlers/Emits.antt =====
-- What the functions of resourcehandlers.go and helpers.go log, on every branch: for each, the
-- events that suffice for a condition `P` to hold of all that it logs.
use lib_bucket_provisioner.Base.{Text, StringMap, Option, none, some}
use lib_bucket_provisioner.V1alpha1.{
  ObjectBucketClaim, ObjectBucket, StorageClass, ConfigMap, Secret, Endpoint, Authentication,
}
use lib_bucket_provisioner.Cluster.Error.{Error, Reply, done, failed}
use lib_bucket_provisioner.Cluster.Event.{
  Event, claim_got, claim_updated, bucket_got, bucket_created, bucket_updated, bucket_deleted,
  secret_got, secret_created, secret_updated, config_map_got, config_map_created,
  config_map_updated, class_got,
}
use lib_bucket_provisioner.Cluster.Env.{Env}
use lib_bucket_provisioner.Cluster.Emits.{Emits, emits}
use lib_bucket_provisioner.Helpers.Lookups.{
  claim_for_key, storage_class_for_claim, storage_class_for_object_bucket,
  is_new_bucket_by_object_bucket,
}
use lib_bucket_provisioner.Handlers.Create.{
  create_or_update_secret, secret_after_create, create_or_update_config_map,
  config_map_after_create, create_or_update_object_bucket, bucket_after_create,
  update_existing_bucket, updated_or,
}
use lib_bucket_provisioner.Handlers.Release.{
  release_config_map, release_secret, release_claim, bucket_after_delete,
  delete_instantiated_bucket, delete_object_bucket,
}
use lib_bucket_provisioner.Handlers.Update.{
  found_bucket, get_ob_from_key, err_if_obc_config_has_been_modified,
}

module _ {E : Env} (P : Event → Type 0) where
  updated_or-Emits : {A : Type 0} (e : Error) (r : Reply A) → Emits P (updated_or {E = E} e r)
  unfolding updated_or
  updated_or-Emits e (done a) = search emits
  updated_or-Emits e (failed e') = search emits

  found_bucket-Emits : (r : Reply ObjectBucket) → Emits P (found_bucket {E = E} r)
  unfolding found_bucket
  found_bucket-Emits (done _) = search emits
  found_bucket-Emits (failed e) = search emits

  module _ (created : (s : Secret) (r : Reply Secret) → P (secret_created s r))
      (updated : (s : Secret) (r : Reply Secret) → P (secret_updated s r)) where
    secret_after_create-Emits :
        (s : Secret) (r : Reply Secret) → Emits P (secret_after_create {E = E} s r)
    unfolding secret_after_create
    secret_after_create-Emits s (done _) = search emits
    secret_after_create-Emits s (failed e) = search (emits, updated_or-Emits)

    pub create_or_update_secret-Emits :
        (obc : ObjectBucketClaim) (auth : Option Authentication) (labels : StringMap)
        → Emits P (create_or_update_secret {E = E} obc auth labels)
    unfolding create_or_update_secret
    create_or_update_secret-Emits obc auth labels = search (emits, secret_after_create-Emits)

  module _ (created : (cm : ConfigMap) (r : Reply ConfigMap) → P (config_map_created cm r))
      (updated : (cm : ConfigMap) (r : Reply ConfigMap) → P (config_map_updated cm r)) where
    config_map_after_create-Emits :
        (cm : ConfigMap) (r : Reply ConfigMap) → Emits P (config_map_after_create {E = E} cm r)
    unfolding config_map_after_create
    config_map_after_create-Emits cm (done _) = search emits
    config_map_after_create-Emits cm (failed e) = search (emits, updated_or-Emits)

    pub create_or_update_config_map-Emits :
        (obc : ObjectBucketClaim) (ep : Option Endpoint) (labels : StringMap)
        → Emits P (create_or_update_config_map {E = E} obc ep labels)
    unfolding create_or_update_config_map
    create_or_update_config_map-Emits obc ep labels = search (emits, config_map_after_create-Emits)

  module _ (read : (name : Text) (r : Reply ObjectBucket) → P (bucket_got name r))
      (created : (ob : ObjectBucket) (r : Reply ObjectBucket) → P (bucket_created ob r))
      (updated : (ob : ObjectBucket) (r : Reply ObjectBucket) → P (bucket_updated ob r)) where
    update_existing_bucket-Emits : (ob : ObjectBucket) → Emits P (update_existing_bucket {E = E} ob)
    unfolding update_existing_bucket
    update_existing_bucket-Emits ob = search emits

    bucket_after_create-Emits :
        (ob : ObjectBucket) (r : Reply ObjectBucket) → Emits P (bucket_after_create {E = E} ob r)
    unfolding bucket_after_create
    bucket_after_create-Emits ob (done _) = search emits
    bucket_after_create-Emits ob (failed e) = search (emits, update_existing_bucket-Emits)

    pub create_or_update_object_bucket-Emits :
        (ob : ObjectBucket) → Emits P (create_or_update_object_bucket {E = E} ob)
    unfolding create_or_update_object_bucket
    create_or_update_object_bucket-Emits ob = search (emits, bucket_after_create-Emits)

  module _ (read : (ns name : Text) (r : Reply ConfigMap) → P (config_map_got ns name r))
      (updated : (cm : ConfigMap) (r : Reply ConfigMap) → P (config_map_updated cm r)) where
    pub release_config_map-Emits : (cm : Option ConfigMap) → Emits P (release_config_map {E = E} cm)
    unfolding release_config_map
    release_config_map-Emits none = search emits
    release_config_map-Emits (some cm) = search emits

  module _ (read : (ns name : Text) (r : Reply Secret) → P (secret_got ns name r))
      (updated : (s : Secret) (r : Reply Secret) → P (secret_updated s r)) where
    pub release_secret-Emits : (s : Option Secret) → Emits P (release_secret {E = E} s)
    unfolding release_secret
    release_secret-Emits none = search emits
    release_secret-Emits (some s) = search emits

  module _ (read : (ns name : Text) (r : Reply ObjectBucketClaim) → P (claim_got ns name r))
      (updated : (obc : ObjectBucketClaim) (r : Reply ObjectBucketClaim)
        → P (claim_updated obc r)) where
    pub release_claim-Emits : (obc : Option ObjectBucketClaim) → Emits P (release_claim {E = E} obc)
    unfolding release_claim
    release_claim-Emits none = search emits
    release_claim-Emits (some obc) = search emits

  module _ (updated : (ob : ObjectBucket) (r : Reply ObjectBucket) → P (bucket_updated ob r))
      (deleted : (name : Text) (r : Reply (Unit {0})) → P (bucket_deleted name r)) where
    bucket_after_delete-Emits : (r : Reply (Unit {0})) → Emits P (bucket_after_delete {E = E} r)
    unfolding bucket_after_delete
    bucket_after_delete-Emits (done _) = search emits
    bucket_after_delete-Emits (failed e) = search emits

    delete_instantiated_bucket-Emits :
        (ob : ObjectBucket) → Emits P (delete_instantiated_bucket {E = E} ob)
    unfolding delete_instantiated_bucket
    delete_instantiated_bucket-Emits ob = search (emits, bucket_after_delete-Emits)

    pub delete_object_bucket-Emits :
        (ob : Option ObjectBucket) → Emits P (delete_object_bucket {E = E} ob)
    unfolding delete_object_bucket
    delete_object_bucket-Emits none = search emits
    delete_object_bucket-Emits (some ob) = search (emits, delete_instantiated_bucket-Emits)

  pub get_ob_from_key-Emits :
      ((name : Text) (r : Reply ObjectBucket) → P (bucket_got name r))
      → (key : Text) → Emits P (get_ob_from_key {E = E} key)
  unfolding get_ob_from_key
  get_ob_from_key-Emits read key = search (emits, found_bucket-Emits)

  pub err_if_modified-Emits :
      (ob : Option ObjectBucket) (obc : ObjectBucketClaim)
      → Emits P (err_if_obc_config_has_been_modified {E = E} ob obc)
  unfolding err_if_obc_config_has_been_modified
  err_if_modified-Emits none obc = search emits
  err_if_modified-Emits (some ob) obc = search emits

  pub storage_class_for_claim-Emits :
      ((name : Text) (r : Reply StorageClass) → P (class_got name r))
      → (obc : Option ObjectBucketClaim) → Emits P (storage_class_for_claim {E = E} obc)
  unfolding storage_class_for_claim
  storage_class_for_claim-Emits read none = search emits
  storage_class_for_claim-Emits read (some obc) = search emits

  pub is_new_bucket-Emits :
      ((name : Text) (r : Reply StorageClass) → P (class_got name r))
      → (ob : ObjectBucket) → Emits P (is_new_bucket_by_object_bucket {E = E} ob)
  unfolding is_new_bucket_by_object_bucket storage_class_for_object_bucket
  is_new_bucket-Emits read ob = search emits depth 8

  pub claim_for_key-Emits :
      ((ns name : Text) (r : Reply ObjectBucketClaim) → P (claim_got ns name r))
      → (key : Text) → Emits P (claim_for_key {E = E} key)
  unfolding claim_for_key
  claim_for_key-Emits read key = search emits
