-- ===== src/Cluster/Calls.antt =====
-- One function for each call of the typed clients, of the provisioner and of the other libraries.
use lib_bucket_provisioner.Base.{Text, Option}
use lib_bucket_provisioner.V1alpha1.{
  ObjectBucketClaim, ObjectBucket, Secret, ConfigMap, StorageClass,
}
use lib_bucket_provisioner.Cluster.Event.{
  BucketOptions, claim_got, claim_updated, claim_status_updated, bucket_got, bucket_created,
  bucket_updated, bucket_status_updated, bucket_deleted, secret_got, secret_created, secret_updated,
  config_map_got, config_map_created, config_map_updated, class_got, user_id_generated, provisioned,
  granted, removed, revoked, uuid_made,
}
use lib_bucket_provisioner.Cluster.Env.{Env}
use lib_bucket_provisioner.Cluster.Monad.{M, call, ask}

module _ {E : Env} where
  abbrev pub get_claim : Text → Text → M E ObjectBucketClaim
  get_claim ns name = call (E.get_claim ns name) (claim_got ns name)

  abbrev pub update_claim : ObjectBucketClaim → M E ObjectBucketClaim
  update_claim obc = call (E.update_claim obc) (claim_updated obc)

  abbrev pub update_claim_status : ObjectBucketClaim → M E ObjectBucketClaim
  update_claim_status obc = call (E.update_claim_status obc) (claim_status_updated obc)

  abbrev pub get_bucket : Text → M E ObjectBucket
  get_bucket name = call (E.get_bucket name) (bucket_got name)

  abbrev pub create_bucket : ObjectBucket → M E ObjectBucket
  create_bucket ob = call (E.create_bucket ob) (bucket_created ob)

  abbrev pub update_bucket : ObjectBucket → M E ObjectBucket
  update_bucket ob = call (E.update_bucket ob) (bucket_updated ob)

  abbrev pub update_bucket_status : ObjectBucket → M E ObjectBucket
  update_bucket_status ob = call (E.update_bucket_status ob) (bucket_status_updated ob)

  abbrev pub delete_bucket : Text → M E (Unit {0})
  delete_bucket name = call (E.delete_bucket name) (bucket_deleted name)

  abbrev pub get_secret : Text → Text → M E Secret
  get_secret ns name = call (E.get_secret ns name) (secret_got ns name)

  abbrev pub create_secret : Secret → M E Secret
  create_secret s = call (E.create_secret s) (secret_created s)

  abbrev pub update_secret : Secret → M E Secret
  update_secret s = call (E.update_secret s) (secret_updated s)

  abbrev pub get_config_map : Text → Text → M E ConfigMap
  get_config_map ns name = call (E.get_config_map ns name) (config_map_got ns name)

  abbrev pub create_config_map : ConfigMap → M E ConfigMap
  create_config_map cm = call (E.create_config_map cm) (config_map_created cm)

  abbrev pub update_config_map : ConfigMap → M E ConfigMap
  update_config_map cm = call (E.update_config_map cm) (config_map_updated cm)

  abbrev pub get_storage_class : Text → M E StorageClass
  get_storage_class name = call (E.get_storage_class name) (class_got name)

  abbrev pub generate_user_id : ObjectBucketClaim → Option ObjectBucket → M E Text
  generate_user_id obc ob = call (E.generate_user_id obc ob) (user_id_generated obc ob)

  abbrev pub provision : BucketOptions → M E (Option ObjectBucket)
  provision o = call (E.provision o) (provisioned o)

  abbrev pub grant : BucketOptions → M E (Option ObjectBucket)
  grant o = call (E.grant o) (granted o)

  abbrev pub remove : ObjectBucket → M E (Unit {0})
  remove ob = call (E.remove ob) (removed ob)

  abbrev pub revoke : ObjectBucket → M E (Unit {0})
  revoke ob = call (E.revoke ob) (revoked ob)

  abbrev pub new_uuid : M E Text
  new_uuid = ask E.new_uuid uuid_made
