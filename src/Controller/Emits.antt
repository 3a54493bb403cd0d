-- ===== src/Controller/Emits.antt =====
-- What the stages of handleProvisionClaim and handleDeleteClaim log, on every branch. The two as
-- wholes are in the child Whole.
pub mod Whole
use lib_bucket_provisioner.Base.{Text, Bool, true, false, Option, none, some, List, [], ◌∷◌}
use lib_bucket_provisioner.V1alpha1.{
  ObjectBucketClaim, ObjectBucket, StorageClass, ConfigMap, Secret,
}
use lib_bucket_provisioner.Cluster.Error.{Error, Reply}
use lib_bucket_provisioner.Cluster.Event.{
  Event, BucketOptions, claim_got, claim_updated, claim_status_updated, bucket_got, bucket_created,
  bucket_updated, bucket_status_updated, bucket_deleted, secret_got, secret_created, secret_updated,
  config_map_got, config_map_created, config_map_updated, class_got, user_id_generated, provisioned,
  granted, removed, revoked, uuid_made,
}
use lib_bucket_provisioner.Cluster.Env.{Env}
use lib_bucket_provisioner.Cluster.Emits.{Emits, emits}
use lib_bucket_provisioner.Helpers.Names.{compose_bucket_name, generate_bucket_name}
use lib_bucket_provisioner.Helpers.Lookups.{
  claim_ref_for_key, config_map_for_claim_key, secret_for_claim_key,
}
use lib_bucket_provisioner.Handlers.Update.{store_claim, update_object_bucket_claim_phase}
use lib_bucket_provisioner.Handlers.Emits as handlers
use lib_bucket_provisioner.Controller.Resources.{
  Controller, object_bucket_for_claim_key, get_resources_from_key, get_existing_resources_from_key,
}
use lib_bucket_provisioner.Controller.Provision.{
  choose_bucket_name, store_bucket_name, non_empty, run_provisioner, save_connection, save_bucket,
  bind_claim,
}
use lib_bucket_provisioner.Controller.Delete.{
  return_error, delete_resources, wants_delete, deprovision, fail_if_any,
}

module _ {E : Env} (P : Event → Type 0) where
  pub choose_bucket_name-Emits :
      ((id : Text) → P (uuid_made id))
      → (class : StorageClass) (obc : ObjectBucketClaim)
      → Emits P (choose_bucket_name {E = E} class obc)
  unfolding choose_bucket_name compose_bucket_name generate_bucket_name
  choose_bucket_name-Emits made class obc = search emits depth 9

  pub store_bucket_name-Emits :
      ((obc : ObjectBucketClaim) (r : Reply ObjectBucketClaim) → P (claim_updated obc r))
      → (obc : ObjectBucketClaim) (name : Text) → Emits P (store_bucket_name {E = E} obc name)
  unfolding store_bucket_name store_claim
  store_bucket_name-Emits updated obc name = search emits

  pub non_empty-Emits : (ob : Option ObjectBucket) → Emits P (non_empty {E = E} ob)
  unfolding non_empty
  non_empty-Emits none = search emits
  non_empty-Emits (some ob) = search emits

  pub run_provisioner-Emits :
      ((obc : ObjectBucketClaim) (ob : Option ObjectBucket) (r : Reply Text)
        → P (user_id_generated obc ob r))
      → ((o : BucketOptions) (r : Reply (Option ObjectBucket)) → P (provisioned o r))
      → ((o : BucketOptions) (r : Reply (Option ObjectBucket)) → P (granted o r))
      → (obc : ObjectBucketClaim) (ob : Option ObjectBucket) (class : StorageClass) (name : Text)
      → Emits P (run_provisioner {E = E} obc ob class name)
  unfolding run_provisioner
  run_provisioner-Emits id p g obc ob class name = search (emits, non_empty-Emits) depth 8

  pub save_connection-Emits :
      ((s : Secret) (r : Reply Secret) → P (secret_created s r))
      → ((s : Secret) (r : Reply Secret) → P (secret_updated s r))
      → ((cm : ConfigMap) (r : Reply ConfigMap) → P (config_map_created cm r))
      → ((cm : ConfigMap) (r : Reply ConfigMap) → P (config_map_updated cm r))
      → (c : Controller) (obc : ObjectBucketClaim) (ob : ObjectBucket)
      → Emits P (save_connection {E = E} c obc ob)
  unfolding save_connection
  save_connection-Emits sc su cc cu c obc ob = search (
    emits,
    handlers.create_or_update_secret-Emits P sc su,
    handlers.create_or_update_config_map-Emits P cc cu,
  )

  pub save_bucket-Emits :
      ((ns name : Text) (r : Reply ObjectBucketClaim) → P (claim_got ns name r))
      → ((name : Text) (r : Reply ObjectBucket) → P (bucket_got name r))
      → ((ob : ObjectBucket) (r : Reply ObjectBucket) → P (bucket_created ob r))
      → ((ob : ObjectBucket) (r : Reply ObjectBucket) → P (bucket_updated ob r))
      → ((ob : ObjectBucket) (r : Reply ObjectBucket) → P (bucket_status_updated ob r))
      → (c : Controller) (key : Text) (obc : ObjectBucketClaim) (class : StorageClass)
        (ob : ObjectBucket)
      → Emits P (save_bucket {E = E} c key obc class ob)
  unfolding save_bucket claim_ref_for_key
  save_bucket-Emits read got created updated status c key obc class ob =
      search
        (
          emits,
          handlers.create_or_update_object_bucket-Emits P got created updated,
          handlers.claim_for_key-Emits P read,
        )
        depth 8

  pub bind_claim-Emits :
      ((obc : ObjectBucketClaim) (r : Reply ObjectBucketClaim) → P (claim_updated obc r))
      → ((obc : ObjectBucketClaim) (r : Reply ObjectBucketClaim) → P (claim_status_updated obc r))
      → (obc : ObjectBucketClaim) (ob : ObjectBucket) (name : Text)
      → Emits P (bind_claim {E = E} obc ob name)
  unfolding bind_claim store_claim update_object_bucket_claim_phase
  bind_claim-Emits updated status obc ob name = search emits depth 8

  module _ (bucket_read : (name : Text) (r : Reply ObjectBucket) → P (bucket_got name r))
      (config_map_read : (ns name : Text) (r : Reply ConfigMap) → P (config_map_got ns name r))
      (secret_read : (ns name : Text) (r : Reply Secret) → P (secret_got ns name r)) where
    pub get_existing_resources-Emits :
        (key : Text) → Emits P (get_existing_resources_from_key {E = E} key)
    unfolding get_existing_resources_from_key get_resources_from_key object_bucket_for_claim_key
        config_map_for_claim_key secret_for_claim_key
    get_existing_resources-Emits key = search emits depth 9

  return_error-Emits : (e : Option Error) → Emits P (return_error {E = E} e)
  unfolding return_error
  return_error-Emits none = search emits
  return_error-Emits (some e) = search emits

  module _ (bucket_update : (ob : ObjectBucket) (r : Reply ObjectBucket) → P (bucket_updated ob r))
      (bucket_delete : (name : Text) (r : Reply (Unit {0})) → P (bucket_deleted name r))
      (secret_read : (ns name : Text) (r : Reply Secret) → P (secret_got ns name r))
      (secret_update : (s : Secret) (r : Reply Secret) → P (secret_updated s r))
      (config_map_read : (ns name : Text) (r : Reply ConfigMap) → P (config_map_got ns name r))
      (config_map_update : (cm : ConfigMap) (r : Reply ConfigMap) → P (config_map_updated cm r))
      (claim_read : (ns name : Text) (r : Reply ObjectBucketClaim) → P (claim_got ns name r))
      (claim_update : (obc : ObjectBucketClaim) (r : Reply ObjectBucketClaim)
        → P (claim_updated obc r)) where
    pub delete_resources-Emits :
        (ob : Option ObjectBucket) (cm : Option ConfigMap) (s : Option Secret)
        (obc : Option ObjectBucketClaim)
        → Emits P (delete_resources {E = E} ob cm s obc)
    unfolding delete_resources
    delete_resources-Emits ob cm s obc =
        search
          (
            emits,
            return_error-Emits,
            handlers.delete_object_bucket-Emits P bucket_update bucket_delete,
            handlers.release_secret-Emits P secret_read secret_update,
            handlers.release_config_map-Emits P config_map_read config_map_update,
            handlers.release_claim-Emits P claim_read claim_update,
          )
          depth 8

  pub wants_delete-Emits : (ob : ObjectBucket) (new : Bool) → Emits P (wants_delete {E = E} ob new)
  unfolding wants_delete
  wants_delete-Emits ob true = search emits
  wants_delete-Emits ob false = search emits

  pub deprovision-Emits :
      ((name : Text) (r : Reply StorageClass) → P (class_got name r))
      → ((ob : ObjectBucket) (r : Reply (Unit {0})) → P (removed ob r))
      → ((ob : ObjectBucket) (r : Reply (Unit {0})) → P (revoked ob r))
      → (ob : ObjectBucket) → Emits P (deprovision {E = E} ob)
  unfolding deprovision
  deprovision-Emits read rem rev ob =
      search (emits, wants_delete-Emits, handlers.is_new_bucket-Emits P read) depth 8

  pub fail_if_any-Emits : (errs : List Error) → Emits P (fail_if_any {E = E} errs)
  unfolding fail_if_any
  fail_if_any-Emits [] = search emits
  fail_if_any-Emits (e ∷ errs) = search emits
