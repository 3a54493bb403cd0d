-- ===== src/Handlers/Calm.antt =====
-- The functions of resourcehandlers.go that never panic.
use lib_bucket_provisioner.Base.{StringMap, Option, none, some}
use lib_bucket_provisioner.V1alpha1.{
  ObjectBucketClaim, ObjectBucket, ConfigMap, Secret, Endpoint, Authentication,
}
use lib_bucket_provisioner.Cluster.Error.{Error, Reply, done, failed}
use lib_bucket_provisioner.Cluster.Env.{Env}
use lib_bucket_provisioner.Cluster.Calm.{Calm, calm}
use lib_bucket_provisioner.Handlers.Create.{
  create_or_update_secret, secret_after_create, create_or_update_config_map,
  config_map_after_create, create_or_update_object_bucket, bucket_after_create,
  update_existing_bucket, updated_or,
}
use lib_bucket_provisioner.Handlers.Release.{
  release_config_map, release_secret, release_claim, bucket_after_delete,
  delete_instantiated_bucket, delete_object_bucket,
}

module _ {E : Env} where
  updated_or-Calm : {A : Type 0} (e : Error) (r : Reply A) → Calm (updated_or {E = E} e r)
  unfolding updated_or
  updated_or-Calm e (done a) = search calm
  updated_or-Calm e (failed e') = search calm

  secret_after_create-Calm :
      (s : Secret) (r : Reply Secret) → Calm (secret_after_create {E = E} s r)
  unfolding secret_after_create
  secret_after_create-Calm s (done _) = search calm
  secret_after_create-Calm s (failed e) = search (calm, updated_or-Calm)

  pub create_or_update_secret-Calm :
      (obc : ObjectBucketClaim) (auth : Option Authentication) (labels : StringMap)
      → Calm (create_or_update_secret {E = E} obc auth labels)
  unfolding create_or_update_secret
  create_or_update_secret-Calm obc auth labels = search (calm, secret_after_create-Calm)

  config_map_after_create-Calm :
      (cm : ConfigMap) (r : Reply ConfigMap) → Calm (config_map_after_create {E = E} cm r)
  unfolding config_map_after_create
  config_map_after_create-Calm cm (done _) = search calm
  config_map_after_create-Calm cm (failed e) = search (calm, updated_or-Calm)

  pub create_or_update_config_map-Calm :
      (obc : ObjectBucketClaim) (ep : Option Endpoint) (labels : StringMap)
      → Calm (create_or_update_config_map {E = E} obc ep labels)
  unfolding create_or_update_config_map
  create_or_update_config_map-Calm obc ep labels = search (calm, config_map_after_create-Calm)

  update_existing_bucket-Calm : (ob : ObjectBucket) → Calm (update_existing_bucket {E = E} ob)
  unfolding update_existing_bucket
  update_existing_bucket-Calm ob = search calm

  bucket_after_create-Calm :
      (ob : ObjectBucket) (r : Reply ObjectBucket) → Calm (bucket_after_create {E = E} ob r)
  unfolding bucket_after_create
  bucket_after_create-Calm ob (done _) = search calm
  bucket_after_create-Calm ob (failed e) = search (calm, update_existing_bucket-Calm)

  pub create_or_update_object_bucket-Calm :
      (ob : ObjectBucket) → Calm (create_or_update_object_bucket {E = E} ob)
  unfolding create_or_update_object_bucket
  create_or_update_object_bucket-Calm ob = search (calm, bucket_after_create-Calm)

  pub release_config_map-Calm : (cm : Option ConfigMap) → Calm (release_config_map {E = E} cm)
  unfolding release_config_map
  release_config_map-Calm none = search calm
  release_config_map-Calm (some cm) = search calm

  pub release_secret-Calm : (s : Option Secret) → Calm (release_secret {E = E} s)
  unfolding release_secret
  release_secret-Calm none = search calm
  release_secret-Calm (some s) = search calm

  pub release_claim-Calm : (obc : Option ObjectBucketClaim) → Calm (release_claim {E = E} obc)
  unfolding release_claim
  release_claim-Calm none = search calm
  release_claim-Calm (some obc) = search calm

  bucket_after_delete-Calm : (r : Reply (Unit {0})) → Calm (bucket_after_delete {E = E} r)
  unfolding bucket_after_delete
  bucket_after_delete-Calm (done _) = search calm
  bucket_after_delete-Calm (failed e) = search calm

  pub delete_object_bucket-Calm :
      (ob : Option ObjectBucket) → Calm (delete_object_bucket {E = E} ob)
  unfolding delete_object_bucket delete_instantiated_bucket
  delete_object_bucket-Calm none = search calm
  delete_object_bucket-Calm (some ob) = search (calm, bucket_after_delete-Calm)
