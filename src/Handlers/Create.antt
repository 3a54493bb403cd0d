-- ===== src/Handlers/Create.antt =====
-- resourcehandlers.go: createOrUpdateObjectBucket, createOrUpdateSecret, createOrUpdateConfigMap.
use lib_bucket_provisioner.Base.{StringMap, if◌then◌else◌, Option, some}
use lib_bucket_provisioner.V1alpha1.{
  ObjectBucketClaim, ObjectBucket, Endpoint, Authentication, ConfigMap, Secret,
}
use lib_bucket_provisioner.Cluster.Error.{
  Error, Reply, done, failed, failure, wrapped, is_already_exists, bucket_get_current,
  bucket_update, bucket_create, secret_update, config_map_update,
}
use lib_bucket_provisioner.Cluster.Env.{Env}
use lib_bucket_provisioner.Cluster.Monad.{M, pure, raise, lift, attempt, wrap, ◌>>=◌}
use lib_bucket_provisioner.Cluster.Calls.{
  create_bucket, get_bucket, update_bucket, create_secret, update_secret, create_config_map,
  update_config_map,
}
use lib_bucket_provisioner.Handlers.Objects.{new_bucket_config_map, new_credentials_secret}

module _ {E : Env} where
  -- The branch for an object bucket that exists: it is updated at its present version.
  unfoldable pub update_existing_bucket : ObjectBucket → M E ObjectBucket
  update_existing_bucket ob = do
    current ← wrap bucket_get_current (get_bucket ob.meta.name)
    wrap bucket_update (
        update_bucket (record ob {
          meta = record ob.meta { resource_version = current.meta.resource_version };
        }))

  unfoldable pub bucket_after_create : ObjectBucket → Reply ObjectBucket → M E ObjectBucket
  bucket_after_create ob (done result) = pure result
  bucket_after_create ob (failed e) =
      if is_already_exists e then update_existing_bucket ob else raise (wrapped bucket_create e)

  unfoldable pub create_or_update_object_bucket : ObjectBucket → M E ObjectBucket
  create_or_update_object_bucket ob = do
    created ← attempt (create_bucket ob)
    bucket_after_create ob created

  -- An error of the update is replaced, and its cause is not mentioned.
  unfoldable pub updated_or : {A : Type 0} → Error → Reply A → M E (Unit {0})
  updated_or e (done _) = pure tt
  updated_or e (failed _) = raise e

  unfoldable pub secret_after_create : Secret → Reply Secret → M E (Unit {0})
  unfolding updated_or
  secret_after_create secret (done _) = pure tt
  secret_after_create secret (failed e) =
      if is_already_exists e
      then (do updated ← attempt (update_secret secret); updated_or (failure secret_update) updated)
      else raise e

  unfoldable pub create_or_update_secret :
      ObjectBucketClaim → Option Authentication → StringMap → M E (Unit {0})
  create_or_update_secret obc auth labels = do
    secret ← lift (new_credentials_secret (some obc) auth labels)
    created ← attempt (create_secret secret)
    secret_after_create secret created

  unfoldable pub config_map_after_create : ConfigMap → Reply ConfigMap → M E (Unit {0})
  unfolding updated_or
  config_map_after_create config_map (done _) = pure tt
  config_map_after_create config_map (failed e) =
      if is_already_exists e
      then (do
        updated ← attempt (update_config_map config_map)
        updated_or (failure config_map_update) updated)
      else raise e

  unfoldable pub create_or_update_config_map :
      ObjectBucketClaim → Option Endpoint → StringMap → M E (Unit {0})
  create_or_update_config_map obc ep labels = do
    config_map ← lift (new_bucket_config_map (some obc) ep labels)
    created ← attempt (create_config_map config_map)
    config_map_after_create config_map created
