-- ===== src/Handlers/Release.antt =====
-- resourcehandlers.go: releaseConfigMap, releaseSecret, releaseOBC, deleteObjectBucket.
use lib_bucket_provisioner.Base.{◌==◌, if◌then◌else◌, Option, none, some, []}
use lib_bucket_provisioner.V1alpha1.{ObjectBucketClaim, ObjectBucket, ConfigMap, Secret}
use lib_bucket_provisioner.Cluster.Error.{
  Reply, done, failed, wrapped, is_not_found, claim_get_for_release, claim_update_for_release,
  bucket_delete,
}
use lib_bucket_provisioner.Cluster.Env.{Env}
use lib_bucket_provisioner.Cluster.Monad.{M, pure, raise, attempt, wrap, ◌>>=◌, ◌>>◌}
use lib_bucket_provisioner.Cluster.Calls.{
  get_config_map, update_config_map, get_secret, update_secret, get_claim, update_claim,
  update_bucket, delete_bucket,
}
use lib_bucket_provisioner.Helpers.Metadata.{remove_finalizer}

module _ {E : Env} where
  unfoldable pub release_config_map : Option ConfigMap → M E (Unit {0})
  release_config_map none = pure tt
  release_config_map (some cm) = do
    current ← get_config_map cm.meta.namespace cm.meta.name
    update_config_map (record current { meta = remove_finalizer current.meta })
    pure tt

  unfoldable pub release_secret : Option Secret → M E (Unit {0})
  release_secret none = pure tt
  release_secret (some sec) = do
    current ← get_secret sec.meta.namespace sec.meta.name
    update_secret (record current { meta = remove_finalizer current.meta })
    pure tt

  unfoldable pub release_claim : Option ObjectBucketClaim → M E (Unit {0})
  release_claim none = pure tt
  release_claim (some obc) = do
    current ← wrap claim_get_for_release (get_claim obc.meta.namespace obc.meta.name)
    wrap claim_update_for_release
        (update_claim (record current { meta = remove_finalizer current.meta }))
    pure tt

  -- A bucket that has vanished meanwhile counts as deleted.
  unfoldable pub bucket_after_delete : Reply (Unit {0}) → M E (Unit {0})
  bucket_after_delete (done _) = pure tt
  bucket_after_delete (failed e) =
      if is_not_found e then pure tt else raise (wrapped bucket_delete e)

  -- Updates the bucket without its finalizer, then deletes it.
  unfoldable pub delete_instantiated_bucket : ObjectBucket → M E (Unit {0})
  delete_instantiated_bucket ob = do
    update_bucket (record ob { meta = remove_finalizer ob.meta })
    deleted ← attempt (delete_bucket ob.meta.name)
    bucket_after_delete deleted

  unfoldable pub delete_object_bucket : Option ObjectBucket → M E (Unit {0})
  delete_object_bucket none = pure tt
  delete_object_bucket (some ob) =
      if ob.meta.uid == [] then pure tt else delete_instantiated_bucket ob
