-- ===== src/Controller/Delete.antt =====
-- controller.go: handleDeleteClaim and deleteResources.
pub mod Guard
pub mod Found
pub mod Order
pub mod Release
pub mod Complete
use lib_bucket_provisioner.Base.{
  Text, codes, ◌==◌, Bool, true, false, if◌then◌else◌, Option, none, some, List, [], ◌∷◌,
}
use lib_bucket_provisioner.V1alpha1.{ObjectBucketClaim, ObjectBucket, ConfigMap, Secret}
use lib_bucket_provisioner.V1alpha1.Phase
use lib_bucket_provisioner.Cluster.Error.{
  Error, Reply, done, failed, failure, getting_resources, deleting_bucket, revoking_access,
}
use lib_bucket_provisioner.Cluster.Env.{Env}
use lib_bucket_provisioner.Cluster.Monad.{M, pure, raise, attempt, wrap, deref, ◌>>=◌, ◌>>◌}
use lib_bucket_provisioner.Cluster.Calls.{remove, revoke}
use lib_bucket_provisioner.Helpers.Lookups.{is_new_bucket_by_object_bucket}
use lib_bucket_provisioner.Handlers.Release.{
  delete_object_bucket, release_secret, release_config_map, release_claim,
}
use lib_bucket_provisioner.Handlers.Update.{update_object_bucket_phase}
use lib_bucket_provisioner.Controller.Resources.{get_existing_resources_from_key}

-- corev1.PersistentVolumeReclaimDelete
abbrev pub reclaim_delete : Text
reclaim_delete = codes "Delete"

-- `err = delErr`: a later error replaces an earlier one.
unfoldable pub last_error : Option Error → List (Reply (Unit {0})) → Option Error
last_error err [] = err
last_error err (done _ ∷ rest) = last_error err rest
last_error err (failed e ∷ rest) = last_error (some e) rest

module _ {E : Env} where
  unfoldable pub return_error : Option Error → M E (Unit {0})
  return_error none = pure tt
  return_error (some e) = raise e

  unfoldable pub delete_resources :
      Option ObjectBucket
      → Option ConfigMap
      → Option Secret
      → Option ObjectBucketClaim
      → M E (Unit {0})
  delete_resources ob cm s obc = do
    bucket ← attempt (delete_object_bucket ob)
    secret ← attempt (release_secret s)
    config_map ← attempt (release_config_map cm)
    claim ← attempt (release_claim obc)
    return_error (last_error none (bucket ∷ secret ∷ config_map ∷ claim ∷ []))

  -- `isNewBucketByObjectBucket(…) && *ob.Spec.ReclaimPolicy == Delete`: the policy is read only of
  -- a new bucket.
  unfoldable pub wants_delete : ObjectBucket → Bool → M E Bool
  wants_delete ob false = pure false
  wants_delete ob true = do policy ← deref ob.spec.reclaim_policy; pure (policy == reclaim_delete)

  -- Delete or Revoke.
  unfoldable pub deprovision : ObjectBucket → M E (Unit {0})
  deprovision ob = do
    new ← is_new_bucket_by_object_bucket ob
    delete ← wants_delete ob new
    if delete then wrap deleting_bucket (remove ob) else wrap revoking_access (revoke ob)

  -- The object bucket is there and has a reclaim policy.
  unfoldable pub release_bucket :
      ObjectBucket → Option ConfigMap → Option Secret → ObjectBucketClaim → M E (Unit {0})
  release_bucket found cm secret obc = do
    ob ← update_object_bucket_phase found Phase.released
    deprovision ob
    delete_resources (some ob) cm secret (some obc)

  -- The branches on the object bucket and on its reclaim policy.
  unfoldable pub release_resources :
      Option ObjectBucket → Option ConfigMap → Option Secret → ObjectBucketClaim → M E (Unit {0})
  release_resources none cm secret obc = delete_resources none cm secret (some obc)
  release_resources (some ob) cm secret obc = elim ob.spec.reclaim_policy [
    | none ↦ pure tt
    | some _ ↦ release_bucket ob cm secret obc
  ]

  unfoldable pub fail_if_any : List Error → M E (Unit {0})
  fail_if_any [] = pure tt
  fail_if_any (e ∷ errs) = raise (failure getting_resources)

  unfoldable pub handle_delete_claim : Text → ObjectBucketClaim → M E (Unit {0})
  handle_delete_claim key obc = do
    r ← get_existing_resources_from_key key
    fail_if_any r.errs
    release_resources r.ob r.cm r.secret obc
