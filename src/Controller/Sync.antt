-- ===== src/Controller/Sync.antt =====
-- controller.go: syncHandler.
pub mod Deletion
pub mod Order
pub mod Uncalled
pub mod Once
pub mod Complete
pub mod Emits
use lib_bucket_provisioner.Base.{Text, ◌==◌, is_none, if◌then◌else◌, [], not}
use lib_bucket_provisioner.V1alpha1.{ObjectBucketClaim, StorageClass}
use lib_bucket_provisioner.V1alpha1.Phase
use lib_bucket_provisioner.Cluster.Error.{
  Reply, done, failed, wrapped, is_not_found, sync_claim, sync_status,
}
use lib_bucket_provisioner.Cluster.Env.{Env}
use lib_bucket_provisioner.Cluster.Monad.{M, pure, raise, attempt, wrap, ◌>>=◌}
use lib_bucket_provisioner.Helpers.Lookups.{claim_for_key, storage_class_for_claim}
use lib_bucket_provisioner.Handlers.Update.{update_object_bucket_claim_phase}
use lib_bucket_provisioner.Controller.Resources.{Controller, supported_provisioner}
use lib_bucket_provisioner.Controller.Provision.{handle_provision_claim}
use lib_bucket_provisioner.Controller.Delete.{handle_delete_claim}
use mathlib.Core.Option.{some}

module _ {E : Env} where
  -- A claim without a phase is pending.
  unfoldable pub mark_pending : ObjectBucketClaim → M E ObjectBucketClaim
  mark_pending obc =
      if obc.status.phase == []
      then wrap sync_status (update_object_bucket_claim_phase obc Phase.pending)
      else pure obc

  unfoldable pub provision_claim :
      Controller → Text → ObjectBucketClaim → StorageClass → M E (Unit {0})
  provision_claim c key obc class = do
    pending ← mark_pending obc
    handle_provision_claim c key pending class

  unfoldable pub dispatch_claim :
      Controller → Text → ObjectBucketClaim → StorageClass → M E (Unit {0})
  dispatch_claim c key obc class =
      if not (supported_provisioner c class.provisioner)
      then pure tt
      else if not (is_none obc.meta.deletion_timestamp)
      then handle_delete_claim key obc
      else provision_claim c key obc class

  -- A claim that is gone needs nothing.
  unfoldable pub sync_found : Controller → Text → Reply ObjectBucketClaim → M E (Unit {0})
  sync_found c key (failed e) = if is_not_found e then pure tt else raise (wrapped sync_claim e)
  sync_found c key (done obc) = do
    class ← storage_class_for_claim (some obc)
    dispatch_claim c key obc class

  unfoldable pub sync_handler : Controller → Text → M E (Unit {0})
  sync_handler c key = do obc ← attempt (claim_for_key key); sync_found c key obc
