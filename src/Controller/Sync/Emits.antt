-- ===== src/Controller/Sync/Emits.antt =====
-- All that syncHandler can log, on every branch.
use lib_bucket_provisioner.Base.{Text, some, is_none, not}
use lib_bucket_provisioner.V1alpha1.{ObjectBucketClaim, StorageClass}
use lib_bucket_provisioner.Cluster.Error.{Reply, done, failed, is_not_found}
use lib_bucket_provisioner.Cluster.Event.{Event}
use lib_bucket_provisioner.Cluster.Env.{Env}
use lib_bucket_provisioner.Cluster.Emits.{
  Emits, Emits-bind, Emits-if, Emits-pure, Emits-raise, Emits-attempt,
}
use lib_bucket_provisioner.Handlers.Emits as handlers
use lib_bucket_provisioner.Controller.Emits.Whole.{
  ProvisionEvents, DeleteEvents, handle_provision_claim-Emits, handle_delete_claim-Emits,
}
use lib_bucket_provisioner.Controller.Resources.{Controller, supported_provisioner}
use lib_bucket_provisioner.Controller.Sync.{
  provision_claim, dispatch_claim, sync_found, sync_handler,
}
use lib_bucket_provisioner.Controller.Sync.Order.{mark_pending-Emits}

module _ {E : Env} {P : Event → Type 0} (p : ProvisionEvents P) (d : DeleteEvents P)
    (c : Controller) (key : Text) where
  dispatch_claim-Emits :
      (obc : ObjectBucketClaim) (class : StorageClass)
      → Emits P (dispatch_claim {E = E} c key obc class)
  unfolding dispatch_claim provision_claim
  dispatch_claim-Emits obc class =
      Emits-if (not (supported_provisioner c class.provisioner)) _ _ (Emits-pure _) (
        Emits-if (not (is_none obc.meta.deletion_timestamp)) _ _
          (handle_delete_claim-Emits d key obc)
          (Emits-bind (mark_pending-Emits P obc (λ o r e. p.claim_status o r))
            λ pending. handle_provision_claim-Emits p c key pending class))

  sync_found-Emits : (r : Reply ObjectBucketClaim) → Emits P (sync_found {E = E} c key r)
  unfolding sync_found
  sync_found-Emits (failed e) = Emits-if (is_not_found e) _ _ (Emits-pure _) (Emits-raise _)
  sync_found-Emits (done obc) =
      Emits-bind (handlers.storage_class_for_claim-Emits P d.class_read (some obc))
        (dispatch_claim-Emits obc)

  pub sync_handler-Emits : Emits P (sync_handler {E = E} c key)
  unfolding sync_handler
  sync_handler-Emits =
      Emits-bind (Emits-attempt (handlers.claim_for_key-Emits P p.claim_read key)) sync_found-Emits
