-- ===== src/Controller/Sync/Deletion.antt =====
-- syncHandler (pkg/provisioner/controller.go): the claim's deletion timestamp and the calls that
-- follow.
use lib_bucket_provisioner.Base.{Text, some, is_none, not, true, false, ◌≡◌, refl, inl, arith}
use lib_bucket_provisioner.V1alpha1.{ObjectBucketClaim, StorageClass}
use lib_bucket_provisioner.Cluster.Error.{Reply, done, failed, is_not_found}
use lib_bucket_provisioner.Cluster.Event.{
  Event, Trace, claim_got, claim_status_updated, bucket_created, bucket_deleted, secret_created,
  config_map_created, provisioned, granted, removed, revoked,
}
use lib_bucket_provisioner.Cluster.Env.{Env}
use lib_bucket_provisioner.Cluster.Monad.{World}
use lib_bucket_provisioner.Cluster.Emits.{Emits-bind}
use lib_bucket_provisioner.Cluster.Triple.{
  Triple, Triple-bind, Triple-call, Triple-if, Triple-lift, Triple-attempt, Triple-pure,
  Triple-raise, Triple-weaken,
}
use lib_bucket_provisioner.Cluster.Ordered.{
  Any, Any-map, Any-Lasting, Safe, Kept, Ordered, Triple-Kept, Triple-Safe,
}
use lib_bucket_provisioner.Helpers.Lookups.{claim_for_key}
use lib_bucket_provisioner.Handlers.Emits as handlers
use lib_bucket_provisioner.Controller.Emits.Whole.{
  ProvisionEvents, DeleteEvents, handle_provision_claim-Emits, handle_delete_claim-Emits,
}
use lib_bucket_provisioner.Controller.Resources.{Controller, supported_provisioner}
use lib_bucket_provisioner.Controller.Delete.{handle_delete_claim}
use lib_bucket_provisioner.Controller.Sync.{
  provision_claim, dispatch_claim, sync_found, sync_handler,
}
use lib_bucket_provisioner.Controller.Sync.Order.{mark_pending-Emits, fresh}

-- A claim was read that is, or is not, being deleted.
abbrev pub ReadDeleting : Event → Type 0
ReadDeleting (claim_got ns name (done obc)) = is_none obc.meta.deletion_timestamp ≡ false
ReadDeleting _ = ⊥

abbrev pub ReadLive : Event → Type 0
ReadLive (claim_got ns name (done obc)) = is_none obc.meta.deletion_timestamp ≡ true
ReadLive _ = ⊥

abbrev pub DeletionGuard : Event → Trace → Type 0
DeletionGuard (removed ob r) t = Any ReadDeleting t
DeletionGuard (revoked ob r) t = Any ReadDeleting t
DeletionGuard (bucket_deleted name r) t = Any ReadDeleting t
DeletionGuard (provisioned o r) t = Any ReadLive t
DeletionGuard (granted o r) t = Any ReadLive t
DeletionGuard (bucket_created ob r) t = Any ReadLive t
DeletionGuard (secret_created s r) t = Any ReadLive t
DeletionGuard (config_map_created cm r) t = Any ReadLive t
DeletionGuard (claim_status_updated obc r) t = Any ReadLive t
DeletionGuard _ t = Unit {0}

delete_events_guarded : DeleteEvents (λ e. (t : Trace) → Any ReadDeleting t → DeletionGuard e t)
delete_events_guarded = record {
  claim_read = λ ns n r t k. tt;
  claim = λ o r t k. tt;
  bucket_read = λ n r t k. tt;
  bucket_update = λ o r t k. tt;
  bucket_status = λ o r t k. tt;
  bucket_delete = λ n r t k. k;
  secret_read = λ ns n r t k. tt;
  secret_update = λ s r t k. tt;
  config_map_read = λ ns n r t k. tt;
  config_map_update = λ c r t k. tt;
  class_read = λ n r t k. tt;
  remove = λ o r t k. k;
  revoke = λ o r t k. k;
}

provision_events_guarded : ProvisionEvents (λ e. (t : Trace) → Any ReadLive t → DeletionGuard e t)
provision_events_guarded = record {
  claim_read = λ ns n r t k. tt;
  claim = λ o r t k. tt;
  claim_status = λ o r t k. k;
  bucket_read = λ n r t k. tt;
  bucket_create = λ o r t k. k;
  bucket_update = λ o r t k. tt;
  bucket_status = λ o r t k. tt;
  secret_create = λ s r t k. k;
  secret_update = λ s r t k. tt;
  config_map_create = λ c r t k. k;
  config_map_update = λ c r t k. tt;
  user_id = λ o b r t k. tt;
  provision = λ o r t k. k;
  grant = λ o r t k. k;
  uuid = λ i t k. tt;
}

-- The claim is the one that was read.
abbrev ClaimRead : ObjectBucketClaim → Event → Type 0
ClaimRead obc (claim_got ns name (done answer)) = answer ≡ obc
ClaimRead obc _ = ⊥

ClaimRead-Deleting :
    (obc : ObjectBucketClaim) (e : Event)
    → is_none obc.meta.deletion_timestamp ≡ false
    → ClaimRead obc e
    → ReadDeleting e
ClaimRead-Deleting obc (claim_got ns name (done answer)) h r = rw r h
ClaimRead-Deleting obc _ h r = r

ClaimRead-Live :
    (obc : ObjectBucketClaim) (e : Event)
    → is_none obc.meta.deletion_timestamp ≡ true
    → ClaimRead obc e
    → ReadLive e
ClaimRead-Live obc (claim_got ns name (done answer)) h r = rw r h
ClaimRead-Live obc _ h r = r

-- What reading the claim leaves.
abbrev AfterRead : {E : Env} → Reply ObjectBucketClaim → World E → Type 0
AfterRead (done obc) = Kept DeletionGuard (Any (ClaimRead obc))
AfterRead (failed e) = Ordered DeletionGuard tt

module _ {E : Env} where
  claim_for_key-ClaimRead :
      (k : Text)
      → Triple {E = E}
          (Ordered DeletionGuard tt)
          (claim_for_key k)
          (λ obc. Kept DeletionGuard (Any (ClaimRead obc)))
          (Ordered DeletionGuard)
  unfolding claim_for_key
  claim_for_key-ClaimRead k =
      Triple-bind {Q' = λ _. Ordered DeletionGuard tt}
        (Triple-lift (E.split_key k) (λ a w h s. s) (λ w s. s))
        (λ at.
          Triple-call _ (claim_got at.0 at.1) (λ w a s k e. ((tt, k), inl refl))
            (λ w e s k _. (tt, k)))

module _ {E : Env} (c : Controller) (k : Text) where
  provision_claim-Live :
      (obc : ObjectBucketClaim) (class : StorageClass)
      → is_none obc.meta.deletion_timestamp ≡ true
      → Triple {E = E}
          (Kept DeletionGuard (Any (ClaimRead obc)))
          (provision_claim c k obc class)
          (λ _. Ordered DeletionGuard tt)
          (Ordered DeletionGuard)
  unfolding provision_claim
  provision_claim-Live obc class h =
      Triple-weaken
        (Triple-Kept DeletionGuard (Any-Lasting ReadLive) (
          Emits-bind (mark_pending-Emits _ obc (λ o r h t k. k))
            λ o. handle_provision_claim-Emits provision_events_guarded c k o class))
        (λ w s. (s.0, Any-map w.trace (λ e. ClaimRead-Live obc e h) s.1)) (λ a w s. s.0)
        (λ x w s. s)

  delete_claim-Deleting :
      (obc : ObjectBucketClaim)
      → is_none obc.meta.deletion_timestamp ≡ false
      → Triple {E = E}
          (Kept DeletionGuard (Any (ClaimRead obc)))
          (handle_delete_claim k obc)
          (λ _. Ordered DeletionGuard tt)
          (Ordered DeletionGuard)
  delete_claim-Deleting obc h =
      Triple-weaken
        (Triple-Kept DeletionGuard (Any-Lasting ReadDeleting)
          (handle_delete_claim-Emits delete_events_guarded k obc))
        (λ w s. (s.0, Any-map w.trace (λ e. ClaimRead-Deleting obc e h) s.1)) (λ a w s. s.0)
        (λ x w s. s)

  dispatch_claim-Deletion :
      (obc : ObjectBucketClaim) (class : StorageClass)
      → Triple {E = E}
          (Kept DeletionGuard (Any (ClaimRead obc)))
          (dispatch_claim c k obc class)
          (λ _. Ordered DeletionGuard tt)
          (Ordered DeletionGuard)
  unfolding dispatch_claim
  dispatch_claim-Deletion obc class =
      Triple-if (not (supported_provisioner c class.provisioner)) (λ _. Triple-pure _ (λ w s. s.0))
        (λ _.
          Triple-if (not (is_none obc.meta.deletion_timestamp))
            (λ h. delete_claim-Deleting obc (ground arith))
            (λ h. provision_claim-Live obc class (ground arith)))

  sync_found-Deletion :
      (r : Reply ObjectBucketClaim)
      → Triple {E = E}
          (AfterRead r)
          (sync_found c k r)
          (λ _. Ordered DeletionGuard tt)
          (Ordered DeletionGuard)
  unfolding sync_found
  sync_found-Deletion (failed e) =
      Triple-if (is_not_found e) (λ _. Triple-pure _ (λ w s. s)) (λ _. Triple-raise _ (λ w s. s))
  sync_found-Deletion (done obc) =
      Triple-bind
        (Triple-Kept DeletionGuard (Any-Lasting (ClaimRead obc))
          (handlers.storage_class_for_claim-Emits _ (λ n r t k. tt) (some obc)))
        (dispatch_claim-Deletion obc)

  sync_handler-Deletion :
      Triple {E = E}
        (Ordered DeletionGuard tt)
        (sync_handler c k)
        (λ _. Ordered DeletionGuard tt)
        (Ordered DeletionGuard)
  unfolding sync_handler
  sync_handler-Deletion =
      Triple-bind {Q' = AfterRead}
        (Triple-attempt {R' = Ordered DeletionGuard} (claim_for_key-ClaimRead k) (λ e w s. s)
          (λ w s. s))
        sync_found-Deletion

-- In every run of syncHandler, whatever the environment answers: Delete and Revoke are called and an
-- object bucket is deleted only after a claim was read that has a deletion timestamp; Provision and
-- Grant are called, an object bucket, a secret or a config map is created and the phase of a claim is
-- updated only after a claim was read that has none.
pub sync_handler-DeletionGuard :
    (E : Env) (c : Controller) (k : Text) (s : E.State)
    → Safe DeletionGuard (sync_handler {E = E} c k (fresh s)).1.trace
sync_handler-DeletionGuard E c k s =
    Triple-Safe DeletionGuard (sync_handler-Deletion c k) (fresh s) tt
