-- ===== src/Controller/Sync/Order.antt =====
-- syncHandler keeps an order of the calls, if the handlers of claims keep it and no call of its own
-- has a guard.
use lib_bucket_provisioner.Base.{
  Text, ◌==◌, true, false, Option, none, some, [], ◌≡◌, refl, is_none, not, inl, arith,
}
use lib_bucket_provisioner.V1alpha1.{ObjectBucketClaim, StorageClass}
use lib_bucket_provisioner.V1alpha1.Phase
use lib_bucket_provisioner.Cluster.Error.{Reply, done, failed, is_not_found}
use lib_bucket_provisioner.Cluster.Event.{Event, Trace, claim_got, class_got, claim_status_updated}
use lib_bucket_provisioner.Cluster.Env.{Env}
use lib_bucket_provisioner.Cluster.Emits.{
  Emits, Emits-if, Emits-pure, Emits-call, Emits-map_error, Emits-attempt,
}
use lib_bucket_provisioner.Cluster.Monad.{World}
use lib_bucket_provisioner.Handlers.Update.{update_object_bucket_claim_phase}
use lib_bucket_provisioner.Cluster.Triple.{
  Triple, Triple-bind, Triple-call, Triple-map_error, Triple-if, Triple-pure, Triple-raise,
  Triple-weaken,
}
use lib_bucket_provisioner.Cluster.Ordered.{Any, Any-map, Kept, Ordered, Triple-Ordered}
use lib_bucket_provisioner.Helpers.Lookups.{storage_class_for_claim}
use lib_bucket_provisioner.Handlers.Emits as handlers
use lib_bucket_provisioner.Controller.Resources.{Controller, supported_provisioner}
use lib_bucket_provisioner.Controller.Delete.{handle_delete_claim}
use lib_bucket_provisioner.Controller.Sync.{
  mark_pending, provision_claim, dispatch_claim, sync_found, sync_handler,
}

-- A world whose log is empty.
abbrev pub fresh : {E : Env} → E.State → World E
fresh s = record { state = s; trace = [] }

module _ {E : Env} where
  pub mark_pending-Emits :
      (P : Event → Type 0) (obc : ObjectBucketClaim)
      → ((o : ObjectBucketClaim) (r : Reply ObjectBucketClaim)
          → o.status.phase ≡ Phase.pending
          → P (claim_status_updated o r))
      → Emits P (mark_pending {E = E} obc)
  unfolding mark_pending update_object_bucket_claim_phase
  mark_pending-Emits P obc p =
      Emits-if (obc.status.phase == []) _ _
        (Emits-map_error _ (Emits-map_error _ (Emits-call _ _ (λ r. p _ r refl)))) (Emits-pure obc)

-- A storage class of the controller's provisioner was read.
abbrev pub SupportedClass : Controller → Event → Type 0
SupportedClass c (class_got name (done class)) = supported_provisioner c class.provisioner ≡ true
SupportedClass c _ = ⊥

abbrev ClassRead : StorageClass → Event → Type 0
ClassRead class (class_got name (done answer)) = answer ≡ class
ClassRead class _ = ⊥

ClassRead-Supported :
    (c : Controller) (class : StorageClass) (e : Event)
    → supported_provisioner c class.provisioner ≡ true
    → ClassRead class e
    → SupportedClass c e
ClassRead-Supported c class (class_got name (done answer)) h r = rw r h
ClassRead-Supported c class _ h r = r

-- The reads that syncHandler makes itself have no guard.
pub record Unguarded (G : Event → Trace → Type 0) : Type 0 where
  pub claim_read :
      (ns name : Text) (r : Reply ObjectBucketClaim) (t : Trace) → G (claim_got ns name r) t
  pub class_read : (name : Text) (r : Reply StorageClass) (t : Trace) → G (class_got name r) t

module _ {E : Env} (G : Event → Trace → Type 0) (free : Unguarded G) (c : Controller) where
  storage_class-ClassRead :
      (obc : Option ObjectBucketClaim)
      → Triple {E = E}
          (Ordered G tt)
          (storage_class_for_claim obc)
          (λ class. Kept G (Any (ClassRead class)))
          (Ordered G)
  unfolding storage_class_for_claim
  storage_class-ClassRead none = Triple-raise _ (λ w s. s)
  storage_class-ClassRead (some obc) =
      Triple-if (obc.spec.storage_class_name == []) (λ _. Triple-raise _ (λ w s. s))
        (λ _. Triple-map_error _ (
          Triple-call _ (class_got obc.spec.storage_class_name)
            (λ w class s k e. ((free.class_read _ _ _, k), inl refl))
            (λ w e s k _. (free.class_read _ _ _, k))))

  module _ (k : Text)
      (provides : (obc : ObjectBucketClaim) (class : StorageClass)
        → Triple {E = E}
            (Kept G (Any (SupportedClass c)))
            (provision_claim c k obc class)
            (λ _. Ordered G tt)
            (Ordered G))
      (deletes : (obc : ObjectBucketClaim)
        → Triple {E = E}
            (Kept G (Any (SupportedClass c)))
            (handle_delete_claim k obc)
            (λ _. Ordered G tt)
            (Ordered G)) where
    dispatch_claim-Ordered :
        (obc : ObjectBucketClaim) (class : StorageClass)
        → Triple {E = E}
            (Kept G (Any (ClassRead class)))
            (dispatch_claim c k obc class)
            (λ _. Ordered G tt)
            (Ordered G)
    unfolding dispatch_claim
    dispatch_claim-Ordered obc class =
        Triple-if (not (supported_provisioner c class.provisioner))
          (λ _. Triple-pure _ (λ w s. s.0))
          (λ h.
            Triple-weaken
              (Triple-if (not (is_none obc.meta.deletion_timestamp)) (λ _. deletes obc)
                (λ _. provides obc class))
              (λ w s. (s.0, Any-map w.trace (λ e. ClassRead-Supported c class e (supported h)) s.1))
              (λ a w s. s) (λ x w s. s))
      where
        supported :
            not (supported_provisioner c class.provisioner) ≡ false
            → supported_provisioner c class.provisioner ≡ true
        supported h = ground arith

    sync_found-Ordered :
        (r : Reply ObjectBucketClaim)
        → Triple {E = E} (Ordered G tt) (sync_found c k r) (λ _. Ordered G tt) (Ordered G)
    unfolding sync_found
    sync_found-Ordered (failed e) =
        Triple-if (is_not_found e) (λ _. Triple-pure _ (λ w s. s)) (λ _. Triple-raise _ (λ w s. s))
    sync_found-Ordered (done obc) =
        Triple-bind (storage_class-ClassRead (some obc)) (dispatch_claim-Ordered obc)

    pub sync_handler-Ordered :
        Triple {E = E} (Ordered G tt) (sync_handler c k) (λ _. Ordered G tt) (Ordered G)
    unfolding sync_handler
    sync_handler-Ordered =
        Triple-bind
          (Triple-Ordered G (Emits-attempt (handlers.claim_for_key-Emits _ free.claim_read k)))
          sync_found-Ordered
