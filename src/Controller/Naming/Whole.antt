-- ===== src/Controller/Naming/Whole.antt =====
-- syncHandler keeps the stored bucket name, and what follows for repeated runs.
use lib_bucket_provisioner.Base.{ℕ, zero, suc, Text, ◌==◌, true, none, some, is_none, not, [], ◌≡◌}
use lib_bucket_provisioner.V1alpha1.{ObjectBucketClaim, StorageClass}
use lib_bucket_provisioner.Cluster.Error.{Reply, done, failed, is_not_found}
use lib_bucket_provisioner.Cluster.Event.{
  Event, Trace, claim_got, claim_updated, class_got, provisioned,
}
use lib_bucket_provisioner.Cluster.Env.{Env}
use lib_bucket_provisioner.Cluster.Monad.{World}
use lib_bucket_provisioner.Cluster.Triple.{
  Triple, Triple-bind, Triple-call, Triple-map_error, Triple-lift, Triple-attempt, Triple-if,
  Triple-pure, Triple-raise, Triple-weaken,
}
use lib_bucket_provisioner.Cluster.Ordered.{Safe, Lasting, Kept, Ordered, Triple-Kept, Triple-Safe}
use lib_bucket_provisioner.Helpers.Lookups.{
  claim_for_key, storage_class_for_claim, is_new_bucket_by_storage_class,
}
use lib_bucket_provisioner.Handlers.Update.{update_object_bucket_claim_phase}
use lib_bucket_provisioner.Controller.Resources.{Controller, supported_provisioner}
use lib_bucket_provisioner.Controller.Delete.{handle_delete_claim}
use lib_bucket_provisioner.Controller.Emits.Whole.{handle_delete_claim-Emits, delete_events}
use lib_bucket_provisioner.Controller.Sync.{
  mark_pending, provision_claim, dispatch_claim, sync_found, sync_handler,
}
use lib_bucket_provisioner.Controller.Sync.Order.{fresh}
use lib_bucket_provisioner.Controller.Naming.{
  retried, stored, Faithful, NameGuard, AllFor, Safe-AllFor,
}
use lib_bucket_provisioner.Controller.Naming.Stages.{Under, OfClaim}
use lib_bucket_provisioner.Controller.Naming.Provision.{handle_provision_claim-Named}

-- The claim has the stored name and is not being deleted.
abbrev Present : ObjectBucketClaim → Text → Type 0
Present obc s = (obc.spec.bucket_name ≡ s) × (obc.meta.deletion_timestamp ≡ none)

-- The same, and the class is for new buckets.
abbrev PresentIn : ObjectBucketClaim → StorageClass → Text → Type 0
PresentIn obc class s =
    (obc.spec.bucket_name ≡ s)
    × (obc.meta.deletion_timestamp ≡ none)
    × (is_new_bucket_by_storage_class class ≡ true)

module _ (first : Text) where
  -- The answers were not all faithful.
  abbrev Unfaithful : Trace → Type 0
  Unfaithful t = Safe (Faithful first) t → ⊥

  Unfaithful-Lasting : Lasting Unfaithful
  Unfaithful-Lasting = record { later = λ e t k cons. k cons.1 }

  Unfaithful-NameGuard : (e : Event) (t : Trace) → Unfaithful t → NameGuard first e t
  Unfaithful-NameGuard (claim_updated sent r) t k = λ cons. absurd (k cons)
  Unfaithful-NameGuard (provisioned o r) t k = λ cons. absurd (k cons)
  Unfaithful-NameGuard _ t k = tt

  module _ {E : Env} (c : Controller) (key : Text) where
    mark_pending-Named :
        (class : StorageClass) (obc : ObjectBucketClaim)
        → Triple {E = E}
            (Kept (NameGuard first) (Under first (OfClaim class obc)))
            (mark_pending obc)
            (λ pending. Kept (NameGuard first) (Under first (OfClaim class pending)))
            (Ordered (NameGuard first))
    unfolding mark_pending update_object_bucket_claim_phase
    mark_pending-Named class obc =
        Triple-if (obc.status.phase == [])
          (λ _. Triple-map_error _ (
            Triple-map_error _ (
              Triple-call _ _ (λ w a s k e. ((tt, k.0), λ cons. (cons.0, (k.1 cons.1).1)))
                (λ w a s k e. (tt, k.0)))))
          (λ _. Triple-pure _ (λ w k. k))

    deleted-Named :
        (obc : ObjectBucketClaim)
        → Triple {E = E}
            (Kept (NameGuard first) Unfaithful)
            (handle_delete_claim key obc)
            (λ _. Ordered (NameGuard first) tt)
            (Ordered (NameGuard first))
    deleted-Named obc =
        Triple-weaken
          (Triple-Kept (NameGuard first) Unfaithful-Lasting
            (handle_delete_claim-Emits (delete_events Unfaithful-NameGuard) key obc))
          (λ w k. k) (λ a w k. k.0) (λ x w k. k)

    dispatch_claim-Named :
        (obc : ObjectBucketClaim) (class : StorageClass)
        → Triple {E = E}
            (Kept (NameGuard first) (Under first (PresentIn obc class)))
            (dispatch_claim c key obc class)
            (λ _. Ordered (NameGuard first) tt)
            (Ordered (NameGuard first))
    unfolding dispatch_claim provision_claim
    dispatch_claim-Named obc class =
        Triple-if (not (supported_provisioner c class.provisioner))
          (λ _. Triple-pure _ (λ w k. k.0))
          (λ _.
            Triple-if (not (is_none obc.meta.deletion_timestamp))
              (λ deleted.
                Triple-weaken (deleted-Named obc)
                  (λ w k. (k.0, λ cons. still_there obc (k.1 cons).1 deleted)) (λ a w k. k)
                  (λ x w k. k))
              (λ _.
                Triple-weaken
                  (Triple-bind (mark_pending-Named class obc)
                    (handle_provision_claim-Named first class c key))
                  (λ w k. (k.0, λ cons. ((k.1 cons).0, (k.1 cons).2))) (λ a w k. k) (λ x w k. k)))
      where
        still_there :
            (obc : ObjectBucketClaim)
            → obc.meta.deletion_timestamp ≡ none
            → not (is_none obc.meta.deletion_timestamp) ≡ true
            → ⊥
        still_there obc e h = let h' : not (is_none {A = Text} none) ≡ true = rw e at h in cc

    storage_class-Named :
        (obc : ObjectBucketClaim)
        → Triple {E = E}
            (Kept (NameGuard first) (Under first (Present obc)))
            (storage_class_for_claim (some obc))
            (λ class. Kept (NameGuard first) (Under first (PresentIn obc class)))
            (Ordered (NameGuard first))
    unfolding storage_class_for_claim
    storage_class-Named obc =
        Triple-if (obc.spec.storage_class_name == []) (λ _. Triple-raise _ (λ w k. k.0))
          (λ _. Triple-map_error _ (
            Triple-call _ (class_got obc.spec.storage_class_name)
              (λ w a s k e. ((tt, k.0), λ cons. ((k.1 cons.1).0, (k.1 cons.1).1, cons.0)))
              (λ w a s k e. (tt, k.0))))

    claim_for_key-Named :
        Triple {E = E}
          (Ordered (NameGuard first) tt)
          (claim_for_key key)
          (λ obc. Kept (NameGuard first) (Under first (Present obc)))
          (Ordered (NameGuard first))
    unfolding claim_for_key
    claim_for_key-Named =
        Triple-bind {Q' = λ at. Ordered (NameGuard first) tt}
          (Triple-lift (E.split_key key) (λ a w e k. k) (λ w k. k))
          λ at.
            Triple-call _ (claim_got at.0 at.1) (λ w a s k e. ((tt, k), λ cons. cons.0))
              (λ w a s k e. (tt, k))

    -- Found, or not.
    abbrev Looked : Reply ObjectBucketClaim → World E → Type 0
    Looked (done obc) w = Kept (NameGuard first) (Under first (Present obc)) w
    Looked (failed e) w = Safe (NameGuard first) w.trace

    sync_found-Named :
        (r : Reply ObjectBucketClaim)
        → Triple {E = E}
            (Looked r)
            (sync_found c key r)
            (λ _. Ordered (NameGuard first) tt)
            (Ordered (NameGuard first))
    unfolding sync_found
    sync_found-Named (failed e) =
        Triple-if (is_not_found e) (λ _. Triple-pure _ (λ w k. k)) (λ _. Triple-raise _ (λ w k. k))
    sync_found-Named (done obc) = Triple-bind (storage_class-Named obc) (dispatch_claim-Named obc)

    sync_handler-Named :
        Triple {E = E}
          (Ordered (NameGuard first) tt)
          (sync_handler c key)
          (λ _. Ordered (NameGuard first) tt)
          (Ordered (NameGuard first))
    unfolding sync_handler
    sync_handler-Named =
        Triple-bind {Q' = Looked} (Triple-attempt claim_for_key-Named (λ e w k. k) (λ w k. k))
          sync_found-Named

    retried-Safe :
        (n : ℕ) (w : World E)
        → Safe (NameGuard first) w.trace
        → Safe (NameGuard first) (retried n c key w).trace
    unfolding retried
    retried-Safe zero w s = s
    retried-Safe (suc n) w s =
        retried-Safe n (sync_handler c key w).1
          (Triple-Safe (NameGuard first) sync_handler-Named w s)

-- However often syncHandler runs for a key, and wherever each run fails or panics: if the API server
-- answers with the bucket name that was stored in the claim last, the claim is not being deleted, and
-- its storage class is for new buckets, then all calls of Provision in these runs are for one bucket
-- name, which is not empty and is the one that the claim has at the end.
pub retried-AllFor :
    (E : Env) (c : Controller) (key first : Text) (n : ℕ) (s : E.State)
    → (let t = (retried {E = E} n c key (fresh s)).trace in Safe (Faithful first) t)
    → let t = (retried {E = E} n c key (fresh s)).trace in AllFor (stored first t) t
retried-AllFor E c key first n s faithful =
    Safe-AllFor first _ (retried-Safe first c key n (fresh s) tt) faithful
