-- ===== src/Controller/Safety.antt =====
-- The order of the calls in a run of syncHandler for a key, in any environment. The log holds the calls
-- of that run alone.
use lib_bucket_provisioner.Base.{Text, ◌==◌, Bool, true, false, ◌≡◌}
use lib_bucket_provisioner.V1alpha1.{ObjectBucketClaim, StorageClass}
use lib_bucket_provisioner.V1alpha1.Phase
use lib_bucket_provisioner.Cluster.Error.{Reply}
use lib_bucket_provisioner.Cluster.Event.{
  Event, Trace, claim_got, bucket_got, secret_got, config_map_got, class_got, requeued, forgotten,
  finished, claim_status_updated,
}
use lib_bucket_provisioner.Cluster.Env.{Env}
use lib_bucket_provisioner.Cluster.Emits.{Emits-bind}
use lib_bucket_provisioner.Cluster.Triple.{Triple, Triple-bind, Triple-weaken}
use lib_bucket_provisioner.Cluster.Ordered.{
  Any, Any-Lasting, Safe, Kept, Ordered, Triple-Ordered, Triple-Kept, Triple-Safe,
}
use lib_bucket_provisioner.Controller.Emits.Whole.{
  handle_provision_claim-Emits, handle_delete_claim-Emits, provision_events, delete_events,
  DeleteEvents,
}
use lib_bucket_provisioner.Controller.Resources.{Controller}
use lib_bucket_provisioner.Controller.Provision.{handle_provision_claim}
use lib_bucket_provisioner.Controller.Provision.Order.{
  ProvisionGuard, handle_provision_claim-Triple,
}
use lib_bucket_provisioner.Controller.Provision.Saving.{BindGuard}
use lib_bucket_provisioner.Controller.Provision.Unmodified.{
  UnmodifiedGuard, handle_provision_claim-Unmodified,
}
use lib_bucket_provisioner.Controller.Provision.Bind.{handle_provision_claim-binds}
use lib_bucket_provisioner.Controller.Delete.{handle_delete_claim}
use lib_bucket_provisioner.Controller.Sync.{provision_claim, sync_handler}
use lib_bucket_provisioner.Controller.Sync.Order.{
  mark_pending-Emits, fresh, SupportedClass, Unguarded, sync_handler-Ordered,
}

module _ {E : Env} where
  -- A new phase of Pending, and then a handler that keeps the order.
  provision_claim-Ordered :
      (G : Event → Trace → Type 0)
      → ((o : ObjectBucketClaim) (r : Reply ObjectBucketClaim) (t : Trace)
          → o.status.phase ≡ Phase.pending
          → G (claim_status_updated o r) t)
      → (c : Controller) (k : Text) (obc : ObjectBucketClaim) (class : StorageClass)
      → ((o : ObjectBucketClaim)
          → Triple {E = E}
              (Ordered G tt)
              (handle_provision_claim c k o class)
              (λ _. Ordered G tt)
              (Ordered G))
      → Triple {E = E}
          (Kept G (Any (SupportedClass c)))
          (provision_claim c k obc class)
          (λ _. Ordered G tt)
          (Ordered G)
  unfolding provision_claim
  provision_claim-Ordered G pending c k obc class handles =
      Triple-weaken
        (Triple-bind (Triple-Ordered G (mark_pending-Emits _ obc (λ o r h t. pending o r t h)))
          handles)
        (λ w s. s.0) (λ a w s. s) (λ x w s. s)

  delete_claim-Ordered :
      (G : Event → Trace → Type 0)
      → DeleteEvents (λ e. (t : Trace) → G e t)
      → (c : Controller) (k : Text) (obc : ObjectBucketClaim)
      → Triple {E = E}
          (Kept G (Any (SupportedClass c)))
          (handle_delete_claim k obc)
          (λ _. Ordered G tt)
          (Ordered G)
  delete_claim-Ordered G d c k obc =
      Triple-weaken (Triple-Ordered G (handle_delete_claim-Emits d k obc)) (λ w s. s.0) (λ a w s. s)
        (λ x w s. s)

-- Calls that write to the API server or go to the provisioner.
abbrev pub is_write : Event → Bool
is_write (claim_got _ _ _) = false
is_write (bucket_got _ _) = false
is_write (secret_got _ _ _) = false
is_write (config_map_got _ _ _) = false
is_write (class_got _ _) = false
is_write (requeued _) = false
is_write (forgotten _) = false
is_write (finished _) = false
is_write _ = true

abbrev pub SupportedGuard : Controller → Event → Trace → Type 0
SupportedGuard c e t = is_write e ≡ true → Any (SupportedClass c) t

provision_unguarded : Unguarded ProvisionGuard
provision_unguarded = record { claim_read = λ _ _ _ _. tt; class_read = λ _ _ _. tt }

bind_unguarded : Unguarded BindGuard
bind_unguarded = record { claim_read = λ _ _ _ _. tt; class_read = λ _ _ _. tt }

supported_unguarded : (c : Controller) → Unguarded (SupportedGuard c)
supported_unguarded c = record { claim_read = λ _ _ _ _ h. cc; class_read = λ _ _ _ h. cc }

provision_delete_events : DeleteEvents (λ e. (t : Trace) → ProvisionGuard e t)
provision_delete_events = search (tt)

bind_delete_events : DeleteEvents (λ e. (t : Trace) → BindGuard e t)
bind_delete_events = search (tt)

pending-ne-bound : (phase : Text) → phase ≡ Phase.pending → (phase == Phase.bound) ≡ true → ⊥
unfolding ◌==◌
pending-ne-bound phase e h = let h' : (Phase.pending == Phase.bound) ≡ true = rw e at h in cc

supported_all :
    (c : Controller) (e : Event) (t : Trace) → Any (SupportedClass c) t → SupportedGuard c e t
supported_all c e t k h = k

module _ {E : Env} (c : Controller) where
  provision_claim-Supported :
      (k : Text) (obc : ObjectBucketClaim) (class : StorageClass)
      → Triple {E = E}
          (Kept (SupportedGuard c) (Any (SupportedClass c)))
          (provision_claim c k obc class)
          (λ _. Ordered (SupportedGuard c) tt)
          (Ordered (SupportedGuard c))
  unfolding provision_claim
  provision_claim-Supported k obc class =
      Triple-weaken
        (Triple-Kept (SupportedGuard c) (Any-Lasting (SupportedClass c)) (
          Emits-bind
            (mark_pending-Emits _ obc (λ o r h t k. supported_all c (claim_status_updated o r) t k))
            λ o. handle_provision_claim-Emits (provision_events (supported_all c)) c k o class))
        (λ w s. s) (λ a w s. s.0) (λ x w s. s)

  delete_claim-Supported :
      (k : Text) (obc : ObjectBucketClaim)
      → Triple {E = E}
          (Kept (SupportedGuard c) (Any (SupportedClass c)))
          (handle_delete_claim k obc)
          (λ _. Ordered (SupportedGuard c) tt)
          (Ordered (SupportedGuard c))
  delete_claim-Supported k obc =
      Triple-weaken
        (Triple-Kept (SupportedGuard c) (Any-Lasting (SupportedClass c))
          (handle_delete_claim-Emits (delete_events (supported_all c)) k obc))
        (λ w s. s) (λ a w s. s.0) (λ x w s. s)

unmodified_unguarded : (E : Env) (key : Text) → Unguarded (UnmodifiedGuard E key)
unmodified_unguarded E key = record { claim_read = λ _ _ _ _. tt; class_read = λ _ _ _. tt }

unmodified_delete_events :
    (E : Env) (key : Text) → DeleteEvents (λ e. (t : Trace) → UnmodifiedGuard E key e t)
unmodified_delete_events E key = search (tt)

module _ (E : Env) (c : Controller) (k : Text) (s : E.State) where
  -- In every run of syncHandler, whatever the environment answers: Provision and Grant are called only
  -- after a claim was stored and the object bucket of the key was read, and either there was none, or
  -- it has the bucket name and the storage class of the claim as it was stored.
  pub sync_handler-UnmodifiedGuard :
      Safe (UnmodifiedGuard E k) (sync_handler {E = E} c k (fresh s)).1.trace
  sync_handler-UnmodifiedGuard =
      Triple-Safe (UnmodifiedGuard E k)
        (sync_handler-Ordered (UnmodifiedGuard E k) (unmodified_unguarded E k) c k
          (λ obc class.
            provision_claim-Ordered (UnmodifiedGuard E k) (λ o r t h. tt) c k obc class
              (λ o. handle_provision_claim-Unmodified E k c o class))
          (delete_claim-Ordered (UnmodifiedGuard E k) (unmodified_delete_events E k) c k))
        (fresh s) tt

  -- In every run of syncHandler, whatever the environment answers: Provision is called only after a
  -- claim was stored with the controller's finalizer, and after the bucket name that it is given was
  -- stored in a claim or found in a stored claim's answer; Grant is called only after a claim was
  -- stored with the finalizer.
  pub sync_handler-ProvisionGuard : Safe ProvisionGuard (sync_handler {E = E} c k (fresh s)).1.trace
  sync_handler-ProvisionGuard =
      Triple-Safe ProvisionGuard
        (sync_handler-Ordered ProvisionGuard provision_unguarded c k
          (λ obc class.
            provision_claim-Ordered ProvisionGuard (λ o r t h. tt) c k obc class
              (λ o. handle_provision_claim-Triple c k o class))
          (delete_claim-Ordered ProvisionGuard provision_delete_events c k))
        (fresh s) tt

  -- In every run of syncHandler, whatever the environment answers: an object bucket is created only
  -- after a secret and a config map were created or updated, and the phase Bound is sent for a claim
  -- only after these and after the phase Bound of an object bucket was stored.
  pub sync_handler-BindGuard : Safe BindGuard (sync_handler {E = E} c k (fresh s)).1.trace
  sync_handler-BindGuard =
      Triple-Safe BindGuard
        (sync_handler-Ordered BindGuard bind_unguarded c k
          (λ obc class.
            provision_claim-Ordered BindGuard
              (λ o r t h b. absurd (pending-ne-bound o.status.phase h b)) c k obc class
              (λ o. handle_provision_claim-binds c k o class))
          (delete_claim-Ordered BindGuard bind_delete_events c k))
        (fresh s) tt

  -- In every run of syncHandler, whatever the environment answers: nothing is written to the API
  -- server and the provisioner is not called before a storage class was read that names the
  -- provisioner of the controller.
  pub sync_handler-SupportedGuard :
      Safe (SupportedGuard c) (sync_handler {E = E} c k (fresh s)).1.trace
  sync_handler-SupportedGuard =
      Triple-Safe (SupportedGuard c)
        (sync_handler-Ordered (SupportedGuard c) (supported_unguarded c) c k
          (provision_claim-Supported c k) (delete_claim-Supported c k))
        (fresh s) tt
