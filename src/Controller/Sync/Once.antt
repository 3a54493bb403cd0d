-- ===== src/Controller/Sync/Once.antt =====
-- syncHandler calls the provisioner at most once in a run.
use lib_bucket_provisioner.Base.{Text, Option, none, some, refl, is_none, not}
use lib_bucket_provisioner.V1alpha1.{
  ObjectBucketClaim, ObjectBucket, ConfigMap, Secret, StorageClass,
}
use lib_bucket_provisioner.Cluster.Error.{Reply, done, failed, is_not_found}
use lib_bucket_provisioner.Cluster.Event.{removed, revoked}
use lib_bucket_provisioner.Cluster.Env.{Env}
use lib_bucket_provisioner.Cluster.Monad.{pure}
use lib_bucket_provisioner.Cluster.Emits.{Emits-attempt, Emits-map_error, Emits-call}
use lib_bucket_provisioner.Cluster.Triple.{
  Triple, Triple-bind, Triple-call, Triple-map_error, Triple-if, Triple-pure, Triple-raise,
  Triple-weaken,
}
use lib_bucket_provisioner.Cluster.Ordered.{Safe, Ordered, Safe-from}
use lib_bucket_provisioner.Handlers.Update.{update_object_bucket_phase}
use lib_bucket_provisioner.Handlers.Emits as handlers
use lib_bucket_provisioner.Controller.Emits as emits
use lib_bucket_provisioner.Controller.Resources.{Controller, supported_provisioner}
use lib_bucket_provisioner.Controller.Delete.{
  deprovision, release_bucket, release_resources, handle_delete_claim,
}
use lib_bucket_provisioner.Controller.Sync.{
  provision_claim, dispatch_claim, sync_found, sync_handler,
}
use lib_bucket_provisioner.Controller.Sync.Order.{mark_pending-Emits, fresh}
use lib_bucket_provisioner.Controller.Sync.Uncalled.{
  OnceGuard, Uncalled, before, after, delete_resources-after, handle_provision_claim-once,
}

module _ {E : Env} where
  deprovision-once :
      (ob : ObjectBucket)
      → Triple {E = E} Uncalled (deprovision ob) (λ _. Ordered OnceGuard tt) (Ordered OnceGuard)
  unfolding deprovision
  deprovision-once ob =
      Triple-bind (before (handlers.is_new_bucket-Emits _ (λ n r. refl) ob)) λ new.
        Triple-bind (before (emits.wants_delete-Emits _ ob new)) λ delete.
          Triple-if delete
            (λ _. Triple-map_error _ (
              Triple-call _ (removed ob) (λ w a s k e. ((λ _ any. k.1 any), k.0))
                (λ w a s k e. ((λ _ any. k.1 any), k.0))))
            (λ _. Triple-map_error _ (
              Triple-call _ (revoked ob) (λ w a s k e. ((λ _ any. k.1 any), k.0))
                (λ w a s k e. ((λ _ any. k.1 any), k.0))))

  release_bucket-once :
      (ob : ObjectBucket) (cm : Option ConfigMap) (s : Option Secret) (obc : ObjectBucketClaim)
      → Triple {E = E} Uncalled
          (release_bucket ob cm s obc)
          (λ _. Ordered OnceGuard tt)
          (Ordered OnceGuard)
  unfolding release_bucket update_object_bucket_phase
  release_bucket-once found cm s obc =
      Triple-bind (before (Emits-map_error _ (Emits-call _ _ (λ r. refl)))) λ ob.
        Triple-bind (deprovision-once ob)
          λ _. after (delete_resources-after (some ob) cm s (some obc))

  release_resources-once :
      (ob : Option ObjectBucket) (cm : Option ConfigMap) (s : Option Secret)
      (obc : ObjectBucketClaim)
      → Triple {E = E} Uncalled
          (release_resources ob cm s obc)
          (λ _. Ordered OnceGuard tt)
          (Ordered OnceGuard)
  unfolding release_resources
  release_resources-once none cm s obc =
      Triple-weaken (after (delete_resources-after none cm s (some obc))) (λ w k. k.0) (λ a w s. s)
        (λ x w s. s)
  release_resources-once (some ob) cm s obc =
      elim ob.spec.reclaim_policy
        as (λ policy.
          Triple {E = E} Uncalled
            (elim policy [ none ↦ pure tt | some _ ↦ release_bucket ob cm s obc ])
            (λ _. Ordered OnceGuard tt) (Ordered OnceGuard)) [
              | none ↦ Triple-pure _ (λ w k. k.0)
              | some _ ↦ release_bucket-once ob cm s obc
            ]

  handle_delete_claim-once :
      (key : Text) (obc : ObjectBucketClaim)
      → Triple {E = E} Uncalled
          (handle_delete_claim key obc)
          (λ _. Ordered OnceGuard tt)
          (Ordered OnceGuard)
  unfolding handle_delete_claim
  handle_delete_claim-once key obc =
      Triple-bind
        (before (
          emits.get_existing_resources-Emits _ (λ n r. refl) (λ ns n r. refl) (λ ns n r. refl) key))
        λ r.
          Triple-bind (before (emits.fail_if_any-Emits _ r.errs))
            λ _. release_resources-once r.ob r.cm r.secret obc

  provision_claim-once :
      (c : Controller) (k : Text) (obc : ObjectBucketClaim) (class : StorageClass)
      → Triple {E = E} Uncalled
          (provision_claim c k obc class)
          (λ _. Ordered OnceGuard tt)
          (Ordered OnceGuard)
  unfolding provision_claim
  provision_claim-once c k obc class =
      Triple-bind (before (mark_pending-Emits _ obc (λ o r h. refl)))
        λ o. handle_provision_claim-once c k o class

  sync_found-once :
      (c : Controller) (k : Text) (r : Reply ObjectBucketClaim)
      → Triple {E = E} Uncalled (sync_found c k r) (λ _. Ordered OnceGuard tt) (Ordered OnceGuard)
  unfolding sync_found dispatch_claim
  sync_found-once c k (failed e) =
      Triple-if (is_not_found e) (λ _. Triple-pure _ (λ w s. s.0))
        (λ _. Triple-raise _ (λ w s. s.0))
  sync_found-once c k (done obc) =
      Triple-bind (before (handlers.storage_class_for_claim-Emits _ (λ n r. refl) (some obc)))
        λ class.
          Triple-if (not (supported_provisioner c class.provisioner))
            (λ _. Triple-pure _ (λ w s. s.0))
            λ _.
              Triple-if (not (is_none obc.meta.deletion_timestamp))
                (λ _. handle_delete_claim-once k obc) (λ _. provision_claim-once c k obc class)

  sync_handler-once :
      (c : Controller) (k : Text)
      → Triple {E = E} Uncalled (sync_handler c k) (λ _. Ordered OnceGuard tt) (Ordered OnceGuard)
  unfolding sync_handler
  sync_handler-once c k =
      Triple-bind (before (Emits-attempt (handlers.claim_for_key-Emits _ (λ ns n r. refl) k)))
        (sync_found-once c k)

-- In every run of syncHandler, whatever the environment answers, the provisioner is called at most
-- once: no Provision, Grant, Delete or Revoke comes after another of these.
pub sync_handler-OnceGuard :
    (E : Env) (c : Controller) (k : Text) (s : E.State)
    → Safe OnceGuard (sync_handler {E = E} c k (fresh s)).1.trace
sync_handler-OnceGuard E c k s =
    Safe-from OnceGuard (sync_handler-once c k) (fresh s) (tt, λ any. any)
