-- ===== src/Controller/Panic/Whole.antt =====
-- The panics of handleDeleteClaim and of syncHandler.
use lib_bucket_provisioner.Base.{
  Text, Bool, true, false, Option, none, some, List, [], ◌∷◌, ◌≡◌, refl, is_none, not, inl,
}
use lib_bucket_provisioner.V1alpha1.{
  ObjectBucketClaim, ObjectBucket, StorageClass, ConfigMap, Secret,
}
use lib_bucket_provisioner.Cluster.Error.{Error, Reply, done, failed, is_not_found}
use lib_bucket_provisioner.Cluster.Event.{Event, Trace, bucket_status_updated}
use lib_bucket_provisioner.Cluster.Env.{Env}
use lib_bucket_provisioner.Cluster.Monad.{Outcome, panic, World, pure}
use lib_bucket_provisioner.Cluster.Triple.{
  Post, Triple-bind, Triple-call, Triple-map_error, Triple-if, Triple-pure, Triple-raise,
  Triple-deref,
}
use lib_bucket_provisioner.Cluster.Calm.{Calm, calm, OnCrash, Anyhow, Calm-Triple, Triple-Calm}
use lib_bucket_provisioner.Cluster.Ordered.{Any, Any-map, Any-Lasting}
use lib_bucket_provisioner.Helpers.Lookups.{
  claim_for_key, storage_class_for_claim, is_new_bucket_by_object_bucket,
  storage_class_for_object_bucket, config_map_for_claim_key, secret_for_claim_key,
}
use lib_bucket_provisioner.Handlers.Calm as handlers
use lib_bucket_provisioner.Handlers.Emits as emits
use lib_bucket_provisioner.Handlers.Update.{
  update_object_bucket_claim_phase, update_object_bucket_phase,
}
use lib_bucket_provisioner.Controller.Resources.{
  Controller, supported_provisioner, object_bucket_for_claim_key, get_resources_from_key,
  get_existing_resources_from_key,
}
use lib_bucket_provisioner.Controller.Delete.{
  return_error, delete_resources, wants_delete, deprovision, release_bucket, release_resources,
  fail_if_any, handle_delete_claim,
}
use lib_bucket_provisioner.Controller.Sync.{
  mark_pending, provision_claim, dispatch_claim, sync_found, sync_handler,
}
use lib_bucket_provisioner.Controller.Sync.Order.{fresh}
use lib_bucket_provisioner.Controller.Panic.{NilPointer, Explained}
use lib_bucket_provisioner.Controller.Panic.Provision.{handle_provision_claim-Explained}

abbrev StatusAnswer : ObjectBucket → Event → Type 0
StatusAnswer ob (bucket_status_updated sent (done answer)) = answer ≡ ob
StatusAnswer ob _ = ⊥

StatusAnswer-NilPointer :
    (E : Env) (ob : ObjectBucket) (e : Event)
    → ob.spec.reclaim_policy ≡ none
    → StatusAnswer ob e
    → NilPointer E e
StatusAnswer-NilPointer E ob (bucket_status_updated sent (done answer)) h r = rw r h
StatusAnswer-NilPointer E ob _ h r = absurd r

module _ {E : Env} where
  return_error-Calm : (e : Option Error) → Calm (return_error {E = E} e)
  unfolding return_error
  return_error-Calm none = search calm
  return_error-Calm (some e) = search calm

  delete_resources-Calm :
      (ob : Option ObjectBucket) (cm : Option ConfigMap) (s : Option Secret)
      (obc : Option ObjectBucketClaim)
      → Calm (delete_resources {E = E} ob cm s obc)
  unfolding delete_resources
  delete_resources-Calm ob cm s obc =
      search
        (
          calm, return_error-Calm, handlers.delete_object_bucket-Calm, handlers.release_secret-Calm,
          handlers.release_config_map-Calm, handlers.release_claim-Calm,
        )
        depth 8

  is_new_bucket-Calm : (ob : ObjectBucket) → Calm (is_new_bucket_by_object_bucket {E = E} ob)
  unfolding is_new_bucket_by_object_bucket storage_class_for_object_bucket
  is_new_bucket-Calm ob = search calm depth 8

  wants_delete-Explained :
      (ob : ObjectBucket) (new : Bool)
      → Explained {E = E} (λ w. Any (StatusAnswer ob) w.trace) (wants_delete ob new) Anyhow
  unfolding wants_delete
  wants_delete-Explained ob false = Triple-pure _ (λ w a. tt)
  wants_delete-Explained ob true =
      Triple-bind {Q' = Anyhow}
        (Triple-deref ob.spec.reclaim_policy (λ a w e p. tt)
          (λ w e p. Any-map w.trace (λ x. StatusAnswer-NilPointer E ob x e) p))
        λ policy. Triple-pure _ (λ w a. tt)

  deprovision-Explained :
      (ob : ObjectBucket)
      → Explained {E = E} (λ w. Any (StatusAnswer ob) w.trace) (deprovision ob) Anyhow
  unfolding deprovision
  deprovision-Explained ob =
      Triple-bind {Q' = λ _ w. Any (StatusAnswer ob) w.trace}
        (Triple-Calm _ (Any-Lasting (StatusAnswer ob)) (is_new_bucket-Calm ob)
          (emits.is_new_bucket-Emits _ (λ n r. tt) ob))
        λ new.
          Triple-bind {Q' = Anyhow} (wants_delete-Explained ob new)
            λ delete. Calm-Triple _ (search calm)

  release_bucket-Explained :
      (found : ObjectBucket) (cm : Option ConfigMap) (s : Option Secret) (obc : ObjectBucketClaim)
      → Explained {E = E} (Anyhow tt) (release_bucket found cm s obc) Anyhow
  unfolding release_bucket update_object_bucket_phase
  release_bucket-Explained found cm s obc =
      Triple-bind {Q' = λ ob w. Any (StatusAnswer ob) w.trace}
        (Triple-map_error _ (Triple-call _ _ (λ w a s k e. inl refl) (λ w a s k e. tt)))
        λ ob.
          Triple-bind {Q' = Anyhow} (deprovision-Explained ob)
            λ _. Calm-Triple _ (delete_resources-Calm (some ob) cm s (some obc))

  release_resources-Explained :
      (ob : Option ObjectBucket) (cm : Option ConfigMap) (s : Option Secret)
      (obc : ObjectBucketClaim)
      → Explained {E = E} (Anyhow tt) (release_resources ob cm s obc) Anyhow
  unfolding release_resources
  release_resources-Explained none cm s obc =
      Calm-Triple _ (delete_resources-Calm none cm s (some obc))
  release_resources-Explained (some ob) cm s obc =
      elim ob.spec.reclaim_policy
        as (λ policy.
          Explained {E = E} (Anyhow tt)
            (elim policy [ none ↦ pure tt | some _ ↦ release_bucket ob cm s obc ]) Anyhow) [
              | none ↦ Triple-pure _ (λ w a. tt)
              | some _ ↦ release_bucket-Explained ob cm s obc
            ]

  fail_if_any-Calm : (errs : List Error) → Calm (fail_if_any {E = E} errs)
  unfolding fail_if_any
  fail_if_any-Calm [] = search calm
  fail_if_any-Calm (e ∷ errs) = search calm

  get_existing_resources-Calm : (key : Text) → Calm (get_existing_resources_from_key {E = E} key)
  unfolding get_existing_resources_from_key get_resources_from_key object_bucket_for_claim_key
      config_map_for_claim_key secret_for_claim_key
  get_existing_resources-Calm key = search calm depth 9

  handle_delete_claim-Explained :
      (key : Text) (obc : ObjectBucketClaim)
      → Explained {E = E} (Anyhow tt) (handle_delete_claim key obc) Anyhow
  unfolding handle_delete_claim
  handle_delete_claim-Explained key obc =
      Triple-bind {Q' = Anyhow} (Calm-Triple _ (get_existing_resources-Calm key)) λ r.
        Triple-bind {Q' = Anyhow} (Calm-Triple _ (fail_if_any-Calm r.errs))
          λ _. release_resources-Explained r.ob r.cm r.secret obc

  storage_class-Calm : (obc : Option ObjectBucketClaim) → Calm (storage_class_for_claim {E = E} obc)
  unfolding storage_class_for_claim
  storage_class-Calm none = search calm
  storage_class-Calm (some obc) = search calm

  provision_claim-Explained :
      (c : Controller) (key : Text) (obc : ObjectBucketClaim) (class : StorageClass)
      → Explained {E = E} (Anyhow tt) (provision_claim c key obc class) Anyhow
  unfolding provision_claim mark_pending update_object_bucket_claim_phase
  provision_claim-Explained c key obc class =
      Triple-bind {Q' = Anyhow} (Calm-Triple _ (search calm))
        λ pending. handle_provision_claim-Explained c key pending class

  dispatch_claim-Explained :
      (c : Controller) (key : Text) (obc : ObjectBucketClaim) (class : StorageClass)
      → Explained {E = E} (Anyhow tt) (dispatch_claim c key obc class) Anyhow
  unfolding dispatch_claim
  dispatch_claim-Explained c key obc class =
      Triple-if (not (supported_provisioner c class.provisioner)) (λ _. Triple-pure _ (λ w a. tt))
        (λ _.
          Triple-if (not (is_none obc.meta.deletion_timestamp))
            (λ _. handle_delete_claim-Explained key obc)
            (λ _. provision_claim-Explained c key obc class))

  sync_found-Explained :
      (c : Controller) (key : Text) (r : Reply ObjectBucketClaim)
      → Explained {E = E} (Anyhow tt) (sync_found c key r) Anyhow
  unfolding sync_found
  sync_found-Explained c key (failed e) =
      Triple-if (is_not_found e) (λ _. Triple-pure _ (λ w a. tt)) (λ _. Triple-raise _ (λ w a. tt))
  sync_found-Explained c key (done obc) =
      Triple-bind {Q' = Anyhow} (Calm-Triple _ (storage_class-Calm (some obc)))
        (dispatch_claim-Explained c key obc)

  sync_handler-Explained :
      (c : Controller) (key : Text) → Explained {E = E} (Anyhow tt) (sync_handler c key) Anyhow
  unfolding sync_handler claim_for_key
  sync_handler-Explained c key =
      Triple-bind {Q' = Anyhow} (Calm-Triple _ (search calm)) (sync_found-Explained c key)

panicked :
    {E : Env} (K : Trace → Type 0) (r : Outcome (Unit {0})) (w : World E)
    → Post Anyhow (OnCrash K) r w
    → r ≡ panic
    → K w.trace
panicked K r w p h = rw h at p

-- A run of syncHandler that ends in a panic has got an object bucket with a nil pointer: one from the
-- API server without a connection or an endpoint, one from Provision or Grant without a connection,
-- one as the answer to a status update without a reclaim policy, or, if the client's UpdateStatus
-- returns nil beside an error, the result of a status update that has failed.
pub sync_handler-panic :
    (E : Env) (c : Controller) (key : Text) (s : E.State)
    → (sync_handler {E = E} c key (fresh s)).0 ≡ panic
    → Any (NilPointer E) (sync_handler {E = E} c key (fresh s)).1.trace
sync_handler-panic E c key s h =
    let w : World E = fresh s in
    panicked (Any (NilPointer E)) (sync_handler c key w).0 (sync_handler c key w).1
      ((sync_handler-Explained c key).at w tt) h
