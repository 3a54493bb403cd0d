-- ===== src/Controller/Delete/Order.antt =====
-- handleDeleteClaim: what must have happened before the bucket is deleted or revoked, and before
-- anything is released.
use lib_bucket_provisioner.Base.{
  Text, ◌==◌, Bool, true, false, Option, none, some, List, [], ◌∷◌, ◌≡◌, refl, inl, inr,
}
use lib_bucket_provisioner.V1alpha1.{ObjectBucketClaim, ObjectBucket, ConfigMap, Secret}
use lib_bucket_provisioner.V1alpha1.Phase
use lib_bucket_provisioner.V1alpha1.DeepCopy.{deep_copy_bucket}
use lib_bucket_provisioner.Cluster.Error.{Error, done}
use lib_bucket_provisioner.Cluster.Event.{Trace, bucket_status_updated, class_got, removed, revoked}
use lib_bucket_provisioner.Cluster.Env.{Env}
use lib_bucket_provisioner.Cluster.Monad.{World, pure}
use lib_bucket_provisioner.Cluster.Triple.{
  Triple, Triple-bind, Triple-call, Triple-map_error, Triple-if, Triple-pure, Triple-raise,
  Triple-weaken, Triple-attempt, Triple-deref,
}
use lib_bucket_provisioner.Cluster.Ordered.{Any, Kept, Ordered, Safe, Triple-Kept, Triple-Safe}
use lib_bucket_provisioner.Helpers.Lookups.{
  is_new_bucket_by_object_bucket, storage_class_for_object_bucket, new_by_reply,
}
use lib_bucket_provisioner.Handlers.Update.{update_object_bucket_phase}
use lib_bucket_provisioner.Controller.Emits as emits
use lib_bucket_provisioner.Controller.Delete.{
  reclaim_delete, wants_delete, deprovision, release_bucket, release_resources, fail_if_any,
  delete_resources, handle_delete_claim,
}
use lib_bucket_provisioner.Controller.Delete.Guard.{
  PolicyDelete, NewClass, Released, BucketGone, MayRelease, DeleteGuard, MayRelease-Lasting,
}
use lib_bucket_provisioner.Controller.Delete.Found.{get_existing-Explained}

module _ {E : Env} where
  delete_resources-Ordered :
      (ob : Option ObjectBucket) (cm : Option ConfigMap) (s : Option Secret)
      (obc : Option ObjectBucketClaim)
      → Triple {E = E}
          (Kept DeleteGuard MayRelease)
          (delete_resources ob cm s obc)
          (λ _. Ordered DeleteGuard tt)
          (Ordered DeleteGuard)
  delete_resources-Ordered ob cm s obc =
      Triple-weaken
        (Triple-Kept DeleteGuard MayRelease-Lasting (
          emits.delete_resources-Emits _ (λ o r t k. k) (λ n r t k. k) (λ n m r t k. tt)
            (λ o r t k. k) (λ n m r t k. tt) (λ o r t k. k) (λ n m r t k. tt) (λ o r t k. k) ob cm s
            obc))
        (λ w k. k) (λ a w k. k.0) (λ x w k. k)

-- The bucket counts as new only if its class was read and says so.
abbrev NewKnown : ObjectBucket → Bool → Trace → Type 0
NewKnown ob new t = Any (Released ob) t × (new ≡ true → Any (NewClass ob) t)

-- The decision for Delete is backed by the policy and the class.
abbrev DeleteKnown : ObjectBucket → Bool → Trace → Type 0
DeleteKnown ob delete t =
    Any (Released ob) t
    × (delete ≡ true → PolicyDelete ob.spec.reclaim_policy × Any (NewClass ob) t)

policy_delete :
    (ob : ObjectBucket) (policy : Text)
    → ob.spec.reclaim_policy ≡ some policy
    → (policy == reclaim_delete) ≡ true
    → PolicyDelete ob.spec.reclaim_policy
policy_delete ob policy e h = rw e h

module _ {E : Env} (ob : ObjectBucket) where
  is_new_bucket-NewKnown :
      Triple {E = E}
        (Kept DeleteGuard (Any (Released ob)))
        (is_new_bucket_by_object_bucket ob)
        (λ new. Kept DeleteGuard (NewKnown ob new))
        (Ordered DeleteGuard)
  unfolding is_new_bucket_by_object_bucket storage_class_for_object_bucket
  is_new_bucket-NewKnown =
      Triple-bind {Q' = λ r. Kept DeleteGuard (NewKnown ob (new_by_reply r))}
        (Triple-attempt {R' = λ _. Kept DeleteGuard (Any (Released ob))}
          (Triple-if (ob.spec.storage_class_name == []) (λ _. Triple-raise _ (λ w k. k))
            (λ _. Triple-map_error _ (
              Triple-call _ (class_got ob.spec.storage_class_name)
                (λ w class s k e. ((tt, k.0), (inr k.1, λ new. inl (refl, new))))
                (λ w class s k e. ((tt, k.0), inr k.1)))))
          (λ e w k. (k.0, (k.1, λ h. cc))) (λ w k. k.0))
        (λ r. Triple-pure _ (λ w k. k))

  wants_delete-DeleteKnown :
      (new : Bool)
      → Triple {E = E}
          (Kept DeleteGuard (NewKnown ob new))
          (wants_delete ob new)
          (λ delete. Kept DeleteGuard (DeleteKnown ob delete))
          (Ordered DeleteGuard)
  unfolding wants_delete
  wants_delete-DeleteKnown false = Triple-pure _ (λ w k. (k.0, (k.1.0, λ h. cc)))
  wants_delete-DeleteKnown true =
      Triple-bind {Q' = λ policy. Kept DeleteGuard (DeleteKnown ob (policy == reclaim_delete))}
        (Triple-deref _
          (λ policy w e k. (k.0, (k.1.0, λ h. (policy_delete ob policy e h, k.1.1 refl))))
          (λ w e k. k.0))
        (λ policy. Triple-pure _ (λ w k. k))

  deprovision-MayRelease :
      Triple {E = E}
        (Kept DeleteGuard (Any (Released ob)))
        (deprovision ob)
        (λ _. Kept DeleteGuard MayRelease)
        (Ordered DeleteGuard)
  unfolding deprovision
  deprovision-MayRelease = Triple-bind is_new_bucket-NewKnown λ new.
      Triple-bind (wants_delete-DeleteKnown new) λ delete.
        Triple-if delete
          (λ d. Triple-map_error _ (
            Triple-call _ (removed ob)
              (λ w a s k e. ((((k.1.1 d).0, (k.1.1 d).1, k.1.0), k.0), inl (inl tt)))
              (λ w a s k e. (((k.1.1 d).0, (k.1.1 d).1, k.1.0), k.0))))
          (λ _. Triple-map_error _ (
            Triple-call _ (revoked ob) (λ w a s k e. ((k.1.0, k.0), inl (inl tt)))
              (λ w a s k e. (k.1.0, k.0))))

-- Without an object bucket the log must say that there is none.
abbrev Gone : Option ObjectBucket → Trace → Type 0
Gone ob t = ob ≡ none → Any BucketGone t

module _ {E : Env} (cm : Option ConfigMap) (secret : Option Secret) (obc : ObjectBucketClaim) where
  release_bucket-Ordered :
      (found : ObjectBucket)
      → Triple {E = E}
          (Ordered DeleteGuard tt)
          (release_bucket found cm secret obc)
          (λ _. Ordered DeleteGuard tt)
          (Ordered DeleteGuard)
  unfolding release_bucket update_object_bucket_phase
  release_bucket-Ordered found =
      Triple-bind {Q' = λ ob. Kept DeleteGuard (Any (Released ob))}
        (Triple-map_error _ (
          Triple-call _
            (bucket_status_updated
              (record (deep_copy_bucket found) { status = record { phase = Phase.released } }))
            (λ w a s k e. ((tt, k), inl (refl, refl))) (λ w a s k e. (tt, k))))
        λ ob.
          Triple-bind (deprovision-MayRelease ob)
            λ _. delete_resources-Ordered (some ob) cm secret (some obc)

  release_resources-Ordered :
      (ob : Option ObjectBucket)
      → Triple {E = E}
          (Kept DeleteGuard (Gone ob))
          (release_resources ob cm secret obc)
          (λ _. Ordered DeleteGuard tt)
          (Ordered DeleteGuard)
  unfolding release_resources
  release_resources-Ordered none =
      Triple-weaken (delete_resources-Ordered none cm secret (some obc))
        (λ w k. (k.0, inr (k.1 refl))) (λ a w k. k) (λ x w k. k)
  release_resources-Ordered (some ob) =
      elim ob.spec.reclaim_policy
        as (λ policy.
          Triple {E = E} (Kept DeleteGuard (Gone (some ob)))
            (elim policy [ none ↦ pure tt | some _ ↦ release_bucket ob cm secret obc ])
            (λ _. Ordered DeleteGuard tt) (Ordered DeleteGuard)) [
              | none ↦ Triple-pure _ (λ w k. k.0)
              | some _ ↦
                  Triple-weaken (release_bucket-Ordered ob) (λ w k. k.0) (λ a w k. k) (λ x w k. k)
            ]

fail_if_any-none :
    {E : Env} (errs : List Error) (K : Trace → Type 0)
    → Triple {E = E}
        (Kept DeleteGuard (λ t. errs ≡ [] → K t))
        (fail_if_any errs)
        (λ _. Kept DeleteGuard K)
        (Ordered DeleteGuard)
unfolding fail_if_any
fail_if_any-none [] K = Triple-pure _ (λ w k. (k.0, k.1 refl))
fail_if_any-none (e ∷ errs) K = Triple-raise _ (λ w k. k.0)

module _ {E : Env} (key ns name : Text) (obc : ObjectBucketClaim) where
  pub handle_delete_claim-Triple :
      E.split_key key ≡ done (ns, name)
      → Triple {E = E}
          (Ordered DeleteGuard tt)
          (handle_delete_claim key obc)
          (λ _. Ordered DeleteGuard tt)
          (Ordered DeleteGuard)
  unfolding handle_delete_claim
  handle_delete_claim-Triple split = Triple-bind (get_existing-Explained key ns name split) λ r.
      Triple-bind (fail_if_any-none r.errs (λ t. r.ob ≡ none → Any BucketGone t))
        λ _. release_resources-Ordered r.cm r.secret obc r.ob

  -- In every run of handleDeleteClaim for a key that has a namespace and a name, whatever the
  -- environment answers: the provisioner's Delete is called only with an object bucket whose reclaim
  -- policy is Delete, whose storage class was read and is one for new buckets, and which is the
  -- answer to the update of its phase to Released; Revoke only with such an answer; and an object
  -- bucket, secret, config map or claim is updated, or an object bucket deleted, only after Delete or
  -- Revoke has succeeded or the API server has said that there is no object bucket.
  pub handle_delete_claim-Safe :
      E.split_key key ≡ done (ns, name)
      → (w : World E) → Safe DeleteGuard w.trace
      → Safe DeleteGuard (handle_delete_claim {E = E} key obc w).1.trace
  handle_delete_claim-Safe split = Triple-Safe DeleteGuard (handle_delete_claim-Triple split)
