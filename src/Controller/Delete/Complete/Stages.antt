-- ===== src/Controller/Delete/Complete/Stages.antt =====
-- handleDeleteClaim after the reads: the stages that release the resources, where no call fails.
use lib_bucket_provisioner.Base.{Text, Bool, true, false, Option, none, some, List, ◌≡◌, inl}
use lib_bucket_provisioner.V1alpha1.{ObjectBucketClaim, ObjectBucket, Secret, ConfigMap}
use lib_bucket_provisioner.V1alpha1.DeepCopy.{
  deep_copy_bucket, deep_copy_bucket_spec, deep_copy_pointer,
}
use lib_bucket_provisioner.Cluster.Error.{Reply}
use lib_bucket_provisioner.Cluster.Event.{removed, revoked}
use lib_bucket_provisioner.Cluster.Env.{Env}
use lib_bucket_provisioner.Cluster.Monad.{World, pure}
use lib_bucket_provisioner.Cluster.Triple.{
  Triple-bind, Triple-map_error, Triple-if, Triple-pure, Triple-deref,
}
use lib_bucket_provisioner.Cluster.Ordered.{Any, Any-Lasting}
use lib_bucket_provisioner.Helpers.Lookups.{
  is_new_bucket_by_object_bucket, storage_class_for_object_bucket,
}
use lib_bucket_provisioner.Handlers.Update.{update_object_bucket_phase}
use lib_bucket_provisioner.Controller.Provision.Complete.{Completes, Completes-call, Present}
use lib_bucket_provisioner.Controller.Provision.Complete.Naming.{given, Given, assuming}
use lib_bucket_provisioner.Controller.Delete.Release.{attempted}
use lib_bucket_provisioner.Cluster.Calm.{calm}
use lib_bucket_provisioner.Controller.Delete.{
  last_error, return_error, delete_resources, wants_delete, deprovision, release_bucket,
  release_resources,
}
use lib_bucket_provisioner.Controller.Delete.Complete.{
  HasPolicy, Releasing, Deprovisioned, ClaimReleased, absent_policy, attempt-Ok,
  release_secret-Keeps, release_config_map-Keeps, delete_object_bucket-Keeps,
  release_claim-ClaimReleased, AllOk, last_error-AllOk,
}

-- An object bucket with a policy was found.
abbrev pub PolicyFound : Option ObjectBucket → Type 0
PolicyFound none = ⊥
PolicyFound (some ob) = HasPolicy ob

module _ {E : Env} where
  -- What handleDeleteClaim leaves in the log.
  abbrev pub Done : {X : Type 0} → X → World E → Type 0
  Done _ w = Any Deprovisioned w.trace × ClaimReleased w.trace

module _ {E : Env} (live : Releasing E) where
  return_error-none :
      (rs : List (Reply (Unit {0}))) {K : World E → Type 0}
      → AllOk rs
      → Completes {E = E} K (return_error (last_error none rs)) (λ _. K)
  unfolding return_error
  return_error-none rs ok_ = rw (last_error-AllOk rs ok_, return_error) (Triple-pure _ (λ w k. k))

  delete_resources-Done :
      (ob : Option ObjectBucket) (cm : Option ConfigMap) (s : Option Secret)
      (obc : ObjectBucketClaim)
      → Completes {E = E}
          (λ w. Any Deprovisioned w.trace)
          (delete_resources ob cm s (some obc))
          Done
  unfolding delete_resources
  delete_resources-Done ob cm s obc =
      let keep = Any-Lasting Deprovisioned in
      Triple-bind (attempt-Ok (delete_object_bucket-Keeps keep live ob)) λ b. given λ hb.
        Triple-bind (attempt-Ok (release_secret-Keeps keep live s)) λ sec. given λ hs.
          Triple-bind (attempt-Ok (release_config_map-Keeps keep live cm)) λ config. given λ hc.
            Triple-bind (attempt-Ok (release_claim-ClaimReleased keep live obc))
              λ claim. given λ hl. return_error-none _ (hb, (hs, (hc, (hl, tt))))

  wants_delete-Completes :
      (ob : ObjectBucket) (new : Bool)
      → HasPolicy ob
      → Completes {E = E} (Given Unit) (wants_delete ob new) (λ _. Given Unit)
  unfolding wants_delete
  wants_delete-Completes ob false h = Triple-pure _ (λ w p. tt)
  wants_delete-Completes ob true h =
      Triple-bind {Q' = λ _. Given Unit}
        (Triple-deref ob.spec.reclaim_policy (λ a w e p. tt)
          (λ w e p. absent_policy ob.spec.reclaim_policy e h))
        λ policy. Triple-pure _ (λ w p. tt)

  is_new_bucket-Completes :
      (ob : ObjectBucket)
      → Completes {E = E} (Given Unit) (is_new_bucket_by_object_bucket ob) (λ _. Given Unit)
  unfolding is_new_bucket_by_object_bucket storage_class_for_object_bucket
  is_new_bucket-Completes ob =
      Triple-bind {Q' = λ _. Given Unit} (attempted (search calm))
        λ class. Triple-pure _ (λ w p. tt)

  deprovision-Deprovisioned :
      (ob : ObjectBucket)
      → HasPolicy ob
      → Completes {E = E} (Given Unit) (deprovision ob) (λ _ w. Any Deprovisioned w.trace)
  unfolding deprovision
  deprovision-Deprovisioned ob h =
      Triple-bind {Q' = λ _. Given Unit} (is_new_bucket-Completes ob) λ new.
        Triple-bind {Q' = λ _. Given Unit} (wants_delete-Completes ob new h) λ delete.
          Triple-if delete
            (λ _.
              Triple-map_error _
                (Completes-call (λ a. Unit) _ (removed ob) (live.remove ob) (λ w a s k _. inl tt)))
            (λ _.
              Triple-map_error _
                (Completes-call (λ a. Unit) _ (revoked ob) (live.revoke ob) (λ w a s k _. inl tt)))

  copied_policy : (ob : ObjectBucket) → HasPolicy ob → HasPolicy (deep_copy_bucket ob)
  unfolding deep_copy_bucket deep_copy_bucket_spec deep_copy_pointer
  copied_policy ob h = go ob.spec.reclaim_policy h
    where
      go :
          (policy : Option Text)
          → Present policy
          → Present (deep_copy_pointer (λ (p : Text). p) policy)
      go none h = absurd h
      go (some _) h = tt

  release_bucket-Done :
      (ob : ObjectBucket) (cm : Option ConfigMap) (s : Option Secret) (obc : ObjectBucketClaim)
      → HasPolicy ob
      → Completes {E = E} (Given Unit) (release_bucket ob cm s obc) Done
  unfolding release_bucket update_object_bucket_phase
  release_bucket-Done found cm s obc h =
      Triple-bind {Q' = λ ob. Given (HasPolicy ob)}
        (Triple-map_error _ (
          Completes-call
            (λ ob. ob.spec.reclaim_policy ≡ (deep_copy_bucket found).spec.reclaim_policy) _ _
            (live.bucket_status _) (λ w ob s k e. rw (e) (copied_policy found h))))
        λ ob. assuming λ h.
          Triple-bind (deprovision-Deprovisioned ob h) λ _. delete_resources-Done (some ob) cm s obc

  pub release_resources-Done :
      (ob : Option ObjectBucket) (cm : Option ConfigMap) (s : Option Secret)
      (obc : ObjectBucketClaim)
      → PolicyFound ob
      → Completes {E = E} (Given Unit) (release_resources ob cm s obc) Done
  unfolding release_resources
  release_resources-Done none cm s obc h = absurd h
  release_resources-Done (some ob) cm s obc h =
      elim ob.spec.reclaim_policy
          as (λ policy.
            Present policy
            → Completes {E = E} (Given Unit)
                (elim policy [ none ↦ pure tt | some _ ↦ release_bucket ob cm s obc ]) Done) [
                  | none ↦ λ absent. absurd absent
                  | some _ ↦ λ _. release_bucket-Done ob cm s obc h
                ]
        h
