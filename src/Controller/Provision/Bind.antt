-- ===== src/Controller/Provision/Bind.antt =====
-- handleProvisionClaim: what must have been saved before an object bucket is created and before the
-- claim is Bound.
use lib_bucket_provisioner.Base.{Text, refl, inl, inr}
use lib_bucket_provisioner.V1alpha1.{ObjectBucketClaim, ObjectBucket, StorageClass}
use lib_bucket_provisioner.V1alpha1.Phase
use lib_bucket_provisioner.Cluster.Event.{Trace, bucket_status_updated}
use lib_bucket_provisioner.Cluster.Env.{Env}
use lib_bucket_provisioner.Cluster.Emits.{Emits-map_error, Emits-call, Emits-bind, Emits-pure}
use lib_bucket_provisioner.Cluster.Triple.{
  Triple-blame_result, Triple, Triple-bind, Triple-call, Triple-map_error, Triple-weaken,
  Triple-deref,
}
use lib_bucket_provisioner.Cluster.Ordered.{
  Any, Lasting, Any-Lasting, ×-Lasting, always, Kept, Ordered, Triple-Kept, Triple-Ordered,
}
use lib_bucket_provisioner.Helpers.Lookups.{claim_ref_for_key}
use lib_bucket_provisioner.Handlers.Update.{store_claim}
use lib_bucket_provisioner.Handlers.Emits as handlers
use lib_bucket_provisioner.Controller.Emits as emits
use lib_bucket_provisioner.Controller.Resources.{Controller}
use lib_bucket_provisioner.Controller.Provision.{
  set_obc_meta_fields, save_connection, save_bucket, bind_claim, handle_provision_claim,
}
use lib_bucket_provisioner.Controller.Provision.Saving.{
  SecretSaved, BucketBound, Saved, BindGuard, Saved-Lasting, create_or_update_secret-saves,
  create_or_update_config_map-saves,
}

module _ {E : Env} (c : Controller) (obc : ObjectBucketClaim) where
  save_connection-Saved :
      (ob : ObjectBucket)
      → Triple {E = E}
          (Ordered BindGuard tt)
          (save_connection c obc ob)
          (λ _. Kept BindGuard Saved)
          (Ordered BindGuard)
  unfolding save_connection
  save_connection-Saved ob =
      Triple-bind {Q' = λ _. Kept BindGuard (λ _. Unit {0})}
        (Triple-deref _ (λ a w h k. (k, tt)) (λ w h k. k))
        λ connection.
          Triple-bind
            (Triple-map_error _ (
              create_or_update_secret-saves always obc connection.authentication
                c.provisioner_labels))
            λ _. Triple-map_error _ (
              Triple-weaken
                (create_or_update_config_map-saves (Any-Lasting SecretSaved) obc connection.endpoint
                  c.provisioner_labels)
                (λ w k. (k.0, k.1.1)) (λ a w k. k) (λ x w k. k))

-- The secret, the config map and the phase of an object bucket are saved.
abbrev AllSaved : Trace → Type 0
AllSaved t = Saved t × Any BucketBound t

AllSaved-Lasting : Lasting AllSaved
AllSaved-Lasting = ×-Lasting Saved-Lasting (Any-Lasting BucketBound)

module _ {E : Env} (c : Controller) (key : Text) (obc : ObjectBucketClaim)
    (class : StorageClass) where
  save_bucket-AllSaved :
      (ob : ObjectBucket)
      → Triple {E = E}
          (Kept BindGuard Saved)
          (save_bucket c key obc class ob)
          (λ _. Kept BindGuard AllSaved)
          (Ordered BindGuard)
  unfolding save_bucket claim_ref_for_key
  save_bucket-AllSaved ob =
      Triple-bind
        (Triple-Kept BindGuard Saved-Lasting (
          Emits-map_error _ (
            Emits-bind (handlers.claim_for_key-Emits _ (λ n m r t k. tt) key)
              (λ claim. Emits-pure _))))
        λ ref.
          Triple-bind
            (Triple-Kept BindGuard Saved-Lasting (
              Emits-map_error _ (
                handlers.create_or_update_object_bucket-Emits _ (λ n r t k. tt) (λ b r t k. k)
                  (λ b r t k. tt) _)))
            λ saved.
              Triple-blame_result _ _ (λ w n h. h)
                (Triple-call _
                  (bucket_status_updated (record saved { status = record { phase = Phase.bound } }))
                  (λ w a t k h. ((tt, k.0), ((inr k.1.0, inr k.1.1), inl refl)))
                  (λ w a t k h. (tt, k.0)))

  bind_claim-Ordered :
      (ob : ObjectBucket) (name : Text)
      → Triple {E = E}
          (Kept BindGuard AllSaved)
          (bind_claim obc ob name)
          (λ _. Ordered BindGuard tt)
          (Ordered BindGuard)
  bind_claim-Ordered ob name =
      Triple-weaken
        (Triple-Kept BindGuard AllSaved-Lasting
          (emits.bind_claim-Emits _ (λ o r t k. tt) (λ o r t k _. k) obc ob name))
        (λ w k. k) (λ a w k. k.0) (λ x w k. k)

module _ {E : Env} (c : Controller) (key : Text) (given : ObjectBucketClaim)
    (class : StorageClass) where
  pub handle_provision_claim-binds :
      Triple {E = E}
        (Ordered BindGuard tt)
        (handle_provision_claim c key given class)
        (λ _. Ordered BindGuard tt)
        (Ordered BindGuard)
  unfolding handle_provision_claim set_obc_meta_fields store_claim
  handle_provision_claim-binds =
      Triple-bind
        (Triple-Ordered _ (Emits-map_error _ (Emits-map_error _ (Emits-call _ _ (λ r t. tt)))))
        λ marked.
          Triple-bind
            (Triple-Ordered _
              (Emits-map_error _ (handlers.get_ob_from_key-Emits _ (λ n r t. tt) key)))
            λ ob. Triple-bind (Triple-Ordered _ (handlers.err_if_modified-Emits _ ob marked)) λ _.
              Triple-bind
                (Triple-Ordered _ (emits.choose_bucket_name-Emits _ (λ i t. tt) class marked))
                λ name.
                  Triple-bind
                    (Triple-Ordered _ (emits.store_bucket_name-Emits _ (λ o r t. tt) marked name))
                    λ obc.
                      Triple-bind
                        (Triple-Ordered _ (
                          emits.run_provisioner-Emits _ (λ o b r t. tt) (λ o r t. tt) (λ o r t. tt)
                            obc ob class name))
                        λ provided. Triple-bind (save_connection-Saved c obc provided) λ _.
                          Triple-bind (save_bucket-AllSaved c key obc class provided)
                            λ saved. bind_claim-Ordered c key obc class saved name
