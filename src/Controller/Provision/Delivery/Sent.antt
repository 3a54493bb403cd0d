-- ===== src/Controller/Provision/Delivery/Sent.antt =====
-- The parts of handleProvisionClaim, where the claim and the provisioner's answer go into the objects.
use lib_bucket_provisioner.Base.{Text, Option, none, some, ◌==◌, [], ◌≡◌, refl, ap, inl, inr}
use lib_bucket_provisioner.V1alpha1.{
  ObjectBucketClaim, ObjectBucket, StorageClass, ObjectReference, empty_bucket,
}
use lib_bucket_provisioner.Cluster.Error.{done}
use lib_bucket_provisioner.Cluster.Event.{Event, claim_got, provisioned, granted}
use lib_bucket_provisioner.Cluster.Env.{Env}
use lib_bucket_provisioner.Cluster.Monad.{World, M}
use lib_bucket_provisioner.Cluster.Emits.{
  Emits-blame_result, Emits-bind, Emits-map_error, Emits-call,
}
use lib_bucket_provisioner.Cluster.Triple.{
  Ending, Triple, Triple-bind, Triple-call, Triple-map_error, Triple-lift, Triple-if, Triple-deref,
  Triple-pure, Triple-raise, Triple-weaken,
}
use lib_bucket_provisioner.Cluster.Ordered.{
  Any, Any-map, Lasting, Any-Lasting, ×-Lasting, Kept, Ordered, Triple-Kept,
}
use lib_bucket_provisioner.Helpers.Lookups.{
  claim_for_key, claim_ref_for_key, is_new_bucket_by_storage_class,
}
use lib_bucket_provisioner.Helpers.Ownership.{make_object_reference}
use lib_bucket_provisioner.Handlers.Update.{store_claim}
use lib_bucket_provisioner.Controller.Resources.{Controller}
use lib_bucket_provisioner.Controller.Provision.{
  set_obc_meta_fields, store_bucket_name, non_empty, run_provisioner, save_connection, save_bucket,
  bucket_options,
}
use lib_bucket_provisioner.Controller.Provision.Unmodified.{Answered}
use lib_bucket_provisioner.Controller.Provision.Delivery.{Provided, ClaimRead, From, DeliveryGuard}
use lib_bucket_provisioner.Controller.Provision.Delivery.Stages.{
  create_or_update_secret-Sends, create_or_update_config_map-Sends,
  create_or_update_object_bucket-Sends, completed_bucket-BucketOf,
}

-- A part of the precondition as a hypothesis.
presumed :
    {E : Env} {A : Type 0} {P : Type 0} {K : World E → Type 0} {m : M E A}
    {Q : A → World E → Type 0} {R : Ending → World E → Type 0}
    → (P → Triple K m Q R)
    → Triple (λ w. P × K w) m Q R
presumed f = record { at = λ w k. (f k.0).at w k.1 }

-- The provisioner has answered with this pointer.
abbrev Given : Option ObjectBucket → Event → Type 0
Given p (provisioned o (done got)) = got ≡ p
Given p (granted o (done got)) = got ≡ p
Given p _ = ⊥

Given-some : (ob : ObjectBucket) (e : Event) → Given (some ob) e → Provided ob e
Given-some ob (provisioned o (done (some got))) h = cc
Given-some ob (provisioned o (done none)) h = absurd (cc)
Given-some ob (granted o (done (some got))) h = cc
Given-some ob (granted o (done none)) h = absurd (cc)
Given-some ob _ h = h

From-Lasting : (obc : ObjectBucketClaim) (ob : ObjectBucket) → Lasting (From obc ob)
From-Lasting obc ob = ×-Lasting (Any-Lasting (Answered obc)) (Any-Lasting (Provided ob))

module _ (E : Env) (key : Text) where
  pub set_obc_meta_fields-Answered :
      (c : Controller) (obc : ObjectBucketClaim)
      → Triple {E = E}
          (Ordered (DeliveryGuard E key) tt)
          (set_obc_meta_fields c obc)
          (λ marked. Kept (DeliveryGuard E key) (Any (Answered marked)))
          (Ordered (DeliveryGuard E key))
  unfolding set_obc_meta_fields store_claim
  set_obc_meta_fields-Answered c obc = Triple-map_error _ (
      Triple-map_error _
        (Triple-call _ _ (λ w a s p e. ((tt, p), inl refl)) (λ w a s p e. (tt, p))))

  pub store_bucket_name-Answered :
      (obc : ObjectBucketClaim) (name : Text)
      → Triple {E = E}
          (Kept (DeliveryGuard E key) (Any (Answered obc)))
          (store_bucket_name obc name)
          (λ stored. Kept (DeliveryGuard E key) (Any (Answered stored)))
          (Ordered (DeliveryGuard E key))
  unfolding store_bucket_name store_claim
  store_bucket_name-Answered obc name =
      Triple-if (obc.spec.bucket_name == [])
        (λ _. Triple-map_error _ (
          Triple-map_error _
            (Triple-call _ _ (λ w a s k e. ((tt, k.0), inl refl)) (λ w a s k e. (tt, k.0)))))
        (λ _. Triple-pure _ (λ w k. k))

  module _ (obc : ObjectBucketClaim) where
    non_empty-From :
        (p : Option ObjectBucket)
        → Triple {E = E}
            (Kept (DeliveryGuard E key) (λ t. Any (Answered obc) t × Any (Given p) t))
            (non_empty p)
            (λ ob. Kept (DeliveryGuard E key) (From obc ob))
            (Ordered (DeliveryGuard E key))
    unfolding non_empty
    non_empty-From none = Triple-raise _ (λ w k. k.0)
    non_empty-From (some ob) =
        Triple-if (E.semantic_equal ob empty_bucket) (λ _. Triple-raise _ (λ w k. k.0))
          (λ _. Triple-pure _ (λ w k. (k.0, (k.1.0, Any-map w.trace (Given-some ob) k.1.1))))

    pub run_provisioner-From :
        (ob : Option ObjectBucket) (class : StorageClass) (name : Text)
        → Triple {E = E}
            (Kept (DeliveryGuard E key) (Any (Answered obc)))
            (run_provisioner obc ob class name)
            (λ provided. Kept (DeliveryGuard E key) (From obc provided))
            (Ordered (DeliveryGuard E key))
    unfolding run_provisioner bucket_options
    run_provisioner-From ob class name =
        Triple-bind
          (Triple-Kept (DeliveryGuard E key) (Any-Lasting (Answered obc))
            (Emits-map_error _ (Emits-call _ _ (λ r t k. tt))))
          λ id.
            Triple-bind
              {Q' = λ p. Kept (DeliveryGuard E key) (λ t. Any (Answered obc) t × Any (Given p) t)}
              (Triple-map_error _ (
                Triple-if (is_new_bucket_by_storage_class class)
                  (λ _.
                    Triple-call _ (provisioned (bucket_options obc class name id))
                      (λ w a s k e. ((tt, k.0), (inr k.1, inl refl))) (λ w a s k e. (tt, k.0)))
                  (λ _.
                    Triple-call _ (granted (bucket_options obc class name id))
                      (λ w a s k e. ((tt, k.0), (inr k.1, inl refl))) (λ w a s k e. (tt, k.0)))))
              non_empty-From

    pub save_connection-Delivers :
        (c : Controller) (ob : ObjectBucket)
        → Triple {E = E}
            (Kept (DeliveryGuard E key) (From obc ob))
            (save_connection c obc ob)
            (λ _. Kept (DeliveryGuard E key) (From obc ob))
            (Ordered (DeliveryGuard E key))
    unfolding save_connection
    save_connection-Delivers c ob =
        Triple-bind
          {Q' = λ connection w.
            (ob.spec.connection ≡ some connection) × Kept (DeliveryGuard E key) (From obc ob) w}
          (Triple-deref ob.spec.connection (λ a w e k. (e, k)) (λ w e k. k.0))
          λ connection. presumed λ e. Triple-Kept (DeliveryGuard E key) (From-Lasting obc ob) (
            Emits-bind
              (Emits-map_error _ (
                create_or_update_secret-Sends obc connection.authentication c.provisioner_labels
                  (λ s h. (
                    λ r t k. (obc, ob, k, (connection, h.0, e, h.1, h.2, h.3)),
                    λ r t k. (obc, ob, k, (connection, h.0, e, h.1, h.2, h.3)),
                  ))))
              λ _. Emits-map_error _ (
                create_or_update_config_map-Sends obc connection.endpoint c.provisioner_labels
                  (λ cm h. (
                    λ r t k. (obc, ob, k, (connection, h.0, e, h.1, h.2, h.3)),
                    λ r t k. (obc, ob, k, (connection, h.0, e, h.1, h.2, h.3)),
                  ))))

    -- The claim is read, and its reference made.
    abbrev Referred : ObjectBucket → ObjectReference → World E → Type 0
    Referred ob ref w =
        ((claim : ObjectBucketClaim) × (ref ≡ make_object_reference claim)
          × Kept (DeliveryGuard E key) (λ t. From obc ob t × Any (ClaimRead claim) t) w)

    claim_ref_for_key-Referred :
        (ob : ObjectBucket)
        → Triple {E = E}
            (Kept (DeliveryGuard E key) (From obc ob))
            (claim_ref_for_key key)
            (Referred ob)
            (Ordered (DeliveryGuard E key))
    unfolding claim_ref_for_key claim_for_key
    claim_ref_for_key-Referred ob =
        Triple-bind
          {Q' = λ claim. Kept (DeliveryGuard E key) (λ t. From obc ob t × Any (ClaimRead claim) t)}
          (Triple-bind {Q' = λ at. Kept (DeliveryGuard E key) (From obc ob)}
            (Triple-lift (E.split_key key) (λ a w e k. k) (λ w k. k.0))
            (λ at.
              Triple-call _ (claim_got at.0 at.1)
                (λ w a s k e. ((tt, k.0), ((inr k.1.0, inr k.1.1), inl refl)))
                (λ w a s k e. (tt, k.0))))
          λ claim. Triple-pure _ (λ w k. (claim, refl, k))

    pub save_bucket-Delivers :
        (c : Controller) (class : StorageClass) (ob : ObjectBucket)
        → Triple {E = E}
            (Kept (DeliveryGuard E key) (From obc ob))
            (save_bucket c key obc class ob)
            (λ _. Ordered (DeliveryGuard E key) tt)
            (Ordered (DeliveryGuard E key))
    unfolding save_bucket
    save_bucket-Delivers c class ob =
        let whole = completed_bucket-BucketOf E c key obc class ob in
        Triple-bind {Q' = Referred ob} (Triple-map_error _ (claim_ref_for_key-Referred ob)) λ ref.
          record {
            at = λ w k.
                (Triple-weaken
                    (Triple-Kept (DeliveryGuard E key)
                      (×-Lasting (From-Lasting obc ob) (Any-Lasting (ClaimRead k.0)))
                      (Emits-bind
                        (Emits-map_error _ (
                          create_or_update_object_bucket-Sends _ (λ n r t f. tt)
                            (λ r t f. ((obc, ob, f.0, whole), (k.0, f.1, ap some k.1)))
                            (λ v r t f. ((obc, ob, f.0, whole), (k.0, f.1, ap some k.1)))))
                        λ saved. Emits-blame_result _ _ (Emits-call _ _ (λ r t f. tt))))
                    (λ w k. k) (λ a w k. k.0) (λ x w k. k)).at
                  w k.2;
          }
