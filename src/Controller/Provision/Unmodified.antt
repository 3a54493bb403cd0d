-- ===== src/Controller/Provision/Unmodified.antt =====
-- handleProvisionClaim: what the object bucket must be before the provisioner is called.
use lib_bucket_provisioner.Base.{
  Text, ◌==◌, true, Option, none, some, ◌≡◌, refl, sym, inl, inr, not, arith,
}
use lib_bucket_provisioner.V1alpha1.{
  ObjectBucketClaim, ObjectBucketClaimSpec, ObjectBucket, StorageClass,
}
use lib_bucket_provisioner.Cluster.Error.{Error, Reply, done, failed, is_not_found}
use lib_bucket_provisioner.Cluster.Event.{
  Event, Trace, claim_updated, bucket_got, provisioned, granted,
}
use lib_bucket_provisioner.Cluster.Env.{Env}
use lib_bucket_provisioner.Cluster.Monad.{World}
use lib_bucket_provisioner.Cluster.Emits.{Emits-bind}
use lib_bucket_provisioner.Cluster.Triple.{
  Triple, Triple-bind, Triple-call, Triple-attempt-call, Triple-map_error, Triple-lift, Triple-if,
  Triple-deref, Triple-pure, Triple-raise, Triple-weaken,
}
use lib_bucket_provisioner.Cluster.Ordered.{
  Any, Any-map, Lasting, Any-Lasting, ×-Lasting, Safe, Kept, Ordered, Triple-Kept,
}
use lib_bucket_provisioner.Helpers.Names.{object_bucket_name_from_claim_key}
use lib_bucket_provisioner.Handlers.Update.{
  store_claim, found_bucket, get_ob_from_key, err_if_obc_config_has_been_modified,
}
use lib_bucket_provisioner.Controller.Emits as emits
use lib_bucket_provisioner.Controller.Resources.{Controller}
use lib_bucket_provisioner.Controller.Provision.{set_obc_meta_fields, handle_provision_claim}
use lib_bucket_provisioner.Controller.Provision.Complete.{Matching, NoneOrMatching}
use lib_bucket_provisioner.Controller.Provision.Complete.Whole.{
  followed_connection, followed_endpoint,
}

-- The claim is what the API server answered to an update.
abbrev pub Answered : ObjectBucketClaim → Event → Type 0
Answered obc (claim_updated sent (done got)) = got ≡ obc
Answered obc _ = ⊥

-- What getObFromKey makes of an answer.
abbrev FoundIn : Option ObjectBucket → Reply ObjectBucket → Type 0
FoundIn (some ob) (done got) = got ≡ ob
FoundIn none (failed e) = is_not_found e ≡ true
FoundIn _ _ = ⊥

FoundIn-done : (ob : ObjectBucket) (r : Reply ObjectBucket) → r ≡ done ob → FoundIn (some ob) r
FoundIn-done ob r e = rw (e) refl

FoundIn-missing :
    (e : Error) → is_not_found e ≡ true → (r : Reply ObjectBucket) → r ≡ failed e → FoundIn none r
FoundIn-missing e h r eq = rw (eq) h

FoundIn-none :
    (claim : ObjectBucketClaimSpec) (r : Reply ObjectBucket)
    → FoundIn none r
    → NoneOrMatching claim r
FoundIn-none claim (done ob) h = absurd h
FoundIn-none claim (failed e) h = h

FoundIn-some :
    (claim : ObjectBucketClaimSpec) (ob : ObjectBucket)
    → Matching claim ob
    → (r : Reply ObjectBucket) → FoundIn (some ob) r
    → NoneOrMatching claim r
FoundIn-some claim ob m (done got) h = rw h m
FoundIn-some claim ob m (failed e) h = absurd h

module _ (E : Env) (key : Text) where
  -- The object bucket of the key was read, with such an answer.
  abbrev pub BucketRead : (Reply ObjectBucket → Type 0) → Event → Type 0
  BucketRead P (bucket_got name r) = (object_bucket_name_from_claim_key E key ≡ done name) × P r
  BucketRead P _ = ⊥

  -- A claim was stored, and the object bucket of the key was read: there was none, or it has the bucket
  -- name and the storage class of that claim.
  abbrev pub Unmodified : ObjectBucketClaim → Trace → Type 0
  Unmodified obc t = Any (Answered obc) t × Any (BucketRead (NoneOrMatching obc.spec)) t

  -- Provision and Grant want an object bucket that is not modified.
  abbrev pub UnmodifiedGuard : Event → Trace → Type 0
  UnmodifiedGuard (provisioned o r) t = (obc : ObjectBucketClaim) × Unmodified obc t
  UnmodifiedGuard (granted o r) t = (obc : ObjectBucketClaim) × Unmodified obc t
  UnmodifiedGuard _ t = Unit {0}

  Unmodified-Lasting : (obc : ObjectBucketClaim) → Lasting (Unmodified obc)
  Unmodified-Lasting obc = ×-Lasting (Any-Lasting (Answered obc)) (Any-Lasting (BucketRead _))

  BucketRead-map :
      {P Q : Reply ObjectBucket → Type 0}
      → ((r : Reply ObjectBucket) → P r → Q r)
      → (e : Event) → BucketRead P e
      → BucketRead Q e
  BucketRead-map f (bucket_got name r) h = (h.0, f r h.1)
  BucketRead-map f _ h = h

  abbrev ReadAs : ObjectBucketClaim → Option ObjectBucket → World E → Type 0
  ReadAs obc ob w =
      Safe UnmodifiedGuard w.trace
      × (Any (Answered obc) w.trace × Any (BucketRead (FoundIn ob)) w.trace)

  set_obc_meta_fields-Answered :
      (c : Controller) (obc : ObjectBucketClaim)
      → Triple {E = E}
          (Ordered UnmodifiedGuard tt)
          (set_obc_meta_fields c obc)
          (λ marked. Kept UnmodifiedGuard (Any (Answered marked)))
          (Ordered UnmodifiedGuard)
  unfolding set_obc_meta_fields store_claim
  set_obc_meta_fields-Answered c obc = Triple-map_error _ (
      Triple-map_error _
        (Triple-call _ _ (λ w a s p e. ((tt, p), inl refl)) (λ w a s p e. (tt, p))))

  module _ (obc : ObjectBucketClaim) where
    found_bucket-ReadAs :
        (r : Reply ObjectBucket)
        → Triple {E = E}
            (λ w.
              Safe UnmodifiedGuard w.trace
              × (Any (Answered obc) w.trace × Any (BucketRead (λ r'. r' ≡ r)) w.trace))
            (found_bucket r)
            (ReadAs obc)
            (Ordered UnmodifiedGuard)
    unfolding found_bucket
    found_bucket-ReadAs (done ob) =
        Triple-pure _
          (λ w k. (k.0, (k.1.0, Any-map w.trace (λ e. BucketRead-map (FoundIn-done ob) e) k.1.1)))
    found_bucket-ReadAs (failed e) =
        Triple-if (is_not_found e)
          (λ h. Triple-pure _ (λ w k.
            (k.0, (k.1.0, Any-map w.trace (λ ev. BucketRead-map (FoundIn-missing e h) ev) k.1.1))))
          (λ _. Triple-raise _ (λ w k. k.0))

    get_ob_from_key-ReadAs :
        Triple {E = E}
          (Kept UnmodifiedGuard (Any (Answered obc)))
          (get_ob_from_key key)
          (ReadAs obc)
          (Ordered UnmodifiedGuard)
    unfolding get_ob_from_key
    get_ob_from_key-ReadAs =
        Triple-bind
          {Q' = λ name w.
            (object_bucket_name_from_claim_key E key ≡ done name)
            × Kept UnmodifiedGuard (Any (Answered obc)) w}
          (Triple-map_error _ (
            Triple-lift (object_bucket_name_from_claim_key E key) (λ a w e k. (e, k)) (λ w k. k.0)))
          λ name.
            Triple-bind
              (Triple-attempt-call _ (bucket_got name)
                (λ w r s k e. ((tt, k.1.0), (inr k.1.1, inl (k.0, refl)))))
              found_bucket-ReadAs

    matched :
        (ob : ObjectBucket) (w : World E)
        → Matching obc.spec ob
        → ReadAs obc (some ob) w
        → Kept UnmodifiedGuard (Unmodified obc) w
    matched ob w m k =
        (k.0, (k.1.0, Any-map w.trace (λ e. BucketRead-map (FoundIn-some obc.spec ob m) e) k.1.1))

    err_if_modified-Unmodified :
        (ob : Option ObjectBucket)
        → Triple {E = E}
            (ReadAs obc ob)
            (err_if_obc_config_has_been_modified ob obc)
            (λ _. Kept UnmodifiedGuard (Unmodified obc))
            (Ordered UnmodifiedGuard)
    unfolding err_if_obc_config_has_been_modified
    err_if_modified-Unmodified none = Triple-pure _ (λ w k.
        (k.0, (k.1.0, Any-map w.trace (λ e. BucketRead-map (FoundIn-none obc.spec) e) k.1.1)))
    err_if_modified-Unmodified (some ob) =
        Triple-bind {Q' = λ c w. (ob.spec.connection ≡ some c) × ReadAs obc (some ob) w}
          (Triple-deref ob.spec.connection (λ c w e k. (e, k)) (λ w e k. k.0))
          λ c.
            Triple-bind
              {Q' = λ ep w.
                (ob.spec.connection ≡ some c) × (c.endpoint ≡ some ep) × ReadAs obc (some ob) w}
              (Triple-deref c.endpoint (λ ep w e k. (k.0, e, k.1)) (λ w e k. k.1.0))
              λ ep.
                Triple-if (not (obc.spec.bucket_name == ep.bucket_name))
                  (λ _. Triple-raise _ (λ w k. k.2.0))
                  (λ same_name.
                    Triple-if (not (obc.spec.storage_class_name == ob.spec.storage_class_name))
                      (λ _. Triple-raise _ (λ w k. k.2.0))
                      (λ same_class. Triple-pure _ (λ w k.
                        matched ob w
                          (
                            followed_connection obc.spec.bucket_name (some c) _ (sym k.0) (
                                followed_endpoint obc.spec.bucket_name (some ep) _ (sym k.1)
                                  (ground (arith, same_name))),
                            ground (arith, same_class),
                          )
                          k.2)))

module _ (E : Env) (key : Text) (c : Controller) (given : ObjectBucketClaim)
    (class : StorageClass) where
  pub handle_provision_claim-Unmodified :
      Triple {E = E}
        (Ordered (UnmodifiedGuard E key) tt)
        (handle_provision_claim c key given class)
        (λ _. Ordered (UnmodifiedGuard E key) tt)
        (Ordered (UnmodifiedGuard E key))
  unfolding handle_provision_claim
  handle_provision_claim-Unmodified =
      Triple-bind (set_obc_meta_fields-Answered E key c given) λ marked.
        Triple-bind (Triple-map_error _ (get_ob_from_key-ReadAs E key marked)) λ ob.
          Triple-bind (err_if_modified-Unmodified E key marked ob) λ _.
            Triple-weaken
              (Triple-Kept (UnmodifiedGuard E key) (Unmodified-Lasting E key marked) (
                Emits-bind (emits.choose_bucket_name-Emits _ (λ id t k. tt) class marked) λ name.
                  Emits-bind (emits.store_bucket_name-Emits _ (λ o r t k. tt) marked name) λ obc.
                    Emits-bind
                      (emits.run_provisioner-Emits _ (λ o b r t k. tt) (λ o r t k. (marked, k))
                        (λ o r t k. (marked, k)) obc ob class name)
                      λ provided.
                        Emits-bind
                          (emits.save_connection-Emits _ (λ s r t k. tt) (λ s r t k. tt)
                            (λ s r t k. tt) (λ s r t k. tt) c obc provided)
                          λ _.
                            Emits-bind
                              (emits.save_bucket-Emits _ (λ n m r t k. tt) (λ n r t k. tt)
                                (λ b r t k. tt) (λ b r t k. tt) (λ b r t k. tt) c key obc class
                                provided)
                              λ saved.
                                emits.bind_claim-Emits _ (λ o r t k. tt) (λ o r t k. tt) obc saved
                                  name))
              (λ w k. k) (λ a w k. k.0) (λ x w k. k)
