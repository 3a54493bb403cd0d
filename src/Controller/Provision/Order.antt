-- ===== src/Controller/Provision/Order.antt =====
-- handleProvisionClaim: what must have happened before the provisioner is called.
use lib_bucket_provisioner.Base.{
  Text, ◌==◌, true, false, Bool-cases, Option, [], ◌≡◌, refl, ◌⊎◌, inl, inr,
}
use lib_bucket_provisioner.V1alpha1.{ObjectBucketClaim, ObjectBucket, StorageClass}
use lib_bucket_provisioner.V1alpha1.DeepCopy.{deep_copy_claim}
use lib_bucket_provisioner.Cluster.Error.{done, failure, bucket_name_missing}
use lib_bucket_provisioner.Cluster.Event.{Event, Trace, claim_updated, provisioned, granted}
use lib_bucket_provisioner.Cluster.Env.{Env}
use lib_bucket_provisioner.Cluster.Monad.{pure, raise}
use lib_bucket_provisioner.Cluster.Emits.{Emits-map_error, Emits-call}
use lib_bucket_provisioner.Cluster.Triple.{
  Triple, Triple-bind, Triple-call, Triple-map_error, Triple-if, Triple-pure, Triple-raise,
  Triple-weaken,
}
use lib_bucket_provisioner.Cluster.Ordered.{
  Any, Any-map, Lasting, Any-Lasting, ×-Lasting, Kept, Ordered, Triple-Kept, Triple-Ordered,
}
use lib_bucket_provisioner.Helpers.Metadata.{finalizer, contains, add_labels}
use lib_bucket_provisioner.Helpers.Metadata.Laws.{add_finalizers-contains}
use lib_bucket_provisioner.Helpers.Lookups.{is_new_bucket_by_storage_class}
use lib_bucket_provisioner.Helpers.Names.{compose_bucket_name}
use lib_bucket_provisioner.Handlers.Update.{store_claim}
use lib_bucket_provisioner.Handlers.Emits as handlers
use lib_bucket_provisioner.Controller.Emits as emits
use lib_bucket_provisioner.Controller.Resources.{Controller}
use lib_bucket_provisioner.Controller.Provision.{
  with_meta_fields, set_obc_meta_fields, choose_bucket_name, store_bucket_name, run_provisioner,
  handle_provision_claim, bucket_options,
}

-- A claim was stored with the controller's finalizer.
abbrev pub Marked : Event → Type 0
Marked (claim_updated sent (done got)) = contains finalizer sent.meta.finalizers ≡ true
Marked _ = ⊥

-- A claim was stored, and it or the answer has this bucket name.
abbrev pub NameStored : Text → Event → Type 0
NameStored name (claim_updated sent (done got)) =
    (sent.spec.bucket_name ≡ name) ⊎ (got.spec.bucket_name ≡ name)
NameStored name _ = ⊥

-- Provision wants a stored claim with the finalizer and one with the bucket name; Grant wants the
-- finalizer.
abbrev pub ProvisionGuard : Event → Trace → Type 0
ProvisionGuard (provisioned o r) t = Any Marked t × Any (NameStored o.bucket_name) t
ProvisionGuard (granted o r) t = Any Marked t
ProvisionGuard _ t = Unit {0}

-- The claim is what the API server answered to an update.
abbrev Answer : ObjectBucketClaim → Event → Type 0
Answer obc (claim_updated sent (done got)) = got ≡ obc
Answer obc _ = ⊥

abbrev Stored : ObjectBucketClaim → Trace → Type 0
Stored obc t = Any Marked t × Any (Answer obc) t

Stored-Lasting : (obc : ObjectBucketClaim) → Lasting (Stored obc)
Stored-Lasting obc = ×-Lasting (Any-Lasting Marked) (Any-Lasting (Answer obc))

Answer-NameStored :
    (obc : ObjectBucketClaim) (name : Text) (e : Event)
    → obc.spec.bucket_name ≡ name
    → Answer obc e
    → NameStored name e
Answer-NameStored obc name (claim_updated sent (done got)) h a = inr (rw a h)
Answer-NameStored obc name _ h a = a

with_meta_fields-contains :
    (c : Controller) (obc : ObjectBucketClaim)
    → contains finalizer (with_meta_fields c obc).meta.finalizers ≡ true
unfolding with_meta_fields add_labels deep_copy_claim
with_meta_fields-contains c obc = add_finalizers-contains obc.meta

module _ {E : Env} where
  set_obc_meta_fields-Stored :
      (c : Controller) (obc : ObjectBucketClaim)
      → Triple {E = E}
          (Ordered ProvisionGuard tt)
          (set_obc_meta_fields c obc)
          (λ marked. Kept ProvisionGuard (Stored marked))
          (Ordered ProvisionGuard)
  unfolding set_obc_meta_fields store_claim
  set_obc_meta_fields-Stored c obc = Triple-map_error _ (
      Triple-map_error _ (
        Triple-call _ _ (λ w a s p e. ((tt, p), (inl (with_meta_fields-contains c obc), inl refl)))
          (λ w a s p e. (tt, p))))

-- A new bucket whose claim has a bucket name gets that name.
abbrev Chosen : StorageClass → ObjectBucketClaim → Text → Type 0
Chosen class obc name =
    is_new_bucket_by_storage_class class ≡ true
    → (obc.spec.bucket_name == []) ≡ false
    → obc.spec.bucket_name ≡ name

pub compose_bucket_name-named :
    {E : Env} (obc : ObjectBucketClaim)
    → (obc.spec.bucket_name == []) ≡ false
    → compose_bucket_name {E = E} obc ≡ pure obc.spec.bucket_name
unfolding compose_bucket_name
compose_bucket_name-named obc h = rw h refl

-- What Provision and Grant need for this class and name.
abbrev Ready : StorageClass → Text → Trace → Type 0
Ready class name t =
    Any Marked t × (is_new_bucket_by_storage_class class ≡ true → Any (NameStored name) t)

Ready-Lasting : (class : StorageClass) (name : Text) → Lasting (Ready class name)
Ready-Lasting class name = record { later = λ e t r. (inr r.0, λ n. inr (r.1 n)) }

module _ {E : Env} (class : StorageClass) (obc : ObjectBucketClaim) where
  compose_bucket_name-Chosen :
      (obc.spec.bucket_name == []) ≡ false
      → Triple {E = E}
          (Kept ProvisionGuard (Stored obc))
          (compose_bucket_name obc)
          (λ name w. Chosen class obc name × Kept ProvisionGuard (Stored obc) w)
          (Ordered ProvisionGuard)
  compose_bucket_name-Chosen h =
      rw (compose_bucket_name-named obc h) (Triple-pure _ (λ w k. ((λ _ _. refl), k)))

  choose_bucket_name-named :
      (obc.spec.bucket_name == []) ≡ false
      → Triple {E = E}
          (Kept ProvisionGuard (Stored obc))
          (choose_bucket_name class obc)
          (λ name w. Chosen class obc name × Kept ProvisionGuard (Stored obc) w)
          (Ordered ProvisionGuard)
  unfolding choose_bucket_name
  choose_bucket_name-named h =
      Triple-bind {Q' = λ name w. Chosen class obc name × Kept ProvisionGuard (Stored obc) w}
        (Triple-if (is_new_bucket_by_storage_class class)
          (λ _. Triple-map_error _ (compose_bucket_name-Chosen h))
          (λ n. Triple-pure _ (λ w k. ((λ n' _. cc), k))))
        (λ name.
          Triple-if (name == []) {m = raise (failure bucket_name_missing)}
            (λ _. Triple-raise _ (λ w k. k.1.0)) (λ _. Triple-pure _ (λ w k. k)))

  choose_bucket_name-Chosen :
      Triple {E = E}
        (Kept ProvisionGuard (Stored obc))
        (choose_bucket_name class obc)
        (λ name w. Chosen class obc name × Kept ProvisionGuard (Stored obc) w)
        (Ordered ProvisionGuard)
  choose_bucket_name-Chosen = elim (Bool-cases (obc.spec.bucket_name == [])) [
    | inl unnamed ↦
        Triple-weaken
          (Triple-Kept ProvisionGuard (Stored-Lasting obc)
            (emits.choose_bucket_name-Emits _ (λ id t k. tt) class obc))
          (λ w k. k) (λ name w k. ((λ _ h. cc), k)) (λ x w k. k)
    | inr named ↦ choose_bucket_name-named named
  ]

  store_bucket_name-Ready :
      (name : Text)
      → Triple {E = E}
          (λ w. Chosen class obc name × Kept ProvisionGuard (Stored obc) w)
          (store_bucket_name obc name)
          (λ _. Kept ProvisionGuard (Ready class name))
          (Ordered ProvisionGuard)
  unfolding store_bucket_name store_claim
  store_bucket_name-Ready name =
      Triple-if _
        (λ _. Triple-map_error _ (
          Triple-map_error _ (
            Triple-call _ _ (λ w a s k e. ((tt, k.1.0), (inr k.1.1.0, λ _. inl (inl refl))))
              (λ w a s k e. (tt, k.1.0)))))
        (λ named. Triple-pure _ (λ w k. (
          k.1.0,
          (
            k.1.1.0,
            λ new. Any-map w.trace (λ e. Answer-NameStored obc name e (k.0 new named)) k.1.1.1,
          ),
        )))

module _ {E : Env} (obc : ObjectBucketClaim) (ob : Option ObjectBucket) (class : StorageClass)
    (name : Text) where
  run_provisioner-Ordered :
      Triple {E = E}
        (Kept ProvisionGuard (Ready class name))
        (run_provisioner obc ob class name)
        (λ _. Ordered ProvisionGuard tt)
        (Ordered ProvisionGuard)
  unfolding run_provisioner bucket_options
  run_provisioner-Ordered =
      Triple-bind
        (Triple-Kept ProvisionGuard (Ready-Lasting class name)
          (Emits-map_error _ (Emits-call _ _ (λ r t k. tt))))
        (λ id.
          Triple-bind {Q' = λ _. Ordered ProvisionGuard tt}
            (Triple-map_error _ (
              Triple-if (is_new_bucket_by_storage_class class)
                (λ new.
                  Triple-call _ (provisioned (bucket_options obc class name id))
                    (λ w a s k e. ((k.1.0, k.1.1 new), k.0))
                    (λ w a s k e. ((k.1.0, k.1.1 new), k.0)))
                (λ _.
                  Triple-call _ (granted (bucket_options obc class name id))
                    (λ w a s k e. (k.1.0, k.0)) (λ w a s k e. (k.1.0, k.0)))))
            (λ provided. Triple-Ordered _ (emits.non_empty-Emits _ provided)))

module _ {E : Env} (c : Controller) (key : Text) (given : ObjectBucketClaim)
    (class : StorageClass) where
  pub handle_provision_claim-Triple :
      Triple {E = E}
        (Ordered ProvisionGuard tt)
        (handle_provision_claim c key given class)
        (λ _. Ordered ProvisionGuard tt)
        (Ordered ProvisionGuard)
  unfolding handle_provision_claim
  handle_provision_claim-Triple = Triple-bind (set_obc_meta_fields-Stored c given) λ marked.
      let keep = Stored-Lasting marked in
      Triple-bind
        (Triple-Kept ProvisionGuard keep
          (Emits-map_error _ (handlers.get_ob_from_key-Emits _ (λ n r t k. tt) key)))
        λ ob.
          Triple-bind (Triple-Kept ProvisionGuard keep (handlers.err_if_modified-Emits _ ob marked))
            λ _. Triple-bind (choose_bucket_name-Chosen class marked) λ name.
              Triple-bind (store_bucket_name-Ready class marked name) λ obc.
                Triple-bind (run_provisioner-Ordered obc ob class name) λ provided.
                  Triple-bind
                    (Triple-Ordered _ (
                      emits.save_connection-Emits _ (λ s r t. tt) (λ s r t. tt) (λ s r t. tt)
                        (λ s r t. tt) c obc provided))
                    λ _.
                      Triple-bind
                        (Triple-Ordered _ (
                          emits.save_bucket-Emits _ (λ n m r t. tt) (λ n r t. tt) (λ b r t. tt)
                            (λ b r t. tt) (λ b r t. tt) c key obc class provided))
                        λ saved.
                          Triple-Ordered _
                            (emits.bind_claim-Emits _ (λ o r t. tt) (λ o r t. tt) obc saved name)
