-- ===== src/Controller/Naming/Stages.antt =====
-- The stages of handleProvisionClaim that choose the bucket name and store it, and the stored name.
use lib_bucket_provisioner.Base.{
  Text, ◌==◌, ==_sound, true, false, Bool-cases, [], ◌∷◌, ◌≡◌, refl, sym, ◌∙◌, inl, inr,
}
use lib_bucket_provisioner.V1alpha1.{ObjectBucketClaim, StorageClass}
use lib_bucket_provisioner.V1alpha1.DeepCopy.{deep_copy_claim, deep_copy_claim_spec}
use lib_bucket_provisioner.Cluster.Error.{failure, bucket_name_missing}
use lib_bucket_provisioner.Cluster.Event.{Event, Trace, uuid_made}
use lib_bucket_provisioner.Cluster.Env.{Env}
use lib_bucket_provisioner.Cluster.Monad.{M, raise}
use lib_bucket_provisioner.Cluster.Emits.{Emits, emits}
use lib_bucket_provisioner.Cluster.Triple.{
  Triple, Triple-quiet, Triple-bind, Triple-call, Triple-map_error, Triple-if, Triple-pure,
  Triple-raise, Triple-weaken,
}
use lib_bucket_provisioner.Cluster.Ordered.{Safe, Kept, Ordered}
use lib_bucket_provisioner.Helpers.Lookups.{is_new_bucket_by_storage_class}
use lib_bucket_provisioner.Helpers.Names.{compose_bucket_name, generate_bucket_name}
use lib_bucket_provisioner.Handlers.Update.{store_claim}
use lib_bucket_provisioner.Controller.Resources.{Controller}
use lib_bucket_provisioner.Controller.Provision.{
  with_meta_fields, set_obc_meta_fields, choose_bucket_name, store_bucket_name,
}
use lib_bucket_provisioner.Controller.Provision.Order.{compose_bucket_name-named}
use lib_bucket_provisioner.Controller.Naming.{stored, Faithful, NameGuard}

compose_bucket_name-Emits :
    {E : Env} (P : Event → Type 0)
    → ((id : Text) → P (uuid_made id))
    → (obc : ObjectBucketClaim) → Emits P (compose_bucket_name {E = E} obc)
unfolding compose_bucket_name generate_bucket_name
compose_bucket_name-Emits P made obc = search emits depth 9

-- The claim has the stored name, and the class is for new buckets.
abbrev pub OfClaim : StorageClass → ObjectBucketClaim → Text → Type 0
OfClaim class obc s = (obc.spec.bucket_name ≡ s) × (is_new_bucket_by_storage_class class ≡ true)

-- The composed name is the claim's, if that has one.
abbrev Composed : ObjectBucketClaim → Text → Text → Type 0
Composed obc name s =
    (obc.spec.bucket_name ≡ s)
    × ((obc.spec.bucket_name == []) ≡ false → obc.spec.bucket_name ≡ name)

-- The chosen name is not empty, and the claim's, if that has one.
abbrev pub ChosenFor : ObjectBucketClaim → Text → Text → Type 0
ChosenFor obc name s =
    (obc.spec.bucket_name ≡ s)
    × ((name == []) ≡ false)
    × ((obc.spec.bucket_name == []) ≡ false → obc.spec.bucket_name ≡ name)

-- The name is stored, and not empty.
abbrev pub Asked : Text → Text → Type 0
Asked name s = (name ≡ s) × ((name == []) ≡ false)

module _ (first : Text) where
  -- After faithful answers, this holds of the stored name.
  abbrev pub Under : (Text → Type 0) → Trace → Type 0
  Under Q t = Safe (Faithful first) t → Q (stored first t)

  -- An event without a guard that stores no name.
  abbrev pub Stays : Event → Type 0
  Stays e = (t : Trace) → NameGuard first e t × (stored first (e ∷ t) ≡ stored first t)

  module _ {E : Env} where
    pub Triple-Stays :
        {A : Type 0} {m : M E A} (Q : Text → Type 0)
        → Emits Stays m
        → Triple
            (Kept (NameGuard first) (Under Q))
            m
            (λ _. Kept (NameGuard first) (Under Q))
            (Ordered (NameGuard first))
    Triple-Stays Q em =
        Triple-weaken
          (Triple-quiet (λ t. Safe (NameGuard first) t × Under Q t) em
            (λ e t p i. (((p t).0, i.0), λ cons. rw ((p t).1) (i.1 cons.1))))
          (λ w i. i) (λ a w i. i) (λ x w i. i.0)

    module _ (class : StorageClass) where
      pub set_obc_meta_fields-Named :
          (c : Controller) (given : ObjectBucketClaim)
          → Triple {E = E}
              (Kept (NameGuard first) (Under (OfClaim class given)))
              (set_obc_meta_fields c given)
              (λ marked. Kept (NameGuard first) (Under (OfClaim class marked)))
              (Ordered (NameGuard first))
      unfolding set_obc_meta_fields store_claim with_meta_fields deep_copy_claim
          deep_copy_claim_spec
      set_obc_meta_fields-Named c given = Triple-map_error _ (
          Triple-map_error _ (
            Triple-call _ _
              (λ w a s k e. (((λ cons. inl (k.1 cons).0), k.0), λ cons. (cons.0, (k.1 cons.1).1)))
              (λ w a s k e. ((λ cons. inl (k.1 cons).0), k.0))))

      module _ (obc : ObjectBucketClaim) where
        compose_bucket_name-Composed :
            Triple {E = E}
              (Kept (NameGuard first) (Under (OfClaim class obc)))
              (compose_bucket_name obc)
              (λ name. Kept (NameGuard first) (Under (Composed obc name)))
              (Ordered (NameGuard first))
        compose_bucket_name-Composed = elim (Bool-cases (obc.spec.bucket_name == [])) [
          | inl unnamed ↦
              Triple-weaken
                (Triple-Stays (OfClaim class obc)
                  (compose_bucket_name-Emits Stays (λ id t. (tt, refl)) obc))
                (λ w k. k) (λ name w k. (k.0, λ cons. ((k.1 cons).0, λ h. cc))) (λ x w k. k)
          | inr named ↦
              rw (compose_bucket_name-named obc named)
                (Triple-pure _ (λ w k. (k.0, λ cons. ((k.1 cons).0, λ h. refl))))
        ]

        pub choose_bucket_name-ChosenFor :
            Triple {E = E}
              (Kept (NameGuard first) (Under (OfClaim class obc)))
              (choose_bucket_name class obc)
              (λ name. Kept (NameGuard first) (Under (ChosenFor obc name)))
              (Ordered (NameGuard first))
        unfolding choose_bucket_name
        choose_bucket_name-ChosenFor =
            Triple-bind {Q' = λ name. Kept (NameGuard first) (Under (Composed obc name))}
              (Triple-if (is_new_bucket_by_storage_class class)
                (λ _. Triple-map_error _ compose_bucket_name-Composed)
                (λ old.
                  Triple-pure _ (λ w k. (k.0, λ cons. let new = (k.1 cons).1 in absurd (cc)))))
              (λ name.
                Triple-if (name == []) {m = raise (failure bucket_name_missing)}
                  (λ _. Triple-raise _ (λ w k. k.0))
                  (λ full.
                    Triple-pure _ (λ w k. (k.0, λ cons. ((k.1 cons).0, full, (k.1 cons).1)))))

        pub store_bucket_name-Asked :
            (name : Text)
            → Triple {E = E}
                (Kept (NameGuard first) (Under (ChosenFor obc name)))
                (store_bucket_name obc name)
                (λ _. Kept (NameGuard first) (Under (Asked name)))
                (Ordered (NameGuard first))
        unfolding store_bucket_name store_claim
        store_bucket_name-Asked name =
            Triple-if (obc.spec.bucket_name == [])
              (λ unnamed.
                let empty = ==_sound obc.spec.bucket_name [] unnamed in
                Triple-map_error _ (
                  Triple-map_error _ (
                    Triple-call _ _
                      (λ w a s k e. (
                        ((λ cons. inr (sym (k.1 cons).0 ∙ empty)), k.0),
                        λ cons. (refl, (k.1 cons.1).1),
                      ))
                      (λ w a s k e. ((λ cons. inr (sym (k.1 cons).0 ∙ empty)), k.0)))))
              (λ named.
                Triple-pure _
                  (λ w k. (k.0, λ cons. (sym ((k.1 cons).2 named) ∙ (k.1 cons).0, (k.1 cons).1))))
