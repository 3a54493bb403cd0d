-- ===== src/Controller/Provision/Saving.antt =====
-- createOrUpdateSecret and createOrUpdateConfigMap in handleProvisionClaim: what a run that reaches
-- the object bucket has saved, and the order that asks for.
use lib_bucket_provisioner.Base.{◌==◌, StringMap, true, Option, ◌≡◌, inl}
use lib_bucket_provisioner.V1alpha1.{ObjectBucketClaim, Secret, ConfigMap, Endpoint, Authentication}
use lib_bucket_provisioner.V1alpha1.Phase
use lib_bucket_provisioner.Cluster.Error.{Error, Reply, done, failed, is_already_exists}
use lib_bucket_provisioner.Cluster.Event.{
  Event, Trace, claim_status_updated, bucket_created, bucket_status_updated, secret_created,
  secret_updated, config_map_created, config_map_updated,
}
use lib_bucket_provisioner.Cluster.Env.{Env}
use lib_bucket_provisioner.Cluster.Monad.{World}
use lib_bucket_provisioner.Cluster.Triple.{
  Triple, Triple-bind, Triple-call, Triple-if, Triple-pure, Triple-raise, Triple-attempt,
  Triple-lift,
}
use lib_bucket_provisioner.Cluster.Ordered.{Any, Lasting, Any-Lasting, ×-Lasting, Kept, Ordered}
use lib_bucket_provisioner.Handlers.Create.{
  create_or_update_secret, secret_after_create, create_or_update_config_map,
  config_map_after_create, updated_or,
}

-- The secret was created or updated.
abbrev pub SecretSaved : Event → Type 0
SecretSaved (secret_created s (done _)) = Unit {0}
SecretSaved (secret_updated s (done _)) = Unit {0}
SecretSaved _ = ⊥

abbrev pub ConfigMapSaved : Event → Type 0
ConfigMapSaved (config_map_created cm (done _)) = Unit {0}
ConfigMapSaved (config_map_updated cm (done _)) = Unit {0}
ConfigMapSaved _ = ⊥

-- An object bucket was stored with the phase Bound.
abbrev pub BucketBound : Event → Type 0
BucketBound (bucket_status_updated ob (done _)) = ob.status.phase ≡ Phase.bound
BucketBound _ = ⊥

abbrev pub Saved : Trace → Type 0
Saved t = Any SecretSaved t × Any ConfigMapSaved t

-- An object bucket is created after the secret and the config map; a claim gets the phase Bound
-- after an object bucket has got it.
abbrev pub BindGuard : Event → Trace → Type 0
BindGuard (bucket_created ob r) t = Saved t
BindGuard (claim_status_updated obc r) t =
    (obc.status.phase == Phase.bound) ≡ true → Saved t × Any BucketBound t
BindGuard _ t = Unit {0}

pub Saved-Lasting : Lasting Saved
Saved-Lasting = ×-Lasting (Any-Lasting SecretSaved) (Any-Lasting ConfigMapSaved)

-- After a call that may have saved: the fact if it was answered, beside what held before.
abbrev IfDone :
    {E : Env} {A : Type 0} → (Trace → Type 0) → (Event → Type 0) → Reply A → World E → Type 0
IfDone K P (done _) = Kept BindGuard (λ t. K t × Any P t)
IfDone K P (failed _) = Kept BindGuard K

module _ {E : Env} {K : Trace → Type 0} (keep : Lasting K) where
  updated_or-done :
      (P : Event → Type 0) {A : Type 0} (e : Error) (r : Reply A)
      → Triple {E = E}
          (IfDone K P r)
          (updated_or e r)
          (λ _. Kept BindGuard (λ t. K t × Any P t))
          (Ordered BindGuard)
  unfolding updated_or
  updated_or-done P e (done a) = Triple-pure _ (λ w k. k)
  updated_or-done P e (failed f) = Triple-raise _ (λ w k. k.0)

  secret_after_create-saves :
      (s : Secret) (r : Reply Secret)
      → Triple {E = E}
          (IfDone K SecretSaved r)
          (secret_after_create s r)
          (λ _. Kept BindGuard (λ t. K t × Any SecretSaved t))
          (Ordered BindGuard)
  unfolding secret_after_create
  secret_after_create-saves s (done _) = Triple-pure _ (λ w k. k)
  secret_after_create-saves s (failed e) =
      Triple-if (is_already_exists e)
        (λ _.
          Triple-bind
            (Triple-attempt {R' = λ _. Kept BindGuard K}
              (Triple-call _ (secret_updated s)
                (λ w a t k h. ((tt, k.0), (keep.later _ _ k.1, inl tt)))
                (λ w a t k h. ((tt, k.0), keep.later _ _ k.1)))
              (λ e w k. k) (λ w k. k.0))
            (updated_or-done SecretSaved _))
        (λ _. Triple-raise _ (λ w k. k.0))

  pub create_or_update_secret-saves :
      (obc : ObjectBucketClaim) (auth : Option Authentication) (labels : StringMap)
      → Triple {E = E}
          (Kept BindGuard K)
          (create_or_update_secret obc auth labels)
          (λ _. Kept BindGuard (λ t. K t × Any SecretSaved t))
          (Ordered BindGuard)
  unfolding create_or_update_secret
  create_or_update_secret-saves obc auth labels =
      Triple-bind {Q' = λ _. Kept BindGuard K} (Triple-lift _ (λ a w h k. k) (λ w k. k.0)) λ s.
        Triple-bind {Q' = IfDone K SecretSaved}
          (Triple-attempt {R' = λ _. Kept BindGuard K}
            (Triple-call _ (secret_created s)
              (λ w a t k h. ((tt, k.0), (keep.later _ _ k.1, inl tt)))
              (λ w a t k h. ((tt, k.0), keep.later _ _ k.1)))
            (λ e w k. k) (λ w k. k.0))
          (secret_after_create-saves s)

  config_map_after_create-saves :
      (cm : ConfigMap) (r : Reply ConfigMap)
      → Triple {E = E}
          (IfDone K ConfigMapSaved r)
          (config_map_after_create cm r)
          (λ _. Kept BindGuard (λ t. K t × Any ConfigMapSaved t))
          (Ordered BindGuard)
  unfolding config_map_after_create
  config_map_after_create-saves cm (done _) = Triple-pure _ (λ w k. k)
  config_map_after_create-saves cm (failed e) =
      Triple-if (is_already_exists e)
        (λ _.
          Triple-bind
            (Triple-attempt {R' = λ _. Kept BindGuard K}
              (Triple-call _ (config_map_updated cm)
                (λ w a t k h. ((tt, k.0), (keep.later _ _ k.1, inl tt)))
                (λ w a t k h. ((tt, k.0), keep.later _ _ k.1)))
              (λ e w k. k) (λ w k. k.0))
            (updated_or-done ConfigMapSaved _))
        (λ _. Triple-raise _ (λ w k. k.0))

  pub create_or_update_config_map-saves :
      (obc : ObjectBucketClaim) (ep : Option Endpoint) (labels : StringMap)
      → Triple {E = E}
          (Kept BindGuard K)
          (create_or_update_config_map obc ep labels)
          (λ _. Kept BindGuard (λ t. K t × Any ConfigMapSaved t))
          (Ordered BindGuard)
  unfolding create_or_update_config_map
  create_or_update_config_map-saves obc ep labels =
      Triple-bind {Q' = λ _. Kept BindGuard K} (Triple-lift _ (λ a w h k. k) (λ w k. k.0)) λ cm.
        Triple-bind {Q' = IfDone K ConfigMapSaved}
          (Triple-attempt {R' = λ _. Kept BindGuard K}
            (Triple-call _ (config_map_created cm)
              (λ w a t k h. ((tt, k.0), (keep.later _ _ k.1, inl tt)))
              (λ w a t k h. ((tt, k.0), keep.later _ _ k.1)))
            (λ e w k. k) (λ w k. k.0))
          (config_map_after_create-saves cm)
