-- ===== src/Controller/Sync/Uncalled.antt =====
-- handleProvisionClaim calls the provisioner at most once; the rules for runs before and after the call.
use lib_bucket_provisioner.Base.{Text, Bool, true, false, Option, ◌∷◌, ◌≡◌, refl, inl, inr, arith}
use lib_bucket_provisioner.V1alpha1.{
  ObjectBucketClaim, ObjectBucket, ConfigMap, Secret, StorageClass,
}
use lib_bucket_provisioner.Cluster.Event.{Event, Trace, provisioned, granted, removed, revoked}
use lib_bucket_provisioner.Cluster.Env.{Env}
use lib_bucket_provisioner.Cluster.Monad.{World, M}
use lib_bucket_provisioner.Cluster.Emits.{Emits, Emits-map_error, Emits-call}
use lib_bucket_provisioner.Cluster.Triple.{
  Triple, Triple-bind, Triple-call, Triple-map_error, Triple-if, Triple-weaken, Triple-quiet,
}
use lib_bucket_provisioner.Cluster.Ordered.{Any, Safe, Ordered}
use lib_bucket_provisioner.Handlers.Update.{store_claim}
use lib_bucket_provisioner.Handlers.Emits as handlers
use lib_bucket_provisioner.Controller.Emits as emits
use lib_bucket_provisioner.Controller.Resources.{Controller}
use lib_bucket_provisioner.Controller.Provision.{
  set_obc_meta_fields, run_provisioner, handle_provision_claim, bucket_options,
}
use lib_bucket_provisioner.Helpers.Lookups.{is_new_bucket_by_storage_class}
use lib_bucket_provisioner.Controller.Delete.{delete_resources}

-- Provision, Grant, Delete or Revoke.
abbrev pub is_call : Event → Bool
is_call (provisioned o r) = true
is_call (granted o r) = true
is_call (removed ob r) = true
is_call (revoked ob r) = true
is_call _ = false

abbrev pub IsCall : Event → Type 0
IsCall e = is_call e ≡ true

-- No call of the provisioner comes after another.
abbrev pub OnceGuard : Event → Trace → Type 0
OnceGuard e t = is_call e ≡ true → Any IsCall t → ⊥

abbrev pub Uncalled : {E : Env} → World E → Type 0
Uncalled w = Safe OnceGuard w.trace × (Any IsCall w.trace → ⊥)

quiet-OnceGuard : (e : Event) (t : Trace) → is_call e ≡ false → OnceGuard e t
quiet-OnceGuard e t h call _ = ground (arith, h, call)

still-Uncalled :
    (e : Event) (t : Trace) → is_call e ≡ false → (Any IsCall t → ⊥) → Any IsCall (e ∷ t) → ⊥
still-Uncalled e t h none_of (inl call) = ground (arith, h, call)
still-Uncalled e t h none_of (inr any) = none_of any

module _ {E : Env} {A : Type 0} {m : M E A} where
  pub before :
      Emits (λ e. is_call e ≡ false) m
      → Triple {E = E} Uncalled m (λ _. Uncalled) (Ordered OnceGuard)
  before em =
      Triple-weaken
        (Triple-quiet (λ t. Safe OnceGuard t × (Any IsCall t → ⊥)) em
          (λ e t h i. ((quiet-OnceGuard e t h, i.0), still-Uncalled e t h i.1)))
        (λ w i. i) (λ a w i. i) (λ x w i. i.0)

  pub after :
      Emits (λ e. is_call e ≡ false) m
      → Triple {E = E} (Ordered OnceGuard tt) m (λ _. Ordered OnceGuard tt) (Ordered OnceGuard)
  after em = Triple-quiet (Safe OnceGuard) em (λ e t h s. (quiet-OnceGuard e t h, s))

module _ {E : Env} where
  pub delete_resources-after :
      (ob : Option ObjectBucket) (cm : Option ConfigMap) (s : Option Secret)
      (obc : Option ObjectBucketClaim)
      → Emits {E = E} (λ e. is_call e ≡ false) (delete_resources ob cm s obc)
  delete_resources-after ob cm s obc =
      emits.delete_resources-Emits _ (λ o r. refl) (λ n r. refl) (λ n m r. refl) (λ o r. refl)
        (λ n m r. refl) (λ o r. refl) (λ n m r. refl) (λ o r. refl) ob cm s obc

  run_provisioner-once :
      (obc : ObjectBucketClaim) (ob : Option ObjectBucket) (class : StorageClass) (name : Text)
      → Triple {E = E} Uncalled
          (run_provisioner obc ob class name)
          (λ _. Ordered OnceGuard tt)
          (Ordered OnceGuard)
  unfolding run_provisioner bucket_options
  run_provisioner-once obc ob class name =
      Triple-bind (before (Emits-map_error _ (Emits-call _ _ (λ r. refl)))) (λ id.
        Triple-bind {Q' = λ _. Ordered OnceGuard tt}
          (Triple-map_error _ (
            Triple-if (is_new_bucket_by_storage_class class)
              (λ new.
                Triple-call _ (provisioned (bucket_options obc class name id))
                  (λ w a s k e. ((λ _ any. k.1 any), k.0)) (λ w a s k e. ((λ _ any. k.1 any), k.0)))
              (λ _.
                Triple-call _ (granted (bucket_options obc class name id))
                  (λ w a s k e. ((λ _ any. k.1 any), k.0))
                  (λ w a s k e. ((λ _ any. k.1 any), k.0)))))
          (λ provided. after (emits.non_empty-Emits _ provided)))

  pub handle_provision_claim-once :
      (c : Controller) (key : Text) (given : ObjectBucketClaim) (class : StorageClass)
      → Triple {E = E} Uncalled
          (handle_provision_claim c key given class)
          (λ _. Ordered OnceGuard tt)
          (Ordered OnceGuard)
  unfolding handle_provision_claim set_obc_meta_fields store_claim
  handle_provision_claim-once c key given class =
      Triple-bind (before (Emits-map_error _ (Emits-map_error _ (Emits-call _ _ (λ r. refl)))))
        λ marked.
          Triple-bind
            (before (Emits-map_error _ (handlers.get_ob_from_key-Emits _ (λ n r. refl) key)))
            λ ob. Triple-bind (before (handlers.err_if_modified-Emits _ ob marked)) λ _.
              Triple-bind (before (emits.choose_bucket_name-Emits _ (λ id. refl) class marked))
                λ name.
                  Triple-bind (before (emits.store_bucket_name-Emits _ (λ o r. refl) marked name))
                    λ obc. Triple-bind (run_provisioner-once obc ob class name) λ provided.
                      Triple-bind
                        (after (
                          emits.save_connection-Emits _ (λ s r. refl) (λ s r. refl) (λ s r. refl)
                            (λ s r. refl) c obc provided))
                        λ _.
                          Triple-bind
                            (after (
                              emits.save_bucket-Emits _ (λ n m r. refl) (λ n r. refl) (λ b r. refl)
                                (λ b r. refl) (λ b r. refl) c key obc class provided))
                            λ saved.
                              after (
                                emits.bind_claim-Emits _ (λ o r. refl) (λ o r. refl) obc saved name)
