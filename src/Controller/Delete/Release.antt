-- ===== src/Controller/Delete/Release.antt =====
-- deleteResources (pkg/provisioner/controller.go) after a failure.
use lib_bucket_provisioner.Base.{Option, none, some, ◌≡◌, refl, inl, inr}
use lib_bucket_provisioner.V1alpha1.{ObjectBucketClaim, ObjectBucket, ConfigMap, Secret}
use lib_bucket_provisioner.Cluster.Error.{Error}
use lib_bucket_provisioner.Cluster.Event.{Event, claim_got}
use lib_bucket_provisioner.Cluster.Env.{Env}
use lib_bucket_provisioner.Cluster.Monad.{Outcome, ok, err, panic, World, M, attempt}
use lib_bucket_provisioner.Cluster.Triple.{
  Ending, Post, Triple, Triple-bind, Triple-attempt, Triple-call, Triple-map_error, Triple-pure,
  Triple-raise,
}
use lib_bucket_provisioner.Cluster.Calm.{Calm, OnCrash, Anyhow, Calm-Triple}
use lib_bucket_provisioner.Cluster.Ordered.{Any}
use lib_bucket_provisioner.Handlers.Calm as handlers
use lib_bucket_provisioner.Handlers.Release.{release_claim}
use lib_bucket_provisioner.Controller.Delete.{return_error, delete_resources}

-- The claim's present version was asked for.
abbrev pub ClaimAsked : ObjectBucketClaim → Event → Type 0
ClaimAsked obc (claim_got ns name r) = (ns ≡ obc.meta.namespace) × (name ≡ obc.meta.name)
ClaimAsked obc _ = ⊥

abbrev Asked : {E : Env} {X : Type 0} → ObjectBucketClaim → X → World E → Type 0
Asked obc x w = Any (ClaimAsked obc) w.trace

-- A run that never panics, whatever it returns.
pub attempted :
    {E : Env} {A : Type 0} {m : M E A} {R : Ending → World E → Type 0}
    → Calm m
    → Triple {E = E} (Anyhow tt) (attempt m) Anyhow R
attempted cm =
    Triple-attempt {R' = OnCrash (λ t. ⊥)} (Calm-Triple _ cm) (λ e w h. tt) (λ w h. absurd h)

Asked-Post :
    {E : Env} {A : Type 0} (obc : ObjectBucketClaim) (r : Outcome A) (w : World E)
    → Post (Asked obc) (Asked obc) r w
    → Any (ClaimAsked obc) w.trace
Asked-Post obc (ok a) w h = h
Asked-Post obc (err e) w h = h
Asked-Post obc panic w h = h

module _ {E : Env} (obc : ObjectBucketClaim) where
  release_claim-Asked :
      Triple {E = E} (Anyhow tt) (release_claim (some obc)) (Asked obc) (Asked obc)
  unfolding release_claim
  release_claim-Asked =
      Triple-bind {Q' = Asked obc}
        (Triple-map_error _ (
          Triple-call _ (claim_got obc.meta.namespace obc.meta.name) (λ w a s p e. inl (refl, refl))
            (λ w x s p e. inl (refl, refl))))
        λ current.
          Triple-bind {Q' = Asked obc}
            (Triple-map_error _ (Triple-call _ _ (λ w a s p e. inr p) (λ w x s p e. inr p)))
            λ _. Triple-pure _ (λ w p. p)

  return_error-Asked :
      (e : Option Error) → Triple {E = E} (Asked obc tt) (return_error e) (Asked obc) (Asked obc)
  unfolding return_error
  return_error-Asked none = Triple-pure _ (λ w p. p)
  return_error-Asked (some e) = Triple-raise _ (λ w p. p)

  delete_resources-Asked :
      (ob : Option ObjectBucket) (cm : Option ConfigMap) (s : Option Secret)
      → Triple {E = E} (Anyhow tt) (delete_resources ob cm s (some obc)) (Asked obc) (Asked obc)
  unfolding delete_resources
  delete_resources-Asked ob cm s =
      Triple-bind {Q' = Anyhow} (attempted (handlers.delete_object_bucket-Calm ob)) λ b.
        Triple-bind {Q' = Anyhow} (attempted (handlers.release_secret-Calm s)) λ sec.
          Triple-bind {Q' = Anyhow} (attempted (handlers.release_config_map-Calm cm)) λ config.
            Triple-bind {Q' = Asked obc}
              (Triple-attempt {R' = Asked obc} release_claim-Asked (λ e w h. h) (λ w h. h))
              λ claim. return_error-Asked _

-- Whatever fails before, a run of deleteResources for a claim asks the API server for that claim,
-- which is the first step of releasing it.
pub delete_resources-ClaimAsked :
    (E : Env) (ob : Option ObjectBucket) (cm : Option ConfigMap) (s : Option Secret)
    (obc : ObjectBucketClaim) (w : World E)
    → Any (ClaimAsked obc) (delete_resources {E = E} ob cm s (some obc) w).1.trace
delete_resources-ClaimAsked E ob cm s obc w =
    let (r, w') = delete_resources {E = E} ob cm s (some obc) w in
    Asked-Post obc r w' ((delete_resources-Asked obc ob cm s).at w tt)
