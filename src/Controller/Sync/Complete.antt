-- ===== src/Controller/Sync/Complete.antt =====
-- syncHandler (pkg/provisioner/controller.go) as a whole where no call fails.
use lib_bucket_provisioner.Base.{
  Text, ◌==◌, true, false, none, some, [], ◌≡◌, refl, ap, ◌∙◌, is_none,
}
use lib_bucket_provisioner.V1alpha1.{ObjectBucketClaim, ObjectBucketClaimSpec, StorageClass}
use lib_bucket_provisioner.V1alpha1.DeepCopy.{deep_copy_claim, deep_copy_claim_spec}
use lib_bucket_provisioner.Cluster.Error.{Reply, done, failed}
use lib_bucket_provisioner.Cluster.Env.{Env}
use lib_bucket_provisioner.Cluster.Monad.{World, ok}
use lib_bucket_provisioner.Cluster.Triple.{
  Triple-weaken, Triple-bind, Triple-map_error, Triple-if, Triple-pure,
}
use lib_bucket_provisioner.Cluster.Ordered.{Any}
use lib_bucket_provisioner.Helpers.Lookups.{claim_for_key, storage_class_for_claim}
use lib_bucket_provisioner.Handlers.Update.{update_object_bucket_claim_phase}
use lib_bucket_provisioner.Controller.Resources.{Controller, supported_provisioner}
use lib_bucket_provisioner.Controller.Provision.Complete.{
  Completes-kept, Completes-from, OkWith, Completes, Completes-lift, Responsive,
}
use lib_bucket_provisioner.Controller.Provision.Complete.Naming.{
  given, Named, ClaimBound, SameTerms,
}
use lib_bucket_provisioner.Controller.Provision.Complete.Whole.{
  completed, handle_provision_claim-Completes,
}
use lib_bucket_provisioner.Controller.Delete.Complete.{attempt-Completes}
use lib_bucket_provisioner.Controller.Sync.{
  mark_pending, provision_claim, dispatch_claim, sync_found, sync_handler,
}

-- The storage class with this name can be read and names the provisioner of the controller.
abbrev pub ClassSupported : Env → Controller → Text → Type 0
ClassSupported E c n =
    (s : E.State)
    → OkWith (λ class. supported_provisioner c class.provisioner ≡ true) (E.get_storage_class n s).0

-- The claim can be read in this state, and has this property.
abbrev pub ReadAs : (E : Env) → Text → Text → (ObjectBucketClaim → Type 0) → E.State → Type 0
ReadAs E ns name Claim s = OkWith Claim (E.get_claim ns name s).0

-- It names a storage class of the controller's provisioner.
abbrev pub Classed : Env → Controller → ObjectBucketClaim → Type 0
Classed E c obc =
    ((obc.spec.storage_class_name == []) ≡ false) × ClassSupported E c obc.spec.storage_class_name

-- It is not being deleted, and asks for this bucket.
abbrev pub Wanted : Env → Controller → ObjectBucketClaimSpec → ObjectBucketClaim → Type 0
Wanted E c claim obc =
    Classed E c obc × (obc.meta.deletion_timestamp ≡ none) × SameTerms claim obc.spec

abbrev pub Unwanted : Env → Controller → ObjectBucketClaim → Type 0
Unwanted E c obc = Classed E c obc × (is_none obc.meta.deletion_timestamp ≡ false)

-- A stored copy of the claim asks for the same.
stored_terms :
    (claim : ObjectBucketClaimSpec) (obc got : ObjectBucketClaim)
    → got.spec ≡ (deep_copy_claim obc).spec
    → SameTerms claim obc.spec
    → SameTerms claim got.spec
unfolding deep_copy_claim deep_copy_claim_spec
stored_terms claim obc got e same = (
  ap (λ (spec : ObjectBucketClaimSpec). spec.bucket_name) e ∙ same.0,
  ap (λ (spec : ObjectBucketClaimSpec). spec.generate_bucket_name) e ∙ same.1,
  ap (λ (spec : ObjectBucketClaimSpec). spec.storage_class_name) e ∙ same.2,
)

module _ {E : Env} (c : Controller) (key ns name : Text)
    (split : E.split_key key ≡ done (ns, name)) where
  -- The way to the handler of a claim, where reading keeps a fact about the state.
  module _ (Claim : ObjectBucketClaim → Type 0) (K : E.State → Type 0)
      (claim_kept : (ns name : Text) (s : E.State) → K s → K (E.get_claim ns name s).1)
      (class_kept : (n : Text) (s : E.State) → K s → K (E.get_storage_class n s).1) where
    -- Before the claim is read.
    abbrev Waiting : World E → Type 0
    Waiting w = ReadAs E ns name Claim w.state × K w.state

    claim_for_key-Completes :
        Completes {E = E} Waiting (claim_for_key key) (λ obc w. Claim obc × K w.state)
    unfolding claim_for_key
    claim_for_key-Completes =
        Triple-bind {Q' = λ at w. (at ≡ (ns, name)) × Waiting w}
          (Completes-lift _ _ split (λ w p. (refl, p)))
          λ at. given λ e.
            rw e
              (Completes-from Claim (ReadAs E ns name Claim) K _ _ (λ s h. h) (claim_kept ns name))

    class_for_claim-Completes :
        (obc : ObjectBucketClaim)
        → Classed E c obc
        → Completes {E = E}
            (λ w. K w.state)
            (storage_class_for_claim (some obc))
            (λ class w. (supported_provisioner c class.provisioner ≡ true) × K w.state)
    unfolding storage_class_for_claim
    class_for_claim-Completes obc classed = rw (classed.0) (
        Triple-map_error _ (
          Completes-kept (λ class. supported_provisioner c class.provisioner ≡ true) K _ _ classed.1
            (class_kept _)))

    sync_handler-Completes :
        {Q : Unit {0} → World E → Type 0}
        → ((obc : ObjectBucketClaim) → Claim obc → Classed E c obc)
        → ((obc : ObjectBucketClaim) (class : StorageClass)
            → Claim obc
            → supported_provisioner c class.provisioner ≡ true
            → Completes {E = E} (λ w. K w.state) (dispatch_claim c key obc class) Q)
        → Completes {E = E} Waiting (sync_handler c key) Q
    unfolding sync_handler sync_found
    sync_handler-Completes {Q} classed next =
        Triple-bind {Q' = λ r w. OkWith Claim r × K w.state}
          (attempt-Completes {K = λ w. K w.state} Claim claim_for_key-Completes) found
      where
        found :
            (r : Reply ObjectBucketClaim)
            → Completes {E = E} (λ w. OkWith Claim r × K w.state) (sync_found c key r) Q
        found (failed e) = record { at = λ w h. absurd h.0 }
        found (done obc) = given λ h.
            Triple-bind
              {Q' = λ class w. (supported_provisioner c class.provisioner ≡ true) × K w.state}
              (class_for_claim-Completes obc (classed obc h))
              λ class. given λ supported. next obc class h supported

  dispatch_claim-Wanted :
      {claim : ObjectBucketClaimSpec} (live : Responsive E claim)
      → Named claim
      → (obc : ObjectBucketClaim) (class : StorageClass) → Wanted E c claim obc
      → supported_provisioner c class.provisioner ≡ true
      → Completes {E = E}
          (λ w. live.Early w.state)
          (dispatch_claim c key obc class)
          (λ _ w. Any ClaimBound w.trace)
  unfolding dispatch_claim provision_claim mark_pending update_object_bucket_claim_phase
      deep_copy_claim deep_copy_claim_spec
  dispatch_claim-Wanted {claim} live named obc class wanted supported =
      rw (supported, wanted.1)
        (Triple-bind {Q' = λ pending w. SameTerms claim pending.spec × live.Early w.state}
          (Triple-if (obc.status.phase == [])
            (λ _.
              Triple-weaken
                (Triple-map_error _ (
                  Triple-map_error _ (
                    Completes-kept (λ got. got.spec ≡ (deep_copy_claim obc).spec) live.Early _ _
                      (live.claim_status _) (live.early_claim_status _))))
                (λ w p. p) (λ got w h. (stored_terms claim obc got h.0 wanted.2, h.1)) (λ x w h. h))
            (λ _. Triple-pure _ (λ w p. (wanted.2, p))))
          λ pending. given λ same.
            handle_provision_claim-Completes live key ns name split c pending class same
              (rw (same.0, same.1) named))

-- For a claim that names a storage class of the controller's provisioner and a bucket or a prefix, and
-- is not being deleted: syncHandler returns without an error and has stored the phase Bound of a claim,
-- if no call fails but that an object bucket, a secret or a config map may be missing when it is read,
-- or there when it is created. An object bucket that is there when the key's is first read must have
-- the claim's storage class and an endpoint with the claim's bucket name, which is empty for a claim
-- with a prefix only; an object bucket that a creation finds there must be readable; Provision and
-- Grant must return an object bucket that is not the zero value and has an endpoint and an
-- authentication; and an update of a claim must answer with the spec that was sent.
pub sync_handler-binds :
    {E : Env} (claim : ObjectBucketClaimSpec) (live : Responsive E claim) (c : Controller)
    (key ns name : Text)
    → E.split_key key ≡ done (ns, name)
    → Named claim
    → (w : World E) → ReadAs E ns name (Wanted E c claim) w.state
    → live.Early w.state
    → ((sync_handler c key w).0 ≡ ok tt) × Any ClaimBound (sync_handler c key w).1.trace
sync_handler-binds {E} claim live c key ns name split named w read early =
    let (r, w') = sync_handler c key w in
    completed r w' (
      (sync_handler-Completes c key ns name split (Wanted E c claim) live.Early
          live.early_claim_read live.early_class_read (λ obc h. h.0)
          (dispatch_claim-Wanted c key ns name split live named)).at
        w (read, early))
