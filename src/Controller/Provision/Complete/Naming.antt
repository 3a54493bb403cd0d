-- ===== src/Controller/Provision/Complete/Naming.antt =====
-- The stages of handleProvisionClaim up to the bucket name and what is made of single answers, where
-- no call fails.
use lib_bucket_provisioner.Base.{
  ℕ, Text, ◌==◌, ◌&&◌, false, Option, none, some, [], ◌∷◌, ◌++◌, ◌≡◌, refl, ap,
}
use lib_bucket_provisioner.V1alpha1.{
  ObjectBucketClaim, ObjectBucketClaimSpec, ObjectBucket, Connection, StorageClass, empty_bucket,
}
use lib_bucket_provisioner.V1alpha1.Phase
use lib_bucket_provisioner.V1alpha1.DeepCopy.{deep_copy_claim, deep_copy_claim_spec}
use lib_bucket_provisioner.Cluster.Error.{
  Error, Reply, done, failed, is_not_found, failure, bucket_name_missing, empty_object_bucket,
  no_bucket_name_given,
}
use lib_bucket_provisioner.Cluster.Event.{Event, claim_status_updated}
use lib_bucket_provisioner.Cluster.Env.{Env}
use lib_bucket_provisioner.Cluster.Monad.{World, M, raise}
use lib_bucket_provisioner.Cluster.Triple.{
  Triple-bind, Triple-map_error, Triple-if, Triple-pure, Triple-raise, Triple-weaken,
}
use lib_bucket_provisioner.Helpers.Names.{
  compose_bucket_name, generate_bucket_name, generated_name, name_prefix,
}
use lib_bucket_provisioner.Helpers.Lookups.{is_new_bucket_by_storage_class}
use lib_bucket_provisioner.Handlers.Create.{updated_or}
use lib_bucket_provisioner.Handlers.Update.{store_claim, found_bucket}
use lib_bucket_provisioner.Controller.Resources.{Controller}
use lib_bucket_provisioner.Controller.Provision.{
  with_meta_fields, set_obc_meta_fields, choose_bucket_name, non_empty,
}
use lib_bucket_provisioner.Controller.Provision.Complete.{
  Completes-kept, Completes, Completes-call, Completes-ask, Responsive, Ok, Matching,
  NoneOrMatching, Connected, Usable,
}

-- The claim names its bucket or a prefix.
abbrev pub Named : ObjectBucketClaimSpec → Type 0
Named spec = (spec.bucket_name == [] && spec.generate_bucket_name == []) ≡ false

-- A claim was stored with the phase Bound.
abbrev pub ClaimBound : Event → Type 0
ClaimBound (claim_status_updated sent (done got)) = sent.status.phase ≡ Phase.bound
ClaimBound _ = ⊥

-- The same names of the bucket, of its prefix and of the storage class.
abbrev pub SameTerms : ObjectBucketClaimSpec → ObjectBucketClaimSpec → Type 0
SameTerms from to =
    (to.bucket_name ≡ from.bucket_name)
    × (to.generate_bucket_name ≡ from.generate_bucket_name)
    × (to.storage_class_name ≡ from.storage_class_name)

pub terms_of : (got sent : ObjectBucketClaimSpec) → got ≡ sent → SameTerms sent got
terms_of got sent h = (
  ap (λ (spec : ObjectBucketClaimSpec). spec.bucket_name) h,
  ap (λ (spec : ObjectBucketClaimSpec). spec.generate_bucket_name) h,
  ap (λ (spec : ObjectBucketClaimSpec). spec.storage_class_name) h,
)

abbrev pub MatchingIfFound : ObjectBucketClaimSpec → Option ObjectBucket → Type 0
MatchingIfFound claim none = Unit {0}
MatchingIfFound claim (some ob) = Matching claim ob

-- A precondition that says nothing of the world.
abbrev pub Given : {E : Env} → Type 0 → World E → Type 0
Given P w = P

append-nonempty : (xs : Text) (c : ℕ) (ys : Text) → ((xs ++ (c ∷ ys)) == []) ≡ false
unfolding ◌==◌
append-nonempty [] c ys = refl
append-nonempty (x ∷ xs) c ys = refl

generated_name-nonempty : (prefix uuid : Text) → (generated_name prefix uuid == []) ≡ false
unfolding generated_name ◌==◌
generated_name-nonempty prefix uuid = append-nonempty (name_prefix prefix) b'-' uuid

module _ {E : Env} {claim : ObjectBucketClaimSpec} (live : Responsive E claim) where
  pub store_claim-Completes :
      (obc : ObjectBucketClaim)
      → Completes {E = E} (Given Unit) (store_claim obc) (λ got w. got.spec ≡ obc.spec)
  unfolding store_claim
  store_claim-Completes obc =
      Triple-map_error _
        (Completes-call (λ got. got.spec ≡ obc.spec) _ _ (live.claim_update obc) (λ w a s p h. h))

  pub set_obc_meta_fields-Completes :
      (c : Controller) (obc : ObjectBucketClaim)
      → Completes {E = E}
          (λ w. live.Early w.state)
          (set_obc_meta_fields c obc)
          (λ got w. SameTerms obc.spec got.spec × live.Early w.state)
  unfolding set_obc_meta_fields store_claim with_meta_fields deep_copy_claim deep_copy_claim_spec
  set_obc_meta_fields-Completes c obc =
      let sent = with_meta_fields c obc in
      Triple-weaken
        (Triple-map_error _ (
          Triple-map_error _ (
            Completes-kept (λ got. got.spec ≡ sent.spec) live.Early _ _ (live.claim_update sent)
              (live.early_claim_update sent))))
        (λ w p. p) (λ got w h. (terms_of got.spec sent.spec h.0, h.1)) (λ x w h. h)

-- A precondition as a hypothesis, beside another.
pub given :
    {E : Env} {A : Type 0} {P : Type 0} {K : World E → Type 0} {m : M E A}
    {Q : A → World E → Type 0}
    → (P → Completes {E = E} K m Q)
    → Completes {E = E} (λ w. P × K w) m Q
given f = record { at = λ w k. (f k.0).at w k.1 }

-- A precondition as a hypothesis.
pub assuming :
    {E : Env} {A : Type 0} {P : Type 0} {m : M E A} {Q : A → World E → Type 0}
    → (P → Completes {E = E} (Given Unit) m Q)
    → Completes {E = E} (Given P) m Q
assuming f = record { at = λ w p. (f p).at w tt }

pub transported : {A : Type 0} (P : Reply A → Type 0) (r r' : Reply A) → r ≡ r' → P r → P r'
transported P r r' e h = rw e at h

module _ {E : Env} where
  pub found_bucket-Completes :
      (claim : ObjectBucketClaimSpec) (r : Reply ObjectBucket)
      → Completes {E = E}
          (Given (NoneOrMatching claim r))
          (found_bucket r)
          (λ ob. Given (MatchingIfFound claim ob))
  unfolding found_bucket
  found_bucket-Completes claim (done ob) = Triple-pure _ (λ w h. h)
  found_bucket-Completes claim (failed e) =
      Triple-if (is_not_found e) (λ _. Triple-pure _ (λ w h. tt)) (λ f. Triple-raise _ (λ w h. cc))

  compose_bucket_name-Completes :
      (obc : ObjectBucketClaim)
      → Named obc.spec
      → Completes {E = E} (Given Unit) (compose_bucket_name obc) (λ name w. (name == []) ≡ false)
  unfolding compose_bucket_name generate_bucket_name
  compose_bucket_name-Completes obc named =
      Triple-if (obc.spec.bucket_name == [] && obc.spec.generate_bucket_name == [])
        {m = raise (failure no_bucket_name_given)} (λ t. Triple-raise _ (λ w p. cc))
        (λ _.
          Triple-if (obc.spec.bucket_name == [])
            (λ _. Triple-bind {Q' = λ uuid. Given Unit} (Completes-ask _ _ (λ w a s p. tt)) λ uuid.
              Triple-pure _ (λ w p. generated_name-nonempty obc.spec.generate_bucket_name uuid))
            (λ b. Triple-pure _ (λ w p. b)))

  pub choose_bucket_name-Completes :
      (class : StorageClass) (obc : ObjectBucketClaim)
      → Named obc.spec
      → Completes {E = E} (Given Unit) (choose_bucket_name class obc) (λ name. Given Unit)
  unfolding choose_bucket_name is_new_bucket_by_storage_class
  choose_bucket_name-Completes class obc named =
      Triple-bind {Q' = λ name w. (name == []) ≡ false}
        (Triple-if (is_new_bucket_by_storage_class class)
          (λ _. Triple-map_error _ (compose_bucket_name-Completes obc named))
          (λ n. Triple-pure _ (λ w p. n)))
        (λ name.
          Triple-if (name == []) {m = raise (failure bucket_name_missing)}
            (λ t. Triple-raise _ (λ w h. cc)) (λ _. Triple-pure _ (λ w p. tt)))

  pub non_empty-Completes :
      (ob : Option ObjectBucket)
      → Completes {E = E}
          (Given (Usable E ob))
          (non_empty ob)
          (λ ob. Given (Connected ob.spec.connection))
  unfolding non_empty
  non_empty-Completes none = Triple-raise _ (λ w h. h)
  non_empty-Completes (some ob) =
      Triple-if (E.semantic_equal ob empty_bucket) {m = raise (failure empty_object_bucket)}
        (λ t. Triple-raise _ (λ w h. let f = h.0 in cc)) (λ _. Triple-pure _ (λ w h. h.1))

  pub updated_or-Completes :
      {A : Type 0} (e : Error) (r : Reply A)
      → Completes {E = E} (Given (Ok r)) (updated_or e r) (λ _. Given Unit)
  unfolding updated_or
  updated_or-Completes e (done a) = Triple-pure _ (λ w h. tt)
  updated_or-Completes e (failed x) = record { at = λ w h. absurd h }

pub transported_connection :
    (from to : Option Connection) → from ≡ to → Connected from → Connected to
transported_connection from to e h = rw e at h
