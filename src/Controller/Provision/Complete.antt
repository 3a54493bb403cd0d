-- ===== src/Controller/Provision/Complete.antt =====
-- Environments in which no call fails, and the rules for runs in them.
pub mod Naming
pub mod Stages
pub mod Whole
use lib_bucket_provisioner.Base.{Text, ◌==◌, true, false, Option, none, some, ◌∷◌, ◌≡◌, ap}
use lib_bucket_provisioner.V1alpha1.{
  ObjectBucketClaim, ObjectBucketClaimSpec, ObjectBucket, Connection, Endpoint, Secret, ConfigMap,
  empty_bucket,
}
use lib_bucket_provisioner.V1alpha1.Phase
use lib_bucket_provisioner.Cluster.Error.{
  Error, Reply, done, failed, is_not_found, is_already_exists,
}
use lib_bucket_provisioner.Cluster.Event.{Event, BucketOptions}
use lib_bucket_provisioner.Cluster.Env.{Env}
use lib_bucket_provisioner.Cluster.Monad.{World, M, lift, call, ask}
use lib_bucket_provisioner.Cluster.Triple.{Triple-weaken, Triple, Triple-call, Triple-pure}

-- The call succeeds, with such an answer.
abbrev pub OkWith : {A : Type 0} → (A → Type 0) → Reply A → Type 0
OkWith P (done a) = P a
OkWith P (failed e) = ⊥

abbrev pub Ok : {A : Type 0} → Reply A → Type 0
Ok r = OkWith (λ a. Unit {0}) r

-- A create call succeeds, or says that the object is there.
abbrev pub Created : {A : Type 0} → Reply A → Type 0
Created (done a) = Unit {0}
Created (failed e) = is_already_exists e ≡ true

abbrev pub Present : {A : Type 0} → Option A → Type 0
Present none = ⊥
Present (some a) = Unit {0}

abbrev pub Connected : Option Connection → Type 0
Connected none = ⊥
Connected (some c) = Present c.endpoint × Present c.authentication

-- What the provisioner must return: a bucket that is not the zero value, with its connection.
abbrev pub Usable : Env → Option ObjectBucket → Type 0
Usable E none = ⊥
Usable E (some ob) = (E.semantic_equal ob empty_bucket ≡ false) × Connected ob.spec.connection

-- The object bucket has a connection with this bucket name, and the storage class of the claim.
abbrev pub EndpointNamed : Text → Option Endpoint → Type 0
EndpointNamed name none = ⊥
EndpointNamed name (some e) = (name == e.bucket_name) ≡ true

abbrev pub ConnectionNamed : Text → Option Connection → Type 0
ConnectionNamed name none = ⊥
ConnectionNamed name (some c) = EndpointNamed name c.endpoint

abbrev pub Matching : ObjectBucketClaimSpec → ObjectBucket → Type 0
Matching claim ob =
    ConnectionNamed claim.bucket_name ob.spec.connection
    × ((claim.storage_class_name == ob.spec.storage_class_name) ≡ true)

-- There is no object bucket, or one that matches the claim.
abbrev pub NoneOrMatching : ObjectBucketClaimSpec → Reply ObjectBucket → Type 0
NoneOrMatching claim (done ob) = Matching claim ob
NoneOrMatching claim (failed e) = is_not_found e ≡ true

-- For a claim with this spec: no call fails, except that the object bucket, the secret and the config
-- map may each be there already or not. In the states called early, an object bucket that is there
-- matches the claim; calls that read or that write claims leave a state early. An object bucket can be
-- read when a creation finds it there. An update answers with the spec that was sent.
pub record Responsive (E : Env) (claim : ObjectBucketClaimSpec) : Type 1 where
  pub Early : E.State → Type 0
  pub early_claim_read : (ns name : Text) (s : E.State) → Early s → Early (E.get_claim ns name s).1
  pub early_class_read :
      (name : Text) (s : E.State) → Early s → Early (E.get_storage_class name s).1
  pub early_claim_update :
      (obc : ObjectBucketClaim) (s : E.State) → Early s → Early (E.update_claim obc s).1
  pub early_claim_status :
      (obc : ObjectBucketClaim) (s : E.State) → Early s → Early (E.update_claim_status obc s).1
  pub claim_read : (ns name : Text) (s : E.State) → Ok (E.get_claim ns name s).0
  pub claim_update :
      (obc : ObjectBucketClaim) (s : E.State)
      → OkWith (λ got. got.spec ≡ obc.spec) (E.update_claim obc s).0
  pub claim_status :
      (obc : ObjectBucketClaim) (s : E.State)
      → OkWith (λ got. got.spec ≡ obc.spec) (E.update_claim_status obc s).0
  pub bucket_read :
      (name : Text) (s : E.State) → Early s → NoneOrMatching claim (E.get_bucket name s).0
  pub bucket_create : (ob : ObjectBucket) (s : E.State) → Created (E.create_bucket ob s).0
  pub bucket_there :
      (ob : ObjectBucket) (s : E.State) (e : Error)
      → (E.create_bucket ob s).0 ≡ failed e
      → Ok (E.get_bucket ob.meta.name (E.create_bucket ob s).1).0
  pub bucket_update : (ob : ObjectBucket) (s : E.State) → Ok (E.update_bucket ob s).0
  pub bucket_status : (ob : ObjectBucket) (s : E.State) → Ok (E.update_bucket_status ob s).0
  pub secret_create : (sec : Secret) (s : E.State) → Created (E.create_secret sec s).0
  pub secret_update : (sec : Secret) (s : E.State) → Ok (E.update_secret sec s).0
  pub config_map_create : (cm : ConfigMap) (s : E.State) → Created (E.create_config_map cm s).0
  pub config_map_update : (cm : ConfigMap) (s : E.State) → Ok (E.update_config_map cm s).0
  pub user_id :
      (obc : ObjectBucketClaim) (ob : Option ObjectBucket) (s : E.State)
      → Ok (E.generate_user_id obc ob s).0
  pub provision : (o : BucketOptions) (s : E.State) → OkWith (Usable E) (E.provision o s).0
  pub grant : (o : BucketOptions) (s : E.State) → OkWith (Usable E) (E.grant o s).0

-- Without an error and without a panic.
abbrev pub Completes :
    {E : Env} {A : Type 0} → (World E → Type 0) → M E A → (A → World E → Type 0) → Type 0
Completes P m Q = Triple P m Q (λ x w. ⊥)

done_answer : {A : Type 0} (P : A → Type 0) (r : Reply A) (a : A) → r ≡ done a → OkWith P r → P a
done_answer P r a e h = let h' : OkWith P (done a) = rw e at h in h'

pub failed_answer :
    {A : Type 0} (P : A → Type 0) (r : Reply A) (x : Error) → r ≡ failed x → OkWith P r → ⊥
failed_answer P r x e h = let h' : OkWith P (failed x) = rw e at h in h'

-- A call that succeeds if `L` holds, and keeps a fact about the state.
pub Completes-from :
    {E : Env} {A : Type 0} (P : A → Type 0) (L K : E.State → Type 0)
    (op : E.State → Reply A × E.State) (event : Reply A → Event)
    → ((s : E.State) → L s → OkWith P (op s).0)
    → ((s : E.State) → K s → K (op s).1)
    → Completes {E = E} (λ w. L w.state × K w.state) (call op event) (λ a w. P a × K w.state)
Completes-from {E} {A} P L K op event law kept =
    Triple-call op event
      (λ w a s k e. (
        done_answer P (op w.state).0 a (ap (λ (x : Reply A × E.State). x.0) e) (law w.state k.0),
        let k' : K (op w.state).1 = kept w.state k.1 in
            rw (ap (λ (x : Reply A × E.State). x.1) e) at k',
      ))
      (λ w x s k e.
        failed_answer P (op w.state).0 x (ap (λ (x : Reply A × E.State). x.0) e) (law w.state k.0))

pub Completes-kept :
    {E : Env} {A : Type 0} (P : A → Type 0) (K : E.State → Type 0)
    (op : E.State → Reply A × E.State) (event : Reply A → Event)
    → ((s : E.State) → OkWith P (op s).0)
    → ((s : E.State) → K s → K (op s).1)
    → Completes {E = E} (λ w. K w.state) (call op event) (λ a w. P a × K w.state)
Completes-kept P K op event law kept =
    Triple-weaken (Completes-from P (λ s. Unit) K op event (λ s u. law s) kept) (λ w k. (tt, k))
      (λ a w q. q) (λ x w h. h)

module _ {E : Env} {A : Type 0} {Pre : World E → Type 0} {Q : A → World E → Type 0} where
  -- A call that succeeds.
  pub Completes-call :
      (P : A → Type 0) (op : E.State → Reply A × E.State) (event : Reply A → Event)
      → ((s : E.State) → OkWith P (op s).0)
      → ((w : World E) (a : A) (s : E.State)
          → Pre w
          → P a
          → Q a (record { state = s; trace = event (done a) ∷ w.trace }))
      → Completes Pre (call op event) Q
  Completes-call P op event law q =
      Triple-call op event
        (λ w a s p e.
          q w a s p
            (done_answer P (op w.state).0 a (ap (λ (x : Reply A × E.State). x.0) e) (law w.state)))
        (λ w x s p e.
          failed_answer P (op w.state).0 x (ap (λ (x : Reply A × E.State). x.0) e) (law w.state))

  -- A call that cannot fail.
  pub Completes-ask :
      (op : E.State → A × E.State) (event : A → Event)
      → ((w : World E) (a : A) (s : E.State)
          → Pre w
          → Q a (record { state = s; trace = event a ∷ w.trace }))
      → Completes Pre (ask op event) Q
  unfolding ask
  Completes-ask op event q = record { at = λ w p. q w (op w.state).0 (op w.state).1 p }

  pub Completes-lift :
      (r : Reply A) (a : A)
      → r ≡ done a
      → ((w : World E) → Pre w → Q a w)
      → Completes Pre (lift {E = E} r) Q
  unfolding lift
  Completes-lift r a h q = rw h (Triple-pure a q)
