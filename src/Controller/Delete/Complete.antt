-- ===== src/Controller/Delete/Complete.antt =====
-- Environments in which no call fails while a claim is deleted, and the release of each object in them.
pub mod Stages
pub mod Whole
use lib_bucket_provisioner.Helpers.Metadata.Laws.{occurrences, occurrences-remove_first}
use lib_bucket_provisioner.Base.{
  ◌-◌, ◌⊎◌, ==_refl, Text, ◌==◌, true, Option, none, some, List, [], ◌∷◌, ◌≡◌, refl, ap, inl,
}
use lib_bucket_provisioner.V1alpha1.{ObjectBucketClaim, ObjectBucket, Secret, ConfigMap}
use lib_bucket_provisioner.Cluster.Error.{Reply, done, failed, is_not_found}
use lib_bucket_provisioner.Cluster.Event.{claim_got, Event, Trace, claim_updated, removed, revoked}
use lib_bucket_provisioner.Cluster.Env.{Env}
use lib_bucket_provisioner.Cluster.Monad.{World, M, call, attempt}
use lib_bucket_provisioner.Cluster.Triple.{
  Triple-bind, Triple-map_error, Triple-attempt, Triple-attempt-call, Triple-if, Triple-pure,
  Triple-weaken, Triple-raise,
}
use lib_bucket_provisioner.Cluster.Ordered.{Any, Lasting}
use lib_bucket_provisioner.Helpers.Metadata.{finalizer, remove_finalizer}
use lib_bucket_provisioner.Handlers.Release.{
  release_config_map, release_secret, release_claim, bucket_after_delete,
  delete_instantiated_bucket, delete_object_bucket,
}
use lib_bucket_provisioner.Controller.Provision.Complete.{
  Completes, Completes-call, OkWith, Ok, Present,
}
use lib_bucket_provisioner.Controller.Provision.Complete.Naming.{transported}
use lib_bucket_provisioner.Controller.Delete.{last_error}

abbrev pub HasPolicy : ObjectBucket → Type 0
HasPolicy ob = Present ob.spec.reclaim_policy

-- A deletion succeeds, or says that the object is gone.
abbrev pub Gone : Reply (Unit {0}) → Type 0
Gone (done _) = Unit {0}
Gone (failed e) = is_not_found e ≡ true

-- No call fails but that of the storage class, the object bucket has a reclaim policy, and the
-- answer to the update of its phase has the policy that was sent.
pub record Releasing (E : Env) : Type 0 where
  pub claim_read : (ns name : Text) (s : E.State) → Ok (E.get_claim ns name s).0
  pub claim_update : (obc : ObjectBucketClaim) (s : E.State) → Ok (E.update_claim obc s).0
  pub bucket_read : (name : Text) (s : E.State) → OkWith HasPolicy (E.get_bucket name s).0
  pub bucket_update : (ob : ObjectBucket) (s : E.State) → Ok (E.update_bucket ob s).0
  pub bucket_status :
      (ob : ObjectBucket) (s : E.State)
      → OkWith
          (λ got. got.spec.reclaim_policy ≡ ob.spec.reclaim_policy)
          (E.update_bucket_status ob s).0
  pub bucket_delete : (name : Text) (s : E.State) → Gone (E.delete_bucket name s).0
  pub secret_read : (ns name : Text) (s : E.State) → Ok (E.get_secret ns name s).0
  pub secret_update : (sec : Secret) (s : E.State) → Ok (E.update_secret sec s).0
  pub config_map_read : (ns name : Text) (s : E.State) → Ok (E.get_config_map ns name s).0
  pub config_map_update : (cm : ConfigMap) (s : E.State) → Ok (E.update_config_map cm s).0
  pub remove : (ob : ObjectBucket) (s : E.State) → Ok (E.remove ob s).0
  pub revoke : (ob : ObjectBucket) (s : E.State) → Ok (E.revoke ob s).0

-- The provisioner's Delete or Revoke has succeeded.
abbrev pub Deprovisioned : Event → Type 0
Deprovisioned (removed ob (done _)) = Unit {0}
Deprovisioned (revoked ob (done _)) = Unit {0}
Deprovisioned _ = ⊥

-- The claim that was sent is the one that was read, with the controller's finalizer taken off: the
-- finalizer stands in it once less, and nothing else of the claim but its finalizers differs.
abbrev pub TakenOff : ObjectBucketClaim → ObjectBucketClaim → Type 0
TakenOff read sent =
    (sent ≡ record read { meta = record read.meta { finalizers = sent.meta.finalizers } })
    × (occurrences finalizer sent.meta.finalizers ≡ occurrences finalizer read.meta.finalizers - 1)

-- A claim was read, and right after it stored with the finalizer taken off.
abbrev pub ClaimReleased : Trace → Type 0
ClaimReleased [] = ⊥
ClaimReleased (claim_updated sent (done _) ∷ (claim_got ns name (done read) ∷ t)) =
    TakenOff read sent ⊎ ClaimReleased t
ClaimReleased (_ ∷ t) = ClaimReleased t

-- A run that succeeds and keeps a fact about the log.
abbrev pub Keeps : {E : Env} {A : Type 0} → (Trace → Type 0) → M E A → Type 0
Keeps {E} K m = Completes {E = E} (λ w. K w.trace) m (λ _ w. K w.trace)

-- The last call has read this claim.
abbrev JustRead : ObjectBucketClaim → Trace → Type 0
JustRead obc (claim_got ns name (done read) ∷ t) = read ≡ obc
JustRead obc _ = ⊥

TakenOff-remove_finalizer :
    (obc : ObjectBucketClaim) → TakenOff obc (record obc { meta = remove_finalizer obc.meta })
unfolding remove_finalizer
TakenOff-remove_finalizer obc = (
  refl,
  let removed = occurrences-remove_first finalizer finalizer obc.meta.finalizers in
      rw (==_refl finalizer) at removed,
)

released_now :
    (obc got : ObjectBucketClaim) (t : Trace)
    → JustRead obc t
    → ClaimReleased (claim_updated (record obc { meta = remove_finalizer obc.meta }) (done got) ∷ t)
released_now obc got (claim_got ns name (done read) ∷ t) e =
    inl (rw e (TakenOff-remove_finalizer obc))
released_now obc got _ h = absurd h

pub absent_policy : (policy : Option Text) → policy ≡ none → Present policy → ⊥
absent_policy policy e h = let h' : Present {A = Text} none = rw e at h in h'

pub attempt-Completes :
    {E : Env} {A : Type 0} {P K : World E → Type 0} (R : A → Type 0) {m : M E A}
    → Completes {E = E} P m (λ a w. R a × K w)
    → Completes {E = E} P (attempt m) (λ r w. OkWith R r × K w)
attempt-Completes R t = Triple-attempt {R' = λ x w. ⊥} t (λ e w h. absurd h) (λ w h. h)

pub attempt-Ok :
    {E : Env} {A : Type 0} {P K : World E → Type 0} {m : M E A}
    → Completes {E = E} P m (λ _. K)
    → Completes {E = E} P (attempt m) (λ r w. Ok r × K w)
attempt-Ok {K} t =
    attempt-Completes {K = K} (λ a. Unit)
      (Triple-weaken t (λ w p. p) (λ a w k. (tt, k)) (λ x w h. h))

module _ {E : Env} {K : Trace → Type 0} (keep : Lasting K) (live : Releasing E) where
  call-Keeps :
      {A : Type 0} (op : E.State → Reply A × E.State) (event : Reply A → Event)
      → ((s : E.State) → Ok (op s).0)
      → Completes {E = E} (λ w. K w.trace) (call op event) (λ _ w. K w.trace)
  call-Keeps op event h = Completes-call (λ a. Unit) op event h (λ w a s k _. keep.later _ _ k)

  pub release_secret-Keeps : (s : Option Secret) → Keeps {E = E} K (release_secret s)
  unfolding release_secret
  release_secret-Keeps none = Triple-pure _ (λ w k. k)
  release_secret-Keeps (some sec) =
      Triple-bind {Q' = λ _ w. K w.trace} (call-Keeps _ _ (live.secret_read _ _)) λ current.
        Triple-bind {Q' = λ _ w. K w.trace} (call-Keeps _ _ (live.secret_update _))
          λ _. Triple-pure _ (λ w k. k)

  pub release_config_map-Keeps : (cm : Option ConfigMap) → Keeps {E = E} K (release_config_map cm)
  unfolding release_config_map
  release_config_map-Keeps none = Triple-pure _ (λ w k. k)
  release_config_map-Keeps (some cm) =
      Triple-bind {Q' = λ _ w. K w.trace} (call-Keeps _ _ (live.config_map_read _ _)) λ current.
        Triple-bind {Q' = λ _ w. K w.trace} (call-Keeps _ _ (live.config_map_update _))
          λ _. Triple-pure _ (λ w k. k)

  bucket_after_delete-Keeps :
      (r : Reply (Unit {0}))
      → Completes {E = E} (λ w. Gone r × K w.trace) (bucket_after_delete r) (λ _ w. K w.trace)
  unfolding bucket_after_delete
  bucket_after_delete-Keeps (done _) = Triple-pure _ (λ w k. k.1)
  bucket_after_delete-Keeps (failed e) =
      Triple-if (is_not_found e) (λ _. Triple-pure _ (λ w k. k.1)) (λ f. Triple-raise _ (λ w k. cc))

  pub delete_object_bucket-Keeps :
      (ob : Option ObjectBucket) → Keeps {E = E} K (delete_object_bucket ob)
  unfolding delete_object_bucket delete_instantiated_bucket
  delete_object_bucket-Keeps none = Triple-pure _ (λ w k. k)
  delete_object_bucket-Keeps (some ob) =
      Triple-if (ob.meta.uid == []) (λ _. Triple-pure _ (λ w k. k))
        (λ _. Triple-bind {Q' = λ _ w. K w.trace} (call-Keeps _ _ (live.bucket_update _)) λ _.
          Triple-bind {Q' = λ r w. Gone r × K w.trace}
            (Triple-attempt-call _ _ (λ w r s k e. (
              transported Gone (E.delete_bucket ob.meta.name w.state).0 r
                  (ap (λ (x : Reply (Unit {0}) × E.State). x.0) e) (live.bucket_delete _ _),
              keep.later _ _ k,
            )))
            bucket_after_delete-Keeps)

  pub release_claim-ClaimReleased :
      (obc : ObjectBucketClaim)
      → Completes {E = E}
          (λ w. K w.trace)
          (release_claim (some obc))
          (λ _ w. K w.trace × ClaimReleased w.trace)
  unfolding release_claim
  release_claim-ClaimReleased obc =
      Triple-bind {Q' = λ current w. K w.trace × JustRead current w.trace}
        (Triple-map_error _ (
          Completes-call (λ a. Unit) _ _ (live.claim_read _ _)
            (λ w a s k _. (keep.later _ _ k, refl))))
        λ current.
          Triple-bind {Q' = λ _ w. K w.trace × ClaimReleased w.trace}
            (Triple-map_error _ (
              Completes-call (λ a. Unit) _ _ (live.claim_update _)
                (λ w a s k _. (keep.later _ _ k.0, released_now current a w.trace k.1))))
            λ _. Triple-pure _ (λ w k. k)

abbrev pub AllOk : List (Reply (Unit {0})) → Type 0
AllOk [] = Unit {0}
AllOk (r ∷ rs) = Ok r × AllOk rs

pub last_error-AllOk : (rs : List (Reply (Unit {0}))) → AllOk rs → last_error none rs ≡ none
unfolding last_error
last_error-AllOk [] h = refl
last_error-AllOk (done _ ∷ rs) h = last_error-AllOk rs h.1
last_error-AllOk (failed e ∷ rs) h = absurd h.0
