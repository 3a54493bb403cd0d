-- ===== src/Controller/Provision/Complete/Whole.antt =====
-- handleProvisionClaim (pkg/provisioner/controller.go) as a whole where no call fails.
use lib_bucket_provisioner.Base.{Text, Option, none, some, ◌≡◌, refl}
use lib_bucket_provisioner.V1alpha1.{
  ObjectBucketClaim, ObjectBucketClaimSpec, ObjectBucket, StorageClass, Connection, Endpoint,
}
use lib_bucket_provisioner.Cluster.Error.{done}
use lib_bucket_provisioner.Cluster.Env.{Env}
use lib_bucket_provisioner.Cluster.Monad.{World, Outcome, ok, err, panic}
use lib_bucket_provisioner.Cluster.Triple.{
  Triple-blame_result, Post, Triple-bind, Triple-map_error, Triple-pure, Triple-deref,
  Triple-weaken,
}
use lib_bucket_provisioner.Cluster.Ordered.{Any}
use lib_bucket_provisioner.Helpers.Names.{object_bucket_name, object_bucket_name_from_claim_key}
use lib_bucket_provisioner.Helpers.Lookups.{claim_for_key, claim_ref_for_key}
use lib_bucket_provisioner.Handlers.Update.{get_ob_from_key, err_if_obc_config_has_been_modified}
use lib_bucket_provisioner.Controller.Resources.{Controller}
use lib_bucket_provisioner.Controller.Provision.{save_bucket, handle_provision_claim}
use lib_bucket_provisioner.Controller.Provision.Complete.{
  Completes, Completes-call, Completes-lift, Responsive, Connected, NoneOrMatching, ConnectionNamed,
  EndpointNamed,
}
use lib_bucket_provisioner.Controller.Provision.Complete.Naming.{
  Named, ClaimBound, Given, assuming, set_obc_meta_fields-Completes, found_bucket-Completes,
  choose_bucket_name-Completes, MatchingIfFound, SameTerms, given as beside,
}
use lib_bucket_provisioner.Controller.Provision.Complete.Stages.{
  Completes-attempt_from, create_or_update_object_bucket-Completes, save_connection-Completes,
  store_bucket_name-Completes, run_provisioner-Completes, bind_claim-Completes,
}

pub claim_key-named :
    (E : Env) (key ns name : Text)
    → E.split_key key ≡ done (ns, name)
    → object_bucket_name_from_claim_key E key ≡ done (object_bucket_name ns name)
unfolding object_bucket_name_from_claim_key
claim_key-named E key ns name split = rw split refl

-- The same facts of the pointers' targets.
pub followed_connection :
    (name : Text) (from to : Option Connection)
    → from ≡ to
    → ConnectionNamed name from
    → ConnectionNamed name to
followed_connection name from to e h = rw e at h

pub followed_endpoint :
    (name : Text) (from to : Option Endpoint)
    → from ≡ to
    → EndpointNamed name from
    → EndpointNamed name to
followed_endpoint name from to e h = rw e at h

MatchingIfFound-SameTerms :
    (ob : Option ObjectBucket) (from to : ObjectBucketClaimSpec)
    → SameTerms from to
    → MatchingIfFound from ob
    → MatchingIfFound to ob
MatchingIfFound-SameTerms none from to h found = tt
MatchingIfFound-SameTerms (some ob) from to h found = rw (h.0, h.2) found

module _ {E : Env} {claim : ObjectBucketClaimSpec} (live : Responsive E claim) (key ns name : Text)
    (split : E.split_key key ≡ done (ns, name)) where
  get_ob_from_key-Completes :
      Completes {E = E}
        (λ w. live.Early w.state)
        (get_ob_from_key key)
        (λ ob. Given (MatchingIfFound claim ob))
  unfolding get_ob_from_key
  get_ob_from_key-Completes =
      Triple-bind {Q' = λ n w. live.Early w.state}
        (Triple-map_error _ (Completes-lift _ _ (claim_key-named E key ns name split) (λ w p. p)))
        λ n.
          Triple-bind {Q' = λ r. Given (NoneOrMatching claim r)}
            (Completes-attempt_from (NoneOrMatching claim) live.Early _ _ (live.bucket_read n))
            (found_bucket-Completes claim)

  claim_ref_for_key-Completes :
      Completes {E = E} (Given Unit) (claim_ref_for_key key) (λ r. Given Unit)
  unfolding claim_ref_for_key claim_for_key
  claim_ref_for_key-Completes =
      Triple-bind {Q' = λ claim. Given Unit}
        (Triple-bind {Q' = λ at. Given Unit} (Completes-lift _ _ split (λ w p. tt))
          (λ at. Completes-call (λ a. Unit) _ _ (live.claim_read at.0 at.1) (λ w a s p h. tt)))
        λ claim. Triple-pure _ (λ w p. tt)

  save_bucket-Completes :
      (c : Controller) (obc : ObjectBucketClaim) (class : StorageClass) (ob : ObjectBucket)
      → Completes {E = E} (Given Unit) (save_bucket c key obc class ob) (λ saved. Given Unit)
  unfolding save_bucket
  save_bucket-Completes c obc class ob =
      Triple-bind {Q' = λ r. Given Unit} (Triple-map_error _ claim_ref_for_key-Completes) λ r.
        Triple-bind {Q' = λ saved. Given Unit}
          (Triple-map_error _ (create_or_update_object_bucket-Completes live _))
          λ saved.
            Triple-blame_result _ _ (λ w n h. h)
              (Completes-call (λ a. Unit) _ _ (live.bucket_status _) (λ w a s p h. tt))

  err_if_modified-Completes :
      (ob : Option ObjectBucket) (obc : ObjectBucketClaim)
      → Completes {E = E}
          (Given (MatchingIfFound obc.spec ob))
          (err_if_obc_config_has_been_modified ob obc)
          (λ _. Given Unit)
  unfolding err_if_obc_config_has_been_modified
  err_if_modified-Completes none obc = Triple-pure _ (λ w p. tt)
  err_if_modified-Completes (some ob) obc = assuming λ found.
      Triple-bind {Q' = λ c. Given (EndpointNamed obc.spec.bucket_name c.endpoint)}
        (Triple-deref ob.spec.connection
          (λ c w e p. followed_connection obc.spec.bucket_name _ (some c) e found.0)
          (λ w e p. followed_connection obc.spec.bucket_name _ none e found.0))
        λ c. assuming λ named.
          Triple-bind {Q' = λ e. Given (EndpointNamed obc.spec.bucket_name (some e))}
            (Triple-deref c.endpoint
              (λ e w eq p. followed_endpoint obc.spec.bucket_name _ (some e) eq named)
              (λ w eq p. followed_endpoint obc.spec.bucket_name _ none eq named))
            λ e. assuming λ same. rw (same, found.1) (Triple-pure _ (λ w p. tt))

  pub handle_provision_claim-Completes :
      (c : Controller) (given : ObjectBucketClaim) (class : StorageClass)
      → SameTerms claim given.spec
      → Named given.spec
      → Completes {E = E}
          (λ w. live.Early w.state)
          (handle_provision_claim c key given class)
          (λ _ w. Any ClaimBound w.trace)
  unfolding handle_provision_claim
  handle_provision_claim-Completes c given class same named =
      Triple-bind {Q' = λ marked w. SameTerms given.spec marked.spec × live.Early w.state}
        (set_obc_meta_fields-Completes live c given)
        λ marked. beside λ kept.
          Triple-bind {Q' = λ ob. Given (MatchingIfFound claim ob)}
            (Triple-map_error _ get_ob_from_key-Completes)
            λ ob.
              Triple-bind {Q' = λ _. Given Unit}
                (Triple-weaken (err_if_modified-Completes ob marked)
                  (λ w found.
                    MatchingIfFound-SameTerms ob given.spec marked.spec kept
                      (MatchingIfFound-SameTerms ob claim given.spec same found))
                  (λ a w h. h) (λ x w h. h))
                λ _.
                  Triple-bind {Q' = λ n. Given Unit}
                    (choose_bucket_name-Completes class marked (rw (kept.0, kept.1) named))
                    λ n.
                      Triple-bind {Q' = λ obc. Given Unit}
                        (store_bucket_name-Completes live marked n)
                        λ obc.
                          Triple-bind {Q' = λ ob. Given (Connected ob.spec.connection)}
                            (run_provisioner-Completes live obc ob class n)
                            λ provided.
                              Triple-bind {Q' = λ _. Given Unit}
                                (save_connection-Completes live c obc provided)
                                λ _.
                                  Triple-bind {Q' = λ saved. Given Unit}
                                    (save_bucket-Completes c obc class provided)
                                    λ saved. bind_claim-Completes live obc saved n

pub completed :
    {E : Env} (r : Outcome (Unit {0})) (w : World E)
    → Post (λ _ w. Any ClaimBound w.trace) (λ x w. ⊥) r w
    → (r ≡ ok tt) × Any ClaimBound w.trace
completed (ok tt) w p = (refl, p)
completed (err e) w p = absurd p
completed panic w p = absurd p

-- For a claim that names a bucket or a prefix: where no call fails, the provisioner returns a bucket
-- with its connection, and an update answers with the spec that was sent, handleProvisionClaim
-- returns without an error and has stored the phase Bound of a claim. This holds for the first try
-- and for a later one: the object bucket, the secret and the config map may be there already, if the
-- object bucket matches the claim.
pub handle_provision_claim-ok :
    {E : Env} (given : ObjectBucketClaim) (live : Responsive E given.spec) (key ns name : Text)
    → E.split_key key ≡ done (ns, name)
    → (c : Controller) (class : StorageClass) → Named given.spec
    → (w : World E) → live.Early w.state
    → ((handle_provision_claim c key given class w).0 ≡ ok tt)
      × Any ClaimBound (handle_provision_claim c key given class w).1.trace
handle_provision_claim-ok given live key ns name split c class named w early =
    let (r, w') = handle_provision_claim c key given class w in
    completed r w' (
      (handle_provision_claim-Completes live key ns name split c given class (refl, refl, refl)
          named).at
        w early)
