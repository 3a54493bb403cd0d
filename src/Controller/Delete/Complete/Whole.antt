-- ===== src/Controller/Delete/Complete/Whole.antt =====
-- handleDeleteClaim (pkg/provisioner/controller.go) as a whole where no call fails.
use lib_bucket_provisioner.Base.{Text, length, List, [], ◌∷◌, ◌≡◌, refl}
use lib_bucket_provisioner.V1alpha1.{ObjectBucketClaim, ObjectBucket, Secret, ConfigMap}
use lib_bucket_provisioner.Cluster.Error.{Error, Reply, done, failed}
use lib_bucket_provisioner.Cluster.Env.{Env}
use lib_bucket_provisioner.Cluster.Monad.{World, Outcome, ok, err, panic}
use lib_bucket_provisioner.Cluster.Triple.{Post, Triple-bind, Triple-pure}
use lib_bucket_provisioner.Cluster.Ordered.{Any}
use lib_bucket_provisioner.Helpers.Lookups.{config_map_for_claim_key, secret_for_claim_key}
use lib_bucket_provisioner.Controller.Resources.{
  Resources, got, grouped, object_bucket_for_claim_key, get_resources_from_key, trim_not_found,
  get_existing_resources_from_key,
}
use lib_bucket_provisioner.Controller.Provision.Complete.{
  Completes, Completes-call, Completes-lift, OkWith, Ok,
}
use lib_bucket_provisioner.Controller.Provision.Complete.Naming.{given, Given, assuming}
use lib_bucket_provisioner.Controller.Provision.Complete.Whole.{claim_key-named}
use lib_bucket_provisioner.Controller.Delete.{fail_if_any, handle_delete_claim}
use lib_bucket_provisioner.Controller.Delete.Complete.{
  HasPolicy, Releasing, Deprovisioned, ClaimReleased, attempt-Completes, attempt-Ok,
}
use lib_bucket_provisioner.Controller.Delete.Complete.Stages.{
  PolicyFound, Done, release_resources-Done,
}

module _ {E : Env} (live : Releasing E) where
  trim-nil : (errs : List Error) → errs ≡ [] → trim_not_found (length errs) errs ≡ []
  unfolding trim_not_found
  trim-nil errs e = rw (e) refl

  fail_if_any-Completes :
      (errs : List Error)
      → errs ≡ []
      → Completes {E = E} (Given Unit) (fail_if_any errs) (λ _. Given Unit)
  unfolding fail_if_any
  fail_if_any-Completes [] h = Triple-pure _ (λ w p. tt)
  fail_if_any-Completes (e ∷ errs) h = record { at = λ w p. cc }

  -- What getExistingResourcesFromKey returns: no error, and the object bucket.
  abbrev AllFound : Resources → Type 0
  AllFound r = (r.errs ≡ []) × PolicyFound r.ob

  all_found :
      (ob : Reply ObjectBucket) (cm : Reply ConfigMap) (sec : Reply Secret)
      → OkWith HasPolicy ob
      → Ok cm
      → Ok sec
      → (grouped (grouped (grouped [] ob) cm) sec ≡ []) × PolicyFound (got ob)
  all_found (done ob) (done cm) (done sec) h hc hs = (refl, h)
  all_found (failed e) cm sec h hc hs = absurd h
  all_found (done ob) (failed e) sec h hc hs = absurd hc
  all_found (done ob) (done cm) (failed e) h hc hs = absurd hs

  module _ (key ns name : Text) (split : E.split_key key ≡ done (ns, name)) where
    get_existing-AllFound :
        Completes {E = E}
          (Given Unit)
          (get_existing_resources_from_key key)
          (λ r. Given (AllFound r))
    unfolding get_existing_resources_from_key get_resources_from_key object_bucket_for_claim_key
        config_map_for_claim_key secret_for_claim_key trim_not_found
    get_existing-AllFound =
        Triple-bind {Q' = λ r. Given (AllFound r)}
          (Triple-bind {Q' = λ ob w. OkWith HasPolicy ob × Unit}
            (attempt-Completes {K = λ w. Unit} HasPolicy (
              Triple-bind {Q' = λ n. Given Unit}
                (Completes-lift _ _ (claim_key-named E key ns name split) (λ w p. tt))
                λ n. Completes-call HasPolicy _ _ (live.bucket_read n) (λ w a s p h. (h, tt))))
            λ ob. given λ hob.
              Triple-bind {Q' = λ cm w. Ok cm × Unit}
                (attempt-Ok {K = λ w. Unit} (
                  Triple-bind {Q' = λ at. Given Unit} (Completes-lift _ _ split (λ w p. tt)) λ at.
                    Completes-call (λ a. Unit) _ _ (live.config_map_read at.0 at.1)
                      (λ w a s p h. tt)))
                λ cm. given λ hcm.
                  Triple-bind {Q' = λ sec w. Ok sec × Unit}
                    (attempt-Ok {K = λ w. Unit} (
                      Triple-bind {Q' = λ at. Given Unit} (Completes-lift _ _ split (λ w p. tt))
                        λ at.
                          Completes-call (λ a. Unit) _ _ (live.secret_read at.0 at.1)
                            (λ w a s p h. tt)))
                    λ sec. given λ hsec. Triple-pure _ (λ w p. all_found ob cm sec hob hcm hsec))
          λ r. assuming λ found. Triple-pure _ (λ w p. (trim-nil r.errs found.0, found.1))

    pub handle_delete_claim-Done :
        (obc : ObjectBucketClaim)
        → Completes {E = E} (Given Unit) (handle_delete_claim key obc) Done
    unfolding handle_delete_claim fail_if_any
    handle_delete_claim-Done obc =
        Triple-bind {Q' = λ r. Given (AllFound r)} get_existing-AllFound λ r. assuming λ found.
          Triple-bind {Q' = λ _. Given Unit} (fail_if_any-Completes r.errs found.0)
            λ _. release_resources-Done live r.ob r.cm r.secret obc found.1

pub succeeded :
    {E : Env} (r : Outcome (Unit {0})) (w : World E)
    → Post (λ _ w. Any Deprovisioned w.trace × ClaimReleased w.trace) (λ x w. ⊥) r w
    → (r ≡ ok tt) × (Any Deprovisioned w.trace × ClaimReleased w.trace)
succeeded (ok tt) w p = (refl, p)
succeeded (err e) w p = absurd p
succeeded panic w p = absurd p

-- Where no call fails but that of the storage class, the object bucket has a reclaim policy, and
-- the answer to the update of its phase the policy that was sent, handleDeleteClaim returns without
-- an error for every claim; the provisioner's Delete or Revoke has succeeded, and a claim was stored
-- with the controller's finalizer taken off. The object bucket may be gone when it is deleted.
pub handle_delete_claim-ok :
    {E : Env} (live : Releasing E) (key ns name : Text)
    → E.split_key key ≡ done (ns, name)
    → (obc : ObjectBucketClaim) (w : World E)
    → ((handle_delete_claim key obc w).0 ≡ ok tt)
      × (Any Deprovisioned (handle_delete_claim key obc w).1.trace
          × ClaimReleased (handle_delete_claim key obc w).1.trace)
handle_delete_claim-ok live key ns name split obc w =
    let (r, w') = handle_delete_claim key obc w in
    succeeded r w' ((handle_delete_claim-Done live key ns name split obc).at w tt)
