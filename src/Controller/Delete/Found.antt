-- ===== src/Controller/Delete/Found.antt =====
-- handleDeleteClaim: where the object bucket that it goes on with, or its absence, comes from.
use lib_bucket_provisioner.Base.{
  Text, true, Bool-cases, none, List, [], ◌∷◌, ◌≡◌, sym, ◌∙◌, inl, inr, length,
}
use lib_bucket_provisioner.V1alpha1.{ObjectBucket}
use lib_bucket_provisioner.Cluster.Error.{Error, Reply, done, failed, is_not_found}
use lib_bucket_provisioner.Cluster.Event.{Trace, bucket_got}
use lib_bucket_provisioner.Cluster.Env.{Env}
use lib_bucket_provisioner.Cluster.Monad.{attempt, lift, pure, ◌>>=◌}
use lib_bucket_provisioner.Cluster.Emits.{Emits-call, Emits-bind, Emits-attempt, Emits-lift}
use lib_bucket_provisioner.Cluster.Triple.{Triple, Triple-bind, Triple-pure, Triple-attempt-call}
use lib_bucket_provisioner.Cluster.Ordered.{Any, Lasting, always, Kept, Ordered, Triple-Kept}
use lib_bucket_provisioner.Helpers.Names.{object_bucket_name, object_bucket_name_from_claim_key}
use lib_bucket_provisioner.Helpers.Lookups.{config_map_for_claim_key, secret_for_claim_key}
use lib_bucket_provisioner.Controller.Resources.{
  Resources, got, grouped, trim_not_found, object_bucket_for_claim_key, get_resources_from_key,
  get_existing_resources_from_key,
}
use lib_bucket_provisioner.Controller.Resources.Laws.{others, trim_not_found-others}
use lib_bucket_provisioner.Controller.Delete.Guard.{BucketGone, DeleteGuard}

-- What is known of the object bucket that was looked for.
abbrev BucketFound : Reply ObjectBucket → Trace → Type 0
BucketFound (done ob) t = Unit {0}
BucketFound (failed e) t = is_not_found e ≡ true → Any BucketGone t

BucketFound-Lasting : (r : Reply ObjectBucket) → Lasting (BucketFound r)
BucketFound-Lasting (done ob) = always
BucketFound-Lasting (failed e) = record { later = λ _ t k h. inr (k h) }

others-head : (e : Error) (errs : List Error) → others (e ∷ errs) ≡ [] → is_not_found e ≡ true
unfolding others
others-head e errs h = elim (Bool-cases (is_not_found e)) [
  | inl gone ↦ gone
  | inr other ↦ let h' : (e ∷ others errs) ≡ [] = rw other at h in cc
]

-- With no error left, the first error was that the object was not found.
grouped-head :
    {A B : Type 0} (e : Error) (cm : Reply A) (sec : Reply B)
    → others (grouped (grouped (e ∷ []) cm) sec) ≡ []
    → is_not_found e ≡ true
grouped-head e (done a) (done b) h = others-head e _ h
grouped-head e (done a) (failed f) h = others-head e _ h
grouped-head e (failed f) (done b) h = others-head e _ h
grouped-head e (failed f) (failed g) h = others-head e _ h

-- No errors and no object bucket: the API server has said that there is none.
abbrev pub Explained : Resources → Trace → Type 0
Explained r t = r.errs ≡ [] → r.ob ≡ none → Any BucketGone t

explained :
    {A B : Type 0} (ob : Reply ObjectBucket) (cm : Reply A) (sec : Reply B) (t : Trace)
    → BucketFound ob t
    → let errs = grouped (grouped (grouped [] ob) cm) sec in
      trim_not_found (length errs) errs ≡ [] → got ob ≡ none → Any BucketGone t
explained (done ob) cm sec t k h g = cc
explained (failed e) cm sec t k h g =
    k (grouped-head e cm sec (sym (trim_not_found-others (grouped (grouped (e ∷ []) cm) sec)) ∙ h))

module _ {E : Env} (key ns name : Text) (split : E.split_key key ≡ done (ns, name)) where
  bucket_for_key-Found :
      Triple {E = E}
        (Ordered DeleteGuard tt)
        (attempt (object_bucket_for_claim_key key))
        (λ r. Kept DeleteGuard (BucketFound r))
        (Ordered DeleteGuard)
  unfolding object_bucket_for_claim_key object_bucket_name_from_claim_key lift pure ◌>>=◌
  bucket_for_key-Found = rw split (
      Triple-attempt-call _ (bucket_got (object_bucket_name ns name))
        (λ w r s k e. ((tt, k), found r w.trace)))
    where
      found :
          (r : Reply ObjectBucket) (t : Trace)
          → BucketFound r (bucket_got (object_bucket_name ns name) r ∷ t)
      found (done ob) t = tt
      found (failed e) t = λ h. inl h

  pub get_existing-Explained :
      Triple {E = E}
        (Ordered DeleteGuard tt)
        (get_existing_resources_from_key key)
        (λ r. Kept DeleteGuard (Explained r))
        (Ordered DeleteGuard)
  unfolding get_existing_resources_from_key get_resources_from_key config_map_for_claim_key
      secret_for_claim_key
  get_existing-Explained =
      Triple-bind
        (Triple-bind bucket_for_key-Found λ ob.
          Triple-bind
            (Triple-Kept DeleteGuard (BucketFound-Lasting ob)
              (Emits-attempt (Emits-bind (Emits-lift _) (λ p. Emits-call _ _ (λ r t k. tt)))))
            λ cm.
              Triple-bind
                (Triple-Kept DeleteGuard (BucketFound-Lasting ob)
                  (Emits-attempt (Emits-bind (Emits-lift _) (λ p. Emits-call _ _ (λ r t k. tt)))))
                λ sec.
                  Triple-pure
                    {Q = λ (r : Resources) w.
                      Kept DeleteGuard
                        (λ t.
                          trim_not_found (length r.errs) r.errs ≡ []
                          → r.ob ≡ none
                          → Any BucketGone t)
                        w}
                    _ (λ w k. (k.0, explained ob cm sec w.trace k.1)))
        (λ r. Triple-pure _ (λ w k. k))
