-- ===== src/Controller/Naming.antt =====
-- Repeated runs of syncHandler (pkg/provisioner/controller.go) for one claim, each of which may fail or
-- panic at any call: the bucket name that Provision is asked for.
pub mod Stages
pub mod Provision
pub mod Whole
use lib_bucket_provisioner.Base.{
  ℕ, zero, suc, Text, ◌==◌, true, false, none, [], ◌∷◌, ◌≡◌, refl, sym, ◌∙◌, ◌⊎◌, inl, inr,
}
use lib_bucket_provisioner.Cluster.Error.{done}
use lib_bucket_provisioner.Cluster.Event.{
  Event, Trace, claim_got, claim_updated, claim_status_updated, class_got, provisioned,
}
use lib_bucket_provisioner.Cluster.Env.{Env}
use lib_bucket_provisioner.Cluster.Monad.{World}
use lib_bucket_provisioner.Cluster.Ordered.{Safe}
use lib_bucket_provisioner.Helpers.Lookups.{is_new_bucket_by_storage_class}
use lib_bucket_provisioner.Controller.Resources.{Controller}
use lib_bucket_provisioner.Controller.Sync.{sync_handler}

-- The world after so many runs for a key, whatever the outcome of each.
unfoldable pub retried : {E : Env} → ℕ → Controller → Text → World E → World E
retried zero c key w = w
retried (suc n) c key w = let rest = retried n c key (sync_handler c key w).1 in rest

module _ (first : Text) where
  -- The bucket name in the claim's spec, which is `first` at the beginning.
  abbrev pub stored : Trace → Text
  stored [] = first
  stored (claim_updated sent (done got) ∷ t) = sent.spec.bucket_name
  stored (_ ∷ t) = stored t

  -- What the API server answers about the claim is what was stored last; the claim is not being
  -- deleted, and the storage classes are for new buckets.
  abbrev pub Faithful : Event → Trace → Type 0
  Faithful (claim_got ns name (done got)) t =
      (got.spec.bucket_name ≡ stored t) × (got.meta.deletion_timestamp ≡ none)
  Faithful (claim_updated sent (done got)) t = got.spec.bucket_name ≡ sent.spec.bucket_name
  Faithful (claim_status_updated sent (done got)) t = got.spec.bucket_name ≡ stored t
  Faithful (class_got name (done class)) t = is_new_bucket_by_storage_class class ≡ true
  Faithful _ t = Unit {0}

  -- After faithful answers, an update keeps a name that is stored, and Provision is asked for it.
  abbrev pub NameGuard : Event → Trace → Type 0
  NameGuard (claim_updated sent r) t =
      Safe Faithful t → (sent.spec.bucket_name ≡ stored t) ⊎ (stored t ≡ [])
  NameGuard (provisioned o r) t =
      Safe Faithful t → ((o.bucket_name == []) ≡ false) × (o.bucket_name ≡ stored t)
  NameGuard _ t = Unit {0}

-- Each call of Provision was for this bucket name, which is not empty.
abbrev pub AllFor : Text → Trace → Type 0
AllFor name [] = Unit {0}
AllFor name (provisioned o r ∷ t) =
    ((o.bucket_name == []) ≡ false) × (o.bucket_name ≡ name) × AllFor name t
AllFor name (_ ∷ t) = AllFor name t

-- With a name that is empty there was no call.
AllFor-empty : (name name' : Text) (t : Trace) → name ≡ [] → AllFor name t → AllFor name' t
unfolding ◌==◌
AllFor-empty name name' [] e h = tt
AllFor-empty name name' (provisioned o r ∷ t) e h =
    let empty : ((◌==◌ [] []) ≡ false) = rw (h.1 ∙ e) at h.0 in absurd (cc)
AllFor-empty name name' (_ ∷ t) e h = AllFor-empty name name' t e h

-- After an update that keeps the name or gives the first one.
AllFor-updated :
    (name name' : Text) (t : Trace) → (name' ≡ name) ⊎ (name ≡ []) → AllFor name t → AllFor name' t
AllFor-updated name name' t (inl e) h = rw e h
AllFor-updated name name' t (inr e) h = AllFor-empty name name' t e h

pub Safe-AllFor :
    (first : Text) (t : Trace)
    → Safe (NameGuard first) t
    → Safe (Faithful first) t
    → AllFor (stored first t) t
Safe-AllFor first [] g f = tt
Safe-AllFor first (claim_updated sent (done got) ∷ t) g f =
    AllFor-updated (stored first t) sent.spec.bucket_name t (g.0 f.1) (Safe-AllFor first t g.1 f.1)
Safe-AllFor first (provisioned o r ∷ t) g f =
    let asked = g.0 f.1 in (asked.0, asked.1, Safe-AllFor first t g.1 f.1)
Safe-AllFor first (_ ∷ t) g f = Safe-AllFor first t g.1 f.1
