-- ===== src/Controller/Delete/Guard.antt =====
-- The guards of handleDeleteClaim's calls: what the log must hold before each.
use lib_bucket_provisioner.Base.{Text, ◌==◌, true, Option, none, some, ◌≡◌, ◌⊎◌, inl, inr}
use lib_bucket_provisioner.V1alpha1.{ObjectBucket}
use lib_bucket_provisioner.V1alpha1.Phase
use lib_bucket_provisioner.Cluster.Error.{done, failed, is_not_found}
use lib_bucket_provisioner.Cluster.Event.{
  Event, Trace, claim_updated, bucket_got, bucket_updated, bucket_status_updated, bucket_deleted,
  secret_updated, config_map_updated, class_got, removed, revoked,
}
use lib_bucket_provisioner.Cluster.Ordered.{Any, Lasting}
use lib_bucket_provisioner.Helpers.Lookups.{is_new_bucket_by_storage_class}
use lib_bucket_provisioner.Controller.Delete.{reclaim_delete}

-- The policy is Delete.
abbrev pub PolicyDelete : Option Text → Type 0
PolicyDelete none = ⊥
PolicyDelete (some policy) = (policy == reclaim_delete) ≡ true

-- The bucket's storage class was read, and it is a class for new buckets.
abbrev pub NewClass : ObjectBucket → Event → Type 0
NewClass ob (class_got name (done class)) =
    (name ≡ ob.spec.storage_class_name) × (is_new_bucket_by_storage_class class ≡ true)
NewClass ob _ = ⊥

-- The bucket is the answer to an update of its phase to Released.
abbrev pub Released : ObjectBucket → Event → Type 0
Released ob (bucket_status_updated sent (done answer)) =
    (sent.status.phase ≡ Phase.released) × (answer ≡ ob)
Released ob _ = ⊥

-- The provisioner has deleted a bucket, or revoked the access to it.
abbrev pub Deprovisioned : Event → Type 0
Deprovisioned (removed ob (done _)) = Unit {0}
Deprovisioned (revoked ob (done _)) = Unit {0}
Deprovisioned _ = ⊥

-- The API server has no such object bucket.
abbrev pub BucketGone : Event → Type 0
BucketGone (bucket_got name (failed e)) = is_not_found e ≡ true
BucketGone _ = ⊥

abbrev pub MayRelease : Trace → Type 0
MayRelease t = Any Deprovisioned t ⊎ Any BucketGone t

abbrev pub DeleteGuard : Event → Trace → Type 0
DeleteGuard (removed ob r) t =
    PolicyDelete ob.spec.reclaim_policy × Any (NewClass ob) t × Any (Released ob) t
DeleteGuard (revoked ob r) t = Any (Released ob) t
DeleteGuard (bucket_updated ob r) t = MayRelease t
DeleteGuard (bucket_deleted name r) t = MayRelease t
DeleteGuard (secret_updated s r) t = MayRelease t
DeleteGuard (config_map_updated cm r) t = MayRelease t
DeleteGuard (claim_updated obc r) t = MayRelease t
DeleteGuard _ t = Unit {0}

pub MayRelease-Lasting : Lasting MayRelease
MayRelease-Lasting = record {
  later = λ e t m. elim m [ inl a ↦ inl (inr a) | inr a ↦ inr (inr a) ];
}
