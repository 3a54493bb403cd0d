-- ===== src/Helpers/Ownership/Laws.antt =====
-- The references that the controller writes, and the tests of ownership that read them.
use lib_bucket_provisioner.Base.{◌==◌, ◌&&◌, some, [], ◌∷◌, ◌≡◌, arith}
use lib_bucket_provisioner.V1alpha1.{ObjectBucketClaim, ObjectBucket}
use lib_bucket_provisioner.Helpers.Ownership.{
  make_object_reference, make_owner_reference, object_is_owned_by_claim, bucket_is_owned_by_claim,
}

-- A bucket whose reference is made from `owner` belongs to `obc` exactly when the two claims have
-- one namespace and one name; UIDs do not count.
pub bucket_is_owned-make_object_reference :
    (obc owner : ObjectBucketClaim) (ob : ObjectBucket)
    → ob.spec.claim_ref ≡ some (make_object_reference owner)
    → bucket_is_owned_by_claim obc ob
      ≡ (owner.meta.namespace == obc.meta.namespace && owner.meta.name == obc.meta.name)
unfolding bucket_is_owned_by_claim make_object_reference ◌==◌
bucket_is_owned-make_object_reference obc owner ob h = rw h (ground arith)

-- An object that carries the owner reference made from `owner` is owned by every claim of that
-- name, in whatever namespace.
pub object_is_owned-make_owner_reference :
    (obc owner : ObjectBucketClaim)
    → object_is_owned_by_claim obc (make_owner_reference owner ∷ [])
      ≡ (owner.meta.name == obc.meta.name)
unfolding object_is_owned_by_claim make_owner_reference ◌==◌
object_is_owned-make_owner_reference obc owner = ground arith
