-- ===== src/Helpers/Ownership.antt =====
-- helpers.go: references to a claim, the tests of ownership, and shouldProvision.
pub mod Laws
use lib_bucket_provisioner.Base.{
  ◌==◌, Bool, true, false, ◌&&◌, not, if◌then◌else◌, Option, none, some, List, [], ◌∷◌,
}
use lib_bucket_provisioner.V1alpha1.{
  ObjectBucketClaim, ObjectBucket, ObjectReference, OwnerReference, object_bucket_claim_kind,
  scheme_group_version,
}
use lib_bucket_provisioner.V1alpha1.Phase

unfoldable pub make_object_reference : ObjectBucketClaim → ObjectReference
make_object_reference claim = record {
  kind = object_bucket_claim_kind;
  namespace = claim.meta.namespace;
  name = claim.meta.name;
  uid = claim.meta.uid;
  api_version = scheme_group_version;
  resource_version = [];
  field_path = [];
}

unfoldable pub make_owner_reference : ObjectBucketClaim → OwnerReference
make_owner_reference claim = record {
  api_version = scheme_group_version;
  kind = object_bucket_claim_kind;
  name = claim.meta.name;
  uid = claim.meta.uid;
  controller = some true;
  block_owner_deletion = some true;
}

unfoldable pub object_is_owned_by_claim : ObjectBucketClaim → List OwnerReference → Bool
object_is_owned_by_claim obc [] = false
object_is_owned_by_claim obc (ref ∷ refs) =
    let rest = object_is_owned_by_claim obc refs in
    if ref.kind == object_bucket_claim_kind && ref.name == obc.meta.name then true else rest

-- `*ref == corev1.ObjectReference{}`
is_empty_reference : ObjectReference → Bool
is_empty_reference r =
    r.kind == []
    && (r.namespace == []
        && (r.name == []
            && (r.uid == []
                && (r.api_version == [] && (r.resource_version == [] && r.field_path == [])))))

refers_to : ObjectBucketClaim → Option ObjectReference → Bool
unfolding is_empty_reference
refers_to obc none = false
refers_to obc (some ref) =
    if is_empty_reference ref
    then false
    else if ref.kind == object_bucket_claim_kind
        && (ref.namespace == obc.meta.namespace && ref.name == obc.meta.name)
    then true
    else false

unfoldable pub bucket_is_owned_by_claim : ObjectBucketClaim → ObjectBucket → Bool
unfolding refers_to
bucket_is_owned_by_claim obc ob = refers_to obc ob.spec.claim_ref

unfoldable pub should_provision : ObjectBucketClaim → Bool
should_provision obc =
    if not (obc.spec.object_bucket_name == []) && obc.status.phase == Phase.bound
    then false
    else true
