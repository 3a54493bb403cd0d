-- ===== src/V1alpha1/DeepCopy.antt =====
-- zz_generated.deepcopy.go: each copy takes over the plain fields, allocates what a pointer refers
-- to and copies maps entry by entry. Here are the values of the copies, which the controller's code
-- goes on with: DeepCopyInto and DeepCopy of a receiver are one function, and DeepCopy of a pointer is
-- `deep_copy_pointer`. Shared has the copy of an ObjectBucket with the addresses of its pointers and
-- maps, which tell a copy from its original. TypeMeta and ObjectMeta are copied as values.
pub mod Lists
pub mod Shared
pub mod Laws
use lib_bucket_provisioner.Base.{StringMap, insert_all, Option, none, some, []}
use lib_bucket_provisioner.V1alpha1.{
  AccessKeys, Authentication, Endpoint, Connection, ObjectBucketSpec, ObjectBucketStatus,
  ObjectBucket, ObjectBucketClaimSpec, ObjectBucketClaimStatus, ObjectBucketClaim,
}

-- `if in != nil { *out = make(map[string]string, len(*in)); for key, val := range *in { … } }`
unfoldable pub copy_map : StringMap → StringMap
unfolding insert_all
copy_map none = none
copy_map (some m) = some (insert_all m [])

-- `if in == nil { return nil }; out := new(T); in.DeepCopyInto(out); return out`
unfoldable pub deep_copy_pointer {ℓ} : {A : Type ℓ} → (A → A) → Option A → Option A
deep_copy_pointer copy none = none
deep_copy_pointer copy (some a) = some (copy a)

unfoldable pub deep_copy_access_keys : AccessKeys → AccessKeys
deep_copy_access_keys k = k

unfoldable pub deep_copy_authentication : Authentication → Authentication
unfolding copy_map deep_copy_pointer deep_copy_access_keys
deep_copy_authentication a = record a {
  access_keys = deep_copy_pointer deep_copy_access_keys a.access_keys;
  additional_secret_data = copy_map a.additional_secret_data;
}

unfoldable pub deep_copy_endpoint : Endpoint → Endpoint
unfolding copy_map
deep_copy_endpoint e = record e { additional_config_data = copy_map e.additional_config_data }

unfoldable pub deep_copy_connection : Connection → Connection
unfolding copy_map deep_copy_pointer deep_copy_endpoint deep_copy_authentication
deep_copy_connection c = record c {
  endpoint = deep_copy_pointer deep_copy_endpoint c.endpoint;
  authentication = deep_copy_pointer deep_copy_authentication c.authentication;
  additional_state = copy_map c.additional_state;
}

-- A reclaim policy and an object reference have plain fields only.
unfoldable pub deep_copy_bucket_spec : ObjectBucketSpec → ObjectBucketSpec
unfolding deep_copy_pointer deep_copy_connection
deep_copy_bucket_spec s = record s {
  reclaim_policy = deep_copy_pointer (λ p. p) s.reclaim_policy;
  claim_ref = deep_copy_pointer (λ r. r) s.claim_ref;
  connection = deep_copy_pointer deep_copy_connection s.connection;
}

unfoldable pub deep_copy_bucket_status : ObjectBucketStatus → ObjectBucketStatus
deep_copy_bucket_status s = s

unfoldable pub deep_copy_bucket : ObjectBucket → ObjectBucket
unfolding deep_copy_bucket_spec
deep_copy_bucket b = record {
  type_meta = b.type_meta;
  meta = b.meta;
  spec = deep_copy_bucket_spec b.spec;
  status = b.status;
}

unfoldable pub deep_copy_claim_spec : ObjectBucketClaimSpec → ObjectBucketClaimSpec
unfolding copy_map
deep_copy_claim_spec s = record s { additional_config = copy_map s.additional_config }

unfoldable pub deep_copy_claim_status : ObjectBucketClaimStatus → ObjectBucketClaimStatus
deep_copy_claim_status s = s

unfoldable pub deep_copy_claim : ObjectBucketClaim → ObjectBucketClaim
unfolding deep_copy_claim_spec
deep_copy_claim c = record {
  type_meta = c.type_meta;
  meta = c.meta;
  spec = deep_copy_claim_spec c.spec;
  status = c.status;
}
