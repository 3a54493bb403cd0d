-- ===== src/V1alpha1/DeepCopy/Shared/Views.antt =====
-- The value of an ObjectBucket without its addresses, and its addresses.
use lib_bucket_provisioner.Base.{ℕ, Option, none, some, List, [], ◌∷◌, ◌++◌}
use lib_bucket_provisioner.V1alpha1.{
  Authentication, Endpoint, Connection, ObjectBucketSpec, ObjectBucket,
}
use lib_bucket_provisioner.V1alpha1.DeepCopy.Shared.{
  Pointer, SharedAuthentication, SharedEndpoint, SharedConnection, SharedBucketSpec, SharedBucket,
}

-- The value behind a pointer, and the addresses from it on.
abbrev pub target {ℓ κ} : {A : Type ℓ} {B : Type κ} → (A → B) → Pointer A → Option B
target view none = none
target view (some p) = some (view p.content)

abbrev pub reached {ℓ} : {A : Type ℓ} → (A → List ℕ) → Pointer A → List ℕ
reached inner none = []
reached inner (some p) = p.address ∷ inner p.content

abbrev pub nowhere {ℓ} : {A : Type ℓ} → A → List ℕ
nowhere a = []

abbrev pub authentication_of : SharedAuthentication → Authentication
authentication_of a = record {
  access_keys = target (λ k. k) a.access_keys;
  additional_secret_data = target (λ m. m) a.additional_secret_data;
}

abbrev pub endpoint_of : SharedEndpoint → Endpoint
endpoint_of e = record {
  bucket_host = e.bucket_host;
  bucket_port = e.bucket_port;
  bucket_name = e.bucket_name;
  region = e.region;
  sub_region = e.sub_region;
  additional_config_data = target (λ m. m) e.additional_config_data;
}

abbrev pub connection_of : SharedConnection → Connection
connection_of c = record {
  endpoint = target endpoint_of c.endpoint;
  authentication = target authentication_of c.authentication;
  additional_state = target (λ m. m) c.additional_state;
}

abbrev pub spec_of : SharedBucketSpec → ObjectBucketSpec
spec_of s = record {
  storage_class_name = s.storage_class_name;
  reclaim_policy = target (λ p. p) s.reclaim_policy;
  claim_ref = target (λ r. r) s.claim_ref;
  connection = target connection_of s.connection;
}

-- The value of an object bucket, without the addresses.
abbrev pub bucket_of : SharedBucket → ObjectBucket
bucket_of b = record {
  type_meta = b.type_meta;
  meta = b.meta;
  spec = spec_of b.spec;
  status = b.status;
}

abbrev pub authentication_addresses : SharedAuthentication → List ℕ
authentication_addresses a =
    reached nowhere a.access_keys ++ reached nowhere a.additional_secret_data

abbrev pub endpoint_addresses : SharedEndpoint → List ℕ
endpoint_addresses e = reached nowhere e.additional_config_data

abbrev pub connection_addresses : SharedConnection → List ℕ
connection_addresses c =
    reached endpoint_addresses c.endpoint
    ++ (reached authentication_addresses c.authentication ++ reached nowhere c.additional_state)

-- Every address of a pointer or a map in an object bucket.
abbrev pub bucket_addresses : SharedBucket → List ℕ
bucket_addresses b =
    reached nowhere b.spec.reclaim_policy
    ++ (reached nowhere b.spec.claim_ref ++ reached connection_addresses b.spec.connection)
