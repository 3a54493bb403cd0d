-- ===== src/Handlers/Objects.antt =====
-- resourcehandlers.go: newBucketConfigMap and newCredentialsSecret.
use lib_bucket_provisioner.Base.{
  ℕ, zero, suc, ◌+◌, ◌/◌, ◌%◌, ltb, if◌then◌else◌, Text, codes, StringMap, Option, none, some, [],
  ◌∷◌, ◌++◌,
}
use lib_bucket_provisioner.V1alpha1.{
  ℤ, pos, negsuc, ObjectMeta, ObjectBucketClaim, Endpoint, Authentication, ConfigMap, Secret,
  to_map,
}
use lib_bucket_provisioner.Cluster.Error.{
  Reply, done, failed, failure, config_map_nil_endpoint, config_map_nil_claim, secret_nil_claim,
  secret_nil_authentication,
}
use lib_bucket_provisioner.Helpers.Names.{compose_config_map_name, compose_secret_name}
use lib_bucket_provisioner.Helpers.Metadata.{finalizer}
use lib_bucket_provisioner.Helpers.Ownership.{make_owner_reference}

abbrev pub bucket_name : Text
bucket_name = codes "BUCKET_NAME"

abbrev pub bucket_host : Text
bucket_host = codes "BUCKET_HOST"

abbrev pub bucket_port : Text
bucket_port = codes "BUCKET_PORT"

abbrev pub bucket_region : Text
bucket_region = codes "BUCKET_REGION"

abbrev pub bucket_sub_region : Text
bucket_sub_region = codes "BUCKET_SUBREGION"

-- The decimal digits; a fuel of `n + 1` is more than there are digits.
digits : ℕ → ℕ → Text
digits zero n = []
digits (suc f) n =
    let front = digits f (n / 10) in
    if ltb n 10 then (b'0' + n) ∷ [] else front ++ ((b'0' + n % 10) ∷ [])

-- strconv.Itoa
unfoldable pub itoa : ℤ → Text
unfolding digits
itoa (pos n) = digits (suc n) n
itoa (negsuc n) = b'-' ∷ digits (suc (suc n)) (suc n)

-- The metadata of both: the claim's name and namespace, the finalizer, the labels and the claim as
-- the owner.
unfoldable pub owned_meta : Text → ObjectBucketClaim → StringMap → ObjectMeta
owned_meta name obc labels = record {
  name = name;
  namespace = obc.meta.namespace;
  uid = [];
  resource_version = [];
  deletion_timestamp = none;
  labels = labels;
  finalizers = finalizer ∷ [];
  owner_references = make_owner_reference obc ∷ [];
}

unfoldable pub new_bucket_config_map :
    Option ObjectBucketClaim → Option Endpoint → StringMap → Reply ConfigMap
unfolding owned_meta
new_bucket_config_map obc none labels = failed (failure config_map_nil_endpoint)
new_bucket_config_map none (some ep) labels = failed (failure config_map_nil_claim)
new_bucket_config_map (some obc) (some ep) labels = done (record {
  meta = owned_meta (compose_config_map_name obc) obc labels;
  config_data = some (
      (bucket_name, ep.bucket_name)
      ∷ (bucket_host, ep.bucket_host)
      ∷ (bucket_port, itoa ep.bucket_port)
      ∷ (bucket_region, ep.region)
      ∷ (bucket_sub_region, ep.sub_region)
      ∷ []);
})

unfoldable pub new_credentials_secret :
    Option ObjectBucketClaim → Option Authentication → StringMap → Reply Secret
unfolding owned_meta
new_credentials_secret none auth labels = failed (failure secret_nil_claim)
new_credentials_secret (some obc) none labels = failed (failure secret_nil_authentication)
new_credentials_secret (some obc) (some auth) labels = done (record {
  meta = owned_meta (compose_secret_name obc) obc labels;
  string_data = to_map (some auth);
})
