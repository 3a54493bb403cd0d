-- ===== src/Controller/Provision/Delivery.antt =====
-- handleProvisionClaim: what the secret, the config map and the object bucket that are sent to the API
-- server contain of what the provisioner has returned.
pub mod Stages
pub mod Sent
pub mod Whole
use lib_bucket_provisioner.Base.{
  Text, codes, true, StringMap, Option, none, some, [], ◌∷◌, ◌≡◌, refl,
}
use lib_bucket_provisioner.V1alpha1.{
  ObjectMeta, ObjectBucketClaim, ObjectBucket, Connection, Endpoint, AccessKeys, Authentication,
  Secret, ConfigMap, to_map,
}
use lib_bucket_provisioner.Cluster.Error.{done}
use lib_bucket_provisioner.Cluster.Event.{
  Event, Trace, claim_got, bucket_created, bucket_updated, secret_created, secret_updated,
  config_map_created, config_map_updated, provisioned, granted,
}
use lib_bucket_provisioner.Cluster.Env.{Env}
use lib_bucket_provisioner.Cluster.Ordered.{Any}
use lib_bucket_provisioner.Helpers.Metadata.{finalizer, contains}
use lib_bucket_provisioner.Helpers.Ownership.{make_owner_reference, make_object_reference}
use lib_bucket_provisioner.Helpers.Names.{object_bucket_name_from_claim_key}
use lib_bucket_provisioner.Handlers.Objects.{itoa}
use lib_bucket_provisioner.Controller.Provision.Unmodified.{Answered}

-- Provision or Grant has returned this object bucket.
abbrev pub Provided : ObjectBucket → Event → Type 0
Provided ob (provisioned o (done (some got))) = got ≡ ob
Provided ob (granted o (done (some got))) = got ≡ ob
Provided ob _ = ⊥

abbrev pub ClaimRead : ObjectBucketClaim → Event → Type 0
ClaimRead obc (claim_got ns name (done got)) = got ≡ obc
ClaimRead obc _ = ⊥

-- The object has the claim's name and namespace, the finalizer, and the claim as its owner.
abbrev pub OwnedBy : ObjectBucketClaim → ObjectMeta → Type 0
OwnedBy obc m =
    (m.name ≡ obc.meta.name)
    × (m.namespace ≡ obc.meta.namespace)
    × (contains finalizer m.finalizers ≡ true)
    × (m.owner_references ≡ make_owner_reference obc ∷ [])

-- The secret's data: the two keys, or nothing.
abbrev pub KeyData : Option AccessKeys → StringMap → Type 0
KeyData none m = m ≡ some []
KeyData (some ak) m =
    m
    ≡ some (
        (codes "AWS_ACCESS_KEY_ID", ak.access_key_id)
        ∷ (codes "AWS_SECRET_ACCESS_KEY", ak.secret_access_key)
        ∷ [])

-- The config map's data.
abbrev pub EndpointData : Endpoint → StringMap → Type 0
EndpointData ep m =
    m
    ≡ some (
        (codes "BUCKET_NAME", ep.bucket_name)
        ∷ (codes "BUCKET_HOST", ep.bucket_host)
        ∷ (codes "BUCKET_PORT", itoa ep.bucket_port)
        ∷ (codes "BUCKET_REGION", ep.region)
        ∷ (codes "BUCKET_SUBREGION", ep.sub_region)
        ∷ [])

-- The secret has the keys of the object bucket's connection.
abbrev pub CredentialsOf : ObjectBucketClaim → ObjectBucket → Secret → Type 0
CredentialsOf obc ob s =
    (c : Connection) × (auth : Authentication) × (ob.spec.connection ≡ some c)
    × (c.authentication ≡ some auth)
    × KeyData auth.access_keys s.string_data
    × OwnedBy obc s.meta

-- The config map has the endpoint of the object bucket's connection.
abbrev pub AddressOf : ObjectBucketClaim → ObjectBucket → ConfigMap → Type 0
AddressOf obc ob cm =
    (c : Connection) × (ep : Endpoint) × (ob.spec.connection ≡ some c)
    × (c.endpoint ≡ some ep)
    × EndpointData ep cm.config_data
    × OwnedBy obc cm.meta

-- A claim that the API server has answered with, and an object bucket of the provisioner.
abbrev pub From : ObjectBucketClaim → ObjectBucket → Trace → Type 0
From obc ob t = Any (Answered obc) t × Any (Provided ob) t

module _ (E : Env) (key : Text) where
  -- The object bucket that is sent has the provisioner's connection, the name of the key, the
  -- finalizer and the claim's storage class.
  abbrev pub BucketOf : ObjectBucketClaim → ObjectBucket → ObjectBucket → Type 0
  BucketOf obc ob sent =
      (sent.spec.connection ≡ ob.spec.connection)
      × (sent.spec.storage_class_name ≡ obc.spec.storage_class_name)
      × (contains finalizer sent.meta.finalizers ≡ true)
      × ((n : Text) → object_bucket_name_from_claim_key E key ≡ done n → sent.meta.name ≡ n)

  abbrev pub Sent : ObjectBucket → Trace → Type 0
  Sent sent t =
      ((obc : ObjectBucketClaim) × (ob : ObjectBucket) × From obc ob t × BucketOf obc ob sent)
      × ((claim : ObjectBucketClaim) × Any (ClaimRead claim) t
          × (sent.spec.claim_ref ≡ some (make_object_reference claim)))

  abbrev pub SecretSent : Secret → Trace → Type 0
  SecretSent s t =
      (obc : ObjectBucketClaim) × (ob : ObjectBucket) × From obc ob t × CredentialsOf obc ob s

  abbrev pub ConfigMapSent : ConfigMap → Trace → Type 0
  ConfigMapSent cm t =
      (obc : ObjectBucketClaim) × (ob : ObjectBucket) × From obc ob t × AddressOf obc ob cm

  abbrev pub DeliveryGuard : Event → Trace → Type 0
  DeliveryGuard (secret_created s r) t = SecretSent s t
  DeliveryGuard (secret_updated s r) t = SecretSent s t
  DeliveryGuard (config_map_created cm r) t = ConfigMapSent cm t
  DeliveryGuard (config_map_updated cm r) t = ConfigMapSent cm t
  DeliveryGuard (bucket_created sent r) t = Sent sent t
  DeliveryGuard (bucket_updated sent r) t = Sent sent t
  DeliveryGuard _ t = Unit {0}
