-- ===== src/Controller/Provision/Delivery/Stages.antt =====
-- The stages of handleProvisionClaim that make and send the objects.
use lib_bucket_provisioner.Base.{Text, ◌==◌, StringMap, Option, none, some, ◌≡◌, refl}
use lib_bucket_provisioner.V1alpha1.{
  ObjectBucketClaim, ObjectBucket, StorageClass, Endpoint, AccessKeys, Authentication, Secret,
  ConfigMap, access_keys_to_map, to_map,
}
use lib_bucket_provisioner.Cluster.Error.{Reply, done, failed, is_already_exists}
use lib_bucket_provisioner.Cluster.Event.{
  Event, bucket_got, bucket_created, bucket_updated, secret_created, secret_updated,
  config_map_created, config_map_updated,
}
use lib_bucket_provisioner.Cluster.Env.{Env}
use lib_bucket_provisioner.Cluster.Monad.{pure, raise, lift, ◌>>=◌, continue}
use lib_bucket_provisioner.Cluster.Emits.{
  Emits, Emits-bind, Emits-call, Emits-attempt, Emits-raise, Emits-map_error, Emits-if, Emits-pure,
}
use lib_bucket_provisioner.Helpers.Metadata.{add_labels, add_finalizers}
use lib_bucket_provisioner.Helpers.Metadata.Laws.{add_finalizers-contains}
use lib_bucket_provisioner.Helpers.Metadata.{contains}
use lib_bucket_provisioner.Helpers.Names.{
  compose_secret_name, compose_config_map_name, object_bucket_name_from_claim_key,
  set_object_bucket_name, renamed,
}
use lib_bucket_provisioner.Handlers.Objects.{
  owned_meta, new_credentials_secret, new_bucket_config_map,
}
use lib_bucket_provisioner.Handlers.Create.{
  updated_or, secret_after_create, create_or_update_secret, config_map_after_create,
  create_or_update_config_map, update_existing_bucket, bucket_after_create,
  create_or_update_object_bucket,
}
use lib_bucket_provisioner.Controller.Resources.{Controller}
use lib_bucket_provisioner.Controller.Provision.{completed_bucket}
use lib_bucket_provisioner.Controller.Provision.Delivery.{OwnedBy, KeyData, EndpointData, BucketOf}

-- A secret that newCredentialsSecret makes.
abbrev pub IsCredentials : ObjectBucketClaim → Option Authentication → Secret → Type 0
IsCredentials obc auth s =
    (a : Authentication) × (auth ≡ some a)
    × KeyData a.access_keys s.string_data
    × OwnedBy obc s.meta

abbrev pub IsAddress : ObjectBucketClaim → Option Endpoint → ConfigMap → Type 0
IsAddress obc endpoint cm =
    (ep : Endpoint) × (endpoint ≡ some ep) × EndpointData ep cm.config_data × OwnedBy obc cm.meta

to_map-KeyData : (a : Authentication) → KeyData a.access_keys (to_map (some a))
unfolding to_map access_keys_to_map
to_map-KeyData a = keys a.access_keys refl
  where
    keys : (k : Option AccessKeys) → a.access_keys ≡ k → KeyData k (to_map (some a))
    keys none e = rw (e) refl
    keys (some ak) e = rw (e) refl

owned_meta-OwnedBy :
    (obc : ObjectBucketClaim) (labels : StringMap)
    → OwnedBy obc (owned_meta obc.meta.name obc labels)
unfolding owned_meta contains ◌==◌
owned_meta-OwnedBy obc labels = (refl, refl, refl, refl)

module _ {E : Env} {P : Event → Type 0} where
  updated_or-quiet : {A : Type 0} (x : _) (r : Reply A) → Emits P (updated_or {E = E} x r)
  unfolding updated_or
  updated_or-quiet x (done a) = Emits-pure _
  updated_or-quiet x (failed e) = Emits-raise _

  secret_after_create-Sends :
      (s : Secret)
      → ((r : Reply Secret) → P (secret_updated s r))
      → (r : Reply Secret) → Emits P (secret_after_create {E = E} s r)
  unfolding secret_after_create
  secret_after_create-Sends s updated (done _) = Emits-pure _
  secret_after_create-Sends s updated (failed e) =
      Emits-if (is_already_exists e) _ _
        (Emits-bind (Emits-attempt (Emits-call _ _ updated)) (updated_or-quiet _)) (Emits-raise e)

  -- The secret that is sent is made of the authentication.
  pub create_or_update_secret-Sends :
      (obc : ObjectBucketClaim) (auth : Option Authentication) (labels : StringMap)
      → ((s : Secret)
          → IsCredentials obc auth s
          → ((r : Reply Secret) → P (secret_created s r))
            × ((r : Reply Secret) → P (secret_updated s r)))
      → Emits P (create_or_update_secret {E = E} obc auth labels)
  unfolding create_or_update_secret new_credentials_secret lift pure raise ◌>>=◌ continue
      compose_secret_name
  create_or_update_secret-Sends obc none labels sends = Emits-raise _
  create_or_update_secret-Sends obc (some a) labels sends =
      let s : Secret = record {
        meta = owned_meta obc.meta.name obc labels;
        string_data = to_map (some a);
      } in
      let sent = sends s (a, refl, to_map-KeyData a, owned_meta-OwnedBy obc labels) in
      Emits-bind (Emits-attempt (Emits-call _ _ sent.0)) (secret_after_create-Sends s sent.1)

  config_map_after_create-Sends :
      (cm : ConfigMap)
      → ((r : Reply ConfigMap) → P (config_map_updated cm r))
      → (r : Reply ConfigMap) → Emits P (config_map_after_create {E = E} cm r)
  unfolding config_map_after_create
  config_map_after_create-Sends cm updated (done _) = Emits-pure _
  config_map_after_create-Sends cm updated (failed e) =
      Emits-if (is_already_exists e) _ _
        (Emits-bind (Emits-attempt (Emits-call _ _ updated)) (updated_or-quiet _)) (Emits-raise e)

  pub create_or_update_config_map-Sends :
      (obc : ObjectBucketClaim) (endpoint : Option Endpoint) (labels : StringMap)
      → ((cm : ConfigMap)
          → IsAddress obc endpoint cm
          → ((r : Reply ConfigMap) → P (config_map_created cm r))
            × ((r : Reply ConfigMap) → P (config_map_updated cm r)))
      → Emits P (create_or_update_config_map {E = E} obc endpoint labels)
  unfolding create_or_update_config_map new_bucket_config_map lift pure raise ◌>>=◌ continue
      compose_config_map_name
  create_or_update_config_map-Sends obc none labels sends = Emits-raise _
  create_or_update_config_map-Sends obc (some ep) labels sends =
      let sent = sends _ (ep, refl, refl, owned_meta-OwnedBy obc labels) in
      Emits-bind (Emits-attempt (Emits-call _ _ sent.0)) (config_map_after_create-Sends _ sent.1)

  -- The object bucket is sent as it is, or at another version.
  pub create_or_update_object_bucket-Sends :
      (ob : ObjectBucket)
      → ((name : Text) (r : Reply ObjectBucket) → P (bucket_got name r))
      → ((r : Reply ObjectBucket) → P (bucket_created ob r))
      → ((v : Text) (r : Reply ObjectBucket)
          → P (bucket_updated (record ob { meta = record ob.meta { resource_version = v } }) r))
      → Emits P (create_or_update_object_bucket {E = E} ob)
  unfolding create_or_update_object_bucket bucket_after_create update_existing_bucket
  create_or_update_object_bucket-Sends ob read created updated =
      Emits-bind (Emits-attempt (Emits-call _ _ created)) after
    where
      after : (r : Reply ObjectBucket) → Emits P (bucket_after_create {E = E} ob r)
      after (done _) = Emits-pure _
      after (failed e) =
          Emits-if (is_already_exists e) _ _
            (Emits-bind (Emits-map_error _ (Emits-call _ _ (read _)))
              (λ current. Emits-map_error _ (Emits-call _ _ (updated _))))
            (Emits-raise _)

renamed_lem :
    (ob : ObjectBucket) (r : Reply Text)
    → ((renamed ob r).spec.connection ≡ ob.spec.connection)
      × ((n : Text) → r ≡ done n → (renamed ob r).meta.name ≡ n)
unfolding renamed
renamed_lem ob (done m) = (refl, λ n e. cc)
renamed_lem ob (failed x) = (refl, λ n e. cc)

set_object_bucket_name_lem :
    (E : Env) (key : Text) (ob : ObjectBucket)
    → ((set_object_bucket_name E ob key).spec.connection ≡ ob.spec.connection)
      × ((n : Text)
          → object_bucket_name_from_claim_key E key ≡ done n
          → (set_object_bucket_name E ob key).meta.name ≡ n)
unfolding set_object_bucket_name
set_object_bucket_name_lem E key ob = renamed_lem ob (object_bucket_name_from_claim_key E key)

pub completed_bucket-BucketOf :
    (E : Env) (c : Controller) (key : Text) (obc : ObjectBucketClaim) (class : StorageClass)
    (ob : ObjectBucket)
    → BucketOf E key obc ob (completed_bucket E c key obc class ob)
unfolding completed_bucket add_labels add_finalizers
completed_bucket-BucketOf E c key obc class ob =
    let named = set_object_bucket_name_lem E key ob in
    (
      named.0,
      refl,
      add_finalizers-contains
          (add_labels (set_object_bucket_name E ob key).meta c.provisioner_labels),
      named.1,
    )
