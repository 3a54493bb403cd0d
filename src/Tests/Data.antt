-- ===== src/Tests/Data.antt =====
-- An environment that answers every call, its objects, and a controller.
use lib_bucket_provisioner.Base.{codes, Text, Option, List, none, some, [], ◌∷◌, false}
use lib_bucket_provisioner.V1alpha1.{
  ObjectMeta, ObjectBucketClaim, ObjectBucket, Secret, ConfigMap, StorageClass, Endpoint,
  Connection, AccessKeys, Authentication, pos, empty_meta, empty_bucket,
}
use lib_bucket_provisioner.Cluster.Error.{done, failed, not_found}
use lib_bucket_provisioner.Cluster.Event.{Item, key}
use lib_bucket_provisioner.Cluster.Env.{Env}
use lib_bucket_provisioner.Helpers.Metadata.{finalizer}
use lib_bucket_provisioner.Controller.Resources.{Controller}

abbrev pub ns : Text
ns = codes "apps"

abbrev pub claim_name : Text
claim_name = codes "photos"

abbrev pub claim_key : Text
claim_key = codes "apps/photos"

abbrev pub named_meta : Text → ObjectMeta
named_meta name = record empty_meta { name = name; namespace = ns; uid = codes "1" }

abbrev pub new_claim : ObjectBucketClaim
new_claim = record {
  type_meta = record { kind = codes "ObjectBucketClaim"; api_version = [] };
  meta = record (named_meta claim_name) { resource_version = codes "7" };
  spec = record {
    storage_class_name = codes "fast";
    bucket_name = [];
    generate_bucket_name = codes "photo";
    additional_config = some ((codes "maxSize", codes "2G") ∷ []);
    object_bucket_name = [];
  };
  status = record { phase = [] };
}

abbrev pub deleted_claim : ObjectBucketClaim
deleted_claim = record new_claim {
  meta = record new_claim.meta {
    resource_version = codes "8";
    deletion_timestamp = some (codes "now");
    finalizers = finalizer ∷ [];
  };
}

abbrev pub endpoint : Endpoint
endpoint = record {
  bucket_host = codes "s3.local";
  bucket_port = pos 443;
  bucket_name = codes "photo-1";
  region = [];
  sub_region = [];
  additional_config_data = some ((codes "tls", codes "on") ∷ []);
}

abbrev pub keys : AccessKeys
keys = record { access_key_id = codes "id"; secret_access_key = codes "key" }

abbrev pub authentication : Authentication
authentication = record { access_keys = some keys; additional_secret_data = none }

abbrev pub connection : Connection
connection = record {
  endpoint = some endpoint;
  authentication = some authentication;
  additional_state = some ((codes "a", codes "1") ∷ (codes "b", codes "2") ∷ []);
}

abbrev pub bucket : ObjectBucket
bucket = record empty_bucket {
  meta = record (named_meta (codes "obc-apps-photos")) { namespace = [] };
  spec = record {
    storage_class_name = codes "fast";
    reclaim_policy = some (codes "Delete");
    claim_ref = none;
    connection = some connection;
  };
}

abbrev pub class : StorageClass
class = record {
  name = codes "fast";
  provisioner = codes "s3";
  parameters = none;
  reclaim_policy = some (codes "Delete");
}

abbrev pub secret : Secret
secret = record { meta = named_meta claim_name; string_data = none }

abbrev pub config_map : ConfigMap
config_map = record { meta = named_meta claim_name; config_data = none }

-- Every call succeeds, and the claim that is read is this one; the queue gives these items.
abbrev pub cluster_over : (S : Type 0) → (S → Option Item × S) → ObjectBucketClaim → Env
cluster_over S next claim = record {
  State = S;
  get_claim = λ ns name s. (done claim, s);
  update_claim = λ obc s. (done obc, s);
  update_claim_status = λ obc s. (done obc, s);
  get_bucket = λ name s. (done bucket, s);
  create_bucket = λ ob s. (done ob, s);
  update_bucket = λ ob s. (done ob, s);
  update_bucket_status = λ ob s. (done ob, s);
  delete_bucket = λ name s. (done tt, s);
  get_secret = λ ns name s. (done secret, s);
  create_secret = λ sec s. (done sec, s);
  update_secret = λ sec s. (done sec, s);
  get_config_map = λ ns name s. (done config_map, s);
  create_config_map = λ cm s. (done cm, s);
  update_config_map = λ cm s. (done cm, s);
  get_storage_class = λ name s. (done class, s);
  generate_user_id = λ obc ob s. (done (codes "user"), s);
  provision = λ o s. (done (some bucket), s);
  grant = λ o s. (done (some bucket), s);
  remove = λ ob s. (done tt, s);
  revoke = λ ob s. (done tt, s);
  new_uuid = λ s. (codes "123e4567-e89b-12d3-a456-426614174000", s);
  next_item = next;
  split_key = λ k. done (ns, claim_name);
  meta_namespace_key = λ m. done claim_key;
  status_result_nil = false;
  semantic_equal = λ a b. false;
}

abbrev pub cluster_with : ObjectBucketClaim → Env
cluster_with claim = cluster_over Unit (λ s. (some (key claim_key), s)) claim

-- A queue that gives these items and is shut down.
abbrev pub shift : List Item → Option Item × List Item
shift [] = (none, [])
shift (item ∷ items) = (some item, items)

-- The claim has vanished.
abbrev pub vanished_cluster : Env
vanished_cluster = record (cluster_over (List Item) shift new_claim) {
  get_claim = λ ns name s. (failed not_found, s);
}

-- The same without an object bucket yet.
abbrev pub empty_cluster : Env
empty_cluster = record (cluster_with new_claim) { get_bucket = λ name s. (failed not_found, s) }

-- An object bucket that came back without a connection.
abbrev pub unconnected_cluster : Env
unconnected_cluster = record (cluster_with new_claim) {
  get_bucket =
      λ name s. (done (record bucket { spec = record bucket.spec { connection = none } }), s);
}

abbrev pub full_cluster : Env
full_cluster = cluster_with deleted_claim

abbrev pub s3_controller : Controller
s3_controller = record {
  provisioner_labels = some ((codes "bucket-provisioner", codes "s3") ∷ []);
  provisioner_name = codes "s3";
}
