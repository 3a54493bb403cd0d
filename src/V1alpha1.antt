-- ===== src/V1alpha1.antt =====
-- pkg/apis/objectbucket.io/v1alpha1: the API types of objectbucket_types.go and
-- objectbucketclaim_types.go, with the Kubernetes types that they embed. Every Go string is a
-- `Text`, a pointer that may be nil is an `Option`. Of the Kubernetes metadata the fields that the
-- program reads or writes are kept. The copies of zz_generated.deepcopy.go are in the child
-- DeepCopy; the list types are in Lists.
pub mod Phase
pub mod Lists
pub mod DeepCopy
use lib_bucket_provisioner.Base.{ℕ, Text, codes, StringMap, Bool, Option, none, some, List, [], ◌∷◌}

-- A Go `int`; `negsuc n` is -(n + 1).
pub data ℤ : Type 0 where
  pos : ℕ → ℤ
  negsuc : ℕ → ℤ

pub record TypeMeta : Type 0 where
  pub kind : Text
  pub api_version : Text

pub record OwnerReference : Type 0 where
  pub api_version : Text
  pub kind : Text
  pub name : Text
  pub uid : Text
  pub controller : Option Bool
  pub block_owner_deletion : Option Bool

pub record ObjectMeta : Type 0 where
  pub name : Text
  pub namespace : Text
  pub uid : Text
  pub resource_version : Text
  pub deletion_timestamp : Option Text
  pub labels : StringMap
  pub finalizers : List Text
  pub owner_references : List OwnerReference

pub record ObjectReference : Type 0 where
  pub kind : Text
  pub namespace : Text
  pub name : Text
  pub uid : Text
  pub api_version : Text
  pub resource_version : Text
  pub field_path : Text

-- objectbucketclaim_types.go
pub record ObjectBucketClaimSpec : Type 0 where
  pub storage_class_name : Text
  pub bucket_name : Text
  pub generate_bucket_name : Text
  pub additional_config : StringMap
  pub object_bucket_name : Text

pub record ObjectBucketClaimStatus : Type 0 where
  pub phase : Text

pub record ObjectBucketClaim : Type 0 where
  pub type_meta : TypeMeta
  pub meta : ObjectMeta
  pub spec : ObjectBucketClaimSpec
  pub status : ObjectBucketClaimStatus

-- objectbucket_types.go
pub record AccessKeys : Type 0 where
  pub access_key_id : Text
  pub secret_access_key : Text

pub record Authentication : Type 0 where
  pub access_keys : Option AccessKeys
  pub additional_secret_data : StringMap

pub record Endpoint : Type 0 where
  pub bucket_host : Text
  pub bucket_port : ℤ
  pub bucket_name : Text
  pub region : Text
  pub sub_region : Text
  pub additional_config_data : StringMap

pub record Connection : Type 0 where
  pub endpoint : Option Endpoint
  pub authentication : Option Authentication
  pub additional_state : StringMap

-- The embedded `*Connection` is the last field.
pub record ObjectBucketSpec : Type 0 where
  pub storage_class_name : Text
  pub reclaim_policy : Option Text
  pub claim_ref : Option ObjectReference
  pub connection : Option Connection

pub record ObjectBucketStatus : Type 0 where
  pub phase : Text

pub record ObjectBucket : Type 0 where
  pub type_meta : TypeMeta
  pub meta : ObjectMeta
  pub spec : ObjectBucketSpec
  pub status : ObjectBucketStatus

-- corev1.Secret with its StringData, corev1.ConfigMap with its Data.
pub record Secret : Type 0 where
  pub meta : ObjectMeta
  pub string_data : StringMap

pub record ConfigMap : Type 0 where
  pub meta : ObjectMeta
  pub config_data : StringMap

pub record StorageClass : Type 0 where
  pub name : Text
  pub provisioner : Text
  pub parameters : StringMap
  pub reclaim_policy : Option Text

-- The constants of the two files, and of register.go and ../register.go.
abbrev pub object_bucket_claim_kind : Text
object_bucket_claim_kind = codes "ObjectBucketClaim"

-- SchemeGroupVersion.String()
abbrev pub scheme_group_version : Text
scheme_group_version = codes "objectbucket.io/v1alpha1"

abbrev pub aws_key_field : Text
aws_key_field = codes "AWS_ACCESS_KEY_ID"

abbrev pub aws_secret_field : Text
aws_secret_field = codes "AWS_SECRET_ACCESS_KEY"

abbrev pub storage_class_bucket : Text
storage_class_bucket = codes "bucketName"

-- (*AccessKeys).toMap
unfoldable pub access_keys_to_map : AccessKeys → StringMap
access_keys_to_map ak =
    some ((aws_key_field, ak.access_key_id) ∷ (aws_secret_field, ak.secret_access_key) ∷ [])

access_keys_map : Option AccessKeys → StringMap
unfolding access_keys_to_map
access_keys_map (some ak) = access_keys_to_map ak
access_keys_map none = some []

-- (*Authentication).ToMap
unfoldable pub to_map : Option Authentication → StringMap
unfolding access_keys_map
to_map none = some []
to_map (some a) = access_keys_map a.access_keys

-- The zero value `v1alpha1.ObjectBucket{}`.
abbrev pub empty_meta : ObjectMeta
empty_meta = record {
  name = [];
  namespace = [];
  uid = [];
  resource_version = [];
  deletion_timestamp = none;
  labels = none;
  finalizers = [];
  owner_references = [];
}

abbrev pub empty_bucket : ObjectBucket
empty_bucket = record {
  type_meta = record { kind = []; api_version = [] };
  meta = empty_meta;
  spec = record {
    storage_class_name = [];
    reclaim_policy = none;
    claim_ref = none;
    connection = none;
  };
  status = record { phase = [] };
}

-- `v1alpha1.ObjectBucketClaim{}`
abbrev pub empty_claim : ObjectBucketClaim
empty_claim = record {
  type_meta = record { kind = []; api_version = [] };
  meta = empty_meta;
  spec = record {
    storage_class_name = [];
    bucket_name = [];
    generate_bucket_name = [];
    additional_config = none;
    object_bucket_name = [];
  };
  status = record { phase = [] };
}
