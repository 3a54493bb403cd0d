-- ===== src/V1alpha1/Lists.antt =====
-- The list types of objectbucket_types.go and objectbucketclaim_types.go. A Go slice may be nil.
use lib_bucket_provisioner.Base.{ℕ, Text, Option, none, List, []}
use lib_bucket_provisioner.V1alpha1.{TypeMeta, ObjectBucket, ObjectBucketClaim}

pub record ListMeta : Type 0 where
  pub self_link : Text
  pub resource_version : Text
  pub continue_token : Text
  pub remaining_item_count : Option ℕ

pub record ObjectBucketList : Type 0 where
  pub type_meta : TypeMeta
  pub meta : ListMeta
  pub items : Option (List ObjectBucket)

pub record ObjectBucketClaimList : Type 0 where
  pub type_meta : TypeMeta
  pub meta : ListMeta
  pub items : Option (List ObjectBucketClaim)

-- The zero values.
abbrev pub empty_list_meta : ListMeta
empty_list_meta = record {
  self_link = [];
  resource_version = [];
  continue_token = [];
  remaining_item_count = none;
}

abbrev pub empty_bucket_list : ObjectBucketList
empty_bucket_list = record {
  type_meta = record { kind = []; api_version = [] };
  meta = empty_list_meta;
  items = none;
}

abbrev pub empty_claim_list : ObjectBucketClaimList
empty_claim_list = record {
  type_meta = record { kind = []; api_version = [] };
  meta = empty_list_meta;
  items = none;
}
