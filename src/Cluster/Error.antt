-- ===== src/Cluster/Error.antt =====
-- Go errors as the controller sees them. It tells apart only what `errors.IsNotFound` and
-- `errors.IsAlreadyExists` of apimachinery report; an error made by `fmt.Errorf` with `%v` keeps
-- only the text of its cause, so it is neither.
use lib_bucket_provisioner.Base.{Text, Bool, true, false}

-- The messages of the `fmt.Errorf` calls.
pub data Message : Type 0 where
  config_map_nil_endpoint config_map_nil_claim : Message
  secret_nil_claim secret_nil_authentication : Message
  bucket_get_current bucket_update bucket_create : Message
  secret_update config_map_update : Message
  claim_get_for_release claim_update_for_release : Message
  bucket_delete : Message
  claim_update claim_phase_update bucket_phase_update : Message
  bucket_name_from_key bucket_get : Message
  bucket_name_changed storage_class_changed : Message
  no_bucket_name_given : Message
  class_nil_claim class_claim_undefined class_nil_bucket class_bucket_undefined class_get : Message
  sync_claim sync_status : Message
  claim_metadata claim_find_bucket compose_name bucket_name_missing claim_store_name : Message
  user_id provisioning empty_object_bucket : Message
  creating_secret creating_config_map claim_reference : Message
  creating_bucket bucket_status claim_final claim_bound : Message
  getting_resources deleting_bucket revoking_access : Message
  syncing : Message
  unsynced_caches burst_required : Message

pub data Error : Type 0 where
  not_found already_exists : Error
  -- any other error of a call
  other : Text → Error
  -- `fmt.Errorf` without a cause
  failure : Message → Error
  -- `fmt.Errorf` with the text of a cause
  wrapped : Message → Error → Error

unfoldable pub is_not_found : Error → Bool
is_not_found not_found = true
is_not_found _ = false

unfoldable pub is_already_exists : Error → Bool
is_already_exists already_exists = true
is_already_exists _ = false

-- What a call outside answers.
pub data Reply (A : Type 0) : Type 0 where
  done : A → Reply A
  failed : Error → Reply A
