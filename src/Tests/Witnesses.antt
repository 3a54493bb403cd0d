-- ===== src/Tests/Witnesses.antt =====
-- Each theorem with hypotheses or arguments, at a concrete input.
use lib_bucket_provisioner.Base.{
  none, Text, codes, ◌==◌, length, deep_equal, is_none, not, ◌&&◌, ◌||◌, if◌then◌else◌, leb, ◌≤◌,
  arith, some, List, [], ◌∷◌, ◌++◌, ◌≡◌, refl,
}
use lib_bucket_provisioner.Cluster.Error.{Error, not_found, other}
use lib_bucket_provisioner.Cluster.Monad.{
  pure, raise, lift, call, attempt, map_error, deref, crash, ◌>>=◌,
}
use lib_bucket_provisioner.Cluster.Ordered.{Any, Safe}
use lib_bucket_provisioner.Helpers.Metadata.{finalizer, contains, add_finalizers, remove_finalizer}
use lib_bucket_provisioner.Helpers.Metadata.Laws.{remove_finalizer-add_finalizers}
use lib_bucket_provisioner.Helpers.Names.{
  object_bucket_name, object_bucket_name_from_claim_key, generated_name, label_value, max_name_len,
  label_value_max_length,
}
use lib_bucket_provisioner.Helpers.Names.Laws.{
  length-generated_name-le, length-label_value-le, object_bucket_name-collides,
}
use lib_bucket_provisioner.Manager as manager
use lib_bucket_provisioner.Manager.{set_labels-accepts_all}
use lib_bucket_provisioner.Controller.Resources as controller
use lib_bucket_provisioner.Controller.Resources.{trim_not_found, supported_provisioner}
use lib_bucket_provisioner.Controller.Resources.Laws.{others, trim_not_found-others}
use lib_bucket_provisioner.Controller.Provision.Order.{ProvisionGuard}
use lib_bucket_provisioner.Controller.Provision.Saving.{BindGuard}
use lib_bucket_provisioner.Controller.Delete.{handle_delete_claim, delete_resources}
use lib_bucket_provisioner.Controller.Delete.Release.{ClaimAsked, delete_resources-ClaimAsked}
use lib_bucket_provisioner.Controller.Delete.Guard.{DeleteGuard}
use lib_bucket_provisioner.Controller.Delete.Order.{handle_delete_claim-Safe}
use lib_bucket_provisioner.Controller.Sync.{
  sync_handler, sync_found, dispatch_claim, provision_claim, mark_pending,
}
use lib_bucket_provisioner.Controller.Panic.{NilPointer}
use lib_bucket_provisioner.Controller.Panic.Whole.{sync_handler-panic}
use lib_bucket_provisioner.Controller.Provision.{handle_provision_claim, set_obc_meta_fields}
use lib_bucket_provisioner.Helpers.Lookups.{claim_for_key, storage_class_for_claim}
use lib_bucket_provisioner.Handlers.Update.{
  store_claim, update_object_bucket_claim_phase, get_ob_from_key, found_bucket,
  err_if_obc_config_has_been_modified,
}
use lib_bucket_provisioner.Controller.Sync.Order.{fresh}
use lib_bucket_provisioner.Controller.Sync.Deletion.{DeletionGuard, sync_handler-DeletionGuard}
use lib_bucket_provisioner.Controller.Safety.{
  SupportedGuard, sync_handler-ProvisionGuard, sync_handler-BindGuard, sync_handler-SupportedGuard,
}
use lib_bucket_provisioner.Controller.Watch.{queues_update, update_supported}
use lib_bucket_provisioner.Controller.Watch.Laws.{
  same_but_config, queues_update_lem, update_supported_lem,
}
use lib_bucket_provisioner.Tests.Data.{
  ns, claim_name, claim_key, new_claim, deleted_claim, bucket, empty_cluster, unconnected_cluster,
  full_cluster, s3_controller,
}

-- The controller: order of calls
sync_handler-ProvisionGuard_example :
    Safe ProvisionGuard
      (sync_handler {E = empty_cluster} s3_controller claim_key (fresh tt)).1.trace
sync_handler-ProvisionGuard_example =
    sync_handler-ProvisionGuard empty_cluster s3_controller claim_key tt

sync_handler-BindGuard_example :
    Safe BindGuard (sync_handler {E = empty_cluster} s3_controller claim_key (fresh tt)).1.trace
sync_handler-BindGuard_example = sync_handler-BindGuard empty_cluster s3_controller claim_key tt

sync_handler-SupportedGuard_example :
    Safe
      (SupportedGuard s3_controller)
      (sync_handler {E = empty_cluster} s3_controller claim_key (fresh tt)).1.trace
sync_handler-SupportedGuard_example =
    sync_handler-SupportedGuard empty_cluster s3_controller claim_key tt

sync_handler-DeletionGuard_example :
    Safe DeletionGuard (sync_handler {E = full_cluster} s3_controller claim_key (fresh tt)).1.trace
sync_handler-DeletionGuard_example =
    sync_handler-DeletionGuard full_cluster s3_controller claim_key tt

sync_handler-panic_example :
    Any
      (NilPointer unconnected_cluster)
      (sync_handler {E = unconnected_cluster} s3_controller claim_key (fresh tt)).1.trace
unfolding sync_handler claim_for_key sync_found storage_class_for_claim dispatch_claim
    supported_provisioner provision_claim mark_pending update_object_bucket_claim_phase
    handle_provision_claim set_obc_meta_fields store_claim get_ob_from_key found_bucket
    object_bucket_name_from_claim_key err_if_obc_config_has_been_modified pure raise lift call
    attempt map_error deref crash ◌>>=◌ ◌==◌
sync_handler-panic_example = sync_handler-panic unconnected_cluster s3_controller claim_key tt refl

delete_resources-ClaimAsked_example :
    Any
      (ClaimAsked deleted_claim)
      (delete_resources {E = full_cluster}
        (some bucket)
        none
        none
        (some deleted_claim)
        (fresh tt)).1.trace
delete_resources-ClaimAsked_example =
    delete_resources-ClaimAsked full_cluster (some bucket) none none deleted_claim (fresh tt)

handle_delete_claim-Safe_example :
    Safe DeleteGuard
      (handle_delete_claim {E = full_cluster} claim_key deleted_claim (fresh tt)).1.trace
handle_delete_claim-Safe_example =
    handle_delete_claim-Safe claim_key ns claim_name deleted_claim refl (fresh tt) tt

-- The controller: pure parts
abbrev errors : List Error
errors = not_found ∷ other (codes "timeout") ∷ not_found ∷ []

trim_not_found-others_example : trim_not_found (length errors) errors ≡ others errors
trim_not_found-others_example = trim_not_found-others errors

update_supported_lem_example : update_supported new_claim deleted_claim ≡ (
    not (is_none deleted_claim.meta.deletion_timestamp)
    || (same_but_config new_claim.spec deleted_claim.spec
        && not (deep_equal deleted_claim.spec.additional_config new_claim.spec.additional_config)))
update_supported_lem_example = update_supported_lem new_claim deleted_claim

queues_update_lem_example : queues_update new_claim deleted_claim ≡ (
    not (deleted_claim.meta.resource_version == new_claim.meta.resource_version)
    && (if is_none deleted_claim.meta.deletion_timestamp
        then same_but_config new_claim.spec deleted_claim.spec
          && not (deep_equal deleted_claim.spec.additional_config new_claim.spec.additional_config)
        else is_none new_claim.meta.deletion_timestamp))
queues_update_lem_example = queues_update_lem new_claim deleted_claim

-- Metadata
remove_finalizer-add_finalizers_example :
    remove_finalizer (add_finalizers new_claim.meta (finalizer ∷ [])) ≡ new_claim.meta
unfolding contains
remove_finalizer-add_finalizers_example = remove_finalizer-add_finalizers new_claim.meta refl

-- Names and labels
abbrev uuid : Text
uuid = codes "123e4567-e89b-12d3-a456-426614174000"

length-generated_name-le_example : length (generated_name (codes "photo") uuid) ≤ max_name_len
length-generated_name-le_example = length-generated_name-le (codes "photo") uuid refl

abbrev is_valid : Text → List Text
is_valid v = if leb (length v) 63 then [] else codes "too long" ∷ []

is_valid-bounded : (v : Text) → is_valid v ≡ [] → length v ≤ label_value_max_length
is_valid-bounded v h = ground arith

length-label_value-le_example :
    length (label_value is_valid (codes "ceph.rook.io/bucket")) ≤ label_value_max_length
length-label_value-le_example =
    length-label_value-le is_valid is_valid-bounded (codes "ceph.rook.io/bucket")

object_bucket_name-collides_example :
    object_bucket_name (codes "a" ++ (codes "-" ++ codes "b")) (codes "c")
    ≡ object_bucket_name (codes "a") (codes "b" ++ (codes "-" ++ codes "c"))
object_bucket_name-collides_example =
    object_bucket_name-collides (codes "a") (codes "b") (codes "c")

-- The manager
set_labels-accepts_all_example :
    manager.set_labels is_valid s3_controller (some ((codes "app", codes "s3") ∷ []))
    ≡ ([], controller.set_labels s3_controller (some ((codes "app", codes "s3") ∷ [])))
set_labels-accepts_all_example =
    set_labels-accepts_all is_valid s3_controller (some ((codes "app", codes "s3") ∷ []))
