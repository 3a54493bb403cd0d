-- ===== src/Tests/Naming.antt =====
-- Two runs of syncHandler for a claim that the API server stores.
use lib_bucket_provisioner.Base.{index, ◌==◌, none, [], refl}
use lib_bucket_provisioner.V1alpha1.{ObjectBucketClaim}
use lib_bucket_provisioner.Cluster.Error.{done, failed, not_found}
use lib_bucket_provisioner.Cluster.Env.{Env}
use lib_bucket_provisioner.Cluster.Ordered.{Safe}
use lib_bucket_provisioner.Controller.Sync.Order.{fresh}
use lib_bucket_provisioner.Controller.Naming.{retried, stored, Faithful, AllFor}
use lib_bucket_provisioner.Controller.Naming.Whole.{retried-AllFor}
use lib_bucket_provisioner.Tests.Data.{claim_key, new_claim, cluster_over, s3_controller}
use lib_bucket_provisioner.Controller.Naming.{retried}
use lib_bucket_provisioner.Controller.Sync.{
  sync_handler, sync_found, dispatch_claim, provision_claim, mark_pending,
}
use lib_bucket_provisioner.Helpers.Lookups.{
  claim_for_key, storage_class_for_claim, is_new_bucket_by_storage_class, claim_ref_for_key,
}
use lib_bucket_provisioner.Controller.Resources.{supported_provisioner}
use lib_bucket_provisioner.Handlers.Update.{
  update_object_bucket_claim_phase, store_claim, get_ob_from_key, found_bucket,
  err_if_obc_config_has_been_modified,
}
use lib_bucket_provisioner.Controller.Provision.{
  handle_provision_claim, set_obc_meta_fields, with_meta_fields, choose_bucket_name,
  store_bucket_name, non_empty, run_provisioner, bucket_options, save_connection, save_bucket,
  bind_claim, completed_bucket, reclaim_policy_or,
}
use lib_bucket_provisioner.Helpers.Names.{
  object_bucket_name_from_claim_key, compose_bucket_name, generate_bucket_name,
}
use lib_bucket_provisioner.Cluster.Monad.{
  blame_result, reread, pure, raise, lift, call, ask, attempt, map_error, deref, crash, caught,
  continue, logged_last, log, deferring, ◌>>=◌,
}
use lib_bucket_provisioner.Cluster.Error.{is_not_found}
use lib_bucket_provisioner.Helpers.Ownership.{should_provision}
use lib_bucket_provisioner.V1alpha1.DeepCopy.{deep_copy_claim}
use lib_bucket_provisioner.Handlers.Create.{
  create_or_update_secret, secret_after_create, create_or_update_config_map,
  config_map_after_create, create_or_update_object_bucket, bucket_after_create,
}
use lib_bucket_provisioner.Handlers.Objects.{new_credentials_secret, new_bucket_config_map}
use lib_bucket_provisioner.Helpers.Metadata.{add_labels, add_finalizers}
use lib_bucket_provisioner.Controller.Naming.{retried}

-- Every call succeeds, and the API server keeps one claim.
abbrev keeping_cluster : Env
keeping_cluster = record (cluster_over ObjectBucketClaim (λ s. (none, s)) new_claim) {
  get_claim = λ ns name s. (done s, s);
  get_bucket = λ name s. (failed not_found, s);
  update_claim = λ obc s. (done obc, obc);
  update_claim_status = λ obc s. (done obc, obc);
}

-- The second run finds the name that the first has made and stored.
keeping_cluster-Faithful :
    Safe
      (Faithful [])
      (retried {E = keeping_cluster} 2 s3_controller claim_key (fresh new_claim)).trace
unfolding blame_result reread retried sync_handler claim_for_key sync_found storage_class_for_claim
    dispatch_claim supported_provisioner provision_claim mark_pending
    update_object_bucket_claim_phase handle_provision_claim set_obc_meta_fields store_claim
    get_ob_from_key found_bucket object_bucket_name_from_claim_key
    err_if_obc_config_has_been_modified pure raise lift call ask attempt map_error deref crash
    caught continue logged_last log deferring ◌>>=◌ ◌==◌ with_meta_fields choose_bucket_name
    store_bucket_name non_empty run_provisioner bucket_options save_connection save_bucket
    bind_claim completed_bucket reclaim_policy_or is_not_found should_provision
    is_new_bucket_by_storage_class compose_bucket_name generate_bucket_name index deep_copy_claim
    create_or_update_secret new_credentials_secret secret_after_create create_or_update_config_map
    new_bucket_config_map config_map_after_create claim_ref_for_key create_or_update_object_bucket
    bucket_after_create add_labels add_finalizers
keeping_cluster-Faithful = (
  refl,
  (
    refl,
    (
      tt,
      (
        tt,
        (
          (refl, refl),
          (
            tt,
            (
              tt,
              (
                tt,
                (
                  tt,
                  (
                    tt,
                    (
                      refl,
                      (
                        refl,
                        (
                          (refl, refl),
                          (
                            refl,
                            (
                              refl,
                              (
                                tt,
                                (
                                  tt,
                                  (
                                    (refl, refl),
                                    (
                                      tt,
                                      (
                                        tt,
                                        (
                                          tt,
                                          (
                                            tt,
                                            (
                                              refl,
                                              (
                                                tt,
                                                (tt, (refl, (refl, (refl, ((refl, refl), tt))))),
                                              ),
                                            ),
                                          ),
                                        ),
                                      ),
                                    ),
                                  ),
                                ),
                              ),
                            ),
                          ),
                        ),
                      ),
                    ),
                  ),
                ),
              ),
            ),
          ),
        ),
      ),
    ),
  ),
)

retried-AllFor_example :
    let t = (retried {E = keeping_cluster} 2 s3_controller claim_key (fresh new_claim)).trace in
    AllFor (stored [] t) t
retried-AllFor_example =
    retried-AllFor keeping_cluster s3_controller claim_key [] 2 new_claim keeping_cluster-Faithful
