-- ===== src/Tests/Worker.antt =====
-- The theorems on a worker's life and on syncHandler as a whole, at concrete inputs.
use lib_bucket_provisioner.Base.{codes, List, [], ◌∷◌, ◌++◌, ◌≡◌, refl, arith}
use lib_bucket_provisioner.V1alpha1.{ObjectBucketClaim}
use lib_bucket_provisioner.Cluster.Error.{Reply, done, not_found, already_exists, is_not_found}
use lib_bucket_provisioner.Cluster.Event.{key, invalid, forgotten, finished, claim_got}
use lib_bucket_provisioner.Cluster.Env.{Env}
use lib_bucket_provisioner.Cluster.Monad.{
  World, ok, attempt, caught, continue, deferring, logged_last, log, lift, call, pure, ◌>>=◌,
}
use lib_bucket_provisioner.Cluster.Ordered.{Safe}
use lib_bucket_provisioner.Helpers.Lookups.{claim_for_key}
use lib_bucket_provisioner.Controller.Provision.Unmodified.{UnmodifiedGuard}
use lib_bucket_provisioner.Controller.Provision.{handle_provision_claim}
use lib_bucket_provisioner.Controller.Provision.Delivery.{DeliveryGuard}
use lib_bucket_provisioner.Controller.Provision.Delivery.Whole.{
  handle_provision_claim-DeliveryGuard,
}
use lib_bucket_provisioner.Controller.Safety.{sync_handler-UnmodifiedGuard}
use lib_bucket_provisioner.Controller.Sync.{sync_handler, sync_found}
use lib_bucket_provisioner.Controller.Sync.Order.{fresh}
use lib_bucket_provisioner.Controller.Queue.{process_item, settle, run_worker}
use lib_bucket_provisioner.Controller.Queue.Worker.{
  Served, Works, shut_down, serve, queue_events, journal, run_worker-Ends, queue_events-journal,
}
use lib_bucket_provisioner.Tests.Data.{
  class, ns, claim_name, claim_key, new_claim, cluster_with, vanished_cluster, s3_controller,
}

-- A queue of a key whose claim has vanished and an item that is no key.
abbrev before : World vanished_cluster
before = record { state = key claim_key ∷ invalid ∷ []; trace = [] }

abbrev between : World vanished_cluster
between = record {
  state = invalid ∷ [];
  trace =
      finished (key claim_key)
      ∷ forgotten (key claim_key)
      ∷ claim_got ns claim_name (Reply.failed not_found)
      ∷ [];
}

abbrev after : World vanished_cluster
after = record {
  state = [];
  trace =
      finished invalid
      ∷ forgotten invalid
      ∷ finished (key claim_key)
      ∷ forgotten (key claim_key)
      ∷ claim_got ns claim_name (Reply.failed not_found)
      ∷ [];
}

abbrev both : List Served
both = (key claim_key, done tt) ∷ (invalid, done tt) ∷ []

vanished-Served :
    attempt
      (process_item {E = vanished_cluster} s3_controller (key claim_key))
      (record before { state = invalid ∷ [] })
    ≡ (ok (done tt), between)
unfolding attempt process_item deferring caught logged_last log sync_handler sync_found
    claim_for_key lift call is_not_found settle pure ◌>>=◌ continue
vanished-Served = refl

invalid-Served :
    attempt
      (process_item {E = vanished_cluster} s3_controller invalid)
      (record between { state = [] })
    ≡ (ok (done tt), after)
unfolding attempt process_item deferring caught logged_last log
invalid-Served = refl

life : Works s3_controller before both after
life = serve refl vanished-Served (serve refl invalid-Served (shut_down refl))

run_worker-Ends_example : run_worker {E = vanished_cluster} 3 s3_controller before ≡ (ok tt, after)
run_worker-Ends_example = run_worker-Ends s3_controller 3 before after both life (omega arith)

queue_events-journal_example : queue_events after.trace ≡ journal both ++ queue_events before.trace
queue_events-journal_example = queue_events-journal s3_controller before after both life

-- A later try: the object bucket, the secret and the config map are there.
abbrev bucket_claim : ObjectBucketClaim
bucket_claim = record new_claim { spec = record new_claim.spec { bucket_name = codes "photo-1" } }

abbrev retry_cluster : Env
retry_cluster = record (cluster_with bucket_claim) {
  create_bucket = λ ob s. (Reply.failed already_exists, s);
  create_secret = λ sec s. (Reply.failed already_exists, s);
  create_config_map = λ cm s. (Reply.failed already_exists, s);
}

sync_handler-UnmodifiedGuard_example :
    Safe
      (UnmodifiedGuard retry_cluster claim_key)
      (sync_handler {E = retry_cluster} s3_controller claim_key (fresh tt)).1.trace
sync_handler-UnmodifiedGuard_example =
    sync_handler-UnmodifiedGuard retry_cluster s3_controller claim_key tt

handle_provision_claim-DeliveryGuard_example :
    Safe
      (DeliveryGuard retry_cluster claim_key)
      (handle_provision_claim {E = retry_cluster} s3_controller claim_key bucket_claim class
        (fresh tt)).1.trace
handle_provision_claim-DeliveryGuard_example =
    handle_provision_claim-DeliveryGuard retry_cluster claim_key s3_controller bucket_claim class
      (fresh tt) tt
