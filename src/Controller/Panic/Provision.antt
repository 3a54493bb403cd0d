-- ===== src/Controller/Panic/Provision.antt =====
-- The panics of handleProvisionClaim.
use lib_bucket_provisioner.Cluster.Calls.{update_bucket_status}
use lib_bucket_provisioner.Base.{true, Text, Option, none, some, ◌≡◌, inl}
use lib_bucket_provisioner.V1alpha1.{ObjectBucketClaim, ObjectBucket, StorageClass, empty_bucket}
use lib_bucket_provisioner.Cluster.Error.{Message, failure, empty_object_bucket}
use lib_bucket_provisioner.Cluster.Event.{bucket_status_updated, provisioned, granted}
use lib_bucket_provisioner.Cluster.Env.{Env}
use lib_bucket_provisioner.Cluster.Monad.{blame_result, World, raise}
use lib_bucket_provisioner.Cluster.Triple.{
  Triple-weaken, Triple-blame_result, Ending, error, crash, Triple-bind, Triple-call,
  Triple-map_error, Triple-if, Triple-pure, Triple-raise, Triple-deref,
}
use lib_bucket_provisioner.Cluster.Calm.{Calm-map_error, Calm, calm, OnCrash, Anyhow, Calm-Triple}
use lib_bucket_provisioner.Cluster.Ordered.{Any, Any-map}
use lib_bucket_provisioner.Helpers.Lookups.{
  claim_for_key, claim_ref_for_key, is_new_bucket_by_storage_class,
}
use lib_bucket_provisioner.Helpers.Names.{compose_bucket_name, generate_bucket_name}
use lib_bucket_provisioner.Handlers.Calm as handlers
use lib_bucket_provisioner.Handlers.Update.{store_claim, update_object_bucket_claim_phase}
use lib_bucket_provisioner.Controller.Resources.{Controller}
use lib_bucket_provisioner.Controller.Provision.{
  set_obc_meta_fields, choose_bucket_name, store_bucket_name, non_empty, run_provisioner,
  save_connection, save_bucket, bind_claim, handle_provision_claim, bucket_options,
}
use lib_bucket_provisioner.Controller.Panic.{
  NilPointer, Explained, BucketRead, Given, Given-NilPointer, From, GivenIn, given-provisioned,
  given-granted, get_ob_from_key-From, err_if_modified-Explained,
}

module _ {E : Env} where
  choose_bucket_name-Calm :
      (class : StorageClass) (obc : ObjectBucketClaim) → Calm (choose_bucket_name {E = E} class obc)
  unfolding choose_bucket_name compose_bucket_name generate_bucket_name
  choose_bucket_name-Calm class obc = search calm depth 9

  store_bucket_name-Calm :
      (obc : ObjectBucketClaim) (name : Text) → Calm (store_bucket_name {E = E} obc name)
  unfolding store_bucket_name store_claim
  store_bucket_name-Calm obc name = search calm

  -- How a status update has ended.
  abbrev StatusUpdated : Ending → World E → Type 0
  StatusUpdated error w = (E.status_result_nil ≡ true) → Any (NilPointer E) w.trace
  StatusUpdated crash w = Any (NilPointer E) w.trace

  StatusUpdated-OnCrash :
      (x : Ending) (w : World E) → StatusUpdated x w → OnCrash (Any (NilPointer E)) x w
  StatusUpdated-OnCrash error w h = tt
  StatusUpdated-OnCrash crash w h = h

  status_result-Explained :
      (msg : Message) (sent : ObjectBucket)
      → Explained {E = E}
          (Anyhow tt)
          (blame_result E.status_result_nil msg (update_bucket_status sent))
          Anyhow
  status_result-Explained msg sent =
      Triple-weaken {R' = StatusUpdated}
        (Triple-blame_result E.status_result_nil msg (λ w n h. h n)
          (Triple-call _ (bucket_status_updated sent) (λ w a s p e. tt) (λ w x s p e n. inl n)))
        (λ w p. p) (λ a w q. q) StatusUpdated-OnCrash

  save_bucket-Explained :
      (c : Controller) (key : Text) (obc : ObjectBucketClaim) (class : StorageClass)
      (ob : ObjectBucket)
      → Explained {E = E} (Anyhow tt) (save_bucket c key obc class ob) Anyhow
  unfolding save_bucket claim_ref_for_key claim_for_key
  save_bucket-Explained c key obc class ob =
      Triple-bind {Q' = Anyhow} (Calm-Triple _ (search calm depth 8)) λ ref.
        Triple-bind {Q' = Anyhow}
          (Calm-Triple _ (Calm-map_error _ (handlers.create_or_update_object_bucket-Calm _)))
          λ saved. status_result-Explained _ _

  bind_claim-Calm :
      (obc : ObjectBucketClaim) (ob : ObjectBucket) (name : Text)
      → Calm (bind_claim {E = E} obc ob name)
  unfolding bind_claim store_claim update_object_bucket_claim_phase
  bind_claim-Calm obc ob name = search calm depth 8

  set_obc_meta_fields-Calm :
      (c : Controller) (obc : ObjectBucketClaim) → Calm (set_obc_meta_fields {E = E} c obc)
  unfolding set_obc_meta_fields store_claim
  set_obc_meta_fields-Calm c obc = search calm

  non_empty-Given :
      (ob : Option ObjectBucket)
      → Explained {E = E} (λ w. GivenIn ob w.trace) (non_empty ob) (λ ob w. Any (Given ob) w.trace)
  unfolding non_empty
  non_empty-Given none = Triple-raise _ (λ w a. tt)
  non_empty-Given (some ob) =
      Triple-if (E.semantic_equal ob empty_bucket) {m = raise (failure empty_object_bucket)}
        (λ _. Triple-raise _ (λ w a. tt)) (λ _. Triple-pure _ (λ w a. a))

  run_provisioner-Given :
      (obc : ObjectBucketClaim) (ob : Option ObjectBucket) (class : StorageClass) (name : Text)
      → Explained {E = E}
          (Anyhow tt)
          (run_provisioner obc ob class name)
          (λ ob w. Any (Given ob) w.trace)
  unfolding run_provisioner bucket_options
  run_provisioner-Given obc ob class name =
      Triple-bind {Q' = Anyhow} (Calm-Triple _ (search calm)) λ id.
        Triple-bind {Q' = λ provided w. GivenIn provided w.trace}
          (Triple-map_error _ (
            Triple-if (is_new_bucket_by_storage_class class)
              (λ _.
                Triple-call _ (provisioned (bucket_options obc class name id))
                  (λ w a s k e. given-provisioned _ a w.trace) (λ w a s k e. tt))
              (λ _.
                Triple-call _ (granted (bucket_options obc class name id))
                  (λ w a s k e. given-granted _ a w.trace) (λ w a s k e. tt))))
          non_empty-Given

  save_connection-Explained :
      (c : Controller) (obc : ObjectBucketClaim) (ob : ObjectBucket)
      → Explained {E = E} (λ w. Any (Given ob) w.trace) (save_connection c obc ob) Anyhow
  unfolding save_connection
  save_connection-Explained c obc ob =
      Triple-bind {Q' = Anyhow}
        (Triple-deref ob.spec.connection (λ a w e p. tt)
          (λ w e p. Any-map w.trace (λ x. Given-NilPointer E ob x e) p))
        λ connection. Calm-Triple _ (
          search (
            calm, handlers.create_or_update_secret-Calm, handlers.create_or_update_config_map-Calm,
          ))

  pub handle_provision_claim-Explained :
      (c : Controller) (key : Text) (given : ObjectBucketClaim) (class : StorageClass)
      → Explained {E = E} (Anyhow tt) (handle_provision_claim c key given class) Anyhow
  unfolding handle_provision_claim
  handle_provision_claim-Explained c key given class =
      Triple-bind {Q' = Anyhow} (Calm-Triple _ (set_obc_meta_fields-Calm c given)) λ marked.
        Triple-bind {Q' = From BucketRead} (Triple-map_error _ (get_ob_from_key-From key)) λ ob.
          Triple-bind {Q' = Anyhow} (err_if_modified-Explained ob marked) λ _.
            Triple-bind {Q' = Anyhow} (Calm-Triple _ (choose_bucket_name-Calm class marked)) λ name.
              Triple-bind {Q' = Anyhow} (Calm-Triple _ (store_bucket_name-Calm marked name)) λ obc.
                Triple-bind {Q' = λ ob w. Any (Given ob) w.trace}
                  (run_provisioner-Given obc ob class name)
                  λ provided.
                    Triple-bind {Q' = Anyhow} (save_connection-Explained c obc provided) λ _.
                      Triple-bind {Q' = Anyhow} (save_bucket-Explained c key obc class provided)
                        λ saved. Calm-Triple _ (bind_claim-Calm obc saved name)
