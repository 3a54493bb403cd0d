-- ===== src/Controller/Emits/Whole.antt =====
-- All that handleProvisionClaim and handleDeleteClaim can log, on every branch.
use lib_bucket_provisioner.Base.{Text, Option, none, some}
use lib_bucket_provisioner.V1alpha1.{
  ObjectBucketClaim, ObjectBucket, StorageClass, ConfigMap, Secret,
}
use lib_bucket_provisioner.Cluster.Error.{Reply}
use lib_bucket_provisioner.Cluster.Event.{
  Event, BucketOptions, claim_got, claim_updated, claim_status_updated, bucket_got, bucket_created,
  bucket_updated, bucket_status_updated, bucket_deleted, secret_got, secret_created, secret_updated,
  config_map_got, config_map_created, config_map_updated, class_got, user_id_generated, provisioned,
  granted, removed, revoked, uuid_made,
}
use lib_bucket_provisioner.Cluster.Env.{Env}
use lib_bucket_provisioner.Cluster.Monad.{pure}
use lib_bucket_provisioner.Cluster.Emits.{
  Emits, Emits-call, Emits-map_error, Emits-bind, Emits-pure,
}
use lib_bucket_provisioner.Handlers.Update.{store_claim, update_object_bucket_phase}
use lib_bucket_provisioner.Handlers.Emits as handlers
use lib_bucket_provisioner.Controller.Emits as stages
use lib_bucket_provisioner.Controller.Resources.{Controller}
use lib_bucket_provisioner.Controller.Provision.{set_obc_meta_fields, handle_provision_claim}
use lib_bucket_provisioner.Controller.Delete.{
  delete_resources, release_bucket, release_resources, handle_delete_claim,
}

-- The condition holds of every event of the kinds that handleProvisionClaim logs.
pub record ProvisionEvents (P : Event → Type 0) : Type 0 where
  pub claim_read : (ns name : Text) (r : Reply ObjectBucketClaim) → P (claim_got ns name r)
  pub claim : (obc : ObjectBucketClaim) (r : Reply ObjectBucketClaim) → P (claim_updated obc r)
  pub claim_status :
      (obc : ObjectBucketClaim) (r : Reply ObjectBucketClaim) → P (claim_status_updated obc r)
  pub bucket_read : (name : Text) (r : Reply ObjectBucket) → P (bucket_got name r)
  pub bucket_create : (ob : ObjectBucket) (r : Reply ObjectBucket) → P (bucket_created ob r)
  pub bucket_update : (ob : ObjectBucket) (r : Reply ObjectBucket) → P (bucket_updated ob r)
  pub bucket_status : (ob : ObjectBucket) (r : Reply ObjectBucket) → P (bucket_status_updated ob r)
  pub secret_create : (s : Secret) (r : Reply Secret) → P (secret_created s r)
  pub secret_update : (s : Secret) (r : Reply Secret) → P (secret_updated s r)
  pub config_map_create : (cm : ConfigMap) (r : Reply ConfigMap) → P (config_map_created cm r)
  pub config_map_update : (cm : ConfigMap) (r : Reply ConfigMap) → P (config_map_updated cm r)
  pub user_id :
      (obc : ObjectBucketClaim) (ob : Option ObjectBucket) (r : Reply Text)
      → P (user_id_generated obc ob r)
  pub provision : (o : BucketOptions) (r : Reply (Option ObjectBucket)) → P (provisioned o r)
  pub grant : (o : BucketOptions) (r : Reply (Option ObjectBucket)) → P (granted o r)
  pub uuid : (id : Text) → P (uuid_made id)

-- The condition holds of every event of the kinds that handleDeleteClaim logs.
pub record DeleteEvents (P : Event → Type 0) : Type 0 where
  pub claim_read : (ns name : Text) (r : Reply ObjectBucketClaim) → P (claim_got ns name r)
  pub claim : (obc : ObjectBucketClaim) (r : Reply ObjectBucketClaim) → P (claim_updated obc r)
  pub bucket_read : (name : Text) (r : Reply ObjectBucket) → P (bucket_got name r)
  pub bucket_update : (ob : ObjectBucket) (r : Reply ObjectBucket) → P (bucket_updated ob r)
  pub bucket_status : (ob : ObjectBucket) (r : Reply ObjectBucket) → P (bucket_status_updated ob r)
  pub bucket_delete : (name : Text) (r : Reply (Unit {0})) → P (bucket_deleted name r)
  pub secret_read : (ns name : Text) (r : Reply Secret) → P (secret_got ns name r)
  pub secret_update : (s : Secret) (r : Reply Secret) → P (secret_updated s r)
  pub config_map_read : (ns name : Text) (r : Reply ConfigMap) → P (config_map_got ns name r)
  pub config_map_update : (cm : ConfigMap) (r : Reply ConfigMap) → P (config_map_updated cm r)
  pub class_read : (name : Text) (r : Reply StorageClass) → P (class_got name r)
  pub remove : (ob : ObjectBucket) (r : Reply (Unit {0})) → P (removed ob r)
  pub revoke : (ob : ObjectBucket) (r : Reply (Unit {0})) → P (revoked ob r)

-- What holds of every event.
pub provision_events : {P : Event → Type 0} → ((e : Event) → P e) → ProvisionEvents P
provision_events all = record {
  claim_read = λ ns n r. all _;
  claim = λ o r. all _;
  claim_status = λ o r. all _;
  bucket_read = λ n r. all _;
  bucket_create = λ o r. all _;
  bucket_update = λ o r. all _;
  bucket_status = λ o r. all _;
  secret_create = λ s r. all _;
  secret_update = λ s r. all _;
  config_map_create = λ c r. all _;
  config_map_update = λ c r. all _;
  user_id = λ o b r. all _;
  provision = λ o r. all _;
  grant = λ o r. all _;
  uuid = λ i. all _;
}

pub delete_events : {P : Event → Type 0} → ((e : Event) → P e) → DeleteEvents P
delete_events all = record {
  claim_read = λ ns n r. all _;
  claim = λ o r. all _;
  bucket_read = λ n r. all _;
  bucket_update = λ o r. all _;
  bucket_status = λ o r. all _;
  bucket_delete = λ n r. all _;
  secret_read = λ ns n r. all _;
  secret_update = λ s r. all _;
  config_map_read = λ ns n r. all _;
  config_map_update = λ c r. all _;
  class_read = λ n r. all _;
  remove = λ o r. all _;
  revoke = λ o r. all _;
}

module _ {E : Env} {P : Event → Type 0} where
  pub handle_provision_claim-Emits :
      ProvisionEvents P
      → (c : Controller) (key : Text) (given : ObjectBucketClaim) (class : StorageClass)
      → Emits P (handle_provision_claim {E = E} c key given class)
  unfolding handle_provision_claim set_obc_meta_fields store_claim
  handle_provision_claim-Emits p c key given class =
      Emits-bind (Emits-map_error _ (Emits-map_error _ (Emits-call _ _ (p.claim _)))) λ marked.
        Emits-bind (Emits-map_error _ (handlers.get_ob_from_key-Emits P p.bucket_read key)) λ ob.
          Emits-bind (handlers.err_if_modified-Emits P ob marked) λ _.
            Emits-bind (stages.choose_bucket_name-Emits P p.uuid class marked) λ name.
              Emits-bind (stages.store_bucket_name-Emits P p.claim marked name) λ obc.
                Emits-bind
                  (stages.run_provisioner-Emits P p.user_id p.provision p.grant obc ob class name)
                  λ provided.
                    Emits-bind
                      (stages.save_connection-Emits P p.secret_create p.secret_update
                        p.config_map_create p.config_map_update c obc provided)
                      λ _.
                        Emits-bind
                          (stages.save_bucket-Emits P p.claim_read p.bucket_read p.bucket_create
                            p.bucket_update p.bucket_status c key obc class provided)
                          λ saved. stages.bind_claim-Emits P p.claim p.claim_status obc saved name

  module _ (d : DeleteEvents P) where
    delete_resources-Emits :
        (ob : Option ObjectBucket) (cm : Option ConfigMap) (s : Option Secret)
        (obc : ObjectBucketClaim)
        → Emits P (delete_resources {E = E} ob cm s (some obc))
    delete_resources-Emits ob cm s obc =
        stages.delete_resources-Emits P d.bucket_update d.bucket_delete d.secret_read
          d.secret_update d.config_map_read d.config_map_update d.claim_read d.claim ob cm s
          (some obc)

    release_bucket-Emits :
        (ob : ObjectBucket) (cm : Option ConfigMap) (s : Option Secret) (obc : ObjectBucketClaim)
        → Emits P (release_bucket {E = E} ob cm s obc)
    unfolding release_bucket update_object_bucket_phase
    release_bucket-Emits found cm s obc =
        Emits-bind (Emits-map_error _ (Emits-call _ _ (d.bucket_status _))) λ ob.
          Emits-bind (stages.deprovision-Emits P d.class_read d.remove d.revoke ob)
            λ _. delete_resources-Emits (some ob) cm s obc

    release_resources-Emits :
        (ob : Option ObjectBucket) (cm : Option ConfigMap) (s : Option Secret)
        (obc : ObjectBucketClaim)
        → Emits P (release_resources {E = E} ob cm s obc)
    unfolding release_resources
    release_resources-Emits none cm s obc = delete_resources-Emits none cm s obc
    release_resources-Emits (some ob) cm s obc =
        elim ob.spec.reclaim_policy
          as (λ policy.
            Emits {E = E} P
              (elim policy [ none ↦ pure tt | some _ ↦ release_bucket ob cm s obc ])) [
                | none ↦ Emits-pure _
                | some _ ↦ release_bucket-Emits ob cm s obc
              ]

    pub handle_delete_claim-Emits :
        (key : Text) (obc : ObjectBucketClaim) → Emits P (handle_delete_claim {E = E} key obc)
    unfolding handle_delete_claim
    handle_delete_claim-Emits key obc =
        Emits-bind
          (stages.get_existing_resources-Emits P d.bucket_read d.config_map_read d.secret_read key)
          λ r.
            Emits-bind (stages.fail_if_any-Emits P r.errs)
              λ _. release_resources-Emits r.ob r.cm r.secret obc
