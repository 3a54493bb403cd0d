-- ===== src/Controller/Provision/Delivery/Whole.antt =====
-- handleProvisionClaim as a whole: the objects that it sends come from the provisioner's answer and
-- from the claim.
use lib_bucket_provisioner.Base.{Text}
use lib_bucket_provisioner.V1alpha1.{ObjectBucketClaim, StorageClass}
use lib_bucket_provisioner.Cluster.Env.{Env}
use lib_bucket_provisioner.Cluster.Monad.{World}
use lib_bucket_provisioner.Cluster.Emits.{Emits-map_error}
use lib_bucket_provisioner.Cluster.Triple.{Triple, Triple-bind}
use lib_bucket_provisioner.Cluster.Ordered.{
  Any-Lasting, Safe, Ordered, Triple-Kept, Triple-Ordered, Triple-Safe,
}
use lib_bucket_provisioner.Handlers.Emits as handlers
use lib_bucket_provisioner.Controller.Emits as emits
use lib_bucket_provisioner.Controller.Resources.{Controller}
use lib_bucket_provisioner.Controller.Provision.{handle_provision_claim}
use lib_bucket_provisioner.Controller.Provision.Unmodified.{Answered}
use lib_bucket_provisioner.Controller.Provision.Delivery.{DeliveryGuard}
use lib_bucket_provisioner.Controller.Provision.Delivery.Sent.{
  set_obc_meta_fields-Answered, store_bucket_name-Answered, run_provisioner-From,
  save_connection-Delivers, save_bucket-Delivers,
}

module _ (E : Env) (key : Text) (c : Controller) (given : ObjectBucketClaim)
    (class : StorageClass) where
  handle_provision_claim-Delivers :
      Triple {E = E}
        (Ordered (DeliveryGuard E key) tt)
        (handle_provision_claim c key given class)
        (λ _. Ordered (DeliveryGuard E key) tt)
        (Ordered (DeliveryGuard E key))
  unfolding handle_provision_claim
  handle_provision_claim-Delivers =
      Triple-bind (set_obc_meta_fields-Answered E key c given) λ marked.
        let keep = Any-Lasting (Answered marked) in
        Triple-bind
          (Triple-Kept (DeliveryGuard E key) keep
            (Emits-map_error _ (handlers.get_ob_from_key-Emits _ (λ n r t k. tt) key)))
          λ ob.
            Triple-bind
              (Triple-Kept (DeliveryGuard E key) keep (handlers.err_if_modified-Emits _ ob marked))
              λ _.
                Triple-bind
                  (Triple-Kept (DeliveryGuard E key) keep
                    (emits.choose_bucket_name-Emits _ (λ id t k. tt) class marked))
                  λ name. Triple-bind (store_bucket_name-Answered E key marked name) λ obc.
                    Triple-bind (run_provisioner-From E key obc ob class name) λ provided.
                      Triple-bind (save_connection-Delivers E key obc c provided) λ _.
                        Triple-bind (save_bucket-Delivers E key obc c class provided) λ saved.
                          Triple-Ordered _
                            (emits.bind_claim-Emits _ (λ o r t. tt) (λ o r t. tt) obc saved name)

-- In every run of handleProvisionClaim, whatever the environment answers: each secret that is created
-- or updated has the access keys of an object bucket that Provision or Grant has returned, each config
-- map its endpoint's bucket name, host, port, region and subregion and nothing else, and both have the
-- name and the namespace of a claim that the API server has answered with, that claim as their owner
-- and the finalizer; each object bucket that is created or updated has the returned connection, the
-- name that the key gives, the finalizer, the storage class of a claim that the API server has
-- answered with, and a reference to a claim that was read.
pub handle_provision_claim-DeliveryGuard :
    (E : Env) (key : Text) (c : Controller) (given : ObjectBucketClaim) (class : StorageClass)
    (w : World E)
    → Safe (DeliveryGuard E key) w.trace
    → Safe (DeliveryGuard E key) (handle_provision_claim {E = E} c key given class w).1.trace
handle_provision_claim-DeliveryGuard E key c given class =
    Triple-Safe (DeliveryGuard E key) (handle_provision_claim-Delivers E key c given class)
