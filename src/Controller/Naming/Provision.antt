-- ===== src/Controller/Naming/Provision.antt =====
-- handleProvisionClaim keeps the bucket name that is stored in the claim.
use lib_bucket_provisioner.Base.{Text, Option, refl, inl}
use lib_bucket_provisioner.V1alpha1.{ObjectBucketClaim, ObjectBucket, StorageClass}
use lib_bucket_provisioner.Cluster.Event.{provisioned, granted}
use lib_bucket_provisioner.Cluster.Env.{Env}
use lib_bucket_provisioner.Cluster.Emits.{Emits-map_error, Emits-call}
use lib_bucket_provisioner.Cluster.Triple.{
  Triple, Triple-bind, Triple-call, Triple-map_error, Triple-if, Triple-pure,
}
use lib_bucket_provisioner.Cluster.Ordered.{Kept, Ordered, Triple-Ordered}
use lib_bucket_provisioner.Helpers.Lookups.{is_new_bucket_by_storage_class}
use lib_bucket_provisioner.Handlers.Update.{store_claim, update_object_bucket_claim_phase}
use lib_bucket_provisioner.Handlers.Emits as handlers
use lib_bucket_provisioner.Controller.Emits as stages
use lib_bucket_provisioner.Controller.Resources.{Controller}
use lib_bucket_provisioner.Controller.Provision.{
  bucket_options, run_provisioner, bind_claim, handle_provision_claim,
}
use lib_bucket_provisioner.Controller.Naming.{NameGuard}
use lib_bucket_provisioner.Controller.Naming.Stages.{
  OfClaim, Asked, Under, Stays, Triple-Stays, set_obc_meta_fields-Named,
  choose_bucket_name-ChosenFor, store_bucket_name-Asked,
}

module _ (first : Text) where
  module _ {E : Env} where
    module _ (class : StorageClass) where
      module _ (obc : ObjectBucketClaim) (name : Text) where
        run_provisioner-Asked :
            (ob : Option ObjectBucket)
            → Triple {E = E}
                (Kept (NameGuard first) (Under first (Asked name)))
                (run_provisioner obc ob class name)
                (λ _. Kept (NameGuard first) (Under first (Asked name)))
                (Ordered (NameGuard first))
        unfolding run_provisioner bucket_options
        run_provisioner-Asked ob =
            Triple-bind
              (Triple-Stays first (Asked name)
                (Emits-map_error _ (Emits-call _ _ (λ r t. (tt, refl)))))
              λ id.
                Triple-bind {Q' = λ _. Kept (NameGuard first) (Under first (Asked name))}
                  (Triple-map_error _ (
                    Triple-if (is_new_bucket_by_storage_class class)
                      (λ _.
                        Triple-call _ (provisioned (bucket_options obc class name id))
                          (λ w a s k e.
                            (((λ cons. ((k.1 cons).1, (k.1 cons).0)), k.0), λ cons. k.1 cons.1))
                          (λ w a s k e. ((λ cons. ((k.1 cons).1, (k.1 cons).0)), k.0)))
                      (λ _.
                        Triple-call _ (granted (bucket_options obc class name id))
                          (λ w a s k e. ((tt, k.0), λ cons. k.1 cons.1)) (λ w a s k e. (tt, k.0)))))
                  λ provided.
                    Triple-Stays first (Asked name) (stages.non_empty-Emits (Stays first) provided)

        bind_claim-Named :
            (ob : ObjectBucket)
            → Triple {E = E}
                (Kept (NameGuard first) (Under first (Asked name)))
                (bind_claim obc ob name)
                (λ _. Ordered (NameGuard first) tt)
                (Ordered (NameGuard first))
        unfolding bind_claim store_claim update_object_bucket_claim_phase
        bind_claim-Named ob =
            Triple-bind {Q' = λ _. Ordered (NameGuard first) tt}
              (Triple-map_error _ (
                Triple-map_error _ (
                  Triple-call _ _ (λ w a s k e. ((λ cons. inl (k.1 cons).0), k.0))
                    (λ w a s k e. ((λ cons. inl (k.1 cons).0), k.0)))))
              λ _.
                Triple-bind {Q' = λ _. Ordered (NameGuard first) tt}
                  (Triple-Ordered _
                    (Emits-map_error _ (Emits-map_error _ (Emits-call _ _ (λ r t. tt)))))
                  λ _. Triple-pure _ (λ w k. k)

      pub handle_provision_claim-Named :
          (c : Controller) (key : Text) (given : ObjectBucketClaim)
          → Triple {E = E}
              (Kept (NameGuard first) (Under first (OfClaim class given)))
              (handle_provision_claim c key given class)
              (λ _. Ordered (NameGuard first) tt)
              (Ordered (NameGuard first))
      unfolding handle_provision_claim
      handle_provision_claim-Named c key given =
          Triple-bind (set_obc_meta_fields-Named first class c given) λ marked.
            Triple-bind
              (Triple-Stays first (OfClaim class marked) (
                Emits-map_error _
                  (handlers.get_ob_from_key-Emits (Stays first) (λ n r t. (tt, refl)) key)))
              λ ob.
                Triple-bind
                  (Triple-Stays first (OfClaim class marked)
                    (handlers.err_if_modified-Emits (Stays first) ob marked))
                  λ _. Triple-bind (choose_bucket_name-ChosenFor first class marked) λ name.
                    Triple-bind (store_bucket_name-Asked first class marked name) λ obc.
                      Triple-bind (run_provisioner-Asked obc name ob) λ provided.
                        Triple-bind
                          (Triple-Stays first (Asked name) (
                            stages.save_connection-Emits (Stays first) (λ s r t. (tt, refl))
                              (λ s r t. (tt, refl)) (λ s r t. (tt, refl)) (λ s r t. (tt, refl)) c
                              obc provided))
                          λ _.
                            Triple-bind
                              (Triple-Stays first (Asked name) (
                                stages.save_bucket-Emits (Stays first) (λ n m r t. (tt, refl))
                                  (λ n r t. (tt, refl)) (λ b r t. (tt, refl)) (λ b r t. (tt, refl))
                                  (λ b r t. (tt, refl)) c key obc class provided))
                              λ saved. bind_claim-Named obc name saved
