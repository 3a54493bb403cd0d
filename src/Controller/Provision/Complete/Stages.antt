-- ===== src/Controller/Provision/Complete/Stages.antt =====
-- The stages of handleProvisionClaim where no call fails.
use lib_bucket_provisioner.Base.{
  Text, StringMap, ◌==◌, true, ◌≡◌, Option, none, some, [], refl, ap, inl,
}
use lib_bucket_provisioner.V1alpha1.{
  ObjectBucketClaim, ObjectBucketClaimSpec, ObjectBucket, StorageClass, Secret, ConfigMap,
  Authentication, Endpoint,
}
use lib_bucket_provisioner.Cluster.Error.{
  Reply, done, failed, wrapped, bucket_create, is_already_exists,
}
use lib_bucket_provisioner.Cluster.Event.{Event, Trace}
use lib_bucket_provisioner.Cluster.Env.{Env}
use lib_bucket_provisioner.Cluster.Monad.{World, raise, call, attempt}
use lib_bucket_provisioner.Cluster.Triple.{
  Triple-bind, Triple-call, Triple-map_error, Triple-if, Triple-pure, Triple-deref,
  Triple-attempt-call, Triple-raise, Triple-weaken,
}
use lib_bucket_provisioner.Cluster.Ordered.{Any}
use lib_bucket_provisioner.Helpers.Lookups.{is_new_bucket_by_storage_class}
use lib_bucket_provisioner.Handlers.Objects.{new_credentials_secret, new_bucket_config_map}
use lib_bucket_provisioner.Handlers.Create.{
  create_or_update_secret, secret_after_create, create_or_update_config_map, bucket_after_create,
  update_existing_bucket, create_or_update_object_bucket, config_map_after_create,
}
use lib_bucket_provisioner.Handlers.Update.{update_object_bucket_claim_phase}
use lib_bucket_provisioner.Controller.Resources.{Controller}
use lib_bucket_provisioner.Controller.Provision.{
  store_bucket_name, run_provisioner, save_connection, bind_claim,
}
use lib_bucket_provisioner.Controller.Provision.Complete.{
  Completes, Completes-call, Completes-lift, Responsive, Ok, failed_answer, Created, Present,
  Connected, Usable,
}
use lib_bucket_provisioner.Controller.Provision.Complete.Naming.{
  ClaimBound, Given, store_claim-Completes, assuming, transported, non_empty-Completes,
  updated_or-Completes, transported_connection,
}

pub Completes-attempt :
    {E : Env} {A : Type 0} (P : Reply A → Type 0) (op : E.State → Reply A × E.State)
    (event : Reply A → Event)
    → ((s : E.State) → P (op s).0)
    → Completes (Given Unit) (attempt (call {E = E} op event)) (λ r. Given (P r))
Completes-attempt {E} P op event law = Triple-attempt-call op event (λ w r s p e.
    transported P (op w.state).0 r (ap (λ (x : Reply _ × E.State). x.0) e) (law w.state))

pub Completes-attempt_from :
    {E : Env} {A : Type 0} (P : Reply A → Type 0) (K : E.State → Type 0)
    (op : E.State → Reply A × E.State) (event : Reply A → Event)
    → ((s : E.State) → K s → P (op s).0)
    → Completes (λ w. K w.state) (attempt (call {E = E} op event)) (λ r. Given (P r))
Completes-attempt_from {E} P K op event law = Triple-attempt-call op event (λ w r s k e.
    transported P (op w.state).0 r (ap (λ (x : Reply _ × E.State). x.0) e) (law w.state k))

module _ {E : Env} {claim : ObjectBucketClaimSpec} (live : Responsive E claim) where
  -- The object bucket is there if its creation says so.
  abbrev ThereIfFailed : ObjectBucket → Reply ObjectBucket → World E → Type 0
  ThereIfFailed ob (done _) w = Unit
  ThereIfFailed ob (failed e) w =
      (is_already_exists e ≡ true) × Ok (E.get_bucket ob.meta.name w.state).0

  created_or_there :
      (ob : ObjectBucket) (w : World E) (r : Reply ObjectBucket) (s : E.State)
      → E.create_bucket ob w.state ≡ (r, s)
      → (t : Trace) → ThereIfFailed ob r (record { state = s; trace = t })
  created_or_there ob w (done a) s e t = tt
  created_or_there ob w (failed x) s e t =
      let e0 : (E.create_bucket ob w.state).0 ≡ failed x =
        ap (λ (p : Reply ObjectBucket × E.State). p.0) e in
      let e1 : (E.create_bucket ob w.state).1 ≡ s =
        ap (λ (p : Reply ObjectBucket × E.State). p.1) e in
      (
        transported Created (E.create_bucket ob w.state).0 (failed x) e0
            (live.bucket_create ob w.state),
        rw e1 at (live.bucket_there ob w.state x e0),
      )

  bucket_after_create-Completes :
      (ob : ObjectBucket) (r : Reply ObjectBucket)
      → Completes {E = E} (ThereIfFailed ob r) (bucket_after_create ob r) (λ ob. Given Unit)
  unfolding bucket_after_create update_existing_bucket
  bucket_after_create-Completes ob (done a) = Triple-pure _ (λ w h. tt)
  bucket_after_create-Completes ob (failed e) =
      Triple-if (is_already_exists e) {n = raise (wrapped bucket_create e)}
        (λ _.
          Triple-bind {Q' = λ current. Given Unit}
            (Triple-map_error _ (
              Triple-call _ _ (λ w a s h eq. tt)
                (λ w x s h eq.
                  failed_answer (λ a. Unit) _ x (ap (λ (p : Reply ObjectBucket × E.State). p.0) eq)
                    h.1)))
            λ current.
              Triple-map_error _
                (Completes-call (λ a. Unit) _ _ (live.bucket_update _) (λ w a s p h. tt)))
        (λ f. Triple-raise _ (λ w h. let t = h.0 in cc))

  pub create_or_update_object_bucket-Completes :
      (ob : ObjectBucket)
      → Completes {E = E} (Given Unit) (create_or_update_object_bucket ob) (λ saved. Given Unit)
  unfolding create_or_update_object_bucket
  create_or_update_object_bucket-Completes ob =
      Triple-bind {Q' = ThereIfFailed ob}
        (Triple-attempt-call _ _ (λ w r s p e. created_or_there ob w r s e _))
        (bucket_after_create-Completes ob)

  secret_after_create-Completes :
      (sec : Secret) (r : Reply Secret)
      → Completes {E = E} (Given (Created r)) (secret_after_create sec r) (λ _. Given Unit)
  unfolding secret_after_create
  secret_after_create-Completes sec (done a) = Triple-pure _ (λ w h. tt)
  secret_after_create-Completes sec (failed e) = assuming λ there.
      Triple-if (is_already_exists e) {n = raise e}
        (λ _.
          Triple-bind {Q' = λ r. Given (Ok r)} (Completes-attempt Ok _ _ (live.secret_update sec))
            (updated_or-Completes _))
        (λ f. Triple-raise _ (λ w p. cc))

  create_or_update_secret-Completes :
      (obc : ObjectBucketClaim) (auth : Option Authentication) (labels : StringMap)
      → Present auth
      → Completes {E = E} (Given Unit) (create_or_update_secret obc auth labels) (λ _. Given Unit)
  unfolding create_or_update_secret new_credentials_secret
  create_or_update_secret-Completes obc none labels h = absurd h
  create_or_update_secret-Completes obc (some a) labels h =
      Triple-bind {Q' = λ sec. Given Unit} (Completes-lift _ _ refl (λ w p. tt)) λ sec.
        Triple-bind {Q' = λ r. Given (Created r)}
          (Completes-attempt Created _ _ (live.secret_create sec))
          (secret_after_create-Completes sec)

  config_map_after_create-Completes :
      (cm : ConfigMap) (r : Reply ConfigMap)
      → Completes {E = E} (Given (Created r)) (config_map_after_create cm r) (λ _. Given Unit)
  unfolding config_map_after_create
  config_map_after_create-Completes cm (done a) = Triple-pure _ (λ w h. tt)
  config_map_after_create-Completes cm (failed e) = assuming λ there.
      Triple-if (is_already_exists e) {n = raise e}
        (λ _.
          Triple-bind {Q' = λ r. Given (Ok r)}
            (Completes-attempt Ok _ _ (live.config_map_update cm)) (updated_or-Completes _))
        (λ f. Triple-raise _ (λ w p. cc))

  create_or_update_config_map-Completes :
      (obc : ObjectBucketClaim) (ep : Option Endpoint) (labels : StringMap)
      → Present ep
      → Completes {E = E} (Given Unit) (create_or_update_config_map obc ep labels) (λ _. Given Unit)
  unfolding create_or_update_config_map new_bucket_config_map
  create_or_update_config_map-Completes obc none labels h = absurd h
  create_or_update_config_map-Completes obc (some e) labels h =
      Triple-bind {Q' = λ cm. Given Unit} (Completes-lift _ _ refl (λ w p. tt)) λ cm.
        Triple-bind {Q' = λ r. Given (Created r)}
          (Completes-attempt Created _ _ (live.config_map_create cm))
          (config_map_after_create-Completes cm)

  pub save_connection-Completes :
      (c : Controller) (obc : ObjectBucketClaim) (ob : ObjectBucket)
      → Completes {E = E}
          (Given (Connected ob.spec.connection))
          (save_connection c obc ob)
          (λ _. Given Unit)
  unfolding save_connection
  save_connection-Completes c obc ob =
      Triple-bind {Q' = λ connection. Given (Connected (some connection))}
        (Triple-deref ob.spec.connection (λ a w e h. transported_connection _ (some a) e h)
          (λ w e h. transported_connection _ none e h))
        (λ connection. assuming λ h.
          Triple-bind {Q' = λ _. Given Unit}
            (Triple-map_error _ (
              create_or_update_secret-Completes obc connection.authentication c.provisioner_labels
                h.1))
            λ _. Triple-map_error _ (
              create_or_update_config_map-Completes obc connection.endpoint c.provisioner_labels
                h.0))

  pub store_bucket_name-Completes :
      (obc : ObjectBucketClaim) (name : Text)
      → Completes {E = E} (Given Unit) (store_bucket_name obc name) (λ _. Given Unit)
  unfolding store_bucket_name
  store_bucket_name-Completes obc name =
      Triple-if (obc.spec.bucket_name == [])
        (λ _.
          Triple-weaken (Triple-map_error _ (store_claim-Completes live _)) (λ w p. p) (λ a w h. tt)
            (λ x w h. h))
        (λ _. Triple-pure _ (λ w p. tt))

  pub run_provisioner-Completes :
      (obc : ObjectBucketClaim) (ob : Option ObjectBucket) (class : StorageClass) (name : Text)
      → Completes {E = E}
          (Given Unit)
          (run_provisioner obc ob class name)
          (λ ob. Given (Connected ob.spec.connection))
  unfolding run_provisioner
  run_provisioner-Completes obc ob class name =
      Triple-bind {Q' = λ id. Given Unit}
        (Triple-map_error _
          (Completes-call (λ a. Unit) _ _ (live.user_id obc ob) (λ w a s p h. tt)))
        λ id.
          Triple-bind {Q' = λ provided. Given (Usable E provided)}
            (Triple-map_error _ (
              Triple-if (is_new_bucket_by_storage_class class)
                (λ _. Completes-call (Usable E) _ _ (live.provision _) (λ w a s p h. h))
                (λ _. Completes-call (Usable E) _ _ (live.grant _) (λ w a s p h. h))))
            non_empty-Completes

  pub bind_claim-Completes :
      (obc : ObjectBucketClaim) (ob : ObjectBucket) (name : Text)
      → Completes {E = E} (Given Unit) (bind_claim obc ob name) (λ _ w. Any ClaimBound w.trace)
  unfolding bind_claim update_object_bucket_claim_phase
  bind_claim-Completes obc ob name =
      Triple-bind {Q' = λ _. Given Unit}
        (Triple-weaken (Triple-map_error _ (store_claim-Completes live _)) (λ w p. p) (λ a w h. tt)
          (λ x w h. h))
        λ stored.
          Triple-bind {Q' = λ _ w. Any ClaimBound w.trace}
            (Triple-map_error _ (
              Triple-map_error _
                (Completes-call (λ got. _ ≡ _) _ _ (live.claim_status _) (λ w a s p h. inl refl))))
            λ _. Triple-pure _ (λ w h. h)
