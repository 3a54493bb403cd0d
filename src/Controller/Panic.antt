-- ===== src/Controller/Panic.antt =====
-- The nil pointers that the controller dereferences, and the check for a changed claim.
pub mod Provision
pub mod Whole
use lib_bucket_provisioner.Base.{true, Text, Option, none, some, ◌∷◌, ◌≡◌, refl, inl}
use lib_bucket_provisioner.V1alpha1.{
  ObjectBucketClaim, ObjectBucket, Connection, StorageClass, empty_bucket,
}
use lib_bucket_provisioner.V1alpha1.Phase
use lib_bucket_provisioner.Cluster.Error.{
  Message, Reply, done, failed, is_not_found, failure, empty_object_bucket,
}
use lib_bucket_provisioner.Cluster.Event.{
  Event, Trace, BucketOptions, bucket_got, bucket_status_updated, provisioned, granted,
}
use lib_bucket_provisioner.Cluster.Env.{Env}
use lib_bucket_provisioner.Cluster.Monad.{blame_result, World, M, raise}
use lib_bucket_provisioner.Cluster.Triple.{
  Triple-weaken, Triple-blame_result, Ending, error, crash, Triple, Triple-bind, Triple-call,
  Triple-attempt-call, Triple-map_error, Triple-if, Triple-pure, Triple-raise, Triple-deref,
}
use lib_bucket_provisioner.Cluster.Calm.{
  Calm-map_error, Calm, calm, OnCrash, Anyhow, Calm-Triple, Calm-lift,
}
use lib_bucket_provisioner.Cluster.Ordered.{Any, Any-map}
use lib_bucket_provisioner.Helpers.Lookups.{
  claim_for_key, claim_ref_for_key, is_new_bucket_by_storage_class,
}
use lib_bucket_provisioner.Helpers.Names.{compose_bucket_name, generate_bucket_name}
use lib_bucket_provisioner.Handlers.Calm as handlers
use lib_bucket_provisioner.Handlers.Emits as emits
use lib_bucket_provisioner.Handlers.Update.{
  store_claim, update_object_bucket_claim_phase, found_bucket, get_ob_from_key,
  err_if_obc_config_has_been_modified,
}
use lib_bucket_provisioner.Controller.Resources.{Controller}
use lib_bucket_provisioner.Controller.Provision.{
  set_obc_meta_fields, choose_bucket_name, store_bucket_name, non_empty, run_provisioner,
  save_connection, save_bucket, bind_claim, handle_provision_claim, bucket_options,
}

-- The connection, or the endpoint in it, is nil.
abbrev pub NoEndpoint : Option Connection → Type 0
NoEndpoint none = Unit {0}
NoEndpoint (some connection) = connection.endpoint ≡ none

-- An object bucket that was read has no endpoint, one that the provisioner returned no connection,
-- or one whose status was updated no reclaim policy; or the result of a failed update is nil.
abbrev pub NilPointer : Env → Event → Type 0
NilPointer E (bucket_got name (done ob)) = NoEndpoint ob.spec.connection
NilPointer E (provisioned o (done (some ob))) = ob.spec.connection ≡ none
NilPointer E (granted o (done (some ob))) = ob.spec.connection ≡ none
NilPointer E (bucket_status_updated sent (done ob)) = ob.spec.reclaim_policy ≡ none
NilPointer E (bucket_status_updated sent (failed e)) = E.status_result_nil ≡ true
NilPointer E _ = ⊥

abbrev pub Explained :
    {E : Env} {A : Type 0} → (World E → Type 0) → M E A → (A → World E → Type 0) → Type 0
Explained {E} P m Q = Triple P m Q (OnCrash (Any (NilPointer E)))

-- Where an object bucket comes from.
abbrev pub BucketRead : ObjectBucket → Event → Type 0
BucketRead ob (bucket_got name (done answer)) = answer ≡ ob
BucketRead ob _ = ⊥

abbrev pub Given : ObjectBucket → Event → Type 0
Given ob (provisioned o (done (some answer))) = answer ≡ ob
Given ob (granted o (done (some answer))) = answer ≡ ob
Given ob _ = ⊥

BucketRead-NilPointer :
    (E : Env) (ob : ObjectBucket) (e : Event)
    → NoEndpoint ob.spec.connection
    → BucketRead ob e
    → NilPointer E e
BucketRead-NilPointer E ob (bucket_got name (done answer)) h r = rw r h
BucketRead-NilPointer E ob _ h r = absurd r

pub Given-NilPointer :
    (E : Env) (ob : ObjectBucket) (e : Event)
    → ob.spec.connection ≡ none
    → Given ob e
    → NilPointer E e
Given-NilPointer E ob (provisioned o (done (some answer))) h r = rw r h
Given-NilPointer E ob (granted o (done (some answer))) h r = rw r h
Given-NilPointer E ob _ h r = absurd r

-- An optional bucket is the answer to a call.
abbrev pub From :
    {E : Env} → (ObjectBucket → Event → Type 0) → Option ObjectBucket → World E → Type 0
From P none w = Unit {0}
From P (some ob) w = Any (P ob) w.trace

abbrev pub GivenIn : Option ObjectBucket → Trace → Type 0
GivenIn none t = Unit {0}
GivenIn (some ob) t = Any (Given ob) t

pub given-provisioned :
    (o : BucketOptions) (ob : Option ObjectBucket) (t : Trace)
    → GivenIn ob (provisioned o (done ob) ∷ t)
given-provisioned o none t = tt
given-provisioned o (some ob) t = inl refl

pub given-granted :
    (o : BucketOptions) (ob : Option ObjectBucket) (t : Trace)
    → GivenIn ob (granted o (done ob) ∷ t)
given-granted o none t = tt
given-granted o (some ob) t = inl refl

abbrev Answered : Reply ObjectBucket → Trace → Type 0
Answered (done ob) t = Any (BucketRead ob) t
Answered (failed e) t = Unit {0}

answered : (name : Text) (r : Reply ObjectBucket) (t : Trace) → Answered r (bucket_got name r ∷ t)
answered name (done ob) t = inl refl
answered name (failed e) t = tt

module _ {E : Env} where
  found_bucket-From :
      (r : Reply ObjectBucket)
      → Explained {E = E} (λ w. Answered r w.trace) (found_bucket r) (From BucketRead)
  unfolding found_bucket
  found_bucket-From (done ob) = Triple-pure _ (λ w a. a)
  found_bucket-From (failed e) =
      Triple-if (is_not_found e) (λ _. Triple-pure _ (λ w a. tt)) (λ _. Triple-raise _ (λ w a. tt))

  pub get_ob_from_key-From :
      (key : Text) → Explained {E = E} (Anyhow tt) (get_ob_from_key key) (From BucketRead)
  unfolding get_ob_from_key
  get_ob_from_key-From key =
      Triple-bind {Q' = Anyhow} (Triple-map_error _ (Calm-Triple _ (Calm-lift _))) λ name.
        Triple-bind {Q' = λ r w. Answered r w.trace}
          (Triple-attempt-call _ (bucket_got name) (λ w r s p e. answered name r w.trace))
          found_bucket-From

  pub err_if_modified-Explained :
      (ob : Option ObjectBucket) (obc : ObjectBucketClaim)
      → Explained {E = E} (From BucketRead ob) (err_if_obc_config_has_been_modified ob obc) Anyhow
  unfolding err_if_obc_config_has_been_modified
  err_if_modified-Explained none obc = Triple-pure _ (λ w a. tt)
  err_if_modified-Explained (some ob) obc =
      Triple-bind
        {Q' = λ connection w. (ob.spec.connection ≡ some connection) × Any (BucketRead ob) w.trace}
        (Triple-deref ob.spec.connection (λ a w e p. (e, p))
          (λ w e p. Any-map w.trace (λ x. BucketRead-NilPointer E ob x (rw e tt)) p))
        λ connection.
          Triple-bind {Q' = Anyhow}
            (Triple-deref connection.endpoint (λ a w e p. tt)
              (λ w e p. Any-map w.trace (λ x. BucketRead-NilPointer E ob x (rw p.0 e)) p.1))
            λ endpoint. Calm-Triple _ (search calm)
