-- ===== src/Tests/Binding.antt =====
-- syncHandler where the API server keeps the claim and the object bucket that are written: the first
-- run for a claim with a prefix.
use lib_bucket_provisioner.Base.{◌==◌, Option, none, some, ◌≡◌, refl}
use lib_bucket_provisioner.V1alpha1.{ObjectBucketClaim, ObjectBucket}
use lib_bucket_provisioner.Cluster.Error.{
  Reply, done, failed, not_found, already_exists, is_not_found, is_already_exists,
}
use lib_bucket_provisioner.Cluster.Env.{Env}
use lib_bucket_provisioner.Cluster.Monad.{ok}
use lib_bucket_provisioner.Cluster.Ordered.{Any}
use lib_bucket_provisioner.Controller.Resources.{supported_provisioner}
use lib_bucket_provisioner.Controller.Provision.Complete.{Responsive, Ok, Created, NoneOrMatching}
use lib_bucket_provisioner.Controller.Provision.Complete.Naming.{ClaimBound}
use lib_bucket_provisioner.Controller.Sync.{sync_handler}
use lib_bucket_provisioner.Controller.Sync.Order.{fresh}
use lib_bucket_provisioner.Controller.Sync.Complete.{sync_handler-binds}
use lib_bucket_provisioner.Tests.Data.{
  ns, claim_name, claim_key, new_claim, cluster_over, s3_controller,
}

abbrev Stored : Type 0
Stored = ObjectBucketClaim × Option ObjectBucket

abbrev read : Stored → Reply ObjectBucket
read (obc, none) = failed not_found
read (obc, some ob) = done ob

abbrev create : ObjectBucket → Stored → Reply ObjectBucket × Stored
create ob (obc, none) = (done ob, (obc, some ob))
create ob (obc, some there) = (failed already_exists, (obc, some there))

abbrev storing_cluster : Env
storing_cluster = record (cluster_over Stored (λ s. (none, s)) new_claim) {
  get_claim = λ ns name s. (done s.0, s);
  update_claim = λ obc s. (done obc, (obc, s.1));
  update_claim_status = λ obc s. (done obc, (obc, s.1));
  get_bucket = λ name s. (read s, s);
  create_bucket = create;
  update_bucket = λ ob s. (done ob, (s.0, some ob));
  update_bucket_status = λ ob s. (done ob, (s.0, some ob));
}

abbrev Unwritten : Stored → Type 0
Unwritten (obc, none) = Unit {0}
Unwritten (obc, some ob) = ⊥

read-Unwritten : (s : Stored) → Unwritten s → NoneOrMatching new_claim.spec (read s)
unfolding is_not_found
read-Unwritten (obc, none) h = refl
read-Unwritten (obc, some ob) h = absurd h

Unwritten-claim : (obc : ObjectBucketClaim) (s : Stored) → Unwritten s → Unwritten (obc, s.1)
Unwritten-claim obc (_, none) h = h
Unwritten-claim obc (_, some ob) h = h

create-Created : (ob : ObjectBucket) (s : Stored) → Created (create ob s).0
unfolding is_already_exists
create-Created ob (obc, none) = tt
create-Created ob (obc, some there) = refl

read-create : (ob : ObjectBucket) (s : Stored) → Ok (read (create ob s).1)
read-create ob (obc, none) = tt
read-create ob (obc, some there) = tt

abbrev storing_cluster-Responsive : Responsive storing_cluster new_claim.spec
storing_cluster-Responsive = record {
  Early = Unwritten;
  early_claim_read = λ ns name s h. h;
  early_class_read = λ name s h. h;
  early_claim_update = Unwritten-claim;
  early_claim_status = Unwritten-claim;
  claim_read = λ ns n s. tt;
  claim_update = λ o s. refl;
  claim_status = λ o s. refl;
  bucket_read = λ n s h. read-Unwritten s h;
  bucket_create = create-Created;
  bucket_there = λ b s e h. read-create b s;
  bucket_update = λ b s. tt;
  bucket_status = λ b s. tt;
  secret_create = λ sec s. tt;
  secret_update = λ sec s. tt;
  config_map_create = λ c s. tt;
  config_map_update = λ c s. tt;
  user_id = λ o b s. tt;
  provision = λ o s. (refl, (tt, tt));
  grant = λ o s. (refl, (tt, tt));
}

sync_handler-binds_example :
    let run =
      sync_handler {E = storing_cluster} s3_controller claim_key (fresh (new_claim, none)) in
    (run.0 ≡ ok tt) × Any ClaimBound run.1.trace
unfolding ◌==◌ supported_provisioner
sync_handler-binds_example =
    sync_handler-binds new_claim.spec storing_cluster-Responsive s3_controller claim_key ns
      claim_name refl refl (fresh (new_claim, none)) ((refl, λ s. refl), refl, (refl, refl, refl))
      tt
