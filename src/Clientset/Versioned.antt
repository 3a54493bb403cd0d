-- ===== src/Clientset/Versioned.antt =====
-- versioned.Interface, as far as the informers call it, filled by the real typed clients and by the fakes.
use lib_bucket_provisioner.Base.{Text, Option, some}
use lib_bucket_provisioner.V1alpha1.Lists.{ObjectBucketList, ObjectBucketClaimList}
use lib_bucket_provisioner.Cluster.Error.{Error, Reply}
use lib_bucket_provisioner.Clientset.Rest.{OptionTypes, ListOptions, Rest}
use lib_bucket_provisioner.Clientset.Fake.{Tracker}
use lib_bucket_provisioner.Clientset.Claims as RealClaims
use lib_bucket_provisioner.Clientset.Buckets as RealBuckets
use lib_bucket_provisioner.Clientset.Fake.Claims as FakeClaims
use lib_bucket_provisioner.Clientset.Fake.Buckets as FakeBuckets

-- A list is nil or an object.
pub record Versioned : Type 1 where
  pub State : Type 0
  pub Watcher : Type 0
  pub list_claims :
      Text → ListOptions → State → (Option ObjectBucketClaimList × Option Error) × State
  pub watch_claims : Text → ListOptions → State → Reply Watcher × State
  pub list_buckets : ListOptions → State → (Option ObjectBucketList × Option Error) × State
  pub watch_buckets : ListOptions → State → Reply Watcher × State

-- The pointer to a result, which is not nil.
abbrev pub pointer : {A S : Type 0} → (A × Option Error) × S → (Option A × Option Error) × S
pointer ((a, err), s) = ((some a, err), s)

abbrev pub real : {O : OptionTypes} → Rest O → Versioned
real R = record {
  State = R.State;
  Watcher = R.Watcher;
  list_claims = λ ns opts s. pointer (RealClaims.list R ns opts s);
  watch_claims = λ ns opts. RealClaims.watch R ns opts;
  list_buckets = λ opts s. pointer (RealBuckets.list R opts s);
  watch_buckets = λ opts. RealBuckets.watch R opts;
}

abbrev pub fake : Tracker → Versioned
fake T = record {
  State = T.State;
  Watcher = T.Watcher;
  list_claims = λ ns opts. FakeClaims.list T ns opts;
  watch_claims = λ ns opts. FakeClaims.watch T ns opts;
  list_buckets = λ opts. FakeBuckets.list T opts;
  watch_buckets = λ opts. FakeBuckets.watch T opts;
}
