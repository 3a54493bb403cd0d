-- ===== src/Informers/Scoped.antt =====
-- objectbucket.io/interface.go, objectbucket.io/v1alpha1/interface.go, objectbucketclaim.go,
-- objectbucket.go and generic.go: the informers of a factory's namespace. Where the Go value holds
-- the factory, the operation here takes the factory's state.
use lib_bucket_provisioner.Base.{
  ℕ, Text, codes, Bool, ◌==◌, ◌&&◌, if◌then◌else◌, Option, none, some, List, [], ◌∷◌,
}
use lib_bucket_provisioner.Cluster.Error.{Error}
use lib_bucket_provisioner.Clientset.Fake.{Resource}
use lib_bucket_provisioner.Clientset.Versioned.{Versioned}
use lib_bucket_provisioner.Informers.{
  Kind, Listed, Indexer, namespace_index, SharedInformer, Tweak, tweaked,
}
use lib_bucket_provisioner.Informers.Factory.{Factory, informer_for}

-- group and version: the same fields.
pub record Scope : Type 0 where
  pub namespace : Text
  pub tweak_list_options : Tweak

pub record ObjectBucketClaimInformer : Type 0 where
  pub namespace : Text
  pub tweak_list_options : Tweak

pub record ObjectBucketInformer : Type 0 where
  pub tweak_list_options : Tweak

-- sharedInformerFactory.Objectbucket
unfoldable pub objectbucket : {V : Versioned} → Factory V → Scope
objectbucket f = record { namespace = f.namespace; tweak_list_options = f.tweak_list_options }

unfoldable pub v1alpha1 : Scope → Scope
v1alpha1 g = record { namespace = g.namespace; tweak_list_options = g.tweak_list_options }

unfoldable pub object_buckets : Scope → ObjectBucketInformer
object_buckets v = record { tweak_list_options = v.tweak_list_options }

unfoldable pub object_bucket_claims : Scope → ObjectBucketClaimInformer
object_bucket_claims v = record {
  namespace = v.namespace;
  tweak_list_options = v.tweak_list_options;
}

-- The list that a client answers, as a runtime.Object.
unfoldable pub answer_as :
    {A S : Type 0}
    → (Option A → Listed)
    → (Option A × Option Error) × S
    → (Listed × Option Error) × S
answer_as make ((l, err), s) = ((make l, err), s)

module _ (V : Versioned) where
  unfoldable pub new_filtered_claim_informer : Text → ℕ → List Indexer → Tweak → SharedInformer V
  unfolding answer_as
  new_filtered_claim_informer namespace resync_period indexers tweak = record {
    list_func =
        λ options s. answer_as Listed.claims (V.list_claims namespace (tweaked tweak options) s);
    watch_func = λ options. V.watch_claims namespace (tweaked tweak options);
    object = Kind.claim;
    resync_period = resync_period;
    indexers = indexers;
  }

  unfoldable pub new_claim_informer : Text → ℕ → List Indexer → SharedInformer V
  new_claim_informer namespace resync_period indexers =
      new_filtered_claim_informer namespace resync_period indexers none

  unfoldable pub new_filtered_bucket_informer : ℕ → List Indexer → Tweak → SharedInformer V
  unfolding answer_as
  new_filtered_bucket_informer resync_period indexers tweak = record {
    list_func = λ options s. answer_as Listed.buckets (V.list_buckets (tweaked tweak options) s);
    watch_func = λ options. V.watch_buckets (tweaked tweak options);
    object = Kind.bucket;
    resync_period = resync_period;
    indexers = indexers;
  }

  unfoldable pub new_bucket_informer : ℕ → List Indexer → SharedInformer V
  new_bucket_informer resync_period indexers =
      new_filtered_bucket_informer resync_period indexers none

is_resource : Text → Resource → Bool
is_resource name r =
    (r.group == codes "objectbucket.io") && (r.version == codes "v1alpha1") && (r.resource == name)

module _ {V : Versioned} where
  -- objectBucketClaimInformer.defaultInformer
  unfoldable pub default_claim_informer : ObjectBucketClaimInformer → ℕ → SharedInformer V
  default_claim_informer i resync_period =
      new_filtered_claim_informer V i.namespace resync_period (namespace_index ∷ [])
        i.tweak_list_options

  -- objectBucketClaimInformer.Informer
  unfoldable pub claim_informer :
      ObjectBucketClaimInformer → Factory V → SharedInformer V × Factory V
  claim_informer i f = informer_for Kind.claim (default_claim_informer i) f

  -- objectBucketInformer.defaultInformer
  unfoldable pub default_bucket_informer : ObjectBucketInformer → ℕ → SharedInformer V
  default_bucket_informer i resync_period =
      new_filtered_bucket_informer V resync_period (namespace_index ∷ []) i.tweak_list_options

  -- objectBucketInformer.Informer
  unfoldable pub bucket_informer : ObjectBucketInformer → Factory V → SharedInformer V × Factory V
  bucket_informer i f = informer_for Kind.bucket (default_bucket_informer i) f

  -- ForResource: the informer with the resource of the GenericInformer; `none` for its error.
  unfoldable pub for_resource :
      Resource → Factory V → Option (SharedInformer V × (Text × Text)) × Factory V
  unfolding is_resource
  for_resource r f =
      let (b, fb) = bucket_informer (object_buckets (v1alpha1 (objectbucket f))) f in
      let (c, fc) = claim_informer (object_bucket_claims (v1alpha1 (objectbucket f))) f in
      if is_resource (codes "objectbuckets") r
      then (some (b, (r.group, r.resource)), fb)
      else if is_resource (codes "objectbucketclaims") r
      then (some (c, (r.group, r.resource)), fc)
      else (none, f)
