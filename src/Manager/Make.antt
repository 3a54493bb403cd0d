-- ===== src/Manager/Make.antt =====
-- manager.go: setupInformerFactory and NewProvisioner, with what NewController asks of the informers.
-- The clients that `NewForConfigOrDie` makes are the `V` of the factory.
use lib_bucket_provisioner.Base.{
  ℕ, Text, length, ltb, if◌then◌else◌, Bool-cases, inl, inr, arith, Option, none, some, List, [],
  ◌∷◌, ◌≡◌, refl,
}
use lib_bucket_provisioner.V1alpha1.Lists.{empty_bucket_list, empty_claim_list}
use lib_bucket_provisioner.Clientset.Rest.{OptionTypes, Rest}
use lib_bucket_provisioner.Clientset.Versioned.{Versioned, real}
use lib_bucket_provisioner.Clientset.Claims as RealClaims
use lib_bucket_provisioner.Clientset.Buckets as RealBuckets
use lib_bucket_provisioner.Controller.Resources.{Controller, new_controller}
use lib_bucket_provisioner.Informers.{
  Kind, Listed, namespace_index, SharedInformer, find, put, tweaked,
}
use lib_bucket_provisioner.Informers.Factory.{
  Factory, new_shared_informer_factory, new_shared_informer_factory_with_options, with_namespace,
  start, start_all, is_started, informer_for, apply_options,
}
use lib_bucket_provisioner.Informers.Scoped.{
  ObjectBucketClaimInformer, ObjectBucketInformer, objectbucket, v1alpha1, object_buckets,
  object_bucket_claims, claim_informer, bucket_informer, default_claim_informer,
  default_bucket_informer, new_filtered_claim_informer, new_filtered_bucket_informer, answer_as,
}

-- `Api` is the type of the provisioner author's api.Provisioner.
pub record Provisioner (V : Versioned) (Api : Type 0) : Type 0 where
  pub name : Text
  pub provisioner : Option Api
  pub claim_controller : Controller
  pub informer_factory : Factory V

unfoldable pub setup_informer_factory : {V : Versioned} → ℕ → Text → Factory V
setup_informer_factory resync_period ns =
    if ltb 0 (length ns)
    then new_shared_informer_factory_with_options resync_period (with_namespace ns ∷ [])
    else new_shared_informer_factory resync_period

-- NewController: the listers, HasSynced of both informers and the event handlers' informer.
unfoldable pub request_informers :
    {V : Versioned} → ObjectBucketClaimInformer → ObjectBucketInformer → Factory V → Factory V
request_informers obc_informer ob_informer f =
    let f1 = (claim_informer obc_informer f).1 in
    let f2 = (bucket_informer ob_informer f1).1 in
    let f3 = (claim_informer obc_informer f2).1 in
    let f4 = (bucket_informer ob_informer f3).1 in (claim_informer obc_informer f4).1

-- The error result is always nil. The struct literal sets no field `Provisioner`.
unfoldable pub new_provisioner :
    {V : Versioned} {Api : Type 0} → (Text → List Text) → Text → Api → Text → Provisioner V Api
unfolding request_informers
new_provisioner is_valid_label_value provisioner_name provisioner namespace =
    let f = setup_informer_factory 0 namespace in
    let v = v1alpha1 (objectbucket f) in
    record {
      name = provisioner_name;
      provisioner = none;
      claim_controller = new_controller is_valid_label_value provisioner_name;
      informer_factory = request_informers (object_bucket_claims v) (object_buckets v) f;
    }

-- An empty namespace is the one that a factory has without options.
setup_informer_factory_lem :
    {V : Versioned} (resync_period : ℕ) (ns : Text)
    → setup_informer_factory {V = V} resync_period ns
      ≡ new_shared_informer_factory_with_options resync_period (with_namespace ns ∷ [])
unfolding setup_informer_factory new_shared_informer_factory
    new_shared_informer_factory_with_options apply_options with_namespace
setup_informer_factory_lem resync_period [] = refl
setup_informer_factory_lem resync_period (b ∷ ns) = elim (Bool-cases (ltb 0 (length (b ∷ ns)))) [
  | inl h ↦ rw (h) refl
  | inr h ↦ ground arith
]

module _ {O : OptionTypes} (R : Rest O) where
  -- The informer of claims in a namespace over the real client.
  abbrev pub claims_in : Text → SharedInformer (real R)
  claims_in ns = record {
    list_func = λ opts s.
        let ((l, err), s') =
          R.into_claim_list empty_claim_list (RealClaims.list_request ns opts) s in
        ((Listed.claims (some l), err), s');
    watch_func = λ opts. R.watch (RealClaims.watch_request ns opts);
    object = Kind.claim;
    resync_period = 0;
    indexers = namespace_index ∷ [];
  }

  abbrev pub all_buckets : SharedInformer (real R)
  all_buckets = record {
    list_func = λ opts s.
        let ((l, err), s') =
          R.into_bucket_list empty_bucket_list (RealBuckets.list_request opts) s in
        ((Listed.buckets (some l), err), s');
    watch_func = λ opts. R.watch (RealBuckets.watch_request opts);
    object = Kind.bucket;
    resync_period = 0;
    indexers = namespace_index ∷ [];
  }

  -- Over the real client, the first start of the factory that NewProvisioner makes launches two informers: one
  -- that lists and watches the claims of the given namespace and one that lists and watches all object
  -- buckets, both with the options as they come and without resync.
  pub new_provisioner-launches :
      {Api : Type 0} (is_valid_label_value : Text → List Text) (name : Text) (api : Api) (ns : Text)
      → (start (new_provisioner {V = real R} is_valid_label_value name api ns).informer_factory).0
        ≡ (Kind.claim, claims_in ns) ∷ (Kind.bucket, all_buckets) ∷ []
  unfolding new_provisioner start start_all is_started find put claim_informer bucket_informer
      informer_for new_shared_informer_factory new_shared_informer_factory_with_options
      apply_options with_namespace default_claim_informer default_bucket_informer
      new_filtered_claim_informer new_filtered_bucket_informer tweaked objectbucket v1alpha1
      object_buckets object_bucket_claims RealClaims.list RealClaims.watch RealBuckets.list
      RealBuckets.watch answer_as
  new_provisioner-launches is_valid_label_value name api ns =
      rw (setup_informer_factory_lem {V = real R} 0 ns, new_provisioner) refl
