-- ===== src/Clientset/Claims.antt =====
-- typed/objectbucket.io/v1alpha1/objectbucketclaim.go: the client of ObjectBucketClaims(ns). A method is the request
-- that it sends and the result with its error, both of which the Go code returns.
use lib_bucket_provisioner.Base.{Text, codes, true, Option, none, some, List, [], ◌∷◌}
use lib_bucket_provisioner.V1alpha1.{ObjectBucketClaim, empty_claim}
use lib_bucket_provisioner.V1alpha1.Lists.{ObjectBucketClaimList, empty_claim_list}
use lib_bucket_provisioner.Cluster.Error.{Error, Reply}
use lib_bucket_provisioner.Clientset.Rest.{
  OptionTypes, ListOptions, Verb, get_params, create_params, update_params, patch_params,
  list_params, no_body, claim_body, options_body, bytes_body, Request, Rest, timeout_of,
}

abbrev pub resource_name : Text
resource_name = codes "objectbucketclaims"

module _ {O : OptionTypes} where
  unfoldable pub get_request : Text → Text → O.GetOptions → Request O
  get_request ns name options = record {
    verb = Verb.get;
    namespace = some ns;
    resource = resource_name;
    name = some name;
    subresources = [];
    params = some (get_params options);
    timeout = none;
    body = no_body;
  }

  unfoldable pub list_request : Text → ListOptions → Request O
  list_request ns opts = record {
    verb = Verb.get;
    namespace = some ns;
    resource = resource_name;
    name = none;
    subresources = [];
    params = some (list_params opts);
    timeout = some (timeout_of opts.timeout_seconds);
    body = no_body;
  }

  -- `opts.Watch = true`
  unfoldable pub watch_request : Text → ListOptions → Request O
  unfolding list_request
  watch_request ns opts = list_request ns (record opts { watch = true })

  unfoldable pub create_request : Text → ObjectBucketClaim → O.CreateOptions → Request O
  create_request ns obj opts = record {
    verb = Verb.post;
    namespace = some ns;
    resource = resource_name;
    name = none;
    subresources = [];
    params = some (create_params opts);
    timeout = none;
    body = claim_body obj;
  }

  unfoldable pub update_request : Text → ObjectBucketClaim → O.UpdateOptions → Request O
  update_request ns obj opts = record {
    verb = Verb.put;
    namespace = some ns;
    resource = resource_name;
    name = some obj.meta.name;
    subresources = [];
    params = some (update_params opts);
    timeout = none;
    body = claim_body obj;
  }

  unfoldable pub update_status_request : Text → ObjectBucketClaim → O.UpdateOptions → Request O
  update_status_request ns obj opts = record {
    verb = Verb.put;
    namespace = some ns;
    resource = resource_name;
    name = some obj.meta.name;
    subresources = codes "status" ∷ [];
    params = some (update_params opts);
    timeout = none;
    body = claim_body obj;
  }

  unfoldable pub delete_request : Text → Text → O.DeleteOptions → Request O
  delete_request ns name opts = record {
    verb = Verb.delete;
    namespace = some ns;
    resource = resource_name;
    name = some name;
    subresources = [];
    params = none;
    timeout = none;
    body = options_body opts;
  }

  unfoldable pub delete_collection_request : Text → O.DeleteOptions → ListOptions → Request O
  delete_collection_request ns opts list_opts = record {
    verb = Verb.delete;
    namespace = some ns;
    resource = resource_name;
    name = none;
    subresources = [];
    params = some (list_params list_opts);
    timeout = some (timeout_of list_opts.timeout_seconds);
    body = options_body opts;
  }

  unfoldable pub patch_request : Text → Text → Text → Text → O.PatchOptions → List Text → Request O
  patch_request ns name patch_type bytes opts subresources = record {
    verb = Verb.patch patch_type;
    namespace = some ns;
    resource = resource_name;
    name = some name;
    subresources = subresources;
    params = some (patch_params opts);
    timeout = none;
    body = bytes_body bytes;
  }

module _ {O : OptionTypes} (R : Rest O) (ns : Text) where
  unfoldable pub get : Text → O.GetOptions → R.State → (ObjectBucketClaim × Option Error) × R.State
  unfolding get_request
  get name options = R.into_claim empty_claim (get_request ns name options)

  unfoldable pub list : ListOptions → R.State → (ObjectBucketClaimList × Option Error) × R.State
  unfolding list_request
  list opts = R.into_claim_list empty_claim_list (list_request ns opts)

  unfoldable pub watch : ListOptions → R.State → Reply R.Watcher × R.State
  unfolding watch_request
  watch opts = R.watch (watch_request ns opts)

  unfoldable pub create :
      ObjectBucketClaim → O.CreateOptions → R.State → (ObjectBucketClaim × Option Error) × R.State
  unfolding create_request
  create obj opts = R.into_claim empty_claim (create_request ns obj opts)

  unfoldable pub update :
      ObjectBucketClaim → O.UpdateOptions → R.State → (ObjectBucketClaim × Option Error) × R.State
  unfolding update_request
  update obj opts = R.into_claim empty_claim (update_request ns obj opts)

  unfoldable pub update_status :
      ObjectBucketClaim → O.UpdateOptions → R.State → (ObjectBucketClaim × Option Error) × R.State
  unfolding update_status_request
  update_status obj opts = R.into_claim empty_claim (update_status_request ns obj opts)

  unfoldable pub delete : Text → O.DeleteOptions → R.State → Option Error × R.State
  unfolding delete_request
  delete name opts = R.error (delete_request ns name opts)

  unfoldable pub delete_collection :
      O.DeleteOptions → ListOptions → R.State → Option Error × R.State
  unfolding delete_collection_request
  delete_collection opts list_opts = R.error (delete_collection_request ns opts list_opts)

  unfoldable pub patch :
      Text
      → Text
      → Text
      → O.PatchOptions
      → List Text
      → R.State
      → (ObjectBucketClaim × Option Error) × R.State
  unfolding patch_request
  patch name patch_type bytes opts subresources =
      R.into_claim empty_claim (patch_request ns name patch_type bytes opts subresources)
