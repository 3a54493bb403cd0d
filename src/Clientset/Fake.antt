-- ===== src/Clientset/Fake.antt =====
-- typed/objectbucket.io/v1alpha1/fake: what the fake clients ask of the object tracker of client-go.
-- An action is the call of `testing.New…Action` with its arguments; `Tracker` is what `Invokes` and
-- `InvokesWatch` answer: an object or nil, and an error. The fake of one kind is in a child each.
pub mod Claims
pub mod Buckets
pub mod Laws
pub mod Simple
use lib_bucket_provisioner.Base.{Text, Bool, if◌then◌else◌, Option, none, some, List, [], ◌∷◌, ◌++◌}
use lib_bucket_provisioner.V1alpha1.{ObjectMeta, ObjectBucket, ObjectBucketClaim}
use lib_bucket_provisioner.V1alpha1.Lists.{ObjectBucketList, ObjectBucketClaimList}
use lib_bucket_provisioner.Cluster.Error.{Error, Reply}
use lib_bucket_provisioner.Clientset.Rest.{ListOptions}

-- schema.GroupVersionResource
pub record Resource : Type 0 where
  pub group : Text
  pub version : Text
  pub resource : Text

pub data Object : Type 0 where
  claim : ObjectBucketClaim → Object
  bucket : ObjectBucket → Object

-- The namespace is `none` for the `NewRoot…` actions.
pub data Action : Type 0 where
  get delete : Resource → Option Text → Text → Action
  list watch delete_collection : Resource → Option Text → ListOptions → Action
  create update : Resource → Option Text → Object → Action
  -- with the subresource
  update_subresource : Resource → Text → Option Text → Object → Action
  -- name, patch type, bytes, subresources
  patch_subresource : Resource → Option Text → Text → Text → Text → List Text → Action

pub record Tracker : Type 1 where
  pub State : Type 0
  pub Watcher : Type 0
  pub invokes_claim :
      Action → ObjectBucketClaim → State → (Option ObjectBucketClaim × Option Error) × State
  pub invokes_bucket : Action → ObjectBucket → State → (Option ObjectBucket × Option Error) × State
  pub invokes_claim_list :
      Action → ObjectBucketClaimList → State → (Option ObjectBucketClaimList × Option Error) × State
  pub invokes_bucket_list :
      Action → ObjectBucketList → State → (Option ObjectBucketList × Option Error) × State
  pub invokes_watch : Action → State → Reply Watcher × State
  -- ExtractFromListOptions and label.Matches: whether the selector of the options, which is
  -- Everything() if it is nil, matches the labels
  pub matches : ListOptions → ObjectMeta → Bool

-- `append(s, x)`
unfoldable pub appended : {A : Type 0} → Option (List A) → A → List A
appended none x = x ∷ []
appended (some xs) x = xs ++ (x ∷ [])

abbrev pub items_of : {A : Type 0} → Option (List A) → List A
items_of none = []
items_of (some xs) = xs

-- `for _, item := range … { if label.Matches(…) { list.Items = append(list.Items, item) } }`, with the
-- slice so far.
unfoldable pub append_matching :
    {A : Type 0} → (A → Bool) → List A → Option (List A) → Option (List A)
append_matching matches [] acc = acc
append_matching matches (x ∷ xs) acc =
    append_matching matches xs (if matches x then some (appended acc x) else acc)
