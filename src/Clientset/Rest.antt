-- ===== src/Clientset/Rest.antt =====
-- What the typed clients ask of client-go: a request is the chain of builder calls up to `Do` or
-- `Watch`, and `Rest` is what `Do(ctx).Into(result)`, `Do(ctx).Error()` and `Watch(ctx)` answer.
use lib_bucket_provisioner.Base.{ℕ, ◌*◌, ◌%◌, ◌^◌, Text, Bool, Option, none, some, List}
use lib_bucket_provisioner.V1alpha1.{ObjectBucket, ObjectBucketClaim}
use lib_bucket_provisioner.V1alpha1.Lists.{ObjectBucketList, ObjectBucketClaimList}
use lib_bucket_provisioner.Cluster.Error.{Error, Reply}

-- The option types of apimachinery that the clients only pass on.
pub record OptionTypes : Type 1 where
  pub GetOptions : Type 0
  pub CreateOptions : Type 0
  pub UpdateOptions : Type 0
  pub DeleteOptions : Type 0
  pub PatchOptions : Type 0

-- metav1.ListOptions: `timeout_seconds` is an int64, as its bits.
pub record ListOptions : Type 0 where
  pub label_selector : Text
  pub field_selector : Text
  pub watch : Bool
  pub resource_version : Text
  pub timeout_seconds : Option ℕ

pub data Verb : Type 0 where
  get post put delete : Verb
  patch : Text → Verb

pub data Params (O : OptionTypes) : Type 0 where
  get_params : O.GetOptions → Params O
  create_params : O.CreateOptions → Params O
  update_params : O.UpdateOptions → Params O
  patch_params : O.PatchOptions → Params O
  list_params : ListOptions → Params O

pub data Body (O : OptionTypes) : Type 0 where
  no_body : Body O
  claim_body : ObjectBucketClaim → Body O
  bucket_body : ObjectBucket → Body O
  options_body : O.DeleteOptions → Body O
  bytes_body : Text → Body O

-- `none` for a builder call that is not in the chain.
pub record Request (O : OptionTypes) : Type 0 where
  pub verb : Verb
  pub namespace : Option Text
  pub resource : Text
  pub name : Option Text
  pub subresources : List Text
  pub params : Option (Params O)
  pub timeout : Option ℕ
  pub body : Body O

pub record Rest (O : OptionTypes) : Type 1 where
  pub State : Type 0
  pub Watcher : Type 0
  -- Do(ctx).Into(result): what `result` is afterwards, and the error
  pub into_claim :
      ObjectBucketClaim → Request O → State → (ObjectBucketClaim × Option Error) × State
  pub into_bucket : ObjectBucket → Request O → State → (ObjectBucket × Option Error) × State
  pub into_claim_list :
      ObjectBucketClaimList → Request O → State → (ObjectBucketClaimList × Option Error) × State
  pub into_bucket_list :
      ObjectBucketList → Request O → State → (ObjectBucketList × Option Error) × State
  -- Do(ctx).Error()
  pub error : Request O → State → Option Error × State
  -- Watch(ctx)
  pub watch : Request O → State → Reply Watcher × State

-- time.Second, in nanoseconds.
abbrev pub second : ℕ
second = 1000000000

-- `time.Duration(*s) * time.Second`, which wraps around at 64 bits; the zero duration without one.
unfoldable pub timeout_of : Option ℕ → ℕ
timeout_of none = 0
timeout_of (some s) = s * second % 2 ^ 64
