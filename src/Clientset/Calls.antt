-- ===== src/Clientset/Calls.antt =====
-- One operation of a typed client as a value, the request that the client sends for it and the action
-- that the fake client invokes for it, compared as calls.
use lib_bucket_provisioner.Base.{
  if◌then◌else◌, Text, false, Option, none, some, List, [], ◌∷◌, ◌≡◌, refl,
}
use lib_bucket_provisioner.V1alpha1.{ObjectBucket, ObjectBucketClaim}
use lib_bucket_provisioner.Clientset.Rest.{
  OptionTypes, ListOptions, Verb, Params, list_params, Body, claim_body, bucket_body, bytes_body,
  Request,
}
use lib_bucket_provisioner.Clientset.Fake.{Object, Action}
use lib_bucket_provisioner.Clientset.Claims as RealClaims
use lib_bucket_provisioner.Clientset.Buckets as RealBuckets
use lib_bucket_provisioner.Clientset.Fake.Claims as FakeClaims
use lib_bucket_provisioner.Clientset.Fake.Buckets as FakeBuckets

-- The methods of ObjectBucketClaimInterface and ObjectBucketInterface with their arguments.
pub data Op (O : OptionTypes) (A : Type 0) : Type 0 where
  get : Text → O.GetOptions → Op O A
  list watch : ListOptions → Op O A
  create : A → O.CreateOptions → Op O A
  update update_status : A → O.UpdateOptions → Op O A
  delete : Text → O.DeleteOptions → Op O A
  delete_collection : O.DeleteOptions → ListOptions → Op O A
  patch : Text → Text → Text → O.PatchOptions → List Text → Op O A

pub data What : Type 0 where
  getting listing watching creating updating deleting deleting_collection : What
  patching : Text → Text → What

-- What a request and an action both say.
pub record Call : Type 0 where
  pub what : What
  pub namespace : Option Text
  pub resource : Text
  pub name : Option Text
  pub subresources : List Text
  pub object : Option Object

pub object_name : Object → Text
object_name (Object.claim c) = c.meta.name
object_name (Object.bucket b) = b.meta.name

abbrev object_of : {O : OptionTypes} → Body O → Option Object
object_of (claim_body c) = some (Object.claim c)
object_of (bucket_body b) = some (Object.bucket b)
object_of _ = none

-- A GET without a name is a list, unless the options say that it is a watch.
abbrev get_of : {O : OptionTypes} → Option Text → Option (Params O) → What
get_of (some name) params = What.getting
get_of none (some (list_params opts)) = if opts.watch then What.watching else What.listing
get_of none _ = What.listing

abbrev delete_of : Option Text → What
delete_of (some name) = What.deleting
delete_of none = What.deleting_collection

abbrev bytes_of : {O : OptionTypes} → Body O → Text
bytes_of (bytes_body b) = b
bytes_of _ = []

abbrev what_of : {O : OptionTypes} → Verb → Option Text → Option (Params O) → Body O → What
what_of Verb.get name params body = get_of name params
what_of Verb.post name params body = What.creating
what_of Verb.put name params body = What.updating
what_of Verb.delete name params body = delete_of name
what_of (Verb.patch t) name params body = What.patching t (bytes_of body)

-- What the API server reads in a request.
unfoldable pub call_of_request : {O : OptionTypes} → Request O → Call
call_of_request r = record {
  what = what_of r.verb r.name r.params r.body;
  namespace = r.namespace;
  resource = r.resource;
  name = r.name;
  subresources = r.subresources;
  object = object_of r.body;
}

abbrev call : What → Option Text → Text → Option Text → List Text → Option Object → Call
call w ns r n subs o = record {
  what = w;
  namespace = ns;
  resource = r;
  name = n;
  subresources = subs;
  object = o;
}

-- What the object tracker reads in an action.
unfoldable pub call_of_action : Action → Call
unfolding object_name
call_of_action (Action.get r ns name) = call What.getting ns r.resource (some name) [] none
call_of_action (Action.delete r ns name) = call What.deleting ns r.resource (some name) [] none
call_of_action (Action.list r ns opts) = call What.listing ns r.resource none [] none
call_of_action (Action.watch r ns opts) = call What.watching ns r.resource none [] none
call_of_action (Action.delete_collection r ns opts) =
    call What.deleting_collection ns r.resource none [] none
call_of_action (Action.create r ns o) = call What.creating ns r.resource none [] (some o)
call_of_action (Action.update r ns o) =
    call What.updating ns r.resource (some (object_name o)) [] (some o)
call_of_action (Action.update_subresource r sub ns o) =
    call What.updating ns r.resource (some (object_name o)) (sub ∷ []) (some o)
call_of_action (Action.patch_subresource r ns name t bytes subs) =
    call (What.patching t bytes) ns r.resource (some name) subs none

module _ {O : OptionTypes} where
  unfoldable pub claim_request : Text → Op O ObjectBucketClaim → Request O
  claim_request ns (get name opts) = RealClaims.get_request ns name opts
  claim_request ns (list opts) = RealClaims.list_request ns opts
  claim_request ns (watch opts) = RealClaims.watch_request ns opts
  claim_request ns (create c opts) = RealClaims.create_request ns c opts
  claim_request ns (update c opts) = RealClaims.update_request ns c opts
  claim_request ns (update_status c opts) = RealClaims.update_status_request ns c opts
  claim_request ns (delete name opts) = RealClaims.delete_request ns name opts
  claim_request ns (delete_collection opts list_opts) =
      RealClaims.delete_collection_request ns opts list_opts
  claim_request ns (patch name t bytes opts subs) =
      RealClaims.patch_request ns name t bytes opts subs

  unfoldable pub claim_action : Text → Op O ObjectBucketClaim → Action
  claim_action ns (get name opts) = FakeClaims.get_action ns name
  claim_action ns (list opts) = FakeClaims.list_action ns opts
  claim_action ns (watch opts) = FakeClaims.watch_action ns opts
  claim_action ns (create c opts) = FakeClaims.create_action ns c
  claim_action ns (update c opts) = FakeClaims.update_action ns c
  claim_action ns (update_status c opts) = FakeClaims.update_status_action ns c
  claim_action ns (delete name opts) = FakeClaims.delete_action ns name
  claim_action ns (delete_collection opts list_opts) =
      FakeClaims.delete_collection_action ns list_opts
  claim_action ns (patch name t bytes opts subs) = FakeClaims.patch_action ns name t bytes subs

  unfoldable pub bucket_request : Op O ObjectBucket → Request O
  bucket_request (get name opts) = RealBuckets.get_request name opts
  bucket_request (list opts) = RealBuckets.list_request opts
  bucket_request (watch opts) = RealBuckets.watch_request opts
  bucket_request (create b opts) = RealBuckets.create_request b opts
  bucket_request (update b opts) = RealBuckets.update_request b opts
  bucket_request (update_status b opts) = RealBuckets.update_status_request b opts
  bucket_request (delete name opts) = RealBuckets.delete_request name opts
  bucket_request (delete_collection opts list_opts) =
      RealBuckets.delete_collection_request opts list_opts
  bucket_request (patch name t bytes opts subs) = RealBuckets.patch_request name t bytes opts subs

  unfoldable pub bucket_action : Op O ObjectBucket → Action
  bucket_action (get name opts) = FakeBuckets.get_action name
  bucket_action (list opts) = FakeBuckets.list_action opts
  bucket_action (watch opts) = FakeBuckets.watch_action opts
  bucket_action (create b opts) = FakeBuckets.create_action b
  bucket_action (update b opts) = FakeBuckets.update_action b
  bucket_action (update_status b opts) = FakeBuckets.update_status_action b
  bucket_action (delete name opts) = FakeBuckets.delete_action name
  bucket_action (delete_collection opts list_opts) = FakeBuckets.delete_collection_action list_opts
  bucket_action (patch name t bytes opts subs) = FakeBuckets.patch_action name t bytes subs

  -- The options of a List do not ask for a watch: the request of such a List is that of Watch.
  abbrev pub IsPlain : {A : Type 0} → Op O A → Type 0
  IsPlain (list opts) = opts.watch ≡ false
  IsPlain _ = Unit {0}

  -- For each method of the claims client, except a List whose options ask for a watch, the request of
  -- the real client and the action of the fake say the same: what to do, on which resource, name and
  -- subresources and with which object; and the namespace of both is the client's.
  pub claim_request-claim_action :
      (ns : Text) (op : Op O ObjectBucketClaim)
      → IsPlain op
      → (call_of_request (claim_request ns op) ≡ call_of_action (claim_action ns op))
        × ((call_of_action (claim_action ns op)).namespace ≡ some ns)
  unfolding call_of_request call_of_action object_name claim_request claim_action
      RealClaims.get_request RealClaims.list_request RealClaims.watch_request
      RealClaims.create_request RealClaims.update_request RealClaims.update_status_request
      RealClaims.delete_request RealClaims.delete_collection_request RealClaims.patch_request
      FakeClaims.get_action FakeClaims.list_action FakeClaims.watch_action FakeClaims.create_action
      FakeClaims.update_action FakeClaims.update_status_action FakeClaims.delete_action
      FakeClaims.delete_collection_action FakeClaims.patch_action
  claim_request-claim_action ns (get name opts) h = (refl, refl)
  claim_request-claim_action ns (list opts) h = (rw (h) refl, refl)
  claim_request-claim_action ns (watch opts) h = (refl, refl)
  claim_request-claim_action ns (create c opts) h = (refl, refl)
  claim_request-claim_action ns (update c opts) h = (refl, refl)
  claim_request-claim_action ns (update_status c opts) h = (refl, refl)
  claim_request-claim_action ns (delete name opts) h = (refl, refl)
  claim_request-claim_action ns (delete_collection opts list_opts) h = (refl, refl)
  claim_request-claim_action ns (patch name t bytes opts subs) h = (refl, refl)

  -- For each method of the buckets client, except a List whose options ask for a watch, the request of
  -- the real client and the action of the fake say the same, and neither has a namespace.
  pub bucket_request-bucket_action :
      (op : Op O ObjectBucket)
      → IsPlain op
      → (call_of_request (bucket_request op) ≡ call_of_action (bucket_action op))
        × ((call_of_action (bucket_action op)).namespace ≡ none)
  unfolding call_of_request call_of_action object_name bucket_request bucket_action
      RealBuckets.get_request RealBuckets.list_request RealBuckets.watch_request
      RealBuckets.create_request RealBuckets.update_request RealBuckets.update_status_request
      RealBuckets.delete_request RealBuckets.delete_collection_request RealBuckets.patch_request
      FakeBuckets.get_action FakeBuckets.list_action FakeBuckets.watch_action
      FakeBuckets.create_action FakeBuckets.update_action FakeBuckets.update_status_action
      FakeBuckets.delete_action FakeBuckets.delete_collection_action FakeBuckets.patch_action
  bucket_request-bucket_action (get name opts) h = (refl, refl)
  bucket_request-bucket_action (list opts) h = (rw (h) refl, refl)
  bucket_request-bucket_action (watch opts) h = (refl, refl)
  bucket_request-bucket_action (create b opts) h = (refl, refl)
  bucket_request-bucket_action (update b opts) h = (refl, refl)
  bucket_request-bucket_action (update_status b opts) h = (refl, refl)
  bucket_request-bucket_action (delete name opts) h = (refl, refl)
  bucket_request-bucket_action (delete_collection opts list_opts) h = (refl, refl)
  bucket_request-bucket_action (patch name t bytes opts subs) h = (refl, refl)
