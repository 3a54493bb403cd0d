-- ===== src/Clientset/Fake/Claims.antt =====
-- typed/objectbucket.io/v1alpha1/fake/fake_objectbucketclaim.go
use lib_bucket_provisioner.Base.{Text, codes, Option, none, some, List}
use lib_bucket_provisioner.V1alpha1.{ObjectBucketClaim, empty_claim}
use lib_bucket_provisioner.V1alpha1.Lists.{ObjectBucketClaimList, empty_claim_list}
use lib_bucket_provisioner.Cluster.Error.{Error, Reply}
use lib_bucket_provisioner.Clientset.Rest.{ListOptions}
use lib_bucket_provisioner.Clientset.Fake.{
  Resource, Object, Action, Tracker, append_matching, items_of,
}

abbrev pub claim_resource : Resource
claim_resource = record {
  group = codes "objectbucket.io";
  version = codes "v1alpha1";
  resource = codes "objectbucketclaims";
}

unfoldable pub get_action : Text → Text → Action
get_action ns name = Action.get claim_resource (some ns) name

unfoldable pub list_action : Text → ListOptions → Action
list_action ns opts = Action.list claim_resource (some ns) opts

unfoldable pub watch_action : Text → ListOptions → Action
watch_action ns opts = Action.watch claim_resource (some ns) opts

unfoldable pub create_action : Text → ObjectBucketClaim → Action
create_action ns obj = Action.create claim_resource (some ns) (Object.claim obj)

unfoldable pub update_action : Text → ObjectBucketClaim → Action
update_action ns obj = Action.update claim_resource (some ns) (Object.claim obj)

unfoldable pub update_status_action : Text → ObjectBucketClaim → Action
update_status_action ns obj =
    Action.update_subresource claim_resource (codes "status") (some ns) (Object.claim obj)

unfoldable pub delete_action : Text → Text → Action
delete_action ns name = Action.delete claim_resource (some ns) name

unfoldable pub delete_collection_action : Text → ListOptions → Action
delete_collection_action ns list_opts = Action.delete_collection claim_resource (some ns) list_opts

unfoldable pub patch_action : Text → Text → Text → Text → List Text → Action
patch_action ns name patch_type bytes subresources =
    Action.patch_subresource claim_resource (some ns) name patch_type bytes subresources

-- `if obj == nil { return nil, err }`: else the object with the error.
unfoldable pub filtered :
    (Tracker → ListOptions → ObjectBucketClaimList → ObjectBucketClaimList)
    → Tracker
    → ListOptions
    → Option ObjectBucketClaimList × Option Error
    → Option ObjectBucketClaimList × Option Error
filtered select T opts (none, err) = (none, err)
filtered select T opts (some l, err) = (some (select T opts l), err)

-- The list that is made has the tracker's ListMeta and no TypeMeta.
unfoldable pub select_items : Tracker → ListOptions → ObjectBucketClaimList → ObjectBucketClaimList
select_items T opts l = record empty_claim_list {
  meta = l.meta;
  items = append_matching (λ item. T.matches opts item.meta) (items_of l.items) none;
}

module _ (T : Tracker) (ns : Text) where
  unfoldable pub get : Text → T.State → (Option ObjectBucketClaim × Option Error) × T.State
  unfolding get_action
  get name = T.invokes_claim (get_action ns name) empty_claim

  unfoldable pub list :
      ListOptions → T.State → (Option ObjectBucketClaimList × Option Error) × T.State
  unfolding list_action filtered select_items
  list opts s =
      let (r, s') = T.invokes_claim_list (list_action ns opts) empty_claim_list s in
      (filtered select_items T opts r, s')

  unfoldable pub watch : ListOptions → T.State → Reply T.Watcher × T.State
  unfolding watch_action
  watch opts = T.invokes_watch (watch_action ns opts)

  unfoldable pub create :
      ObjectBucketClaim → T.State → (Option ObjectBucketClaim × Option Error) × T.State
  unfolding create_action
  create obj = T.invokes_claim (create_action ns obj) empty_claim

  unfoldable pub update :
      ObjectBucketClaim → T.State → (Option ObjectBucketClaim × Option Error) × T.State
  unfolding update_action
  update obj = T.invokes_claim (update_action ns obj) empty_claim

  unfoldable pub update_status :
      ObjectBucketClaim → T.State → (Option ObjectBucketClaim × Option Error) × T.State
  unfolding update_status_action
  update_status obj = T.invokes_claim (update_status_action ns obj) empty_claim

  unfoldable pub delete : Text → T.State → Option Error × T.State
  unfolding delete_action
  delete name s = let (r, s') = T.invokes_claim (delete_action ns name) empty_claim s in (r.1, s')

  unfoldable pub delete_collection : ListOptions → T.State → Option Error × T.State
  unfolding delete_collection_action
  delete_collection list_opts s =
      let (r, s') =
        T.invokes_claim_list (delete_collection_action ns list_opts) empty_claim_list s in
      (r.1, s')

  unfoldable pub patch :
      Text → Text → Text → List Text → T.State → (Option ObjectBucketClaim × Option Error) × T.State
  unfolding patch_action
  patch name patch_type bytes subresources =
      T.invokes_claim (patch_action ns name patch_type bytes subresources) empty_claim
