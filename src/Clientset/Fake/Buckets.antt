-- ===== src/Clientset/Fake/Buckets.antt =====
-- typed/objectbucket.io/v1alpha1/fake/fake_objectbucket.go
use lib_bucket_provisioner.Base.{Text, codes, Option, none, some, List}
use lib_bucket_provisioner.V1alpha1.{ObjectBucket, empty_bucket}
use lib_bucket_provisioner.V1alpha1.Lists.{ObjectBucketList, empty_bucket_list}
use lib_bucket_provisioner.Cluster.Error.{Error, Reply}
use lib_bucket_provisioner.Clientset.Rest.{ListOptions}
use lib_bucket_provisioner.Clientset.Fake.{
  Resource, Object, Action, Tracker, append_matching, items_of,
}

abbrev pub bucket_resource : Resource
bucket_resource = record {
  group = codes "objectbucket.io";
  version = codes "v1alpha1";
  resource = codes "objectbuckets";
}

unfoldable pub get_action : Text → Action
get_action name = Action.get bucket_resource none name

unfoldable pub list_action : ListOptions → Action
list_action opts = Action.list bucket_resource none opts

unfoldable pub watch_action : ListOptions → Action
watch_action opts = Action.watch bucket_resource none opts

unfoldable pub create_action : ObjectBucket → Action
create_action obj = Action.create bucket_resource none (Object.bucket obj)

unfoldable pub update_action : ObjectBucket → Action
update_action obj = Action.update bucket_resource none (Object.bucket obj)

unfoldable pub update_status_action : ObjectBucket → Action
update_status_action obj =
    Action.update_subresource bucket_resource (codes "status") none (Object.bucket obj)

unfoldable pub delete_action : Text → Action
delete_action name = Action.delete bucket_resource none name

unfoldable pub delete_collection_action : ListOptions → Action
delete_collection_action list_opts = Action.delete_collection bucket_resource none list_opts

unfoldable pub patch_action : Text → Text → Text → List Text → Action
patch_action name patch_type bytes subresources =
    Action.patch_subresource bucket_resource none name patch_type bytes subresources

-- `if obj == nil { return nil, err }`: else the object with the error.
unfoldable pub filtered :
    (Tracker → ListOptions → ObjectBucketList → ObjectBucketList)
    → Tracker
    → ListOptions
    → Option ObjectBucketList × Option Error
    → Option ObjectBucketList × Option Error
filtered select T opts (none, err) = (none, err)
filtered select T opts (some l, err) = (some (select T opts l), err)

-- The list that is made has the tracker's ListMeta and no TypeMeta.
unfoldable pub select_items : Tracker → ListOptions → ObjectBucketList → ObjectBucketList
select_items T opts l = record empty_bucket_list {
  meta = l.meta;
  items = append_matching (λ item. T.matches opts item.meta) (items_of l.items) none;
}

module _ (T : Tracker) where
  unfoldable pub get : Text → T.State → (Option ObjectBucket × Option Error) × T.State
  unfolding get_action
  get name = T.invokes_bucket (get_action name) empty_bucket

  unfoldable pub list : ListOptions → T.State → (Option ObjectBucketList × Option Error) × T.State
  unfolding list_action filtered select_items
  list opts s =
      let (r, s') = T.invokes_bucket_list (list_action opts) empty_bucket_list s in
      (filtered select_items T opts r, s')

  unfoldable pub watch : ListOptions → T.State → Reply T.Watcher × T.State
  unfolding watch_action
  watch opts = T.invokes_watch (watch_action opts)

  unfoldable pub create : ObjectBucket → T.State → (Option ObjectBucket × Option Error) × T.State
  unfolding create_action
  create obj = T.invokes_bucket (create_action obj) empty_bucket

  unfoldable pub update : ObjectBucket → T.State → (Option ObjectBucket × Option Error) × T.State
  unfolding update_action
  update obj = T.invokes_bucket (update_action obj) empty_bucket

  unfoldable pub update_status :
      ObjectBucket → T.State → (Option ObjectBucket × Option Error) × T.State
  unfolding update_status_action
  update_status obj = T.invokes_bucket (update_status_action obj) empty_bucket

  unfoldable pub delete : Text → T.State → Option Error × T.State
  unfolding delete_action
  delete name s = let (r, s') = T.invokes_bucket (delete_action name) empty_bucket s in (r.1, s')

  unfoldable pub delete_collection : ListOptions → T.State → Option Error × T.State
  unfolding delete_collection_action
  delete_collection list_opts s =
      let (r, s') =
        T.invokes_bucket_list (delete_collection_action list_opts) empty_bucket_list s in
      (r.1, s')

  unfoldable pub patch :
      Text → Text → Text → List Text → T.State → (Option ObjectBucket × Option Error) × T.State
  unfolding patch_action
  patch name patch_type bytes subresources =
      T.invokes_bucket (patch_action name patch_type bytes subresources) empty_bucket
