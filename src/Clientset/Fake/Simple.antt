-- ===== src/Clientset/Fake/Simple.antt =====
-- pkg/client/clientset/versioned/fake/clientset_generated.go: NewSimpleClientset and its clientset.
-- `testing.ObjectTracker`, `testing.Fake` and `testing.ObjectReaction` are client-go's: `Testing` has
-- the calls of them. A tracker and a Fake are pointers; what they point to is in the state.
pub mod Laws
use lib_bucket_provisioner.Base.{
  Text, codes, Bool, true, false, Option, none, some, List, [], ◌∷◌, or_default,
}
use lib_bucket_provisioner.V1alpha1.{ObjectMeta, ObjectBucket, ObjectBucketClaim}
use lib_bucket_provisioner.V1alpha1.Lists.{ObjectBucketList, ObjectBucketClaimList}
use lib_bucket_provisioner.Cluster.Error.{Error, Reply, done, failed}
use lib_bucket_provisioner.Clientset.Rest.{ListOptions}
use lib_bucket_provisioner.Clientset.Config.{Made, made, panicked}
use lib_bucket_provisioner.Clientset.Fake.{Resource, Object, Action, Tracker}

-- `handled, ret, err` of a watch reaction.
abbrev pub Reacted : Type 0 → Type 0
Reacted Watcher = Bool × Option Watcher × Option Error

pub record Testing : Type 1 where
  pub State : Type 0
  pub Watcher : Type 0
  -- runtime.Object
  pub RuntimeObject : Type 0
  pub ObjectTracker : Type 0
  pub Reaction : Type 0
  pub Fake : Type 0
  pub claim_object : ObjectBucketClaim → RuntimeObject
  -- NewObjectTracker for the scheme and the decoder of the package
  pub new_object_tracker : State → ObjectTracker × State
  pub add : ObjectTracker → RuntimeObject → State → Option Error × State
  pub watch : ObjectTracker → Resource → Text → State → Reply Watcher × State
  pub object_reaction : ObjectTracker → Reaction
  -- a Fake without reactors
  pub zero_fake : Fake
  -- verb and resource
  pub add_reactor : Text → Text → Reaction → Fake → Fake
  pub add_watch_reactor : Text → (Action → State → Reacted Watcher × State) → Fake → Fake
  pub invokes_claim :
      Fake → Action → ObjectBucketClaim → State → (Option ObjectBucketClaim × Option Error) × State
  pub invokes_bucket :
      Fake → Action → ObjectBucket → State → (Option ObjectBucket × Option Error) × State
  pub invokes_claim_list :
      Fake
      → Action
      → ObjectBucketClaimList
      → State
      → (Option ObjectBucketClaimList × Option Error) × State
  pub invokes_bucket_list :
      Fake → Action → ObjectBucketList → State → (Option ObjectBucketList × Option Error) × State
  pub invokes_watch : Fake → Action → State → Reply Watcher × State
  pub matches : ListOptions → ObjectMeta → Bool

-- GetResource and GetNamespace of an action; the namespace of a root action is empty.
abbrev pub resource_of : Action → Resource
resource_of (Action.get r ns name) = r
resource_of (Action.delete r ns name) = r
resource_of (Action.list r ns opts) = r
resource_of (Action.watch r ns opts) = r
resource_of (Action.delete_collection r ns opts) = r
resource_of (Action.create r ns obj) = r
resource_of (Action.update r ns obj) = r
resource_of (Action.update_subresource r sub ns obj) = r
resource_of (Action.patch_subresource r ns name kind bytes subs) = r

abbrev scope_of : Action → Option Text
scope_of (Action.get r ns name) = ns
scope_of (Action.delete r ns name) = ns
scope_of (Action.list r ns opts) = ns
scope_of (Action.watch r ns opts) = ns
scope_of (Action.delete_collection r ns opts) = ns
scope_of (Action.create r ns obj) = ns
scope_of (Action.update r ns obj) = ns
scope_of (Action.update_subresource r sub ns obj) = ns
scope_of (Action.patch_subresource r ns name kind bytes subs) = ns

abbrev pub namespace_of : Action → Text
namespace_of action = or_default [] (scope_of action)

module _ (T : Testing) where
  -- The embedded Fake and its tracker. The discovery field points to the Fake.
  pub record SimpleClientset : Type 0 where
    pub fake : T.Fake
    pub tracker : T.ObjectTracker

  -- The loop over the objects, up to the first error.
  unfoldable pub add_objects :
      T.ObjectTracker → List T.RuntimeObject → T.State → Option Error × T.State
  add_objects o [] s = (none, s)
  add_objects o (obj ∷ objects) s =
      let (err, s') = T.add o obj s in
      elim err [ none ↦ add_objects o objects s' | some e ↦ (some e, s') ]

  watched : Reply T.Watcher → Reacted T.Watcher
  watched (done w) = (true, some w, none)
  watched (failed err) = (false, none, some err)

  -- The reaction to a watch: what the tracker says, or not handled.
  unfoldable pub watch_reaction : T.ObjectTracker → Action → T.State → Reacted T.Watcher × T.State
  unfolding watched
  watch_reaction o action s =
      let (r, s') = T.watch o (resource_of action) (namespace_of action) s in (watched r, s')

  unfoldable pub with_reactors : T.ObjectTracker → SimpleClientset
  with_reactors o = record {
    fake =
        T.add_watch_reactor (codes "*") (watch_reaction o)
          (T.add_reactor (codes "*") (codes "*") (T.object_reaction o) T.zero_fake);
    tracker = o;
  }

  unfoldable pub new_simple_clientset :
      List T.RuntimeObject → T.State → Made (SimpleClientset) × T.State
  new_simple_clientset objects s =
      let (o, s1) = T.new_object_tracker s in
      let (err, s2) = add_objects o objects s1 in
      (elim err [ some e ↦ panicked e | none ↦ made (with_reactors o) ], s2)

  -- ObjectbucketV1alpha1, whose typed fakes invoke the clientset's Fake.
  abbrev pub objectbucket_v1alpha1 : SimpleClientset → Tracker
  objectbucket_v1alpha1 c = record {
    State = T.State;
    Watcher = T.Watcher;
    invokes_claim = T.invokes_claim c.fake;
    invokes_bucket = T.invokes_bucket c.fake;
    invokes_claim_list = T.invokes_claim_list c.fake;
    invokes_bucket_list = T.invokes_bucket_list c.fake;
    invokes_watch = T.invokes_watch c.fake;
    matches = T.matches;
  }
