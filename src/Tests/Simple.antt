-- ===== src/Tests/Simple.antt =====
-- The simple clientset of two claims.
use lib_bucket_provisioner.Base.{codes, ◌==◌, Option, none, some, List, [], ◌∷◌, true, refl}
use lib_bucket_provisioner.V1alpha1.{ObjectBucketClaim}
use lib_bucket_provisioner.Cluster.Error.{Error, done, not_found}
use lib_bucket_provisioner.Clientset.Fake.{Action}
use lib_bucket_provisioner.Clientset.Fake.Simple.{Testing, new_simple_clientset}
use lib_bucket_provisioner.Clientset.Fake.Simple.Laws.{
  is_at, answer, Tracks, Answers, new_simple_clientset-get,
}
use lib_bucket_provisioner.Listers.Laws.{stored}
use lib_bucket_provisioner.Tests.Data.{ns, new_claim}

abbrev found_by : Action → List ObjectBucketClaim → Option ObjectBucketClaim × Option Error
found_by (Action.get r (some ns) name) s = answer not_found (stored (is_at ns name) s)
found_by _ s = (none, none)

-- A tracker of claims, the newest first.
abbrev claim_testing : Testing
claim_testing = record {
  State = List ObjectBucketClaim;
  Watcher = Unit;
  RuntimeObject = ObjectBucketClaim;
  ObjectTracker = Unit;
  Reaction = Unit;
  Fake = Unit;
  claim_object = λ c. c;
  new_object_tracker = λ s. (tt, []);
  add = λ o c s. (none, c ∷ s);
  watch = λ o r ns s. (done tt, s);
  object_reaction = λ o. tt;
  zero_fake = tt;
  add_reactor = λ verb resource r f. f;
  add_watch_reactor = λ resource r f. f;
  invokes_claim = λ f action into s. (found_by action s, s);
  invokes_bucket = λ f action into s. ((none, none), s);
  invokes_claim_list = λ f action into s. ((none, none), s);
  invokes_bucket_list = λ f action into s. ((none, none), s);
  invokes_watch = λ f action s. (done tt, s);
  matches = λ opts m. true;
}

claim_testing-Tracks : Tracks claim_testing not_found
claim_testing-Tracks = record {
  held = λ o s ns name. stored (is_at ns name) s;
  new_empty = λ s ns name. refl;
  add_succeeds = λ o c s h. refl;
  add_holds = λ o c s ns name h. refl;
  get_answers = λ o s ns name into react. refl;
}

abbrev other_claim : ObjectBucketClaim
other_claim = record new_claim { meta = record new_claim.meta { name = codes "logs" } }

new_simple_clientset-get_example :
    let (c, s') = new_simple_clientset claim_testing (new_claim ∷ other_claim ∷ []) [] in
    Answers claim_testing not_found (new_claim ∷ other_claim ∷ []) c s'
unfolding ◌==◌
new_simple_clientset-get_example =
    new_simple_clientset-get claim_testing not_found claim_testing-Tracks
      (new_claim ∷ other_claim ∷ []) [] ((refl, tt), (tt, tt))
