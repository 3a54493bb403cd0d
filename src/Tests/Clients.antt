-- ===== src/Tests/Clients.antt =====
-- A REST client and an object tracker that answer every call, an indexer of two claims, and the
-- theorems on clients and listers with them.
use lib_bucket_provisioner.Base.{
  ℕ, Text, codes, ◌==◌, lookup, ◌&&◌, false, none, some, [], ◌∷◌, ◌≡◌, refl, arith,
}
use lib_bucket_provisioner.V1alpha1.{ObjectBucketClaim, pos}
use lib_bucket_provisioner.V1alpha1.Lists.{
  ObjectBucketClaimList, ObjectBucketList, empty_claim_list, empty_bucket_list,
}
use lib_bucket_provisioner.V1alpha1.DeepCopy.Laws.{BucketMaps}
use lib_bucket_provisioner.V1alpha1.DeepCopy.Lists.{
  deep_copy_bucket_list, deep_copy_bucket_list_lem,
}
use lib_bucket_provisioner.Cluster.Error.{done, failed, other}
use lib_bucket_provisioner.Clientset.Rest.{OptionTypes, ListOptions, Rest}
use lib_bucket_provisioner.Clientset.Fake.{Tracker}
use lib_bucket_provisioner.Clientset.Fake.Laws.{selected, on_claims, list_claims_lem}
use lib_bucket_provisioner.Clientset.Fake.Claims as FakeClaims
use lib_bucket_provisioner.Clientset.Calls.{
  update_status, watch, call_of_request, call_of_action, claim_request, claim_action,
  bucket_request, bucket_action, claim_request-claim_action, bucket_request-bucket_action,
}
use lib_bucket_provisioner.Clientset.Config.{
  Machinery, Config, wants_limiter, or_die, new_for_config, new_for_config_or_die,
  new_for_config-or_die,
}
use lib_bucket_provisioner.Listers.{
  Indexer, existing, new_claim_lister, object_bucket_claims, get_claim,
}
use lib_bucket_provisioner.Listers.Laws.{stored, meta_key, get_claim_lem}
use lib_bucket_provisioner.Tests.Data.{ns, claim_name, new_claim, deleted_claim, bucket}

abbrev pub option_types : OptionTypes
option_types = record {
  GetOptions = Unit;
  CreateOptions = Unit;
  UpdateOptions = Unit;
  DeleteOptions = Unit;
  PatchOptions = Unit;
}

abbrev pub all_options : ListOptions
all_options = record {
  label_selector = [];
  field_selector = [];
  watch = false;
  resource_version = [];
  timeout_seconds = some 30;
}

-- The results stay as they are.
abbrev pub rest : Rest option_types
rest = record {
  State = Unit;
  Watcher = Unit;
  into_claim = λ result r s. ((result, none), s);
  into_bucket = λ result r s. ((result, none), s);
  into_claim_list = λ result r s. ((result, none), s);
  into_bucket_list = λ result r s. ((result, none), s);
  error = λ r s. (none, s);
  watch = λ r s. (done tt, s);
}

abbrev two_claims : ObjectBucketClaimList
two_claims = record empty_claim_list { items = some (new_claim ∷ deleted_claim ∷ []) }

-- The tracker holds two claims, and a selector matches the version 7 only.
abbrev tracker : Tracker
tracker = record {
  State = Unit;
  Watcher = Unit;
  invokes_claim = λ a c s. ((some c, none), s);
  invokes_bucket = λ a b s. ((some b, none), s);
  invokes_claim_list = λ a l s. ((some two_claims, none), s);
  invokes_bucket_list = λ a l s. ((some l, none), s);
  invokes_watch = λ a s. (done tt, s);
  matches = λ opts m. m.resource_version == codes "7";
}

claim_request-claim_action_example :
    (call_of_request (claim_request {O = option_types} ns (update_status new_claim tt))
      ≡ call_of_action (claim_action {O = option_types} ns (update_status new_claim tt)))
    × ((call_of_action (claim_action {O = option_types} ns (update_status new_claim tt))).namespace
        ≡ some ns)
claim_request-claim_action_example =
    claim_request-claim_action {O = option_types} ns (update_status new_claim tt) tt

bucket_request-bucket_action_example :
    (call_of_request (bucket_request {O = option_types} (watch all_options))
      ≡ call_of_action (bucket_action {O = option_types} (watch all_options)))
    × ((call_of_action (bucket_action {O = option_types} (watch all_options))).namespace ≡ none)
bucket_request-bucket_action_example =
    bucket_request-bucket_action {O = option_types} (watch all_options) tt

list_claims_lem_example :
    on_claims (λ items. items) (FakeClaims.list tracker ns all_options tt)
    ≡ on_claims (selected (λ c. c.meta.resource_version == codes "7")) ((some two_claims, none), tt)
list_claims_lem_example = list_claims_lem tracker ns all_options tt

abbrev machinery : Machinery
machinery = record {
  Qps = ℕ;
  Limiter = Unit;
  Codecs = Unit;
  Other = Unit;
  Client = Text;
  Discovery = Unit;
  is_positive = λ q. false;
  new_limiter = λ q b. tt;
  codecs = tt;
  user_agent = codes "agent";
}

abbrev config : Config machinery
config = record {
  group_version = none;
  api_path = [];
  serializer = none;
  user_agent = [];
  rate_limiter = none;
  qps = 0;
  burst = pos 0;
  other = tt;
}

new_for_config-or_die_example :
    or_die (new_for_config {L = machinery} (λ c. done c.api_path) (λ c. failed (other [])) config)
    ≡ new_for_config_or_die {L = machinery} (λ c. done c.api_path) (λ c. failed (other [])) config
unfolding wants_limiter
new_for_config-or_die_example =
    new_for_config-or_die {L = machinery} (λ c. done c.api_path) (λ c. failed (other [])) config
      refl

abbrev indexer : Indexer ObjectBucketClaim Unit
indexer = record {
  get_by_key =
      λ k. done (stored (λ (c : ObjectBucketClaim). k == meta_key c.meta) (new_claim ∷ []));
  list_all = λ selector. (new_claim ∷ [], none);
  list_all_by_namespace = λ n selector. (new_claim ∷ [], none);
}

get_claim_lem_example :
    get_claim (object_bucket_claims (new_claim_lister indexer) ns) claim_name
    ≡ existing (
        done (
          stored
            (λ (c : ObjectBucketClaim). (ns == c.meta.namespace) && (claim_name == c.meta.name))
            (new_claim ∷ [])))
get_claim_lem_example =
    get_claim_lem indexer (new_claim ∷ []) ns claim_name (λ key. refl) ((ground arith, refl), tt)
      refl

abbrev bucket_list : ObjectBucketList
bucket_list = record empty_bucket_list { items = some (bucket ∷ bucket ∷ []) }

bucket_maps : BucketMaps bucket
unfolding lookup ◌==◌
bucket_maps = ((refl, tt), tt, (refl, (refl, tt)))

deep_copy_bucket_list_lem_example : deep_copy_bucket_list bucket_list ≡ bucket_list
deep_copy_bucket_list_lem_example =
    deep_copy_bucket_list_lem bucket_list (bucket_maps, (bucket_maps, tt))
