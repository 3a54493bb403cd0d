-- ===== src/Clientset/Config.antt =====
-- clientset.go and typed/objectbucket.io/v1alpha1/objectbucket.io_client.go: how the clients are made
-- from a rest.Config. A config is passed by pointer and copied; `rest.RESTClientFor`,
-- `discovery.NewDiscoveryClientForConfig` and the rate limiter are client-go's.
use lib_bucket_provisioner.Base.{
  ltb, ◌≡◌, refl, Text, codes, ◌==◌, Bool, false, ◌&&◌, if◌then◌else◌, is_none, Option, none, some,
  [],
}
use lib_bucket_provisioner.Cluster.Error.{Error, Reply, done, failed, failure, burst_required}
use lib_bucket_provisioner.V1alpha1.{ℤ, pos, negsuc}

-- What client-go provides. `Other` stands for the fields that the code does not touch.
pub record Machinery : Type 1 where
  pub Qps : Type 0
  pub Limiter : Type 0
  pub Codecs : Type 0
  pub Other : Type 0
  pub Client : Type 0
  pub Discovery : Type 0
  -- QPS > 0
  pub is_positive : Qps → Bool
  pub new_limiter : Qps → ℤ → Limiter
  pub codecs : Codecs
  pub user_agent : Text

module _ (L : Machinery) where
  pub record Config : Type 0 where
    pub group_version : Option (Text × Text)
    pub api_path : Text
    pub serializer : Option L.Codecs
    pub user_agent : Text
    pub rate_limiter : Option L.Limiter
    pub qps : L.Qps
    pub burst : ℤ
    pub other : L.Other

-- What a constructor that panics on an error does.
pub data Made (A : Type 0) : Type 0 where
  made : A → Made A
  panicked : Error → Made A

abbrev pub or_die : {A : Type 0} → Reply A → Made A
or_die (done a) = made a
or_die (failed err) = panicked err

-- ObjectbucketV1alpha1Client
pub record TypedClient (Client : Type 0) : Type 0 where
  pub rest_client : Client

pub record Clientset (Client Discovery : Type 0) : Type 0 where
  pub discovery_client : Discovery
  pub objectbucket_v1alpha1 : TypedClient Client

-- RESTClient and Discovery of a nil pointer are nil.
unfoldable pub rest_client : {Client : Type 0} → Option (TypedClient Client) → Option Client
rest_client none = none
rest_client (some c) = some c.rest_client

unfoldable pub discovery :
    {Client Discovery : Type 0} → Option (Clientset Client Discovery) → Option Discovery
discovery none = none
discovery (some c) = some c.discovery_client

burst_is_positive : ℤ → Bool
burst_is_positive (pos n) = ltb 0 n
burst_is_positive (negsuc n) = false

module _ {L : Machinery} where
  -- setConfigDefaults, whose error is always nil.
  unfoldable pub set_config_defaults : Config L → Config L
  set_config_defaults config = record config {
    group_version = some (codes "objectbucket.io", codes "v1alpha1");
    api_path = codes "/apis";
    serializer = some L.codecs;
    user_agent = if config.user_agent == [] then L.user_agent else config.user_agent;
  }

  -- RateLimiter is nil and QPS > 0.
  unfoldable pub wants_limiter : Config L → Bool
  wants_limiter c = is_none c.rate_limiter && L.is_positive c.qps

  unfoldable pub limited : Config L → Reply (Config L)
  unfolding burst_is_positive
  limited c =
      if wants_limiter c
      then (if burst_is_positive c.burst
          then done (record c { rate_limiter = some (L.new_limiter c.qps c.burst) })
          else failed (failure burst_required))
      else done c

module _ {L : Machinery} (rest_client_for : Config L → Reply L.Client)
    (new_discovery_client_for : Config L → Reply L.Discovery) where
  -- NewForConfig and NewForConfigOrDie of the typed client.
  unfoldable pub typed_for_config : Config L → Reply (TypedClient L.Client)
  typed_for_config c = elim (rest_client_for (set_config_defaults c)) [
    | done client ↦ done (record { rest_client = client })
    | failed err ↦ failed err
  ]

  unfoldable pub typed_for_config_or_die : Config L → Made (TypedClient L.Client)
  typed_for_config_or_die c = or_die (typed_for_config c)

  abbrev with_discovery :
      TypedClient L.Client → Reply L.Discovery → Reply (Clientset L.Client L.Discovery)
  with_discovery typed (done d) =
      done (record { discovery_client = d; objectbucket_v1alpha1 = typed })
  with_discovery typed (failed err) = failed err

  abbrev then_discovery :
      Reply (TypedClient L.Client) → Reply L.Discovery → Reply (Clientset L.Client L.Discovery)
  then_discovery (done typed) d = with_discovery typed d
  then_discovery (failed err) d = failed err

  abbrev then_discovery_or_die :
      Made (TypedClient L.Client) → Reply L.Discovery → Made (Clientset L.Client L.Discovery)
  then_discovery_or_die (made typed) d = or_die (with_discovery typed d)
  then_discovery_or_die (panicked err) d = panicked err

  abbrev with_copy : Reply (Config L) → Reply (Clientset L.Client L.Discovery)
  with_copy (done copy) = then_discovery (typed_for_config copy) (new_discovery_client_for copy)
  with_copy (failed err) = failed err

  -- NewForConfig of the clientset, which works on a copy of the config.
  unfoldable pub new_for_config : Config L → Reply (Clientset L.Client L.Discovery)
  new_for_config c = with_copy (limited c)

  -- NewForConfigOrDie of the clientset: discovery.NewDiscoveryClientForConfigOrDie panics as well.
  unfoldable pub new_for_config_or_die : Config L → Made (Clientset L.Client L.Discovery)
  new_for_config_or_die c =
      then_discovery_or_die (typed_for_config_or_die c) (new_discovery_client_for c)

  or_die-then_discovery :
      (t : Reply (TypedClient L.Client)) (d : Reply L.Discovery)
      → or_die (then_discovery t d) ≡ then_discovery_or_die (or_die t) d
  or_die-then_discovery (done typed) d = refl
  or_die-then_discovery (failed err) d = refl

  limited-none : (c : Config L) → wants_limiter c ≡ false → limited c ≡ done c
  unfolding limited
  limited-none c h = rw (h) refl

  -- If a config needs no rate limiter, because it has one or its QPS is not positive, then
  -- NewForConfigOrDie makes the clientset that NewForConfig makes, and panics with the error that
  -- NewForConfig returns.
  pub new_for_config-or_die :
      (c : Config L) → wants_limiter c ≡ false → or_die (new_for_config c) ≡ new_for_config_or_die c
  unfolding new_for_config new_for_config_or_die typed_for_config_or_die
  new_for_config-or_die c h =
      rw (limited-none c h)
        (or_die-then_discovery (typed_for_config c) (new_discovery_client_for c))

-- New, with discovery.NewDiscoveryClient.
unfoldable pub new :
    {Client Discovery : Type 0} → (Client → Discovery) → Client → Clientset Client Discovery
new new_discovery_client c = record {
  discovery_client = new_discovery_client c;
  objectbucket_v1alpha1 = record { rest_client = c };
}
