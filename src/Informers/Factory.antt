-- ===== src/Informers/Factory.antt =====
-- factory.go: sharedInformerFactory. Its lock makes each operation one step. A range over a map takes
-- its entries in the order of the model's list. `go informer.Run(stopCh)` is an entry of what `start` answers.
use lib_bucket_provisioner.Base.{
  ℕ, Text, Bool, true, false, or_default, if◌then◌else◌, none, some, List, [], ◌∷◌,
}
use lib_bucket_provisioner.Clientset.Versioned.{Versioned}
use lib_bucket_provisioner.Informers.{Kind, find, put, SharedInformer, Tweak}

pub record Factory (V : Versioned) : Type 0 where
  pub namespace : Text
  pub tweak_list_options : Tweak
  pub default_resync : ℕ
  pub custom_resync : List (Kind × ℕ)
  pub informers : List (Kind × SharedInformer V)
  pub started_informers : List (Kind × Bool)

unfoldable pub with_resyncs : List (Kind × ℕ) → List (Kind × ℕ) → List (Kind × ℕ)
with_resyncs [] custom = custom
with_resyncs ((k, v) ∷ config) custom = with_resyncs config (put k v custom)

-- `f.startedInformers[informerType]`: false if there is no entry.
unfoldable pub is_started : Kind → List (Kind × Bool) → Bool
is_started k started = or_default false (find k started)

-- A SharedInformerOption is a function on factories.
module _ {V : Versioned} where
  unfoldable pub with_custom_resync_config : List (Kind × ℕ) → Factory V → Factory V
  with_custom_resync_config resync_config factory = record factory {
    custom_resync = with_resyncs resync_config factory.custom_resync;
  }

  unfoldable pub with_tweak_list_options : Tweak → Factory V → Factory V
  with_tweak_list_options tweak factory = record factory { tweak_list_options = tweak }

  unfoldable pub with_namespace : Text → Factory V → Factory V
  with_namespace namespace factory = record factory { namespace = namespace }

  unfoldable pub apply_options : List (Factory V → Factory V) → Factory V → Factory V
  apply_options [] factory = factory
  apply_options (opt ∷ options) factory = apply_options options (opt factory)

  -- v1.NamespaceAll is "".
  abbrev pub empty_factory : ℕ → Factory V
  empty_factory default_resync = record {
    namespace = [];
    tweak_list_options = none;
    default_resync = default_resync;
    custom_resync = [];
    informers = [];
    started_informers = [];
  }

  unfoldable pub new_shared_informer_factory_with_options :
      ℕ → List (Factory V → Factory V) → Factory V
  new_shared_informer_factory_with_options default_resync options =
      apply_options options (empty_factory default_resync)

  unfoldable pub new_shared_informer_factory : ℕ → Factory V
  new_shared_informer_factory default_resync =
      new_shared_informer_factory_with_options default_resync []

  unfoldable pub new_filtered_shared_informer_factory : ℕ → Text → Tweak → Factory V
  new_filtered_shared_informer_factory default_resync namespace tweak =
      new_shared_informer_factory_with_options default_resync
        (with_namespace namespace ∷ with_tweak_list_options tweak ∷ [])

  -- The range loop of Start, with the informers launched and the map of the started.
  unfoldable pub start_all :
      List (Kind × SharedInformer V)
      → List (Kind × Bool)
      → List (Kind × SharedInformer V) × List (Kind × Bool)
  start_all [] started = ([], started)
  start_all ((k, informer) ∷ informers) started = elim (is_started k started) [
    | true ↦ start_all informers started
    | false ↦
        let (launched, started') = start_all informers (put k true started) in
        ((k, informer) ∷ launched, started')
  ]

  unfoldable pub start : Factory V → List (Kind × SharedInformer V) × Factory V
  start f =
      let (launched, started) = start_all f.informers f.started_informers in
      (launched, record f { started_informers = started })

  unfoldable pub started_of :
      List (Kind × SharedInformer V) → List (Kind × Bool) → List (Kind × SharedInformer V)
  started_of [] started = []
  started_of ((k, informer) ∷ informers) started =
      let rest = started_of informers started in
      if is_started k started then (k, informer) ∷ rest else rest

  -- The second loop, where `synced` is cache.WaitForCacheSync on the informer's HasSynced.
  unfoldable pub sync_results :
      (SharedInformer V → Bool)
      → List (Kind × SharedInformer V)
      → List (Kind × Bool)
      → List (Kind × Bool)
  sync_results synced [] res = res
  sync_results synced ((k, informer) ∷ informers) res =
      sync_results synced informers (put k (synced informer) res)

  unfoldable pub wait_for_cache_sync : (SharedInformer V → Bool) → Factory V → List (Kind × Bool)
  wait_for_cache_sync synced f = sync_results synced (started_of f.informers f.started_informers) []

  -- The function gets the resync period; the client is that of the section `V`.
  unfoldable pub informer_for :
      Kind → (ℕ → SharedInformer V) → Factory V → SharedInformer V × Factory V
  informer_for k new_func f = elim (find k f.informers) [
    | some informer ↦ (informer, f)
    | none ↦
        let informer = new_func (or_default f.default_resync (find k f.custom_resync)) in
        (informer, record f { informers = put k informer f.informers })
  ]
