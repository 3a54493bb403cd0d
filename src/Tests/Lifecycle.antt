-- ===== src/Tests/Lifecycle.antt =====
-- The theorems on informers, on the manager's Run and on the provisioner's calls, at concrete inputs.
use lib_bucket_provisioner.Base.{codes, true, none, some, List, [], ◌∷◌, ◌++◌, ◌≡◌, ◌≤◌, ◌⊎◌, refl}
use lib_bucket_provisioner.Cluster.Error.{failure, unsynced_caches}
use lib_bucket_provisioner.Cluster.Ordered.{Safe}
use lib_bucket_provisioner.Clientset.Versioned.{Versioned, real}
use lib_bucket_provisioner.Informers.{Kind, namespace_index, SharedInformer}
use lib_bucket_provisioner.Informers.Factory.{
  Factory, start, informer_for, new_shared_informer_factory_with_options,
}
use lib_bucket_provisioner.Informers.Scoped.{new_claim_informer, new_bucket_informer}
use lib_bucket_provisioner.Informers.Entries.{entries_of}
use lib_bucket_provisioner.Informers.Runs.{
  namespace, option_of, Run, made, requested, launched, IsWellFormed, Run-IsWellFormed,
  start-launched_once,
}
use lib_bucket_provisioner.Manager.Make.{
  new_provisioner, claims_in, all_buckets, new_provisioner-launches,
}
use lib_bucket_provisioner.Manager.Running.{
  Leaving, close_cancelled, set_nil, Phase, Running, initial, unsynced, RunStep, ContextStep,
  return, return_cancelled, close, cancel, Life, begun, called, stepped,
}
use lib_bucket_provisioner.Manager.Results.{run_with_context-result, run-result}
use lib_bucket_provisioner.Manager.Progress.{Ends, run_with_context-Ends, run-Ends}
use lib_bucket_provisioner.Controller.Sync.{sync_handler}
use lib_bucket_provisioner.Controller.Sync.Order.{fresh}
use lib_bucket_provisioner.Controller.Sync.Uncalled.{OnceGuard}
use lib_bucket_provisioner.Controller.Sync.Once.{sync_handler-OnceGuard}
use lib_bucket_provisioner.Tests.Data.{ns, claim_key, full_cluster, s3_controller}
use lib_bucket_provisioner.Tests.Clients.{rest}

-- Informers: a factory for one namespace, a request, a start and a second request.
abbrev V : Versioned
V = real rest

abbrev f0 : Factory V
f0 = new_shared_informer_factory_with_options {V = V} 0 (option_of (namespace ns) ∷ [])

abbrev f1 : Factory V
f1 =
    (informer_for Kind.claim (λ resync. new_claim_informer V ns resync (namespace_index ∷ [])) f0).1

abbrev log1 : List (Kind × SharedInformer V)
log1 = [] ++ (start f1).0

abbrev f2 : Factory V
f2 =
    (informer_for Kind.bucket (λ resync. new_bucket_informer V resync (namespace_index ∷ []))
      (start f1).1).1

life : Run log1 f2
life = requested (launched (requested (made 0 (namespace ns ∷ [])) Kind.claim _)) Kind.bucket _

Run-IsWellFormed_example : IsWellFormed log1 f2 Kind.claim
Run-IsWellFormed_example = Run-IsWellFormed log1 f2 life Kind.claim

start-launched_once_example :
    ((k : Kind)
      → (entries_of k (log1 ++ (start f2).0) ≡ entries_of k f2.informers)
        × (entries_of k f2.informers ≤ 1))
    × ((start (start f2).1).0 ≡ [])
start-launched_once_example = start-launched_once log1 f2 life

new_provisioner-launches_example :
    (start (new_provisioner {V = V} {Api = Unit} (λ v. []) (codes "s3") tt ns).informer_factory).0
    ≡ (Kind.claim, claims_in rest ns) ∷ (Kind.bucket, all_buckets rest) ∷ []
new_provisioner-launches_example = new_provisioner-launches rest (λ v. []) (codes "s3") tt ns

-- The manager: the context is done before the caches are in sync, and the goroutine writes its error
-- after `return nil` and before the deferred Flush is done.
abbrev returned_error : Running
returned_error = record (cancel initial) {
  stopped = true;
  phase = Phase.ended;
  err = some (failure unsynced_caches);
  leaving = Leaving.flushing;
  returned = some (some (failure unsynced_caches));
}

returned_error-Life : Life ContextStep cancel returned_error
returned_error-Life =
    let set =
      stepped (stepped (called begun) (close_cancelled _ refl refl refl)) (set_nil _ refl) in
    stepped (stepped set (ContextStep.starting (unsynced _ refl refl)))
      (return_cancelled _ refl refl)

run_with_context-result_example :
    (returned_error.cancelled ≡ true)
    × ((returned_error.stopped ≡ true)
        × ((some (failure unsynced_caches) ≡ none)
            ⊎ (some (failure unsynced_caches) ≡ some (failure unsynced_caches))))
run_with_context-result_example =
    run_with_context-result returned_error (some (failure unsynced_caches)) returned_error-Life refl

run_with_context-Ends_example : Ends ContextStep (cancel initial)
run_with_context-Ends_example = run_with_context-Ends (cancel initial) (called begun) refl

-- The channel is closed before the caches are in sync.
abbrev unsynced_end : Running
unsynced_end = record (close initial) {
  phase = Phase.ended;
  err = some (failure unsynced_caches);
  returned = some (some (failure unsynced_caches));
}

unsynced_end-Life : Life RunStep close unsynced_end
unsynced_end-Life =
    stepped (stepped (called begun) (RunStep.starting (unsynced _ refl refl))) (return _ refl refl)

run-result_example :
    (unsynced_end.stopped ≡ true)
    × ((some (failure unsynced_caches) ≡ none)
        ⊎ (some (failure unsynced_caches) ≡ some (failure unsynced_caches)))
run-result_example = run-result unsynced_end (some (failure unsynced_caches)) unsynced_end-Life refl

run-Ends_example : Ends RunStep (close initial)
run-Ends_example = run-Ends (close initial) refl

-- The provisioner's calls
sync_handler-OnceGuard_example :
    Safe OnceGuard (sync_handler {E = full_cluster} s3_controller claim_key (fresh tt)).1.trace
sync_handler-OnceGuard_example = sync_handler-OnceGuard full_cluster s3_controller claim_key tt
