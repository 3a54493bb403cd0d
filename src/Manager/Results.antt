-- ===== src/Manager/Results.antt =====
-- What Run and RunWithContext return.
use lib_bucket_provisioner.Base.{
  true, false, Option, none, some, ◌≡◌, refl, ◌⊎◌, inl, inr, ap, arith,
}
use lib_bucket_provisioner.Cluster.Error.{Error, failure, unsynced_caches}
use lib_bucket_provisioner.Manager.Running.{
  Leaving, Running, StartStep, synced, unsynced, served, RunStep, ContextStep, return,
  return_stopped, close_cancelled, set_nil, return_cancelled, close, cancel, Life, begun, called,
  stepped,
}

-- The result of Start so far, and a return only after the close.
abbrev RunInv : Running → Type 0
RunInv r =
    ((r.err ≡ none) ⊎ (r.err ≡ some (failure unsynced_caches)))
    × ((r.returned ≡ none)
        ⊎ ((r.stopped ≡ true)
            × ((r.returned ≡ some none) ⊎ (r.returned ≡ some (some (failure unsynced_caches))))))

starting-RunInv : (r r' : Running) → StartStep r r' → RunInv r → RunInv r'
starting-RunInv r r' (synced _ h) inv = inv
starting-RunInv r r' (unsynced _ h stop) (_, inv) = (inr refl, inv)
starting-RunInv r r' (served _ h stop) (_, inv) = (inl refl, inv)

closing-RunInv : (r : Running) → RunInv r → RunInv (close r)
closing-RunInv r (err, inl unreturned) = (err, inl unreturned)
closing-RunInv r (err, inr (_, ret)) = (err, inr (refl, ret))

returning-RunInv :
    (r : Running) → r.stopped ≡ true → RunInv r → RunInv (record r { returned = some r.err })
returning-RunInv r stop (inl err, _) = (inl err, inr (stop, inl (ap some err)))
returning-RunInv r stop (inr err, _) = (inr err, inr (stop, inr (ap some err)))

-- Before the context's case is taken nothing has ended; after it the channel is closed.
abbrev ContextInv : Running → Type 0
ContextInv r =
    (((r.stopped ≡ false) × (r.leaving ≡ Leaving.waiting)) × ((r.returned ≡ none) × (r.err ≡ none)))
    ⊎ (((r.stopped ≡ true) × (r.cancelled ≡ true)) × RunInv r)

starting-ContextInv : (r r' : Running) → StartStep r r' → ContextInv r → ContextInv r'
starting-ContextInv r r' (synced _ h) inv = inv
starting-ContextInv r r' (unsynced _ h stop) (inl ((unstopped, _), _)) =
    ground (arith, stop, unstopped)
starting-ContextInv r r' (unsynced _ h stop) (inr (at, inv)) =
    inr (at, starting-RunInv r _ (unsynced r h stop) inv)
starting-ContextInv r r' (served _ h stop) (inl ((unstopped, _), _)) =
    ground (arith, stop, unstopped)
starting-ContextInv r r' (served _ h stop) (inr (at, inv)) =
    inr (at, starting-RunInv r _ (served r h stop) inv)

ContextStep-ContextInv : (r r' : Running) → ContextStep r r' → ContextInv r → ContextInv r'
ContextStep-ContextInv r r' (ContextStep.starting s) inv = starting-ContextInv _ _ s inv
ContextStep-ContextInv r r' (return_stopped _ stop w unreturned) (inl ((unstopped, _), _)) =
    ground (arith, stop, unstopped)
ContextStep-ContextInv r r' (return_stopped _ stop w unreturned) (inr (at, inv)) =
    inr (at, returning-RunInv r at.0 inv)
ContextStep-ContextInv r r' (close_cancelled _ done w unreturned) (inl (_, (_, nil))) =
    inr ((refl, done), (inl nil, inl unreturned))
ContextStep-ContextInv r r' (close_cancelled _ done w unreturned) (inr (at, inv)) =
    inr ((refl, done), (inv.0, inl unreturned))
ContextStep-ContextInv r r' (set_nil _ c) (inl ((_, w), _)) = ground (arith, c, w)
ContextStep-ContextInv r r' (set_nil _ c) (inr (at, inv)) = inr (at, (inl refl, inv.1))
ContextStep-ContextInv r r' (return_cancelled _ f unreturned) (inl ((_, w), _)) =
    ground (arith, f, w)
ContextStep-ContextInv r r' (return_cancelled _ f unreturned) (inr (at, inv)) =
    inr (at, returning-RunInv r at.0 inv)

pub Life-ContextInv : (r : Running) → Life ContextStep cancel r → ContextInv r
Life-ContextInv _ begun = inl ((refl, refl), (refl, refl))
Life-ContextInv _ (called {r} life) = elim (Life-ContextInv r life) [
  | inl inv ↦ inl inv
  | inr ((stop, _), inv) ↦ inr ((stop, refl), inv)
]
Life-ContextInv _ (stepped life s) = ContextStep-ContextInv _ _ s (Life-ContextInv _ life)

Life-RunInv : (r : Running) → Life RunStep close r → RunInv r
Life-RunInv _ begun = (inl refl, inl refl)
Life-RunInv _ (called {r} life) = closing-RunInv r (Life-RunInv r life)
Life-RunInv _ (stepped life (RunStep.starting s)) = starting-RunInv _ _ s (Life-RunInv _ life)
Life-RunInv _ (stepped life (return r stop unreturned)) =
    returning-RunInv r stop (Life-RunInv r life)

-- A result is nil or the error of Start.
RunInv-result :
    (r : Running) (result : Option Error)
    → RunInv r
    → r.returned ≡ some result
    → (r.stopped ≡ true) × ((result ≡ none) ⊎ (result ≡ some (failure unsynced_caches)))
RunInv-result r result inv ret = elim inv.1 [
  | inl unreturned ↦ ground (arith, unreturned, ret)
  | inr (stop, inl nil) ↦ (stop, inl (ground (arith, nil, ret)))
  | inr (stop, inr error) ↦ (stop, inr (ground (arith, error, ret)))
]

-- Whatever the order of the steps, RunWithContext returns only after its context is done and when it
-- has closed its channel, and its result is nil or the error of caches that were not in sync, which
-- the goroutine may write after `return nil` has set the result.
pub run_with_context-result :
    (r : Running) (result : Option Error)
    → Life ContextStep cancel r
    → r.returned ≡ some result
    → (r.cancelled ≡ true)
      × ((r.stopped ≡ true) × ((result ≡ none) ⊎ (result ≡ some (failure unsynced_caches))))
run_with_context-result r result life ret = elim (Life-ContextInv r life) [
  | inl (_, (unreturned, _)) ↦ ground (arith, unreturned, ret)
  | inr ((_, done), inv) ↦ (done, RunInv-result r result inv ret)
]

-- Run returns after its channel is closed only, and its result is nil or the error of caches that
-- were not in sync.
pub run-result :
    (r : Running) (result : Option Error)
    → Life RunStep close r
    → r.returned ≡ some result
    → (r.stopped ≡ true) × ((result ≡ none) ⊎ (result ≡ some (failure unsynced_caches)))
run-result r result life ret = RunInv-result r result (Life-RunInv r life) ret
