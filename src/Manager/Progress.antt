-- ===== src/Manager/Progress.antt =====
-- Run and RunWithContext end, with their goroutine, once the caller says so.
use lib_bucket_provisioner.Base.{
  true, Option, none, some, ◌≡◌, refl, ◌⊎◌, inl, inr, ℕ, zero, suc, ◌+◌, ◌≤◌, ◌<◌, ap, arith,
}
use lib_bucket_provisioner.Cluster.Error.{Error}
use lib_bucket_provisioner.Manager.Running.{
  Leaving, close_cancelled, set_nil, Phase, Running, StartStep, synced, unsynced, served, RunStep,
  ContextStep, return, return_stopped, return_cancelled, cancel, Life, stepped,
}
use lib_bucket_provisioner.Manager.Results.{run_with_context-result}

abbrev phase_work : Phase → ℕ
phase_work Phase.syncing = 2
phase_work Phase.serving = 1
phase_work Phase.ended = 0

abbrev return_work : Option (Option Error) → ℕ
return_work none = 1
return_work (some _) = 0

abbrev leaving_work : Leaving → ℕ
leaving_work Leaving.waiting = 2
leaving_work Leaving.closed = 1
leaving_work Leaving.flushing = 0

-- The steps that are left: of Start until its end, and of the method until its return.
work : Running → ℕ
work r = (phase_work r.phase + return_work r.returned) + leaving_work r.leaving

starting-work : (r r' : Running) → StartStep r r' → work r' < work r
unfolding work
starting-work r r' (synced _ h) = omega (arith, ap phase_work h)
starting-work r r' (unsynced _ h stop) = omega (arith, ap phase_work h)
starting-work r r' (served _ h stop) = omega (arith, ap phase_work h)

ContextStep-work : (r r' : Running) → ContextStep r r' → work r' < work r
unfolding work
ContextStep-work r r' (ContextStep.starting s) = starting-work _ _ s
ContextStep-work r r' (return_stopped _ stop w unreturned) =
    omega (arith, ap return_work unreturned)
ContextStep-work r r' (close_cancelled _ done w unreturned) = omega (arith, ap leaving_work w)
ContextStep-work r r' (set_nil _ c) = omega (arith, ap leaving_work c)
ContextStep-work r r' (return_cancelled _ f unreturned) = omega (arith, ap return_work unreturned)

RunStep-work : (r r' : Running) → RunStep r r' → work r' < work r
unfolding work
RunStep-work r r' (RunStep.starting s) = starting-work _ _ s
RunStep-work r r' (return _ stop unreturned) = omega (arith, ap return_work unreturned)

phase-cases :
    (r : Running) → r.stopped ≡ true → (r.phase ≡ Phase.ended) ⊎ ((r' : Running) × StartStep r r')
phase-cases r stop = go r.phase refl
  where
    go : (p : Phase) → r.phase ≡ p → (r.phase ≡ Phase.ended) ⊎ ((r' : Running) × StartStep r r')
    go Phase.syncing h = inr (_, synced r h)
    go Phase.serving h = inr (_, served r h stop)
    go Phase.ended h = inl h

returned-cases :
    (r : Running) → (r.returned ≡ none) ⊎ ((result : Option Error) × (r.returned ≡ some result))
returned-cases r = go r.returned refl
  where
    go :
        (o : Option (Option Error))
        → r.returned ≡ o
        → (r.returned ≡ none) ⊎ ((result : Option Error) × (r.returned ≡ some result))
    go none h = inl h
    go (some result) h = inr (result, h)

-- The method has returned, and Start has ended.
abbrev pub IsOver : Running → Type 0
IsOver r = (r.phase ≡ Phase.ended) × ((result : Option Error) × (r.returned ≡ some result))

-- Whatever steps are taken, a state that is over is reached, and before it a step can be taken.
pub data Ends (Step : Running → Running → Type 0) : Running → Type 0 where
  over : {r : Running} → IsOver r → Ends Step r
  goes_on :
      {r : Running}
      → (r' : Running) × Step r r'
      → ((r' : Running) → Step r r' → Ends Step r')
      → Ends Step r

module _ (Step : Running → Running → Type 0) (P : Running → Type 0)
    (less : (r r' : Running) → Step r r' → work r' < work r)
    (kept : (r r' : Running) → Step r r' → P r → P r')
    (progress : (r : Running) → P r → IsOver r ⊎ ((r' : Running) × Step r r')) where
  Ends-within : (n : ℕ) (r : Running) → work r ≤ n → P r → Ends Step r
  Ends-within zero r le p = elim (progress r p) [
    | inl o ↦ over o
    | inr (r', s) ↦ ground (arith, less r r' s, le)
  ]
  Ends-within (suc n) r le p =
      let rest = Ends-within n in
      elim (progress r p) [
        | inl o ↦ over o
        | inr next ↦ goes_on next (λ r' s. rest r' (omega (arith, less r r' s, le)) (kept r r' s p))
      ]

starting-keeps :
    (r r' : Running) → StartStep r r' → (r'.stopped ≡ r.stopped) × (r'.cancelled ≡ r.cancelled)
starting-keeps r r' (synced _ h) = (refl, refl)
starting-keeps r r' (unsynced _ h stop) = (refl, refl)
starting-keeps r r' (served _ h stop) = (refl, refl)

abbrev Cancelled : Running → Type 0
Cancelled r = Life ContextStep cancel r × (r.cancelled ≡ true)

ContextStep-Cancelled : (r r' : Running) → ContextStep r r' → Cancelled r → Cancelled r'
ContextStep-Cancelled r r' s (life, done) = (stepped life s, go s)
  where
    go : {r' : Running} → ContextStep r r' → r'.cancelled ≡ true
    go (ContextStep.starting s') = ground (arith, starting-keeps _ _ s', done)
    go (return_stopped _ stop w unreturned) = done
    go (close_cancelled _ _ w unreturned) = done
    go (set_nil _ c) = done
    go (return_cancelled _ f unreturned) = done

-- Until it has returned, RunWithContext can go on.
leaving-progress :
    (r : Running) → r.cancelled ≡ true → r.returned ≡ none → (r' : Running) × ContextStep r r'
leaving-progress r done unreturned = go r.leaving refl
  where
    go : (l : Leaving) → r.leaving ≡ l → (r' : Running) × ContextStep r r'
    go Leaving.waiting h = (_, close_cancelled r done h unreturned)
    go Leaving.closed h = (_, set_nil r h)
    go Leaving.flushing h = (_, return_cancelled r h unreturned)

context-progress : (r : Running) → Cancelled r → IsOver r ⊎ ((r' : Running) × ContextStep r r')
context-progress r (life, done) = elim (returned-cases r) [
  | inl unreturned ↦ inr (leaving-progress r done unreturned)
  | inr (result, ret) ↦
      let stop = (run_with_context-result r result life ret).1.0 in
      elim (phase-cases r stop) [
        | inl ended ↦ inl (ended, (result, ret))
        | inr (r', s) ↦ inr (r', ContextStep.starting s)
      ]
]

work-le : (r : Running) → work r ≤ 5
unfolding work
work-le r = go r.phase r.returned r.leaving
  where
    phase-le : (p : Phase) → phase_work p ≤ 2
    phase-le Phase.syncing = omega arith
    phase-le Phase.serving = omega arith
    phase-le Phase.ended = omega arith

    return-le : (o : Option (Option Error)) → return_work o ≤ 1
    return-le none = omega arith
    return-le (some _) = omega arith

    leaving-le : (l : Leaving) → leaving_work l ≤ 2
    leaving-le Leaving.waiting = omega arith
    leaving-le Leaving.closed = omega arith
    leaving-le Leaving.flushing = omega arith

    go :
        (p : Phase) (o : Option (Option Error)) (l : Leaving)
        → (phase_work p + return_work o) + leaving_work l ≤ 5
    go p o l = omega (arith, phase-le p, return-le o, leaving-le l)

-- Once its context is done, RunWithContext returns, and the call of the controller's Start in its
-- goroutine ends, in whatever order their steps are taken.
pub run_with_context-Ends :
    (r : Running) → Life ContextStep cancel r → r.cancelled ≡ true → Ends ContextStep r
run_with_context-Ends r life done =
    Ends-within ContextStep Cancelled ContextStep-work ContextStep-Cancelled context-progress 5 r
      (work-le r) (life, done)

abbrev IsStopped : Running → Type 0
IsStopped r = r.stopped ≡ true

RunStep-IsStopped : (r r' : Running) → RunStep r r' → IsStopped r → IsStopped r'
RunStep-IsStopped r r' (RunStep.starting s) stop = ground (arith, starting-keeps _ _ s, stop)
RunStep-IsStopped r r' (return _ _ unreturned) stop = stop

run-progress : (r : Running) → IsStopped r → IsOver r ⊎ ((r' : Running) × RunStep r r')
run-progress r stop = elim (returned-cases r) [
  | inl unreturned ↦ inr (_, return r stop unreturned)
  | inr (result, ret) ↦ elim (phase-cases r stop) [
    | inl ended ↦ inl (ended, (result, ret))
    | inr (r', s) ↦ inr (r', RunStep.starting s)
  ]
]

-- Once its channel is closed, Run returns and the controller's Start ends, in whatever order their
-- steps are taken.
pub run-Ends : (r : Running) → r.stopped ≡ true → Ends RunStep r
run-Ends r stop =
    Ends-within RunStep IsStopped RunStep-work RunStep-IsStopped run-progress 5 r (work-le r) stop
