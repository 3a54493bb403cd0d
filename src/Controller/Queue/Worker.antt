-- ===== src/Controller/Queue/Worker.antt =====
-- The life of a worker: runWorker (pkg/provisioner/controller.go) from its first item until the queue
-- is shut down.
use lib_bucket_provisioner.Base.{
  ℕ, zero, suc, ◌<◌, Text, Bool, true, false, none, some, List, [], ◌∷◌, ◌++◌, length, ◌≡◌, refl,
  ◌∙◌, ap, sym, arith, if◌then◌else◌,
}
use mathlib.Core.List.{append_assoc}
use lib_bucket_provisioner.Cluster.Error.{Reply, done, failed}
use lib_bucket_provisioner.Cluster.Event.{
  Event, Trace, Item, key, invalid, requeued, forgotten, finished,
}
use lib_bucket_provisioner.Cluster.Env.{Env}
use lib_bucket_provisioner.Cluster.Monad.{
  Outcome, ok, err, panic, World, attempt, caught, deferring, logged_last, log, ◌>>=◌, continue,
  pure,
}
use lib_bucket_provisioner.Cluster.Emits.{Grown-keeps}
use lib_bucket_provisioner.Controller.Emits.Whole.{ProvisionEvents, DeleteEvents}
use lib_bucket_provisioner.Controller.Resources.{Controller}
use lib_bucket_provisioner.Controller.Sync.Emits.{sync_handler-Emits}
use lib_bucket_provisioner.Controller.Queue.{
  get_item, process_item, process_got, process_next_item_in_queue, run_worker,
}
use lib_bucket_provisioner.Controller.Queue.Items.{settled, process_item_lem}

-- An item that a worker has got, and how its processing ended.
abbrev pub Served : Type 0
Served = Item × Reply (Unit {0})

-- From the first world on, a worker gets and processes these items without a panic, the first one
-- first; then the queue is shut down.
pub data Works {E : Env} (c : Controller) : World E → List Served → World E → Type 0 where
  shut_down :
      {w : World E} {s : E.State}
      → E.next_item w.state ≡ (none, s)
      → Works c w [] (record w { state = s })
  serve :
      {w v u : World E} {s : E.State} {item : Item} {r : Reply (Unit {0})} {rest : List Served}
      → E.next_item w.state ≡ (some item, s)
      → attempt (process_item c item) (record w { state = s }) ≡ (ok r, v)
      → Works c v rest u
      → Works c w ((item, r) ∷ rest) u

module _ {E : Env} (c : Controller) where
  run_worker-shut_down :
      (n : ℕ) (w : World E) (s : E.State)
      → E.next_item w.state ≡ (none, s)
      → run_worker (suc n) c w ≡ (ok tt, record w { state = s })
  unfolding run_worker process_next_item_in_queue get_item process_got ◌>>=◌ continue pure
  run_worker-shut_down n w s e = rw e refl

  run_worker-serve :
      (n : ℕ) (w v : World E) (s : E.State) (item : Item) (r : Reply (Unit {0}))
      → E.next_item w.state ≡ (some item, s)
      → attempt (process_item c item) (record w { state = s }) ≡ (ok r, v)
      → run_worker (suc n) c w ≡ run_worker n c v
  unfolding run_worker process_next_item_in_queue get_item process_got ◌>>=◌ continue pure
  run_worker-serve n w v s item r e h = rw (e, h) refl

  -- If the queue is shut down after some items of a worker's life, and no item's handler panics, then
  -- runWorker ends there, without an error, for each bound on its items that is larger than their
  -- number.
  pub run_worker-Ends :
      (n : ℕ) (w u : World E) (served : List Served)
      → Works c w served u
      → length served < n
      → run_worker n c w ≡ (ok tt, u)
  run_worker-Ends zero w u served life h = absurd (omega arith)
  run_worker-Ends (suc n) w u [] (shut_down {s} e) h = run_worker-shut_down n w s e
  run_worker-Ends (suc n) w u ((item, r) ∷ served) (serve {v} {s} e p life) h =
      run_worker-serve n w v s item r e p ∙ run_worker-Ends n v u served life (omega arith)

-- Calls of the work queue.
abbrev pub is_queue : Event → Bool
is_queue (requeued _) = true
is_queue (forgotten _) = true
is_queue (finished _) = true
is_queue _ = false

abbrev pub queue_events : Trace → Trace
queue_events [] = []
queue_events (e ∷ t) = let rest = queue_events t in if is_queue e then e ∷ rest else rest

-- What the queue is told of an item, the last call first: it is finished, after it was queued again
-- or forgotten.
abbrev pub settlement : Item → Reply (Unit {0}) → Trace
settlement item (done _) = finished item ∷ forgotten item ∷ []
settlement item (failed e) = finished item ∷ requeued item ∷ []

abbrev pub journal : List Served → Trace
journal [] = []
journal ((item, r) ∷ rest) = journal rest ++ settlement item r

-- An event that is no call of the queue.
abbrev Elsewhere : Event → Type 0
Elsewhere e = is_queue e ≡ false

provision-Elsewhere : ProvisionEvents Elsewhere
provision-Elsewhere = search

delete-Elsewhere : DeleteEvents Elsewhere
delete-Elsewhere = search

queue_events-Elsewhere :
    (e : Event) (t before : Trace)
    → Elsewhere e
    → queue_events t ≡ before
    → queue_events (e ∷ t) ≡ before
queue_events-Elsewhere e t before p h = rw p h

module _ {E : Env} where
  -- The queue was told `told` of an item, if its processing has not panicked.
  abbrev Settles : Item → Trace → Outcome (Reply (Unit {0})) × World E → Type 0
  Settles item before (ok r, w) = queue_events w.trace ≡ settlement item r ++ before
  Settles item before _ = Unit

  settled-Settles :
      (k : Text) (before : Trace) (x : Outcome (Unit {0})) (w : World E)
      → queue_events w.trace ≡ before
      → Settles (key k) before (caught (settled k x w).0 (settled k x w).1)
  unfolding caught
  settled-Settles k before (ok _) w h = rw h refl
  settled-Settles k before (err e) w h = rw h refl
  settled-Settles k before panic w h = tt

  process_key-Settles :
      (c : Controller) (k : Text) (w : World E)
      → Settles (key k) (queue_events w.trace) (attempt (process_item c (key k)) w)
  unfolding attempt
  process_key-Settles c k w = rw (process_item_lem c k w) (
      settled-Settles k (queue_events w.trace) _ _ (
        Grown-keeps (λ t. queue_events t ≡ queue_events w.trace)
          (λ e t p h. queue_events-Elsewhere e t _ p h)
          ((sync_handler-Emits provision-Elsewhere delete-Elsewhere c k).at w) refl))

  process_invalid-Settles :
      (c : Controller) (w : World E)
      → Settles invalid (queue_events w.trace) (attempt (process_item c invalid) w)
  unfolding attempt process_item deferring caught logged_last log
  process_invalid-Settles c w = refl

  process_item-Settles :
      (c : Controller) (item : Item) (w : World E)
      → Settles item (queue_events w.trace) (attempt (process_item c item) w)
  process_item-Settles c (key k) w = process_key-Settles c k w
  process_item-Settles c invalid w = process_invalid-Settles c w

  Settles-next :
      (item : Item) (before : Trace) (o : Outcome (Reply (Unit {0})) × World E)
      (r : Reply (Unit {0})) (v : World E)
      → o ≡ (ok r, v)
      → Settles item before o
      → queue_events v.trace ≡ settlement item r ++ before
  Settles-next item before o r v e h = let h' : Settles item before (ok r, v) = rw e at h in h'

  -- In a worker's life until the queue is shut down, the calls of the queue after those that were
  -- there before are, in the order of the items that it got: for each item whose handler failed that
  -- it is queued again, for each other item that it is forgotten, and in both cases then that it is
  -- finished. There is no other call of the queue.
  pub queue_events-journal :
      (c : Controller) (w u : World E) (served : List Served)
      → Works c w served u
      → queue_events u.trace ≡ journal served ++ queue_events w.trace
  queue_events-journal c w u [] (shut_down e) = refl
  queue_events-journal c w u ((item, r) ∷ served) (serve {v} {s} e p life) =
      queue_events-journal c v u served life
      ∙ (ap (λ (t : Trace). journal served ++ t)
            (Settles-next item (queue_events w.trace) _ r v p
              (process_item-Settles c item (record w { state = s })))
          ∙ sym (append_assoc (journal served) (settlement item r) (queue_events w.trace)))
