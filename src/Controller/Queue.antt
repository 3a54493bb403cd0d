-- ===== src/Controller/Queue.antt =====
-- controller.go: enqueueOBC, processNextItemInQueue, runWorker, and the number of workers that
-- Start starts.
pub mod Items
pub mod Worker
use lib_bucket_provisioner.Base.{ℕ, zero, suc, Text, Bool, true, false, Option, none, some}
use lib_bucket_provisioner.V1alpha1.{ℤ, pos, negsuc, ObjectMeta}
use lib_bucket_provisioner.Cluster.Error.{Reply, done, failed, wrapped, syncing}
use lib_bucket_provisioner.Cluster.Event.{Item, key, invalid, requeued, forgotten, finished}
use lib_bucket_provisioner.Cluster.Env.{Env}
use lib_bucket_provisioner.Cluster.Monad.{M, ok, pure, raise, attempt, log, deferring, ◌>>=◌, ◌>>◌}
use lib_bucket_provisioner.Controller.Resources.{Controller}
use lib_bucket_provisioner.Controller.Sync.{sync_handler}

module _ {E : Env} where
  queue_key : Reply Text → M E (Unit {0})
  queue_key (done k) = log (requeued (key k))
  queue_key (failed e) = pure tt

  -- An object without a key is reported and dropped.
  unfoldable pub enqueue_obc : ObjectMeta → M E (Unit {0})
  unfolding queue_key
  enqueue_obc obj = queue_key (E.meta_namespace_key obj)

  -- workqueue.Get: nothing is logged for it.
  unfoldable pub get_item : M E (Option Item)
  get_item w = let (i, s) = E.next_item w.state in (ok i, record w { state = s })

  -- After the handler: a failed key is queued again, any other is forgotten.
  unfoldable pub settle : Text → Reply (Unit {0}) → M E (Unit {0})
  settle k (failed e) = do log (requeued (key k)); raise (wrapped syncing e)
  settle k (done _) = log (forgotten (key k))

  -- The function that the source wraps, whose deferred call is `c.queue.Done(obj)`.
  unfoldable pub process_item : Controller → Item → M E (Unit {0})
  process_item c invalid = deferring (finished invalid) (log (forgotten invalid))
  process_item c (key k) =
      deferring (finished (key k)) (do synced ← attempt (sync_handler c k); settle k synced)

  -- False once the queue is shut down. An error has only been reported.
  unfoldable pub process_got : Controller → Option Item → M E Bool
  process_got c none = pure false
  process_got c (some item) = do attempt (process_item c item); pure true

  unfoldable pub process_next_item_in_queue : Controller → M E Bool
  process_next_item_in_queue c = do item ← get_item; process_got c item

  -- The loop of a worker, for at most `n` items.
  unfoldable pub run_worker : ℕ → Controller → M E (Unit {0})
  run_worker zero c = pure tt
  run_worker (suc n) c = do
    more ← process_next_item_in_queue c
    elim more [ true ↦ run_worker n c | false ↦ pure tt ]

-- The workers that the loop of Start starts for a count.
started : ℤ → ℕ
started (pos n) = n
started (negsuc n) = 0

count_of : (Text → ℤ) → Option Text → ℤ
count_of atoi none = pos 1
count_of atoi (some value) = atoi value

-- The value of LIB_BUCKET_PROVISIONER_THREADS, if it is set; `atoi` is the number that strconv.Atoi
-- returns, also beside an error.
unfoldable pub worker_count : (Text → ℤ) → Option Text → ℕ
unfolding started count_of
worker_count atoi threadiness = started (count_of atoi threadiness)
