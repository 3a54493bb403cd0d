-- ===== src/Controller/Queue/Items.antt =====
-- What becomes of a key that is taken from the work queue.
use lib_bucket_provisioner.Base.{Text, ◌∷◌, ◌≡◌, refl}
use lib_bucket_provisioner.Cluster.Error.{wrapped, syncing}
use lib_bucket_provisioner.Cluster.Event.{key, requeued, forgotten, finished}
use lib_bucket_provisioner.Cluster.Env.{Env}
use lib_bucket_provisioner.Cluster.Monad.{
  Outcome, ok, err, panic, World, log, deferring, attempt, caught, logged_last, raise, ◌>>=◌,
  continue,
}
use lib_bucket_provisioner.Controller.Resources.{Controller}
use lib_bucket_provisioner.Controller.Sync.{sync_handler}
use lib_bucket_provisioner.Controller.Queue.{settle, process_item}

module _ {E : Env} where
  -- The outcome of an item and the log after it, from the outcome of its handler and the log then.
  abbrev pub settled : Text → Outcome (Unit {0}) → World E → Outcome (Unit {0}) × World E
  settled k (ok _) w = (ok tt, record w { trace = finished (key k) ∷ forgotten (key k) ∷ w.trace })
  settled k (err e) w =
      (err (wrapped syncing e), record w { trace = finished (key k) ∷ requeued (key k) ∷ w.trace })
  settled k panic w = (panic, record w { trace = finished (key k) ∷ w.trace })

  settled_after :
      (k : Text) (r : Outcome (Unit {0})) (w : World E)
      → (let (x, v) = caught r w in
          let (y, u) = continue x (settle k) v in logged_last (finished (key k)) y u)
        ≡ settled k r w
  unfolding caught continue settle log raise ◌>>=◌ logged_last
  settled_after k (ok _) w = refl
  settled_after k (err e) w = refl
  settled_after k panic w = refl

  -- A key whose handler succeeds is forgotten, one whose handler fails is queued again and its
  -- error passed on, and one whose handler panics is neither; in each case the queue is then told
  -- that the key is finished, last and once.
  pub process_item_lem :
      (c : Controller) (k : Text) (w : World E)
      → process_item c (key k) w ≡ settled k (sync_handler c k w).0 (sync_handler c k w).1
  unfolding process_item deferring attempt ◌>>=◌
  process_item_lem c k w = settled_after k (sync_handler c k w).0 (sync_handler c k w).1
