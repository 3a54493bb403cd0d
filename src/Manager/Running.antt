-- ===== src/Manager/Running.antt =====
-- manager.go: Run and RunWithContext with the goroutine that runs the controller's Start (controller.go),
-- as steps of the three that take part: the caller, the method and the goroutine.
use lib_bucket_provisioner.Base.{Bool, true, false, Option, none, some, ◌≡◌}
use lib_bucket_provisioner.Cluster.Error.{Error, failure, unsynced_caches}

-- Where Start stands: waiting for the caches, with its workers running until the channel is closed,
-- or at its end.
pub data Phase : Type 0 where
  syncing serving ended : Phase

-- Where RunWithContext stands: before its select is done, after `close(stopCh)`, or after `return nil`
-- has set the named result and before the deferred Flush is done.
pub data Leaving : Type 0 where
  waiting closed flushing : Leaving

pub record Running : Type 0 where
  -- whether stopCh is closed, and whether the context is done
  pub stopped : Bool
  pub cancelled : Bool
  pub phase : Phase
  -- the named result `err`, which the goroutine assigns
  pub err : Option Error
  pub leaving : Leaving
  -- what the method has returned
  pub returned : Option (Option Error)

abbrev pub initial : Running
initial = record {
  stopped = false;
  cancelled = false;
  phase = Phase.syncing;
  err = none;
  leaving = Leaving.waiting;
  returned = none;
}

-- `err = p.claimController.Start(stopCh)`
pub data StartStep : Running → Running → Type 0 where
  -- WaitForCacheSync returns true, and the workers start.
  synced :
      (r : Running) → r.phase ≡ Phase.syncing → StartStep r (record r { phase = Phase.serving })
  -- It returns false only if the channel is closed.
  unsynced :
      (r : Running)
      → r.phase ≡ Phase.syncing
      → r.stopped ≡ true
      → StartStep r (record r { phase = Phase.ended; err = some (failure unsynced_caches) })
  -- `<-stopCh; return nil`
  served :
      (r : Running)
      → r.phase ≡ Phase.serving
      → r.stopped ≡ true
      → StartStep r (record r { phase = Phase.ended; err = none })

-- Run, whose caller owns the channel.
pub data RunStep : Running → Running → Type 0 where
  starting : {r r' : Running} → StartStep r r' → RunStep r r'
  -- `<-stopCh; return`
  return :
      (r : Running)
      → r.stopped ≡ true
      → r.returned ≡ none
      → RunStep r (record r { returned = some r.err })

-- RunWithContext, whose channel is its own; the caller owns the context.
pub data ContextStep : Running → Running → Type 0 where
  starting : {r r' : Running} → StartStep r r' → ContextStep r r'
  -- case <-stopCh
  return_stopped :
      (r : Running)
      → r.stopped ≡ true
      → r.leaving ≡ Leaving.waiting
      → r.returned ≡ none
      → ContextStep r (record r { returned = some r.err })
  -- case <-context.Done(): `close(stopCh)`
  close_cancelled :
      (r : Running)
      → r.cancelled ≡ true
      → r.leaving ≡ Leaving.waiting
      → r.returned ≡ none
      → ContextStep r (record r { stopped = true; leaving = Leaving.closed })
  -- `return nil` sets the named result.
  set_nil :
      (r : Running)
      → r.leaving ≡ Leaving.closed
      → ContextStep r (record r { err = none; leaving = Leaving.flushing })
  -- After the deferred Flush the named result is what is returned.
  return_cancelled :
      (r : Running)
      → r.leaving ≡ Leaving.flushing
      → r.returned ≡ none
      → ContextStep r (record r { returned = some r.err })

-- What the caller does.
abbrev pub close : Running → Running
close r = record r { stopped = true }

abbrev pub cancel : Running → Running
cancel r = record r { cancelled = true }

-- The states that steps and the caller lead to, in any order.
pub data Life (Step : Running → Running → Type 0) (caller : Running → Running)
    : Running → Type 0 where
  begun : Life Step caller initial
  called : {r : Running} → Life Step caller r → Life Step caller (caller r)
  stepped : {r r' : Running} → Life Step caller r → Step r r' → Life Step caller r'
