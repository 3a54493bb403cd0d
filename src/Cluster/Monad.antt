-- ===== src/Cluster/Monad.antt =====
-- A Go function that returns a value and an error, run in an environment. Its run may also panic on
-- a nil pointer. What was called before an error stays in the log.
use lib_bucket_provisioner.Base.{Bool, if◌then◌else◌, Option, none, some, ◌∷◌}
use lib_bucket_provisioner.Cluster.Error.{Error, Message, failure, wrapped, Reply, done, failed}
use lib_bucket_provisioner.Cluster.Event.{Event, Trace}
use lib_bucket_provisioner.Cluster.Env.{Env}

pub data Outcome (A : Type 0) : Type 0 where
  ok : A → Outcome A
  err : Error → Outcome A
  panic : Outcome A

pub record World (E : Env) : Type 0 where
  pub state : E.State
  pub trace : Trace

abbrev pub M : Env → Type 0 → Type 0
M E A = World E → Outcome A × World E

module _ {E : Env} {A : Type 0} where
  unfoldable pub pure : A → M E A
  pure a w = (ok a, w)

  unfoldable pub raise : Error → M E A
  raise e w = (err e, w)

  unfoldable pub crash : M E A
  crash w = (panic, w)

  unfoldable pub lift : Reply A → M E A
  unfolding pure raise
  lift (done a) = pure a
  lift (failed e) = raise e

  -- A call that cannot fail is logged too.
  unfoldable pub ask : (E.State → A × E.State) → (A → Event) → M E A
  ask op event w =
      let (a, s) = op w.state in (ok a, record { state = s; trace = event a ∷ w.trace })

  -- A call outside: its answer is logged, and a failure is the error.
  unfoldable pub call : (E.State → Reply A × E.State) → (Reply A → Event) → M E A
  unfolding lift
  call op event w =
      let (r, s) = op w.state in lift r (record { state = s; trace = event r ∷ w.trace })

  unfoldable pub caught : Outcome A → World E → Outcome (Reply A) × World E
  caught (ok a) w = (ok (done a), w)
  caught (err e) w = (ok (failed e), w)
  caught panic w = (panic, w)

  -- The error as a value, for code that looks at it.
  unfoldable pub attempt : M E A → M E (Reply A)
  unfolding caught
  attempt m w = let (r, w') = m w in caught r w'

  unfoldable pub rewrapped : (Error → Error) → Outcome A → World E → Outcome A × World E
  rewrapped f (ok a) w = (ok a, w)
  rewrapped f (err e) w = (err (f e), w)
  rewrapped f panic w = (panic, w)

  unfoldable pub map_error : (Error → Error) → M E A → M E A
  unfolding rewrapped
  map_error f m w = let (r, w') = m w in rewrapped f r w'

  -- `if err != nil { return fmt.Errorf("…: %v", err) }`
  abbrev pub wrap : Message → M E A → M E A
  wrap msg = map_error (wrapped msg)

  -- The same with a message that leaves the cause out.
  abbrev pub blame : Message → M E A → M E A
  blame msg = map_error (λ _. failure msg)

  unfoldable pub reread : Bool → Message → Outcome A → World E → Outcome A × World E
  reread nil msg (ok a) w = (ok a, w)
  reread nil msg (err e) w = (if nil then panic else err (failure msg), w)
  reread nil msg panic w = (panic, w)

  -- The same with a message that reads the result beside the error, which may be a nil pointer.
  unfoldable pub blame_result : Bool → Message → M E A → M E A
  unfolding reread
  blame_result nil msg m w = let (r, w') = m w in reread nil msg r w'

  unfoldable pub logged_last : Event → Outcome A → World E → Outcome A × World E
  logged_last event r w = (r, record w { trace = event ∷ w.trace })

  -- `defer`: the event is logged last, however the run ends.
  unfoldable pub deferring : Event → M E A → M E A
  unfolding logged_last
  deferring event m w = let (r, w') = m w in logged_last event r w'

  -- Dereferencing a pointer.
  unfoldable pub deref : Option A → M E A
  unfolding pure crash
  deref none = crash
  deref (some a) = pure a

unfoldable pub log : {E : Env} → Event → M E (Unit {0})
log event w = (ok tt, record w { trace = event ∷ w.trace })

module _ {E : Env} {A B : Type 0} where
  unfoldable pub continue : Outcome A → (A → M E B) → M E B
  continue (ok a) f w = f a w
  continue (err e) f w = (err e, w)
  continue panic f w = (panic, w)

  infixl 5 ◌>>=◌ ◌>>◌
  unfoldable pub ◌>>=◌ : M E A → (A → M E B) → M E B
  unfolding continue
  ◌>>=◌ m f w = let (r, w') = m w in continue r f w'

  abbrev pub ◌>>◌ : M E A → M E B → M E B
  m >> n = m >>= λ _. n
