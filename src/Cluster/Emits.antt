-- ===== src/Cluster/Emits.antt =====
-- What a run logs: `Emits P m` says that every event that `m` adds to the log satisfies `P`,
-- whatever the environment answers. One rule for each way to build a function.
use lib_bucket_provisioner.Base.{Bool, true, false, Option, none, some, ◌∷◌, if◌then◌else◌}
use lib_bucket_provisioner.Cluster.Error.{Message, Error, Reply, done, failed}
use lib_bucket_provisioner.Cluster.Event.{Event, Trace}
use lib_bucket_provisioner.Cluster.Env.{Env}
use lib_bucket_provisioner.Cluster.Monad.{
  Outcome, ok, err, panic, World, M, pure, raise, crash, lift, ask, call, attempt, map_error, deref,
  log, ◌>>=◌, caught, rewrapped, reread, blame_result, continue, deferring,
}

-- The second trace is the first with events of `P` on top.
pub data Grown (P : Event → Type 0) (t : Trace) : Trace → Type 0 where
  same : Grown P t t
  more : {u : Trace} {e : Event} → Grown P t u → P e → Grown P t (e ∷ u)

pub record Emits {E : Env} {A : Type 0} (P : Event → Type 0) (m : M E A) : Type 0 where
  pub at : (w : World E) → Grown P w.trace (m w).1.trace

Grown-trans : {P : Event → Type 0} {t u v : Trace} → Grown P t u → Grown P u v → Grown P t v
Grown-trans g same = g
Grown-trans g (more h p) = more (Grown-trans g h) p

-- An invariant of the log that `P` events keep.
pub Grown-keeps :
    {P : Event → Type 0} (I : Trace → Type 0) {t u : Trace}
    → ((e : Event) (s : Trace) → P e → I s → I (e ∷ s))
    → Grown P t u
    → I t
    → I u
Grown-keeps I step same i = i
Grown-keeps I step (more {u = s} {e} g p) i = step e s p (Grown-keeps I step g i)

module _ {E : Env} {A : Type 0} {P : Event → Type 0} where
  pub Emits-pure : (a : A) → Emits P (pure {E = E} a)
  unfolding pure
  Emits-pure a = record { at = λ w. same }

  pub Emits-raise : (e : Error) → Emits P (raise {E = E} {A = A} e)
  unfolding raise
  Emits-raise e = record { at = λ w. same }

  pub Emits-crash : Emits P (crash {E = E} {A = A})
  unfolding crash
  Emits-crash = record { at = λ w. same }

  pub Emits-lift : (r : Reply A) → Emits P (lift {E = E} r)
  unfolding lift
  Emits-lift (done a) = Emits-pure a
  Emits-lift (failed e) = Emits-raise e

  pub Emits-deref : (p : Option A) → Emits P (deref {E = E} p)
  unfolding deref
  Emits-deref none = Emits-crash
  Emits-deref (some a) = Emits-pure a

  pub Emits-call :
      (op : E.State → Reply A × E.State) (event : Reply A → Event)
      → ((r : Reply A) → P (event r))
      → Emits P (call {E = E} op event)
  unfolding call
  Emits-call op event p = record {
    at = λ w.
        let (r, s) = op w.state in
        Grown-trans (more same (p r))
          ((Emits-lift r).at (record { state = s; trace = event r ∷ w.trace }));
  }

  pub Emits-ask :
      (op : E.State → A × E.State) (event : A → Event)
      → ((a : A) → P (event a))
      → Emits P (ask {E = E} op event)
  unfolding ask
  Emits-ask op event p = record { at = λ w. more same (p (op w.state).0) }

  pub Emits-if : (b : Bool) (m n : M E A) → Emits P m → Emits P n → Emits P (if b then m else n)
  Emits-if true m n em en = em
  Emits-if false m n em en = en

pub Emits-log : {E : Env} {P : Event → Type 0} (e : Event) → P e → Emits P (log {E = E} e)
unfolding log
Emits-log e p = record { at = λ w. more same p }

module _ {E : Env} {A : Type 0} {P : Event → Type 0} where
  caught-Grown :
      {t : Trace} (r : Outcome A) (w : World E) → Grown P t w.trace → Grown P t (caught r w).1.trace
  unfolding attempt
  caught-Grown (ok a) w g = g
  caught-Grown (err e) w g = g
  caught-Grown panic w g = g

  pub Emits-attempt : {m : M E A} → Emits P m → Emits P (attempt m)
  unfolding attempt
  Emits-attempt {m} em = record { at = λ w. let (r, w') = m w in caught-Grown r w' (em.at w) }

  rewrapped-Grown :
      {t : Trace} (f : Error → Error) (r : Outcome A) (w : World E)
      → Grown P t w.trace
      → Grown P t (rewrapped f r w).1.trace
  unfolding map_error
  rewrapped-Grown f (ok a) w g = g
  rewrapped-Grown f (err e) w g = g
  rewrapped-Grown f panic w g = g

  reread-Grown :
      (nil : Bool) (msg : Message) {t : Trace} (r : Outcome A) (w : World E)
      → Grown P t w.trace
      → Grown P t (reread nil msg r w).1.trace
  unfolding blame_result
  reread-Grown nil msg (ok a) w g = g
  reread-Grown nil msg (err e) w g = g
  reread-Grown nil msg panic w g = g

  pub Emits-blame_result :
      (nil : Bool) (msg : Message) {m : M E A} → Emits P m → Emits P (blame_result nil msg m)
  unfolding blame_result
  Emits-blame_result nil msg {m} em = record {
    at = λ w. let (r, w') = m w in reread-Grown nil msg r w' (em.at w);
  }

  pub Emits-map_error : (f : Error → Error) {m : M E A} → Emits P m → Emits P (map_error f m)
  unfolding map_error
  Emits-map_error f {m} em = record {
    at = λ w. let (r, w') = m w in rewrapped-Grown f r w' (em.at w);
  }

  pub Emits-deferring : (e : Event) {m : M E A} → P e → Emits P m → Emits P (deferring e m)
  unfolding deferring
  Emits-deferring e {m} p em = record { at = λ w. more (em.at w) p }

module _ {E : Env} {A B : Type 0} {P : Event → Type 0} where
  continue-Grown :
      {t : Trace} (r : Outcome A) (f : A → M E B) (w : World E)
      → ((a : A) → Emits P (f a))
      → Grown P t w.trace
      → Grown P t (continue r f w).1.trace
  unfolding ◌>>=◌
  continue-Grown (ok a) f w ef g = Grown-trans g ((ef a).at w)
  continue-Grown (err e) f w ef g = g
  continue-Grown panic f w ef g = g

  pub Emits-bind :
      {m : M E A} {f : A → M E B} → Emits P m → ((a : A) → Emits P (f a)) → Emits P (m >>= f)
  unfolding ◌>>=◌
  Emits-bind {m} {f} em ef = record {
    at = λ w. let (r, w') = m w in continue-Grown r f w' ef (em.at w);
  }

pub ruleset emits = (
  Emits-pure, Emits-raise, Emits-crash, Emits-lift, Emits-deref, Emits-call, Emits-ask, Emits-if,
  Emits-log, Emits-attempt, Emits-map_error, Emits-blame_result, Emits-deferring, Emits-bind,
)
