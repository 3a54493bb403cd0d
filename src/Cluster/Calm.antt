-- ===== src/Cluster/Calm.antt =====
-- Runs that never panic: one rule for each way to build a function.
use lib_bucket_provisioner.Base.{Bool, true, false, if◌then◌else◌}
use lib_bucket_provisioner.Cluster.Error.{Error, Reply, done, failed}
use lib_bucket_provisioner.Cluster.Event.{Event, Trace}
use lib_bucket_provisioner.Cluster.Env.{Env}
use lib_bucket_provisioner.Cluster.Monad.{
  Outcome, ok, err, panic, World, M, pure, raise, lift, ask, call, attempt, map_error, ◌>>=◌,
  caught, rewrapped, continue,
}
use lib_bucket_provisioner.Cluster.Triple.{Ending, error, crash, Post, Triple}
use lib_bucket_provisioner.Cluster.Emits.{Emits, Grown-keeps}
use lib_bucket_provisioner.Cluster.Ordered.{Lasting}

abbrev pub Returns : {A : Type 0} → Outcome A → Type 0
Returns (ok a) = Unit {0}
Returns (err e) = Unit {0}
Returns panic = ⊥

pub record Calm {E : Env} {A : Type 0} (m : M E A) : Type 0 where
  pub at : (w : World E) → Returns (m w).0

module _ {E : Env} {A : Type 0} where
  pub Calm-pure : (a : A) → Calm (pure {E = E} a)
  unfolding pure
  Calm-pure a = record { at = λ w. tt }

  pub Calm-raise : (e : Error) → Calm (raise {E = E} {A = A} e)
  unfolding raise
  Calm-raise e = record { at = λ w. tt }

  pub Calm-lift : (r : Reply A) → Calm (lift {E = E} r)
  unfolding lift
  Calm-lift (done a) = Calm-pure a
  Calm-lift (failed e) = Calm-raise e

  pub Calm-call :
      (op : E.State → Reply A × E.State) (event : Reply A → Event) → Calm (call {E = E} op event)
  unfolding call
  Calm-call op event = record { at = λ w. (Calm-lift (op w.state).0).at _ }

  pub Calm-ask : (op : E.State → A × E.State) (event : A → Event) → Calm (ask {E = E} op event)
  unfolding ask
  Calm-ask op event = record { at = λ w. tt }

  pub Calm-if : (b : Bool) (m n : M E A) → Calm m → Calm n → Calm (if b then m else n)
  Calm-if true m n cm cn = cm
  Calm-if false m n cm cn = cn

  caught-Returns : (r : Outcome A) (w : World E) → Returns r → Returns (caught r w).0
  unfolding attempt
  caught-Returns (ok a) w h = tt
  caught-Returns (err e) w h = tt
  caught-Returns panic w h = h

  pub Calm-attempt : {m : M E A} → Calm m → Calm (attempt m)
  unfolding attempt
  Calm-attempt {m} cm = record { at = λ w. caught-Returns (m w).0 (m w).1 (cm.at w) }

  rewrapped-Returns :
      (f : Error → Error) (r : Outcome A) (w : World E) → Returns r → Returns (rewrapped f r w).0
  unfolding map_error
  rewrapped-Returns f (ok a) w h = tt
  rewrapped-Returns f (err e) w h = tt
  rewrapped-Returns f panic w h = h

  pub Calm-map_error : (f : Error → Error) {m : M E A} → Calm m → Calm (map_error f m)
  unfolding map_error
  Calm-map_error f {m} cm = record { at = λ w. rewrapped-Returns f (m w).0 (m w).1 (cm.at w) }

module _ {E : Env} {A B : Type 0} where
  continue-Returns :
      (r : Outcome A) (f : A → M E B) (w : World E)
      → ((a : A) → Calm (f a))
      → Returns r
      → Returns (continue r f w).0
  unfolding ◌>>=◌
  continue-Returns (ok a) f w cf h = (cf a).at w
  continue-Returns (err e) f w cf h = tt
  continue-Returns panic f w cf h = h

  pub Calm-bind : {m : M E A} {f : A → M E B} → Calm m → ((a : A) → Calm (f a)) → Calm (m >>= f)
  unfolding ◌>>=◌
  Calm-bind {m} {f} cm cf = record { at = λ w. continue-Returns (m w).0 f (m w).1 cf (cm.at w) }

pub ruleset calm = (
  Calm-pure, Calm-raise, Calm-lift, Calm-call, Calm-ask, Calm-if, Calm-attempt, Calm-map_error,
  Calm-bind,
)

-- A panic leaves a log with this fact; nothing is said of an error.
abbrev pub OnCrash : {E : Env} → (Trace → Type 0) → Ending → World E → Type 0
OnCrash K error w = Unit {0}
OnCrash K crash w = K w.trace

abbrev pub Anyhow : {E : Env} {A : Type 0} → A → World E → Type 0
Anyhow a w = Unit {0}

calm-Post :
    {E : Env} {A : Type 0} (K : Trace → Type 0) (r : Outcome A) (w : World E)
    → Returns r
    → Post Anyhow (OnCrash K) r w
calm-Post K (ok a) w h = tt
calm-Post K (err e) w h = tt
calm-Post K panic w h = absurd h

pub Calm-Triple :
    {E : Env} {A : Type 0} {P : World E → Type 0} (K : Trace → Type 0) {m : M E A}
    → Calm m
    → Triple P m Anyhow (OnCrash K)
Calm-Triple K {m} cm = record { at = λ w p. calm-Post K (m w).0 (m w).1 (cm.at w) }

-- A run that never panics keeps what its events leave true.
calm_kept-Post :
    {E : Env} {A : Type 0} (K L : Trace → Type 0) (r : Outcome A) (w : World E)
    → Returns r
    → L w.trace
    → Post (λ a w. L w.trace) (OnCrash K) r w
calm_kept-Post K L (ok a) w h l = l
calm_kept-Post K L (err e) w h l = tt
calm_kept-Post K L panic w h l = absurd h

pub Triple-Calm :
    {E : Env} {A : Type 0} (K : Trace → Type 0) {L : Trace → Type 0} {m : M E A}
    → Lasting L
    → Calm m
    → Emits (λ e. Unit {0}) m
    → Triple (λ w. L w.trace) m (λ a w. L w.trace) (OnCrash K)
Triple-Calm K {L} {m} lasting cm em = record {
  at = λ w l.
      calm_kept-Post K L (m w).0 (m w).1 (cm.at w)
        (Grown-keeps L (λ e t u l. lasting.later e t l) (em.at w) l);
}
