-- ===== src/Cluster/Triple.antt =====
-- Pre- and postconditions: from a world with `P`, a run that returns `a` ends in `Q a`, and a run
-- that fails or panics in `R`, which is told which of the two. One rule for each way to build a function.
use lib_bucket_provisioner.Base.{
  Bool, true, false, Option, none, some, ◌∷◌, ◌≡◌, refl, if◌then◌else◌,
}
use lib_bucket_provisioner.Cluster.Error.{Error, Message, Reply, done, failed}
use lib_bucket_provisioner.Cluster.Event.{Event, Trace}
use lib_bucket_provisioner.Cluster.Env.{Env}
use lib_bucket_provisioner.Cluster.Monad.{
  Outcome, ok, err, panic, World, M, pure, raise, lift, call, attempt, map_error, deref, ◌>>=◌,
  caught, rewrapped, reread, blame_result, continue,
}
use lib_bucket_provisioner.Cluster.Emits.{Grown-keeps, Emits}

-- How a run that returns no value ends.
pub data Ending : Type 0 where
  error crash : Ending

abbrev pub Post :
    {E : Env} {A : Type 0}
    → (A → World E → Type 0)
    → (Ending → World E → Type 0)
    → Outcome A
    → World E
    → Type 0
Post Q R (ok a) w = Q a w
Post Q R (err e) w = R error w
Post Q R panic w = R crash w

pub record Triple {E : Env} {A : Type 0} (P : World E → Type 0) (m : M E A)
    (Q : A → World E → Type 0) (R : Ending → World E → Type 0) : Type 0 where
  pub at : (w : World E) → P w → Post Q R (m w).0 (m w).1

-- The same for one outcome.
module _ {E : Env} {A : Type 0} (Q : A → World E → Type 0) (R : Ending → World E → Type 0) where
  lift-Post :
      (event : Reply A → Event) (t : Trace) (r : Reply A) (s : E.State)
      → ((a : A) → r ≡ done a → Q a (record { state = s; trace = event (done a) ∷ t }))
      → ((e : Error) → r ≡ failed e → R error (record { state = s; trace = event (failed e) ∷ t }))
      → let w : World E = record { state = s; trace = event r ∷ t } in
        Post Q R (lift r w).0 (lift r w).1
  unfolding lift
  lift-Post event t (done a) s q r = q a refl
  lift-Post event t (failed e) s q r = r e refl

  weaken-Post :
      (Q' : A → World E → Type 0) (R' : Ending → World E → Type 0) (r : Outcome A) (w : World E)
      → ((a : A) (w : World E) → Q' a w → Q a w)
      → ((x : Ending) (w : World E) → R' x w → R x w)
      → Post Q' R' r w
      → Post Q R r w
  weaken-Post Q' R' (ok a) w q r h = q a w h
  weaken-Post Q' R' (err e) w q r h = r error w h
  weaken-Post Q' R' panic w q r h = r crash w h

  rewrapped-Post :
      (f : Error → Error) (r : Outcome A) (w : World E)
      → Post Q R r w
      → Post Q R (rewrapped f r w).0 (rewrapped f r w).1
  unfolding map_error
  rewrapped-Post f (ok a) w h = h
  rewrapped-Post f (err e) w h = h
  rewrapped-Post f panic w h = h

  -- The result beside an error is read.
  reread-Post :
      (nil : Bool) (msg : Message) (r : Outcome A) (w : World E)
      → ((w : World E) → nil ≡ true → R error w → R crash w)
      → Post Q R r w
      → Post Q R (reread nil msg r w).0 (reread nil msg r w).1
  unfolding blame_result
  reread-Post nil msg (ok a) w f h = h
  reread-Post true msg (err e) w f h = f w refl h
  reread-Post false msg (err e) w f h = h
  reread-Post nil msg panic w f h = h

module _ {E : Env} {A : Type 0} (Q : Reply A → World E → Type 0)
    (R R' : Ending → World E → Type 0) where
  caught-Post :
      (r : Outcome A) (w : World E)
      → ((e : Error) (w : World E) → R' error w → Q (failed e) w)
      → ((w : World E) → R' crash w → R crash w)
      → Post (λ a. Q (done a)) R' r w
      → Post Q R (caught r w).0 (caught r w).1
  unfolding attempt
  caught-Post (ok a) w f r h = h
  caught-Post (err e) w f r h = f e w h
  caught-Post panic w f r h = r w h

module _ {E : Env} {A B : Type 0} (Q' : A → World E → Type 0) (Q : B → World E → Type 0)
    (R : Ending → World E → Type 0) where
  continue-Post :
      (f : A → M E B) (r : Outcome A) (w : World E)
      → ((a : A) → Triple (Q' a) (f a) Q R)
      → Post Q' R r w
      → Post Q R (continue r f w).0 (continue r f w).1
  unfolding ◌>>=◌
  continue-Post f (ok a) w t h = (t a).at w h
  continue-Post f (err e) w t h = h
  continue-Post f panic w t h = h

module _ {E : Env} {A : Type 0} where
  quiet-Post :
      (I : Trace → Type 0) (r : Outcome A) (w : World E)
      → I w.trace
      → Post (λ _ w. I w.trace) (λ _ w. I w.trace) r w
  quiet-Post I (ok a) w i = i
  quiet-Post I (err e) w i = i
  quiet-Post I panic w i = i

module _ {E : Env} {A : Type 0} {P : World E → Type 0} {Q : A → World E → Type 0}
    {R : Ending → World E → Type 0} where
  pub Triple-pure : (a : A) → ((w : World E) → P w → Q a w) → Triple P (pure a) Q R
  unfolding pure
  Triple-pure a h = record { at = h }

  pub Triple-raise : (e : Error) → ((w : World E) → P w → R error w) → Triple P (raise e) Q R
  unfolding raise
  Triple-raise e h = record { at = h }

  pub Triple-lift :
      (r : Reply A)
      → ((a : A) (w : World E) → r ≡ done a → P w → Q a w)
      → ((w : World E) → P w → R error w)
      → Triple P (lift r) Q R
  unfolding lift
  Triple-lift (done a) q r = record { at = λ w. q a w refl }
  Triple-lift (failed e) q r = record { at = r }

  pub Triple-deref :
      (p : Option A)
      → ((a : A) (w : World E) → p ≡ some a → P w → Q a w)
      → ((w : World E) → p ≡ none → P w → R crash w)
      → Triple P (deref p) Q R
  unfolding deref
  Triple-deref none q r = record { at = λ w. r w refl }
  Triple-deref (some a) q r = record { at = λ w. q a w refl }

  pub Triple-if :
      (b : Bool) {m n : M E A}
      → (b ≡ true → Triple P m Q R)
      → (b ≡ false → Triple P n Q R)
      → Triple P (if b then m else n) Q R
  Triple-if true tm tn = tm refl
  Triple-if false tm tn = tn refl

  -- The condition after a call, for each answer that the environment can give.
  pub Triple-call :
      (op : E.State → Reply A × E.State) (event : Reply A → Event)
      → ((w : World E) (a : A) (s : E.State)
          → P w
          → op w.state ≡ (done a, s)
          → Q a (record { state = s; trace = event (done a) ∷ w.trace }))
      → ((w : World E) (e : Error) (s : E.State)
          → P w
          → op w.state ≡ (failed e, s)
          → R error (record { state = s; trace = event (failed e) ∷ w.trace }))
      → Triple P (call op event) Q R
  unfolding call
  Triple-call op event q r = record {
    at = λ w p.
        let (x, s) = op w.state in
        lift-Post Q R event w.trace (op w.state).0 (op w.state).1
          (λ a e. q w a (op w.state).1 p (λ i. (e i, (op w.state).1)))
          (λ a e. r w a (op w.state).1 p (λ i. (e i, (op w.state).1)));
  }

  pub Triple-weaken :
      {P' : World E → Type 0} {Q' : A → World E → Type 0} {R' : Ending → World E → Type 0}
      {m : M E A}
      → Triple P' m Q' R'
      → ((w : World E) → P w → P' w)
      → ((a : A) (w : World E) → Q' a w → Q a w)
      → ((x : Ending) (w : World E) → R' x w → R x w)
      → Triple P m Q R
  Triple-weaken {Q'} {R'} {m} t p q r = record {
    at = λ w h. weaken-Post Q R Q' R' (m w).0 (m w).1 q r (t.at w (p w h));
  }

module _ {E : Env} {A : Type 0} {P : World E → Type 0} {Q : A → World E → Type 0}
    {R : Ending → World E → Type 0} where
  pub Triple-blame_result :
      (nil : Bool) (msg : Message) {m : M E A}
      → ((w : World E) → nil ≡ true → R error w → R crash w)
      → Triple P m Q R
      → Triple P (blame_result nil msg m) Q R
  unfolding blame_result
  Triple-blame_result nil msg {m} f t = record {
    at = λ w p. reread-Post Q R nil msg (m w).0 (m w).1 f (t.at w p);
  }

  pub Triple-map_error :
      (f : Error → Error) {m : M E A} → Triple P m Q R → Triple P (map_error f m) Q R
  unfolding map_error
  Triple-map_error f {m} t = record { at = λ w p. rewrapped-Post Q R f (m w).0 (m w).1 (t.at w p) }

module _ {E : Env} {A : Type 0} {P : World E → Type 0} {Q : Reply A → World E → Type 0}
    {R R' : Ending → World E → Type 0} where
  -- An error that is looked at goes on with what a failed run leaves.
  pub Triple-attempt :
      {m : M E A}
      → Triple P m (λ a. Q (done a)) R'
      → ((e : Error) (w : World E) → R' error w → Q (failed e) w)
      → ((w : World E) → R' crash w → R crash w)
      → Triple P (attempt m) Q R
  unfolding attempt
  Triple-attempt {m} t f r = record {
    at = λ w p. caught-Post Q R R' (m w).0 (m w).1 f r (t.at w p);
  }

module _ {E : Env} {A : Type 0} (Q : Reply A → World E → Type 0)
    (R : Ending → World E → Type 0) where
  caught-lift-Post :
      (r : Reply A) (w : World E)
      → Q r w
      → Post Q R (caught (lift r w).0 (lift r w).1).0 (caught (lift r w).0 (lift r w).1).1
  unfolding attempt lift
  caught-lift-Post (done a) w q = q
  caught-lift-Post (failed e) w q = q

-- A call whose answer is looked at.
pub Triple-attempt-call :
    {E : Env} {A : Type 0} {P : World E → Type 0} {Q : Reply A → World E → Type 0}
    {R : Ending → World E → Type 0} (op : E.State → Reply A × E.State) (event : Reply A → Event)
    → ((w : World E) (r : Reply A) (s : E.State)
        → P w
        → op w.state ≡ (r, s)
        → Q r (record { state = s; trace = event r ∷ w.trace }))
    → Triple P (attempt (call op event)) Q R
unfolding attempt call
Triple-attempt-call {Q} {R} op event q = record {
  at = λ w p. caught-lift-Post Q R (op w.state).0 _ (q w (op w.state).0 (op w.state).1 p refl);
}

module _ {E : Env} {A B : Type 0} {P : World E → Type 0} {Q' : A → World E → Type 0}
    {Q : B → World E → Type 0} {R : Ending → World E → Type 0} where
  pub Triple-bind :
      {m : M E A} {f : A → M E B}
      → Triple P m Q' R
      → ((a : A) → Triple (Q' a) (f a) Q R)
      → Triple P (m >>= f) Q R
  unfolding ◌>>=◌
  Triple-bind {m} {f} tm tf = record {
    at = λ w p. continue-Post Q' Q R f (m w).0 (m w).1 tf (tm.at w p);
  }

-- A run whose events keep a condition on the log keeps it, whether it returns or not.
module _ {E : Env} {A : Type 0} {P : Event → Type 0} (I : Trace → Type 0) where
  pub Triple-quiet :
      {m : M E A}
      → Emits P m
      → ((e : Event) (t : Trace) → P e → I t → I (e ∷ t))
      → Triple {E = E} (λ w. I w.trace) m (λ _ w. I w.trace) (λ _ w. I w.trace)
  Triple-quiet {m} em step = record {
    at = λ w i. quiet-Post I (m w).0 (m w).1 (Grown-keeps I step (em.at w) i);
  }
