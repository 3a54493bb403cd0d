-- ===== src/Cluster/Ordered.antt =====
-- Conditions on the order of the log's entries: `Safe G` says that the guard `G` of every event holds
-- of the log before it.
use lib_bucket_provisioner.Base.{[], ◌∷◌, ◌⊎◌, inl, inr}
use lib_bucket_provisioner.Cluster.Event.{Event, Trace}
use lib_bucket_provisioner.Cluster.Env.{Env}
use lib_bucket_provisioner.Cluster.Monad.{Outcome, ok, err, panic, World, M, deferring}
use lib_bucket_provisioner.Cluster.Emits.{Emits}
use lib_bucket_provisioner.Cluster.Triple.{Post, Triple, Triple-weaken, Triple-quiet}

-- Some event of the log satisfies `P`.
abbrev pub Any : (Event → Type 0) → Trace → Type 0
Any P [] = ⊥
Any P (e ∷ t) = P e ⊎ Any P t

pub Any-map : {P Q : Event → Type 0} (t : Trace) → ((e : Event) → P e → Q e) → Any P t → Any Q t
Any-map [] f a = a
Any-map (e ∷ t) f (inl p) = inl (f e p)
Any-map (e ∷ t) f (inr a) = inr (Any-map t f a)

abbrev pub Safe : (Event → Trace → Type 0) → Trace → Type 0
Safe G [] = Unit {0}
Safe G (e ∷ t) = G e t × Safe G t

-- A fact about the log that later events leave true.
pub record Lasting (K : Trace → Type 0) : Type 0 where
  pub later : (e : Event) (t : Trace) → K t → K (e ∷ t)

pub Any-Lasting : (P : Event → Type 0) → Lasting (Any P)
Any-Lasting P = record { later = λ e t k. inr k }

pub ×-Lasting : {K L : Trace → Type 0} → Lasting K → Lasting L → Lasting (λ t. K t × L t)
×-Lasting k l = record { later = λ e t h. (k.later e t h.0, l.later e t h.1) }

pub always : Lasting (λ _. Unit {0})
always = record { later = λ e t _. tt }

-- The postconditions of a run that keeps the order and a lasting fact.
abbrev pub Kept : {E : Env} → (Event → Trace → Type 0) → (Trace → Type 0) → World E → Type 0
Kept G K w = Safe G w.trace × K w.trace

abbrev pub Ordered : {E : Env} {X : Type 0} → (Event → Trace → Type 0) → X → World E → Type 0
Ordered G _ w = Safe G w.trace

module _ {E : Env} {A : Type 0} (G : Event → Trace → Type 0) {K : Trace → Type 0} where
  -- A run that logs only events whose guard follows from a lasting fact keeps order and fact.
  pub Triple-Kept :
      {m : M E A}
      → Lasting K
      → Emits (λ e. (t : Trace) → K t → G e t) m
      → Triple (Kept G K) m (λ _. Kept G K) (Ordered G)
  Triple-Kept {m} lasting em =
      Triple-weaken
        (Triple-quiet (λ t. Safe G t × K t) em (λ e t g i. ((g t i.1, i.0), lasting.later e t i.1)))
        (λ w i. i) (λ a w i. i) (λ x w i. i.0)

module _ {E : Env} {A : Type 0} (G : Event → Trace → Type 0) where
  -- A run that logs only events without a guard.
  pub Triple-Ordered :
      {m : M E A}
      → Emits (λ e. (t : Trace) → G e t) m
      → Triple (Ordered G tt) m (λ _. Ordered G tt) (Ordered G)
  Triple-Ordered em = Triple-quiet (Safe G) em (λ e t g s. (g t, s))

  Ordered-Post :
      (r : Outcome A) (w : World E) → Safe G w.trace → Post (λ _. Ordered G tt) (Ordered G) r w
  Ordered-Post (ok a) w h = h
  Ordered-Post (err e) w h = h
  Ordered-Post panic w h = h

  Post-Ordered :
      (r : Outcome A) (w : World E) → Post (λ _. Ordered G tt) (Ordered G) r w → Safe G w.trace
  Post-Ordered (ok a) w h = h
  Post-Ordered (err e) w h = h
  Post-Ordered panic w h = h

  pub Safe-from :
      {P : World E → Type 0} {m : M E A}
      → Triple P m (λ _. Ordered G tt) (Ordered G)
      → (w : World E) → P w
      → Safe G (m w).1.trace
  Safe-from {m} t w p = Post-Ordered (m w).0 (m w).1 (t.at w p)

  pub Triple-Safe :
      {m : M E A}
      → Triple (Ordered G tt) m (λ _. Ordered G tt) (Ordered G)
      → (w : World E) → Safe G w.trace
      → Safe G (m w).1.trace
  Triple-Safe {m} t w s = Safe-from t w s

-- A deferred call whose event has no guard.
pub Triple-deferring :
    {E : Env} {A : Type 0} (G : Event → Trace → Type 0) (event : Event) {m : M E A}
    → ((t : Trace) → G event t)
    → Triple (Ordered G tt) m (λ _. Ordered G tt) (Ordered G)
    → Triple (Ordered G tt) (deferring event m) (λ _. Ordered G tt) (Ordered G)
unfolding deferring
Triple-deferring G event {m} g t = record {
  at = λ w s.
      let (r, w') = m w in
      Ordered-Post G r (record w' { trace = event ∷ w'.trace }) (g w'.trace, Triple-Safe G t w s);
}
