-- ===== src/Clientset/Fake/Simple/Laws.antt =====
-- The claims that NewSimpleClientset is given, as its clientset answers for them.
use lib_bucket_provisioner.Base.{
  Text, codes, ◌==◌, ◌&&◌, Bool, true, false, if◌then◌else◌, Bool-cases, inl, inr, Option, none,
  some, List, [], ◌∷◌, map, ◌≡◌, refl, ap, ◌∙◌, ==_iff, arith,
}
use lib_bucket_provisioner.V1alpha1.{ObjectBucketClaim}
use lib_bucket_provisioner.Cluster.Error.{Error}
use lib_bucket_provisioner.Clientset.Config.{Made, made, panicked}
use lib_bucket_provisioner.Clientset.Fake.{Action}
use lib_bucket_provisioner.Clientset.Fake.Claims as FakeClaims
use lib_bucket_provisioner.Clientset.Fake.Claims.{claim_resource, get_action}
use lib_bucket_provisioner.Clientset.Fake.Simple.{
  Reacted, Testing, SimpleClientset, add_objects, with_reactors, new_simple_clientset,
  objectbucket_v1alpha1,
}
use lib_bucket_provisioner.Listers.Laws.{stored}

abbrev pub is_at : Text → Text → ObjectBucketClaim → Bool
is_at ns name c = (c.meta.namespace == ns) && (c.meta.name == name)

-- No claim of the list has the place of this one.
abbrev pub Apart : ObjectBucketClaim → List ObjectBucketClaim → Type 0
Apart c [] = Unit {0}
Apart c (d ∷ ds) = (is_at d.meta.namespace d.meta.name c ≡ false) × Apart c ds

abbrev pub IsDistinct : List ObjectBucketClaim → Type 0
IsDistinct [] = Unit {0}
IsDistinct (c ∷ cs) = Apart c cs × IsDistinct cs

-- The claim, or the error that there is none.
abbrev pub answer : Error → Option ObjectBucketClaim → Option ObjectBucketClaim × Option Error
answer missing none = (none, some missing)
answer missing (some c) = (some c, none)

-- What client-go documents of its tracker: a new one holds nothing; a claim is added at its place, if
-- nothing is there; and a get action that a Fake passes to the object reaction is answered with the
-- claim that the tracker holds.
pub record Tracks (T : Testing) (missing : Error) : Type 0 where
  pub held : T.ObjectTracker → T.State → Text → Text → Option ObjectBucketClaim
  pub new_empty :
      (s : T.State) (ns name : Text)
      → (let (o, s') = T.new_object_tracker s in held o s' ns name) ≡ none
  pub add_succeeds :
      (o : T.ObjectTracker) (c : ObjectBucketClaim) (s : T.State)
      → held o s c.meta.namespace c.meta.name ≡ none
      → (T.add o (T.claim_object c) s).0 ≡ none
  pub add_holds :
      (o : T.ObjectTracker) (c : ObjectBucketClaim) (s : T.State) (ns name : Text)
      → held o s c.meta.namespace c.meta.name ≡ none
      → held o (T.add o (T.claim_object c) s).1 ns name
        ≡ (if is_at ns name c then some c else held o s ns name)
  pub get_answers :
      (o : T.ObjectTracker) (s : T.State) (ns name : Text) (into : ObjectBucketClaim)
      (react : Action → T.State → Reacted T.Watcher × T.State)
      → (let fake =
            T.add_watch_reactor
              (codes "*")
              react
              (T.add_reactor (codes "*") (codes "*") (T.object_reaction o) T.zero_fake) in
          T.invokes_claim fake (Action.get claim_resource (some ns) name) into s).0
        ≡ answer missing (held o s ns name)

abbrev or_held : Option ObjectBucketClaim → Option ObjectBucketClaim → Option ObjectBucketClaim
or_held (some c) held = some c
or_held none held = held

or_held-none : (c : Option ObjectBucketClaim) → or_held c none ≡ c
or_held-none (some c) = refl
or_held-none none = refl

stored-Apart :
    (ns name : Text) (c : ObjectBucketClaim) (cs : List ObjectBucketClaim)
    → Apart c cs
    → is_at ns name c ≡ true
    → stored (is_at ns name) cs ≡ none
stored-Apart ns name c [] apart h = refl
stored-Apart ns name c (d ∷ ds) apart h = ground (
  arith,
  apart.0,
  stored-Apart ns name c ds apart.1 h,
  ==_iff c.meta.namespace ns,
  ==_iff c.meta.name name,
  ==_iff d.meta.namespace ns,
  ==_iff d.meta.name name,
  ==_iff c.meta.namespace d.meta.namespace,
  ==_iff c.meta.name d.meta.name,
)

or_held_first :
    (ns name : Text) (c : ObjectBucketClaim) (cs : List ObjectBucketClaim)
    (held : Option ObjectBucketClaim)
    → Apart c cs
    → or_held (stored (is_at ns name) cs) (if is_at ns name c then some c else held)
      ≡ or_held (stored (is_at ns name) (c ∷ cs)) held
or_held_first ns name c cs held apart = elim (Bool-cases (is_at ns name c)) [
  | inl h ↦ rw (h, stored-Apart ns name c cs apart h) refl
  | inr h ↦ rw (h) refl
]

module _ {T : Testing} {missing : Error} (law : Tracks T missing) (o : T.ObjectTracker) where
  -- The tracker holds nothing at the places of these claims.
  abbrev IsFree : T.State → List ObjectBucketClaim → Type 0
  IsFree s [] = Unit
  IsFree s (c ∷ cs) = (law.held o s c.meta.namespace c.meta.name ≡ none) × IsFree s cs

  add-IsFree :
      (c : ObjectBucketClaim) (cs : List ObjectBucketClaim) (s : T.State)
      → law.held o s c.meta.namespace c.meta.name ≡ none
      → Apart c cs
      → IsFree s cs
      → IsFree (T.add o (T.claim_object c) s).1 cs
  add-IsFree c [] s h apart free = tt
  add-IsFree c (d ∷ ds) s h apart free = (
    law.add_holds o c s d.meta.namespace d.meta.name h ∙ (rw (apart.0) free.0),
    add-IsFree c ds s h apart.1 free.1,
  )

  -- The claims are all added, and each place has its claim or what it had.
  add_objects_lem :
      (cs : List ObjectBucketClaim) (s : T.State)
      → IsDistinct cs
      → IsFree s cs
      → ((add_objects T o (map T.claim_object cs) s).0 ≡ none)
        × ((ns name : Text)
            → law.held o (add_objects T o (map T.claim_object cs) s).1 ns name
              ≡ or_held (stored (is_at ns name) cs) (law.held o s ns name))
  unfolding add_objects
  add_objects_lem [] s d free = (refl, λ ns name. refl)
  add_objects_lem (c ∷ cs) s d free =
      let s' = (T.add o (T.claim_object c) s).1 in
      let rest = add_objects_lem cs s' d.1 (add-IsFree c cs s free.0 d.0 free.1) in
      rw (law.add_succeeds o c s free.0) (
        rest.0,
        λ ns name.
            rest.1 ns name
            ∙ (ap (or_held (stored (is_at ns name) cs)) (law.add_holds o c s ns name free.0)
                ∙ or_held_first ns name c cs _ d.0),
      )

new-IsFree :
    {T : Testing} {missing : Error} (law : Tracks T missing) (s : T.State)
    (cs : List ObjectBucketClaim)
    → let (o, s') = T.new_object_tracker s in IsFree law o s' cs
new-IsFree law s [] = tt
new-IsFree law s (c ∷ cs) = (law.new_empty s c.meta.namespace c.meta.name, new-IsFree law s cs)

-- Each claim that NewSimpleClientset was given is found.
abbrev pub Answers :
    (T : Testing) → Error → List ObjectBucketClaim → Made (SimpleClientset T) → T.State → Type 0
Answers T missing cs (made c) s =
    (ns name : Text)
    → (FakeClaims.get (objectbucket_v1alpha1 T c) ns name s).0
      ≡ answer missing (stored (is_at ns name) cs)
Answers T missing cs (panicked e) s = ⊥

-- Given claims with distinct places, a namespace and a name each, NewSimpleClientset does not panic,
-- and Get of its claims client answers a namespace and a name with the claim that was given for it,
-- and where none was given with the tracker's error.
pub new_simple_clientset-get :
    (T : Testing) (missing : Error)
    → Tracks T missing
    → (cs : List ObjectBucketClaim) (s : T.State) → IsDistinct cs
    → let (c, s') = new_simple_clientset T (map T.claim_object cs) s in Answers T missing cs c s'
unfolding new_simple_clientset with_reactors FakeClaims.get get_action
new_simple_clientset-get T missing law cs s d =
    let (o, s1) = T.new_object_tracker s in
    let added = add_objects_lem law o cs s1 d (new-IsFree law s cs) in
    rw (added.0, Answers)
      (λ ns name.
        law.get_answers o _ ns name _ _
        ∙ ap (answer missing) (
            added.1 ns name
            ∙ (ap (or_held (stored (is_at ns name) cs)) (law.new_empty s ns name)
                ∙ or_held-none _)))
