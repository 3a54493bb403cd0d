-- ===== src/Listers/Laws.antt =====
-- The listers over an indexer that holds a list of objects by their MetaNamespaceKeyFunc keys.
use lib_bucket_provisioner.Base.{
  Text, codes, Bool, true, false, ◌==◌, ◌&&◌, eqb, if◌then◌else◌, Bool-cases, inl, inr, Option,
  none, some, List, [], ◌∷◌, ◌++◌, ==_sound, ◌≡◌, ◌≢◌, ℕ, refl, sym, ap, arith,
}
use mathlib.Core.Bool.{and_assoc}
use lib_bucket_provisioner.V1alpha1.{ObjectMeta, ObjectBucketClaim}
use lib_bucket_provisioner.Cluster.Error.{done}
use lib_bucket_provisioner.Listers.{
  Indexer, existing, new_claim_lister, object_bucket_claims, get_claim,
}

-- Whether the text has no slash, as no namespace has.
abbrev pub no_slash : Text → Bool
no_slash [] = true
no_slash (b ∷ t) = let rest = no_slash t in if eqb b 47 then false else rest

-- cache.MetaNamespaceKeyFunc, as client-go documents it: namespace/name, or the name without a namespace.
abbrev pub meta_key : ObjectMeta → Text
meta_key m = if m.namespace == [] then m.name else m.namespace ++ (codes "/" ++ m.name)

abbrev pub stored : {A : Type 0} → (A → Bool) → List A → Option A
stored p [] = none
stored p (x ∷ xs) = let rest = stored p xs in if p x then some x else rest

no_slash-tail : (b : ℕ) (t : Text) → no_slash (b ∷ t) ≡ true → (b ≢ 47) × (no_slash t ≡ true)
no_slash-tail b t h = elim (Bool-cases (eqb b 47)) [
  | inl e ↦ ground (arith, e, h)
  | inr e ↦ (ground (arith, e), ground (arith, e, h))
]

slash-== :
    (ns ns' name name' : Text)
    → no_slash ns ≡ true
    → no_slash ns' ≡ true
    → ((ns ++ (codes "/" ++ name)) == (ns' ++ (codes "/" ++ name')))
      ≡ ((ns == ns') && (name == name'))
unfolding ◌==◌
slash-== [] [] name name' h h' = refl
slash-== [] (b ∷ ns') name name' h h' = ground (arith, no_slash-tail b ns' h')
slash-== (a ∷ ns) [] name name' h h' = ground (arith, no_slash-tail a ns h)
slash-== (a ∷ ns) (b ∷ ns') name name' h h' =
    rw (slash-== ns ns' name name' (no_slash-tail a ns h).1 (no_slash-tail b ns' h').1)
      (sym (and_assoc (eqb a b) (ns == ns') (name == name')))

meta_key-namespaced :
    (m : ObjectMeta) → m.namespace ≢ [] → meta_key m ≡ m.namespace ++ (codes "/" ++ m.name)
meta_key-namespaced m h = elim (Bool-cases (m.namespace == [])) [
  | inl e ↦ absurd (h (==_sound m.namespace [] e))
  | inr e ↦ rw (e) refl
]

abbrev All : {A : Type 0} → (A → Type 0) → List A → Type 0
All P [] = Unit {0}
All P (x ∷ xs) = P x × All P xs

-- The namespace of a claim: not empty, and without a slash.
abbrev pub HasNamespace : ObjectBucketClaim → Type 0
HasNamespace c = (c.meta.namespace ≢ []) × (no_slash c.meta.namespace ≡ true)

stored-agree :
    {A : Type 0} (P : A → Type 0) (p q : A → Bool)
    → ((a : A) → P a → p a ≡ q a)
    → (xs : List A) → All P xs
    → stored p xs ≡ stored q xs
stored-agree P p q agree [] h = refl
stored-agree P p q agree (x ∷ xs) (hx, h) = rw (agree x hx, stored-agree P p q agree xs h) refl

-- If the indexer answers a key with the first of some namespaced claims that have this key, and no
-- namespace has a slash, then Get of a namespace's lister answers the first of these claims with this
-- namespace and name, and a not-found error if there is none.
pub get_claim_lem :
    {Selector : Type 0} (indexer : Indexer ObjectBucketClaim Selector)
    (claims : List ObjectBucketClaim) (ns name : Text)
    → ((key : Text) → indexer.get_by_key key ≡ done (stored (λ c. key == meta_key c.meta) claims))
    → All HasNamespace claims
    → no_slash ns ≡ true
    → get_claim (object_bucket_claims (new_claim_lister indexer) ns) name
      ≡ existing (done (stored (λ c. (ns == c.meta.namespace) && (name == c.meta.name)) claims))
unfolding get_claim object_bucket_claims new_claim_lister
get_claim_lem indexer claims ns name answers all h = rw (answers (ns ++ (codes "/" ++ name))) (
    ap (λ found. existing (done found))
      (stored-agree HasNamespace _ _
        (λ c hc.
          rw (meta_key-namespaced c.meta hc.0)
            (slash-== ns c.meta.namespace name c.meta.name h hc.1))
        claims all))
