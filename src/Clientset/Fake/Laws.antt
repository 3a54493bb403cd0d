-- ===== src/Clientset/Fake/Laws.antt =====
-- What the list methods of the fakes select.
use lib_bucket_provisioner.Base.{
  Bool, if◌then◌else◌, Text, Option, none, some, List, [], ◌∷◌, ◌++◌, ◌≡◌, refl, sym, inl, inr,
  Bool-cases,
}
use mathlib.Core.List.{append-nil, append_assoc}
use lib_bucket_provisioner.Cluster.Error.{Error}
use lib_bucket_provisioner.V1alpha1.{ObjectBucket, ObjectBucketClaim}
use lib_bucket_provisioner.V1alpha1.Lists.{
  ListMeta, ObjectBucketList, ObjectBucketClaimList, empty_claim_list,
}
use lib_bucket_provisioner.Clientset.Rest.{ListOptions}
use lib_bucket_provisioner.Clientset.Fake.{Tracker, appended, append_matching, items_of}
use lib_bucket_provisioner.Clientset.Fake.Claims as FakeClaims

-- The elements that satisfy a test, in their order.
abbrev pub selected : {A : Type 0} → (A → Bool) → List A → List A
selected p [] = []
selected p (x ∷ xs) = let rest = selected p xs in if p x then x ∷ rest else rest

items_of-appended :
    {A : Type 0} (acc : Option (List A)) (x : A)
    → items_of (some (appended acc x)) ≡ items_of acc ++ (x ∷ [])
unfolding appended
items_of-appended none x = refl
items_of-appended (some xs) x = refl

items_of-append_matching :
    {A : Type 0} (p : A → Bool) (xs : List A) (acc : Option (List A))
    → items_of (append_matching p xs acc) ≡ items_of acc ++ selected p xs
unfolding append_matching
items_of-append_matching p [] acc = sym (append-nil (items_of acc))
items_of-append_matching p (x ∷ xs) acc = elim (Bool-cases (p x)) [
  | inl h ↦
      rw
        (
          h,
          items_of-append_matching p xs (some (appended acc x)),
          items_of-appended acc x,
          append_assoc (items_of acc) (x ∷ []) (selected p xs),
        )
        refl
  | inr h ↦ rw (h) (items_of-append_matching p xs acc)
]

abbrev pub Answered : Type 0 → Type 0 → Type 0
Answered L S = (Option L × Option Error) × S

-- The ListMeta and the items of a list, each changed.
abbrev pub on_claims :
    {S : Type 0}
    → (List ObjectBucketClaim → List ObjectBucketClaim)
    → Answered ObjectBucketClaimList S
    → Answered (ListMeta × List ObjectBucketClaim) S
on_claims f ((none, err), s) = ((none, err), s)
on_claims f ((some l, err), s) = ((some (l.meta, f (items_of l.items)), err), s)

abbrev pub on_buckets :
    {S : Type 0}
    → (List ObjectBucket → List ObjectBucket)
    → Answered ObjectBucketList S
    → Answered (ListMeta × List ObjectBucket) S
on_buckets f ((none, err), s) = ((none, err), s)
on_buckets f ((some l, err), s) = ((some (l.meta, f (items_of l.items)), err), s)

-- The fake's List of claims answers what the tracker answers for the list action, with its ListMeta and its error,
-- but of the items only those that the selector of the options matches, in their order; a nil list stays nil.
pub list_claims_lem :
    (T : Tracker) (ns : Text) (opts : ListOptions) (s : T.State)
    → on_claims (λ items. items) (FakeClaims.list T ns opts s)
      ≡ on_claims
          (selected (λ c. T.matches opts c.meta))
          (T.invokes_claim_list (FakeClaims.list_action ns opts) empty_claim_list s)
unfolding FakeClaims.list FakeClaims.filtered FakeClaims.select_items
list_claims_lem T ns opts s =
    go (T.invokes_claim_list (FakeClaims.list_action ns opts) empty_claim_list s) refl
  where
    go :
        (a : Answered ObjectBucketClaimList T.State)
        → T.invokes_claim_list (FakeClaims.list_action ns opts) empty_claim_list s ≡ a
        → on_claims (λ items. items) (FakeClaims.list T ns opts s)
          ≡ on_claims (selected (λ c. T.matches opts c.meta)) a
    go ((none, err), s') h = rw (h) refl
    go ((some l, err), s') h =
        rw
          (
            h,
            items_of-append_matching (λ (c : ObjectBucketClaim). T.matches opts c.meta)
                (items_of l.items) none,
          )
          refl
