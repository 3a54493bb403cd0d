-- ===== src/V1alpha1/DeepCopy/Lists.antt =====
-- zz_generated.deepcopy.go: the copies of the two list types. The loop writes the copy of each item
-- into a new slice of the same length. The copy of ListMeta is apimachinery's: a value here.
use lib_bucket_provisioner.Base.{
  ℕ, zero, suc, length, Option, none, some, List, [], ◌∷◌, ◌++◌, ◌≡◌, refl, ap,
}
use lib_bucket_provisioner.V1alpha1.{empty_bucket, empty_claim}
use lib_bucket_provisioner.V1alpha1.Lists.{ObjectBucketList, ObjectBucketClaimList}
use lib_bucket_provisioner.V1alpha1.DeepCopy.{deep_copy_bucket, deep_copy_claim}
use lib_bucket_provisioner.V1alpha1.DeepCopy.Laws.{
  BucketMaps, ClaimMaps, deep_copy_bucket_lem, deep_copy_claim_lem,
}

-- `make([]T, n)`: zero values.
zeros : {A : Type 0} → A → ℕ → List A
zeros a zero = []
zeros a (suc n) = a ∷ zeros a n

-- `out[i] = a`, in the range of the loop.
set_item : {A : Type 0} → List A → ℕ → A → List A
set_item [] i a = []
set_item (x ∷ xs) zero a = a ∷ xs
set_item (x ∷ xs) (suc i) a = x ∷ set_item xs i a

-- `for i := range in { in[i].DeepCopyInto(&out[i]) }` from the index `i` on.
unfoldable pub copy_items : {A : Type 0} → (A → A) → List A → ℕ → List A → List A
unfolding set_item
copy_items copy [] i out = out
copy_items copy (x ∷ xs) i out = copy_items copy xs (suc i) (set_item out i (copy x))

copied : {A : Type 0} → A → (A → A) → Option (List A) → Option (List A)
unfolding zeros copy_items
copied empty copy none = none
copied empty copy (some xs) = some (copy_items copy xs 0 (zeros empty (length xs)))

unfoldable pub deep_copy_bucket_list : ObjectBucketList → ObjectBucketList
unfolding copied
deep_copy_bucket_list l = record l { items = copied empty_bucket deep_copy_bucket l.items }

unfoldable pub deep_copy_claim_list : ObjectBucketClaimList → ObjectBucketClaimList
unfolding copied
deep_copy_claim_list l = record l { items = copied empty_claim deep_copy_claim l.items }

abbrev All : {A : Type 0} → (A → Type 0) → List A → Type 0
All P [] = Unit {0}
All P (x ∷ xs) = P x × All P xs

-- Each item satisfies the predicate, if the slice is not nil.
abbrev pub AllItems : {A : Type 0} → (A → Type 0) → Option (List A) → Type 0
AllItems P none = Unit {0}
AllItems P (some xs) = All P xs

set_item-append :
    {A : Type 0} (done : List A) (x a : A) (rest : List A)
    → set_item (done ++ (x ∷ rest)) (length done) a ≡ done ++ (a ∷ rest)
unfolding set_item
set_item-append [] x a rest = refl
set_item-append (d ∷ done) x a rest = ap (λ (l : List _). d ∷ l) (set_item-append done x a rest)

append_one :
    {A : Type 0} (done : List A) (a : A) (rest : List A)
    → done ++ (a ∷ rest) ≡ (done ++ (a ∷ [])) ++ rest
append_one [] a rest = refl
append_one (d ∷ done) a rest = ap (λ (l : List _). d ∷ l) (append_one done a rest)

length-append_one :
    {A : Type 0} (done : List A) (a : A) → length (done ++ (a ∷ [])) ≡ suc (length done)
length-append_one [] a = refl
length-append_one (d ∷ done) a = ap suc (length-append_one done a)

-- The loop with the items `done` behind it.
copy_items-from :
    {A : Type 0} (P : A → Type 0) (copy : A → A) (empty : A)
    → ((a : A) → P a → copy a ≡ a)
    → (xs done : List A) → All P xs
    → copy_items copy xs (length done) (done ++ zeros empty (length xs)) ≡ done ++ xs
unfolding copy_items zeros
copy_items-from P copy empty h [] done all = refl
copy_items-from P copy empty h (x ∷ xs) done all =
    rw
      (
        set_item-append done empty (copy x) (zeros empty (length xs)),
        h x all.0,
        append_one done x (zeros empty (length xs)),
        append_one done x xs,
        ← length-append_one done x,
      )
      (copy_items-from P copy empty h xs (done ++ (x ∷ [])) all.1)

copied_lem :
    {A : Type 0} (P : A → Type 0) (copy : A → A) (empty : A)
    → ((a : A) → P a → copy a ≡ a)
    → (xs : Option (List A)) → AllItems P xs
    → copied empty copy xs ≡ xs
unfolding copied
copied_lem P copy empty h none all = refl
copied_lem P copy empty h (some xs) all = ap some (copy_items-from P copy empty h xs [] all)

-- If the maps of its items have distinct keys, the deep copy of an ObjectBucketList is equal to it: the
-- loop copies every item to its place, and a nil slice stays nil.
pub deep_copy_bucket_list_lem :
    (l : ObjectBucketList) → AllItems BucketMaps l.items → deep_copy_bucket_list l ≡ l
unfolding deep_copy_bucket_list
deep_copy_bucket_list_lem l h =
    cc (copied_lem BucketMaps deep_copy_bucket empty_bucket deep_copy_bucket_lem l.items h)

-- If the maps of its items have distinct keys, the deep copy of an ObjectBucketClaimList is equal to it.
pub deep_copy_claim_list_lem :
    (l : ObjectBucketClaimList) → AllItems ClaimMaps l.items → deep_copy_claim_list l ≡ l
unfolding deep_copy_claim_list
deep_copy_claim_list_lem l h =
    cc (copied_lem ClaimMaps deep_copy_claim empty_claim deep_copy_claim_lem l.items h)
