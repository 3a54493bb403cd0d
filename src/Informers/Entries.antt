-- ===== src/Informers/Entries.antt =====
-- The entries of the factory's maps, counted by their key.
use lib_bucket_provisioner.Base.{
  ℕ, ◌+◌, ◌≤◌, ◌≡◌, Bool, true, false, if◌then◌else◌, Bool-cases, none, some, inl, inr, List, [],
  ◌∷◌, ◌++◌, refl, ap, arith,
}
use lib_bucket_provisioner.Informers.{Kind, same, find, put}
use lib_bucket_provisioner.Informers.Factory.{is_started}

abbrev pub bit : Bool → ℕ
bit b = if b then 1 else 0

-- How often a key occurs in a list of entries.
abbrev pub entries_of : {A : Type 0} → Kind → List (Kind × A) → ℕ
entries_of k [] = 0
entries_of k ((k', a) ∷ m) = bit (same k k') + entries_of k m

unfoldable pub started_of_kind : Kind → List (Kind × Bool) → ℕ
started_of_kind k st = bit (is_started k st)

pub bit-le : (b : Bool) → bit b ≤ 1
bit-le true = omega arith
bit-le false = omega arith

module _ {A : Type 0} where
  pub entries_of-append :
      (k : Kind) (xs ys : List (Kind × A))
      → entries_of k (xs ++ ys) ≡ entries_of k xs + entries_of k ys
  entries_of-append k [] ys = omega arith
  entries_of-append k ((k', a) ∷ xs) ys = omega (arith, entries_of-append k xs ys)

  pub entries_of-put :
      (k k' : Kind) (a : A) (m : List (Kind × A))
      → find k' m ≡ none
      → (entries_of k' m ≡ 0) × (entries_of k (put k' a m) ≡ bit (same k k') + entries_of k m)
  unfolding find put
  entries_of-put k k' a [] h = (refl, refl)
  entries_of-put k Kind.bucket a ((Kind.claim, b) ∷ m) h =
      let (absent, e) = entries_of-put k Kind.bucket a m h in
      (omega (arith, absent), omega (arith, e))
  entries_of-put k Kind.claim a ((Kind.bucket, b) ∷ m) h =
      let (absent, e) = entries_of-put k Kind.claim a m h in
      (omega (arith, absent), omega (arith, e))
  entries_of-put k Kind.bucket a ((Kind.bucket, b) ∷ m) h = ground arith
  entries_of-put k Kind.claim a ((Kind.claim, b) ∷ m) h = ground arith

  find-put_same : (k : Kind) (a : A) (m : List (Kind × A)) → find k (put k a m) ≡ some a
  unfolding find put
  find-put_same Kind.bucket a [] = refl
  find-put_same Kind.claim a [] = refl
  find-put_same Kind.bucket a ((Kind.bucket, b) ∷ m) = refl
  find-put_same Kind.bucket a ((Kind.claim, b) ∷ m) = find-put_same Kind.bucket a m
  find-put_same Kind.claim a ((Kind.bucket, b) ∷ m) = find-put_same Kind.claim a m
  find-put_same Kind.claim a ((Kind.claim, b) ∷ m) = refl

  find-put_other :
      (k k' : Kind) (a : A) (m : List (Kind × A))
      → same k k' ≡ false
      → find k (put k' a m) ≡ find k m
  unfolding find put
  find-put_other Kind.bucket Kind.bucket a m h = ground arith
  find-put_other Kind.claim Kind.claim a m h = ground arith
  find-put_other Kind.bucket Kind.claim a [] h = refl
  find-put_other Kind.claim Kind.bucket a [] h = refl
  find-put_other Kind.bucket Kind.claim a ((Kind.bucket, b) ∷ m) h = refl
  find-put_other Kind.claim Kind.bucket a ((Kind.claim, b) ∷ m) h = refl
  find-put_other Kind.bucket Kind.claim a ((Kind.claim, b) ∷ m) h = refl
  find-put_other Kind.claim Kind.bucket a ((Kind.bucket, b) ∷ m) h = refl

same_refl : (k : Kind) → same k k ≡ true
same_refl Kind.bucket = refl
same_refl Kind.claim = refl

pub same-true : (k k' : Kind) → same k k' ≡ true → k ≡ k'
same-true Kind.bucket Kind.bucket h = refl
same-true Kind.claim Kind.claim h = refl
same-true Kind.bucket Kind.claim h = ground arith
same-true Kind.claim Kind.bucket h = ground arith

pub started-put :
    (k k' : Kind) (st : List (Kind × Bool))
    → is_started k' st ≡ false
    → started_of_kind k (put k' true st) ≡ bit (same k k') + started_of_kind k st
unfolding started_of_kind is_started
started-put k k' st h = elim (Bool-cases (same k k')) [
  | inl e ↦
      rw (same-true k k' e, h) (rw (find-put_same k' true st) (rw (same_refl k') (omega arith)))
  | inr e ↦ rw (e, find-put_other k k' true st e) (omega arith)
]

pub bit-entries_of-le :
    {A : Type 0} (k k' : Kind) (m : List (Kind × A))
    → entries_of k' m ≡ 0
    → entries_of k m ≤ 1
    → bit (same k k') + entries_of k m ≤ 1
bit-entries_of-le k k' m absent le = elim (Bool-cases (same k k')) [
  | inl e ↦ omega (arith, ap bit e, absent, ap (λ kind. entries_of kind m) (same-true k k' e))
  | inr e ↦ omega (arith, ap bit e, le)
]

pub entries_of-nil : {A : Type 0} (m : List (Kind × A)) → ((k : Kind) → entries_of k m ≡ 0) → m ≡ []
entries_of-nil [] none_of = refl
entries_of-nil ((k, a) ∷ m) none_of = ground (arith, none_of k, ap bit (same_refl k))
