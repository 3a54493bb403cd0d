-- ===== src/V1alpha1/DeepCopy/Shared/Laws.antt =====
-- A copied_cell ObjectBucket beside what it is a copy of: its addresses and its value.
use lib_bucket_provisioner.Base.{ℕ, suc, List, [], ◌∷◌, ◌≡◌}
use lib_bucket_provisioner.V1alpha1.DeepCopy.Shared.{Copy}

-- These are the numbers from the first to before the second, in their order.
abbrev pub Counts : List ℕ → ℕ → ℕ → Type 0
Counts [] n m = n ≡ m
Counts (x ∷ xs) n m = (x ≡ n) × Counts xs (suc n) m

-- The copy has new addresses only.
abbrev CountsUp {ℓ} : {A : Type ℓ} → (A → List ℕ) → Copy A → Type ℓ
CountsUp {A = A} inner copy = (a : A) (n : ℕ) → Counts (inner (copy a n).0) n (copy a n).1

-- The copy of a value is the value's copy.
abbrev CopiesAs {ℓ κ} : {A : Type ℓ} {B : Type κ} → (A → B) → Copy A → (B → B) → Type (ℓ ⊔ κ)
CopiesAs {A = A} view copy deep_copy = (a : A) (n : ℕ) → view (copy a n).0 ≡ deep_copy (view a)
