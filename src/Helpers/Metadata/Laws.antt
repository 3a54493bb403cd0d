-- ===== src/Helpers/Metadata/Laws.antt =====
-- addFinalizers, removeFinalizer and addLabels of pkg/provisioner/helpers.go.
use lib_bucket_provisioner.Base.{
  ℕ, ◌+◌, ◌-◌, Text, ◌==◌, ==_iff, ==_refl, Entries, entries, lookup, lookup-insert_all, IsDistinct,
  or_else, true, false, if◌then◌else◌, Bool-cases, inl, inr, some, List, [], ◌∷◌, ◌++◌, ◌≡◌, refl,
  ap, arith,
}
use lib_bucket_provisioner.V1alpha1.{ObjectMeta}
use lib_bucket_provisioner.Helpers.Metadata.{
  finalizer, add_labels, contains, add_finalizers, remove_first, remove_finalizer,
}

contains-append_one : (f : Text) (fs : List Text) → contains f (fs ++ (f ∷ [])) ≡ true
unfolding contains
contains-append_one f [] = ground (arith, ==_refl f)
contains-append_one f (g ∷ fs) = ground (arith, contains-append_one f fs)

-- After addFinalizers with the controller's finalizer, the object has it.
pub add_finalizers-contains :
    (obj : ObjectMeta) → contains finalizer (add_finalizers obj (finalizer ∷ [])).finalizers ≡ true
unfolding add_finalizers
add_finalizers-contains obj = elim (Bool-cases (contains finalizer obj.finalizers)) [
  | inl h ↦ rw h h
  | inr h ↦ rw h (contains-append_one finalizer obj.finalizers)
]

-- Adding the finalizer twice is adding it once.
pub add_finalizers_idem :
    (obj : ObjectMeta)
    → let once = add_finalizers obj (finalizer ∷ []) in add_finalizers once (finalizer ∷ []) ≡ once
unfolding add_finalizers
add_finalizers_idem obj =
    ap (λ (fs : List Text). record obj { finalizers = fs }) (rw (add_finalizers-contains obj) refl)

remove_first-append_one :
    (f : Text) (fs : List Text) → contains f fs ≡ false → remove_first f (fs ++ (f ∷ [])) ≡ fs
unfolding contains remove_first
remove_first-append_one f [] h = ground (arith, ==_refl f)
remove_first-append_one f (g ∷ fs) h = ground (arith, remove_first-append_one f fs)

-- How often a finalizer stands in a list.
pub occurrences : Text → List Text → ℕ
occurrences f [] = 0
occurrences f (g ∷ fs) = (if g == f then 1 else 0) + occurrences f fs

pub occurrences-remove_first :
    (x f : Text) (fs : List Text)
    → occurrences f (remove_first x fs)
      ≡ (if f == x then occurrences f fs - 1 else occurrences f fs)
unfolding occurrences remove_first
occurrences-remove_first x f [] = ground arith
occurrences-remove_first x f (g ∷ fs) =
    ground (arith, ==_iff f x, ==_iff g x, ==_iff g f, ==_refl g, occurrences-remove_first x f fs)

-- On an object without the controller's finalizer, removeFinalizer takes back what addFinalizers
-- adds: the other finalizers are left, in their order.
pub remove_finalizer-add_finalizers :
    (obj : ObjectMeta)
    → contains finalizer obj.finalizers ≡ false
    → remove_finalizer (add_finalizers obj (finalizer ∷ [])) ≡ obj
unfolding remove_finalizer add_finalizers
remove_finalizer-add_finalizers obj h =
    ap (λ (fs : List Text). record obj { finalizers = fs })
      (rw h (remove_first-append_one finalizer obj.finalizers h))

-- After addLabels, a key has its new value, and a key that is not among the new labels the value
-- that it had before. The new labels are a map, so that no key stands in them twice.
pub lookup-add_labels :
    (obj : ObjectMeta) (new : Entries) (k : Text)
    → IsDistinct new
    → lookup k (entries (add_labels obj (some new)).labels)
      ≡ or_else (lookup k new) (lookup k (entries obj.labels))
unfolding add_labels
lookup-add_labels obj new k d = lookup-insert_all k new (entries obj.labels) d

-- removeFinalizer lowers the number of the controller's finalizers by one, not below zero, and
-- keeps the number of every other finalizer.
pub occurrences-remove_finalizer :
    (obj : ObjectMeta) (f : Text)
    → occurrences f (remove_finalizer obj).finalizers
      ≡ (if f == finalizer then occurrences f obj.finalizers - 1 else occurrences f obj.finalizers)
unfolding remove_finalizer
occurrences-remove_finalizer obj f = occurrences-remove_first finalizer f obj.finalizers
