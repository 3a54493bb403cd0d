-- ===== src/Helpers/Metadata.antt =====
-- helpers.go: addLabels, addFinalizers, removeFinalizer. A `metav1.Object` is its metadata.
pub mod Laws
use lib_bucket_provisioner.Base.{
  Text, codes, ◌==◌, StringMap, entries, insert_all, Bool, false, ◌||◌, if◌then◌else◌, some, List,
  [], ◌∷◌, ◌++◌,
}
use lib_bucket_provisioner.V1alpha1.{ObjectMeta}

-- The finalizer constant of resourcehandlers.go: api.Domain + "/finalizer"
abbrev pub finalizer : Text
finalizer = codes "objectbucket.io/finalizer"

-- `if labels == nil { labels = make(…) }`, and every new label is set.
unfoldable pub add_labels : ObjectMeta → StringMap → ObjectMeta
unfolding insert_all
add_labels obj new_labels = record obj {
  labels = some (insert_all (entries new_labels) (entries obj.labels));
}

unfoldable pub contains : Text → List Text → Bool
contains f [] = false
contains f (g ∷ fs) = g == f || contains f fs

-- The loop over the new finalizers; `known` are the finalizers before it.
append_unknown : List Text → List Text → List Text → List Text
unfolding contains
append_unknown known [] fs = fs
append_unknown known (f ∷ new) fs =
    append_unknown known new (if contains f known then fs else fs ++ (f ∷ []))

unfoldable pub add_finalizers : ObjectMeta → List Text → ObjectMeta
unfolding append_unknown
add_finalizers obj new = record obj {
  finalizers = append_unknown obj.finalizers new obj.finalizers;
}

-- Takes the first occurrence out and stops there.
unfoldable pub remove_first : Text → List Text → List Text
remove_first f [] = []
remove_first f (g ∷ fs) = if g == f then fs else g ∷ remove_first f fs

unfoldable pub remove_finalizer : ObjectMeta → ObjectMeta
unfolding remove_first
remove_finalizer obj = record obj { finalizers = remove_first finalizer obj.finalizers }
