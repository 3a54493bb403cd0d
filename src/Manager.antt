-- ===== src/Manager.antt =====
-- pkg/provisioner/manager.go: Provisioner.SetLabels; NewProvisioner is in Make, Run and RunWithContext in
-- Running, with what they return in Results and their end in Progress.
pub mod Make
pub mod Running
pub mod Results
pub mod Progress
use lib_bucket_provisioner.Base.{
  Text, length, ltb, StringMap, Entries, entries, if◌then◌else◌, List, [], ◌∷◌, ◌++◌, ◌≡◌, refl,
}
use lib_bucket_provisioner.Controller.Resources as controller
use lib_bucket_provisioner.Controller.Resources.{Controller}

-- The loop over the labels, with the errors so far.
collect_errors : (Text → List Text) → Entries → List Text → List Text
collect_errors is_valid_label_value [] errs = errs
collect_errors is_valid_label_value ((_, v) ∷ labels) errs =
    let v_errs = is_valid_label_value v in
    collect_errors is_valid_label_value labels
      (if ltb 0 (length errs) then errs ++ v_errs else errs)

-- The errors that SetLabels returns, and the controller afterwards.
unfoldable pub set_labels : (Text → List Text) → Controller → StringMap → List Text × Controller
unfolding collect_errors
set_labels is_valid_label_value c labels =
    let errs = collect_errors is_valid_label_value (entries labels) [] in
    if ltb 0 (length errs) then (errs, c) else ([], controller.set_labels c labels)

collect_errors-nil :
    (is_valid_label_value : Text → List Text) (labels : Entries)
    → collect_errors is_valid_label_value labels [] ≡ []
unfolding collect_errors
collect_errors-nil is_valid_label_value [] = refl
collect_errors-nil is_valid_label_value (_ ∷ labels) =
    collect_errors-nil is_valid_label_value labels

-- SetLabels of the manager never reports an error and always hands the labels to the controller,
-- whatever the validation says of their values.
pub set_labels-accepts_all :
    (is_valid_label_value : Text → List Text) (c : Controller) (labels : StringMap)
    → set_labels is_valid_label_value c labels ≡ ([], controller.set_labels c labels)
unfolding set_labels
set_labels-accepts_all is_valid_label_value c labels =
    rw (collect_errors-nil is_valid_label_value (entries labels)) refl
