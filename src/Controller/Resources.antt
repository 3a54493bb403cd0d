-- ===== src/Controller/Resources.antt =====
-- controller.go: the obcController, SetLabels, supportedProvisioner, objectBucketForClaimKey, and
-- the resources of a key.
pub mod Laws
use lib_bucket_provisioner.Base.{
  ℕ, zero, suc, Text, codes, ◌==◌, length, StringMap, entries, insert_all, Bool, if◌then◌else◌,
  Option, none, some, List, [], ◌∷◌, ◌++◌,
}
use lib_bucket_provisioner.V1alpha1.{ObjectBucket, ConfigMap, Secret}
use lib_bucket_provisioner.Cluster.Error.{Error, Reply, done, failed, is_not_found}
use lib_bucket_provisioner.Cluster.Env.{Env}
use lib_bucket_provisioner.Cluster.Monad.{M, pure, lift, attempt, ◌>>=◌}
use lib_bucket_provisioner.Cluster.Calls.{get_bucket}
use lib_bucket_provisioner.Helpers.Names.{object_bucket_name_from_claim_key, label_value}
use lib_bucket_provisioner.Helpers.Lookups.{config_map_for_claim_key, secret_for_claim_key}

-- The fields of obcController that are not clients, caches or the queue.
pub record Controller : Type 0 where
  pub provisioner_labels : StringMap
  pub provisioner_name : Text

abbrev pub provisioner_label_key : Text
provisioner_label_key = codes "bucket-provisioner"

-- The struct that NewController makes.
unfoldable pub new_controller : (Text → List Text) → Text → Controller
new_controller is_valid_label_value name = record {
  provisioner_labels = some ((provisioner_label_key, label_value is_valid_label_value name) ∷ []);
  provisioner_name = name;
}

unfoldable pub set_labels : Controller → StringMap → Controller
set_labels c labels = record c {
  provisioner_labels = some (insert_all (entries labels) (entries c.provisioner_labels));
}

unfoldable pub supported_provisioner : Controller → Text → Bool
supported_provisioner c provisioner = provisioner == c.provisioner_name

-- What getResourcesFromKey returns: nil for a resource that was not got, and the errors in order.
pub record Resources : Type 0 where
  pub ob : Option ObjectBucket
  pub cm : Option ConfigMap
  pub secret : Option Secret
  pub errs : List Error

abbrev pub got : {A : Type 0} → Reply A → Option A
got (done a) = some a
got (failed e) = none

-- groupErrors
abbrev pub grouped : {A : Type 0} → List Error → Reply A → List Error
grouped errs (done a) = errs
grouped errs (failed e) = errs ++ (e ∷ [])

module _ {E : Env} where
  unfoldable pub object_bucket_for_claim_key : Text → M E ObjectBucket
  object_bucket_for_claim_key key = do
    name ← lift (object_bucket_name_from_claim_key E key)
    get_bucket name

  unfoldable pub get_resources_from_key : Text → M E Resources
  get_resources_from_key key = do
    ob ← attempt (object_bucket_for_claim_key key)
    cm ← attempt (config_map_for_claim_key key)
    sec ← attempt (secret_for_claim_key key)
    pure (record {
      ob = got ob;
      cm = got cm;
      secret = got sec;
      errs = grouped (grouped (grouped [] ob) cm) sec;
    })

-- `errs[i]` is not found
not_found_at : ℕ → List Error → Bool
not_found_at i [] = Bool.false
not_found_at zero (e ∷ errs) = is_not_found e
not_found_at (suc i) (e ∷ errs) = not_found_at i errs

-- `append(errs[:i], errs[i+1:]...)`
without_at : ℕ → List Error → List Error
without_at i [] = []
without_at zero (e ∷ errs) = errs
without_at (suc i) (e ∷ errs) = e ∷ without_at i errs

-- `for i := n - 1; i >= 0; i--`
unfoldable pub trim_not_found : ℕ → List Error → List Error
unfolding not_found_at without_at
trim_not_found zero errs = errs
trim_not_found (suc i) errs =
    trim_not_found i (if not_found_at i errs then without_at i errs else errs)

unfoldable pub get_existing_resources_from_key : {E : Env} → Text → M E Resources
get_existing_resources_from_key key = do
  r ← get_resources_from_key key
  pure (record r { errs = trim_not_found (length r.errs) r.errs })
