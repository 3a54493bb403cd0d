-- ===== src/ProvisionerErrors.antt =====
-- pkg/provisioner/api/errors/errors.go. An error is an interface value: it holds the struct
-- BucketExistsErr, a pointer to one, or a value of another type, and a type assertion tells these
-- apart.
use lib_bucket_provisioner.Base.{Text, Bool, true, false, ◌≡◌, refl}

pub record BucketExistsErr : Type 0 where
  pub err_string : Text

pub data ErrorValue : Type 0 where
  bucket_exists : BucketExistsErr → ErrorValue
  bucket_exists_pointer : BucketExistsErr → ErrorValue
  another : Text → ErrorValue

unfoldable pub new_bucket_exists_error : Text → ErrorValue
new_bucket_exists_error msg = bucket_exists_pointer (record { err_string = msg })

-- `_, is = e.(BucketExistsErr)`
unfoldable pub is_bucket_exists : ErrorValue → Bool
is_bucket_exists (bucket_exists e) = true
is_bucket_exists _ = false

-- IsBucketExists is false of every error that NewBucketExistsError makes.
pub is_bucket_exists-new_bucket_exists_error :
    (msg : Text) → is_bucket_exists (new_bucket_exists_error msg) ≡ false
unfolding is_bucket_exists new_bucket_exists_error
is_bucket_exists-new_bucket_exists_error msg = refl
