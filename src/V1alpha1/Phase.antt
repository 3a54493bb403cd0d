-- ===== src/V1alpha1/Phase.antt =====
-- The phases of objectbucket_types.go and objectbucketclaim_types.go. The constants of the two
-- types have the same texts.
use lib_bucket_provisioner.Base.{Text, codes}

abbrev pub pending : Text
pending = codes "Pending"

abbrev pub bound : Text
bound = codes "Bound"

abbrev pub released : Text
released = codes "Released"
