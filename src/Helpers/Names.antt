-- ===== src/Helpers/Names.antt =====
-- helpers.go: names of config maps, secrets, object buckets and buckets, and label values.
pub mod Laws
use lib_bucket_provisioner.Base.{
  ℕ, ◌-◌, Text, codes, length, take, ◌==◌, leb, ltb, eqb, if◌then◌else◌, Bool, ◌&&◌, List, [], ◌∷◌,
  ◌++◌, map,
}
use lib_bucket_provisioner.V1alpha1.{ObjectBucketClaim, ObjectBucket}
use lib_bucket_provisioner.Cluster.Error.{Reply, done, failed, failure, no_bucket_name_given}
use lib_bucket_provisioner.Cluster.Env.{Env}
use lib_bucket_provisioner.Cluster.Monad.{M, pure, raise, ◌>>=◌}
use lib_bucket_provisioner.Cluster.Calls.{new_uuid}

unfoldable pub compose_config_map_name : ObjectBucketClaim → Text
compose_config_map_name obc = obc.meta.name

unfoldable pub compose_secret_name : ObjectBucketClaim → Text
compose_secret_name obc = obc.meta.name

-- fmt.Sprintf("obc-%s-%s", ns, name)
unfoldable pub object_bucket_name : Text → Text → Text
object_bucket_name ns name = codes "obc-" ++ (ns ++ (codes "-" ++ name))

named : Reply (Text × Text) → Reply Text
unfolding object_bucket_name
named (done (ns, name)) = done (object_bucket_name ns name)
named (failed e) = failed e

unfoldable pub object_bucket_name_from_claim_key : Env → Text → Reply Text
unfolding named
object_bucket_name_from_claim_key E key = named (E.split_key key)

unfoldable pub renamed : ObjectBucket → Reply Text → ObjectBucket
renamed ob (done name) = record ob { meta = record ob.meta { name = name } }
renamed ob (failed e) = ob

unfoldable pub set_object_bucket_name : Env → ObjectBucket → Text → ObjectBucket
unfolding object_bucket_name_from_claim_key renamed
set_object_bucket_name E ob key = renamed ob (object_bucket_name_from_claim_key E key)

abbrev pub max_name_len : ℕ
max_name_len = 63

abbrev pub uuid_suffix_len : ℕ
uuid_suffix_len = 36

abbrev pub max_base_name_len : ℕ
max_base_name_len = max_name_len - uuid_suffix_len

-- The prefix that generateBucketName keeps.
unfoldable pub name_prefix : Text → Text
name_prefix prefix =
    if leb max_base_name_len (length prefix) then take (max_base_name_len - 1) prefix else prefix

-- fmt.Sprintf("%s-%s", prefix, uuid)
unfoldable pub generated_name : Text → Text → Text
unfolding name_prefix
generated_name prefix uuid = name_prefix prefix ++ (codes "-" ++ uuid)

unfoldable pub generate_bucket_name : {E : Env} → Text → M E Text
unfolding generated_name
generate_bucket_name prefix = do uuid ← new_uuid; pure (generated_name prefix uuid)

unfoldable pub compose_bucket_name : {E : Env} → ObjectBucketClaim → M E Text
unfolding generate_bucket_name
compose_bucket_name obc =
    if obc.spec.bucket_name == [] && obc.spec.generate_bucket_name == []
    then raise (failure no_bucket_name_given)
    else if obc.spec.bucket_name == []
    then generate_bucket_name obc.spec.generate_bucket_name
    else pure obc.spec.bucket_name

-- validation.LabelValueMaxLength
abbrev pub label_value_max_length : ℕ
label_value_max_length = 63

-- strings.Replace(v, "/", "-", -1)
replace_slashes : Text → Text
replace_slashes = map (λ c. if eqb c b'/' then b'-' else c)

is_empty : List Text → Bool
is_empty [] = Bool.true
is_empty (_ ∷ _) = Bool.false

-- `if len(v) > max { v = v[0:max] }`
trimmed : ℕ → Text → Text
trimmed max v = if ltb max (length v) then take max v else v

-- `is_valid_label_value` is validation.IsValidLabelValue, which lists what is wrong with a value.
unfoldable pub label_value : (Text → List Text) → Text → Text
unfolding replace_slashes is_empty trimmed
label_value is_valid_label_value v =
    if is_empty (is_valid_label_value v)
    then v
    else replace_slashes (trimmed label_value_max_length v)
