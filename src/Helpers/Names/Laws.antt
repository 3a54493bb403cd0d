-- ===== src/Helpers/Names/Laws.antt =====
-- Lengths of generated names and of label values; what determines the name of an object bucket.
use mathlib.Core.List.{append_assoc}
use lib_bucket_provisioner.Base.{
  ℕ, ◌≤◌, Text, codes, length, length-append, length-take-le, if◌then◌else◌, List, [], ◌∷◌, ◌++◌,
  ◌≡◌, refl, arith,
}
use lib_bucket_provisioner.Helpers.Names.{
  max_name_len, uuid_suffix_len, name_prefix, generated_name, label_value, label_value_max_length,
  replace_slashes, object_bucket_name, trimmed, is_empty,
}

name_prefix-length-le : (prefix : Text) → length (name_prefix prefix) ≤ 26
unfolding name_prefix
name_prefix-length-le prefix = ground (arith, length-take-le 26 prefix)

-- With a UUID of 36 bytes, a generated bucket name has at most 63 bytes, for every prefix.
pub length-generated_name-le :
    (prefix uuid : Text)
    → length uuid ≡ uuid_suffix_len
    → length (generated_name prefix uuid) ≤ max_name_len
unfolding generated_name
length-generated_name-le prefix uuid h =
    omega
      (arith, length-append (name_prefix prefix) (codes "-" ++ uuid), name_prefix-length-le prefix)

length-replace_slashes : (v : Text) → length (replace_slashes v) ≡ length v
unfolding replace_slashes
length-replace_slashes [] = refl
length-replace_slashes (c ∷ v) = omega (arith, length-replace_slashes v)

length-trimmed-le : (max : ℕ) (v : Text) → length (trimmed max v) ≤ max
unfolding trimmed
length-trimmed-le max v = ground (arith, length-take-le max v)

length-accepted :
    (errs : List Text) (v : Text)
    → (errs ≡ [] → length v ≤ 63)
    → length (trimmed 63 v) ≤ 63
    → length (if is_empty errs then v else replace_slashes (trimmed 63 v)) ≤ 63
unfolding is_empty
length-accepted [] v h t = h refl
length-accepted (e ∷ errs) v h t = omega (arith, length-replace_slashes (trimmed 63 v))

-- Where validation refuses every value of more than 63 bytes, a label value has at most 63 bytes.
pub length-label_value-le :
    (is_valid_label_value : Text → List Text)
    → ((v : Text) → is_valid_label_value v ≡ [] → length v ≤ label_value_max_length)
    → (v : Text) → length (label_value is_valid_label_value v) ≤ label_value_max_length
unfolding label_value
length-label_value-le is_valid_label_value bounded v =
    length-accepted (is_valid_label_value v) v (bounded v) (length-trimmed-le 63 v)

-- The claims (a-b, c) and (a, b-c) have one object bucket: the name of an object bucket, which is
-- not namespaced, does not tell apart the two namespaces.
pub object_bucket_name-collides :
    (a b c : Text)
    → object_bucket_name (a ++ (codes "-" ++ b)) c ≡ object_bucket_name a (b ++ (codes "-" ++ c))
unfolding object_bucket_name
object_bucket_name-collides a b c = simp append_assoc
