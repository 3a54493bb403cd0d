-- ===== src/V1alpha1/DeepCopy/Shared.antt =====
-- The copies of an ObjectBucket in zz_generated.deepcopy.go, with the addresses that its pointers and
-- maps have: `*out = *in` takes the addresses over, `new` and `make` give new ones. What an address
-- holds is in the value. ObjectMeta is apimachinery's and is copied by its own DeepCopyInto.
pub mod Views
pub mod Laws
use lib_bucket_provisioner.Base.{
  ℕ, suc, ◌+◌, ◌≤◌, Text, Entries, StringMap, insert_all, Option, none, some, [], ◌≡◌, refl, ap,
  arith,
}
use lib_bucket_provisioner.V1alpha1.{
  ℤ, TypeMeta, ObjectMeta, ObjectReference, AccessKeys, Authentication, Endpoint, Connection,
  ObjectBucketSpec, ObjectBucketStatus, ObjectBucket,
}
use lib_bucket_provisioner.V1alpha1.DeepCopy.{
  copy_map, deep_copy_pointer, deep_copy_access_keys, deep_copy_authentication, deep_copy_endpoint,
  deep_copy_connection, deep_copy_bucket_spec, deep_copy_bucket,
}

-- A pointer or a map that is not nil: its address and what is there.
pub record Cell {ℓ} (A : Type ℓ) : Type ℓ where
  pub address : ℕ
  pub content : A

abbrev pub Pointer {ℓ} : Type ℓ → Type ℓ
Pointer A = Option (Cell A)

pub record SharedAuthentication : Type 0 where
  pub access_keys : Pointer AccessKeys
  pub additional_secret_data : Pointer Entries

pub record SharedEndpoint : Type 0 where
  pub bucket_host : Text
  pub bucket_port : ℤ
  pub bucket_name : Text
  pub region : Text
  pub sub_region : Text
  pub additional_config_data : Pointer Entries

pub record SharedConnection : Type 0 where
  pub endpoint : Pointer SharedEndpoint
  pub authentication : Pointer SharedAuthentication
  pub additional_state : Pointer Entries

pub record SharedBucketSpec : Type 0 where
  pub storage_class_name : Text
  pub reclaim_policy : Pointer Text
  pub claim_ref : Pointer ObjectReference
  pub connection : Pointer SharedConnection

pub record SharedBucket : Type 0 where
  pub type_meta : TypeMeta
  pub meta : ObjectMeta
  pub spec : SharedBucketSpec
  pub status : ObjectBucketStatus

-- A copy from a number from which no address is in use yet, with the next such number.
abbrev pub Copy {ℓ} : Type ℓ → Type ℓ
Copy A = A → ℕ → A × ℕ

-- `if in.P != nil { *out = new(T); … }`: the target of the pointer has a new address, and its content
-- is copied.
unfoldable pub copied_cell {ℓ} : {A : Type ℓ} → Copy A → Copy (Pointer A)
copied_cell copy none n = (none, n)
copied_cell copy (some p) n =
    let (content, m) = copy p.content (suc n) in
    (some (record { address = n; content = content }), m)

-- `**out = **in`
unfoldable pub copied_plain {ℓ} : {A : Type ℓ} → Copy A
copied_plain a n = (a, n)

-- The loop over the entries of a map.
unfoldable pub copied_entries : Copy Entries
copied_entries m n = (insert_all m [], n)

unfoldable pub copied_authentication : Copy SharedAuthentication
copied_authentication a n =
    let (keys, n1) = copied_cell copied_plain a.access_keys n in
    let (secret, n2) = copied_cell copied_entries a.additional_secret_data n1 in
    (record a { access_keys = keys; additional_secret_data = secret }, n2)

unfoldable pub copied_endpoint : Copy SharedEndpoint
copied_endpoint e n =
    let (config, n1) = copied_cell copied_entries e.additional_config_data n in
    (record e { additional_config_data = config }, n1)

unfoldable pub copied_connection : Copy SharedConnection
copied_connection c n =
    let (endpoint, n1) = copied_cell copied_endpoint c.endpoint n in
    let (authentication, n2) = copied_cell copied_authentication c.authentication n1 in
    let (state, n3) = copied_cell copied_entries c.additional_state n2 in
    (
      record c { endpoint = endpoint; authentication = authentication; additional_state = state },
      n3,
    )

unfoldable pub copied_bucket_spec : Copy SharedBucketSpec
copied_bucket_spec s n =
    let (policy, n1) = copied_cell copied_plain s.reclaim_policy n in
    let (ref, n2) = copied_cell copied_plain s.claim_ref n1 in
    let (connection, n3) = copied_cell copied_connection s.connection n2 in
    (record s { reclaim_policy = policy; claim_ref = ref; connection = connection }, n3)

unfoldable pub copied_bucket : Copy SharedBucket
copied_bucket b n =
    let (spec, n1) = copied_bucket_spec b.spec n in
    (record b { type_meta = b.type_meta; spec = spec; status = b.status }, n1)
