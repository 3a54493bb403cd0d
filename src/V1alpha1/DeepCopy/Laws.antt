-- ===== src/V1alpha1/DeepCopy/Laws.antt =====
-- The copies of zz_generated.deepcopy.go beside what they copy. A Go map has distinct keys.
use mathlib.Core.List.{append-nil, append_assoc}
use lib_bucket_provisioner.Base.{
  IsDistinct, IsMap, Text, ◌==◌, ==_iff, ==_refl, Entries, StringMap, lookup, insert, insert_all,
  false, Option, none, some, [], ◌∷◌, ◌++◌, ◌≡◌, refl, sym, ◌∙◌, ap, arith,
}
use lib_bucket_provisioner.V1alpha1.{
  Authentication, Endpoint, Connection, ObjectBucketSpec, ObjectBucket, ObjectBucketClaim,
}
use lib_bucket_provisioner.V1alpha1.DeepCopy.{
  copy_map, deep_copy_pointer, deep_copy_access_keys, deep_copy_authentication, deep_copy_endpoint,
  deep_copy_connection, deep_copy_bucket_spec, deep_copy_bucket, deep_copy_claim,
}

-- `m` has no key of `from`.
abbrev IsFresh : Entries → Entries → Type 0
IsFresh [] m = Unit {0}
IsFresh ((k, _) ∷ from) m = (lookup k m ≡ none) × IsFresh from m

insert_new : (k v : Text) (m : Entries) → lookup k m ≡ none → insert k v m ≡ m ++ ((k, v) ∷ [])
unfolding lookup insert
insert_new k v [] h = refl
insert_new k v ((j, w) ∷ m) h = ground (arith, insert_new k v m, ==_iff j k)

lookup-append_one :
    (k j v : Text) (m : Entries)
    → (j == k) ≡ false
    → lookup k m ≡ none
    → lookup k (m ++ ((j, v) ∷ [])) ≡ none
unfolding lookup
lookup-append_one k j v [] e h = ground arith
lookup-append_one k j v ((i, w) ∷ m) e h = ground (arith, lookup-append_one k j v m e)

IsFresh-append_one :
    (j v : Text) (from m : Entries)
    → lookup j from ≡ none
    → IsFresh from m
    → IsFresh from (m ++ ((j, v) ∷ []))
unfolding lookup
IsFresh-append_one j v [] m h f = tt
IsFresh-append_one j v ((k, w) ∷ from) m h f = (
  lookup-append_one k j v m (ground (arith, ==_iff j k, ==_iff k j, ==_refl k)) f.0,
  IsFresh-append_one j v from m (ground arith) f.1,
)

insert_all-append :
    (from m : Entries) → IsDistinct from → IsFresh from m → insert_all from m ≡ m ++ from
unfolding insert_all
insert_all-append [] m d f = sym (append-nil m)
insert_all-append ((k, v) ∷ from) m d f = rw (insert_new k v m f.0) (
    insert_all-append from (m ++ ((k, v) ∷ [])) d.1 (IsFresh-append_one k v from m d.0 f.1)
    ∙ append_assoc m ((k, v) ∷ []) from)

IsFresh-nil : (from : Entries) → IsFresh from []
unfolding lookup
IsFresh-nil [] = tt
IsFresh-nil ((k, v) ∷ from) = (refl, IsFresh-nil from)

pub copy_map_lem : (m : StringMap) → IsMap m → copy_map m ≡ m
unfolding copy_map
copy_map_lem none h = refl
copy_map_lem (some m) h = ap some (insert_all-append m [] h (IsFresh-nil m))

pointer_lem {ℓ} :
    {A : Type ℓ} (copy : A → A) (p : Option A)
    → ((a : A) → p ≡ some a → copy a ≡ a)
    → deep_copy_pointer copy p ≡ p
unfolding deep_copy_pointer
pointer_lem copy none h = refl
pointer_lem copy (some a) h = ap some (h a refl)

-- A predicate on what a pointer refers to, if it is not nil.
abbrev pub Pointed {ℓ κ} : {A : Type ℓ} → (A → Type κ) → Option A → Type κ
Pointed P none = Unit
Pointed P (some a) = P a

pointed_lem {ℓ κ} :
    {A : Type ℓ} (P : A → Type κ) (copy : A → A) (p : Option A)
    → ((a : A) → P a → copy a ≡ a)
    → Pointed P p
    → deep_copy_pointer copy p ≡ p
unfolding deep_copy_pointer
pointed_lem P copy none h w = refl
pointed_lem P copy (some a) h w = ap some (h a w)

-- Every `map[string]string` of the value has distinct keys.
abbrev pub AuthenticationMaps : Authentication → Type 0
AuthenticationMaps a = IsMap a.additional_secret_data

abbrev pub ConnectionMaps : Connection → Type 0
ConnectionMaps c =
    Pointed (λ e. IsMap e.additional_config_data) c.endpoint
    × Pointed AuthenticationMaps c.authentication
    × IsMap c.additional_state

abbrev pub BucketMaps : ObjectBucket → Type 0
BucketMaps b = Pointed ConnectionMaps b.spec.connection

abbrev pub ClaimMaps : ObjectBucketClaim → Type 0
ClaimMaps c = IsMap c.spec.additional_config

authentication_lem : (a : Authentication) → AuthenticationMaps a → deep_copy_authentication a ≡ a
unfolding deep_copy_authentication
authentication_lem a h =
    let keys = pointer_lem deep_copy_access_keys a.access_keys (λ _ _. refl) in
    cc (keys, copy_map_lem a.additional_secret_data h)

endpoint_lem : (e : Endpoint) → IsMap e.additional_config_data → deep_copy_endpoint e ≡ e
unfolding deep_copy_endpoint
endpoint_lem e h = cc (copy_map_lem e.additional_config_data h)

connection_lem : (c : Connection) → ConnectionMaps c → deep_copy_connection c ≡ c
unfolding deep_copy_connection
connection_lem c (he, ha, hs) = cc (
  pointed_lem (λ e. IsMap e.additional_config_data) deep_copy_endpoint c.endpoint endpoint_lem he,
  pointed_lem AuthenticationMaps deep_copy_authentication c.authentication authentication_lem ha,
  copy_map_lem c.additional_state hs,
)

bucket_spec_lem :
    (s : ObjectBucketSpec) → Pointed ConnectionMaps s.connection → deep_copy_bucket_spec s ≡ s
unfolding deep_copy_bucket_spec
bucket_spec_lem s h = cc (
  pointer_lem (λ p. p) s.reclaim_policy (λ _ _. refl),
  pointer_lem (λ r. r) s.claim_ref (λ _ _. refl),
  pointed_lem ConnectionMaps deep_copy_connection s.connection connection_lem h,
)

-- If the maps in an ObjectBucket have distinct keys, its deep copy is equal to it: every field of
-- it, of its connection, endpoint, authentication and access keys is copied.
pub deep_copy_bucket_lem : (b : ObjectBucket) → BucketMaps b → deep_copy_bucket b ≡ b
unfolding deep_copy_bucket
deep_copy_bucket_lem b h = cc (bucket_spec_lem b.spec h)

-- If the additionalConfig of an ObjectBucketClaim has distinct keys, the claim's deep copy is equal
-- to the claim.
pub deep_copy_claim_lem : (c : ObjectBucketClaim) → ClaimMaps c → deep_copy_claim c ≡ c
unfolding deep_copy_claim
deep_copy_claim_lem c h = cc (copy_map_lem c.spec.additional_config h)
