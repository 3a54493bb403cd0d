-- ===== src/Base/Maps.antt =====
-- Go's `map[string]string`: nil, or the entries with distinct keys in some order.
use mathlib.Core.Path.{◌≡◌, refl}
use mathlib.Core.Bool.{Bool, true, false, ◌&&◌}
use mathlib.Core.Option.{Option, none, some}
use mathlib.Core.List.{List, [], ◌∷◌}
use native.Mathlib.Omega.{arith}
use lib_bucket_provisioner.Base.Tests.{if◌then◌else◌, or_default}
use lib_bucket_provisioner.Base.Bytes.{Text, ◌==◌, ==_iff, ==_refl}

abbrev pub Entries : Type 0
Entries = List (Text × Text)

-- `none` is the nil map.
abbrev pub StringMap : Type 0
StringMap = Option Entries

unfoldable pub lookup : Text → Entries → Option Text
lookup key [] = none
lookup key ((name, value) ∷ rest) = if name == key then some value else lookup key rest

-- `m[key] = value`: in place for a key that is there, else at the end.
unfoldable pub insert : Text → Text → Entries → Entries
insert key value [] = (key, value) ∷ []
insert key value ((name, old) ∷ rest) =
    if name == key then (name, value) ∷ rest else (name, old) ∷ insert key value rest

-- `for k, v := range from { into[k] = v }`
unfoldable pub insert_all : Entries → Entries → Entries
insert_all [] into = into
insert_all ((k, v) ∷ from) into = insert_all from (insert k v into)

abbrev pub entries : StringMap → Entries
entries none = []
entries (some m) = m

-- `m[k]`, the empty string for a missing key and for the nil map.
unfoldable pub index : StringMap → Text → Text
unfolding lookup
index m k = or_default [] (lookup k (entries m))

pub lookup-insert :
    (set get value : Text) (m : Entries)
    → lookup get (insert set value m) ≡ (if set == get then some value else lookup get m)
unfolding lookup insert
lookup-insert set get value [] = refl
lookup-insert set get value ((name, old) ∷ rest) =
    ground
      (arith, lookup-insert set get value rest, ==_iff name set, ==_iff name get, ==_iff set get)

-- No key stands twice.
abbrev pub IsDistinct : Entries → Type 0
IsDistinct [] = Unit {0}
IsDistinct ((k, _) ∷ m) = (lookup k m ≡ none) × IsDistinct m

abbrev pub IsMap : StringMap → Type 0
IsMap none = Unit {0}
IsMap (some m) = IsDistinct m

-- Whether two optional values agree.
same_value : Option Text → Option Text → Bool
same_value none none = true
same_value none (some w) = false
same_value (some v) none = false
same_value (some v) (some w) = v == w

same_on : Entries → Entries → Entries → Bool
unfolding lookup same_value
same_on [] a b = true
same_on ((k, _) ∷ ks) a b = same_value (lookup k a) (lookup k b) && same_on ks a b

-- `reflect.DeepEqual` on maps: both nil, or both not nil with the same value at every key of either.
unfoldable pub deep_equal : StringMap → StringMap → Bool
unfolding same_on
deep_equal none none = true
deep_equal none (some b) = false
deep_equal (some a) none = false
deep_equal (some a) (some b) = same_on a a b && same_on b a b

same_value_refl : (v : Option Text) → same_value v v ≡ true
unfolding same_value
same_value_refl none = refl
same_value_refl (some v) = ==_refl v

same_on_refl : (ks a : Entries) → same_on ks a a ≡ true
unfolding same_on
same_on_refl [] a = refl
same_on_refl ((k, _) ∷ ks) a = ground (arith, same_value_refl (lookup k a), same_on_refl ks a)

pub deep_equal_refl : (m : StringMap) → deep_equal m m ≡ true
unfolding deep_equal
deep_equal_refl none = refl
deep_equal_refl (some a) = ground (arith, same_on_refl a a)

abbrev pub or_else : Option Text → Option Text → Option Text
or_else none w = w
or_else (some v) w = some v

pub lookup-insert_all :
    (k : Text) (from into : Entries)
    → IsDistinct from
    → lookup k (insert_all from into) ≡ or_else (lookup k from) (lookup k into)
unfolding lookup insert_all
lookup-insert_all k [] into d = refl
lookup-insert_all k ((j, v) ∷ from) into d =
    ground
      (arith, lookup-insert_all k from (insert j v into) d.1, lookup-insert j k v into, ==_iff j k)
