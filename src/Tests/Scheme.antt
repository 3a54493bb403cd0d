-- ===== src/Tests/Scheme.antt =====
-- Apimachinery with a scheme that is the list of the registered types, and what a package's scheme
-- knows there.
use lib_bucket_provisioner.Base.{
  Text, Bool, true, false, ◌==◌, ==_refl, ◌&&◌, if◌then◌else◌, Bool-cases, inl, inr, Option, none,
  some, List, [], ◌∷◌, ◌≡◌, refl,
}
use lib_bucket_provisioner.Cluster.Error.{Error}
use lib_bucket_provisioner.Clientset.Config.{Made, made, panicked}
use lib_bucket_provisioner.Scheme.{GoType, GroupVersion, Change, ApiMachinery, package_scheme}
use lib_bucket_provisioner.Scheme.Laws.{
  struct_name, Makes, Known, Documented, Recognises, package_scheme_lem,
}

abbrev Types : Type 0
Types = List (GroupVersion × GoType)

abbrev types_of : GroupVersion → List GoType → Types → Types
types_of gv [] s = s
types_of gv (t ∷ ts) s = (gv, t) ∷ types_of gv ts s

abbrev is_kind : GroupVersion → Text → GroupVersion × GoType → Bool
is_kind gv k (gv', t) =
    (gv.group == gv'.group) && ((gv.version == gv'.version) && (k == struct_name t))

abbrev holds_kind : Types → GroupVersion → Text → Bool
holds_kind [] gv k = false
holds_kind (e ∷ s) gv k = let rest = holds_kind s gv k in if is_kind gv k e then true else rest

abbrev struct_of : Text → Option GoType
struct_of k =
    if k == struct_name GoType.object_bucket_claim
    then some GoType.object_bucket_claim
    else if k == struct_name GoType.object_bucket_claim_list
    then some GoType.object_bucket_claim_list
    else if k == struct_name GoType.object_bucket
    then some GoType.object_bucket
    else if k == struct_name GoType.object_bucket_list
    then some GoType.object_bucket_list
    else none

abbrev lookup_kind : Types → GroupVersion × Text → Option GoType
lookup_kind s (gv, k) = if holds_kind s gv k then struct_of k else none

abbrev unless_failed : Made (Option Error × Types) → Change Types → Made (Option Error × Types)
unless_failed (made (none, s)) rest = rest s
unless_failed (made (some e, s)) rest = made (some e, s)
unless_failed (panicked e) rest = panicked e

abbrev apply_each : List (Change Types) → Change Types
apply_each [] s = made (none, s)
apply_each (f ∷ fs) s = unless_failed (f s) (apply_each fs)

abbrev must_not : Option Error → Made (Unit {0})
must_not none = made tt
must_not (some e) = panicked e

abbrev listing : ApiMachinery
listing = record {
  GroupVersionKind = GroupVersion × Text;
  GroupKind = Text × Text;
  GroupResource = Text × Text;
  with_kind = λ gv k. (gv, k);
  group_kind = λ g. (g.0.group, g.1);
  group_resource = λ gv r. (gv.group, r);
  Scheme = Types;
  new_scheme = [];
  add_known_types = λ gv ts s. made (types_of gv ts s);
  add_all_to_scheme = apply_each;
  add_to_group_version = λ gv s. made s;
  must = must_not;
}

struct_of-struct_name : (t : GoType) → struct_of (struct_name t) ≡ some t
unfolding ◌==◌
struct_of-struct_name GoType.object_bucket_claim = refl
struct_of-struct_name GoType.object_bucket_claim_list = refl
struct_of-struct_name GoType.object_bucket = refl
struct_of-struct_name GoType.object_bucket_list = refl

lookup_kind-added :
    (gv : GroupVersion) (t : GoType) (s : Types)
    → lookup_kind ((gv, t) ∷ s) (gv, struct_name t) ≡ some t
lookup_kind-added gv t s =
    rw (==_refl gv.group, ==_refl gv.version, ==_refl (struct_name t)) (struct_of-struct_name t)

lookup_kind-kept :
    (e : GroupVersion × GoType) (gv : GroupVersion) (t : GoType) (s : Types)
    → lookup_kind s (gv, struct_name t) ≡ some t
    → lookup_kind (e ∷ s) (gv, struct_name t) ≡ some t
lookup_kind-kept e gv t s h = elim (Bool-cases (is_kind gv (struct_name t) e)) [
  | inl same ↦ rw (same) (struct_of-struct_name t)
  | inr other ↦ rw (other) h
]

Known-kept :
    (e : GroupVersion × GoType) (gv : GroupVersion) (ts : List GoType) (s : Types)
    → Known listing lookup_kind gv s ts
    → Known listing lookup_kind gv (e ∷ s) ts
Known-kept e gv [] s h = tt
Known-kept e gv (t ∷ ts) s h = (lookup_kind-kept e gv t s h.0, Known-kept e gv ts s h.1)

types_of-Known :
    (gv : GroupVersion) (ts : List GoType) (s : Types)
    → Known listing lookup_kind gv (types_of gv ts s) ts
types_of-Known gv [] s = tt
types_of-Known gv (t ∷ ts) s = (
  lookup_kind-added gv t (types_of gv ts s),
  Known-kept (gv, t) gv ts (types_of gv ts s) (types_of-Known gv ts s),
)

listing-Documented : Documented listing
listing-Documented = record {
  IsRegular = λ s. Unit;
  known = lookup_kind;
  new_regular = tt;
  new_unknown = λ g. refl;
  types_added = λ gv ts s r u. (tt, types_of-Known gv ts s);
  version_added = λ gv s r. (tt, λ g. refl);
  none_applied = λ s. refl;
  applied = λ f fs s s' e. rw (e) refl;
  must_nil = refl;
}

package_scheme_lem_example : Makes (Recognises listing listing-Documented) (package_scheme listing)
package_scheme_lem_example = package_scheme_lem listing listing-Documented
