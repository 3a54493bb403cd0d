-- ===== src/Scheme/Laws.antt =====
-- What the initialised scheme of a package knows (register.go), where apimachinery does what its
-- documentation says.
use lib_bucket_provisioner.Base.{Text, codes, Option, none, some, List, [], ◌∷◌, ◌≡◌, refl, ◌∙◌}
use lib_bucket_provisioner.Cluster.Error.{Error}
use lib_bucket_provisioner.Clientset.Config.{Made, made, panicked}
use lib_bucket_provisioner.Scheme.{
  GoType, GroupVersion, Change, ApiMachinery, object_bucket_group, core_group, known_types,
  object_bucket_gvk, object_bucket_claim_gvk, group_kind_version, register_types,
  add_types_to_scheme, add_to_scheme, initialised, package_scheme, ◌>>=◌,
}

-- The name of the struct, which is the kind that it is registered as.
abbrev pub struct_name : GoType → Text
struct_name GoType.object_bucket_claim = codes "ObjectBucketClaim"
struct_name GoType.object_bucket_claim_list = codes "ObjectBucketClaimList"
struct_name GoType.object_bucket = codes "ObjectBucket"
struct_name GoType.object_bucket_list = codes "ObjectBucketList"

-- The call does not panic, and its value satisfies `P`.
abbrev pub Makes : {A : Type 0} → (A → Type 0) → Made A → Type 0
Makes P (made a) = P a
Makes P (panicked e) = ⊥

Makes-bind :
    {A B : Type 0} {P : A → Type 0} (Q : B → Type 0) (m : Made A) (f : A → Made B)
    → Makes P m
    → ((a : A) → P a → Makes Q (f a))
    → Makes Q (m >>= f)
unfolding ◌>>=◌
Makes-bind Q (made a) f p k = k a p
Makes-bind Q (panicked e) f p k = absurd p

module _ (M : ApiMachinery) (known : M.Scheme → M.GroupVersionKind → Option GoType) where
  abbrev pub Known : GroupVersion → M.Scheme → List GoType → Type 0
  Known gv s [] = Unit {0}
  Known gv s (t ∷ ts) = (known s (M.with_kind gv (struct_name t)) ≡ some t) × Known gv s ts

  abbrev pub Unknown : GroupVersion → M.Scheme → List GoType → Type 0
  Unknown gv s [] = Unit {0}
  Unknown gv s (t ∷ ts) = (known s (M.with_kind gv (struct_name t)) ≡ none) × Unknown gv s ts

-- What apimachinery documents, for the schemes to which nothing but these calls has been applied.
pub record Documented (M : ApiMachinery) : Type 1 where
  pub IsRegular : M.Scheme → Type 0
  -- the struct of this repository that a kind stands for
  pub known : M.Scheme → M.GroupVersionKind → Option GoType
  pub new_regular : IsRegular M.new_scheme
  pub new_unknown : (g : M.GroupVersionKind) → known M.new_scheme g ≡ none
  pub types_added :
      (gv : GroupVersion) (ts : List GoType) (s : M.Scheme)
      → IsRegular s
      → Unknown M known gv s ts
      → Makes (λ s'. IsRegular s' × Known M known gv s' ts) (M.add_known_types gv ts s)
  -- AddToGroupVersion registers types of apimachinery
  pub version_added :
      (gv : GroupVersion) (s : M.Scheme)
      → IsRegular s
      → Makes
          (λ s'. IsRegular s' × ((g : M.GroupVersionKind) → known s' g ≡ known s g))
          (M.add_to_group_version gv s)
  pub none_applied : (s : M.Scheme) → M.add_all_to_scheme [] s ≡ made (none, s)
  pub applied :
      (f : Change M.Scheme) (fs : List (Change M.Scheme)) (s s' : M.Scheme)
      → f s ≡ made (none, s')
      → M.add_all_to_scheme (f ∷ fs) s ≡ M.add_all_to_scheme fs s'
  pub must_nil : M.must none ≡ made tt

module _ (M : ApiMachinery) (D : Documented M) where
  abbrev pub Recognises : M.Scheme → Type 0
  Recognises s =
      (D.known s (object_bucket_claim_gvk M) ≡ some GoType.object_bucket_claim)
      × (D.known s (object_bucket_gvk M) ≡ some GoType.object_bucket)
      × (D.known s (group_kind_version M (codes "ObjectBucketClaimList"))
          ≡ some GoType.object_bucket_claim_list)
      × (D.known s (group_kind_version M (codes "ObjectBucketList"))
          ≡ some GoType.object_bucket_list)

  -- No error, and a scheme that recognises the types.
  abbrev Registered : Option Error × M.Scheme → Type 0
  Registered r = (r.0 ≡ none) × Recognises r.1

  abbrev Fresh : M.Scheme → Type 0
  Fresh s = D.IsRegular s × ((g : M.GroupVersionKind) → D.known s g ≡ none)

  register_types-Registered : (s : M.Scheme) → Fresh s → Makes Registered (register_types M s)
  unfolding register_types
  register_types-Registered s (reg, new) =
      Makes-bind _ (M.add_known_types object_bucket_group known_types s) _
        (D.types_added object_bucket_group known_types s reg (new _, (new _, (new _, (new _, tt)))))
        λ known (reg', (h0, (h1, (h2, (h3, u))))).
          Makes-bind _ (M.add_to_group_version object_bucket_group known) _
            (D.version_added object_bucket_group known reg')
            λ s' (reg'', same). (refl, (same _ ∙ h0, same _ ∙ h2, same _ ∙ h1, same _ ∙ h3))

  -- A scheme builder of one function does what the function does, if that succeeds.
  add_all_to_scheme-one :
      (f : Change M.Scheme) (s : M.Scheme) (m : Made (Option Error × M.Scheme))
      → f s ≡ m
      → Makes Registered m
      → Makes Registered (M.add_all_to_scheme (f ∷ []) s)
  add_all_to_scheme-one f s (made (none, s')) e h = rw (D.applied f [] s s' e, D.none_applied s') h
  add_all_to_scheme-one f s (made (some x, s')) e h = absurd (cc)
  add_all_to_scheme-one f s (panicked x) e h = absurd h

  add_to_scheme-Registered : (s : M.Scheme) → Fresh s → Makes Registered (add_to_scheme M s)
  unfolding add_to_scheme add_types_to_scheme
  add_to_scheme-Registered s fresh =
      add_all_to_scheme-one _ s _ refl
        (add_all_to_scheme-one (register_types M) s _ refl (register_types-Registered s fresh))

  -- If apimachinery does what it documents, then the init function of the packages scheme and fake
  -- does not panic, and after it the package's scheme recognises ObjectBucketClaim, ObjectBucket and
  -- their lists by their kinds in the group of v1alpha1, which are those of ObjectBucketClaimGVK and
  -- ObjectBucketGVK.
  pub package_scheme_lem : Makes Recognises (package_scheme M)
  unfolding package_scheme initialised ◌>>=◌
  package_scheme_lem =
      Makes-bind _ (M.add_to_group_version core_group M.new_scheme) _
        (D.version_added core_group M.new_scheme D.new_regular)
        λ core (reg, same).
          Makes-bind _ (add_to_scheme M core) _
            (add_to_scheme-Registered core (reg, λ g. same g ∙ D.new_unknown g))
            λ added (e, h). rw (e, D.must_nil) h
