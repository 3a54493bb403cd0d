-- ===== src/Scheme.antt =====
-- The registration of the API types: pkg/apis/objectbucket.io/v1alpha1/register.go, and register.go of
-- the packages scheme and fake under pkg/client/clientset/versioned, which both register the same types
-- with a scheme of their own when the package is initialised. A scheme is apimachinery's: `ApiMachinery`
-- has the calls of it. They may panic, and so may what calls them.
pub mod Laws
use lib_bucket_provisioner.Base.{Text, codes, Option, none, List, [], ◌∷◌}
use lib_bucket_provisioner.V1alpha1.{object_bucket_claim_kind}
use lib_bucket_provisioner.Cluster.Error.{Error}
use lib_bucket_provisioner.Clientset.Config.{Made, made, panicked}

-- The structs that a pointer is registered of.
pub data GoType : Type 0 where
  object_bucket_claim object_bucket_claim_list object_bucket object_bucket_list : GoType

pub record GroupVersion : Type 0 where
  pub group : Text
  pub version : Text

-- What a function that changes a scheme does to it: an error or nil, and the scheme.
abbrev pub Change : Type 0 → Type 0
Change Scheme = Scheme → Made (Option Error × Scheme)

pub record ApiMachinery : Type 1 where
  -- of the package schema
  pub GroupVersionKind : Type 0
  pub GroupKind : Type 0
  pub GroupResource : Type 0
  pub with_kind : GroupVersion → Text → GroupVersionKind
  pub group_kind : GroupVersionKind → GroupKind
  -- `WithResource(resource).GroupResource()`
  pub group_resource : GroupVersion → Text → GroupResource
  -- of the package runtime
  pub Scheme : Type 0
  pub new_scheme : Scheme
  pub add_known_types : GroupVersion → List GoType → Scheme → Made Scheme
  -- AddToScheme of a SchemeBuilder, which is a slice of functions
  pub add_all_to_scheme : List (Change Scheme) → Change Scheme
  -- metav1.AddToGroupVersion
  pub add_to_group_version : GroupVersion → Scheme → Made Scheme
  -- utilruntime.Must
  pub must : Option Error → Made (Unit {0})

module _ {A B : Type 0} where
  -- A panic ends the calling function too.
  infixl 5 ◌>>=◌
  unfoldable pub ◌>>=◌ : Made A → (A → Made B) → Made B
  made a >>= f = f a
  panicked e >>= f = panicked e

-- SchemeGroupVersion
abbrev pub object_bucket_group : GroupVersion
object_bucket_group = record { group = codes "objectbucket.io"; version = codes "v1alpha1" }

abbrev pub object_bucket_kind : Text
object_bucket_kind = codes "ObjectBucket"

-- The group of Kubernetes' own types in version v1.
abbrev pub core_group : GroupVersion
core_group = record { group = []; version = codes "v1" }

abbrev pub known_types : List GoType
known_types =
    GoType.object_bucket_claim ∷ GoType.object_bucket_claim_list ∷ GoType.object_bucket
    ∷ GoType.object_bucket_list ∷ []

module _ (M : ApiMachinery) where
  abbrev pub group_kind_version : Text → M.GroupVersionKind
  group_kind_version kind = M.with_kind object_bucket_group kind

  abbrev pub kind : Text → M.GroupKind
  kind k = M.group_kind (M.with_kind object_bucket_group k)

  abbrev pub resource : Text → M.GroupResource
  resource r = M.group_resource object_bucket_group r

  abbrev pub object_bucket_gvk : M.GroupVersionKind
  object_bucket_gvk = group_kind_version object_bucket_kind

  abbrev pub object_bucket_claim_gvk : M.GroupVersionKind
  object_bucket_claim_gvk = group_kind_version object_bucket_claim_kind

  -- addKnownTypes
  unfoldable pub register_types : Change M.Scheme
  register_types s = do
    known ← M.add_known_types object_bucket_group known_types s
    versioned ← M.add_to_group_version object_bucket_group known
    made (none, versioned)

  -- AddToScheme of v1alpha1
  unfoldable pub add_types_to_scheme : Change M.Scheme
  add_types_to_scheme = M.add_all_to_scheme (register_types ∷ [])

  -- AddToScheme of the clientset
  unfoldable pub add_to_scheme : Change M.Scheme
  add_to_scheme = M.add_all_to_scheme (add_types_to_scheme ∷ [])

  -- init
  unfoldable pub initialised : M.Scheme → Made M.Scheme
  initialised s = do
    core ← M.add_to_group_version core_group s
    added ← add_to_scheme core
    u ← M.must added.0
    made added.1

  -- The package's scheme after init.
  unfoldable pub package_scheme : Made M.Scheme
  package_scheme = initialised M.new_scheme
