-- ===== src/Clientset.antt =====
-- pkg/client/clientset/versioned: the typed clients of typed/objectbucket.io/v1alpha1 as the requests
-- that they build (Rest, Claims, Buckets) their fakes (Fake), and both as
-- versioned.Interface (Versioned). Calls compares the two, and Laws is
-- about the timeout of a list.
pub mod Rest
pub mod Claims
pub mod Buckets
pub mod Fake
pub mod Versioned
pub mod Config
pub mod Calls
pub mod Laws
