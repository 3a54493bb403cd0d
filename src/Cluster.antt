-- ===== src/Cluster.antt =====
-- What the controller talks to, none of which is in the repository: the API server behind the typed
-- clients, the bucket provisioner that the importer supplies (pkg/provisioner/api/provisioner.go),
-- the work queue and the UUID generator. They are the parameter `Env`; a run of the controller logs
-- each call with its answer. Errors are in Error, the log's entries in Event, the parameter in Env,
-- the monad of Go functions that return an error in Monad, one function for each call in Calls,
-- rules for what a run logs in Emits, for pre- and postconditions in Triple, and for the order of the
-- calls in Ordered; in Calm, which functions never panic.
pub mod Error
pub mod Event
pub mod Env
pub mod Monad
pub mod Calls
pub mod Emits
pub mod Triple
pub mod Ordered
pub mod Calm
