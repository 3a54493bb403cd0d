-- ===== src/Helpers.antt =====
-- pkg/provisioner/helpers.go. The names that are derived from a claim or a key are in Names, labels
-- and finalizers in Metadata, references and ownership in Ownership, and the functions that read
-- from the API server in Lookups. Their laws are in the children of these.
pub mod Names
pub mod Metadata
pub mod Ownership
pub mod Lookups
