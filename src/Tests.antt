-- ===== src/Tests.antt =====
-- The theorems at concrete claims, buckets and environments.
mod Data
mod Witnesses
mod Clients
mod Lifecycle
mod Naming
mod Scheme
mod Sharing
mod Simple
mod Binding
mod Worker
