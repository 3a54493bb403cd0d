-- ===== src/Handlers.antt =====
-- pkg/provisioner/resourcehandlers.go. The config map and the secret of a claim are made in Objects,
-- resources are created or updated in Create, released and deleted in Release; Update holds the
-- updates of claims and phases and the comparison of a claim with its object bucket.
pub mod Objects
pub mod Create
pub mod Release
pub mod Update
pub mod Emits
pub mod Calm
