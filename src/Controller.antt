-- ===== src/Controller.antt =====
-- pkg/provisioner/controller.go. The controller's own data and its labels are here; Watch decides
-- which events of the informer are queued, Queue takes keys off the work queue, Sync dispatches one
-- key, Provision and Delete handle it. Naming repeats the runs for one key.
pub mod Resources
pub mod Provision
pub mod Delete
pub mod Sync
pub mod Queue
pub mod Watch
pub mod Emits
pub mod Safety
pub mod Panic
pub mod Naming
