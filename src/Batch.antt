-- ===== src/Batch.antt =====
-- internal/domain/pipeline: init_confirm_from_callbacks.go and init_confirm_batch.go, the init and confirm
-- payloads that a run builds from the callbacks of its run log, or from an example file.
pub mod Init
pub mod Confirm
pub mod FromCallbacks
pub mod FromExample
pub mod Acknowledged
pub mod Recorded
pub mod Orders
pub mod InitComplete
pub mod ConfirmComplete
