-- ===== src/Select.antt =====
-- internal/domain/pipeline/select_batch.go: the select payloads of a run.
pub mod Normalize
pub mod Payloads
pub mod Fulfillments
pub mod Ready
pub mod Transactions
pub mod Catalog
pub mod Distinct
pub mod Orders
