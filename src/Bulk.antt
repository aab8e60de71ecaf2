-- ===== src/Bulk.antt =====
-- internal/handler/bulk.go: the order in which the operations of a bulk request run.
pub mod Path
pub mod Refs
pub mod Graph
pub mod Schedule
pub mod Deferred
