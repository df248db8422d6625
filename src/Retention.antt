-- ===== src/Retention.antt =====
-- Package internal/retention: the planner (planner.go) and the batch (run.go).
pub mod Planner
pub mod Batch
