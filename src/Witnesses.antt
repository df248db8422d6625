-- ===== src/Witnesses.antt =====
-- The theorems of the development at concrete inputs.
mod Planner
mod Batches
mod Repository
mod Guards
mod Wal
mod Publication
mod History
mod Cleanup
