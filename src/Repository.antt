-- ===== src/Repository.antt =====
-- Package internal/repository.
pub mod Names
pub mod Schema
pub mod Gate
pub mod Gc
pub mod Recovery
pub mod Publication
pub mod History
pub mod Cleanup
