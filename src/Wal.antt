-- ===== src/Wal.antt =====
-- internal/wal/wal.go: the transfer of WAL files between PostgreSQL and the object store.
-- Each package of the source has its own `ErrInvalid` and `ErrCorrupt`; the model has one of each.
-- The compressor, SHA-256, the store and the local disk are parameters.
pub mod Objects
pub mod Retrieve
pub mod Archive
pub mod Restore
pub mod Verified
pub mod Staged
pub mod RoundTrip
pub mod Absence
pub mod Atomic
pub mod Installed
