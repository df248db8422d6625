-- ===== src/Repository/Names.antt =====
-- internal/repository: the grammar of identifiers, numbers, positions and WAL file names (schema.go,
-- plan.go, retention_inventory.go, coverage.go).
-- A name is a list of bytes. `(log << 32) | offset` is written as a sum; the offset is below 2 ^ 32.
pub mod Hex
pub mod Lsn
pub mod Wal
pub mod Keys
