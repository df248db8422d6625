-- ===== src/Repository/Schema.antt =====
-- internal/repository/schema.go: the permanent records and their validation.
-- Times, UTF-8 and SHA-256 belong to Go's library and enter by `Library`; a Go `int` that the code
-- only compares is a number, a pointer is an `Option`.
pub mod Records
pub mod Commits
pub mod Stored
