-- ===== src/Repository/Publication.antt =====
-- internal/repository/publication.go: the attempt that publishes a backup, and its verified input.
-- Acts has the calls of the store with what it answers, Stored the reads of the permanent records,
-- Verify the checks of files and payload, Begin, Publish and Input the operations.
pub mod Files
pub mod Acts
pub mod Stored
pub mod Verify
pub mod Begin
pub mod Publish
pub mod Input
pub mod Payload
pub mod Winner
pub mod Fetched
pub mod Quiet
pub mod Ready
pub mod Dispatch
pub mod Returned
pub mod Claimed
pub mod Downloaded
