-- ===== src/Lib.antt =====
-- A model of cnpg_backup: backups of a PostgreSQL cluster in an object store, their retention, and the
-- recovery from them, with the theorems that hold of the model.
--
-- The parts and their code, by the path from the repository's root:
--   Retention/Planner  internal/retention/planner.go. `plan` is `Plan`; its local variables pass from
--     one helper to the next. Paths checks the timelines and the backups, Select chooses what is kept
--     and orders what expires, Cover checks the archive and finds the floor. Trace, Index, Kept,
--     Newest and Rules carry the proofs of Keeping, Expiry and Coverage; Continuity says what it means that an
--     archive has no gap.
--   Retention/Batch  the composition of a batch in internal/retention/run.go. It turns the decision of
--     the planner into the victims that `Execute` of Repository/Gc receives; Order joins the three.
--   Repository/Names  identifiers, positions (`ParseLSN`), WAL names and keys of internal/repository.
--   Repository/Schema  the permanent records and their checks, internal/repository/schema.go, and in
--     Stored the reads of repository.go.
--   Repository/Gate  internal/repository/gate.go. `change_gate` is the loop of `changeGate`, a change is
--     a function on the gate; Holds has the holds of backups and restores, whose holders exclude the
--     owner that Repository/Gc acts for.
--   Repository/Gc  internal/repository/gc.go. `execute` is `Execute` with the validation of its victims.
--   Repository/Recovery  internal/repository/plan.go and coverage.go: targets, eligible backups, the
--     frozen plan, `Select` and `ValidatePlan`.
--   Repository/Publication  internal/repository/publication.go. An act takes the calls so far to a result
--     and the calls then; Acts has the calls, Files the verification of a file, Verify that of a payload
--     and of a winner; Begin, Publish and Input are `begin`, `publish` and `DownloadInput`. Quiet lists
--     the conditional writes and follows the order of the calls; Payload, Fetched, Winner, Ready,
--     Dispatch, Returned, Claimed and Downloaded carry the theorems.
--   Repository/History  internal/repository/recovery.go: `ParseHistory`, and in Resolve `ReadSource`,
--     `ArchiveNames` and `Resolve`, whose loops over names, histories and segments are in Inventory and
--     Covered. Path and Covered carry the theorems.
--   Repository/Cleanup  internal/repository/retention_inventory.go: `Cleanup`, with the keys of catalog.go,
--     and in Archive `ArchiveInventory`; Orphans says what may be cleaned up.
--   Wal  internal/wal/wal.go. Objects has `Limits` and `metadata`; Retrieve, Archive and Restore are the
--     methods of those names, a restore as the states that the directory goes through. Verified, Absence,
--     Atomic, Staged, RoundTrip and Installed carry the theorems.
--   Guard/Admission  internal/recoveryguard/session.go: each method of `Admission` is one step.
--   Capacity  internal/configuration/capacity.go. The sum in `checkSpace` wraps in 64 bits as there, so
--     that a block size near 2^63 is accepted with too little space; Bounds bounds the block size.
--   Prelude  shared names, texts as lists of character codes, sorting, results.
--   Witnesses  tests, and the theorems at concrete inputs.
--
-- Maps keyed by a text or a number are association lists or functions, and pointers are options. Counters
-- and positions are natural numbers, with the wrap-around of `start += step` written out. Go's order of
-- visiting a map is the order of the list, which the theorems on the planner do not depend on.
-- `sort.Slice` is an insertion sort; its keys are distinct where the order matters.
--
-- Bounds: the ten rounds of `changeGate` are counted down. The loops over the segments of a range run
-- for the number of multiples of the segment size that the range meets, which is what the loops of the
-- source take as long as its position does not wrap, and every live segment ends before it would.
-- All else is structural recursion.
--
-- Parameters, for what is not code of the repository or cannot be computed here: the parsing of times,
-- UTF-8 and SHA-256 (`Library`), `RestoreOperationID`, the length of an encoded object, the strict
-- decoding of JSON, and the answers of storage, clock and locks (`Round`, `Turn`, `Reads`, `Answers`,
-- `Source`, `verify`). The object store of Repository/Publication (`World`) answers each call as a
-- function of all calls before it, so that other processes and failures are among what it may do; that of
-- Wal is the record `Remote` of its answers, and local files and disks are the records `Local`,
-- `Staging`, `Disk` and `File`. `strings.TrimSpace` and `strings.Fields` are the parameter `Strings`,
-- gzip is the parameter `Codec`; the laws of gzip and SHA-256 are hypotheses (`IsCodec`) of the round
-- trip alone. Cleanup sees a store that does not change under it (`Snapshot`).
--
-- Not modelled: the S3 client (internal/s3store), the native tools
-- (internal/postgres), the plugin and its controllers (internal/cnpgi), the rest of the configuration
-- (internal/configuration), the catalog's spool files in internal/repository, the file locks of
-- internal/recoveryguard, and the command (cmd), which are I/O around the parts above or are left for
-- later; hack, build and config hold tooling.
pub mod Prelude
pub mod Retention
pub mod Repository
pub mod Guard
pub mod Wal
pub mod Capacity
pub mod Witnesses
