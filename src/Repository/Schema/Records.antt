-- ===== src/Repository/Schema/Records.antt =====
-- schema.go: the records, and the checks of the smaller ones.
use cnpg_backup.Prelude.{
  ℕ, Bool, true, false, not, ◌&&◌, ◌||◌, List, Option, none, some, Text, text_eq, codes, leb, ◌==◌,
  if◌then◌else◌, length, any, Result, Error, guard, ◌>>◌,
}
use cnpg_backup.Repository.Names.Hex.{valid_id, valid_hash, decimal, valid_segment_size}

-- What the code takes from Go's library: instants in RFC 3339 with nanoseconds, the year of an
-- instant, UTF-8, and the hexadecimal SHA-256 of some bytes.
pub record Library : Type 0 where
  pub parse_time : Text → Option ℕ
  pub format_time : ℕ → Text
  pub year : ℕ → ℕ
  pub valid_utf8 : Text → Bool
  pub sha256 : Text → Text

pub record Identity : Type 0 where
  pub schema : ℕ
  pub repository_id : Text
  pub postgres_major : ℕ
  pub system_identifier : Text
  pub wal_segment_bytes : ℕ
  pub writer_cluster_uid : Text
  pub created_at : Text

pub record Request : Type 0 where
  pub schema : ℕ
  pub repository_id : Text
  pub backup_uid : Text
  pub writer_cluster_uid : Text
  pub requested_kind : Text
  pub root_backup_uid : Option Text
  pub config_sha256 : Text

pub record Tablespace : Type 0 where
  pub oid : ℕ
  pub name : Text

pub record Artifact : Type 0 where
  pub index : ℕ
  pub role : Text
  pub tablespace_oid : Option ℕ
  pub compression : Text
  pub stored_bytes : ℕ
  pub raw_bytes : ℕ
  pub stored_sha256 : Text
  pub raw_sha256 : Text

pub record WalRange : Type 0 where
  pub timeline : ℕ
  pub start_lsn : Text
  pub end_lsn : Text

pub record Commit : Type 0 where
  pub schema : ℕ
  pub repository_id : Text
  pub backup_uid : Text
  pub attempt_id : Text
  pub request_sha256 : Text
  pub kind : Text
  pub parent_backup_uid : Option Text
  pub root_backup_uid : Text
  pub system_identifier : Text
  pub postgres_major : ℕ
  pub tool_version : Text
  pub timeline : ℕ
  pub checksum_version : ℕ
  pub capture_instance_uid : Text
  pub postmaster_started_at : Text
  pub started_at : Text
  pub stopped_at : Text
  pub start_lsn : Text
  pub stop_lsn : Text
  pub redo_lsn : Text
  pub bundled_wal_start_lsn : Text
  pub bundled_wal_end_lsn : Text
  pub wal_ranges : List WalRange
  pub backup_label : Text
  pub tablespace_map : Text
  pub root_manifest_sha256 : Option Text
  pub manifest_bytes : ℕ
  pub manifest_sha256 : Text
  pub tablespaces : List Tablespace
  pub artifacts : List Artifact

pub record Retirement : Type 0 where
  pub schema : ℕ
  pub repository_id : Text
  pub backup_uid : Text
  pub commit_sha256 : Text
  pub gc_operation_id : Text

-- `a == nil`.
unfoldable pub is_none {ℓ} : {A : Type ℓ} → Option A → Bool
is_none none = true
is_none (some a) = false

-- `p != nil && *p == t`.
unfoldable pub points_to : Option Text → Text → Bool
unfolding text_eq
points_to none t = false
points_to (some s) t = text_eq s t

-- `strings.ContainsAny(s, "\x00\r\n")` and `strings.ContainsRune(s, 0)`.
unfoldable pub has_break : Text → Bool
unfolding any
has_break s = any (λ c. c == 0 || c == 13 || c == 10) s

unfoldable pub has_zero : Text → Bool
unfolding any
has_zero s = any (λ c. c == 0) s

module _ (lib : Library) where
  -- A canonical instant from the year 2000 on.
  unfoldable pub stamp : Text → Option ℕ
  unfolding text_eq
  stamp s = elim (lib.parse_time s) [
    | none ↦ none
    | some t ↦ if leb 2000 (lib.year t) && text_eq s (lib.format_time t) then some t else none
  ]

  unfoldable pub valid_text : Text → ℕ → Bool
  unfolding has_break
  valid_text s n = not (length s == 0) && leb (length s) n && lib.valid_utf8 s && not (has_break s)

  unfoldable pub validate_identity : Identity → Result (Unit {0})
  unfolding decimal valid_id stamp valid_segment_size is_none
  validate_identity v =
      guard
        (v.schema == 1
          && valid_id v.repository_id
          && v.postgres_major == 18
          && (elim (decimal v.system_identifier) [ none ↦ false | some n ↦ not (n == 0) ])
          && valid_id v.writer_cluster_uid
          && not (is_none (stamp v.created_at))
          && valid_segment_size v.wal_segment_bytes)
        Error.invalid

unfoldable pub validate_request : Request → Identity → Result (Unit {0})
unfolding valid_id valid_hash text_eq is_none
validate_request v id = do
  guard
      (v.schema == 1
        && text_eq v.repository_id id.repository_id
        && valid_id v.backup_uid
        && text_eq v.writer_cluster_uid id.writer_cluster_uid
        && valid_hash v.config_sha256)
      Error.identity
  guard
      (text_eq v.requested_kind (codes "full") && is_none v.root_backup_uid
        || text_eq v.requested_kind (codes "differential") && (elim v.root_backup_uid [
          | none ↦ false
          | some root ↦ valid_id root && not (text_eq root v.backup_uid)
        ]))
      Error.invalid

unfoldable pub validate_retirement : Retirement → Identity → Text → Text → Result (Unit {0})
unfolding valid_id text_eq
validate_retirement v id uid hash =
    guard
      (v.schema == 1
        && text_eq v.repository_id id.repository_id
        && text_eq v.backup_uid uid
        && text_eq v.commit_sha256 hash
        && valid_id v.gc_operation_id)
      Error.corrupt
