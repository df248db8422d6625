-- ===== src/Wal/Objects.antt =====
-- internal/wal/wal.go: `Limits`, `metadata` and the object that `Archive` writes.
use cnpg_backup.Prelude.{
  ℕ, ◌+◌, ◌-◌, ◌^◌, Bool, not, ◌&&◌, ◌||◌, none, some, Text, text_eq, codes, leb, ◌==◌,
  if◌then◌else◌, length, drop, Result, ok, err, Error, wal_expired, guard, ◌>>=◌, ◌>>◌,
}
use cnpg_backup.Repository.Names.Hex.{valid_hash, decimal}
use cnpg_backup.Repository.Names.Keys.{wal_key}
use cnpg_backup.Repository.Schema.Records.{Identity}

-- What the decompressor makes of some bytes: no header, or one member's content, the bytes behind the
-- member, and whether the member breaks off or fails its checksum.
pub data Member : Type 0 where
  no_header : Member
  member : (content rest : Text) → (broken : Bool) → Member

-- Go's libraries: SHA-256 in hexadecimal, and gzip.
pub record Codec : Type 0 where
  pub sha256 : Text → Text
  pub gzip : Text → Text
  pub gunzip : Text → Member

-- `Files` with its repository and its store in place.
pub record Files : Type 0 where
  pub identity : Identity
  pub compression : Text

-- `s3store.Integrity`, and the fields of `s3store.Info` that are read; a missing entry is empty.
pub record Integrity : Type 0 where
  pub size : ℕ
  pub sha256 : Text

pub record Info : Type 0 where
  pub size : ℕ
  pub metadata : Text → Text

abbrev pub mib : ℕ
mib = 2 ^ 20

unfoldable pub segment_sized : Text → Bool
unfolding text_eq
segment_sized name =
    length name == 24
    || leb 8 (length name) && text_eq (drop (length name - 8) name) (codes ".partial")

-- The key and the bound of the raw size.
unfoldable pub limits : Files → Text → Result (Text × ℕ)
unfolding text_eq wal_key segment_sized
limits w name = do
  guard (text_eq w.compression (codes "none") || text_eq w.compression (codes "gzip")) Error.invalid
  key ← elim (wal_key w.identity name) [ err e ↦ err Error.invalid | ok k ↦ ok k ]
  ok (key, if segment_sized name then w.identity.wal_segment_bytes else mib)

abbrev pub format_entry : Text
format_entry = codes "cnpg-format"

abbrev pub system_entry : Text
system_entry = codes "cnpg-system-id"

abbrev pub raw_bytes_entry : Text
raw_bytes_entry = codes "cnpg-raw-bytes"

abbrev pub raw_hash_entry : Text
raw_hash_entry = codes "cnpg-raw-sha256"

abbrev pub stored_hash_entry : Text
stored_hash_entry = codes "cnpg-stored-sha256"

abbrev pub compression_entry : Text
compression_entry = codes "cnpg-compression"

-- What `metadata` demands beside a canonical raw size.
unfoldable pub metadata_ok : Files → Text → ℕ → Info → ℕ → Bool
unfolding segment_sized text_eq valid_hash
metadata_ok w name bound info raw =
    leb 1 raw
    && leb raw bound
    && (not (segment_sized name) || raw == bound)
    && leb 1 info.size
    && leb info.size (bound + mib)
    && text_eq (info.metadata format_entry) (codes "wal-v1")
    && text_eq (info.metadata system_entry) w.identity.system_identifier
    && valid_hash (info.metadata raw_hash_entry)
    && valid_hash (info.metadata stored_hash_entry)
    && (text_eq (info.metadata compression_entry) (codes "none")
        || text_eq (info.metadata compression_entry) (codes "gzip"))

unfoldable pub metadata : Files → Text → Info → Result Integrity
unfolding limits text_eq decimal metadata_ok
metadata w name info = do
  bounds ← limits w name
  guard (not (text_eq (info.metadata format_entry) (codes "wal-retired-v1"))) wal_expired
  elim (decimal (info.metadata raw_bytes_entry)) [
    | none ↦ err Error.corrupt
    | some raw ↦
        if metadata_ok w name bounds.1 info raw
        then ok (record { size = raw; sha256 = info.metadata raw_hash_entry })
        else err Error.corrupt
  ]
