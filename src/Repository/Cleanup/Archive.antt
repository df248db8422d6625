-- ===== src/Repository/Cleanup/Archive.antt =====
-- internal/repository/retention_inventory.go: `ArchiveInventory`, with the callback's objects as its list.
use cnpg_backup.Prelude.{
  ℕ, ◌+◌, Bool, true, false, not, ◌&&◌, ◌||◌, List, [], ◌∷◌, none, some, Text, text_eq, codes, leb,
  ◌==◌, if◌then◌else◌, length, Result, ok, err, Error, guard, ◌>>=◌, ◌>>◌,
}
use cnpg_backup.Repository.Names.Hex.{valid_id, valid_hash, decimal}
use cnpg_backup.Repository.Names.Keys.{wal_key}
use cnpg_backup.Repository.Schema.Records.{Identity}
use cnpg_backup.Repository.Gate.{Gate}
use cnpg_backup.Repository.Gc.{GcOwner, check_owner}
use cnpg_backup.Repository.Cleanup.{split_slashes}
use cnpg_backup.Retention.Batch.{WalObject}
use cnpg_backup.Wal.Objects.{
  mib, segment_sized, format_entry, system_entry, raw_bytes_entry, raw_hash_entry,
  stored_hash_entry, compression_entry,
}

pub record WalRetirement : Type 0 where
  pub schema : ℕ
  pub state : Text
  pub repository_id : Text
  pub name : Text
  pub raw_bytes : ℕ
  pub raw_sha256 : Text
  pub gc_operation_id : Text

-- What `Head` answers; a missing entry of the metadata is empty.
pub record ObjectHead : Type 0 where
  pub etag : Text
  pub size : ℕ
  pub metadata : Text → Text

pub record ArchiveReads : Type 0 where
  pub head : Text → Result ObjectHead
  pub read : Text → Result Text
  pub decode : Text → Result WalRetirement

module _ (id : Identity) (now : ArchiveReads) where
  unfoldable pub retirement_ok : Text → WalRetirement → Bool
  unfolding text_eq valid_hash valid_id
  retirement_ok name ret =
      ret.schema == 1
      && text_eq ret.state (codes "retired")
      && text_eq ret.repository_id id.repository_id
      && text_eq ret.name name
      && length name == 24
      && ret.raw_bytes == id.wal_segment_bytes
      && valid_hash ret.raw_sha256
      && valid_id ret.gc_operation_id

  unfoldable pub segment_head_ok : Text → ℕ → ObjectHead → Bool
  unfolding segment_sized text_eq valid_hash
  segment_head_ok name raw info =
      let bound = if segment_sized name then id.wal_segment_bytes else mib in
      leb 1 raw
      && leb raw bound
      && (not (segment_sized name) || raw == bound)
      && leb 1 info.size
      && leb info.size (bound + mib)
      && text_eq (info.metadata format_entry) (codes "wal-v1")
      && text_eq (info.metadata system_entry) id.system_identifier
      && valid_hash (info.metadata raw_hash_entry)
      && valid_hash (info.metadata stored_hash_entry)
      && (text_eq (info.metadata compression_entry) (codes "none")
          || text_eq (info.metadata compression_entry) (codes "gzip"))
      && (not (text_eq (info.metadata compression_entry) (codes "none")) || info.size == raw)

  -- The object under a key: a retired slot, or a file.
  unfoldable pub describe_object : Text → Text → ObjectHead → Result WalObject
  unfolding text_eq retirement_ok decimal segment_head_ok
  describe_object key name info =
      if text_eq (info.metadata format_entry) (codes "wal-retired-v1")
      then (do
        b ← now.read key
        ret ← elim (now.decode b) [ err e ↦ err Error.corrupt | ok v ↦ ok v ]
        guard (retirement_ok name ret) Error.corrupt
        ok (record {
          name = name;
          etag = info.etag;
          sha256 = ret.raw_sha256;
          raw_bytes = ret.raw_bytes;
          retired = true;
        }))
      else elim (decimal (info.metadata raw_bytes_entry)) [
        | none ↦ err Error.corrupt
        | some raw ↦
            if segment_head_ok name raw info
            then ok (record {
              name = name;
              etag = info.etag;
              sha256 = info.metadata raw_hash_entry;
              raw_bytes = raw;
              retired = false;
            })
            else err Error.corrupt
      ]

  -- The name in a key; the key is then made again from it. A key under another prefix differs.
  unfoldable pub name_of_key : List Text → Result Text
  name_of_key (version ∷ repository ∷ folder ∷ timeline ∷ name ∷ []) = ok name
  name_of_key _ = err Error.corrupt

  unfoldable pub archive_object : Text → Result WalObject
  unfolding name_of_key split_slashes wal_key describe_object text_eq
  archive_object key = do
    name ← name_of_key (split_slashes key)
    made ← elim (wal_key id name) [ err e ↦ err Error.corrupt | ok k ↦ ok k ]
    guard (text_eq made key) Error.corrupt
    info ← now.head key
    guard (not (length info.etag == 0) && leb (length info.etag) 256) Error.corrupt
    describe_object key name info

  unfoldable pub archive_objects : List Text → Result (List WalObject)
  unfolding archive_object
  archive_objects [] = ok []
  archive_objects (key ∷ keys) = do
    first ← archive_object key
    rest ← archive_objects keys
    ok (first ∷ rest)

  unfoldable pub archive_inventory : GcOwner → Result Gate → List Text → Result (List WalObject)
  unfolding check_owner archive_objects
  archive_inventory g gate keys = do check_owner g gate; archive_objects keys
