-- ===== src/Wal/Archive.antt =====
-- internal/wal/wal.go: `Archive`.
use cnpg_backup.Prelude.{
  ℕ, ◌+◌, [], Bool, false, not, ◌&&◌, ◌||◌, Option, none, some, Text, text_eq, codes, leb, ◌==◌,
  if◌then◌else◌, length, take, Result, ok, err, Error, store, not_found, wal_local, wal_conflict,
  guard, ◌>>=◌, ◌>>◌,
}
use cnpg_backup.Repository.Gate.{ambiguous, is_lost_race}
use cnpg_backup.Repository.Names.Keys.{format_decimal, format_digits}
use cnpg_backup.Wal.Objects.{
  Codec, Files, Integrity, mib, segment_sized, limits, format_entry, system_entry, raw_bytes_entry,
  raw_hash_entry, stored_hash_entry, compression_entry,
}
use cnpg_backup.Wal.Retrieve.{Remote, Local, retrieve, copy_bounded}

pub record Stat : Type 0 where
  pub regular : Bool
  pub size : ℕ
  pub modified : ℕ

-- The open source file: `Stat` before and after, and the bytes that reading it to its end would give.
pub record Source : Type 0 where
  pub before : Option Stat
  pub content : Text
  pub after : Option Stat

-- The local disk: the spool is made, all is read and written to it, it is measured, it is synced; and
-- the spool for the verification is made.
pub record Staging : Type 0 where
  pub spooled : Bool
  pub copied : Bool
  pub measured : Bool
  pub synced : Bool
  pub respooled : Bool

-- What `PutFile` receives, which creates the object and never replaces one.
pub record Upload : Type 0 where
  pub key : Text
  pub content : Text
  pub integrity : Integrity
  pub metadata : Text → Text

unfoldable pub source_ok : Text → ℕ → Stat → Bool
unfolding segment_sized
source_ok name bound st =
    st.regular
    && leb 1 st.size
    && leb st.size bound
    && (not (segment_sized name) || st.size == bound)

-- The bytes that `Archive` reads: one more than the file had, and one more than the bound, at most.
unfoldable pub read_source : ℕ → Stat → Source → Text
read_source bound st source = copy_bounded bound (take (st.size + 1) source.content)

-- The source did not change under the copy.
unfoldable pub settled : Stat → Source → Text → Bool
settled st source raw = elim source.after [
  | none ↦ false
  | some later ↦ length raw == st.size && later.size == st.size && later.modified == st.modified
]

-- An unambiguous failure other than a lost race ends the call; all else is decided by the read-back.
unfoldable pub put_failure : Option Error → Result (Unit {0})
unfolding is_lost_race ambiguous
put_failure none = ok tt
put_failure (some e) = if is_lost_race e || ambiguous e then ok tt else err e

unfoldable pub absence : Option Error → Error → Error
absence (some put_error) (store not_found a) = put_error
absence _ e = e

module _ (codec : Codec) (w : Files) where
  unfoldable pub compress : Text → Text
  unfolding text_eq
  compress raw = if text_eq w.compression (codes "gzip") then codec.gzip raw else raw

  -- The map of the object's metadata.
  unfoldable pub entries : Text → Text → Text
  unfolding compress format_digits text_eq
  entries raw entry =
      if text_eq entry format_entry
      then codes "wal-v1"
      else (if text_eq entry system_entry
          then w.identity.system_identifier
          else (if text_eq entry raw_bytes_entry
              then format_decimal (length raw)
              else (if text_eq entry raw_hash_entry
                  then codec.sha256 raw
                  else (if text_eq entry stored_hash_entry
                      then codec.sha256 (compress raw)
                      else (if text_eq entry compression_entry then w.compression else [])))))

  -- Everything before the write: the raw bytes and what is sent.
  unfoldable pub stage : Staging → Text → Source → Result (Text × Upload)
  unfolding limits source_ok read_source settled compress entries
  stage disk name source = do
    bounds ← limits w name
    st ← elim source.before [ none ↦ err wal_local | some st ↦ ok st ]
    guard (source_ok name bounds.1 st) Error.invalid
    guard disk.spooled wal_local
    let raw = read_source bounds.1 st source
    let stored = compress raw
    guard disk.copied wal_local
    guard (settled st source raw) Error.invalid
    guard (disk.measured && leb (length stored) (bounds.1 + mib)) wal_local
    guard disk.synced wal_local
    ok (
      raw,
      record {
        key = bounds.0;
        content = stored;
        integrity = record { size = length stored; sha256 = codec.sha256 stored };
        metadata = entries raw;
      },
    )

  -- `put` is the error of `PutFile`; `remote` and `reader` answer the read-back behind it.
  unfoldable pub archive :
      (put : Upload → Option Error) → Remote → Staging → Local → Text → Source → Result (Unit {0})
  unfolding stage put_failure absence retrieve text_eq
  archive put remote disk reader name source = do
    staged ← stage disk name source
    let put_error = put staged.1
    put_failure put_error
    guard disk.respooled wal_local
    got ← elim (retrieve codec w remote reader name) [
      | err e ↦ err (absence put_error e)
      | ok v ↦ ok v
    ]
    guard (got.0.size == length staged.0 && text_eq got.0.sha256 (codec.sha256 staged.0))
        wal_conflict
