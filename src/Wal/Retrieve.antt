-- ===== src/Wal/Retrieve.antt =====
-- internal/wal/wal.go: `Retrieve` and `copyBounded`.
use cnpg_backup.Prelude.{
  ℕ, ◌+◌, Bool, true, false, not, ◌&&◌, [], Option, some, Text, text_eq, codes, ◌==◌, if◌then◌else◌,
  length, take, Result, ok, err, Error, store, head_missing, wal_local, guard, reject, ◌>>=◌, ◌>>◌,
}
use cnpg_backup.Wal.Objects.{
  Member, no_header, member, Codec, Files, Integrity, Info, limits, metadata, stored_hash_entry,
  compression_entry,
}

-- The answers of the store, by the key: `Head`; the error of `Read`, if any; and `DownloadWAL`, which fills the
-- spool and checks it against the size and the hash that it is given.
pub record Remote : Type 0 where
  pub head : (key : Text) → Result Info
  pub probe : (key : Text) → Option Error
  pub download : (key : Text) → Integrity → Result (Info × Text)

-- The answers of the local disk, and whether the context is canceled at the end.
pub record Local : Type 0 where
  pub spooled : Bool
  pub truncated : Bool
  pub rewound : Bool
  pub written : Bool
  pub copied : Bool
  pub canceled : Bool
  pub synced : Bool

-- `gotRaw != raw || ...`.
unfoldable pub same_object : Integrity → Info → Integrity → Info → Bool
unfolding text_eq
same_object raw info got_raw got =
    got_raw.size == raw.size
    && text_eq got_raw.sha256 raw.sha256
    && text_eq (got.metadata compression_entry) (info.metadata compression_entry)
    && text_eq (got.metadata stored_hash_entry) (info.metadata stored_hash_entry)

-- The reader over the spool.
unfoldable pub open_spool : Codec → Info → Text → Result Member
unfolding text_eq
open_spool codec info spool =
    if text_eq (info.metadata compression_entry) (codes "gzip")
    then elim (codec.gunzip spool) [
      | no_header ↦ err Error.corrupt
      | member content rest broken ↦ ok (member content rest broken)
    ]
    else ok (member spool [] false)

abbrev pub content_of : Member → Text
content_of no_header = []
content_of (member content rest broken) = content

abbrev pub rest_of : Member → Text
rest_of no_header = []
rest_of (member content rest broken) = rest

abbrev pub is_broken : Member → Bool
is_broken no_header = true
is_broken (member content rest broken) = broken

-- `io.LimitReader(in, max+1)`.
abbrev pub copy_bounded : ℕ → Text → Text
copy_bounded limit content = take (limit + 1) content

-- What stands behind the open of the spool; the bytes are those in `out`.
unfoldable pub check_content : Codec → Local → Integrity → Member → Result (Integrity × Text)
unfolding text_eq
check_content codec disk raw source = do
  let copy = copy_bounded raw.size (content_of source)
  guard disk.truncated wal_local
  guard disk.rewound wal_local
  guard disk.written wal_local
  guard
      (disk.copied
        && not (is_broken source)
        && length copy == raw.size
        && text_eq (codec.sha256 copy) raw.sha256)
      Error.corrupt
  guard (length (rest_of source) == 0) Error.corrupt
  reject disk.canceled Error.canceled
  guard disk.synced wal_local
  ok (raw, copy)

-- The error for a missing object: only the body of a GET says that it is absent.
unfoldable pub missing : Option Error → Error → Error
missing (some get_error) (store head_missing a) = get_error
missing _ e = e

unfoldable pub retrieve : Codec → Files → Remote → Local → Text → Result (Integrity × Text)
unfolding limits metadata missing same_object open_spool check_content
retrieve codec w remote disk name = do
  bounds ← limits w name
  info ← elim (remote.head bounds.0) [
    | err e ↦ err (missing (remote.probe bounds.0) e)
    | ok i ↦ ok i
  ]
  raw ← metadata w name info
  guard disk.spooled wal_local
  got ←
      remote.download bounds.0
        (record { size = info.size; sha256 = info.metadata stored_hash_entry })
  got_raw ← metadata w name got.0
  guard (same_object raw info got_raw got.0) Error.corrupt
  source ← open_spool codec info (take info.size got.1)
  check_content codec disk raw source
