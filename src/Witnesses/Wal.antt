-- ===== src/Witnesses/Wal.antt =====
-- wal: a history file on its way to the store and back.
use cnpg_backup.Prelude.{
  true, false, ◌≡◌, refl, [], ◌∷◌, none, some, Text, text_eq, codes, all, All, ok, err, store,
  head_missing, not_found, arith,
}
use cnpg_backup.Repository.Names.Hex.{
  valid_hash, parse_digits, digit_value, is_digit, is_lower_hex, is_upper_hex, valid_segment_size,
}
use cnpg_backup.Repository.Names.Keys.{wal_key, pad_hex}
use cnpg_backup.Repository.Names.Lsn.{hex_digit}
use cnpg_backup.Repository.Names.Wal.{wal_timeline, wal_shape, segment_shape, wal_offsets_ok}
use cnpg_backup.Wal.Objects.{
  Member, no_header, member, Codec, Files, Integrity, limits, segment_sized,
}
use cnpg_backup.Wal.Retrieve.{Remote, retrieve, missing}
use cnpg_backup.Wal.Archive.{
  Stat, Source, Staging, Upload, stage, archive, compress, entries, source_ok, read_source, settled,
}
use cnpg_backup.Wal.Restore.{Directory, restore, destination_ok, Outcome}
use cnpg_backup.Wal.Verified.{IsArchived, archive-IsArchived}
use cnpg_backup.Wal.Absence.{IsAbsent, retrieve-IsAbsent}
use cnpg_backup.Wal.Atomic.{IsWhole, restore_atomic}
use cnpg_backup.Wal.RoundTrip.{IsCodec, holding, sound, archive-retrieve}
use cnpg_backup.Wal.Installed.{IsInstalled, sound_disk, restore-IsInstalled}

abbrev digest : Text
digest = codes "0000000000000000000000000000000000000000000000000000000000000000"

abbrev inflate : Text → Member
inflate [] = no_header
inflate (c ∷ s) = member s [] false

abbrev codec : Codec
codec = record { sha256 = λ s. digest; gzip = λ s. b'g' ∷ s; gunzip = inflate }

digest_valid : valid_hash digest ≡ true
unfolding valid_hash all is_lower_hex is_digit
digest_valid = refl

codec_laws : IsCodec codec
codec_laws = record {
  hashes = λ s. digest_valid;
  inflates = λ s. refl;
  has_header = λ s. omega arith;
}

abbrev files : Files
files = record {
  identity = record {
    schema = 1;
    repository_id = codes "r";
    postgres_major = 18;
    system_identifier = codes "7";
    wal_segment_bytes = 16777216;
    writer_cluster_uid = codes "w";
    created_at = codes "2";
  };
  compression = codes "gzip";
}

abbrev name : Text
name = codes "00000002.history"

abbrev stat : Stat
stat = record { regular = true; size = 3; modified = 5 }

abbrev source : Source
source = record { before = some stat; content = codes "abc"; after = some stat }

abbrev staging : Staging
staging = record { spooled = true; copied = true; measured = true; synced = true; respooled = true }

abbrev sent : Upload
unfolding entries
sent = record {
  key = codes "v1/r/wal/00000002/00000002.history";
  content = codes "gabc";
  integrity = record { size = 4; sha256 = digest };
  metadata = entries codec files (codes "abc");
}

staged : stage codec files staging name source ≡ ok (codes "abc", sent)
unfolding stage limits wal_key wal_timeline wal_shape segment_shape wal_offsets_ok
    valid_segment_size is_upper_hex is_digit all parse_digits digit_value pad_hex hex_digit text_eq
    segment_sized source_ok read_source settled compress
staged = refl

archive-retrieve_example :
    (retrieve codec files (holding codec sent.key sent.content sent.metadata) sound name
      ≡ ok (record { size = 3; sha256 = digest }, codes "abc"))
    × (archive codec files
          (λ u. none)
          (holding codec sent.key sent.content sent.metadata)
          staging
          sound
          name
          source
        ≡ ok tt)
archive-retrieve_example =
    archive-retrieve codec codec_laws files staging name source (codes "abc") sent staged refl

archive-IsArchived_example :
    IsArchived codec files (holding codec sent.key sent.content sent.metadata) name source
archive-IsArchived_example =
    archive-IsArchived codec files (λ u. none) (holding codec sent.key sent.content sent.metadata)
      staging sound name source archive-retrieve_example.1

-- A HEAD without a body, and a GET that says that there is no such key.
abbrev empty_store : Remote
empty_store = record {
  head = λ key. err (store head_missing false);
  probe = λ key. some (store not_found false);
  download = λ key asked. err (store not_found false);
}

absent : retrieve codec files empty_store sound name ≡ err (store not_found false)
unfolding retrieve limits wal_key wal_timeline wal_shape segment_shape wal_offsets_ok
    valid_segment_size is_upper_hex is_digit all parse_digits digit_value pad_hex hex_digit text_eq
    missing
absent = refl

retrieve-IsAbsent_example :
    (key : Text) × (wal_key files.identity name ≡ ok key) × IsAbsent empty_store key false
retrieve-IsAbsent_example = retrieve-IsAbsent codec files empty_store sound name false absent

abbrev full_store : Remote
full_store = holding codec sent.key sent.content sent.metadata

abbrev start : Directory
start other = some (codes "old")

abbrev whole : Integrity
whole = record { size = 3; sha256 = digest }

destined : destination_ok name (codes "RECOVERYHISTORY") ≡ true
unfolding destination_ok text_eq
destined = refl

restore-IsInstalled_example : IsInstalled (codes "RECOVERYHISTORY") (codes "abc") start (
    restore codec files full_store sound
      (sound_disk (codes "a" ∷ []))
      name
      (codes "RECOVERYHISTORY")
      start)
restore-IsInstalled_example =
    restore-IsInstalled codec files full_store sound (codes "a" ∷ []) name (codes "RECOVERYHISTORY")
      start whole (codes "abc") archive-retrieve_example.0 destined

restore_atomic_example : All (IsWhole codec files full_store name (codes "RECOVERYHISTORY") start) (
    Outcome.visited (
      restore codec files full_store sound
        (sound_disk (codes "a" ∷ []))
        name
        (codes "RECOVERYHISTORY")
        start))
restore_atomic_example =
    restore_atomic codec files full_store sound (sound_disk (codes "a" ∷ [])) name
      (codes "RECOVERYHISTORY") start
