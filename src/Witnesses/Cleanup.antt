-- ===== src/Witnesses/Cleanup.antt =====
-- repository: one manifest that an attempt has left.
use cnpg_backup.Prelude.{
  false, ◌≡◌, refl, ◌≤◌, [], ◌∷◌, none, some, Text, text_eq, codes, any, all, length, All,
  if◌then◌else◌, ok, err, store, not_found,
}
use cnpg_backup.Repository.Names.Hex.{valid_id, valid_hash, matches_groups, is_lower_hex, is_digit}
use cnpg_backup.Repository.Names.Keys.{backup_key, attempt_key}
use cnpg_backup.Repository.Schema.Records.{validate_request, is_none}
use cnpg_backup.Repository.Schema.Stored.{read_commit}
use cnpg_backup.Repository.Gate.{Gate, same_owner}
use cnpg_backup.Repository.Gc.{
  Victim, check_owner, validate_victim, validate_attempt_victim, attempt_free, attempt_slot_ok,
}
use cnpg_backup.Repository.History.Inventory.{has_suffix}
use cnpg_backup.Repository.Publication.Stored.{claim_ok}
use cnpg_backup.Repository.Cleanup.{
  Snapshot, extend_first, split_slashes, contains, catalog_parts, catalog_key, read_claim,
  check_listed, is_orphan, eligible_attempt, victim_kind, make_victim, attempt_file, candidate,
  listed_object, collect, cleanup,
}
use cnpg_backup.Repository.Cleanup.Orphans.{IsLeft, cleanup-IsLeft}
use cnpg_backup.Witnesses.Repository.{uuid_a, uuid_c, identity, free_gate, gc, gc_owner}
use cnpg_backup.Witnesses.Publication.{digest, library, json}

-- No commit is stored; every other key holds something.
abbrev now : Snapshot
now = record {
  read = λ key.
      if has_suffix (codes "commit.json") key then err (store not_found false) else ok (codes "o");
  reads = record {
    commit = λ uid. ok none;
    live = λ uid. ok tt;
    claim = λ uid attempt. ok tt;
    head = λ name. err (store not_found false);
  };
}

abbrev owned : Gate
owned = record free_gate { owner = some gc }

abbrev left_file : Text
left_file =
    codes
      "v1/aaaaaaaa-aaaa-4aaa-8aaa-aaaaaaaaaaaa/backups/aaaaaaaa-aaaa-4aaa-8aaa-aaaaaaaaaaaa/attempts/cccccccc-cccc-4ccc-8ccc-cccccccccccc/manifest.pg.json"

abbrev victim : Victim
victim = record {
  kind = codes "delete-manifest";
  backup_uid = some uuid_a;
  attempt_id = some uuid_c;
  index = none;
  compression = none;
  upload_id = none;
  wal_name = none;
  expected_etag = none;
  sha256 = digest;
  raw_bytes = 0;
}

cleaned :
    cleanup library json identity now gc_owner (ok owned) (left_file ∷ []) [] 1 ≡ ok (victim ∷ [])
unfolding cleanup check_owner same_owner collect listed_object candidate attempt_file make_victim
    victim_kind eligible_attempt is_orphan check_listed read_claim catalog_key catalog_parts
    contains split_slashes extend_first has_suffix claim_ok validate_victim validate_attempt_victim
    attempt_free attempt_slot_ok read_commit validate_request is_none backup_key attempt_key
    valid_id valid_hash matches_groups is_lower_hex is_digit text_eq any all
cleaned = refl

cleanup-IsLeft_example :
    All (IsLeft library json identity now) (victim ∷ []) × ((length (victim ∷ []) ≤ 1) × (1 ≤ 128))
cleanup-IsLeft_example =
    cleanup-IsLeft library json identity now gc_owner (ok owned) (left_file ∷ []) [] 1 (victim ∷ [])
      cleaned
