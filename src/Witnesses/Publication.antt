-- ===== src/Witnesses/Publication.antt =====
-- repository: the publication of a full backup with two artifacts.
use cnpg_backup.Prelude.{
  ℕ, true, false, ◌≡◌, refl, [], ◌∷◌, none, some, Text, text_eq, text_lt, codes, any, all,
  if◌then◌else◌, ok, err, Error, store, not_found,
}
use cnpg_backup.Repository.Names.Hex.{
  valid_id, valid_hash, matches_groups, is_lower_hex, is_digit, is_upper_hex, parse_digits,
  digit_value,
}
use cnpg_backup.Repository.Names.Lsn.{parse_lsn, lsn_ok, lsn_part_ok, before_slash, after_slash}
use cnpg_backup.Repository.Names.Keys.{backup_key, attempt_key, artifact_key, format_digits}
use cnpg_backup.Repository.Schema.Records.{
  Library, Request, Artifact, Commit, validate_request, stamp, is_none, points_to, has_zero,
}
use cnpg_backup.Repository.Schema.Commits.{
  validate_commit, commit_header_ok, commit_times_ok, commit_positions, single_range_ok,
  commit_texts_ok, commit_kind_ok, tablespaces_ok, artifact_ok, count_role, count_artifacts,
}
use cnpg_backup.Repository.Schema.Stored.{read_commit, live, request_for}
use cnpg_backup.Repository.Gate.{
  validate_gate, holders_ok, holder_ok, holder_kind_ok, owner_ok, read_gate, same_holder,
  same_process,
}
use cnpg_backup.Repository.Gate.Holds.{check_hold, hold_admitted, is_lifetime_of}
use cnpg_backup.Wal.Objects.{member}
use cnpg_backup.Repository.Publication.Files.{File, verify_file, verify_raw}
use cnpg_backup.Repository.Publication.Acts.{
  World, State, continue, ◌>>=◌, lift, try_act, mark, answer_of, record_call, read_key, put_key,
  upload_key, download_key, run_check, check_canceled, make_temp,
}
use cnpg_backup.Repository.Publication.Stored.{
  Claim, Json, Published, fetch_commit, check_live, fetch_claim, fetch_request, claim_ok,
}
use cnpg_backup.Repository.Publication.Verify.{
  Repo, manifest_key, download_verify, verify_artifacts, verify_payload, verify_parent,
  verify_winner,
}
use cnpg_backup.Repository.History.Inventory.{has_suffix}
use cnpg_backup.Repository.Publication.Input.{pos, input_of, check_edge, download_input}
use cnpg_backup.Repository.Publication.Downloaded.{IsInput, download_input-IsInput}
use cnpg_backup.Repository.Publication.Claimed.{IsClaimed, begin-IsClaimed}
use cnpg_backup.Repository.Publication.Begin.{
  Attempt, Process, fresh, check_now, begin, freeze, check_root, claim_attempt, check_certain,
  settle_begin,
}
use cnpg_backup.Repository.Publication.Publish.{
  Capture, consume, matches_attempt, verify_files, upload, upload_files, transfer, prepare,
  read_winner, dispatch, publish,
}
use cnpg_backup.Repository.Publication.Dispatch.{IsGuarded, publish-IsGuarded}
use cnpg_backup.Repository.Publication.Returned.{IsPublished, publish-IsPublished}
use cnpg_backup.Witnesses.Repository.{uuid_a, uuid_b, uuid_c, identity, size, hold, answered}

abbrev pub digest : Text
digest = codes "0000000000000000000000000000000000000000000000000000000000000000"

abbrev when : Text
when = codes "2"

abbrev artifact : ℕ → Text → Artifact
artifact i role = record {
  index = i;
  role = role;
  tablespace_oid = none;
  compression = codes "none";
  stored_bytes = 1;
  raw_bytes = 1;
  stored_sha256 = digest;
  raw_sha256 = digest;
}

abbrev sample : Commit
sample = record {
  schema = 1;
  repository_id = uuid_a;
  backup_uid = uuid_a;
  attempt_id = uuid_c;
  request_sha256 = digest;
  kind = codes "full";
  parent_backup_uid = none;
  root_backup_uid = uuid_a;
  system_identifier = codes "7";
  postgres_major = 18;
  tool_version = codes "18.6";
  timeline = 1;
  checksum_version = 1;
  capture_instance_uid = uuid_b;
  postmaster_started_at = when;
  started_at = when;
  stopped_at = when;
  start_lsn = codes "0/1000028";
  stop_lsn = codes "0/1000100";
  redo_lsn = codes "0/1000028";
  bundled_wal_start_lsn = codes "0/1000000";
  bundled_wal_end_lsn = codes "0/1000100";
  wal_ranges =
      record { timeline = 1; start_lsn = codes "0/1000000"; end_lsn = codes "0/1000100" } ∷ [];
  backup_label = codes "label";
  tablespace_map = [];
  root_manifest_sha256 = none;
  manifest_bytes = 1;
  manifest_sha256 = digest;
  tablespaces = [];
  artifacts = artifact 0 (codes "base") ∷ artifact 1 (codes "wal") ∷ [];
}

abbrev pub library : Library
library = record {
  parse_time = λ s. some 5;
  format_time = λ t. when;
  year = λ t. 2026;
  valid_utf8 = λ s. true;
  sha256 = λ s. digest;
}

abbrev pub request : Request
request = record {
  schema = 1;
  repository_id = uuid_a;
  backup_uid = uuid_a;
  writer_cluster_uid = uuid_b;
  requested_kind = codes "full";
  root_backup_uid = none;
  config_sha256 = digest;
}

abbrev pub claim : Claim
claim = record {
  schema = 1;
  repository_id = uuid_a;
  backup_uid = uuid_a;
  attempt_id = uuid_c;
  process_id = uuid_b;
  request_sha256 = digest;
}

abbrev pub json : Json
json = record {
  encode_request = λ q. codes "r";
  encode_claim = λ q. codes "k";
  encode_commit = λ q. codes "c";
  decode_request = λ s. ok request;
  decode_claim = λ s. ok claim;
  decode_commit = λ s. ok sample;
  decode_retirement = λ s. err Error.corrupt;
}

abbrev file : File
file = record { unknown = none; regular = true; content = codes "x"; unread = none; reread = true }

-- A store that has no retirement and nothing else that fails.
abbrev world : World
world = record {
  read = λ h key.
      if text_eq key (
        codes
          "v1/aaaaaaaa-aaaa-4aaa-8aaa-aaaaaaaaaaaa/backups/aaaaaaaa-aaaa-4aaa-8aaa-aaaaaaaaaaaa/retired.json")
      then err (store not_found false)
      else ok (record { content = codes "c"; modified = 9 });
  put = λ h key content. none;
  upload = λ h key. none;
  download = λ h key size hash. ok file;
  check = λ h. none;
  has_temp = λ h. true;
  canceled = λ h. false;
  gate = λ h. answered;
}

abbrev repo : Repo
repo = record {
  world = world;
  lib = library;
  json = json;
  id = identity;
  gunzip = λ s. member s [] false;
  gate_size = size;
}

abbrev attempt : Attempt
attempt = record { hold = hold; request = request; claim = claim }

abbrev capture : Capture
capture = record {
  commit = sample;
  manifest = some file;
  files = some file ∷ some file ∷ [];
  has_check = true;
}

abbrev start : State
start = record { calls = []; uncertain = false; used = false }

publish-IsGuarded_example :
    IsGuarded repo attempt capture start (publish repo attempt capture start).1
publish-IsGuarded_example = publish-IsGuarded repo attempt capture start

abbrev winner : Published
winner = record { commit = sample; bytes = codes "c"; published_at = 9 }

publishes : publish repo attempt capture start ≡ (ok winner, (publish repo attempt capture start).1)
unfolding publish prepare dispatch read_winner consume matches_attempt verify_files upload
    upload_files transfer check_now manifest_key download_verify verify_artifacts verify_payload
    verify_parent verify_winner fetch_commit check_live fetch_claim fetch_request claim_ok continue
    ◌>>=◌ lift try_act mark answer_of record_call read_key put_key upload_key download_key run_check
    check_canceled make_temp verify_file verify_raw check_hold hold_admitted is_lifetime_of
    validate_gate holders_ok holder_ok holder_kind_ok owner_ok read_gate same_holder same_process
    read_commit live request_for validate_commit commit_header_ok commit_times_ok commit_positions
    single_range_ok commit_texts_ok commit_kind_ok tablespaces_ok artifact_ok count_role
    count_artifacts validate_request stamp is_none points_to has_zero backup_key attempt_key
    artifact_key format_digits parse_lsn lsn_ok lsn_part_ok before_slash after_slash valid_id
    valid_hash matches_groups is_lower_hex is_digit is_upper_hex parse_digits digit_value any all
    text_eq text_lt
publishes = refl

publish-IsPublished_example :
    IsPublished repo capture start (publish repo attempt capture start).1 winner
publish-IsPublished_example =
    publish-IsPublished repo attempt capture start (publish repo attempt capture start).1 winner
      publishes

-- The same store before the backup's commit is written.
abbrev young : Repo
young = record repo {
  world = record world {
    read = λ h key.
        if has_suffix (codes "commit.json") key
        then err (store not_found false)
        else ok (record { content = codes "o"; modified = 9 });
  };
}

abbrev process : Process
process = record { id = uuid_b; uuid = uuid_c }

begun :
    begin young hold process request start
    ≡ (ok (fresh attempt), (begin young hold process request start).1)
unfolding begin check_now check_hold hold_admitted read_gate validate_gate holders_ok holder_ok
    holder_kind_ok owner_ok same_holder same_process is_lifetime_of is_none validate_request freeze
    put_key read_key record_call mark try_act answer_of lift continue ◌>>=◌ fetch_commit
    settle_begin check_certain check_root claim_attempt backup_key attempt_key has_suffix valid_id
    valid_hash matches_groups is_lower_hex is_digit any all text_eq text_lt
begun = refl

begin-IsClaimed_example : IsClaimed young process request hold attempt
begin-IsClaimed_example =
    begin-IsClaimed young process request hold start (begin young hold process request start).1
      attempt begun

downloads :
    download_input repo hold uuid_a (pos 1) start
    ≡ (ok file, (download_input repo hold uuid_a (pos 1) start).1)
unfolding download_input input_of check_edge check_now check_hold hold_admitted read_gate
    validate_gate holders_ok holder_ok holder_kind_ok owner_ok same_holder same_process
    is_lifetime_of fetch_commit check_live fetch_claim fetch_request claim_ok continue ◌>>=◌ lift
    try_act record_call read_key download_key verify_file verify_raw read_commit live request_for
    validate_commit commit_header_ok commit_times_ok commit_positions single_range_ok
    commit_texts_ok commit_kind_ok tablespaces_ok artifact_ok count_role count_artifacts
    validate_request stamp is_none points_to has_zero backup_key attempt_key artifact_key
    format_digits parse_lsn lsn_ok lsn_part_ok before_slash after_slash valid_id valid_hash
    matches_groups is_lower_hex is_digit is_upper_hex parse_digits digit_value any all text_eq
    text_lt
downloads = refl

download_input-IsInput_example :
    IsInput repo hold uuid_a (pos 1) start (download_input repo hold uuid_a (pos 1) start).1 file
download_input-IsInput_example =
    download_input-IsInput repo hold uuid_a (pos 1) start
      (download_input repo hold uuid_a (pos 1) start).1 file downloads
