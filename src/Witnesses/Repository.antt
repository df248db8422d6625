-- ===== src/Witnesses/Repository.antt =====
-- repository: the gate, a batch, the choice of a backup and positions, on concrete inputs.
use cnpg_backup.Prelude.{
  ℕ, zero, suc, ◌+◌, Bool, true, false, ◌≡◌, refl, List, [], ◌∷◌, Option, none, some, Text, text_eq,
  text_lt, codes, any, find, length, ok, err, Error, store, transient, arith,
}
use cnpg_backup.Prelude.Sort.{insert, sort}
use cnpg_backup.Repository.Names.Hex.{valid_id, valid_hash, matches_groups, is_lower_hex, is_digit}
use cnpg_backup.Repository.Names.Lsn.{parse_lsn, format_lsn, parse_lsn-format_lsn, lsn_or_zero}
use cnpg_backup.Repository.Schema.Records.{Library, Identity, Commit, stamp, is_none, points_to}
use cnpg_backup.Repository.Schema.Commits.{stamp_or_zero}
use cnpg_backup.Repository.Gate.{
  Gate, Holder, Owner, Round, change_gate, add_change, validate_gate, holders_ok, holder_ok,
  holder_kind_ok, owner_ok, read_gate, seal, prepare, attempt, settle, change_rounds, ambiguous,
  is_lost_race, same_holder, same_process, find_holder, same_owner,
}
use cnpg_backup.Repository.Gate.Exclusion.{IsRun, change_gate-IsRun}
use cnpg_backup.Repository.Gate.Holds.{
  Hold, check_hold, hold_admitted, is_lifetime_of, IsAdmitted, check_hold-Admitted,
}
use cnpg_backup.Repository.Gc.{
  GcOwner, GcPlan, Victim, Entry, Reads, Answers, retire_backup, execute, check_owner, admit_plan,
  plan_header_ok, validate_victims, validate_victim, validate_backup_victim, retire_next,
  depends_on, dispatch, start_phase, destroy_all,
}
use cnpg_backup.Repository.Gc.Order.{IsExecuted, execute-IsExecuted}
use cnpg_backup.Repository.Recovery.Target.{Target, Timeline}
use cnpg_backup.Repository.Recovery.Eligible.{
  eligible, choose, newer_commit, path_from, ends_before_fork, target_reachable,
}
use cnpg_backup.Repository.Recovery.Choice.{choose-IsChoice, IsNewest}

abbrev pub uuid_a : Text
uuid_a = codes "aaaaaaaa-aaaa-4aaa-8aaa-aaaaaaaaaaaa"

abbrev pub uuid_b : Text
uuid_b = codes "bbbbbbbb-bbbb-4bbb-8bbb-bbbbbbbbbbbb"

abbrev pub uuid_c : Text
uuid_c = codes "cccccccc-cccc-4ccc-8ccc-cccccccccccc"

abbrev pub identity : Identity
identity = record {
  schema = 1;
  repository_id = uuid_a;
  postgres_major = 18;
  system_identifier = codes "7";
  wal_segment_bytes = 16777216;
  writer_cluster_uid = uuid_b;
  created_at = codes "2";
}

abbrev pub size : Gate → ℕ
size g = 100

abbrev pub reader : Holder
reader = record {
  id = uuid_c;
  kind = codes "backup";
  target_cluster_uid = uuid_b;
  operation_id = uuid_a;
  process_id = some uuid_b;
}

abbrev pub free_gate : Gate
free_gate = record {
  schema = 1;
  repository_id = uuid_a;
  generation = 4;
  nonce = uuid_a;
  owner = none;
  holders = [];
}

abbrev pub held_gate : Gate
held_gate = record free_gate { generation = 5; nonce = uuid_b; holders = reader ∷ [] }

-- The first write ends ambiguously and has taken effect; the barrier is accepted; the change finds
-- nothing left to do.
unfoldable world : ℕ → Round
world zero = record { read = ok free_gate; nonce = uuid_b; outcome = some (store transient true) }
world (suc n) = record { read = ok held_gate; nonce = uuid_c; outcome = none }

change_gate_test : (change_gate identity size (add_change reader) world).1 ≡ ok tt
unfolding world change_gate change_rounds attempt settle read_gate prepare seal validate_gate
    holders_ok holder_ok owner_ok valid_id text_eq text_lt sort insert add_change find_holder
    same_holder ambiguous is_lost_race is_none find holder_kind_ok matches_groups is_lower_hex
    is_digit same_process
change_gate_test = refl

change_gate-IsRun_example :
    IsRun identity size
      (add_change reader)
      world
      0
      10
      false
      (change_gate identity size (add_change reader) world)
change_gate-IsRun_example = change_gate-IsRun identity size (add_change reader) world

abbrev pub hold : Hold
hold = record { holder = reader; closed = false; uncertain = false }

abbrev pub answered : Round
answered = record { read = ok held_gate; nonce = uuid_c; outcome = none }

checked : check_hold identity size hold answered ≡ ok tt
unfolding check_hold hold_admitted read_gate validate_gate holders_ok holder_ok owner_ok valid_id
    text_eq text_lt same_holder is_none any holder_kind_ok matches_groups is_lower_hex is_digit
    same_process is_lifetime_of
checked = refl

check_hold-Admitted_example :
    (hold.closed ≡ false)
    × (hold.uncertain ≡ false)
    × ((g : Gate) × (answered.read ≡ ok g) × IsAdmitted hold.holder g)
check_hold-Admitted_example = check_hold-Admitted identity size hold answered checked

parse_lsn-format_lsn_example : parse_lsn (format_lsn 5000000000) ≡ ok 5000000000
parse_lsn-format_lsn_example = parse_lsn-format_lsn 5000000000 (omega arith)

-- Instants are counted in unary.
unfoldable unary : ℕ → Text
unary zero = []
unary (suc n) = 49 ∷ unary n

abbrev library : Library
library = record {
  parse_time = λ s. some (length s);
  format_time = unary;
  year = λ n. 2000 + n;
  valid_utf8 = λ s. true;
  sha256 = λ s. s;
}

abbrev hash : Text
hash = codes "0000000000000000000000000000000000000000000000000000000000000000"

abbrev commit : Text → Option Text → Text → Commit
commit uid parent stopped = record {
  schema = 1;
  repository_id = uuid_a;
  backup_uid = uid;
  attempt_id = uuid_a;
  request_sha256 = hash;
  kind = codes "full";
  parent_backup_uid = parent;
  root_backup_uid = uid;
  system_identifier = codes "7";
  postgres_major = 18;
  tool_version = codes "t";
  timeline = 1;
  checksum_version = 1;
  capture_instance_uid = uuid_a;
  postmaster_started_at = codes "1";
  started_at = codes "1";
  stopped_at = stopped;
  start_lsn = codes "0/10";
  stop_lsn = codes "0/20";
  redo_lsn = codes "0/10";
  bundled_wal_start_lsn = codes "0/0";
  bundled_wal_end_lsn = codes "0/1000000";
  wal_ranges = [];
  backup_label = codes "l";
  tablespace_map = [];
  root_manifest_sha256 = none;
  manifest_bytes = 1;
  manifest_sha256 = hash;
  tablespaces = [];
  artifacts = [];
}

abbrev older : Commit
older = commit uuid_b none (codes "11")

abbrev newest : Commit
newest = commit uuid_c none (codes "111")

abbrev latest : Target
latest = record {
  kind = codes "latest";
  value = [];
  exclusive = false;
  backup_uid = none;
  timeline = 1;
}

abbrev route : List Timeline
route = record { id = 1; fork_lsn = none } ∷ []

abbrev catalog : List (Commit × Bool)
catalog = (older, false) ∷ (newest, false) ∷ (commit uuid_a none (codes "1111"), true) ∷ []

chosen : choose library latest route catalog none ≡ some newest
unfolding choose eligible path_from ends_before_fork target_reachable newer_commit stamp_or_zero
    stamp unary text_eq text_lt lsn_or_zero
chosen = refl

choose-IsChoice_example : IsNewest library latest route catalog newest
choose-IsChoice_example = (choose-IsChoice library latest route catalog chosen).1

abbrev pub gc : Owner
gc = record { operation_id = uuid_b; process_id = uuid_c; kind = codes "gc" }

abbrev pub gc_owner : GcOwner
gc_owner = record {
  owner = gc;
  requests = 0;
  started = none;
  closed = false;
  uncertain = false;
  executed = false;
}

abbrev retire : Text → Victim
retire uid = record {
  kind = retire_backup;
  backup_uid = some uid;
  attempt_id = none;
  index = none;
  compression = none;
  upload_id = none;
  wal_name = none;
  expected_etag = none;
  sha256 = hash;
  raw_bytes = 0;
}

abbrev gc_plan : GcPlan
gc_plan = record {
  schema = 1;
  repository_id = uuid_a;
  operation_id = uuid_b;
  process_id = uuid_c;
  cutoff = codes "11";
  policy = record { window_seconds = 3600; minimum_fulls = 1 };
  victims = retire uuid_c ∷ retire uuid_b ∷ [];
}

abbrev entries : List Entry
entries =
    record { backup_uid = uuid_b; parent_backup_uid = none; retired = false }
    ∷ record { backup_uid = uuid_c; parent_backup_uid = some uuid_b; retired = false }
    ∷ []

abbrev owned_gate : Gate
owned_gate = record free_gate { owner = some gc }

abbrev answers : Answers
answers = record {
  read = ok owned_gate;
  entries = ok entries;
  plan_write = none;
  turns = λ i. record { read = ok owned_gate; now = 7 + i; outcome = ok tt };
}

abbrev reads : Reads
reads = record {
  commit = λ uid. ok (some (commit uid none (codes "1"), hash));
  live = λ uid. ok tt;
  claim = λ uid attempt. ok tt;
  head = λ name. err Error.foreign;
}

abbrev plan_size : GcPlan → ℕ
plan_size p = 1000

-- A differential is retired, and then its parent.
execute_test :
    (execute library identity reads plan_size gc_owner gc_plan answers).1 ≡ gc_plan.victims
unfolding execute check_owner admit_plan plan_header_ok validate_victims validate_victim
    validate_backup_victim retire_next depends_on dispatch start_phase destroy_all same_owner
    text_eq stamp unary is_none valid_id valid_hash matches_groups is_lower_hex is_digit any
    points_to
execute_test = refl

execute-IsExecuted_example :
    IsExecuted gc_owner gc_plan answers
      (execute library identity reads plan_size gc_owner gc_plan answers)
execute-IsExecuted_example =
    execute-IsExecuted library identity reads plan_size gc_owner gc_plan answers
