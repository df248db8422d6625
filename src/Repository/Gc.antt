-- ===== src/Repository/Gc.antt =====
-- internal/repository/gc.go: the validated, bounded batch of destructive requests of one owner.
-- What the code reads from storage enters by `Reads`, and what the world answers while the batch runs
-- by `Turn`: a check of the gate, the clock, and the outcome of the request.
pub mod Order
use cnpg_backup.Prelude.{
  ℕ, zero, suc, ◌+◌, ◌-◌, ◌*◌, ◌^◌, Bool, true, false, not, ◌&&◌, ◌||◌, List, [], ◌∷◌, ◌++◌, Option,
  none, some, Text, text_eq, codes, ltb, leb, ◌==◌, if◌then◌else◌, length, any, all, Result, ok,
  err, Error, StoreKind, guard, reject, ◌>>=◌, ◌>>◌,
}
use cnpg_backup.Repository.Names.Hex.{valid_id, valid_hash}
use cnpg_backup.Repository.Names.Wal.{wal_timeline}
use cnpg_backup.Repository.Schema.Records.{
  Library, Identity, Commit, is_none, points_to, stamp, valid_text,
}
use cnpg_backup.Repository.Gate.{Gate, Owner, same_owner, ambiguous}

pub record Policy : Type 0 where
  pub window_seconds : ℕ
  pub minimum_fulls : ℕ

pub record Victim : Type 0 where
  pub kind : Text
  pub backup_uid : Option Text
  pub attempt_id : Option Text
  pub index : Option ℕ
  pub compression : Option Text
  pub upload_id : Option Text
  pub wal_name : Option Text
  pub expected_etag : Option Text
  pub sha256 : Text
  pub raw_bytes : ℕ

pub record GcPlan : Type 0 where
  pub schema : ℕ
  pub repository_id : Text
  pub operation_id : Text
  pub process_id : Text
  pub cutoff : Text
  pub policy : Policy
  pub victims : List Victim

-- `GCOwner`, without its lock and its spool.
pub record GcOwner : Type 0 where
  pub owner : Owner
  pub requests : ℕ
  pub started : Option ℕ
  pub closed : Bool
  pub uncertain : Bool
  pub executed : Bool

-- A catalog entry, as far as the dependency check reads it.
pub record Entry : Type 0 where
  pub backup_uid : Text
  pub parent_backup_uid : Option Text
  pub retired : Bool

-- The metadata of an archived segment.
pub record WalHead : Type 0 where
  pub etag : Text
  pub format : Text
  pub system_id : Text
  pub raw_sha256 : Text
  pub raw_bytes : ℕ

-- The answers of `readCommit`, `live`, `readClaim` and `Head` for one batch. A commit comes with the
-- digest of its bytes; `none` is an absent commit.
pub record Reads : Type 0 where
  pub commit : Text → Result (Option (Commit × Text))
  pub live : Text → Result (Unit {0})
  pub claim : Text → Text → Result (Unit {0})
  pub head : Text → Result WalHead

abbrev pub kind_is : Victim → Text → Bool
kind_is v k = text_eq v.kind k

abbrev pub retire_backup : Text
retire_backup = codes "retire-backup"

abbrev pub retire_wal : Text
retire_wal = codes "retire-wal"

-- `check`, after the context: the handle, and then the gate that is read.
unfoldable pub check_owner : GcOwner → Result Gate → Result (Unit {0})
unfolding same_owner
check_owner g read = do
  reject g.closed Error.closed
  reject g.uncertain Error.uncertain
  gate ← read
  guard (elim gate.owner [ none ↦ false | some o ↦ same_owner o g.owner ]) Error.blocked

unfoldable pub validate_wal_victim : Identity → Reads → Victim → Result (Unit {0})
unfolding wal_timeline is_none text_eq
validate_wal_victim id reads v = elim v.wal_name [
  | none ↦ err Error.invalid
  | some name ↦ elim v.expected_etag [
    | none ↦ err Error.invalid
    | some etag ↦ do
      guard
          (not (length etag == 0)
            && leb (length etag) 256
            && is_none v.backup_uid
            && is_none v.attempt_id
            && is_none v.index
            && is_none v.compression
            && is_none v.upload_id)
          Error.invalid
      guard (length name == 24 && v.raw_bytes == id.wal_segment_bytes) Error.invalid
      timeline ← wal_timeline name id.wal_segment_bytes
      info ← reads.head name
      guard
          (text_eq info.etag etag
            && text_eq info.format (codes "wal-v1")
            && text_eq info.system_id id.system_identifier
            && text_eq info.raw_sha256 v.sha256
            && info.raw_bytes == v.raw_bytes)
          Error.identity
  ]
]

-- `switch v.Kind` for the slots of an attempt.
unfoldable pub attempt_slot_ok : Library → Victim → Bool
unfolding text_eq is_none valid_text
attempt_slot_ok lib v =
    let has_upload : Bool = elim v.upload_id [ none ↦ false | some u ↦ valid_text lib u 2048 ] in
    let has_slot : Bool =
      (elim v.index [ none ↦ false | some i ↦ ltb i 66 ]) && (elim v.compression [
        | none ↦ false
        | some c ↦ text_eq c (codes "none") || text_eq c (codes "gzip")
      ]) in
    if kind_is v (codes "delete-manifest")
    then is_none v.index && is_none v.compression && is_none v.upload_id
    else (if kind_is v (codes "delete-artifact")
        then has_slot && is_none v.upload_id
        else (if kind_is v (codes "abort-artifact")
            then has_slot && has_upload
            else (if kind_is v (codes "abort-manifest")
                then is_none v.index && is_none v.compression && has_upload
                else false)))

-- The winning attempt of a backup may be a victim only if the backup is retired, now or by an
-- earlier victim of this batch.
unfoldable pub attempt_free : Reads → List Text → Text → Text → Result (Unit {0})
unfolding any text_eq
attempt_free reads retired uid attempt = do
  found ← reads.commit uid
  elim found [
    | none ↦ ok tt
    | some (c, digest) ↦
        if text_eq c.attempt_id attempt
        then elim (reads.live uid) [
          | ok u ↦ guard (any (text_eq uid) retired) Error.blocked
          | err Error.retired ↦ ok tt
          | err e ↦ err e
        ]
        else ok tt
  ]

unfoldable pub validate_backup_victim : Reads → Victim → Text → Result (Unit {0})
unfolding is_none text_eq
validate_backup_victim reads v uid = do
  guard (is_none v.attempt_id && is_none v.index && is_none v.compression && is_none v.upload_id)
      Error.invalid
  found ← reads.commit uid
  elim found [
    | none ↦ err (Error.store StoreKind.not_found false)
    | some (c, digest) ↦ guard (text_eq digest v.sha256) Error.identity
  ]

unfoldable pub validate_attempt_victim :
    Library → Reads → List Text → Victim → Text → Result (Unit {0})
unfolding valid_id attempt_free attempt_slot_ok
validate_attempt_victim lib reads retired v uid = elim v.attempt_id [
  | none ↦ err Error.invalid
  | some attempt ↦ do
    guard (valid_id attempt) Error.invalid
    attempt_free reads retired uid attempt
    reads.claim uid attempt
    guard (attempt_slot_ok lib v) Error.invalid
]

unfoldable pub validate_victim : Library → Identity → Reads → List Text → Victim → Result (Unit {0})
unfolding valid_hash validate_wal_victim validate_backup_victim validate_attempt_victim
validate_victim lib id reads retired v = do
  guard (valid_hash v.sha256) Error.invalid
  (if kind_is v retire_wal then validate_wal_victim id reads v else (elim v.backup_uid [
    | none ↦ err Error.invalid
    | some uid ↦ do
      guard (valid_id uid && is_none v.wal_name && is_none v.expected_etag) Error.invalid
      (if kind_is v retire_backup
          then validate_backup_victim reads v uid
          else validate_attempt_victim lib reads retired v uid)
  ]))

-- A live catalog entry whose parent is `uid` and which no earlier victim retires.
unfoldable pub depends_on : Text → List Text → Entry → Bool
unfolding points_to any text_eq
depends_on uid retired en =
    not en.retired
    && points_to en.parent_backup_uid uid
    && not (any (text_eq en.backup_uid) retired)

-- What one victim of the complete ordering changes: the backups retired so far.
unfoldable pub retire_next : List Entry → List Text → Victim → Result (List Text)
unfolding depends_on any
retire_next entries retired v =
    if kind_is v retire_backup
    then elim v.backup_uid [
      | none ↦ err Error.invalid
      | some uid ↦ do
        reject (any (depends_on uid retired) entries) Error.blocked
        ok (uid ∷ retired)
    ]
    else ok retired

-- The loop that validates the complete ordering before anything is written.
unfoldable pub validate_victims :
    Library → Identity → Reads → List Entry → List Victim → List Text → Bool → Result (Unit {0})
unfolding validate_victim retire_next text_eq
validate_victims lib id reads entries [] retired wal_retirement = ok tt
validate_victims lib id reads entries (v ∷ vs) retired wal_retirement = do
  let wal = wal_retirement || kind_is v retire_wal
  reject (kind_is v retire_backup && wal) Error.invalid
  validate_victim lib id reads retired v
  next ← retire_next entries retired v
  validate_victims lib id reads entries vs next wal

unfoldable pub plan_header_ok : Library → Identity → GcOwner → GcPlan → Bool
unfolding text_eq stamp is_none
plan_header_ok lib id g p =
    p.schema == 1
    && text_eq p.repository_id id.repository_id
    && text_eq p.operation_id g.owner.operation_id
    && text_eq p.process_id g.owner.process_id
    && leb 1 (length p.victims)
    && leb (length p.victims) 128
    && not (is_none (stamp lib p.cutoff))
    && leb 3600 p.policy.window_seconds
    && leb p.policy.window_seconds (3650 * 86400)
    && leb 1 p.policy.minimum_fulls
    && leb p.policy.minimum_fulls 100

-- What the world does around one destructive request.
pub record Turn : Type 0 where
  pub read : Result Gate
  pub now : ℕ
  pub outcome : Result (Unit {0})

-- The phase may last 30 seconds from its first request; an instant counts nanoseconds.
abbrev pub phase_limit : ℕ
phase_limit = 30 * 1000000000

unfoldable pub start_phase : GcOwner → ℕ → Result GcOwner
start_phase g now = elim g.started [
  | none ↦ ok (record g { started = some now })
  | some t ↦ if leb phase_limit (now - t) then err Error.capacity else ok g
]

-- The tests before one request, and the owner with the request counted.
unfoldable pub dispatch : GcOwner → Turn → Result GcOwner
unfolding check_owner start_phase
dispatch g turn = do
  reject (leb 128 g.requests) Error.capacity
  check_owner g turn.read
  g' ← start_phase g turn.now
  ok (record g' { requests = g'.requests + 1 })

-- The destructive loop: the owner afterwards, the victims that were dispatched, and the result.
unfoldable pub destroy_all :
    GcOwner → List Victim → (ℕ → Turn) → ℕ → GcOwner × List Victim × Result (Unit {0})
unfolding dispatch ambiguous
destroy_all g [] world i = (g, [], ok tt)
destroy_all g (v ∷ vs) world i = elim (dispatch g (world i)) [
  | err e ↦ (g, [], err e)
  | ok g' ↦ elim ((world i).outcome) [
    | ok u ↦ let rest = destroy_all g' vs world (i + 1) in (rest.0, v ∷ rest.1, rest.2)
    | err e ↦ (record g' { uncertain = if ambiguous e then true else g'.uncertain }, v ∷ [], err e)
  ]
]

-- What the world answers to one `Execute`: the gate, the catalog, the write of the plan, the turns.
pub record Answers : Type 0 where
  pub read : Result Gate
  pub entries : Result (List Entry)
  pub plan_write : Option Error
  pub turns : ℕ → Turn

module _ (lib : Library) (id : Identity) (reads : Reads) (encoded_size : GcPlan → ℕ) where
  -- All that precedes the first write.
  unfoldable pub admit_plan : GcOwner → GcPlan → Answers → Result (Unit {0})
  unfolding plan_header_ok validate_victims
  admit_plan g p answers = do
    guard (plan_header_ok lib id g p) Error.invalid
    entries ← answers.entries
    validate_victims lib id reads entries p.victims [] false
    reject (ltb (4 * 2 ^ 20) (encoded_size p)) Error.capacity

  unfoldable pub execute : GcOwner → GcPlan → Answers → GcOwner × List Victim × Result (Unit {0})
  unfolding check_owner admit_plan destroy_all ambiguous
  execute g p answers = elim (check_owner g answers.read) [
    | err e ↦ (g, [], err e)
    | ok u ↦
        if g.executed
        then (g, [], err Error.closed)
        else (let g' : GcOwner = record g { executed = true } in
            elim (admit_plan g' p answers) [
              | err e ↦ (g', [], err e)
              | ok w ↦ elim answers.plan_write [
                | none ↦ destroy_all g' p.victims answers.turns 0
                | some e ↦ (
                  record g' { uncertain = if ambiguous e then true else g'.uncertain },
                  [],
                  err e,
                )
              ]
            ])
  ]
