-- ===== src/Repository/Cleanup.antt =====
-- internal/repository/retention_inventory.go: `Cleanup`, which finds the leavings of claimed attempts.
-- The store answers by key and does not change during the call.
pub mod Orphans
pub mod Archive
use cnpg_backup.Prelude.{
  ℕ, zero, suc, ◌-◌, Bool, true, false, not, ◌&&◌, ◌||◌, List, [], ◌∷◌, ◌++◌, Option, none, some,
  Text, text_eq, codes, ltb, leb, ◌==◌, if◌then◌else◌, length, take, drop, Result, ok, err, Error,
  store, not_found, retired, guard, ◌>>=◌, ◌>>◌,
}
use cnpg_backup.Repository.Names.Hex.{valid_id, decimal}
use cnpg_backup.Repository.Names.Keys.{root, backup_key, attempt_key}
use cnpg_backup.Repository.Schema.Records.{
  Library, Identity, Request, Retirement, Commit, valid_text, validate_request, validate_retirement,
  is_none,
}
use cnpg_backup.Repository.Schema.Stored.{read_commit, live}
use cnpg_backup.Repository.Gate.{Gate}
use cnpg_backup.Repository.Gc.{GcOwner, Reads, Victim, check_owner, validate_victim}
use cnpg_backup.Repository.History.Inventory.{has_suffix}
use cnpg_backup.Repository.Publication.Stored.{Claim, Json, claim_ok}

-- `strings.Split(s, "/")`.
unfoldable pub extend_first : ℕ → List Text → List Text
extend_first c [] = (c ∷ []) ∷ []
extend_first c (part ∷ parts) = (c ∷ part) ∷ parts

unfoldable pub split_slashes : Text → List Text
unfolding extend_first
split_slashes [] = [] ∷ []
split_slashes (c ∷ cs) =
    let rest = split_slashes cs in if c == b'/' then [] ∷ rest else extend_first c rest

abbrev pub has_prefix : Text → Text → Bool
has_prefix prefix s = text_eq (take (length prefix) s) prefix

-- `strings.Contains`.
unfoldable pub contains : Text → Text → Bool
unfolding text_eq
contains part [] = length part == 0
contains part (c ∷ cs) = has_prefix part (c ∷ cs) || contains part cs

abbrev pub without_suffix : Text → Text → Text
without_suffix suffix s = if has_suffix suffix s then take (length s - length suffix) s else s

-- The index in the name of an artifact.
unfoldable pub artifact_index : Text → Option ℕ
unfolding has_suffix decimal
artifact_index name =
    elim (decimal (without_suffix (codes ".tar") (without_suffix (codes ".gz") name))) [
      | none ↦ none
      | some n ↦ if ltb n 66 then some n else none
    ]

-- `catalogKey`, of the parts behind the prefix: the backup.
unfoldable pub catalog_parts : List Text → Option Text
unfolding valid_id text_eq has_suffix artifact_index is_none
catalog_parts (uid ∷ file ∷ []) =
    if valid_id uid
      && (text_eq file (codes "commit.json")
          || text_eq file (codes "request.json")
          || text_eq file (codes "retired.json"))
    then some uid
    else none
catalog_parts (uid ∷ folder ∷ attempt ∷ file ∷ []) =
    if valid_id uid
      && text_eq folder (codes "attempts")
      && valid_id attempt
      && (text_eq file (codes "claim.json") || text_eq file (codes "manifest.pg.json"))
    then some uid
    else none
catalog_parts (uid ∷ folder ∷ attempt ∷ data_folder ∷ name ∷ []) =
    if valid_id uid
      && text_eq folder (codes "attempts")
      && valid_id attempt
      && text_eq data_folder (codes "data")
      && has_suffix (codes ".tar") (without_suffix (codes ".gz") name)
      && not (is_none (artifact_index name))
    then some uid
    else none
catalog_parts _ = none

-- What the call reads: objects by their keys, and for `validateVictim` the answers of one batch.
pub record Snapshot : Type 0 where
  pub read : Text → Result Text
  pub reads : Reads

module _ (lib : Library) (json : Json) (id : Identity) (now : Snapshot) where
  abbrev pub backups_prefix : Text
  backups_prefix = root id ++ codes "backups/"

  unfoldable pub catalog_key : Text → Option (Text × List Text)
  unfolding catalog_parts split_slashes text_eq
  catalog_key key =
      let parts = split_slashes (drop (length backups_prefix) key) in
      if has_prefix backups_prefix key
      then elim (catalog_parts parts) [ none ↦ none | some uid ↦ some (uid, parts) ]
      else none

  -- `readClaim`.
  unfoldable pub read_claim : Text → Text → Result Claim
  unfolding claim_ok attempt_key valid_id
  read_claim uid attempt = do
    guard (valid_id uid && valid_id attempt) Error.invalid
    b ← now.read (attempt_key id uid attempt ++ codes "claim.json")
    cl ← elim (json.decode_claim b) [ err e ↦ err Error.corrupt | ok v ↦ ok v ]
    guard (claim_ok id uid attempt cl) Error.corrupt
    ok cl

  -- `validateListedMetadata`, of a file of an attempt.
  unfoldable pub check_listed : Text → Text → Result (Unit {0})
  unfolding read_claim backup_key validate_request text_eq
  check_listed uid attempt = do
    cl ← read_claim uid attempt
    b ← now.read (backup_key id uid ++ codes "request.json")
    req ← elim (json.decode_request b) [ err e ↦ err Error.corrupt | ok v ↦ ok v ]
    elim (validate_request req id) [ err e ↦ err Error.corrupt | ok u ↦ ok tt ]
    guard (text_eq req.backup_uid uid && text_eq (lib.sha256 b) cl.request_sha256) Error.corrupt

  -- What `live` says of a commit, for its own attempt or another.
  unfoldable pub is_orphan : Result (Unit {0}) → (own : Bool) → Result Bool
  is_orphan (ok u) own = ok (not own)
  is_orphan (err retired) own = ok true
  is_orphan (err e) own = err e

  -- `eligible`: no commit, a retired one, or one of another attempt.
  unfoldable pub eligible_attempt : Text → Text → Result Bool
  unfolding read_commit backup_key live is_orphan text_eq
  eligible_attempt uid attempt =
      elim (read_commit lib id json.decode_commit
        (now.read (backup_key id uid ++ codes "commit.json")) uid) [
          | err (store not_found a) ↦ ok true
          | err e ↦ err e
          | ok v ↦
              is_orphan
                (live lib id json.decode_retirement
                  (now.read (backup_key id uid ++ codes "retired.json")) v.0 v.1)
                (text_eq (Commit.attempt_id v.0) attempt)
        ]

  -- The kind of a victim, its index and its compression.
  unfoldable pub victim_kind :
      List Text → (aborted : Bool) → Result (Text × (Option ℕ × Option Text))
  unfolding text_eq has_suffix artifact_index
  victim_kind (file ∷ []) aborted =
      if text_eq file (codes "manifest.pg.json")
      then ok (if aborted then codes "abort-manifest" else codes "delete-manifest", (none, none))
      else err Error.corrupt
  victim_kind (folder ∷ name ∷ []) aborted =
      if text_eq folder (codes "data")
      then elim (artifact_index name) [
        | none ↦ err Error.corrupt
        | some n ↦ ok (
          if aborted then codes "abort-artifact" else codes "delete-artifact",
          (some n, some (if has_suffix (codes ".gz") name then codes "gzip" else codes "none")),
        )
      ]
      else err Error.corrupt
  victim_kind _ aborted = err Error.corrupt

  abbrev pub payload_victim :
      Text → Text → Text × (Option ℕ × Option Text) → Option Text → Claim → Victim
  payload_victim uid attempt kind upload cl = record {
    kind = kind.0;
    backup_uid = some uid;
    attempt_id = some attempt;
    index = kind.1.0;
    compression = kind.1.1;
    upload_id = upload;
    wal_name = none;
    expected_etag = none;
    sha256 = cl.request_sha256;
    raw_bytes = 0;
  }

  unfoldable pub make_victim : Text → Text → List Text → Option Text → Result (Option Victim)
  unfolding read_claim victim_kind validate_victim is_none
  make_victim uid attempt rest upload = do
    cl ← read_claim uid attempt
    kind ← victim_kind rest (not (is_none upload))
    validate_victim lib id now.reads [] (payload_victim uid attempt kind upload cl)
    ok (some (payload_victim uid attempt kind upload cl))

  -- The file of an attempt; `none` is a file of the live commit. A key of two parts fails here at once;
  -- the source reads its object before it fails.
  unfoldable pub attempt_file : Text → List Text → Option Text → Result (Option Victim)
  unfolding check_listed eligible_attempt make_victim
  attempt_file uid (first ∷ folder ∷ attempt ∷ rest) upload = do
    check_listed uid attempt
    orphaned ← eligible_attempt uid attempt
    if orphaned then make_victim uid attempt rest upload else ok none
  attempt_file uid _ upload = err Error.corrupt

  unfoldable pub candidate : Text → Option Text → Result (Option Victim)
  unfolding catalog_key attempt_file
  candidate key upload = do
    v ← elim (catalog_key key) [ none ↦ err Error.corrupt | some v ↦ ok v ]
    attempt_file v.0 v.1 upload

  -- A listed object: only payload is a candidate.
  unfoldable pub listed_object : Text → Result (Option Victim)
  unfolding catalog_key has_suffix contains candidate is_none
  listed_object key =
      if is_none (catalog_key key)
      then err Error.corrupt
      else (if has_suffix (codes "/manifest.pg.json") key || contains (codes "/data/") key
          then candidate key none
          else ok none)

  unfoldable pub listed_upload : Text × Text → Result (Option Victim)
  unfolding valid_text candidate
  listed_upload u = do guard (valid_text lib u.1 2048) Error.corrupt; candidate u.0 (some u.1)

  -- All are inspected, and the first `limit` victims kept.
  unfoldable pub collect :
      {A : Type 0} → (A → Result (Option Victim)) → List A → ℕ → Result (ℕ × List Victim)
  collect inspect [] left = ok (left, [])
  collect inspect (x ∷ xs) left = inspect x >>= λ found. elim found [
    | none ↦ collect inspect xs left
    | some v ↦ elim left [
      | zero ↦ collect inspect xs zero
      | suc fewer ↦ collect inspect xs fewer >>= λ rest. ok (rest.0, v ∷ rest.1)
    ]
  ]

  unfoldable pub cleanup :
      GcOwner → Result Gate → List Text → List (Text × Text) → ℕ → Result (List Victim)
  unfolding check_owner collect listed_object listed_upload
  cleanup g gate objects uploads limit = do
    check_owner g gate
    guard (leb 1 limit && leb limit 128) Error.invalid
    first ← collect listed_object objects limit
    second ← collect listed_upload uploads first.0
    ok (first.1 ++ second.1)
