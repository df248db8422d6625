-- ===== src/Repository/Schema/Commits.antt =====
-- schema.go: `Commit.validate` and `validateParent`.
use cnpg_backup.Prelude.{
  ℕ, ◌+◌, ◌*◌, ◌/◌, ◌^◌, Bool, true, false, not, ◌&&◌, ◌||◌, List, [], ◌∷◌, Option, none, some,
  Text, text_eq, codes, ltb, leb, ◌==◌, if◌then◌else◌, length, any, Result, ok, err, Error, guard,
  ◌>>=◌, ◌>>◌,
}
use cnpg_backup.Repository.Names.Hex.{valid_id, valid_hash}
use cnpg_backup.Repository.Names.Lsn.{parse_lsn, lsn_or_zero}
use cnpg_backup.Repository.Schema.Records.{
  Library, Identity, Tablespace, Artifact, Commit, is_none, points_to, has_zero, stamp, valid_text,
}

abbrev pub max_manifest_bytes : ℕ
max_manifest_bytes = 64 * 2 ^ 20

abbrev pub max_backup_bytes : ℕ
max_backup_bytes = 2 ^ 40

abbrev pub max_artifact_bytes : ℕ
max_artifact_bytes = 512 * 2 ^ 30

abbrev pub contains_text : Text → List Text → Bool
contains_text t l = any (text_eq t) l

abbrev pub contains_number : ℕ → List ℕ → Bool
contains_number n l = any (λ m. m == n) l

unfoldable pub commit_header_ok : Commit → Identity → Bool
unfolding text_eq valid_id valid_hash
commit_header_ok v id =
    v.schema == 1
    && text_eq v.repository_id id.repository_id
    && text_eq v.system_identifier id.system_identifier
    && v.postgres_major == 18
    && text_eq v.tool_version (codes "18.6")
    && valid_id v.backup_uid
    && valid_id v.attempt_id
    && valid_id v.capture_instance_uid
    && valid_hash v.request_sha256
    && not (v.timeline == 0)
    && leb v.checksum_version 1

unfoldable pub commit_times_ok : Library → Commit → Bool
unfolding stamp
commit_times_ok lib v = elim (stamp lib v.started_at) [
  | none ↦ false
  | some start ↦ elim (stamp lib v.stopped_at) [
    | none ↦ false
    | some stop ↦ elim (stamp lib v.postmaster_started_at) [
      | none ↦ false
      | some pm ↦ leb start stop && leb pm start
    ]
  ]
]

unfoldable pub single_range_ok : Commit → Bool
unfolding text_eq
single_range_ok v = elim v.wal_ranges [
  | [] ↦ false
  | w ∷ ws ↦
      length ws == 0
      && w.timeline == v.timeline
      && text_eq w.start_lsn v.bundled_wal_start_lsn
      && text_eq w.end_lsn v.bundled_wal_end_lsn
]

unfoldable pub commit_positions : Commit → Result (Unit {0})
unfolding parse_lsn single_range_ok
commit_positions v = do
  redo ← parse_lsn v.redo_lsn
  start ← parse_lsn v.start_lsn
  stop ← parse_lsn v.stop_lsn
  bundle_start ← parse_lsn v.bundled_wal_start_lsn
  bundle_end ← parse_lsn v.bundled_wal_end_lsn
  guard
      (leb redo start
        && ltb start stop
        && leb bundle_start redo
        && bundle_end == stop
        && single_range_ok v)
      Error.invalid

unfoldable pub commit_texts_ok : Library → Commit → Bool
unfolding has_zero valid_hash
commit_texts_ok lib v =
    not (length v.backup_label == 0)
    && leb (length v.backup_label) (64 * 2 ^ 10)
    && lib.valid_utf8 v.backup_label
    && not (has_zero v.backup_label)
    && leb (length v.tablespace_map) (64 * 2 ^ 10)
    && lib.valid_utf8 v.tablespace_map
    && not (has_zero v.tablespace_map)
    && leb 1 v.manifest_bytes
    && leb v.manifest_bytes max_manifest_bytes
    && valid_hash v.manifest_sha256

-- `switch v.Kind`.
unfoldable pub commit_kind_ok : Commit → Bool
unfolding text_eq is_none points_to valid_id valid_hash
commit_kind_ok v =
    if text_eq v.kind (codes "full")
    then is_none v.parent_backup_uid
      && text_eq v.root_backup_uid v.backup_uid
      && is_none v.root_manifest_sha256
    else (if text_eq v.kind (codes "differential")
        then (elim v.parent_backup_uid [ none ↦ false | some p ↦ valid_id p ])
          && points_to v.parent_backup_uid v.root_backup_uid
          && not (text_eq v.root_backup_uid v.backup_uid)
          && (elim v.root_manifest_sha256 [ none ↦ false | some h ↦ valid_hash h ])
        else false)

-- The loop over the tablespaces, with the maps `oids` and `names`.
unfoldable pub tablespaces_ok : Library → List Tablespace → List ℕ → List Text → Bool
unfolding any text_eq valid_text
tablespaces_ok lib [] oids names = true
tablespaces_ok lib (t ∷ ts) oids names =
    not (t.oid == 0)
    && not (contains_number t.oid oids)
    && valid_text lib t.name 63
    && not (contains_text t.name names)
    && tablespaces_ok lib ts (t.oid ∷ oids) (t.name ∷ names)

abbrev pub tablespace_oids : List Tablespace → List ℕ
tablespace_oids [] = []
tablespace_oids (t ∷ ts) = t.oid ∷ tablespace_oids ts

-- The variables of the loop over the artifacts.
pub record Totals : Type 0 where
  pub base : ℕ
  pub wal : ℕ
  pub raw : ℕ
  pub stored : ℕ
  pub used : List ℕ

unfoldable pub artifact_ok : ℕ → Artifact → Bool
unfolding valid_hash text_eq
artifact_ok i a =
    a.index == i
    && leb 1 a.stored_bytes
    && leb a.stored_bytes max_artifact_bytes
    && leb 1 a.raw_bytes
    && leb a.raw_bytes max_backup_bytes
    && valid_hash a.stored_sha256
    && valid_hash a.raw_sha256
    && (text_eq a.compression (codes "none") || text_eq a.compression (codes "gzip"))
    && (not (text_eq a.compression (codes "none"))
        || a.raw_bytes == a.stored_bytes && text_eq a.raw_sha256 a.stored_sha256)

-- `switch a.Role`; `none` is the error.
unfoldable pub count_role : List ℕ → Artifact → Totals → Option Totals
unfolding text_eq is_none any
count_role oids a s =
    if text_eq a.role (codes "base")
    then (if is_none a.tablespace_oid then some (record s { base = s.base + 1 }) else none)
    else (if text_eq a.role (codes "wal")
        then (if is_none a.tablespace_oid && leb a.raw_bytes (256 * 2 ^ 30)
            then some (record s { wal = s.wal + 1 })
            else none)
        else (if text_eq a.role (codes "tablespace")
            then elim a.tablespace_oid [
              | none ↦ none
              | some oid ↦
                  if contains_number oid oids && not (contains_number oid s.used)
                  then some (record s { used = oid ∷ s.used })
                  else none
            ]
            else none))

unfoldable pub count_artifacts : List ℕ → List Artifact → ℕ → Totals → Result Totals
unfolding artifact_ok count_role
count_artifacts oids [] i s = ok s
count_artifacts oids (a ∷ rest) i s = do
  guard (artifact_ok i a) Error.invalid
  next ←
      elim (count_role oids a
        (record s { raw = s.raw + a.raw_bytes; stored = s.stored + a.stored_bytes })) [
          | none ↦ err Error.invalid
          | some t ↦ ok t
        ]
  count_artifacts oids rest (i + 1) next

-- In Go `MaxBackupBytes+MaxBackupBytes/100+1<<30` is a sum: `<<` binds tighter than `+`.
abbrev pub max_stored_bytes : ℕ
max_stored_bytes = max_backup_bytes + max_backup_bytes / 100 + 2 ^ 30

unfoldable pub validate_commit : Library → Identity → Commit → Result (Unit {0})
unfolding commit_header_ok commit_times_ok commit_positions commit_texts_ok commit_kind_ok
    tablespaces_ok count_artifacts
validate_commit lib id v = do
  guard (commit_header_ok v id) Error.invalid
  guard (commit_times_ok lib v) Error.invalid
  commit_positions v
  guard (commit_texts_ok lib v) Error.invalid
  guard (commit_kind_ok v) Error.invalid
  guard
      (leb (length v.tablespaces) 64
        && length v.artifacts == length v.tablespaces + 2
        && leb (length v.artifacts) 66)
      Error.capacity
  guard (tablespaces_ok lib v.tablespaces [] []) Error.invalid
  totals ←
      count_artifacts (tablespace_oids v.tablespaces) v.artifacts 0
        (record { base = 0; wal = 0; raw = v.manifest_bytes; stored = 0; used = [] })
  guard
      (totals.base == 1
        && totals.wal == 1
        && leb totals.raw max_backup_bytes
        && leb totals.stored max_stored_bytes)
      Error.capacity

-- `t` of `t, _ := stamp(s)`; Go's zero time where the text is no stamp.
unfoldable pub stamp_or_zero : Library → Text → ℕ
unfolding stamp
stamp_or_zero lib s = elim (stamp lib s) [ none ↦ 0 | some t ↦ t ]

unfoldable pub same_lineage : Commit → Commit → Bool
unfolding text_eq points_to
same_lineage c p =
    text_eq c.kind (codes "differential")
    && text_eq p.kind (codes "full")
    && points_to c.parent_backup_uid p.backup_uid
    && text_eq c.root_backup_uid p.backup_uid
    && text_eq c.repository_id p.repository_id
    && text_eq c.system_identifier p.system_identifier
    && c.postgres_major == p.postgres_major
    && c.timeline == p.timeline
    && c.checksum_version == p.checksum_version
    && text_eq c.capture_instance_uid p.capture_instance_uid
    && text_eq c.postmaster_started_at p.postmaster_started_at
    && points_to c.root_manifest_sha256 p.manifest_sha256

unfoldable pub validate_parent : Library → Commit → Commit → Result (Unit {0})
unfolding same_lineage lsn_or_zero stamp_or_zero
validate_parent lib c p = do
  guard (same_lineage c p) Error.corrupt
  guard
      (leb (lsn_or_zero p.stop_lsn) (lsn_or_zero c.start_lsn)
        && leb (stamp_or_zero lib p.stopped_at) (stamp_or_zero lib c.started_at))
      Error.corrupt
