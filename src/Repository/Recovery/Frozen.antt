-- ===== src/Repository/Recovery/Frozen.antt =====
-- plan.go and coverage.go: the frozen plan and what it requires.
-- `operation` stands for `RestoreOperationID`, which hashes its arguments by SHA-256.
use cnpg_backup.Prelude.{
  ℕ, ◌-◌, Bool, false, not, ◌&&◌, ◌||◌, List, [], ◌∷◌, Option, none, some, Text, text_eq, codes,
  ltb, leb, ◌==◌, if◌then◌else◌, length, any, Result, ok, err, Error, guard, ◌>>=◌, ◌>>◌,
}
use cnpg_backup.Repository.Names.Hex.{valid_id}
use cnpg_backup.Repository.Names.Lsn.{parse_lsn, lsn_or_zero}
use cnpg_backup.Repository.Names.Wal.{history, segment, wal_shape, wal_timeline, segment_start}
use cnpg_backup.Repository.Schema.Records.{Library, Identity, Commit, WalRange, validate_identity}
use cnpg_backup.Repository.Schema.Commits.{validate_commit, validate_parent}
use cnpg_backup.Repository.Recovery.Target.{Target, Timeline, target_is, validate_target}
use cnpg_backup.Repository.Recovery.Path.{path_timelines_ok, last_timeline}
use cnpg_backup.Repository.Recovery.Eligible.{eligible, path_from}

pub record Plan : Type 0 where
  pub schema : ℕ
  pub source : Identity
  pub destination_repository_id : Text
  pub target_cluster_uid : Text
  pub bootstrap_sha256 : Text
  pub operation_id : Text
  pub lifetime_hold_id : Text
  pub reader_hold_id : Text
  pub target : Target
  pub path : List Timeline
  pub chain : List Commit
  pub required_archive : List WalRange

unfoldable pub chain_ok : Library → Identity → List Commit → Result Commit
unfolding validate_commit validate_parent text_eq
chain_ok lib id [] = err Error.capacity
chain_ok lib id (c ∷ []) = do
  validate_commit lib id c
  guard (text_eq c.kind (codes "full")) Error.corrupt
  ok c
chain_ok lib id (c ∷ d ∷ []) = do
  validate_commit lib id c
  validate_commit lib id d
  guard (text_eq c.kind (codes "full")) Error.corrupt
  validate_parent lib d c
  ok d
chain_ok lib id (c ∷ d ∷ e ∷ more) = err Error.capacity

-- `ParseLSN` of the next fork, where there is one.
unfoldable pub next_fork : List Timeline → Option ℕ
unfolding lsn_or_zero
next_fork [] = none
next_fork (n ∷ ts) = some (elim n.fork_lsn [ none ↦ 0 | some s ↦ lsn_or_zero s ])

-- The place on the path: a timeline and those behind it.
pub record Place : Type 0 where
  pub timeline : ℕ
  pub later : List Timeline

unfoldable pub advance : Place → ℕ → Result Place
unfolding next_fork
advance at end = elim at.later [
  | [] ↦ ok at
  | n ∷ ts ↦ elim (next_fork (n ∷ ts)) [
    | none ↦ ok at
    | some fork ↦ do
      guard (leb end fork) Error.invalid
      ok (if end == fork then record { timeline = n.id; later = ts } else at)
  ]
]

-- The loop over the required ranges: each begins where the last one ended, on the place's timeline.
unfoldable pub follow_ranges : List WalRange → ℕ → Place → Result Place
unfolding parse_lsn advance
follow_ranges [] pos at = ok at
follow_ranges (w ∷ ws) pos at = do
  start ← parse_lsn w.start_lsn
  end ← parse_lsn w.end_lsn
  guard (start == pos && ltb start end && w.timeline == at.timeline) Error.invalid
  next ← advance at end
  follow_ranges ws end next

module _ (lib : Library) (operation : Text → Text → Result Text) where
  unfoldable pub plan_identity : Plan → Result (Unit {0})
  unfolding validate_identity valid_id text_eq
  plan_identity p = do
    guard (p.schema == 1) Error.identity
    elim (validate_identity lib p.source) [ err e ↦ err Error.identity | ok u ↦ ok tt ]
    guard
        (valid_id p.destination_repository_id
          && not (text_eq p.destination_repository_id p.source.repository_id)
          && valid_id p.target_cluster_uid
          && not (text_eq p.target_cluster_uid p.source.writer_cluster_uid)
          && valid_id p.reader_hold_id)
        Error.identity
    elim (operation p.target_cluster_uid p.bootstrap_sha256) [
      | err e ↦ err Error.identity
      | ok op ↦ guard (text_eq op p.operation_id && text_eq p.lifetime_hold_id op) Error.identity
    ]

  unfoldable pub validate_plan : Plan → Result (Unit {0})
  unfolding plan_identity validate_target chain_ok path_timelines_ok last_timeline eligible
      path_from follow_ranges lsn_or_zero
  validate_plan p = do
    plan_identity p
    validate_target lib p.target
    guard
        (leb 1 (length p.chain)
          && leb (length p.chain) 2
          && leb 1 (length p.path)
          && leb (length p.path) 1024
          && leb (length p.required_archive) 1024)
        Error.capacity
    selected ← chain_ok lib p.source p.chain
    guard (path_timelines_ok p.path) Error.invalid
    guard (last_timeline p.path == p.target.timeline) Error.invalid
    guard (eligible lib selected p.target p.path) Error.invalid
    later ← elim (path_from selected.timeline p.path) [ none ↦ err Error.invalid | some l ↦ ok l ]
    at ←
        follow_ranges p.required_archive (lsn_or_zero selected.bundled_wal_end_lsn)
          (record { timeline = selected.timeline; later = later })
    guard
        (length at.later == 0
          || length p.required_archive == 0 && target_is p.target (codes "immediate"))
        Error.invalid

-- `intersects` of coverage.go: the segment from `start` on meets the range.
unfoldable pub intersects : (timeline start size : ℕ) → WalRange → Bool
unfolding lsn_or_zero
intersects timeline start size w =
    let a = lsn_or_zero w.start_lsn in
    w.timeline == timeline
    && ltb start (lsn_or_zero w.end_lsn)
    && (ltb a start || ltb (a - start) size)

unfoldable pub last_commit : List Commit → Option Commit
last_commit [] = none
last_commit (c ∷ []) = some c
last_commit (c ∷ d ∷ cs) = last_commit (d ∷ cs)

-- `Coverage` of a valid plan: whether the bundle has the file, and whether the archive must.
unfoldable pub coverage_of : Plan → Text → Result (Bool × Bool)
unfolding wal_timeline wal_shape segment_start intersects last_commit any
coverage_of p name = do
  let size = p.source.wal_segment_bytes
  timeline ← wal_timeline name size
  elim (wal_shape name) [
    | none ↦ err Error.invalid
    | some history ↦ ok (false, ltb 1 timeline && any (λ t. t.id == timeline) p.path)
    | some segment ↦
        let meets = intersects timeline (segment_start name size) size in
        ok (
          elim (last_commit p.chain) [ none ↦ false | some c ↦ any meets c.wal_ranges ],
          any meets p.required_archive,
        )
    | some other ↦ ok (false, false)
  ]

-- `Plan.Coverage`.
unfoldable pub plan_coverage :
    Library → (Text → Text → Result Text) → Plan → Text → Result (Bool × Bool)
unfolding validate_plan coverage_of
plan_coverage lib operation p name = do validate_plan lib operation p; coverage_of p name
