-- ===== src/Repository/Recovery/Select.antt =====
-- plan.go: `Select` freezes a plan for the newest eligible backup, `ValidatePlan` readmits one.
-- `owned` says that the catalog belongs to this hold; what storage answers enters by `Source`.
use cnpg_backup.Prelude.{
  ℕ, Bool, true, false, not, ◌&&◌, List, [], ◌∷◌, none, some, Text, text_eq, codes, leb, ◌==◌,
  if◌then◌else◌, length, Result, ok, err, Error, guard, ◌>>=◌, ◌>>◌,
}
use cnpg_backup.Repository.Schema.Records.{Library, Identity, Commit, is_none}
use cnpg_backup.Repository.Gate.{Gate, Round}
use cnpg_backup.Repository.Gate.Holds.{Hold, check_hold}
use cnpg_backup.Repository.Recovery.Target.{Timeline, validate_target}
use cnpg_backup.Repository.Recovery.Eligible.{choose}
use cnpg_backup.Repository.Recovery.Frozen.{Plan, validate_plan}

-- The answers of `readCommit`, `verifyWinner` and the gate, and the comparison of `Identity` and of
-- the digests of two commits.
pub record Source : Type 0 where
  pub gate : Round
  pub commit : Text → Result Commit
  pub winner : Commit → Result (Unit {0})
  pub same_source : Identity → Bool
  pub same_commit : Commit → Commit → Bool

-- The shape of the path that `eligible` relies on.
unfoldable pub forks_given : List Timeline → Bool
unfolding is_none
forks_given [] = true
forks_given (t ∷ ts) = not (t.id == 0) && not (is_none t.fork_lsn) && forks_given ts

unfoldable pub path_shape_ok : List Timeline → Bool
unfolding forks_given is_none
path_shape_ok [] = false
path_shape_ok (t ∷ ts) =
    leb (length (t ∷ ts)) 1024 && not (t.id == 0) && is_none t.fork_lsn && forks_given ts

-- The chain of a commit: itself, behind its parent if it is a differential.
unfoldable pub chain_of : Source → Commit → Result (List Commit)
unfolding text_eq
chain_of source c =
    if text_eq c.kind (codes "differential")
    then elim c.parent_backup_uid [
      | none ↦ err Error.foreign
      | some uid ↦ do p ← source.commit uid; ok (p ∷ c ∷ [])
    ]
    else ok (c ∷ [])

module _ (lib : Library) (operation : Text → Text → Result Text) (id : Identity)
    (encoded_size : Gate → ℕ) where
  -- What `Select` does with the commit it has chosen.
  unfoldable pub freeze : Hold → Source → Plan → Commit → Result Plan
  unfolding check_hold chain_of validate_plan
  freeze h source template chosen = do
    check_hold id encoded_size h source.gate
    c ← source.commit chosen.backup_uid
    source.winner c
    chain ← chain_of source c
    let p : Plan = record template {
      schema = 1;
      source = id;
      target_cluster_uid = h.holder.target_cluster_uid;
      operation_id = h.holder.operation_id;
      lifetime_hold_id = h.holder.operation_id;
      reader_hold_id = h.holder.id;
      chain = chain;
    }
    validate_plan lib operation p
    ok p

  unfoldable pub select :
      Hold → (owned : Bool) → Result (List (Commit × Bool)) → Source → Plan → Result Plan
  unfolding validate_target path_shape_ok choose freeze text_eq
  select h owned catalog source template = do
    guard (owned && text_eq h.holder.kind (codes "restore-reader")) Error.identity
    elim (validate_target lib template.target) [ err e ↦ err Error.invalid | ok u ↦ ok tt ]
    guard (path_shape_ok template.path) Error.invalid
    entries ← catalog
    elim (choose lib template.target template.path entries none) [
      | none ↦ err Error.blocked
      | some c ↦ freeze h source template c
    ]

  unfoldable pub commits_unchanged : Source → List Commit → Result (Unit {0})
  commits_unchanged source [] = ok tt
  commits_unchanged source (c ∷ cs) = do
    got ← source.commit c.backup_uid
    guard (source.same_commit c got) Error.identity
    source.winner got
    commits_unchanged source cs

  unfoldable pub readmit_plan : Hold → Source → Plan → Result Plan
  unfolding check_hold validate_plan commits_unchanged text_eq
  readmit_plan h source p = do
    check_hold id encoded_size h source.gate
    guard (text_eq h.holder.kind (codes "restore-reader")) Error.identity
    elim (validate_plan lib operation p) [ err e ↦ err Error.identity | ok u ↦ ok tt ]
    guard
        (source.same_source p.source
          && text_eq p.target_cluster_uid h.holder.target_cluster_uid
          && text_eq p.operation_id h.holder.operation_id)
        Error.identity
    commits_unchanged source p.chain
    ok (record p { reader_hold_id = h.holder.id })
