-- ===== src/Repository/Publication/Publish.antt =====
-- internal/repository/publication.go: `publish`.
use cnpg_backup.Prelude.{
  ℕ, ◌*◌, ◌^◌, Bool, true, not, ◌&&◌, ◌||◌, List, [], ◌∷◌, ◌++◌, Option, none, some, Text, text_eq,
  codes, ◌==◌, leb, length, Result, ok, err, Error, if◌then◌else◌, guard,
}
use cnpg_backup.Repository.Names.Keys.{backup_key, artifact_key}
use cnpg_backup.Repository.Schema.Records.{Artifact, Commit, points_to}
use cnpg_backup.Repository.Schema.Commits.{validate_commit}
use cnpg_backup.Repository.Publication.Files.{File, verify_file}
use cnpg_backup.Repository.Publication.Acts.{
  Act, ◌>>=◌, ◌>>◌, lift, try_act, mark, answer_of, put_key, upload_key, run_check, check_canceled,
}
use cnpg_backup.Repository.Publication.Stored.{Published, fetch_commit}
use cnpg_backup.Repository.Publication.Verify.{
  Repo, manifest_of, expected_of, manifest_key, verify_payload, verify_parent, verify_winner,
}
use cnpg_backup.Repository.Publication.Begin.{Attempt, check_now}

-- What the native caller hands over.
pub record Capture : Type 0 where
  pub commit : Commit
  pub manifest : Option File
  pub files : List (Option File)
  pub has_check : Bool

abbrev pub commit_limit : ℕ
commit_limit = 4 * 2 ^ 20

-- `if a.used { return ErrClosed }; a.used = true`.
unfoldable pub consume : Act (Unit {0})
consume s = if s.used then (err Error.closed, s) else (ok tt, record s { used = true })

unfoldable pub matches_attempt : Attempt → Capture → Bool
unfolding text_eq points_to
matches_attempt a v =
    text_eq v.commit.backup_uid a.claim.backup_uid
    && text_eq v.commit.attempt_id a.claim.attempt_id
    && text_eq v.commit.request_sha256 a.claim.request_sha256
    && text_eq v.commit.kind a.request.requested_kind
    && length v.files == length v.commit.artifacts
    && (not (text_eq v.commit.kind (codes "differential"))
        || points_to a.request.root_backup_uid v.commit.root_backup_uid)

module _ (r : Repo) where
  -- The loop over the local files; there is an artifact for each.
  unfoldable pub verify_files : List (Option File) → List Artifact → Result (Unit {0})
  unfolding verify_file
  verify_files [] parts = ok tt
  verify_files (f ∷ fs) [] = ok tt
  verify_files (f ∷ fs) (a ∷ parts) =
      let rest = verify_files fs parts in
      elim (verify_file r.lib.sha256 r.gunzip f (expected_of a)) [ err e ↦ err e | ok u ↦ rest ]

  unfoldable pub upload : Text → Act (Unit {0})
  unfolding upload_key mark answer_of
  upload key = do e ← upload_key r.world key; mark e; lift (answer_of e)

  unfoldable pub upload_files : Commit → List (Option File) → List Artifact → Act (Unit {0})
  unfolding upload artifact_key
  upload_files c [] parts = lift (ok tt)
  upload_files c (f ∷ fs) [] = lift (ok tt)
  upload_files c (f ∷ fs) (a ∷ parts) = do upload (artifact_key r.id c a); upload_files c fs parts

  -- The uploads, and what is verified behind them.
  unfoldable pub transfer : Capture → Act (Unit {0})
  unfolding upload manifest_key upload_files verify_payload verify_parent run_check check_canceled
  transfer v = do
    upload (manifest_key r v.commit)
    upload_files v.commit v.files v.commit.artifacts
    verify_payload r v.commit
    verify_parent r v.commit
    run_check r.world v.has_check
    check_canceled r.world

  -- All before the commit is written, with the bytes of the commit.
  unfoldable pub prepare : Attempt → Capture → Act Text
  unfolding check_now consume validate_commit matches_attempt verify_parent verify_file verify_files
      transfer
  prepare a v = do
    check_now r a.hold
    consume
    lift (validate_commit r.lib r.id v.commit)
    lift (guard (matches_attempt a v) Error.identity)
    verify_parent r v.commit
    lift (verify_file r.lib.sha256 r.gunzip v.manifest (manifest_of v.commit))
    lift (verify_files v.files v.commit.artifacts)
    transfer v
    let b = r.json.encode_commit v.commit
    lift (guard (leb (length b) commit_limit) Error.capacity)
    lift (ok b)

  -- The read of the winner, whatever the write answered.
  unfoldable pub read_winner : Commit → Option Error → Act Published
  unfolding mark try_act fetch_commit verify_winner text_eq
  read_winner c e = do
    mark e
    got ← try_act (fetch_commit r.world r.lib r.json r.id c.backup_uid)
    p ←
        lift
          (elim got [ err f ↦ elim e [ none ↦ err f | some failure ↦ err failure ] | ok p ↦ ok p ])
    lift (guard (text_eq p.commit.request_sha256 c.request_sha256) Error.identity)
    verify_winner r p.commit p.bytes
    lift (ok p)

  unfoldable pub dispatch : Commit → Text → Act Published
  unfolding put_key read_winner backup_key
  dispatch c b = do
    e ← put_key r.world (backup_key r.id c.backup_uid ++ codes "commit.json") b
    read_winner c e

  unfoldable pub publish : Attempt → Capture → Act Published
  unfolding prepare dispatch
  publish a v = do b ← prepare a v; dispatch v.commit b
