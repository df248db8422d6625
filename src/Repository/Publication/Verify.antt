-- ===== src/Repository/Publication/Verify.antt =====
-- internal/repository/publication.go: what is downloaded and verified of a backup.
use cnpg_backup.Prelude.{
  ℕ, List, [], ◌∷◌, ◌++◌, none, some, Text, text_eq, codes, ok, err, Error, if◌then◌else◌,
}
use cnpg_backup.Wal.Objects.{Member}
use cnpg_backup.Repository.Gate.{Gate}
use cnpg_backup.Repository.Names.Keys.{attempt_key, artifact_key}
use cnpg_backup.Repository.Schema.Records.{Library, Identity, Artifact, Commit}
use cnpg_backup.Repository.Schema.Commits.{validate_parent}
use cnpg_backup.Repository.Publication.Files.{Expected, verify_file}
use cnpg_backup.Repository.Publication.Acts.{World, Act, ◌>>=◌, ◌>>◌, lift, download_key, make_temp}
use cnpg_backup.Repository.Publication.Stored.{Json, fetch_commit, check_live, fetch_request}

abbrev pub manifest_of : Commit → Expected
manifest_of c = record {
  size = c.manifest_bytes;
  hash = c.manifest_sha256;
  compression = codes "none";
  raw = c.manifest_bytes;
  raw_hash = c.manifest_sha256;
}

abbrev pub expected_of : Artifact → Expected
expected_of a = record {
  size = a.stored_bytes;
  hash = a.stored_sha256;
  compression = a.compression;
  raw = a.raw_bytes;
  raw_hash = a.raw_sha256;
}

-- A repository and what it runs on.
pub record Repo : Type 0 where
  pub world : World
  pub lib : Library
  pub json : Json
  pub id : Identity
  pub gunzip : Text → Member
  pub gate_size : Gate → ℕ

module _ (r : Repo) where
  unfoldable pub manifest_key : Commit → Text
  unfolding attempt_key
  manifest_key c = attempt_key r.id c.backup_uid c.attempt_id ++ codes "manifest.pg.json"

  unfoldable pub download_verify : Text → Expected → Act (Unit {0})
  unfolding make_temp download_key verify_file
  download_verify key want = do
    make_temp r.world
    f ← download_key r.world key want.size want.hash
    lift (verify_file r.lib.sha256 r.gunzip (some f) want)

  -- The loop over the artifacts.
  unfoldable pub verify_artifacts : Commit → List Artifact → Act (Unit {0})
  unfolding download_verify artifact_key
  verify_artifacts c [] = lift (ok tt)
  verify_artifacts c (a ∷ rest) = do
    download_verify (artifact_key r.id c a) (expected_of a)
    verify_artifacts c rest

  unfoldable pub verify_payload : Commit → Act (Unit {0})
  unfolding download_verify manifest_key verify_artifacts
  verify_payload c = do
    download_verify (manifest_key c) (manifest_of c)
    verify_artifacts c c.artifacts

  -- A parent that is missing is the nil that a valid differential does not have.
  unfoldable pub read_parent : Commit → Act Commit
  unfolding fetch_commit validate_parent check_live fetch_request
  read_parent c = do
    uid ← lift (elim c.parent_backup_uid [ none ↦ err Error.invalid | some p ↦ ok p ])
    p ← fetch_commit r.world r.lib r.json r.id uid
    lift (validate_parent r.lib c p.commit)
    check_live r.world r.lib r.json r.id p.commit p.bytes
    req ← fetch_request r.world r.lib r.json r.id p.commit
    lift (ok p.commit)

  unfoldable pub verify_parent : Commit → Act (Unit {0})
  unfolding read_parent verify_payload text_eq
  verify_parent c =
      if text_eq c.kind (codes "full")
      then lift (ok tt)
      else (do p ← read_parent c; verify_payload p)

  unfoldable pub verify_winner : Commit → Text → Act (Unit {0})
  unfolding check_live fetch_request verify_parent verify_payload
  verify_winner c b = do
    check_live r.world r.lib r.json r.id c b
    req ← fetch_request r.world r.lib r.json r.id c
    verify_parent c
    verify_payload c
