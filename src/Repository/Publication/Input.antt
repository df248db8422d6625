-- ===== src/Repository/Publication/Input.antt =====
-- internal/repository/publication.go: `DownloadInput`.
use cnpg_backup.Prelude.{
  ℕ, zero, suc, none, some, Text, text_eq, codes, get_elem?, Result, ok, err, Error, if◌then◌else◌,
}
use cnpg_backup.Repository.Names.Keys.{artifact_key}
use cnpg_backup.Repository.Schema.Records.{Commit}
use cnpg_backup.Repository.Gate.Holds.{Hold}
use cnpg_backup.Repository.Publication.Files.{File, Expected, verify_file}
use cnpg_backup.Repository.Publication.Acts.{Act, ◌>>=◌, ◌>>◌, lift, download_key}
use cnpg_backup.Repository.Publication.Stored.{fetch_commit, check_live, fetch_request}
use cnpg_backup.Repository.Publication.Verify.{
  Repo, manifest_of, expected_of, manifest_key, read_parent,
}
use cnpg_backup.Repository.Publication.Begin.{check_now}

-- An `int`: `pos n` is n, `negsuc n` is -n - 1.
pub data ℤ : Type 0 where
  pos : ℕ → ℤ
  negsuc : ℕ → ℤ

module _ (r : Repo) where
  -- The key and what is expected of it; -1 is the manifest.
  unfoldable pub input_of : Commit → ℤ → Result (Text × Expected)
  unfolding manifest_key artifact_key
  input_of c (negsuc zero) = ok (manifest_key r c, manifest_of c)
  input_of c (negsuc (suc n)) = err Error.invalid
  input_of c (pos i) = elim (get_elem? c.artifacts i) [
    | none ↦ err Error.invalid
    | some a ↦ ok (artifact_key r.id c a, expected_of a)
  ]

  unfoldable pub check_edge : Commit → Act (Unit {0})
  unfolding read_parent text_eq
  check_edge c =
      if text_eq c.kind (codes "differential")
      then (do p ← read_parent r c; lift (ok tt))
      else lift (ok tt)

  -- The file that the caller's destination then holds.
  unfoldable pub download_input : Hold → Text → ℤ → Act File
  unfolding check_now fetch_commit check_live fetch_request check_edge input_of download_key
      verify_file
  download_input h uid index = do
    check_now r h
    p ← fetch_commit r.world r.lib r.json r.id uid
    check_live r.world r.lib r.json r.id p.commit p.bytes
    req ← fetch_request r.world r.lib r.json r.id p.commit
    check_edge p.commit
    wanted ← lift (input_of p.commit index)
    f ← download_key r.world wanted.0 (Expected.size wanted.1) (Expected.hash wanted.1)
    lift (verify_file r.lib.sha256 r.gunzip (some f) wanted.1)
    lift (ok f)
