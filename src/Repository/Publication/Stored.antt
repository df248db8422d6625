-- ===== src/Repository/Publication/Stored.antt =====
-- internal/repository/repository.go and inventory.go: the reads of a backup's permanent records.
use cnpg_backup.Prelude.{
  ℕ, Bool, ◌&&◌, ◌++◌, Text, text_eq, codes, ◌==◌, Result, ok, err, Error, guard,
}
use cnpg_backup.Repository.Names.Hex.{valid_id, valid_hash}
use cnpg_backup.Repository.Names.Keys.{backup_key, attempt_key}
use cnpg_backup.Repository.Schema.Records.{Library, Identity, Request, Retirement, Commit}
use cnpg_backup.Repository.Schema.Stored.{read_commit, live, request_for}
use cnpg_backup.Repository.Publication.Acts.{World, Act, ◌>>=◌, ◌>>◌, lift, try_act, read_key}

-- `Claim`.
pub record Claim : Type 0 where
  pub schema : ℕ
  pub repository_id : Text
  pub backup_uid : Text
  pub attempt_id : Text
  pub process_id : Text
  pub request_sha256 : Text

-- JSON: `json.Marshal`, and `strict` with its limit.
pub record Json : Type 0 where
  pub encode_request : Request → Text
  pub encode_claim : Claim → Text
  pub encode_commit : Commit → Text
  pub decode_request : Text → Result Request
  pub decode_claim : Text → Result Claim
  pub decode_commit : Text → Result Commit
  pub decode_retirement : Text → Result Retirement

-- A commit, its bytes and its time of publication.
pub record Published : Type 0 where
  pub commit : Commit
  pub bytes : Text
  pub published_at : ℕ

unfoldable pub claim_ok : Identity → Text → Text → Claim → Bool
unfolding text_eq valid_id valid_hash
claim_ok id uid attempt cl =
    cl.schema == 1
    && text_eq cl.repository_id id.repository_id
    && text_eq cl.backup_uid uid
    && text_eq cl.attempt_id attempt
    && valid_id cl.process_id
    && valid_hash cl.request_sha256

module _ (world : World) (lib : Library) (json : Json) (id : Identity) where
  unfoldable pub fetch_commit : Text → Act Published
  unfolding read_commit read_key backup_key valid_id
  fetch_commit uid = do
    lift (guard (valid_id uid) Error.invalid)
    o ← read_key world (backup_key id uid ++ codes "commit.json")
    v ← lift (read_commit lib id json.decode_commit (ok o.content) uid)
    lift (ok (record { commit = v.0; bytes = v.1; published_at = o.modified }))

  unfoldable pub check_live : Commit → Text → Act (Unit {0})
  unfolding live read_key backup_key try_act
  check_live c b = do
    r ← try_act (read_key world (backup_key id c.backup_uid ++ codes "retired.json"))
    lift (live lib id json.decode_retirement (elim r [ err e ↦ err e | ok o ↦ ok o.content ]) c b)

  unfoldable pub fetch_claim : Text → Text → Act Claim
  unfolding claim_ok read_key attempt_key valid_id
  fetch_claim uid attempt = do
    lift (guard (valid_id uid && valid_id attempt) Error.invalid)
    o ← read_key world (attempt_key id uid attempt ++ codes "claim.json")
    cl ← lift (elim (json.decode_claim o.content) [ err e ↦ err Error.corrupt | ok v ↦ ok v ])
    lift (guard (claim_ok id uid attempt cl) Error.corrupt)
    lift (ok cl)

  -- The tests on the request come before the claim is read.
  unfoldable pub fetch_request : Commit → Act Request
  unfolding request_for read_key backup_key fetch_claim text_eq
  fetch_request c = do
    o ← read_key world (backup_key id c.backup_uid ++ codes "request.json")
    req ← lift (request_for lib id json.decode_request (ok o.content) (ok c.request_sha256) c)
    cl ← fetch_claim c.backup_uid c.attempt_id
    lift (guard (text_eq cl.request_sha256 c.request_sha256) Error.corrupt)
    lift (ok req)
