-- ===== src/Repository/Publication/Begin.antt =====
-- internal/repository/publication.go: `begin`, which freezes a request and claims an attempt.
use cnpg_backup.Prelude.{
  ◌&&◌, ◌++◌, Option, none, some, Text, text_eq, codes, Result, ok, err, Error, store, not_found,
  if◌then◌else◌, guard,
}
use cnpg_backup.Repository.Names.Keys.{backup_key, attempt_key}
use cnpg_backup.Repository.Schema.Records.{Request, validate_request}
use cnpg_backup.Repository.Gate.Holds.{Hold, check_hold}
use cnpg_backup.Repository.Publication.Acts.{
  Act, ◌>>=◌, ◌>>◌, lift, try_act, mark, answer_of, read_key, put_key,
}
use cnpg_backup.Repository.Publication.Stored.{Claim, Published, fetch_commit}
use cnpg_backup.Repository.Publication.Verify.{Repo, verify_winner}

-- `Attempt`, without the flag `used`, which the state keeps.
pub record Attempt : Type 0 where
  pub hold : Hold
  pub request : Request
  pub claim : Claim

pub data Begun : Type 0 where
  fresh : Attempt → Begun
  replayed : Published → Begun

-- What `UUID` answers, and the process.
pub record Process : Type 0 where
  pub id : Text
  pub uuid : Text

module _ (r : Repo) where
  -- `h.check(ctx)`, of the hold with its present flag.
  unfoldable pub check_now : Hold → Act (Unit {0})
  unfolding check_hold
  check_now h s =
      (check_hold r.id r.gate_size (record h { uncertain = s.uncertain }) (r.world.gate s.calls), s)

  -- The request is written once; another's request must be the same.
  unfoldable pub freeze : Request → Text → Act (Unit {0})
  unfolding put_key mark read_key try_act text_eq backup_key
  freeze req b = do
    e ← put_key r.world (backup_key r.id req.backup_uid ++ codes "request.json") b
    mark e
    elim e [
      | none ↦ lift (ok tt)
      | some failure ↦ do
        got ← try_act (read_key r.world (backup_key r.id req.backup_uid ++ codes "request.json"))
        o ← lift (elim got [ err f ↦ err failure | ok o ↦ ok o ])
        lift (elim (r.json.decode_request o.content) [ err f ↦ err Error.identity | ok q ↦ ok tt ])
        lift (guard (text_eq (r.lib.sha256 o.content) (r.lib.sha256 b)) Error.identity)
    ]

  -- The full backup that a differential request names.
  unfoldable pub check_root : Option Text → Act (Unit {0})
  unfolding fetch_commit text_eq verify_winner
  check_root none = lift (ok tt)
  check_root (some root) = do
    p ← fetch_commit r.world r.lib r.json r.id root
    lift (guard (text_eq p.commit.kind (codes "full")) Error.corrupt)
    verify_winner r p.commit p.bytes

  unfoldable pub claim_attempt : Hold → Request → Claim → Act Begun
  unfolding put_key mark answer_of attempt_key
  claim_attempt h req cl = do
    e ←
        put_key r.world (attempt_key r.id cl.backup_uid cl.attempt_id ++ codes "claim.json")
          (r.json.encode_claim cl)
    mark e
    lift (answer_of e)
    lift (ok (fresh (record { hold = h; request = req; claim = cl })))

  -- `if h.uncertain`.
  unfoldable pub check_certain : Act (Unit {0})
  check_certain s = (if s.uncertain then err Error.uncertain else ok tt, s)

  -- What follows the read of a commit under the request's name.
  unfoldable pub settle_begin : Hold → Process → Request → Text → Result Published → Act Begun
  unfolding text_eq verify_winner check_certain check_root claim_attempt
  settle_begin h process req hash (ok p) = do
    lift (guard (text_eq p.commit.request_sha256 hash) Error.identity)
    verify_winner r p.commit p.bytes
    lift (ok (replayed p))
  settle_begin h process req hash (err (store not_found a)) = do
    check_certain
    check_root req.root_backup_uid
    claim_attempt h req (record {
      schema = 1;
      repository_id = r.id.repository_id;
      backup_uid = req.backup_uid;
      attempt_id = process.uuid;
      process_id = process.id;
      request_sha256 = hash;
    })
  settle_begin h process req hash (err e) = lift (err e)

  unfoldable pub begin : Hold → Process → Request → Act Begun
  unfolding check_now text_eq validate_request freeze try_act fetch_commit settle_begin
  begin h process req = do
    check_now h
    lift (
        guard
          (text_eq h.holder.kind (codes "backup") && text_eq req.backup_uid h.holder.operation_id)
          Error.identity)
    lift (validate_request req r.id)
    let b = r.json.encode_request req
    freeze req b
    c ← try_act (fetch_commit r.world r.lib r.json r.id req.backup_uid)
    settle_begin h process req (r.lib.sha256 b) c
