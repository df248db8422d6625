-- ===== src/Repository/Schema/Stored.antt =====
-- internal/repository/repository.go: reading the permanent records of a backup back.
-- The object that storage answers and the strict JSON decoding of its bytes are parameters.
use cnpg_backup.Prelude.{
  ◌≡◌, sym, ap, subst, ◌∙◌, text_eq→eq, guard-eq-ok, >>=-eq-ok, ok-injective, not, ◌&&◌, ◌||◌, Text,
  text_eq, codes, Result, ok, err, Error, store, not_found, guard, ◌>>=◌, ◌>>◌,
}
use cnpg_backup.Repository.Names.Hex.{valid_id}
use cnpg_backup.Repository.Schema.Records.{
  Library, Identity, Request, Retirement, Commit, points_to, validate_request, validate_retirement,
}
use cnpg_backup.Repository.Schema.Commits.{validate_commit}

module _ (lib : Library) (id : Identity) where
  -- `readCommit`: the commit and its bytes.
  unfoldable pub read_commit :
      (decode : Text → Result Commit) → (read : Result Text) → (uid : Text) → Result (Commit × Text)
  unfolding validate_commit valid_id text_eq
  read_commit decode read uid = do
    guard (valid_id uid) Error.invalid
    b ← read
    c ← decode b
    validate_commit lib id c
    guard (text_eq c.backup_uid uid) Error.corrupt
    ok (c, b)

  -- `live`: the success is that no retirement is stored; a valid one is the error "retired".
  unfoldable pub live :
      (decode : Text → Result Retirement) → (read : Result Text) → Commit → Text → Result (Unit {0})
  unfolding validate_retirement
  live decode read c b = elim read [
    | err (store not_found a) ↦ ok tt
    | err e ↦ err e
    | ok rb ↦ elim (decode rb) [
      | err e ↦ err Error.corrupt
      | ok ret ↦ elim (validate_retirement ret id c.backup_uid (lib.sha256 b)) [
        | err e ↦ err Error.corrupt
        | ok u ↦ err Error.retired
      ]
    ]
  ]

  -- `requestFor`; `claim` is the request's digest in the claim that is read.
  unfoldable pub request_for :
      (decode : Text → Result Request) → (read claim : Result Text) → Commit → Result Request
  unfolding validate_request points_to text_eq
  request_for decode read claim c = do
    b ← read
    req ← elim (decode b) [ err e ↦ err Error.corrupt | ok r ↦ ok r ]
    elim (validate_request req id) [ err e ↦ err Error.corrupt | ok u ↦ ok tt ]
    guard
        (text_eq (lib.sha256 b) c.request_sha256
          && text_eq req.backup_uid c.backup_uid
          && text_eq req.requested_kind c.kind)
        Error.corrupt
    guard
        (not (text_eq c.kind (codes "differential"))
          || points_to req.root_backup_uid c.root_backup_uid)
        Error.corrupt
    digest ← claim
    guard (text_eq digest c.request_sha256) Error.corrupt
    ok req

-- What a commit that was read back has passed.
pub record IsRead (lib : Library) (id : Identity) (decode : Text → Result Commit)
    (uid content : Text) (w : Commit × Text) : Type 0 where
  pub whole : w.1 ≡ content
  pub decoded : decode w.1 ≡ ok w.0
  pub valid : validate_commit lib id w.0 ≡ ok tt
  pub backup : w.0.backup_uid ≡ uid

pub read_commit-IsRead :
    (lib : Library) (id : Identity) (decode : Text → Result Commit) (uid content : Text)
    (w : Commit × Text)
    → read_commit lib id decode (ok content) uid ≡ ok w
    → IsRead lib id decode uid content w
unfolding read_commit
read_commit-IsRead lib id decode uid content w h =
    let (a, h) = guard-eq-ok (valid_id uid) Error.invalid _ h in
    let (c, b, h) = >>=-eq-ok (decode content) _ h in
    let (u, d, h) = >>=-eq-ok (validate_commit lib id c) _ h in
    let (e, h) = guard-eq-ok (text_eq c.backup_uid uid) Error.corrupt _ h in
    let same = ok-injective h in
    record {
      whole = sym (ap (λ q. q.1) same);
      decoded = subst (λ q. decode q.1 ≡ ok q.0) same b;
      valid = subst (λ q. validate_commit lib id q.0 ≡ ok tt) same d;
      backup = sym (ap (λ q. q.0.backup_uid) same) ∙ text_eq→eq c.backup_uid uid e;
    }
