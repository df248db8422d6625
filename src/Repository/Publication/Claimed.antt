-- ===== src/Repository/Publication/Claimed.antt =====
-- internal/repository/publication.go: what a fresh attempt stands for.
use cnpg_backup.Prelude.{
  ◌≡◌, refl, ap, sym, ◌∙◌, List, ◌++◌, Option, none, some, text_eq, text_eq→eq, codes, ◌&&◌, Result,
  ok, err, Error, store, not_found, guard, guard_passed, ok-injective, and_left, and_right,
}
use cnpg_backup.Repository.Names.Keys.{attempt_key}
use cnpg_backup.Repository.Schema.Records.{Request, validate_request}
use cnpg_backup.Repository.Gate.Holds.{Hold}
use cnpg_backup.Repository.Publication.Acts.{
  Call, State, >>=-eq-ok, lift, try_act, mark, answer_of, put_key,
}
use cnpg_backup.Repository.Publication.Stored.{Claim, Published, fetch_commit}
use cnpg_backup.Repository.Publication.Verify.{Repo, verify_winner}
use cnpg_backup.Repository.Publication.Begin.{
  Attempt, Begun, fresh, replayed, Process, check_now, freeze, check_root, claim_attempt,
  check_certain, settle_begin, begin,
}
use cnpg_backup.Repository.Publication.Payload.{lift-eq-ok}

answered_none : (e : Option Error) → answer_of e ≡ ok tt → e ≡ none
unfolding answer_of
answered_none none h = refl
answered_none (some e) h = absurd cc

fresh-injective : {a b : Attempt} → fresh a ≡ fresh b → a ≡ b
fresh-injective h = cc

apart : {C : Type 0} (p : Published) (a : Attempt) → replayed p ≡ fresh a → C
apart p a h = absurd cc

err_apart : {C : Type 0} {e : Error} {b : Begun} → ◌≡◌ {A = Result Begun} (err e) (ok b) → C
err_apart h = absurd cc

module _ (r : Repo) (process : Process) (req : Request) where
  -- The claim of this request under the process's new identifier.
  abbrev pub claim_of : Claim
  claim_of = record {
    schema = 1;
    repository_id = r.id.repository_id;
    backup_uid = req.backup_uid;
    attempt_id = process.uuid;
    process_id = process.id;
    request_sha256 = r.lib.sha256 (r.json.encode_request req);
  }

  pub record IsClaimed (h : Hold) (a : Attempt) : Type 0 where
    pub same_hold : a.hold ≡ h
    pub same_request : a.request ≡ req
    pub own_claim : a.claim ≡ claim_of
    pub operation : req.backup_uid ≡ h.holder.operation_id
    pub kind : h.holder.kind ≡ codes "backup"
    pub valid : validate_request req r.id ≡ ok tt
    pub claimed_at : List Call
    pub written :
        r.world.put claimed_at
          (attempt_key r.id req.backup_uid process.uuid ++ codes "claim.json")
          (r.json.encode_claim claim_of)
        ≡ none

  record IsWritten (h : Hold) (a : Attempt) : Type 0 where
    made : fresh (record { hold = h; request = req; claim = claim_of }) ≡ fresh a
    at : List Call
    accepted :
        r.world.put at
          (attempt_key r.id req.backup_uid process.uuid ++ codes "claim.json")
          (r.json.encode_claim claim_of)
        ≡ none

  claim_attempt-IsWritten :
      (h : Hold) (s t : State) (a : Attempt)
      → claim_attempt r h req claim_of s ≡ (ok (fresh a), t)
      → IsWritten h a
  unfolding claim_attempt put_key
  claim_attempt-IsWritten h s t a e =
      let key = attempt_key r.id req.backup_uid process.uuid ++ codes "claim.json" in
      let (answer, m, p, e) =
        >>=-eq-ok (put_key r.world key (r.json.encode_claim claim_of)) _ s e in
      let (u, n, q, e) = >>=-eq-ok (mark answer) _ m e in
      let (u, o, w, e) = >>=-eq-ok (lift (answer_of answer)) _ n e in
      record {
        made =
            ok-injective
              (lift-eq-ok (ok (fresh (record { hold = h; request = req; claim = claim_of }))) o
                e).0;
        at = s.calls;
        accepted =
            ok-injective (ap (λ x. x.0) p)
            ∙ answered_none answer (lift-eq-ok (answer_of answer) n w).0;
      }

  settled_lem :
      (h : Hold) (found : Result Published) (s t : State) (a : Attempt)
      → settle_begin r h process req (r.lib.sha256 (r.json.encode_request req)) found s
        ≡ (ok (fresh a), t)
      → IsWritten h a
  unfolding settle_begin
  settled_lem h (ok p) s t a e =
      let (u, m, x, e) =
        >>=-eq-ok
          (lift (
            guard (text_eq p.commit.request_sha256 (r.lib.sha256 (r.json.encode_request req)))
              Error.identity))
          _ s e in
      let (u, n, y, e) = >>=-eq-ok (verify_winner r p.commit p.bytes) _ m e in
      apart p a (ok-injective (lift-eq-ok (ok (replayed p)) n e).0)
  settled_lem h (err (store not_found b)) s t a e =
      let (u, m, x, e) = >>=-eq-ok (check_certain r) _ s e in
      let (u, n, y, e) = >>=-eq-ok (check_root r req.root_backup_uid) _ m e in
      claim_attempt-IsWritten h n t a e
  settled_lem h (err e) s t a p = err_apart (lift-eq-ok (err e) s p).0

  -- If `Begin` hands out a fresh attempt, the hold is one of a backup for the request's operation, the
  -- request is valid, the attempt carries the hold, the request and its digest under a new identifier,
  -- and the store accepted the write of just this claim.
  pub begin-IsClaimed :
      (h : Hold) (s t : State) (a : Attempt)
      → begin r h process req s ≡ (ok (fresh a), t)
      → IsClaimed h a
  unfolding begin
  begin-IsClaimed h s t a e =
      let b = r.json.encode_request req in
      let (u, m, p, e) = >>=-eq-ok (check_now r h) _ s e in
      let (u, n, q, e) =
        >>=-eq-ok
          (lift (
            guard
              (text_eq h.holder.kind (codes "backup")
                && text_eq req.backup_uid h.holder.operation_id)
              Error.identity))
          _ m e in
      let own =
        guard_passed
          (text_eq h.holder.kind (codes "backup") && text_eq req.backup_uid h.holder.operation_id)
          Error.identity
          (lift-eq-ok
            (guard
              (text_eq h.holder.kind (codes "backup")
                && text_eq req.backup_uid h.holder.operation_id)
              Error.identity)
            m q).0 in
      let (u, o, w, e) = >>=-eq-ok (lift (validate_request req r.id)) _ n e in
      let (u, x, y, e) = >>=-eq-ok (freeze r req b) _ o e in
      let (found, z, v, e) =
        >>=-eq-ok (try_act (fetch_commit r.world r.lib r.json r.id req.backup_uid)) _ x e in
      let done = settled_lem h found z t a e in
      let made = fresh-injective done.made in
      record {
        same_hold = sym (ap Attempt.hold made);
        same_request = sym (ap Attempt.request made);
        own_claim = sym (ap Attempt.claim made);
        operation = text_eq→eq req.backup_uid h.holder.operation_id (
            and_right (text_eq h.holder.kind (codes "backup"))
              (text_eq req.backup_uid h.holder.operation_id) own);
        kind = text_eq→eq h.holder.kind (codes "backup") (
            and_left (text_eq h.holder.kind (codes "backup"))
              (text_eq req.backup_uid h.holder.operation_id) own);
        valid = (lift-eq-ok (validate_request req r.id) n w).0;
        claimed_at = done.at;
        written = done.accepted;
      }
