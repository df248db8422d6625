-- ===== src/Repository/Publication/Returned.antt =====
-- internal/repository/publication.go: what `publish` returns.
use cnpg_backup.Prelude.{
  ◌≡◌, ap, ap₂, sym, subst, ◌∙◌, inl, inr, List, ◌∷◌, Option, none, some, Text, text_eq, text_eq→eq,
  Result, ok, err, Error, ok-injective, guard, guard_passed, Bool-cases,
}
use cnpg_backup.Repository.Gate.{ambiguous}
use cnpg_backup.Repository.Publication.Acts.{
  Call, read_object, put_object, State, Act, >>=-eq-ok, lift, try_act, mark, put_key, record_call,
}
use cnpg_backup.Repository.Publication.Stored.{Published, fetch_commit}
use cnpg_backup.Repository.Publication.Verify.{Repo, verify_winner}
use cnpg_backup.Repository.Publication.Begin.{Attempt}
use cnpg_backup.Repository.Publication.Publish.{Capture, prepare, read_winner, dispatch, publish}
use cnpg_backup.Repository.Publication.Payload.{lift-eq-ok}
use cnpg_backup.Repository.Publication.Fetched.{commit_key, IsFetched, fetch_commit-IsFetched}
use cnpg_backup.Repository.Publication.Quiet.{puts, Extends, quiet_ok, verify_winner-IsQuiet}
use cnpg_backup.Repository.Publication.Ready.{prepare-IsReady}
use cnpg_backup.Repository.Publication.Winner.{IsWinner, verify_winner-IsWinner}

-- What a result of `publish` stands for, which went from the state `s` to the state `t`: the commit was
-- written once, behind the calls `earlier`, and the result is the answer to the very next call.
pub record IsPublished (r : Repo) (v : Capture) (s t : State) (p : Published) : Type 0 where
  pub same_request : p.commit.request_sha256 ≡ v.commit.request_sha256
  pub earlier : List Call
  pub unwritten : puts earlier ≡ puts s.calls
  pub fetched :
      IsFetched r v.commit.backup_uid
        (put_object (commit_key r v.commit) (r.json.encode_commit v.commit) ∷ earlier)
        p
  pub called :
      Extends
        (read_object (commit_key r v.commit)
          ∷ put_object (commit_key r v.commit) (r.json.encode_commit v.commit)
          ∷ earlier)
        t.calls
  pub winner :
      IsWinner r p.commit
        (read_object (commit_key r v.commit)
          ∷ put_object (commit_key r v.commit) (r.json.encode_commit v.commit)
          ∷ earlier)
        t.calls

-- The winner, or the error of the write before the error of the read.
abbrev pick : Option Error → Result Published → Result Published
pick e got = elim got [ err f ↦ elim e [ none ↦ err f | some failure ↦ err failure ] | ok p ↦ ok p ]

picked :
    (e : Option Error) (got : Result Published) {p : Published} → pick e got ≡ ok p → got ≡ ok p
picked none (err f) h = absurd cc
picked (some failure) (err f) h = absurd cc
picked e (ok p) h = h

fetched_lem :
    (act : Act Published) (s t : State) (got : Result Published) (p : Published)
    → try_act act s ≡ (ok got, t)
    → got ≡ ok p
    → act s ≡ (ok p, t)
unfolding try_act
fetched_lem act s t got p h k =
    ap₂ (λ x y. (x, y)) (ok-injective (ap (λ x. x.0) h) ∙ k) (ap (λ x. x.1) h)

put_calls :
    (r : Repo) (key content : Text) (s t : State) (e : Option Error)
    → put_key r.world key content s ≡ (ok e, t)
    → put_object key content ∷ s.calls ≡ t.calls
unfolding put_key record_call
put_calls r key content s t e h = ap (λ y. State.calls y.1) h

mark_calls : (e : Option Error) (s t : State) → mark e s ≡ (ok tt, t) → s.calls ≡ t.calls
unfolding mark
mark_calls none s t h = ap (λ y. State.calls y.1) h
mark_calls (some e) s t h = elim (Bool-cases (ambiguous e)) [
  | inl p ↦ ap (λ y. State.calls y.1) (rw p at h)
  | inr p ↦ ap (λ y. State.calls y.1) (rw p at h)
]

-- A result of `publish` is a valid commit of the same request under the backup's name, with the bytes and
-- the time that the store answered to the read of the commit's key made right behind the one conditional
-- write, that of the encoded commit under this key, whoever wrote what was read. By the answers to the
-- calls behind this read it was not retired, its parent was live and intact, and all that it names was
-- downloaded and verified.
pub publish-IsPublished :
    (r : Repo) (a : Attempt) (v : Capture) (s t : State) (p : Published)
    → publish r a v s ≡ (ok p, t)
    → IsPublished r v s t p
unfolding publish dispatch read_winner
publish-IsPublished r a v s t p h =
    let (b, m, c, h) = >>=-eq-ok (prepare r a v) _ s h in
    let key = commit_key r v.commit in
    let (e, n, d, h) = >>=-eq-ok (put_key r.world key b) _ m h in
    let (u, o, f, h) = >>=-eq-ok (mark e) _ n h in
    let (got, q, g, h) =
      >>=-eq-ok (try_act (fetch_commit r.world r.lib r.json r.id v.commit.backup_uid)) _ o h in
    let (w, x, i, h) = >>=-eq-ok (lift (pick e got)) _ q h in
    let (u, y, j, h) =
      >>=-eq-ok
        (lift (guard (text_eq w.commit.request_sha256 v.commit.request_sha256) Error.identity)) _ x
        h in
    let (u, z, k, h) = >>=-eq-ok (verify_winner r w.commit w.bytes) _ y h in
    let (ready, (unwritten, spent, bytes)) = prepare-IsReady r a v s m b c in
    let same : w ≡ p = ok-injective (lift-eq-ok (ok w) z h).0 in
    let fetched =
      fetched_lem (fetch_commit r.world r.lib r.json r.id v.commit.backup_uid) o q got w g
        (picked e got (lift-eq-ok (pick e got) q i).0) in
    let (answer, calls) = fetch_commit-IsFetched r v.commit.backup_uid o q w fetched in
    let before : put_object key (r.json.encode_commit v.commit) ∷ m.calls ≡ o.calls =
      ap (λ content. put_object key content ∷ m.calls) bytes
      ∙ (put_calls r key b m n e d ∙ mark_calls e n o f) in
    let rest : q ≡ x = (lift-eq-ok (pick e got) q i).1 in
    let checked =
      lift-eq-ok (guard (text_eq w.commit.request_sha256 v.commit.request_sha256) Error.identity) x
        j in
    let last : z ≡ t = (lift-eq-ok (ok w) z h).1 in
    let quiet =
      quiet_ok (verify_winner r w.commit w.bytes) y z (verify_winner-IsQuiet r w.commit w.bytes)
        k in
    let start : read_object key ∷ put_object key (r.json.encode_commit v.commit) ∷ m.calls
        ≡ y.calls =
      ap (λ l. read_object key ∷ l) before ∙ (calls ∙ ap State.calls (rest ∙ checked.1)) in
    let request =
      text_eq→eq w.commit.request_sha256 v.commit.request_sha256
        (guard_passed _ Error.identity checked.0) in
    subst (λ x. IsPublished r v s t x) same
      (record {
        same_request = request;
        earlier = m.calls;
        unwritten = unwritten;
        fetched = subst (λ l. IsFetched r v.commit.backup_uid l w) (sym before) answer;
        called =
            subst (λ l. Extends l t.calls) (sym start)
              (subst (λ l. Extends y.calls (State.calls l)) last quiet.extends);
        winner =
            subst (λ l. IsWinner r w.commit l t.calls) (sym start)
              (subst (λ l. IsWinner r w.commit y.calls (State.calls l)) last
                (verify_winner-IsWinner r w.commit w.bytes y z k));
      })
