-- ===== src/Repository/Publication/Fetched.antt =====
-- internal/repository/repository.go: what a commit that is read back stands for.
use cnpg_backup.Prelude.{
  ◌≡◌, ap, sym, subst, ◌∙◌, List, ◌∷◌, ◌++◌, Text, codes, ok, Error, ok-injective, guard,
}
use cnpg_backup.Repository.Names.Hex.{valid_id}
use cnpg_backup.Repository.Names.Keys.{backup_key}
use cnpg_backup.Repository.Schema.Records.{Commit}
use cnpg_backup.Repository.Schema.Commits.{validate_commit}
use cnpg_backup.Repository.Schema.Stored.{read_commit, read_commit-IsRead}
use cnpg_backup.Repository.Publication.Acts.{
  Call, read_object, State, >>=-eq-ok, lift, read_key, record_call,
}
use cnpg_backup.Repository.Publication.Stored.{Published, fetch_commit}
use cnpg_backup.Repository.Publication.Verify.{Repo}
use cnpg_backup.Repository.Publication.Payload.{lift-eq-ok}

-- The key of the commit of a backup.
abbrev pub key_of : Repo → Text → Text
key_of r uid = backup_key r.id uid ++ codes "commit.json"

abbrev pub commit_key : Repo → Commit → Text
commit_key r c = key_of r c.backup_uid

-- The store's answer, behind some calls, to the read of a backup's commit.
pub record IsFetched (r : Repo) (uid : Text) (calls : List Call) (p : Published) : Type 0 where
  pub same_backup : p.commit.backup_uid ≡ uid
  pub valid : validate_commit r.lib r.id p.commit ≡ ok tt
  pub found :
      r.world.read calls (key_of r uid)
      ≡ ok (record { content = p.bytes; modified = p.published_at })
  pub decoded : r.json.decode_commit p.bytes ≡ ok p.commit

pub fetch_commit-IsFetched :
    (r : Repo) (uid : Text) (s t : State) (p : Published)
    → fetch_commit r.world r.lib r.json r.id uid s ≡ (ok p, t)
    → IsFetched r uid s.calls p × (read_object (key_of r uid) ∷ s.calls ≡ t.calls)
unfolding fetch_commit read_key read_commit record_call
fetch_commit-IsFetched r uid s t p h =
    let (u, m, a, h) = >>=-eq-ok (lift (guard (valid_id uid) Error.invalid)) _ s h in
    let (o, n, b, h) = >>=-eq-ok (read_key r.world (key_of r uid)) _ m h in
    let (w, x, c, h) =
      >>=-eq-ok (lift (read_commit r.lib r.id r.json.decode_commit (ok o.content) uid)) _ n h in
    let here : s ≡ m = (lift-eq-ok (guard (valid_id uid) Error.invalid) s a).1 in
    let stored =
      read_commit-IsRead r.lib r.id r.json.decode_commit uid o.content w
        (lift-eq-ok (read_commit r.lib r.id r.json.decode_commit (ok o.content) uid) n c).0 in
    let (given, last) = lift-eq-ok (ok _) x h in
    let same = ok-injective given in
    let moved : n ≡ x =
      (lift-eq-ok (read_commit r.lib r.id r.json.decode_commit (ok o.content) uid) n c).1 in
    let read_at = ap State.calls here in
    (
      record {
        same_backup = sym (ap (λ q. q.commit.backup_uid) same) ∙ stored.backup;
        valid = subst (λ q. validate_commit r.lib r.id q.commit ≡ ok tt) same stored.valid;
        found =
            subst
              (λ q.
                r.world.read s.calls (key_of r uid)
                ≡ ok (record { content = q.bytes; modified = q.published_at }))
              same
              (ap (λ l. r.world.read l (key_of r uid)) read_at
                ∙ (ap (λ y. y.0) b
                    ∙ ap (λ y. ok (record { content = y; modified = o.modified }))
                        (sym stored.whole)));
        decoded = subst (λ q. r.json.decode_commit q.bytes ≡ ok q.commit) same stored.decoded;
      },
      ap (λ l. read_object (key_of r uid) ∷ l) read_at
          ∙ (ap (λ y. State.calls y.1) b ∙ (ap State.calls moved ∙ ap State.calls last)),
    )
