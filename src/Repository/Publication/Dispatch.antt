-- ===== src/Repository/Publication/Dispatch.antt =====
-- internal/repository/publication.go: when `publish` writes the commit.
use cnpg_backup.Prelude.{
  true, ◌≡◌, refl, ap, ap₂, sym, subst, ◌∙◌, ◌∷◌, ◌++◌, Option, Text, codes, Result, ok, err, Error,
}
use cnpg_backup.Repository.Names.Keys.{backup_key}
use cnpg_backup.Repository.Schema.Records.{Commit}
use cnpg_backup.Repository.Publication.Acts.{
  put_object, State, continue, ◌>>=◌, put_key, record_call,
}
use cnpg_backup.Repository.Publication.Verify.{Repo}
use cnpg_backup.Repository.Publication.Begin.{Attempt}
use cnpg_backup.Repository.Publication.Publish.{Capture, prepare, read_winner, dispatch, publish}
use cnpg_backup.Repository.Publication.Quiet.{
  puts, Extends, IsQuiet, quiet_at, consume-IsQuiet, >>=-IsQuiet, lift-IsQuiet, try_act-IsQuiet,
  mark-IsQuiet, check_now-IsQuiet, fetch_commit-IsQuiet, verify_parent-IsQuiet,
  verify_winner-IsQuiet, transfer-IsQuiet,
}
use cnpg_backup.Repository.Publication.Fetched.{commit_key}
use cnpg_backup.Repository.Publication.Ready.{IsReady, prepare-IsReady}

prepare-IsQuiet : (r : Repo) (a : Attempt) (v : Capture) → IsQuiet (prepare r a v)
unfolding prepare
prepare-IsQuiet r a v = >>=-IsQuiet _ _ (check_now-IsQuiet r a.hold) (λ b.
    >>=-IsQuiet _ _ consume-IsQuiet (λ c. >>=-IsQuiet _ _ (lift-IsQuiet _) (λ d.
      >>=-IsQuiet _ _ (lift-IsQuiet _) (λ e.
        >>=-IsQuiet _ _ (verify_parent-IsQuiet r v.commit) (λ f.
          >>=-IsQuiet _ _ (lift-IsQuiet _) (λ g. >>=-IsQuiet _ _ (lift-IsQuiet _) (λ h.
            >>=-IsQuiet _ _ (transfer-IsQuiet r v)
              (λ i. >>=-IsQuiet _ _ (lift-IsQuiet _) (λ j. lift-IsQuiet _)))))))))

read_winner-IsQuiet : (r : Repo) (c : Commit) (e : Option Error) → IsQuiet (read_winner r c e)
unfolding read_winner
read_winner-IsQuiet r c e = >>=-IsQuiet _ _ (mark-IsQuiet e) (λ u.
    >>=-IsQuiet _ _ (try_act-IsQuiet _ (fetch_commit-IsQuiet r c.backup_uid)) (λ got.
      >>=-IsQuiet _ _ (lift-IsQuiet _) (λ p. >>=-IsQuiet _ _ (lift-IsQuiet _) (λ w.
        >>=-IsQuiet _ _ (verify_winner-IsQuiet r p.commit p.bytes) (λ x. lift-IsQuiet (ok p))))))

-- The write of the commit is one, whatever follows it.
dispatch_once :
    (r : Repo) (c : Commit) (b : Text) (s : State)
    → (puts (dispatch r c b s).1.calls ≡ (commit_key r c, b) ∷ puts s.calls)
      × (s.used ≡ true → (dispatch r c b s).1.used ≡ true)
      × Extends (put_object (commit_key r c) b ∷ s.calls) (dispatch r c b s).1.calls
unfolding dispatch put_key record_call ◌>>=◌ continue puts
dispatch_once r c b s =
    let key = backup_key r.id c.backup_uid ++ codes "commit.json" in
    let e = r.world.put s.calls key b in
    let quiet =
      quiet_at (read_winner r c e) (read_winner-IsQuiet r c e)
        (record s { calls = put_object key b ∷ s.calls }) in
    (quiet.same_puts, quiet.keeps_used, quiet.extends)

-- What `publish` may have done in the store by conditional writes, from the state `s`.
pub data IsGuarded (r : Repo) (a : Attempt) (v : Capture) (s t : State) : Type 0 where
  withheld : puts t.calls ≡ puts s.calls → IsGuarded r a v s t
  written :
      puts t.calls ≡ (commit_key r v.commit, r.json.encode_commit v.commit) ∷ puts s.calls
      → t.used ≡ true
      → (m : State) → IsReady r a v s m
      → Extends
          (put_object (commit_key r v.commit) (r.json.encode_commit v.commit) ∷ m.calls)
          t.calls
      → IsGuarded r a v s t

prepared :
    (r : Repo) (a : Attempt) (v : Capture) (s m : State) (answer : Result Text)
    → prepare r a v s ≡ (answer, m)
    → IsGuarded r a v s (continue answer m (λ b. dispatch r v.commit b)).1
unfolding continue
prepared r a v s m (err e) h = withheld (
    subst (λ n. puts (State.calls n) ≡ puts s.calls) (ap (λ p. p.1) h)
      (quiet_at (prepare r a v) (prepare-IsQuiet r a v) s).same_puts)
prepared r a v s m (ok b) h =
    let (ready, (same, spent, bytes)) = prepare-IsReady r a v s m b h in
    let (one, kept, after) = dispatch_once r v.commit b m in
    let last = (dispatch r v.commit b m).1.calls in
    written (one ∙ ap₂ (λ x l. (commit_key r v.commit, x) ∷ l) (sym bytes) same) (kept spent) m
      ready
      (subst (λ x. Extends (put_object (commit_key r v.commit) x ∷ m.calls) last) (sym bytes) after)

-- Whatever store, disk, gate and caller answer, `publish` makes one conditional write or none. The one is
-- that of the encoded commit under the commit's key, and it is made only for an attempt that was not
-- used before and then stays used, of a valid commit that is the attempt's own, whose local files have
-- the sizes and hashes that it names; and behind calls of this very publication by which the objects in
-- the store were downloaded and had these sizes and hashes, the parent of a differential was live and
-- intact, and the source check that is given passed.
pub publish-IsGuarded :
    (r : Repo) (a : Attempt) (v : Capture) (s : State) → IsGuarded r a v s (publish r a v s).1
unfolding publish ◌>>=◌
publish-IsGuarded r a v s = prepared r a v s (prepare r a v s).1 (prepare r a v s).0 refl
