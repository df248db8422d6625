-- ===== src/Repository/Publication/Ready.antt =====
-- internal/repository/publication.go: what `publish` has shown before it writes the commit.
use cnpg_backup.Prelude.{
  Bool, true, false, ◌≡◌, refl, ap, sym, subst, ◌∙◌, ◌⊎◌, inl, inr, List, ◌∷◌, Option, none, some,
  Text, leb, length, Result, ok, err, Error, ok-injective, guard, guard_passed, if◌then◌else◌,
}
use cnpg_backup.Repository.Schema.Commits.{validate_commit}
use cnpg_backup.Repository.Publication.Files.{verify_file}
use cnpg_backup.Repository.Publication.Acts.{
  Call, final_check, record_call, check_canceled, State, >>=-eq-ok, lift, run_check, answer_of,
}
use cnpg_backup.Repository.Publication.Verify.{
  Repo, manifest_of, verify_payload, verify_parent, manifest_key,
}
use cnpg_backup.Repository.Publication.Begin.{Attempt, check_now}
use cnpg_backup.Repository.Publication.Publish.{
  Capture, commit_limit, consume, matches_attempt, verify_files, upload, upload_files, transfer,
  prepare,
}
use cnpg_backup.Repository.Publication.Payload.{
  IsIntact, IsIntact-wider, verify_payload-IsIntact, lift-eq-ok,
}
use cnpg_backup.Repository.Publication.Winner.{HasParent, HasParent-wider, verify_parent-HasParent}
use cnpg_backup.Repository.Publication.Quiet.{
  puts, Extends, Extends-refl, IsBetween, IsBetween-wider, quiet_trans, quiet_ok, upload-IsQuiet,
  upload_files-IsQuiet, verify_payload-IsQuiet, run_check-IsQuiet, check_canceled-IsQuiet,
  IsQuietAt, lift-IsQuiet, verify_parent-IsQuiet, transfer-IsQuiet,
}

answer_none : (e : Option Error) → answer_of e ≡ ok tt → e ≡ none
unfolding answer_of
answer_none none h = refl
answer_none (some e) h = absurd cc

abbrev spend : Bool → State → Result (Unit {0}) × State
spend b s = if b then (err Error.closed, s) else (ok tt, record s { used = true })

err-ok : {A C : Type 0} {e : Error} {x : A} → ◌≡◌ {A = Result A} (err e) (ok x) → C
err-ok h = absurd cc

spend_lem :
    (b : Bool) (s t : State) → spend b s ≡ (ok tt, t) → (b ≡ false) × (record s { used = true } ≡ t)
spend_lem true s t h = err-ok (ap (λ p. p.0) h)
spend_lem false s t h = (refl, ap (λ p. p.1) h)

consume_lem :
    (s t : State) → consume s ≡ (ok tt, t) → (s.used ≡ false) × (record s { used = true } ≡ t)
unfolding consume
consume_lem s t h = spend_lem s.used s t h

module _ (r : Repo) (a : Attempt) (v : Capture) where
  -- The last check of the source, if there is one, passed.
  pub IsChecked : (from upto : List Call) → Type 0
  IsChecked from upto =
      (v.has_check ≡ false)
      ⊎ ((h : List Call) × IsBetween from upto final_check h × (r.world.check h ≡ none))

  -- What holds when the commit is written, in the state `m` that the preparation leads to from `s`: an
  -- unused attempt, a valid commit of this attempt, files that were checked here and in the store, the
  -- parent, and the last check of the source.
  pub record IsReady (s m : State) : Type 0 where
    pub unused : s.used ≡ false
    pub valid : validate_commit r.lib r.id v.commit ≡ ok tt
    pub own : matches_attempt a v ≡ true
    pub local_manifest : verify_file r.lib.sha256 r.gunzip v.manifest (manifest_of v.commit) ≡ ok tt
    pub local_files : verify_files r v.files v.commit.artifacts ≡ ok tt
    pub parent : HasParent r v.commit s.calls m.calls
    pub intact : IsIntact r v.commit s.calls m.calls
    pub checked : IsChecked s.calls m.calls

  IsChecked-wider :
      (f from upto u : List Call)
      → Extends f from
      → Extends upto u
      → IsChecked from upto
      → IsChecked f u
  unfolding IsChecked
  IsChecked-wider f from upto u h k (inl p) = inl p
  IsChecked-wider f from upto u h k (inr (l, b, p)) =
      inr (l, IsBetween-wider f from upto u final_check l h k b, p)

  checked_lem :
      (given : Bool) (s t : State)
      → run_check r.world given s ≡ (ok tt, t)
      → (given ≡ false)
        ⊎ ((h : List Call) × IsBetween s.calls t.calls final_check h × (r.world.check h ≡ none))
  unfolding run_check record_call
  checked_lem true s t h =
      let calls : final_check ∷ s.calls ≡ t.calls = ap (λ y. State.calls y.1) h in
      inr (
        s.calls,
        record {
          behind = Extends-refl s.calls;
          made = subst (λ l. Extends l t.calls) (sym calls) (Extends-refl t.calls);
        },
        answer_none (r.world.check s.calls) (ap (λ p. p.0) h),
      )
  checked_lem false s t h = inl refl

  record IsTransferred (s t : State) : Type 0 where
    intact : IsIntact r v.commit s.calls t.calls
    checked : IsChecked s.calls t.calls

  transfer-IsTransferred : (s t : State) → transfer r v s ≡ (ok tt, t) → IsTransferred s t
  unfolding transfer IsChecked
  transfer-IsTransferred s t h =
      let (b, m, c, h) = >>=-eq-ok (upload r (manifest_key r v.commit)) _ s h in
      let (b, n, d, h) = >>=-eq-ok (upload_files r v.commit v.files v.commit.artifacts) _ m h in
      let (b, o, e, h) = >>=-eq-ok (verify_payload r v.commit) _ n h in
      let (b, p, f, h) = >>=-eq-ok (verify_parent r v.commit) _ o h in
      let (b, q, g, h) = >>=-eq-ok (run_check r.world v.has_check) _ p h in
      let sent =
        quiet_trans (quiet_ok (upload r (manifest_key r v.commit)) s m (upload-IsQuiet r _) c) (
          quiet_ok (upload_files r v.commit v.files v.commit.artifacts) m n
            (upload_files-IsQuiet r v.commit v.files v.commit.artifacts) d) in
      let verified =
        quiet_ok (verify_payload r v.commit) n o (verify_payload-IsQuiet r v.commit) e in
      let parent = quiet_ok (verify_parent r v.commit) o p (verify_parent-IsQuiet r v.commit) f in
      let checks =
        quiet_ok (run_check r.world v.has_check) p q (run_check-IsQuiet r.world v.has_check) g in
      let last = quiet_ok (check_canceled r.world) q t (check_canceled-IsQuiet r.world) h in
      record {
        intact =
            IsIntact-wider r v.commit s.calls n.calls o.calls t.calls sent.extends
              (quiet_trans parent (quiet_trans checks last)).extends
              (verify_payload-IsIntact r v.commit n o e);
        checked =
            IsChecked-wider s.calls p.calls q.calls t.calls
              (quiet_trans sent (quiet_trans verified parent)).extends last.extends
              (checked_lem v.has_check p q g);
      }

  -- A preparation that succeeds has spent the attempt and shown all that is needed.
  pub prepare-IsReady :
      (s t : State) (b : Text)
      → prepare r a v s ≡ (ok b, t)
      → IsReady s t
        × ((puts t.calls ≡ puts s.calls) × (t.used ≡ true) × (r.json.encode_commit v.commit ≡ b))
  unfolding prepare check_now
  prepare-IsReady s t b h =
      let (u, m, c, h) = >>=-eq-ok (check_now r a.hold) _ s h in
      let (u, n, d, h) = >>=-eq-ok consume _ m h in
      let (unused, spent) = consume_lem m n d in
      let (u, o, e, h) = >>=-eq-ok (lift (validate_commit r.lib r.id v.commit)) _ n h in
      let (u, p, f, h) = >>=-eq-ok (lift (guard (matches_attempt a v) Error.identity)) _ o h in
      let (u, q, g, h) = >>=-eq-ok (verify_parent r v.commit) _ p h in
      let (u, w, i, h) =
        >>=-eq-ok (lift (verify_file r.lib.sha256 r.gunzip v.manifest (manifest_of v.commit))) _ q
          h in
      let (u, x, j, h) = >>=-eq-ok (lift (verify_files r v.files v.commit.artifacts)) _ w h in
      let (u, y, k, h) = >>=-eq-ok (transfer r v) _ x h in
      let bytes = r.json.encode_commit v.commit in
      let (u, z, l, h) =
        >>=-eq-ok (lift (guard (leb (length bytes) commit_limit) Error.capacity)) _ y h in
      let moved = transfer-IsTransferred x y k in
      let m_is : s ≡ m = ap (λ p. p.1) c in
      let base : s.calls ≡ n.calls = ap State.calls m_is ∙ ap State.calls spent in
      let first =
        quiet_trans (quiet_ok (lift (validate_commit r.lib r.id v.commit)) n o (lift-IsQuiet _) e)
          (quiet_ok (lift (guard (matches_attempt a v) Error.identity)) o p (lift-IsQuiet _) f) in
      let edge = quiet_ok (verify_parent r v.commit) p q (verify_parent-IsQuiet r v.commit) g in
      let local =
        quiet_trans
          (quiet_ok (lift (verify_file r.lib.sha256 r.gunzip v.manifest (manifest_of v.commit))) q w
            (lift-IsQuiet _) i)
          (quiet_ok (lift (verify_files r v.files v.commit.artifacts)) w x (lift-IsQuiet _) j) in
      let remote = quiet_ok (transfer r v) x y (transfer-IsQuiet r v) k in
      let last =
        quiet_trans
          (quiet_ok (lift (guard (leb (length bytes) commit_limit) Error.capacity)) y z
            (lift-IsQuiet _) l)
          (quiet_ok (lift (ok bytes)) z t (lift-IsQuiet _) h) in
      let front = quiet_trans first (quiet_trans edge local) in
      let m_n : IsQuietAt n t = quiet_trans front (quiet_trans remote last) in
      (
        record {
          unused = ap State.used m_is ∙ unused;
          valid = (lift-eq-ok (validate_commit r.lib r.id v.commit) n e).0;
          own =
              guard_passed (matches_attempt a v) Error.identity
                (lift-eq-ok (guard (matches_attempt a v) Error.identity) o f).0;
          local_manifest =
              (lift-eq-ok (verify_file r.lib.sha256 r.gunzip v.manifest (manifest_of v.commit)) q
                i).0;
          local_files = (lift-eq-ok (verify_files r v.files v.commit.artifacts) w j).0;
          parent =
              HasParent-wider r v.commit s.calls p.calls q.calls t.calls
                (subst (λ c. Extends c p.calls) (sym base) first.extends)
                (quiet_trans local (quiet_trans remote last)).extends
                (verify_parent-HasParent r v.commit p q g);
          intact =
              IsIntact-wider r v.commit s.calls x.calls y.calls t.calls
                (subst (λ c. Extends c x.calls) (sym base) front.extends) last.extends moved.intact;
          checked =
              IsChecked-wider s.calls x.calls y.calls t.calls
                (subst (λ c. Extends c x.calls) (sym base) front.extends) last.extends
                moved.checked;
        },
        (
          m_n.same_puts
              ∙ (ap (λ st. puts (State.calls st)) (sym spent)
                  ∙ ap (λ st. puts (State.calls st)) (sym m_is)),
          m_n.keeps_used (sym (ap State.used spent)),
          ok-injective (lift-eq-ok (ok bytes) z h).0,
        ),
      )
