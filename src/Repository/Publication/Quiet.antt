-- ===== src/Repository/Publication/Quiet.antt =====
-- internal/repository/publication.go: the acts that write no object with a conditional put, and that
-- never reset the attempt's flag.
use mathlib.Core.List.{append_assoc}
use cnpg_backup.Prelude.{
  ℕ, ◌++◌, ap, subst, Bool, true, false, ◌≡◌, refl, ◌∙◌, inl, inr, List, [], ◌∷◌, Option, none,
  some, Text, text_eq, codes, Result, ok, err, Error, if◌then◌else◌, Bool-cases,
}
use cnpg_backup.Repository.Gate.{ambiguous}
use cnpg_backup.Repository.Gate.Holds.{Hold}
use cnpg_backup.Repository.Names.Keys.{artifact_key}
use cnpg_backup.Repository.Schema.Records.{Artifact, Commit}
use cnpg_backup.Repository.Publication.Files.{File, Expected}
use cnpg_backup.Repository.Publication.Acts.{
  Call, read_object, put_object, upload_object, download_object, final_check, World, State, Act,
  continue, ◌>>=◌, lift, try_act, mark, read_key, upload_key, download_key, run_check,
  check_canceled, make_temp, record_call,
}
use cnpg_backup.Repository.Publication.Stored.{fetch_commit, check_live, fetch_claim, fetch_request}
use cnpg_backup.Repository.Publication.Verify.{
  Repo, manifest_key, manifest_of, expected_of, download_verify, verify_artifacts, verify_payload,
  read_parent, verify_parent, verify_winner,
}
use cnpg_backup.Repository.Publication.Begin.{check_now}
use cnpg_backup.Repository.Publication.Publish.{Capture, consume, upload, upload_files, transfer}

-- The conditional writes among some calls, by key and content.
unfoldable pub puts : List Call → List (Text × Text)
puts [] = []
puts (put_object key content ∷ rest) = (key, content) ∷ puts rest
puts (read_object key ∷ rest) = puts rest
puts (upload_object key ∷ rest) = puts rest
puts (download_object key size hash ∷ rest) = puts rest
puts (final_check ∷ rest) = puts rest

-- The calls of `before` are the first of those of `after`.
pub Extends : (before after : List Call) → Type 0
Extends before after = (new : List Call) × (new ++ before ≡ after)

pub Extends-refl : (calls : List Call) → Extends calls calls
unfolding Extends
Extends-refl calls = ([], refl)

pub Extends-call : (c : Call) (calls : List Call) → Extends calls (c ∷ calls)
unfolding Extends
Extends-call c calls = (c ∷ [], refl)

pub Extends-trans : (a b c : List Call) → Extends a b → Extends b c → Extends a c
unfolding Extends
Extends-trans a b c (xs, p) (ys, q) = (ys ++ xs, append_assoc ys xs a ∙ ap (λ l. ys ++ l) p ∙ q)

-- A call made behind the calls `asked`, not before those of `from` and among those of `upto`.
pub record IsBetween (from upto : List Call) (c : Call) (asked : List Call) : Type 0 where
  pub behind : Extends from asked
  pub made : Extends (c ∷ asked) upto

pub IsBetween-wider :
    (f from upto u : List Call) (c : Call) (asked : List Call)
    → Extends f from
    → Extends upto u
    → IsBetween from upto c asked
    → IsBetween f u c asked
IsBetween-wider f from upto u c asked h k b = record {
  behind = Extends-trans f from asked h b.behind;
  made = Extends-trans (c ∷ asked) upto u b.made k;
}

pub record IsQuietAt (before after : State) : Type 0 where
  pub same_puts : puts after.calls ≡ puts before.calls
  pub keeps_used : before.used ≡ true → after.used ≡ true
  pub extends : Extends before.calls after.calls

pub IsQuiet : {A : Type 0} → Act A → Type 0
IsQuiet act = (s : State) → IsQuietAt s (act s).1

pub quiet_at : {A : Type 0} (act : Act A) → IsQuiet act → (s : State) → IsQuietAt s (act s).1
unfolding IsQuiet
quiet_at act h s = h s

abbrev quiet_refl : (s : State) → IsQuietAt s s
quiet_refl s = record { same_puts = refl; keeps_used = λ p. p; extends = Extends-refl s.calls }

pub quiet_trans : {s m t : State} → IsQuietAt s m → IsQuietAt m t → IsQuietAt s t
quiet_trans {s} {m} {t} h k = record {
  same_puts = k.same_puts ∙ h.same_puts;
  keeps_used = λ p. k.keeps_used (h.keeps_used p);
  extends = Extends-trans s.calls m.calls t.calls h.extends k.extends;
}

-- An act that ended in `t` is quiet up to `t`.
pub quiet_ok :
    {A : Type 0} (act : Act A) (s t : State) {b : A}
    → IsQuiet act
    → act s ≡ (ok b, t)
    → IsQuietAt s t
quiet_ok act s t h p = subst (λ m. IsQuietAt s m) (ap (λ p. p.1) p) (quiet_at act h s)

-- The calls that an act makes stand behind those before it.
pub ok-Extends :
    {A : Type 0} (act : Act A) (s t : State) {b : A}
    → IsQuiet act
    → act s ≡ (ok b, t)
    → Extends s.calls t.calls
ok-Extends act s t h p = (quiet_ok act s t h p).extends

continue_quiet :
    {A B : Type 0} (v : Result A) (s m : State) (next : A → Act B)
    → IsQuietAt s m
    → ((a : A) → IsQuiet (next a))
    → IsQuietAt s (continue v m next).1
unfolding continue IsQuiet
continue_quiet (err e) s m next h k = h
continue_quiet (ok a) s m next h k = record {
  same_puts = (k a m).same_puts ∙ h.same_puts;
  keeps_used = λ p. (k a m).keeps_used (h.keeps_used p);
  extends = Extends-trans s.calls m.calls (next a m).1.calls h.extends (k a m).extends;
}

pub >>=-IsQuiet :
    {A B : Type 0} (act : Act A) (next : A → Act B)
    → IsQuiet act
    → ((a : A) → IsQuiet (next a))
    → IsQuiet (act >>= next)
unfolding ◌>>=◌ IsQuiet
>>=-IsQuiet act next h k = λ s. continue_quiet (act s).0 s (act s).1 next (h s) k

pub lift-IsQuiet : {A : Type 0} (v : Result A) → IsQuiet (lift v)
unfolding lift IsQuiet
lift-IsQuiet v = λ s. quiet_refl s

pub try_act-IsQuiet : {A : Type 0} (act : Act A) → IsQuiet act → IsQuiet (try_act act)
unfolding try_act IsQuiet
try_act-IsQuiet act h = λ s. h s

pub mark-IsQuiet : (e : Option Error) → IsQuiet (mark e)
unfolding mark IsQuiet
mark-IsQuiet none = λ s. quiet_refl s
mark-IsQuiet (some e) = λ s. elim (Bool-cases (ambiguous e)) [
  | inl p ↦ rw p (record { same_puts = refl; keeps_used = λ p. p; extends = Extends-refl s.calls })
  | inr p ↦ rw p (quiet_refl s)
]

module _ (world : World) where
  pub read_key-IsQuiet : (key : Text) → IsQuiet (read_key world key)
  unfolding read_key record_call IsQuiet puts
  read_key-IsQuiet key =
      λ s. record { same_puts = refl; keeps_used = λ p. p; extends = Extends-call _ s.calls }

  upload_key-IsQuiet : (key : Text) → IsQuiet (upload_key world key)
  unfolding upload_key record_call IsQuiet puts
  upload_key-IsQuiet key =
      λ s. record { same_puts = refl; keeps_used = λ p. p; extends = Extends-call _ s.calls }

  pub download_key-IsQuiet :
      (key : Text) (size : ℕ) (hash : Text) → IsQuiet (download_key world key size hash)
  unfolding download_key record_call IsQuiet puts
  download_key-IsQuiet key size hash =
      λ s. record { same_puts = refl; keeps_used = λ p. p; extends = Extends-call _ s.calls }

  pub run_check-IsQuiet : (given : Bool) → IsQuiet (run_check world given)
  unfolding run_check record_call IsQuiet puts
  run_check-IsQuiet true =
      λ s. record { same_puts = refl; keeps_used = λ p. p; extends = Extends-call _ s.calls }
  run_check-IsQuiet false = λ s. quiet_refl s

  pub check_canceled-IsQuiet : IsQuiet (check_canceled world)
  unfolding check_canceled IsQuiet
  check_canceled-IsQuiet = λ s. quiet_refl s

  pub make_temp-IsQuiet : IsQuiet (make_temp world)
  unfolding make_temp IsQuiet
  make_temp-IsQuiet = λ s. quiet_refl s

module _ (r : Repo) where
  pub check_now-IsQuiet : (h : Hold) → IsQuiet (check_now r h)
  unfolding check_now IsQuiet
  check_now-IsQuiet h = λ s. quiet_refl s

  pub fetch_commit-IsQuiet : (uid : Text) → IsQuiet (fetch_commit r.world r.lib r.json r.id uid)
  unfolding fetch_commit
  fetch_commit-IsQuiet uid = >>=-IsQuiet _ _ (lift-IsQuiet _) (λ u.
      >>=-IsQuiet _ _ (read_key-IsQuiet r.world _)
        (λ o. >>=-IsQuiet _ _ (lift-IsQuiet _) (λ v. lift-IsQuiet _)))

  pub check_live-IsQuiet :
      (c : Commit) (b : Text) → IsQuiet (check_live r.world r.lib r.json r.id c b)
  unfolding check_live
  check_live-IsQuiet c b =
      >>=-IsQuiet _ _ (try_act-IsQuiet _ (read_key-IsQuiet r.world _)) (λ v. lift-IsQuiet _)

  fetch_claim-IsQuiet :
      (uid attempt : Text) → IsQuiet (fetch_claim r.world r.lib r.json r.id uid attempt)
  unfolding fetch_claim
  fetch_claim-IsQuiet uid attempt = >>=-IsQuiet _ _ (lift-IsQuiet _) (λ u.
      >>=-IsQuiet _ _ (read_key-IsQuiet r.world _) (λ o.
        >>=-IsQuiet _ _ (lift-IsQuiet _)
          (λ v. >>=-IsQuiet _ _ (lift-IsQuiet _) (λ w. lift-IsQuiet _))))

  pub fetch_request-IsQuiet : (c : Commit) → IsQuiet (fetch_request r.world r.lib r.json r.id c)
  unfolding fetch_request
  fetch_request-IsQuiet c = >>=-IsQuiet _ _ (read_key-IsQuiet r.world _) (λ o.
      >>=-IsQuiet _ _ (lift-IsQuiet _) (λ v.
        >>=-IsQuiet _ _ (fetch_claim-IsQuiet c.backup_uid c.attempt_id)
          (λ cl. >>=-IsQuiet _ _ (lift-IsQuiet _) (λ w. lift-IsQuiet _))))

  pub download_verify-IsQuiet :
      (key : Text) (want : Expected) → IsQuiet (download_verify r key want)
  unfolding download_verify
  download_verify-IsQuiet key want =
      >>=-IsQuiet _ _ (make_temp-IsQuiet r.world)
        (λ u. >>=-IsQuiet _ _ (download_key-IsQuiet r.world _ _ _) (λ f. lift-IsQuiet _))

  pub artifacts-IsQuiet :
      (c : Commit) (parts : List Artifact) → IsQuiet (verify_artifacts r c parts)
  unfolding verify_artifacts
  artifacts-IsQuiet c [] = lift-IsQuiet (ok tt)
  artifacts-IsQuiet c (a ∷ rest) =
      >>=-IsQuiet _ _ (download_verify-IsQuiet (artifact_key r.id c a) (expected_of a))
        (λ u. artifacts-IsQuiet c rest)

  pub verify_payload-IsQuiet : (c : Commit) → IsQuiet (verify_payload r c)
  unfolding verify_payload
  verify_payload-IsQuiet c =
      >>=-IsQuiet _ _ (download_verify-IsQuiet (manifest_key r c) (manifest_of c))
        (λ u. artifacts-IsQuiet c c.artifacts)

  pub read_parent-IsQuiet : (c : Commit) → IsQuiet (read_parent r c)
  unfolding read_parent
  read_parent-IsQuiet c = >>=-IsQuiet _ _ (lift-IsQuiet _) (λ uid.
      >>=-IsQuiet _ _ (fetch_commit-IsQuiet uid) (λ p. >>=-IsQuiet _ _ (lift-IsQuiet _) (λ u.
        >>=-IsQuiet _ _ (check_live-IsQuiet p.commit p.bytes) (λ v.
          >>=-IsQuiet _ _ (fetch_request-IsQuiet p.commit) (λ w. lift-IsQuiet (ok p.commit))))))

  pub verify_parent-IsQuiet : (c : Commit) → IsQuiet (verify_parent r c)
  unfolding verify_parent
  verify_parent-IsQuiet c = elim (Bool-cases (text_eq c.kind (codes "full"))) [
    | inl p ↦ rw p (lift-IsQuiet (ok tt))
    | inr p ↦
        rw p
          (>>=-IsQuiet (read_parent r c) _ (read_parent-IsQuiet c) (λ q. verify_payload-IsQuiet q))
  ]

  pub verify_winner-IsQuiet : (c : Commit) (b : Text) → IsQuiet (verify_winner r c b)
  unfolding verify_winner
  verify_winner-IsQuiet c b = >>=-IsQuiet _ _ (check_live-IsQuiet c b) (λ u.
      >>=-IsQuiet _ _ (fetch_request-IsQuiet c)
        (λ v. >>=-IsQuiet _ _ (verify_parent-IsQuiet c) (λ w. verify_payload-IsQuiet c)))

  pub upload-IsQuiet : (key : Text) → IsQuiet (upload r key)
  unfolding upload
  upload-IsQuiet key =
      >>=-IsQuiet _ _ (upload_key-IsQuiet r.world key)
        (λ e. >>=-IsQuiet _ _ (mark-IsQuiet e) (λ u. lift-IsQuiet _))

  pub upload_files-IsQuiet :
      (c : Commit) (files : List (Option File)) (parts : List Artifact)
      → IsQuiet (upload_files r c files parts)
  unfolding upload_files
  upload_files-IsQuiet c [] parts = lift-IsQuiet (ok tt)
  upload_files-IsQuiet c (f ∷ files) [] = lift-IsQuiet (ok tt)
  upload_files-IsQuiet c (f ∷ files) (a ∷ parts) =
      >>=-IsQuiet _ _ (upload-IsQuiet (artifact_key r.id c a))
        (λ u. upload_files-IsQuiet c files parts)

  pub transfer-IsQuiet : (v : Capture) → IsQuiet (transfer r v)
  unfolding transfer
  transfer-IsQuiet v = >>=-IsQuiet _ _ (upload-IsQuiet (manifest_key r v.commit)) (λ a.
      >>=-IsQuiet _ _ (upload_files-IsQuiet v.commit v.files v.commit.artifacts) (λ b.
        >>=-IsQuiet _ _ (verify_payload-IsQuiet v.commit) (λ c.
          >>=-IsQuiet _ _ (verify_parent-IsQuiet v.commit) (λ d.
            >>=-IsQuiet _ _ (run_check-IsQuiet r.world v.has_check)
              (λ e. check_canceled-IsQuiet r.world)))))

abbrev spend : Bool → State → Result (Unit {0}) × State
spend b s = if b then (err Error.closed, s) else (ok tt, record s { used = true })

spend_quiet : (b : Bool) (s : State) → IsQuietAt s (spend b s).1
spend_quiet true s = quiet_refl s
spend_quiet false s = record {
  same_puts = refl;
  keeps_used = λ q. refl;
  extends = Extends-refl s.calls;
}

pub consume-IsQuiet : IsQuiet consume
unfolding consume IsQuiet
consume-IsQuiet = λ s. spend_quiet s.used s
