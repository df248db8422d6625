-- ===== src/Repository/Publication/Payload.antt =====
-- internal/repository/publication.go: what a verified payload has shown. `from` and `upto` are the calls
-- before and after the verification.
use cnpg_backup.Prelude.{◌≡◌, ap, sym, subst, ◌∙◌, List, [], ◌∷◌, some, Text, Result, ok}
use cnpg_backup.Repository.Names.Keys.{artifact_key}
use cnpg_backup.Repository.Schema.Records.{Artifact, Commit}
use cnpg_backup.Repository.Publication.Files.{File, Expected, verify_file}
use cnpg_backup.Repository.Publication.Acts.{
  Call, download_object, State, >>=-eq-ok, lift, download_key, make_temp, record_call,
}
use cnpg_backup.Repository.Publication.Verify.{
  Repo, manifest_of, expected_of, manifest_key, download_verify, verify_artifacts, verify_payload,
}
use cnpg_backup.Repository.Publication.Quiet.{
  Extends, Extends-refl, IsBetween, IsBetween-wider, ok-Extends, make_temp-IsQuiet,
  download_verify-IsQuiet, artifacts-IsQuiet,
}

pub lift-eq-ok :
    {A : Type 0} (v : Result A) (s : State) {a : A} {t : State}
    → lift v s ≡ (ok a, t)
    → (v ≡ ok a) × (s ≡ t)
unfolding lift
lift-eq-ok v s h = (ap (λ p. p.0) h, ap (λ p. p.1) h)

module _ (r : Repo) where
  -- The store gave an object under the key that passed the verification.
  pub record IsStored (key : Text) (want : Expected) (from upto : List Call) : Type 0 where
    pub asked_at : List Call
    pub asked : IsBetween from upto (download_object key want.size want.hash) asked_at
    pub file : File
    pub given : r.world.download asked_at key want.size want.hash ≡ ok file
    pub passed : verify_file r.lib.sha256 r.gunzip (some file) want ≡ ok tt

  IsStored-wider :
      (key : Text) (want : Expected) (f from upto u : List Call)
      → Extends f from
      → Extends upto u
      → IsStored key want from upto
      → IsStored key want f u
  IsStored-wider key want f from upto u h k i = record {
    asked_at = i.asked_at;
    asked =
        IsBetween-wider f from upto u (download_object key want.size want.hash) i.asked_at h k
          i.asked;
    file = i.file;
    given = i.given;
    passed = i.passed;
  }

  download_verify-IsStored :
      (key : Text) (want : Expected) (s t : State)
      → download_verify r key want s ≡ (ok tt, t)
      → IsStored key want s.calls t.calls
  unfolding download_verify download_key record_call
  download_verify-IsStored key want s t h =
      let (u, m, p, h) = >>=-eq-ok (make_temp r.world) _ s h in
      let (f, n, q, h) = >>=-eq-ok (download_key r.world key want.size want.hash) _ m h in
      let (checked, last) = lift-eq-ok (verify_file r.lib.sha256 r.gunzip (some f) want) n h in
      let calls : download_object key want.size want.hash ∷ m.calls ≡ t.calls =
        ap (λ y. State.calls y.1) q ∙ ap State.calls last in
      record {
        asked_at = m.calls;
        asked = record {
          behind = ok-Extends (make_temp r.world) s m (make_temp-IsQuiet r.world) p;
          made = subst (λ l. Extends l t.calls) (sym calls) (Extends-refl t.calls);
        };
        file = f;
        given = ap (λ p. p.0) q;
        passed = checked;
      }

  -- Every artifact of a list.
  pub IsAllStored : Commit → List Artifact → (from upto : List Call) → Type 0
  IsAllStored c [] from upto = Unit {0}
  IsAllStored c (a ∷ rest) from upto =
      IsStored (artifact_key r.id c a) (expected_of a) from upto × IsAllStored c rest from upto

  all_wider :
      (c : Commit) (parts : List Artifact) (f from upto u : List Call)
      → Extends f from
      → Extends upto u
      → IsAllStored c parts from upto
      → IsAllStored c parts f u
  unfolding IsAllStored
  all_wider c [] f from upto u h k i = tt
  all_wider c (a ∷ rest) f from upto u h k i = (
    IsStored-wider (artifact_key r.id c a) (expected_of a) f from upto u h k i.0,
    all_wider c rest f from upto u h k i.1,
  )

  artifacts_stored :
      (c : Commit) (parts : List Artifact) (s t : State)
      → verify_artifacts r c parts s ≡ (ok tt, t)
      → IsAllStored c parts s.calls t.calls
  unfolding verify_artifacts IsAllStored
  artifacts_stored c [] s t h = tt
  artifacts_stored c (a ∷ rest) s t h =
      let key = artifact_key r.id c a in
      let (u, m, p, h) = >>=-eq-ok (download_verify r key (expected_of a)) _ s h in
      let first =
        ok-Extends (download_verify r key (expected_of a)) s m
          (download_verify-IsQuiet r key (expected_of a)) p in
      let others = ok-Extends (verify_artifacts r c rest) m t (artifacts-IsQuiet r c rest) h in
      (
        IsStored-wider key (expected_of a) s.calls s.calls m.calls t.calls (Extends-refl s.calls)
            others (download_verify-IsStored key (expected_of a) s m p),
        all_wider c rest s.calls m.calls t.calls t.calls first (Extends-refl t.calls)
            (artifacts_stored c rest m t h),
      )

  -- The manifest and every artifact of a backup are in the store, with their sizes and hashes.
  pub record IsIntact (c : Commit) (from upto : List Call) : Type 0 where
    pub manifest : IsStored (manifest_key r c) (manifest_of c) from upto
    pub artifacts : IsAllStored c c.artifacts from upto

  pub IsIntact-wider :
      (c : Commit) (f from upto u : List Call)
      → Extends f from
      → Extends upto u
      → IsIntact c from upto
      → IsIntact c f u
  IsIntact-wider c f from upto u h k i = record {
    manifest = IsStored-wider (manifest_key r c) (manifest_of c) f from upto u h k i.manifest;
    artifacts = all_wider c c.artifacts f from upto u h k i.artifacts;
  }

  pub verify_payload-IsIntact :
      (c : Commit) (s t : State) → verify_payload r c s ≡ (ok tt, t) → IsIntact c s.calls t.calls
  unfolding verify_payload
  verify_payload-IsIntact c s t h =
      let key = manifest_key r c in
      let (u, m, p, h) = >>=-eq-ok (download_verify r key (manifest_of c)) _ s h in
      let first =
        ok-Extends (download_verify r key (manifest_of c)) s m
          (download_verify-IsQuiet r key (manifest_of c)) p in
      let others =
        ok-Extends (verify_artifacts r c c.artifacts) m t (artifacts-IsQuiet r c c.artifacts) h in
      record {
        manifest =
            IsStored-wider key (manifest_of c) s.calls s.calls m.calls t.calls
              (Extends-refl s.calls) others (download_verify-IsStored key (manifest_of c) s m p);
        artifacts =
            all_wider c c.artifacts s.calls m.calls t.calls t.calls first (Extends-refl t.calls)
              (artifacts_stored c c.artifacts m t h);
      }
