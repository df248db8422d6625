-- ===== src/Repository/Publication/Winner.antt =====
-- internal/repository/publication.go: what `verifyWinner` has shown of a published backup.
use cnpg_backup.Prelude.{
  Bool, true, false, ◌≡◌, refl, ap, sym, subst, ◌∙◌, inl, inr, List, ◌∷◌, ◌++◌, none, some, Text,
  text_eq, codes, Result, ok, err, Error, ok-injective, store, not_found, if◌then◌else◌, Bool-cases,
}
use cnpg_backup.Repository.Names.Keys.{backup_key}
use cnpg_backup.Repository.Schema.Records.{Commit, Retirement, validate_retirement}
use cnpg_backup.Repository.Schema.Commits.{validate_parent}
use cnpg_backup.Repository.Schema.Stored.{live}
use cnpg_backup.Repository.Publication.Acts.{
  Call, read_object, record_call, State, Act, ◌>>=◌, >>=-eq-ok, lift, try_act, read_key, Object,
}
use cnpg_backup.Repository.Publication.Stored.{fetch_commit, check_live, fetch_request}
use cnpg_backup.Repository.Publication.Verify.{
  Repo, read_parent, verify_parent, verify_payload, verify_winner,
}
use cnpg_backup.Repository.Publication.Quiet.{
  Extends, Extends-refl, Extends-trans, IsBetween, IsBetween-wider, ok-Extends, lift-IsQuiet,
  fetch_commit-IsQuiet, check_live-IsQuiet, fetch_request-IsQuiet, read_parent-IsQuiet,
  verify_parent-IsQuiet, verify_payload-IsQuiet,
}
use cnpg_backup.Repository.Publication.Payload.{
  IsIntact-wider, IsIntact, verify_payload-IsIntact, lift-eq-ok,
}

abbrev judge : Result Retirement → (Retirement → Result (Unit {0})) → Result (Unit {0})
judge decoded test = elim decoded [
  | err e ↦ err Error.corrupt
  | ok ret ↦ elim (test ret) [ err e ↦ err Error.corrupt | ok u ↦ err Error.retired ]
]

abbrev spent : Result (Unit {0}) → Result (Unit {0})
spent v = elim v [ err e ↦ err Error.corrupt | ok u ↦ err Error.retired ]

never_spent : {C : Type 0} (v : Result (Unit {0})) → spent v ≡ ok tt → C
never_spent (err e) h = absurd cc
never_spent (ok u) h = absurd cc

never_live :
    {C : Type 0} (decoded : Result Retirement) (test : Retirement → Result (Unit {0}))
    → judge decoded test ≡ ok tt
    → C
never_live (err e) test h = absurd cc
never_live (ok ret) test h = never_spent (test ret) h

-- The second branch of a conditional act.
else_of :
    {A : Type 0} (b : Bool) (first second : Act A) (s : State) {v : Result A × State}
    → b ≡ false
    → (if b then first else second) s ≡ v
    → second s ≡ v
else_of true first second s p h = absurd cc
else_of false first second s p h = h

module _ (r : Repo) where
  -- The key of the retirement of a backup.
  abbrev pub retired_key : Commit → Text
  retired_key c = backup_key r.id c.backup_uid ++ codes "retired.json"

  -- The store said that the backup has no retirement.
  pub record IsLive (c : Commit) (from upto : List Call) : Type 0 where
    pub asked_at : List Call
    pub asked : IsBetween from upto (read_object (retired_key c)) asked_at
    pub ambiguity : Bool
    pub answer : r.world.read asked_at (retired_key c) ≡ err (store not_found ambiguity)

  pub IsLive-wider :
      (c : Commit) (f from upto u : List Call)
      → Extends f from
      → Extends upto u
      → IsLive c from upto
      → IsLive c f u
  IsLive-wider c f from upto u h k i = record {
    asked_at = i.asked_at;
    asked = IsBetween-wider f from upto u (read_object (retired_key c)) i.asked_at h k i.asked;
    ambiguity = i.ambiguity;
    answer = i.answer;
  }

  -- A full backup, or one whose parent is its full backup, live and intact.
  pub data HasParent (c : Commit) (from upto : List Call) : Type 0 where
    is_full : text_eq c.kind (codes "full") ≡ true → HasParent c from upto
    has_full :
        (p : Commit)
        → validate_parent r.lib c p ≡ ok tt
        → IsLive p from upto
        → IsIntact r p from upto
        → HasParent c from upto

  pub HasParent-wider :
      (c : Commit) (f from upto u : List Call)
      → Extends f from
      → Extends upto u
      → HasParent c from upto
      → HasParent c f u
  HasParent-wider c f from upto u h k (is_full p) = is_full p
  HasParent-wider c f from upto u h k (has_full p valid lives intact) =
      has_full p valid (IsLive-wider p f from upto u h k lives)
        (IsIntact-wider r p f from upto u h k intact)

  pub record IsWinner (c : Commit) (from upto : List Call) : Type 0 where
    pub is_live : IsLive c from upto
    pub parent : HasParent c from upto
    pub intact : IsIntact r c from upto

  live_lem :
      (c : Commit) (b : Text) (answer : Result Object)
      → live r.lib r.id r.json.decode_retirement
          (elim answer [ err e ↦ err e | ok o ↦ ok o.content ])
          c
          b
        ≡ ok tt
      → (a : Bool) × (answer ≡ err (store not_found a))
  unfolding live
  live_lem c b (err (store not_found a)) h = (a, refl)
  live_lem c b (err e) h = absurd cc
  live_lem c b (ok o) h =
      never_live (r.json.decode_retirement o.content)
        (λ ret. validate_retirement ret r.id c.backup_uid (r.lib.sha256 b)) h

  pub check_live-IsLive :
      (c : Commit) (b : Text) (s t : State)
      → check_live r.world r.lib r.json r.id c b s ≡ (ok tt, t)
      → IsLive c s.calls t.calls
  unfolding check_live try_act read_key record_call
  check_live-IsLive c b s t h =
      let key = backup_key r.id c.backup_uid ++ codes "retired.json" in
      let (answer, m, p, h) = >>=-eq-ok (try_act (read_key r.world key)) _ s h in
      let same : ok (r.world.read s.calls key) ≡ ok answer = ap (λ p. p.0) p in
      let (e, last) = lift-eq-ok _ m h in
      let (a, q) = live_lem c b answer e in
      let calls : read_object key ∷ s.calls ≡ t.calls =
        ap (λ y. State.calls y.1) p ∙ ap State.calls last in
      record {
        asked_at = s.calls;
        asked = record {
          behind = Extends-refl s.calls;
          made = subst (λ l. Extends l t.calls) (sym calls) (Extends-refl t.calls);
        };
        ambiguity = a;
        answer = ok-injective same ∙ q;
      }

  read_parent-IsLive :
      (c p : Commit) (s t : State)
      → read_parent r c s ≡ (ok p, t)
      → IsLive p s.calls t.calls × (validate_parent r.lib c p ≡ ok tt)
  unfolding read_parent
  read_parent-IsLive c p s t h =
      let (uid, m, a, h) =
        >>=-eq-ok (lift (elim c.parent_backup_uid [ none ↦ err Error.invalid | some p ↦ ok p ])) _ s
          h in
      let (q, n, b, h) = >>=-eq-ok (fetch_commit r.world r.lib r.json r.id uid) _ m h in
      let (u, o, d, h) = >>=-eq-ok (lift (validate_parent r.lib c q.commit)) _ n h in
      let (v, w, e, h) = >>=-eq-ok (check_live r.world r.lib r.json r.id q.commit q.bytes) _ o h in
      let (req, x, f, h) = >>=-eq-ok (fetch_request r.world r.lib r.json r.id q.commit) _ w h in
      let same : q.commit ≡ p = ok-injective (lift-eq-ok (ok q.commit) x h).0 in
      let start =
        Extends-trans s.calls m.calls o.calls (ok-Extends (lift _) s m (lift-IsQuiet _) a) (
          Extends-trans m.calls n.calls o.calls
            (ok-Extends (fetch_commit r.world r.lib r.json r.id uid) m n
              (fetch_commit-IsQuiet r uid) b)
            (ok-Extends (lift (validate_parent r.lib c q.commit)) n o (lift-IsQuiet _) d)) in
      let end =
        Extends-trans w.calls x.calls t.calls
          (ok-Extends (fetch_request r.world r.lib r.json r.id q.commit) w x
            (fetch_request-IsQuiet r q.commit) f)
          (ok-Extends (lift (ok q.commit)) x t (lift-IsQuiet (ok q.commit)) h) in
      (
        subst (λ k. IsLive k s.calls t.calls) same
            (IsLive-wider q.commit s.calls o.calls w.calls t.calls start end
              (check_live-IsLive q.commit q.bytes o w e)),
        subst (λ k. validate_parent r.lib c k ≡ ok tt) same
            (lift-eq-ok (validate_parent r.lib c q.commit) n d).0,
      )

  pub verify_parent-HasParent :
      (c : Commit) (s t : State) → verify_parent r c s ≡ (ok tt, t) → HasParent c s.calls t.calls
  unfolding verify_parent
  verify_parent-HasParent c s t h = elim (Bool-cases (text_eq c.kind (codes "full"))) [
    | inl p ↦ is_full p
    | inr p ↦
        let rest =
          else_of (text_eq c.kind (codes "full")) (lift (ok tt))
            (read_parent r c >>= (λ q. verify_payload r q)) s p h in
        let (q, m, w, rest) = >>=-eq-ok (read_parent r c) _ s rest in
        let (live_parent, valid) = read_parent-IsLive c q s m w in
        let first = ok-Extends (read_parent r c) s m (read_parent-IsQuiet r c) w in
        let second = ok-Extends (verify_payload r q) m t (verify_payload-IsQuiet r q) rest in
        has_full q valid
          (IsLive-wider q s.calls s.calls m.calls t.calls (Extends-refl s.calls) second live_parent)
          (IsIntact-wider r q s.calls m.calls t.calls t.calls first (Extends-refl t.calls)
            (verify_payload-IsIntact r q m t rest))
  ]

  pub verify_winner-IsWinner :
      (c : Commit) (b : Text) (s t : State)
      → verify_winner r c b s ≡ (ok tt, t)
      → IsWinner c s.calls t.calls
  unfolding verify_winner
  verify_winner-IsWinner c b s t h =
      let (u, m, p, h) = >>=-eq-ok (check_live r.world r.lib r.json r.id c b) _ s h in
      let (req, n, q, h) = >>=-eq-ok (fetch_request r.world r.lib r.json r.id c) _ m h in
      let (v, o, w, h) = >>=-eq-ok (verify_parent r c) _ n h in
      let e1 =
        ok-Extends (check_live r.world r.lib r.json r.id c b) s m (check_live-IsQuiet r c b) p in
      let e2 =
        ok-Extends (fetch_request r.world r.lib r.json r.id c) m n (fetch_request-IsQuiet r c) q in
      let e3 = ok-Extends (verify_parent r c) n o (verify_parent-IsQuiet r c) w in
      let e4 = ok-Extends (verify_payload r c) o t (verify_payload-IsQuiet r c) h in
      let e12 = Extends-trans s.calls m.calls n.calls e1 e2 in
      let e34 = Extends-trans n.calls o.calls t.calls e3 e4 in
      record {
        is_live =
            IsLive-wider c s.calls s.calls m.calls t.calls (Extends-refl s.calls)
              (Extends-trans m.calls n.calls t.calls e2 e34) (check_live-IsLive c b s m p);
        parent =
            HasParent-wider c s.calls n.calls o.calls t.calls e12 e4
              (verify_parent-HasParent c n o w);
        intact =
            IsIntact-wider r c s.calls o.calls t.calls t.calls
              (Extends-trans s.calls n.calls o.calls e12 e3) (Extends-refl t.calls)
              (verify_payload-IsIntact r c o t h);
      }
