-- ===== src/Repository/Publication/Downloaded.antt =====
-- internal/repository/publication.go: what `DownloadInput` leaves in the caller's file.
use cnpg_backup.Prelude.{
  text_eq, codes, Bool, true, false, if◌then◌else◌, ◌∷◌, ◌≡◌, sym, ap, ◌∙◌, List, some, Text, ok,
  ok-injective, subst,
}
use cnpg_backup.Repository.Gate.Holds.{Hold, check_hold}
use cnpg_backup.Repository.Publication.Files.{File, Expected, verify_file}
use cnpg_backup.Repository.Publication.Acts.{
  Act, ◌>>=◌, Call, download_object, record_call, State, >>=-eq-ok, lift, download_key,
}
use cnpg_backup.Repository.Publication.Stored.{Published, fetch_commit, check_live, fetch_request}
use cnpg_backup.Repository.Publication.Verify.{Repo, read_parent}
use cnpg_backup.Repository.Publication.Begin.{check_now}
use cnpg_backup.Repository.Publication.Input.{ℤ, input_of, check_edge, download_input}
use cnpg_backup.Repository.Publication.Fetched.{IsFetched, fetch_commit-IsFetched}
use cnpg_backup.Repository.Schema.Records.{Commit}
use cnpg_backup.Repository.Publication.Quiet.{
  Extends, IsBetween, IsQuiet, quiet_ok, quiet_trans, >>=-IsQuiet, lift-IsQuiet, check_now-IsQuiet,
  fetch_commit-IsQuiet, check_live-IsQuiet, fetch_request-IsQuiet, read_parent-IsQuiet,
  download_key-IsQuiet,
}
use cnpg_backup.Repository.Publication.Payload.{lift-eq-ok}
use cnpg_backup.Repository.Publication.Winner.{IsLive, IsLive-wider, check_live-IsLive}

choose-IsQuiet :
    {A : Type 0} (b : Bool) (x y : Act A) → IsQuiet x → IsQuiet y → IsQuiet (if b then x else y)
choose-IsQuiet true x y h k = h
choose-IsQuiet false x y h k = k

check_edge-IsQuiet : (r : Repo) (c : Commit) → IsQuiet (check_edge r c)
unfolding check_edge
check_edge-IsQuiet r c =
    choose-IsQuiet (text_eq c.kind (codes "differential")) (read_parent r c >>= (λ q. lift (ok tt)))
      (lift (ok tt))
      (>>=-IsQuiet (read_parent r c) _ (read_parent-IsQuiet r c) (λ q. lift-IsQuiet (ok tt)))
      (lift-IsQuiet (ok tt))

module _ (r : Repo) (h : Hold) (uid : Text) (index : ℤ) where
  pub record IsInput (s t : State) (f : File) : Type 0 where
    pub admitted :
        check_hold r.id r.gate_size (record h { uncertain = s.uncertain }) (r.world.gate s.calls)
        ≡ ok tt
    pub source : Published
    pub fetched : IsFetched r uid s.calls source
    pub is_live : IsLive r source.commit s.calls t.calls
    pub wanted : Text × Expected
    pub selected : input_of r source.commit index ≡ ok wanted
    pub asked_at : List Call
    pub asked :
        IsBetween s.calls t.calls
          (download_object wanted.0 (Expected.size wanted.1) (Expected.hash wanted.1))
          asked_at
    pub given :
        r.world.download asked_at wanted.0 (Expected.size wanted.1) (Expected.hash wanted.1) ≡ ok f
    pub verified : verify_file r.lib.sha256 r.gunzip (some f) wanted.1 ≡ ok tt

  now_lem :
      (g : Hold) (s m : State)
      → check_now r g s ≡ (ok tt, m)
      → (check_hold r.id r.gate_size (record g { uncertain = s.uncertain }) (r.world.gate s.calls)
          ≡ ok tt)
        × (s ≡ m)
  unfolding check_now
  now_lem g s m a = (ap (λ z. z.0) a, ap (λ z. z.1) a)

  -- If `DownloadInput` succeeds, its hold was admitted by the gate; the store then answered the read of
  -- the commit of the backup that was asked for with a valid commit of that backup, and said behind it
  -- that this is not retired; and the file holds what the store gave in this call for the manifest or
  -- the artifact that this commit names, with the sizes and hashes of the commit.
  pub download_input-IsInput :
      (s t : State) (f : File) → download_input r h uid index s ≡ (ok f, t) → IsInput s t f
  unfolding download_input download_key record_call
  download_input-IsInput s t f e =
      let (u, m, a, e) = >>=-eq-ok (check_now r h) _ s e in
      let (p, n, b, e) = >>=-eq-ok (fetch_commit r.world r.lib r.json r.id uid) _ m e in
      let (u, o, c, e) = >>=-eq-ok (check_live r.world r.lib r.json r.id p.commit p.bytes) _ n e in
      let (req, q, d, e) = >>=-eq-ok (fetch_request r.world r.lib r.json r.id p.commit) _ o e in
      let (u, v, g, e) = >>=-eq-ok (check_edge r p.commit) _ q e in
      let (wanted, w, i, e) = >>=-eq-ok (lift (input_of r p.commit index)) _ v e in
      let (got, x, j, e) =
        >>=-eq-ok (download_key r.world wanted.0 (Expected.size wanted.1) (Expected.hash wanted.1))
          _ w e in
      let (u, y, k, e) =
        >>=-eq-ok (lift (verify_file r.lib.sha256 r.gunzip (some got) wanted.1)) _ x e in
      let same = ok-injective (lift-eq-ok (ok got) y e).0 in
      let key = wanted.0 in
      let size = Expected.size wanted.1 in
      let hash = Expected.hash wanted.1 in
      let moved : download_object key size hash ∷ w.calls ≡ x.calls = ap (λ z. State.calls z.1) j in
      let start = quiet_ok (check_now r h) s m (check_now-IsQuiet r h) a in
      let read =
        quiet_ok (fetch_commit r.world r.lib r.json r.id uid) m n (fetch_commit-IsQuiet r uid) b in
      let live =
        quiet_ok (check_live r.world r.lib r.json r.id p.commit p.bytes) n o
          (check_live-IsQuiet r p.commit p.bytes) c in
      let front =
        quiet_trans
          (quiet_ok (fetch_request r.world r.lib r.json r.id p.commit) o q
            (fetch_request-IsQuiet r p.commit) d)
          (quiet_trans (quiet_ok (check_edge r p.commit) q v (check_edge-IsQuiet r p.commit) g)
            (quiet_ok (lift (input_of r p.commit index)) v w (lift-IsQuiet _) i)) in
      let fetch =
        quiet_ok (download_key r.world key size hash) w x
          (download_key-IsQuiet r.world key size hash) j in
      let last =
        quiet_trans
          (quiet_ok (lift (verify_file r.lib.sha256 r.gunzip (some got) wanted.1)) x y
            (lift-IsQuiet _) k)
          (quiet_ok (lift (ok got)) y t (lift-IsQuiet (ok got)) e) in
      record {
        admitted = (now_lem h s m a).0;
        source = p;
        fetched =
            subst (λ z. IsFetched r uid (State.calls z) p) (sym (now_lem h s m a).1)
              (fetch_commit-IsFetched r uid m n p b).0;
        is_live =
            IsLive-wider r p.commit s.calls n.calls o.calls t.calls (quiet_trans start read).extends
              (quiet_trans front (quiet_trans fetch last)).extends
              (check_live-IsLive r p.commit p.bytes n o c);
        wanted = wanted;
        selected = (lift-eq-ok (input_of r p.commit index) v i).0;
        asked_at = w.calls;
        asked = record {
          behind = (quiet_trans start (quiet_trans read (quiet_trans live front))).extends;
          made = subst (λ l. Extends l t.calls) (sym moved) last.extends;
        };
        given = ap (λ z. z.0) j ∙ ap ok same;
        verified =
            subst (λ z. verify_file r.lib.sha256 r.gunzip (some z) wanted.1 ≡ ok tt) same
              (lift-eq-ok (verify_file r.lib.sha256 r.gunzip (some got) wanted.1) x k).0;
      }
