-- ===== src/Wal/Staged.antt =====
-- internal/wal/wal.go: what `Archive` has checked of a file that it sends.
use Prim.Native.Nat.{bit_and, ◌-◌}
use cnpg_backup.Prelude.{
  ℕ, ◌+◌, ◌^◌, ◌≤◌, ◌<◌, Bool, true, false, not, ◌&&◌, ◌||◌, ◌≡◌, ap, sym, ◌∙◌, subst, inl, inr,
  none, some, Text, text_eq, codes, leb, leb→le, ◌==◌, if◌then◌else◌, length, arith, Result, ok,
  err, Error, wal_local, >>=-eq-ok, guard-eq-ok, ok-injective, Option-cases, and_left, and_right,
}
use cnpg_backup.Repository.Names.Hex.{valid_segment_size}
use cnpg_backup.Repository.Names.Keys.{wal_key}
use cnpg_backup.Repository.Names.Wal.{wal_timeline}
use cnpg_backup.Wal.Objects.{Codec, Files, mib, limits, segment_sized}
use cnpg_backup.Wal.Archive.{
  Stat, Source, Staging, Upload, stage, compress, entries, read_source, settled, source_ok,
}

segment_size_bounded : (size : ℕ) → valid_segment_size size ≡ true → size ≤ 2 ^ 30
unfolding valid_segment_size
segment_size_bounded size h = leb→le size (2 ^ 30) (
    and_right (leb (2 ^ 20) size) (leb size (2 ^ 30)) (and_left _ (bit_and size (size - 1) == 0) h))

timeline_sized : (name : Text) (size : ℕ) {t : ℕ} → wal_timeline name size ≡ ok t → size ≤ 2 ^ 30
unfolding wal_timeline
timeline_sized name size h =
    segment_size_bounded size (guard-eq-ok (valid_segment_size size) Error.invalid _ h).0

key_sized :
    (w : Files) (name : Text) {k : Text}
    → wal_key w.identity name ≡ ok k
    → w.identity.wal_segment_bytes ≤ 2 ^ 30
unfolding wal_key
key_sized w name h =
    let size = w.identity.wal_segment_bytes in
    let (t, p, q) = >>=-eq-ok (wal_timeline name size) _ h in timeline_sized name size p

replaced :
    (e : Error) (r : Result Text) {k : Text}
    → (elim r [ err f ↦ err e | ok k ↦ ok k ]) ≡ ok k
    → r ≡ ok k
replaced e (err f) h = absurd cc
replaced e (ok k) h = h

bound_lem : (t : Bool) (size : ℕ) → size ≤ 2 ^ 30 → (if t then size else mib) < 2 ^ 64
bound_lem true size h = omega arith
bound_lem false size h = omega arith

-- The bound of a file's size is one of 64 bits.
pub limits-bounded : (w : Files) (name : Text) {b : Text × ℕ} → limits w name ≡ ok b → b.1 < 2 ^ 64
unfolding limits
limits-bounded w name h =
    let (a, h) =
      guard-eq-ok (text_eq w.compression (codes "none") || text_eq w.compression (codes "gzip"))
        Error.invalid _ h in
    let (k, found, h) =
      >>=-eq-ok (elim (wal_key w.identity name) [ err e ↦ err Error.invalid | ok k ↦ ok k ]) _ h in
    let size = key_sized w name (replaced Error.invalid (wal_key w.identity name) found) in
    subst (λ n. n < 2 ^ 64) (ap (λ p. p.1) (ok-injective h))
      (bound_lem (segment_sized name) w.identity.wal_segment_bytes size)

settled-size :
    (st : Stat) (source : Source) (copy : Text)
    → settled st source copy ≡ true
    → length copy ≡ st.size
unfolding settled
settled-size st source copy h = elim (Option-cases source.after) [
  | inl p ↦ absurd cc
  | inr (later, p) ↦ ground arith
]

source_ok-parts :
    (name : Text) (bound : ℕ) (st : Stat)
    → source_ok name bound st ≡ true
    → (leb 1 st.size ≡ true)
      × (leb st.size bound ≡ true)
      × ((not (segment_sized name) || st.size == bound) ≡ true)
unfolding source_ok
source_ok-parts name bound st h =
    let front =
      and_left (st.regular && leb 1 st.size && leb st.size bound)
        (not (segment_sized name) || st.size == bound) h in
    let mid = and_left (st.regular && leb 1 st.size) (leb st.size bound) front in
    (
      and_right st.regular (leb 1 st.size) mid,
      and_right (st.regular && leb 1 st.size) _ front,
      and_right (st.regular && leb 1 st.size && leb st.size bound) _ h,
    )

pub record IsStaged (codec : Codec) (w : Files) (name : Text) (raw : Text) (u : Upload)
    : Type 0 where
  pub bound : Text × ℕ
  pub bounded : limits w name ≡ ok bound
  pub positive : leb 1 (length raw) ≡ true
  pub small : leb (length raw) bound.1 ≡ true
  pub whole : (not (segment_sized name) || length raw == bound.1) ≡ true
  pub stored : leb (length (compress codec w raw)) (bound.1 + mib) ≡ true
  pub key : u.key ≡ bound.0
  pub content : u.content ≡ compress codec w raw
  pub metadata : u.metadata ≡ entries codec w raw

pub stage-IsStaged :
    (codec : Codec) (w : Files) (disk : Staging) (name : Text) (source : Source) (raw : Text)
    (u : Upload)
    → stage codec w disk name source ≡ ok (raw, u)
    → IsStaged codec w name raw u
unfolding stage
stage-IsStaged codec w disk name source raw u h =
    let (bound, a, h) = >>=-eq-ok (limits w name) _ h in
    let (st, b, h) =
      >>=-eq-ok (elim source.before [ none ↦ err wal_local | some st ↦ ok st ]) _ h in
    let (c, h) = guard-eq-ok (source_ok name bound.1 st) Error.invalid _ h in
    let (d, h) = guard-eq-ok disk.spooled wal_local _ h in
    let (e, h) = guard-eq-ok disk.copied wal_local _ h in
    let copy = read_source bound.1 st source in
    let (f, h) = guard-eq-ok (settled st source copy) Error.invalid _ h in
    let (g, h) =
      guard-eq-ok (disk.measured && leb (length (compress codec w copy)) (bound.1 + mib)) wal_local
        _ h in
    let (i, h) = guard-eq-ok disk.synced wal_local _ h in
    let same : copy ≡ raw = ap (λ p. p.0) (ok-injective h) in
    let size : length raw ≡ st.size = sym (ap length same) ∙ settled-size st source copy f in
    let (positive, small, whole) = source_ok-parts name bound.1 st c in
    let sent = ap (λ p. p.1) (ok-injective h) in
    record {
      bound = bound;
      bounded = a;
      positive = subst (λ n. leb 1 n ≡ true) (sym size) positive;
      small = subst (λ n. leb n bound.1 ≡ true) (sym size) small;
      whole = subst (λ n. (not (segment_sized name) || n == bound.1) ≡ true) (sym size) whole;
      stored =
          subst (λ s. leb (length (compress codec w s)) (bound.1 + mib) ≡ true) same
            (and_right disk.measured _ g);
      key = sym (ap Upload.key sent);
      content = sym (ap Upload.content sent) ∙ ap (compress codec w) same;
      metadata = sym (ap Upload.metadata sent) ∙ ap (entries codec w) same;
    }
