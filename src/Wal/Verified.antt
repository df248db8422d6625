-- ===== src/Wal/Verified.antt =====
-- internal/wal/wal.go: what a successful `Retrieve` and `Archive` have verified.
use cnpg_backup.Prelude.{
  Bool, false, Bool-cases, subst, inr, codes, Option-cases, guard_passed, reject-eq-ok, ℕ, zero,
  suc, ◌+◌, ◌≤◌, true, not, ◌&&◌, ◌||◌, ◌≡◌, refl, ap, sym, ◌∙◌, inl, inr, [], ◌∷◌, Option, none,
  some, Text, text_eq, text_eq→eq, leb, leb→le, ◌==◌, ==→eq, length, take, arith, Result, ok, err,
  Error, wal_local, wal_conflict, >>=-eq-ok, guard-eq-ok, ok-injective, and_left, and_right,
}
use cnpg_backup.Repository.Names.Keys.{wal_key}
use cnpg_backup.Wal.Objects.{
  Member, no_header, member, compression_entry, Codec, Files, Integrity, Info, limits, metadata,
  segment_sized, stored_hash_entry,
}
use cnpg_backup.Wal.Retrieve.{
  Remote, Local, retrieve, check_content, content_of, copy_bounded, missing, open_spool, rest_of,
  is_broken, same_object,
}
use cnpg_backup.Wal.Archive.{
  Stat, Source, Staging, Upload, stage, archive, read_source, settled, source_ok, put_failure,
  absence,
}

-- A take that gives fewer elements than it may give takes all.
take_all : (n : ℕ) (s : Text) → length (take (suc n) s) ≤ n → take (suc n) s ≡ s
take_all n [] h = refl
take_all zero (c ∷ s) h = absurd (omega arith)
take_all (suc n) (c ∷ s) h = ap (◌∷◌ c) (take_all n s (omega arith))

take_bounded : (n : ℕ) (s : Text) → length (take (n + 1) s) ≤ n → take (n + 1) s ≡ s
take_bounded n s = let e : n + 1 ≡ suc n = omega arith in rw e (take_all n s)

-- What some stored bytes stand for: themselves, or the content of the one gzip member that they are.
pub data IsUnpacked (codec : Codec) (compression stored content : Text) : Type 0 where
  plain :
      text_eq compression (codes "gzip") ≡ false
      → content ≡ stored
      → IsUnpacked codec compression stored content
  inflated :
      text_eq compression (codes "gzip") ≡ true
      → codec.gunzip stored ≡ member content [] false
      → IsUnpacked codec compression stored content

-- `bound` is the file's key and the bound of its raw size.
pub record IsRetrieved (codec : Codec) (w : Files) (remote : Remote) (name : Text) (raw : Integrity)
    (content : Text) : Type 0 where
  pub info : Info
  pub bound : Text × ℕ
  pub bounded : limits w name ≡ ok bound
  pub keyed : wal_key w.identity name ≡ ok bound.0
  pub described : remote.head bound.0 ≡ ok info
  pub got : Info × Text
  pub downloaded :
      remote.download bound.0
        (record { size = info.size; sha256 = info.metadata stored_hash_entry })
      ≡ ok got
  pub unpacked : IsUnpacked codec (info.metadata compression_entry) (take info.size got.1) content
  pub declared : metadata w name info ≡ ok raw
  pub hashed : codec.sha256 content ≡ raw.sha256
  pub sized : length content ≡ raw.size

record IsChecked (codec : Codec) (raw last : Integrity) (source : Member) (content : Text)
    : Type 0 where
  first : raw ≡ last
  sized : length content ≡ raw.size
  hashed : codec.sha256 content ≡ raw.sha256
  whole : content ≡ content_of source
  ended : rest_of source ≡ []
  sealed : is_broken source ≡ false

not-true : (t : Bool) → not t ≡ true → t ≡ false
not-true true h = cc
not-true false h = refl

nothing_left : (s : Text) → (length s == 0) ≡ true → s ≡ []
nothing_left [] h = refl
nothing_left (c ∷ s) h = ground arith

opened_member :
    (codec : Codec) (stored : Text) (m source : Member)
    → codec.gunzip stored ≡ m
    → (elim m [
      | no_header ↦ err Error.corrupt
      | member content rest broken ↦ ok (member content rest broken)
    ])
      ≡ ok source
    → rest_of source ≡ []
    → is_broken source ≡ false
    → codec.gunzip stored ≡ member (content_of source) [] false
opened_member codec stored no_header source e h p q = absurd cc
opened_member codec stored (member c t b) source e h p q =
    let same : member c t b ≡ source = ok-injective h in
    let rest : t ≡ [] = ap rest_of same ∙ p in
    let broken : b ≡ false = ap is_broken same ∙ q in
    let content : c ≡ content_of source = ap content_of same in cc (e, rest, broken, content)

open_spool-IsUnpacked :
    (codec : Codec) (info : Info) (stored : Text) (source : Member)
    → open_spool codec info stored ≡ ok source
    → rest_of source ≡ []
    → is_broken source ≡ false
    → IsUnpacked codec (info.metadata compression_entry) stored (content_of source)
unfolding open_spool
open_spool-IsUnpacked codec info stored source h p q =
    elim (Bool-cases (text_eq (info.metadata compression_entry) (codes "gzip"))) [
      | inl t ↦
          inflated t (opened_member codec stored (codec.gunzip stored) source refl (rw t at h) p q)
      | inr f ↦
          let same : member stored [] false ≡ source = ok-injective (rw f at h) in
          plain f (sym (ap content_of same))
    ]

replaced :
    (e : Error) (answer : Result Text) {k : Text}
    → (elim answer [ err f ↦ err e | ok k ↦ ok k ]) ≡ ok k
    → answer ≡ ok k
replaced e (err f) h = absurd cc
replaced e (ok k) h = h

pub limits-key :
    (w : Files) (name : Text) {b : Text × ℕ}
    → limits w name ≡ ok b
    → wal_key w.identity name ≡ ok b.0
unfolding limits
limits-key w name h =
    let (a, h) =
      guard-eq-ok (text_eq w.compression (codes "none") || text_eq w.compression (codes "gzip"))
        Error.invalid _ h in
    let (k, found, h) =
      >>=-eq-ok (elim (wal_key w.identity name) [ err e ↦ err Error.invalid | ok k ↦ ok k ]) _ h in
    replaced Error.invalid (wal_key w.identity name) found ∙ ap (λ p. ok p.0) (ok-injective h)

check_content-eq-ok :
    (codec : Codec) (disk : Local) (raw last : Integrity) (source : Member) (content : Text)
    → check_content codec disk raw source ≡ ok (last, content)
    → IsChecked codec raw last source content
unfolding check_content
check_content-eq-ok codec disk raw last source content h =
    let copy = copy_bounded raw.size (content_of source) in
    let (a, h) = guard-eq-ok disk.truncated wal_local _ h in
    let (b, h) = guard-eq-ok disk.rewound wal_local _ h in
    let (c, h) = guard-eq-ok disk.written wal_local _ h in
    let (d, h) =
      guard-eq-ok
        (disk.copied
          && not (is_broken source)
          && length copy == raw.size
          && text_eq (codec.sha256 copy) raw.sha256)
        Error.corrupt _ h in
    let (e, h) = guard-eq-ok (length (rest_of source) == 0) Error.corrupt _ h in
    let (u, h) = reject-eq-ok disk.canceled Error.canceled _ h in
    let (f, h) = guard-eq-ok disk.synced wal_local _ h in
    let same : copy ≡ content = cc in
    let first : raw ≡ last = cc in
    let front = and_left _ (text_eq (codec.sha256 copy) raw.sha256) d in
    let size = and_right (disk.copied && not (is_broken source)) (length copy == raw.size) front in
    let hash =
      and_right (disk.copied && not (is_broken source) && length copy == raw.size)
        (text_eq (codec.sha256 copy) raw.sha256) d in
    let exact = ==→eq (length copy) raw.size size in
    record {
      first = first;
      sized = rw (sym same) exact;
      hashed = rw (sym same) (text_eq→eq (codec.sha256 copy) raw.sha256 hash);
      whole = sym same ∙ take_bounded raw.size (content_of source) (omega (arith, exact));
      ended = nothing_left (rest_of source) e;
      sealed = not-true (is_broken source) (
          and_right disk.copied (not (is_broken source))
            (and_left _ (length copy == raw.size) front));
    }

-- The answer to the description of an object.
abbrev pub describe : Option Error → Result Info → Result Info
describe probe answer = elim answer [ err e ↦ err (missing probe e) | ok i ↦ ok i ]

pub described :
    (probe : Option Error) (answer : Result Info) {i : Info}
    → describe probe answer ≡ ok i
    → answer ≡ ok i
described probe (err e) h = cc
described probe (ok i) h = h

pub retrieve-IsRetrieved :
    (codec : Codec) (w : Files) (remote : Remote) (disk : Local) (name : Text) (raw : Integrity)
    (content : Text)
    → retrieve codec w remote disk name ≡ ok (raw, content)
    → IsRetrieved codec w remote name raw content
unfolding retrieve
retrieve-IsRetrieved codec w remote disk name raw content h =
    let (bound, bounded, h) = >>=-eq-ok (limits w name) _ h in
    let (info, found, h) = >>=-eq-ok (describe (remote.probe bound.0) (remote.head bound.0)) _ h in
    let (declared_raw, declared, h) = >>=-eq-ok (metadata w name info) _ h in
    let (a, h) = guard-eq-ok disk.spooled wal_local _ h in
    let (got, b, h) =
      >>=-eq-ok
        (remote.download bound.0
          (record { size = info.size; sha256 = info.metadata stored_hash_entry }))
        _ h in
    let (got_raw, c, h) = >>=-eq-ok (metadata w name got.0) _ h in
    let (d, h) = guard-eq-ok (same_object declared_raw info got_raw got.0) Error.corrupt _ h in
    let (source, e, h) = >>=-eq-ok (open_spool codec info (take info.size got.1)) _ h in
    let v = check_content-eq-ok codec disk declared_raw raw source content h in
    record {
      info = info;
      bound = bound;
      bounded = bounded;
      keyed = limits-key w name bounded;
      described = described (remote.probe bound.0) (remote.head bound.0) found;
      got = got;
      downloaded = b;
      unpacked =
          subst (λ s. IsUnpacked codec (info.metadata compression_entry) (take info.size got.1) s)
            (sym v.whole)
            (open_spool-IsUnpacked codec info (take info.size got.1) source e v.ended v.sealed);
      declared = declared ∙ ap ok v.first;
      hashed = v.hashed ∙ ap Integrity.sha256 v.first;
      sized = v.sized ∙ ap Integrity.size v.first;
    }

-- What holds behind an acknowledged file.
pub record IsArchived (codec : Codec) (w : Files) (remote : Remote) (name : Text) (source : Source)
    : Type 0 where
  pub integrity : Integrity
  pub content : Text
  pub fetched : IsRetrieved codec w remote name integrity content
  pub same_size : length content ≡ length source.content
  pub same_hash : codec.sha256 content ≡ codec.sha256 source.content

read_all :
    (bound : ℕ) (st : Stat) (source : Source)
    → st.size ≤ bound
    → settled st source (read_source bound st source) ≡ true
    → read_source bound st source ≡ source.content
unfolding settled read_source
read_all bound st source h k = elim (Option-cases source.after) [
  | inl p ↦ absurd cc
  | inr (later, p) ↦
      let copy = copy_bounded bound (take (st.size + 1) source.content) in
      let full : length copy ≡ st.size = ground arith in
      let outer : copy ≡ take (st.size + 1) source.content =
        take_bounded bound (take (st.size + 1) source.content) (omega arith) in
      let inner_size : length (take (st.size + 1) source.content) ≡ st.size =
        sym (ap length outer) ∙ full in
      let inner = take_bounded st.size source.content (omega (arith, inner_size)) in outer ∙ inner
]

source_ok-bounded :
    (name : Text) (bound : ℕ) (st : Stat) → source_ok name bound st ≡ true → st.size ≤ bound
unfolding source_ok
source_ok-bounded name bound st h = leb→le st.size bound (
    and_right (st.regular && leb 1 st.size) (leb st.size bound)
      (and_left _ (not (segment_sized name) || st.size == bound) h))

-- A file that was staged is whole in what is sent.
pub stage-whole :
    (codec : Codec) (w : Files) (disk : Staging) (name : Text) (source : Source) (raw : Text)
    (upload : Upload)
    → stage codec w disk name source ≡ ok (raw, upload)
    → raw ≡ source.content
unfolding stage
stage-whole codec w disk name source raw upload h =
    let (bound, a, h) = >>=-eq-ok (limits w name) _ h in
    let (st, b, h) =
      >>=-eq-ok (elim source.before [ none ↦ err wal_local | some st ↦ ok st ]) _ h in
    let (c, h) = guard-eq-ok (source_ok name bound.1 st) Error.invalid _ h in
    let (d, h) = guard-eq-ok disk.spooled wal_local _ h in
    let (e, h) = guard-eq-ok disk.copied wal_local _ h in
    let (f, h) =
      guard-eq-ok (settled st source (read_source bound.1 st source)) Error.invalid _ h in
    let (g, h) = guard-eq-ok _ wal_local _ h in
    let (i, h) = guard-eq-ok disk.synced wal_local _ h in
    let small : st.size ≤ bound.1 = source_ok-bounded name bound.1 st c in
    let same : read_source bound.1 st source ≡ raw = ap (λ p. p.0) (ok-injective h) in
    sym same ∙ read_all bound.1 st source small f

fetched_lem :
    {A : Type 0} (put_error : Option Error) (answer : Result A) {v : A}
    → (elim answer [ err e ↦ err (absence put_error e) | ok v ↦ ok v ]) ≡ ok v
    → answer ≡ ok v
fetched_lem put_error (err e) h = cc
fetched_lem put_error (ok v) h = h

-- When `Archive` acknowledges a file, it has downloaded what the store holds under the file's key, by
-- the declared size and hash of the stored bytes, and what these bytes unpack to has the declared,
-- bounded size and hash, which are the size and the hash of the whole source file. That holds for every
-- answer of store and disk.
pub archive-IsArchived :
    (codec : Codec) (w : Files) (put : Upload → Option Error) (remote : Remote) (disk : Staging)
    (reader : Local) (name : Text) (source : Source)
    → archive codec w put remote disk reader name source ≡ ok tt
    → IsArchived codec w remote name source
unfolding archive
archive-IsArchived codec w put remote disk reader name source h =
    let (staged, a, h) = >>=-eq-ok (stage codec w disk name source) _ h in
    let (u, b, h) = >>=-eq-ok (put_failure (put staged.1)) _ h in
    let (c, h) = guard-eq-ok disk.respooled wal_local _ h in
    let (got, d, h) =
      >>=-eq-ok
        (elim (retrieve codec w remote reader name) [
          | err e ↦ err (absence (put staged.1) e)
          | ok v ↦ ok v
        ])
        _ h in
    let e =
      guard_passed (got.0.size == length staged.0 && text_eq got.0.sha256 (codec.sha256 staged.0))
        wal_conflict h in
    let whole = stage-whole codec w disk name source staged.0 staged.1 a in
    let fetched =
      retrieve-IsRetrieved codec w remote reader name got.0 got.1
        (fetched_lem (put staged.1) _ d) in
    let size =
      ==→eq got.0.size (length staged.0)
        (and_left _ (text_eq got.0.sha256 (codec.sha256 staged.0)) e) in
    let hash =
      text_eq→eq got.0.sha256 (codec.sha256 staged.0)
        (and_right (got.0.size == length staged.0) _ e) in
    record {
      integrity = got.0;
      content = got.1;
      fetched = fetched;
      same_size = fetched.sized ∙ size ∙ ap length whole;
      same_hash = fetched.hashed ∙ hash ∙ ap codec.sha256 whole;
    }
