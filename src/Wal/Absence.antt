-- ===== src/Wal/Absence.antt =====
-- internal/wal/wal.go: when `Retrieve` reports a file absent, which PostgreSQL takes for the end of
-- the archive.
use cnpg_backup.Prelude.{
  length, ◌==◌, not, ◌⊎◌, [], text_eq, codes, take, ℕ, Bool, true, false, ◌&&◌, ◌≡◌, refl, ap, ◌∙◌,
  sym, inl, inr, Option, none, some, Text, Result, ok, err, Error, store, head_missing, not_found,
  wal_local, wal_expired, guard, reject, ◌>>=◌, ◌>>◌, if◌then◌else◌, Bool-cases,
}
use cnpg_backup.Repository.Names.Hex.{decimal}
use cnpg_backup.Repository.Names.Keys.{wal_key}
use cnpg_backup.Wal.Objects.{
  Member, no_header, member, Codec, Files, Integrity, Info, limits, metadata, metadata_ok,
  stored_hash_entry, raw_bytes_entry, raw_hash_entry, compression_entry,
}
use cnpg_backup.Wal.Verified.{describe, described, limits-key}
use cnpg_backup.Wal.Retrieve.{
  content_of, rest_of, is_broken, copy_bounded, Remote, Local, retrieve, check_content, missing,
  open_spool, same_object,
}

abbrev is_absence : Error → Bool
is_absence (store not_found a) = true
is_absence _ = false

-- A result that, if it is an error, is none of absence.
Present {ℓ} : {A : Type ℓ} → Result A → Type 0
Present (err e) = is_absence e ≡ false
Present (ok v) = Unit {0}

ok-Present : {A : Type 0} (v : A) → Present (ok v)
unfolding Present
ok-Present v = tt

err-Present : (A : Type 0) (e : Error) → is_absence e ≡ false → Present {A = A} (err e)
unfolding Present
err-Present _ e h = h

>>=-Present :
    {A B : Type 0} (first : Result A) (next : A → Result B)
    → Present first
    → ((a : A) → Present (next a))
    → Present (first >>= next)
unfolding Present
>>=-Present (err e) next h k = h
>>=-Present (ok a) next h k = k a

guard-Present :
    {A : Type 0} (t : Bool) (e : Error) (next : Result A)
    → is_absence e ≡ false
    → Present next
    → Present (guard t e >> next)
guard-Present true e next h k = k
guard-Present false e next h k = err-Present _ e h

reject-Present :
    {A : Type 0} (t : Bool) (e : Error) (next : Result A)
    → is_absence e ≡ false
    → Present next
    → Present (reject t e >> next)
reject-Present true e next h k = err-Present _ e h
reject-Present false e next h k = k

-- Every error replaced by one that is none of absence.
abbrev replace_error : {A : Type 0} → Error → Result A → Result A
replace_error e r = elim r [ err f ↦ err e | ok a ↦ ok a ]

replace_error-Present :
    {A : Type 0} (e : Error) (r : Result A) → is_absence e ≡ false → Present (replace_error e r)
replace_error-Present e (err f) h = err-Present _ e h
replace_error-Present e (ok a) h = ok-Present a

limits-Present : (w : Files) (name : Text) → Present (limits w name)
unfolding limits
limits-Present w name = guard-Present _ Error.invalid _ refl (
    >>=-Present (replace_error Error.invalid (wal_key w.identity name)) _
      (replace_error-Present Error.invalid (wal_key w.identity name) refl) (λ k. ok-Present _))

abbrev declare : Files → Text → ℕ → Info → Option ℕ → Result Integrity
declare w name bound info o = elim o [
  | none ↦ err Error.corrupt
  | some raw ↦
      if metadata_ok w name bound info raw
      then ok (record { size = raw; sha256 = info.metadata raw_hash_entry })
      else err Error.corrupt
]

declare-Present :
    (w : Files) (name : Text) (bound : ℕ) (info : Info) (o : Option ℕ)
    → Present (declare w name bound info o)
declare-Present w name bound info none = err-Present _ Error.corrupt refl
declare-Present w name bound info (some raw) =
    elim (Bool-cases (metadata_ok w name bound info raw)) [
      | inl p ↦ rw p (ok-Present _)
      | inr p ↦ rw p (err-Present _ Error.corrupt refl)
    ]

metadata-Present : (w : Files) (name : Text) (info : Info) → Present (metadata w name info)
unfolding metadata
metadata-Present w name info = >>=-Present (limits w name) _ (limits-Present w name) (λ bounds.
    guard-Present _ wal_expired _ refl
      (declare-Present w name bounds.1 info (decimal (info.metadata raw_bytes_entry))))

abbrev open_member : Text → Bool → Member → Result Member
open_member spool t m =
    if t
    then elim m [
      | no_header ↦ err Error.corrupt
      | member content rest broken ↦ ok (member content rest broken)
    ]
    else ok (member spool [] false)

open_member-Present : (spool : Text) (t : Bool) (m : Member) → Present (open_member spool t m)
open_member-Present spool true no_header = err-Present _ Error.corrupt refl
open_member-Present spool true (member content rest broken) = ok-Present _
open_member-Present spool false m = ok-Present _

open_spool-Present :
    (codec : Codec) (info : Info) (spool : Text) → Present (open_spool codec info spool)
unfolding open_spool
open_spool-Present codec info spool =
    open_member-Present spool (text_eq (info.metadata compression_entry) (codes "gzip"))
      (codec.gunzip spool)

check_content-Present :
    (codec : Codec) (disk : Local) (raw : Integrity) (source : Member)
    → Present (check_content codec disk raw source)
unfolding check_content
check_content-Present codec disk raw source =
    let copy = copy_bounded raw.size (content_of source) in
    let exact =
      disk.copied
      && not (is_broken source)
      && length copy == raw.size
      && text_eq (codec.sha256 copy) raw.sha256 in
    guard-Present disk.truncated wal_local _ refl (
      guard-Present disk.rewound wal_local _ refl (
        guard-Present disk.written wal_local _ refl (
          guard-Present exact Error.corrupt _ refl (
            guard-Present (length (rest_of source) == 0) Error.corrupt _ refl (
              reject-Present disk.canceled Error.canceled _ refl (
                guard-Present disk.synced wal_local (ok (raw, copy)) refl
                  (ok-Present (raw, copy))))))))

-- An error of a chain is one of its first step or of what follows.
>>=-eq-err :
    {A B : Type 0} (first : Result A) (next : A → Result B) {e : Error}
    → first >>= next ≡ err e
    → (first ≡ err e) ⊎ ((a : A) × (first ≡ ok a) × (next a ≡ err e))
>>=-eq-err (err f) next h = inl cc
>>=-eq-err (ok a) next h = inr (a, refl, h)

-- No result that is `Present` is an error of absence.
Present-apart :
    {A C : Type 0} (r : Result A) {a : Bool} → Present r → r ≡ err (store not_found a) → C
unfolding Present
Present-apart (err e) h p = absurd cc
Present-apart (ok v) h p = absurd cc

-- Behind a first step that is `Present`, the error is one of what follows.
skip :
    {A B : Type 0} (first : Result A) (next : A → Result B) {a : Bool}
    → Present first
    → first >>= next ≡ err (store not_found a)
    → (v : A) × (first ≡ ok v) × (next v ≡ err (store not_found a))
skip first next h p = elim (>>=-eq-err first next p) [ inl q ↦ Present-apart first h q | inr q ↦ q ]

guard_skip :
    {B : Type 0} (t : Bool) (e : Error) (next : Result B) {a : Bool}
    → is_absence e ≡ false
    → guard t e >> next ≡ err (store not_found a)
    → next ≡ err (store not_found a)
guard_skip true e next h p = p
guard_skip false e next h p = Present-apart (err e) (err-Present _ e h) p

-- Where the report that a file is absent comes from: an authenticated answer, never the bare status
-- of a HEAD.
pub data IsAbsent (remote : Remote) (key : Text) (a : Bool) : Type 0 where
  at_head : remote.head key ≡ err (store not_found a) → IsAbsent remote key a
  at_probe :
      (b : Bool)
      → remote.head key ≡ err (store head_missing b)
      → remote.probe key ≡ some (store not_found a)
      → IsAbsent remote key a
  at_download :
      (info : Info) (asked : Integrity)
      → remote.head key ≡ ok info
      → remote.download key asked ≡ err (store not_found a)
      → IsAbsent remote key a

missing_lem :
    (probe : Option Error) (e : Error)
    → (missing probe e ≡ e)
      ⊎ ((g : Error) × (b : Bool) × (probe ≡ some g)
          × (e ≡ store head_missing b)
          × (missing probe e ≡ g))
unfolding missing
missing_lem (some g) (store head_missing b) = inr (g, b, refl, refl, refl)
missing_lem _ _ = inl refl

err-injective : {A : Type 0} {d e : Error} → ◌≡◌ {A = Result A} (err d) (err e) → d ≡ e
err-injective h = cc

head-IsAbsent :
    (remote : Remote) (key : Text) (answer : Result Info) (a : Bool)
    → remote.head key ≡ answer
    → describe (remote.probe key) answer ≡ err (store not_found a)
    → IsAbsent remote key a
head-IsAbsent remote key (ok i) a p h = absurd cc
head-IsAbsent remote key (err e) a p h = elim (missing_lem (remote.probe key) e) [
  | inl q ↦ at_head (p ∙ ap err (sym q) ∙ h)
  | inr (g, b, q, r, m) ↦
      at_probe b (p ∙ ap err r) (q ∙ ap some (sym m ∙ err-injective {A = Info} h))
]

-- If `Retrieve` reports that a file is absent, an authenticated answer about its key said so: the HEAD itself, the
-- GET that follows a HEAD without an answer body, or the download behind a description of the object.
pub retrieve-IsAbsent :
    (codec : Codec) (w : Files) (remote : Remote) (disk : Local) (name : Text) (a : Bool)
    → retrieve codec w remote disk name ≡ err (store not_found a)
    → (key : Text) × (wal_key w.identity name ≡ ok key) × IsAbsent remote key a
unfolding retrieve
retrieve-IsAbsent codec w remote disk name a h =
    let (bound, p, h) = skip (limits w name) _ (limits-Present w name) h in
    let absent : IsAbsent remote bound.0 a =
      elim (>>=-eq-err (describe (remote.probe bound.0) (remote.head bound.0)) _ h) [
        | inl q ↦ head-IsAbsent remote bound.0 (remote.head bound.0) a refl q
        | inr (info, found, h) ↦
            let (raw, q, h) = skip (metadata w name info) _ (metadata-Present w name info) h in
            let h = guard_skip disk.spooled wal_local _ refl h in
            let asked : Integrity = record {
              size = info.size;
              sha256 = info.metadata stored_hash_entry;
            } in
            elim (>>=-eq-err (remote.download bound.0 asked) _ h) [
              | inl q ↦
                  at_download info asked
                    (described (remote.probe bound.0) (remote.head bound.0) found) q
              | inr (got, b, h) ↦
                  let (got_raw, c, h) =
                    skip (metadata w name got.0) _ (metadata-Present w name got.0) h in
                  let h = guard_skip (same_object raw info got_raw got.0) Error.corrupt _ refl h in
                  let (source, e, h) =
                    skip (open_spool codec info (take info.size got.1)) _
                      (open_spool-Present codec info (take info.size got.1)) h in
                  Present-apart (check_content codec disk raw source)
                    (check_content-Present codec disk raw source) h
            ]
      ] in
    (bound.0, limits-key w name p, absent)
