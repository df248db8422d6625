-- ===== src/Wal/RoundTrip.antt =====
-- internal/wal/wal.go: the object that `Archive` writes is retrieved as the file it was made from.
use cnpg_backup.Prelude.{
  ℕ, suc, zero, ◌∷◌, ◌+◌, ◌^◌, ◌≤◌, ◌<◌, true, false, not, ◌||◌, ◌≡◌, refl, ap, ap₂, ◌∙◌, inl, inr,
  [], Option, none, some, if◌then◌else◌, ◌&&◌, store, head_missing, not_found, Text, text_eq,
  text_eq_refl, codes, leb, leb→le, ◌==◌, ==_refl, length, take, arith, Result, ok, err, Error,
  wal_local, guard, guard-eq-ok, >>=-ok, Bool-cases,
}
use cnpg_backup.Repository.Names.Hex.{valid_hash}
use cnpg_backup.Repository.Names.Keys.{decimal-format_decimal}
use cnpg_backup.Wal.Objects.{
  member, Codec, Files, Integrity, Info, mib, limits, metadata, metadata_ok, segment_sized,
  stored_hash_entry, compression_entry,
}
use cnpg_backup.Wal.Retrieve.{Remote, Local, retrieve, check_content, open_spool, same_object}
use cnpg_backup.Wal.Archive.{
  Source, Staging, Upload, stage, archive, put_failure, absence, compress, entries,
}
use cnpg_backup.Wal.Staged.{stage-IsStaged, limits-bounded}
use cnpg_backup.Wal.Verified.{stage-whole, describe}

-- What the code relies on of SHA-256 and gzip.
pub record IsCodec (codec : Codec) : Type 0 where
  pub hashes : (s : Text) → valid_hash (codec.sha256 s) ≡ true
  pub inflates : (s : Text) → codec.gunzip (codec.gzip s) ≡ member s [] false
  pub has_header : (s : Text) → 1 ≤ length (codec.gzip s)

-- A store that holds one object. A download is refused unless the object has the size and the hash
-- that are asked for.
abbrev pub holding : Codec → (key content : Text) → (Text → Text) → Remote
holding codec key content entry_of =
    let info : Info = record { size = length content; metadata = entry_of } in
    record {
      head = λ k. if text_eq k key then ok info else err (store head_missing false);
      probe = λ k. if text_eq k key then none else some (store not_found false);
      download = λ k asked.
          if text_eq k key
          then (if asked.size == length content && text_eq asked.sha256 (codec.sha256 content)
              then ok (info, content)
              else err Error.corrupt)
          else err (store not_found false);
    }

holding-download :
    (codec : Codec) (key content : Text) (entry_of : Text → Text) (hash : Text)
    → hash ≡ codec.sha256 content
    → (holding codec key content entry_of).download key
        (record { size = length content; sha256 = hash })
      ≡ ok (record { size = length content; metadata = entry_of }, content)
holding-download codec key content entry_of hash h =
    rw (text_eq_refl key)
      (rw (==_refl (length content), h, text_eq_refl (codec.sha256 content)) refl)

-- A disk on which nothing fails.
abbrev pub sound : Local
sound = record {
  spooled = true;
  truncated = true;
  rewound = true;
  written = true;
  copied = true;
  canceled = false;
  synced = true;
}

below_bound : (n b : ℕ) → leb n b ≡ true → b < 2 ^ 64 → n < 2 ^ 64
below_bound n b h k = let le : n ≤ b = leb→le n b h in omega arith

take-length : (s : Text) → take (length s) s ≡ s
take-length [] = refl
take-length (c ∷ s) = ap (◌∷◌ c) (take-length s)

take_empty : (n : ℕ) → ◌≡◌ {A = Text} (take n []) []
take_empty zero = refl
take_empty (suc n) = refl

take_over : (n : ℕ) (s : Text) → length s ≤ n → take n s ≡ s
take_over n [] h = take_empty n
take_over zero (c ∷ s) h = absurd (omega arith)
take_over (suc n) (c ∷ s) h = ap (◌∷◌ c) (take_over n s (omega arith))

module _ (codec : Codec) (laws : IsCodec codec) (w : Files) (name : Text) (raw : Text) where
  compression_ok :
      (b : Text × ℕ)
      → limits w name ≡ ok b
      → (text_eq w.compression (codes "none") || text_eq w.compression (codes "gzip")) ≡ true
  unfolding limits
  compression_ok b h =
      (guard-eq-ok (text_eq w.compression (codes "none") || text_eq w.compression (codes "gzip"))
        Error.invalid _ h).0

  compress-positive : leb 1 (length raw) ≡ true → leb 1 (length (compress codec w raw)) ≡ true
  unfolding compress
  compress-positive h = elim (Bool-cases (text_eq w.compression (codes "gzip"))) [
    | inl p ↦ rw p (ground (arith, laws.has_header raw))
    | inr p ↦ rw p h
  ]

  -- The metadata that is written passes the check, and declares the file.
  declared :
      (bound : Text × ℕ)
      → limits w name ≡ ok bound
      → leb 1 (length raw) ≡ true
      → leb (length raw) bound.1 ≡ true
      → (not (segment_sized name) || length raw == bound.1) ≡ true
      → leb (length (compress codec w raw)) (bound.1 + mib) ≡ true
      → metadata w name
          (record { size = length (compress codec w raw); metadata = entries codec w raw })
        ≡ ok (record { size = length raw; sha256 = codec.sha256 raw })
  unfolding metadata entries metadata_ok text_eq
  declared bound a positive small whole stored =
      let d =
        decimal-format_decimal (length raw)
          (below_bound (length raw) bound.1 small (limits-bounded w name a)) in
      rw a (
        rw d (
          rw
            (
              positive,
              small,
              whole,
              compress-positive positive,
              stored,
              text_eq_refl w.identity.system_identifier,
              laws.hashes raw,
              laws.hashes (compress codec w raw),
              compression_ok bound a,
            )
            refl))

  -- The object of a file, described and opened.
  opens :
      (sized : ℕ)
      → open_spool codec
          (record { size = sized; metadata = entries codec w raw })
          (compress codec w raw)
        ≡ ok (member raw [] false)
  unfolding open_spool compress entries text_eq
  opens sized = elim (Bool-cases (text_eq w.compression (codes "gzip"))) [
    | inl p ↦ rw p (rw (laws.inflates raw) refl)
    | inr p ↦ rw p refl
  ]

  checks :
      check_content codec sound
        (record { size = length raw; sha256 = codec.sha256 raw })
        (member raw [] false)
      ≡ ok (record { size = length raw; sha256 = codec.sha256 raw }, raw)
  unfolding check_content
  checks =
      rw (take_over (length raw + 1) raw (omega arith))
        (rw (==_refl (length raw), text_eq_refl (codec.sha256 raw)) refl)

  same : (raw_info : Integrity) (info : Info) → same_object raw_info info raw_info info ≡ true
  unfolding same_object
  same raw_info info =
      rw
        (
          ==_refl raw_info.size,
          text_eq_refl raw_info.sha256,
          text_eq_refl (info.metadata compression_entry),
          text_eq_refl (info.metadata stored_hash_entry),
        )
        refl

  stored_hash : entries codec w raw stored_hash_entry ≡ codec.sha256 (compress codec w raw)
  unfolding entries text_eq
  stored_hash = refl

  -- Reading back what was sent.
  returns :
      (bound : Text × ℕ)
      → limits w name ≡ ok bound
      → metadata w name
          (record { size = length (compress codec w raw); metadata = entries codec w raw })
        ≡ ok (record { size = length raw; sha256 = codec.sha256 raw })
      → retrieve codec w
          (holding codec bound.0 (compress codec w raw) (entries codec w raw))
          sound
          name
        ≡ ok (record { size = length raw; sha256 = codec.sha256 raw }, raw)
  unfolding retrieve
  returns bound a d =
      let stored = compress codec w raw in
      let remote = holding codec bound.0 stored (entries codec w raw) in
      let info : Info = record { size = length stored; metadata = entries codec w raw } in
      let whole : Integrity = record { size = length raw; sha256 = codec.sha256 raw } in
      let asked : Integrity = record {
        size = length stored;
        sha256 = entries codec w raw stored_hash_entry;
      } in
      let found : describe (remote.probe bound.0) (remote.head bound.0) ≡ ok info =
        rw (text_eq_refl bound.0) refl in
      let last =
        >>=-ok (open_spool codec info (take (length stored) stored)) _
          (ap (open_spool codec info) (take-length stored) ∙ opens (length stored))
        ∙ checks in
      >>=-ok (limits w name) _ a
      ∙ (>>=-ok (describe (remote.probe bound.0) (remote.head bound.0)) _ found
          ∙ (>>=-ok (metadata w name info) _ d
              ∙ (>>=-ok (remote.download bound.0 asked) _ (
                    holding-download codec bound.0 stored (entries codec w raw)
                      (entries codec w raw stored_hash_entry) stored_hash)
                  ∙ (>>=-ok (metadata w name info) _ d
                      ∙ (>>=-ok (guard (same_object whole info whole info) Error.corrupt) _
                            (ap (λ t. guard t Error.corrupt) (same whole info))
                          ∙ last)))))

abbrev read_back : Option Error → Result (Integrity × Text) → Result (Integrity × Text)
read_back put_error answer = elim answer [ err e ↦ err (absence put_error e) | ok v ↦ ok v ]

-- Under the laws of the codec, a file that `Archive` sends is retrieved byte for byte from a store that
-- holds what was sent under the key that it was sent to, and that refuses a download of another size or
-- hash than asked for, on a disk where nothing fails; and then `Archive` itself, whose write was
-- accepted, acknowledges the file.
pub archive-retrieve :
    (codec : Codec) (laws : IsCodec codec) (w : Files) (disk : Staging) (name : Text)
    (source : Source) (raw : Text) (u : Upload)
    → stage codec w disk name source ≡ ok (raw, u)
    → disk.respooled ≡ true
    → (retrieve codec w (holding codec u.key u.content u.metadata) sound name
        ≡ ok (
          record { size = length source.content; sha256 = codec.sha256 source.content },
          source.content,
        ))
      × (archive codec w
            (λ sent. none)
            (holding codec u.key u.content u.metadata)
            disk
            sound
            name
            source
          ≡ ok tt)
unfolding archive put_failure
archive-retrieve codec laws w disk name source raw u h respooled =
    let staged = stage-IsStaged codec w disk name source raw u h in
    let described =
      declared codec laws w name raw staged.bound staged.bounded staged.positive staged.small
        staged.whole staged.stored in
    let back = returns codec laws w name raw staged.bound staged.bounded described in
    let sent : Integrity = record { size = length raw; sha256 = codec.sha256 raw } in
    let held : retrieve codec w (holding codec u.key u.content u.metadata) sound name
        ≡ ok (sent, raw) =
      ap₂ (λ c m. retrieve codec w (holding codec u.key c m) sound name) staged.content
        staged.metadata
      ∙ (ap
            (λ k.
              retrieve codec w (holding codec k (compress codec w raw) (entries codec w raw)) sound
                name)
            staged.key
          ∙ back) in
    let whole = stage-whole codec w disk name source raw u h in
    (
      held ∙ ap (λ s. ok (record { size = length s; sha256 = codec.sha256 s }, s)) whole,
      >>=-ok (stage codec w disk name source) _ h
          ∙ (>>=-ok (guard disk.respooled wal_local) _ (ap (λ t. guard t wal_local) respooled)
              ∙ (>>=-ok
                    (read_back none
                      (retrieve codec w (holding codec u.key u.content u.metadata) sound name))
                    _ (ap (read_back none) held)
                  ∙ rw (==_refl (length raw), text_eq_refl (codec.sha256 raw)) refl)),
    )
