-- ===== src/Wal/Atomic.antt =====
-- internal/wal/wal.go: the directory that `Restore` leaves behind, at every point of the call.
use cnpg_backup.Prelude.{
  ℕ, guard-eq-ok, >>=-eq-ok, codes, text_eq→eq, all, subst, true, false, ◌&&◌, ◌||◌, ◌≡◌, refl, inl,
  inr, List, [], ◌∷◌, ◌++◌, map, Option, none, some, Text, text_eq, text_eq_refl, if◌then◌else◌,
  All, Result, ok, err, Error, wal_local, Bool-cases,
}
use cnpg_backup.Repository.Names.Hex.{is_upper_hex, is_digit, valid_segment_size}
use cnpg_backup.Repository.Names.Wal.{wal_timeline, wal_shape, segment_shape}
use cnpg_backup.Repository.Names.Keys.{wal_key}
use cnpg_backup.Repository.Schema.Records.{Identity}
use cnpg_backup.Wal.Objects.{Codec, Files, Integrity, limits}
use cnpg_backup.Wal.Retrieve.{Remote, Local, retrieve}
use cnpg_backup.Wal.Restore.{
  Directory, set_file, temporary, destination_ok, Disk, Outcome, leave, publish_file, fill_file,
  restore,
}
use cnpg_backup.Wal.Verified.{IsRetrieved, retrieve-IsRetrieved}

-- The temporary's name is no WAL name, so it is never what is asked for.
wal_key-temporary : (id : Identity) → wal_key id temporary ≡ err Error.invalid
unfolding wal_key wal_timeline wal_shape segment_shape all is_upper_hex is_digit
wal_key-temporary id = elim (Bool-cases (valid_segment_size id.wal_segment_bytes)) [
  | inl p ↦ rw p refl
  | inr p ↦ rw p refl
]

limits_temporary :
    {C : Type 0} (w : Files) (name : Text) {b : Text × ℕ}
    → limits w name ≡ ok b
    → text_eq name temporary ≡ true
    → C
unfolding limits
limits_temporary w name h same =
    let p : name ≡ temporary = text_eq→eq name temporary same in
    let (a, h) =
      guard-eq-ok (text_eq w.compression (codes "none") || text_eq w.compression (codes "gzip"))
        Error.invalid _ h in
    let q : wal_key w.identity name ≡ err Error.invalid = rw p (wal_key-temporary w.identity) in
    let (k, found, r) =
      >>=-eq-ok (elim (wal_key w.identity name) [ err e ↦ err Error.invalid | ok k ↦ ok k ]) _ h in
    absurd cc

pub destination_apart :
    (w : Files) (name destination : Text) {b : Text × ℕ}
    → limits w name ≡ ok b
    → destination_ok name destination ≡ true
    → text_eq destination temporary ≡ false
unfolding destination_ok
destination_apart w name destination h k = elim (Bool-cases (text_eq destination temporary)) [
  | inr p ↦ p
  | inl p ↦
      let same = text_eq→eq destination temporary p in
      elim (Bool-cases (text_eq destination name)) [
        | inl q ↦
            limits_temporary w name h
              (subst (λ t. text_eq t temporary ≡ true) (text_eq→eq destination name q) p)
        | inr q ↦
            let none_other : (text_eq destination name
                  || text_eq temporary (codes "RECOVERYXLOG")
                  || text_eq temporary (codes "RECOVERYHISTORY"))
                ≡ true =
              subst
                (λ t.
                  (text_eq destination name
                    || text_eq t (codes "RECOVERYXLOG")
                    || text_eq t (codes "RECOVERYHISTORY"))
                  ≡ true)
                same k in
            absurd cc
      ]
]

module _ (codec : Codec) (w : Files) (remote : Remote) (name : Text) (destination : Text)
    (dir : Directory) where
  -- The destination holds what it held, or the whole verified file.
  pub data IsWhole (now : Directory) : Type 0 where
    kept : now destination ≡ dir destination → IsWhole now
    replaced :
        (raw : Integrity) (content : Text)
        → now destination ≡ some content
        → IsRetrieved codec w remote name raw content
        → IsWhole now

  module _ (apart : text_eq destination temporary ≡ false) where
    set_temporary :
        (content : Option Text) (now : Directory)
        → IsWhole now
        → IsWhole (set_file temporary content now)
    unfolding set_file
    set_temporary content now (kept p) = kept (rw apart p)
    set_temporary content now (replaced raw new p v) = replaced raw new (rw apart p) v

    set_destination :
        (raw : Integrity) (content : Text) (now : Directory)
        → IsRetrieved codec w remote name raw content
        → IsWhole (set_file destination (some content) now)
    unfolding set_file
    set_destination raw content now v = replaced raw content (rw (text_eq_refl destination) refl) v

    writing-IsWhole :
        (partials : List Text) (now : Directory) (visited : List Directory)
        → IsWhole now
        → All IsWhole visited
        → All IsWhole (map (λ content. set_file temporary (some content) now) partials ++ visited)
    writing-IsWhole [] now visited h k = k
    writing-IsWhole (content ∷ partials) now visited h k =
        (set_temporary (some content) now h, writing-IsWhole partials now visited h k)

    leave-IsWhole :
        (disk : Disk) (now : Directory) (visited : List Directory) (result : Result (Unit {0}))
        → IsWhole now
        → All IsWhole visited
        → All IsWhole (Outcome.visited (leave disk now visited result))
    unfolding leave
    leave-IsWhole disk now visited result h k = elim (Bool-cases disk.removed) [
      | inl p ↦ rw p (set_temporary none now h, k)
      | inr p ↦ rw p k
    ]

    publish-IsWhole :
        (disk : Disk) (raw : Integrity) (content : Text) (full : Directory)
        (visited : List Directory)
        → IsRetrieved codec w remote name raw content
        → IsWhole full
        → All IsWhole visited
        → All IsWhole (Outcome.visited (publish_file disk destination content full visited))
    unfolding publish_file
    publish-IsWhole disk raw content full visited v h k = elim (Bool-cases disk.canceled) [
      | inl p ↦ rw p (leave-IsWhole disk full visited (err Error.canceled) h k)
      | inr p ↦ elim (Bool-cases disk.renamed) [
        | inl q ↦
            let published = set_destination raw content (set_file temporary none full) v in
            rw (p, q)
              (leave-IsWhole disk _ _ (if disk.synced then ok tt else err wal_local) published
                (published, k))
        | inr q ↦ rw (p, q) (leave-IsWhole disk full visited (err wal_local) h k)
      ]
    ]

    fill-IsWhole :
        (reader : Local) (disk : Disk) (now : Directory) (visited : List Directory)
        (answer : Result (Integrity × Text))
        → retrieve codec w remote reader name ≡ answer
        → IsWhole now
        → All IsWhole visited
        → All IsWhole
            (Outcome.visited (fill_file codec w remote reader disk name destination now visited))
    unfolding fill_file
    fill-IsWhole reader disk now visited (err e) p h k =
        rw (p, fill_file, All)
          (leave-IsWhole disk now _ (err e) h (writing-IsWhole disk.partials now visited h k))
    fill-IsWhole reader disk now visited (ok got) p h k =
        let v = retrieve-IsRetrieved codec w remote reader name got.0 got.1 p in
        let full = set_temporary (some got.1) now h in
        let writing = writing-IsWhole disk.partials now visited h k in
        elim (Bool-cases disk.closed) [
          | inl q ↦
              rw (p, q, fill_file, All)
                (publish-IsWhole disk got.0 got.1 _ _ v full (full, writing))
          | inr q ↦
              rw (p, q, fill_file, All)
                (leave-IsWhole disk _ _ (err wal_local) full (full, writing))
        ]

  restore-IsWhole :
      (reader : Local) (disk : Disk) (answer : Result (Text × ℕ))
      → limits w name ≡ answer
      → All IsWhole (Outcome.visited (restore codec w remote reader disk name destination dir))
  unfolding restore
  restore-IsWhole reader disk (err e) p = rw (p, restore, All) tt
  restore-IsWhole reader disk (ok bound) p = elim (Bool-cases (destination_ok name destination)) [
    | inr q ↦ rw (p, q, restore, All) tt
    | inl q ↦
        let apart = destination_apart w name destination p q in
        let clean = set_temporary apart none dir (kept refl) in
        let empty = set_temporary apart (some []) (set_file temporary none dir) clean in
        elim (Bool-cases (disk.opened && disk.locked && disk.reclaimed)) [
          | inr r ↦ rw (p, q, r, restore, All) tt
          | inl r ↦ elim (Bool-cases disk.created) [
            | inr t ↦ rw (p, q, r, t, restore, All) (clean, tt)
            | inl t ↦
                rw (p, q, r, t, restore, All)
                  (fill-IsWhole apart reader (record disk { created = true })
                    (set_file temporary (some []) (set_file temporary none dir))
                    (set_file temporary (some []) (set_file temporary none dir)
                      ∷ set_file temporary none dir
                      ∷ [])
                    (retrieve codec w remote reader name) refl empty (empty, (clean, tt)))
          ]
        ]
  ]

-- Whatever storage, disk and context answer, at every point of `Restore` the destination holds what
-- it held before, or the whole file as the metadata of the object in storage declares it.
pub restore_atomic :
    (codec : Codec) (w : Files) (remote : Remote) (reader : Local) (disk : Disk)
    (name destination : Text) (dir : Directory)
    → All
        (IsWhole codec w remote name destination dir)
        (Outcome.visited (restore codec w remote reader disk name destination dir))
restore_atomic codec w remote reader disk name destination dir =
    restore-IsWhole codec w remote name destination dir reader disk (limits w name) refl
