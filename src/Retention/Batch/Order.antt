-- ===== src/Retention/Batch/Order.antt =====
-- run.go, planner.go and gc.go together: the batch of a decision stands in the order that `Execute`
-- demands of its plan.
use mathlib.Core.List.Memᴰ.{append_cases, append_right, append_left, cases_cons}
use mathlib.Core.List.{append_assoc, append-nil}
use cnpg_backup.Prelude.{
  ℕ, Bool, true, false, ◌&&◌, ◌≡◌, ◌≢◌, ◌≤◌, refl, sym, ap, subst, ◌∙◌, inl, inr, List, [], ◌∷◌,
  ◌++◌, map, Memᴰ, Option, none, some, Text, text_eq, text_eq_refl, text_eq→eq, ok, any, All-mem,
  Bool-cases, arith, length, ltb, leb, ◌==◌,
}
use cnpg_backup.Retention.Planner.{plan}
use cnpg_backup.Retention.Planner.Facts.{
  Backup, Segment, Inventory, Hint, Decision, is_kept, is_empty,
}
use cnpg_backup.Retention.Planner.Keeping.{plan-keeps_parents}
use cnpg_backup.Retention.Planner.Expiry.{
  ChildrenFirst, plan-expire, plan-ChildrenFirst, plan-named, plan-parent_other,
}
use cnpg_backup.Retention.Batch.{
  WalObject, batch, batch_limit, fill, retire_backup_victim, retire_wal_victim, fill_wal-AddsWal,
  AddsWal, fill-Adds, Adds,
}
use cnpg_backup.Repository.Schema.Records.{points_to}
use cnpg_backup.Repository.Gc.{Victim, Entry, kind_is, retire_backup, depends_on}
use cnpg_backup.Repository.Gc.Order.{Ordered, FitsAfter}

-- The live entries of a catalog that have a parent are backups of the inventory.
unfoldable pub Catalogued : List Entry → List Backup → Type 0
Catalogued entries backups =
    (e : Entry) (uid : Text)
    → Memᴰ e entries
    → e.retired ≡ false
    → e.parent_backup_uid ≡ some uid
    → (c : Backup) × Memᴰ c backups × (c.id ≡ e.backup_uid) × (c.parent ≡ uid)

-- No victim of the list retires a backup.
unfoldable pub RetiresNone : List Victim → Type 0
RetiresNone l = (v : Victim) → Memᴰ v l → kind_is v retire_backup ≡ false

RetiresNone-append :
    (xs ys : List Victim) → RetiresNone xs → RetiresNone ys → RetiresNone (xs ++ ys)
unfolding RetiresNone
RetiresNone-append xs ys p q v m = elim (append_cases xs m) [ inl n ↦ p v n | inr n ↦ q v n ]

wal-RetiresNone :
    (wal : List (Segment × WalObject)) → RetiresNone (map (λ x. retire_wal_victim x.1) wal)
unfolding RetiresNone text_eq
wal-RetiresNone [] v m = elim m [ ]
wal-RetiresNone (x ∷ wal) v m = elim (cases_cons m) [
  | inl e ↦ rw e refl
  | inr n ↦ wal-RetiresNone wal v n
]

any-mem : (j : Text) (l : List Text) → Memᴰ j l → any (text_eq j) l ≡ true
unfolding any
any-mem j [] m = elim m [ ]
any-mem j (i ∷ l) m = elim (cases_cons m) [
  | inl e ↦ rw (sym e) (rw (text_eq_refl j) refl)
  | inr n ↦ rw (any-mem j l n) (ground arith)
]

any-none :
    (p : Entry → Bool) (l : List Entry) → ((e : Entry) → Memᴰ e l → p e ≡ false) → any p l ≡ false
unfolding any
any-none p [] h = refl
any-none p (e ∷ l) h = rw (h e (Memᴰ.head refl)) (any-none p l (λ x m. h x (Memᴰ.tail m)))

points_to-some : (o : Option Text) (uid : Text) → points_to o uid ≡ true → o ≡ some uid
unfolding points_to
points_to-some none uid h = cc
points_to-some (some t) uid h = ap (λ x. some x) (text_eq→eq t uid h)

-- The children of an identifier in the list stand before it.
pub IsClosed : List Entry → List Text → Type 0
IsClosed entries ids =
    (xs ys : List Text) (uid : Text) (e : Entry)
    → ids ≡ xs ++ uid ∷ ys
    → Memᴰ e entries
    → e.retired ≡ false
    → e.parent_backup_uid ≡ some uid
    → Memᴰ e.backup_uid xs

module _ (entries : List Entry) (hashes : Text → Text) where
  rest-Ordered :
      (l : List Victim) (retired : List Text) (wal : Bool)
      → RetiresNone l
      → Ordered entries retired wal l
  unfolding Ordered FitsAfter RetiresNone
  rest-Ordered [] retired wal h = tt
  rest-Ordered (v ∷ l) retired wal h =
      (λ k. cc (k, h v (Memᴰ.head refl)), rest-Ordered l _ _ (λ x m. h x (Memᴰ.tail m)))

  free_of :
      (uid : Text) (before retired : List Text)
      → ((j : Text) → Memᴰ j before → Memᴰ j retired)
      → ((e : Entry)
          → Memᴰ e entries
          → e.retired ≡ false
          → e.parent_backup_uid ≡ some uid
          → Memᴰ e.backup_uid before)
      → any (depends_on uid retired) entries ≡ false
  unfolding depends_on
  free_of uid before retired within closed = any-none (depends_on uid retired) entries (λ e m.
      elim (Bool-cases e.retired) [
        | inl gone ↦ rw gone refl
        | inr live ↦ elim (Bool-cases (points_to e.parent_backup_uid uid)) [
          | inl child ↦ rw live (
              rw child (
                rw
                  (any-mem e.backup_uid retired (
                    within e.backup_uid
                      (closed e m live (points_to-some e.parent_backup_uid uid child))))
                  refl))
          | inr other ↦ rw live (rw other refl)
        ]
      ])

  retired-Ordered :
      (ids before done left : List Text) (retired : List Text) (tail : List Victim)
      → IsClosed entries ids
      → ids ≡ before ++ (done ++ left)
      → ((j : Text) → Memᴰ j before → Memᴰ j retired)
      → RetiresNone tail
      → Ordered entries retired false (map (retire_backup_victim hashes) done ++ tail)
  unfolding Ordered FitsAfter text_eq IsClosed
  retired-Ordered ids before [] left retired tail closed split within none_left =
      rest-Ordered tail retired false none_left
  retired-Ordered ids before (uid ∷ done) left retired tail closed split within none_left = (
    λ k. (
      refl,
      λ other f.
          let same : uid ≡ other = cc f in
          subst (λ (u : Text). any (depends_on u retired) entries ≡ false) same
            (free_of uid before retired within
              (λ e m live child. closed before (done ++ left) uid e split m live child)),
    ),
    retired-Ordered ids (before ++ uid ∷ []) done left (uid ∷ retired) tail closed
        (split ∙ sym (append_assoc before (uid ∷ []) (done ++ left)))
        (λ j m. elim (append_cases before m) [
          | inl n ↦ Memᴰ.tail (within j n)
          | inr n ↦ elim (cases_cons n) [ inl e ↦ Memᴰ.head e | inr beyond ↦ elim beyond [ ] ]
        ])
        none_left,
  )

-- A loop takes the first elements of its list.
Takes {ℓ} : {A : Type ℓ} → (A → Victim) → List Victim → List A → Type ℓ
Takes {A = A} f victims l =
    (done : List A) × (left : List A) × (l ≡ done ++ left)
    × (fill victims (map f l) ≡ victims ++ map f done)

fill-Takes {ℓ} :
    {A : Type ℓ} (f : A → Victim) (victims : List Victim) (l : List A) → Takes f victims l
unfolding fill Takes
fill-Takes f victims [] = ([], [], refl, sym (append-nil victims))
fill-Takes f victims (x ∷ l) = elim (Bool-cases (length victims == batch_limit)) [
  | inl full ↦ rw full ([], x ∷ l, refl, sym (append-nil victims))
  | inr space ↦
      let (done, left, e, added) = fill-Takes f (victims ++ f x ∷ []) l in
      rw space (x ∷ done, left, ap (◌∷◌ x) e, added ∙ append_assoc victims (f x ∷ []) (map f done))
]

map-same : (l : List Victim) → map (λ v. v) l ≡ l
map-same [] = refl
map-same (v ∷ l) = ap (◌∷◌ v) (map-same l)

fill-RetiresNone :
    (victims more : List Victim)
    → RetiresNone more
    → (added : List Victim) × (fill victims more ≡ victims ++ added) × RetiresNone added
unfolding Takes RetiresNone
fill-RetiresNone victims more h =
    let (done, left, e, added) = fill-Takes (λ v. v) victims more in
    (
      done,
      subst (λ l. fill victims l ≡ victims ++ done) (map-same more)
          (added ∙ ap (λ l. victims ++ l) (map-same done)),
      λ v m. h v (subst (λ (l : List Victim). Memᴰ v l) (sym e) (append_left left m)),
    )

after_child :
    (backups : List Backup) (xs ys : List Text) (uid : Text) (c : Backup)
    → ChildrenFirst backups (xs ++ uid ∷ ys)
    → Memᴰ c backups
    → Memᴰ c.id ys
    → c.parent ≢ uid
unfolding ChildrenFirst
after_child backups [] ys uid c h known m =
    All-mem (λ j. (b : Backup) → Memᴰ b backups → b.id ≡ j → b.parent ≢ uid) ys m h.0 c known refl
after_child backups (x ∷ xs) ys uid c h known m = after_child backups xs ys uid c h.1 known m

module _ (inv : Inventory) (cutoff minimum : ℕ) (hint : Option Hint) {d : Decision}
    (planned : plan inv cutoff minimum hint ≡ ok d) (entries : List Entry)
    (catalogued : Catalogued entries inv.backups) where
  expire-IsClosed : IsClosed entries d.expire
  unfolding IsClosed Catalogued
  expire-IsClosed xs ys uid e split m live child =
      let (c, known, named, parent) = catalogued e uid m live child in
      let at_uid : Memᴰ uid d.expire =
        subst (λ (l : List Text). Memᴰ uid l) (sym split) (append_right xs (Memᴰ.head refl)) in
      let expires = plan-expire inv cutoff minimum hint planned in
      let has : is_empty c.parent ≡ false =
        subst (λ t. is_empty t ≡ false) (sym parent)
          (plan-named inv cutoff minimum hint planned uid at_uid) in
      let (f, f_known, f_named) = expires.1 uid at_uid in
      let f_lost : is_kept uid d.keep ≡ false =
        subst (λ t. is_kept t d.keep ≡ false) f_named
          ((expires.0 f f_known).0 (subst (λ t. Memᴰ t d.expire) (sym f_named) at_uid)) in
      let at_c : Memᴰ c.id d.expire = (expires.0 c known).1 (lost c known has parent f_lost) in
      subst (λ t. Memᴰ t xs) named
        (elim (append_cases xs (subst (λ (l : List Text). Memᴰ c.id l) split at_c)) [
          | inl before ↦ before
          | inr other ↦ elim (cases_cons other) [
            | inl self ↦
                absurd (
                  plan-parent_other inv cutoff minimum hint planned c known has (parent ∙ sym self))
            | inr later ↦ absurd (
                after_child inv.backups xs ys uid c
                  (subst (λ (l : List Text). ChildrenFirst inv.backups l) split
                    (plan-ChildrenFirst inv cutoff minimum hint planned))
                  known later parent)
          ]
        ])
    where
      lost :
          (c : Backup)
          → Memᴰ c inv.backups
          → is_empty c.parent ≡ false
          → c.parent ≡ uid
          → is_kept uid d.keep ≡ false
          → is_kept c.id d.keep ≡ false
      lost c known has parent gone = elim (Bool-cases (is_kept c.id d.keep)) [
        | inl kept ↦ cc (
          subst (λ t. is_kept t d.keep ≡ true) parent
              (plan-keeps_parents inv cutoff minimum hint planned c known kept has),
          gone,
        )
        | inr out ↦ out
      ]

  -- When `plan` succeeds on an inventory that has every live catalog entry with a parent, and no
  -- cleanup victim retires a backup, the batch stands in the order that `Execute` demands: no backup is
  -- retired behind a segment, or before a live catalog entry whose parent it is.
  pub batch-Ordered :
      (hashes : Text → Text) (cleanup : List Victim) (segments : List (Segment × WalObject))
      → RetiresNone cleanup
      → Ordered entries [] false (batch hashes d cleanup segments)
  unfolding batch Takes AddsWal Adds
  batch-Ordered hashes cleanup segments harmless =
      let (done, left, split, taken) = fill-Takes (retire_backup_victim hashes) [] d.expire in
      let (cleaned, added, none_left) = fill-RetiresNone expired cleanup harmless in
      let front : first ≡ map (retire_backup_victim hashes) done ++ cleaned =
        added ∙ ap (λ l. l ++ cleaned) taken in
      let ordered : (tail : List Victim)
          → RetiresNone tail
          → Ordered entries [] false (map (retire_backup_victim hashes) done ++ tail) =
        λ tail h.
          retired-Ordered entries hashes d.expire [] done left [] tail expire-IsClosed split
            (λ j m. m) h in
      elim (Bool-cases (leb (length d.expire) batch_limit && ltb (length first) batch_limit)) [
        | inl room ↦
            let (few, wal, e, from) =
              fill_wal-AddsWal d.current d.wal_floor first segments first_few in
            rw room (
              subst (λ (l : List Victim). Ordered entries [] false l)
                (sym (
                  e
                  ∙ ap (λ l. l ++ map (λ x. retire_wal_victim x.1) wal) front
                  ∙ append_assoc _ cleaned _))
                (ordered _ (RetiresNone-append cleaned _ none_left (wal-RetiresNone wal))))
        | inr full ↦ rw full (
            subst (λ (l : List Victim). Ordered entries [] false l) (sym front)
              (ordered cleaned none_left))
      ]
    where
      expired : List Victim
      expired = fill [] (map (retire_backup_victim hashes) d.expire)

      first : List Victim
      first = fill expired cleanup

      first_few : length first ≤ 128
      first_few =
          (fill-Adds expired cleanup
            (fill-Adds [] (map (retire_backup_victim hashes) d.expire) (omega arith)).0).0
