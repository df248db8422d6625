-- ===== src/Retention/Planner/Index.antt =====
-- The map `byID` of planner.go holds exactly the backups of the inventory, each under its own key.
use mathlib.Core.List.Memᴰ.{append_cases, eq_of_singleton}
use cnpg_backup.Prelude.{
  Bool, true, false, ◌≡◌, refl, sym, ◌∙◌, ◌⊎◌, inl, inr, List, [], ◌∷◌, ◌++◌, Memᴰ, none, some, ok,
  coverage, guard-eq-ok, reject-eq-ok, find, all-mem, Text, text_eq, text_eq_refl, text_eq→eq,
  arith, Bool-cases, Option-cases, find-eq-some,
}
use mathlib.Core.List.{append_assoc, append-nil}
use cnpg_backup.Retention.Planner.Facts.{Backup, find_backup, get_backup, is_empty}
use cnpg_backup.Retention.Planner.Paths.{
  PathMap, backup_ok, is_indexed, index_backups, is_parent_of, parent_ok, check_parents,
}

module _ {ℓ} {A : Type ℓ} where
  pub find-append_some :
      {a : A} (p : A → Bool) (xs ys : List A) → find p xs ≡ some a → find p (xs ++ ys) ≡ some a
  unfolding find
  find-append_some p [] ys h = cc
  find-append_some p (x ∷ xs) ys h = elim (Bool-cases (p x)) [
    | inl t ↦ rw t (rw t at h)
    | inr f ↦ rw f (find-append_some p xs ys (rw f at h))
  ]

  pub find-append_none :
      (p : A → Bool) (xs ys : List A) → find p xs ≡ none → find p (xs ++ ys) ≡ find p ys
  unfolding find
  find-append_none p [] ys h = refl
  find-append_none p (x ∷ xs) ys h = elim (Bool-cases (p x)) [
    | inl t ↦ cc (rw t at h)
    | inr f ↦ rw f (find-append_none p xs ys (rw f at h))
  ]

-- Every backup of the list is found under its identifier.
abbrev pub IsKeyed : List Backup → Type 0
IsKeyed m = (b : Backup) → Memᴰ b m → find_backup b.id m ≡ some b

not-is_indexed : (m : List Backup) (b : Backup) → is_indexed m b ≡ false → find_backup b.id m ≡ none
unfolding is_indexed
not-is_indexed m b h = ground arith

snoc-IsKeyed :
    (m : List Backup) (b : Backup) → find_backup b.id m ≡ none → IsKeyed m → IsKeyed (m ++ b ∷ [])
unfolding find_backup find
snoc-IsKeyed m b absent keyed c at_c = elim (append_cases m at_c) [
  | inl old ↦ find-append_some (λ d. text_eq d.id c.id) m (b ∷ []) (keyed c old)
  | inr new ↦
      let e = eq_of_singleton new in
      rw e (find-append_none (λ d. text_eq d.id b.id) m (b ∷ []) absent ∙ rw (text_eq_refl b.id))
]

pub index_backups-IsKeyed :
    (m : PathMap) (bs seen : List Backup) {r : List Backup}
    → index_backups m bs seen ≡ ok r
    → IsKeyed seen
    → (r ≡ seen ++ bs) × IsKeyed r
unfolding index_backups
index_backups-IsKeyed m [] seen {r} h keyed =
    let e : seen ≡ r = cc in (rw (← e) (sym (append-nil seen)), rw e at keyed)
index_backups-IsKeyed m (b ∷ bs) seen h keyed =
    let (fits, h1) = guard-eq-ok _ coverage _ h in
    let (fresh, h2) = reject-eq-ok _ coverage _ h1 in
    let (e, k) =
      index_backups-IsKeyed m bs (seen ++ b ∷ []) h2
        (snoc-IsKeyed seen b (not-is_indexed seen b fresh) keyed) in
    (e ∙ append_assoc seen (b ∷ []) bs, k)

pub index_backups-ok :
    (m : PathMap) (bs seen : List Backup) {r : List Backup} {b : Backup}
    → index_backups m bs seen ≡ ok r
    → Memᴰ b bs
    → backup_ok m b ≡ true
unfolding index_backups
index_backups-ok m [] seen h n = elim n [ ]
index_backups-ok m (b ∷ bs) seen h (Memᴰ.head e) = rw e (guard-eq-ok _ coverage _ h).0
index_backups-ok m (b ∷ bs) seen h (Memᴰ.tail n) =
    index_backups-ok m bs (seen ++ b ∷ [])
      (reject-eq-ok _ coverage _ (guard-eq-ok _ coverage _ h).1).1 n

pub get_backup-mem : (m : List Backup) (b : Backup) → IsKeyed m → Memᴰ b m → get_backup b.id m ≡ b
unfolding get_backup
get_backup-mem m b keyed n = rw (keyed b n, get_backup)

-- A key names a backup of the list, or nothing.
pub get_backup-cases :
    (m : List Backup) (id : Text)
    → (Memᴰ (get_backup id m) m × ((get_backup id m).id ≡ id)) ⊎ (find_backup id m ≡ none)
unfolding get_backup
get_backup-cases m id = elim (Option-cases (find_backup id m)) [
  | inl absent ↦ inr absent
  | inr (b, found) ↦
      rw (found, get_backup) (let (n, e) = found_backup m id b found in inl (n, text_eq→eq _ _ e))
]
  where
    found_backup :
        (l : List Backup) (k : Text) (b : Backup)
        → find_backup k l ≡ some b
        → Memᴰ b l × (text_eq b.id k ≡ true)
    found_backup l k b h = unfold find_backup in find-eq-some (λ c. text_eq c.id k) l h

-- The parent of a backup that passed the checks is a full of the same inventory.
pub get_backup-parent :
    (m : List Backup) (b : Backup)
    → check_parents m m ≡ true
    → Memᴰ b m
    → is_empty b.parent ≡ false
    → is_parent_of (get_backup b.parent m) b ≡ true
unfolding check_parents parent_ok get_backup is_parent_of is_empty
get_backup-parent m b h n e = let fits = all-mem (parent_ok m) m h n in ground arith
