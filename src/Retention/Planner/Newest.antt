-- ===== src/Retention/Planner/Newest.antt =====
-- planner.go: the order of the candidates of a path, by the times at which the backups completed.
use mathlib.Core.List.Memᴰ.{cases_cons}
use cnpg_backup.Prelude.{
  ℕ, ◌≤◌, ◌<◌, Bool, true, false, ◌&&◌, ◌≡◌, refl, sym, ap, ◌∙◌, subst, ◌⊎◌, inl, inr, List, [],
  ◌∷◌, ◌++◌, Memᴰ, arith, Bool-cases, leb, le→leb, length, filter, All, All-mem, All-of-mem,
}
use cnpg_backup.Prelude.Sort.{insert, sort, mem-insert}
use cnpg_backup.Retention.Planner.Facts.{Backup}
use cnpg_backup.Retention.Planner.Select.{newer, reachable, candidates}
use cnpg_backup.Retention.Planner.Paths.{Route}
use cnpg_backup.Retention.Planner.Rules.{is_full}

-- No later element completed after an earlier one.
abbrev pub Descends : List Backup → Type 0
Descends [] = Unit
Descends (x ∷ xs) = All (λ y. y.completed ≤ x.completed) xs × Descends xs

newer-le : (x a : Backup) → newer x a ≡ true → a.completed ≤ x.completed
unfolding newer
newer-le x a h = ground arith

older-le : (x a : Backup) → newer x a ≡ false → x.completed ≤ a.completed
unfolding newer
older-le x a h = ground arith

insert-Descends : (a : Backup) (xs : List Backup) → Descends xs → Descends (insert newer a xs)
unfolding insert
insert-Descends a [] h = (tt, tt)
insert-Descends a (x ∷ xs) h = elim (Bool-cases (newer x a)) [
  | inl t ↦ rw t (
    All-of-mem (λ y. y.completed ≤ x.completed) (insert newer a xs)
        (λ b m. elim (mem-insert newer a xs m) [
          | inl e ↦ rw e (newer-le x a t)
          | inr k ↦ All-mem (λ y. y.completed ≤ x.completed) xs k h.0
        ]),
    insert-Descends a xs h.1,
  )
  | inr f ↦
      let top = older-le x a f in
      rw f (
        (
          top,
          All-of-mem (λ y. y.completed ≤ a.completed) xs
              (λ b m.
                let le = All-mem (λ y. y.completed ≤ x.completed) xs m h.0 in
                omega (arith, top, le)),
        ),
        h,
      )
]

pub sort-Descends : (xs : List Backup) → Descends (sort newer xs)
unfolding sort
sort-Descends [] = tt
sort-Descends (x ∷ xs) = insert-Descends x (sort newer xs) (sort-Descends xs)

module _ {ℓ} {A : Type ℓ} (p : A → Bool) where
  count_cons :
      (x : A) (xs ys : List A)
      → length (filter p xs) ≡ length (filter p ys)
      → length (filter p (x ∷ xs)) ≡ length (filter p (x ∷ ys))
  unfolding filter
  count_cons x xs ys h = elim (Bool-cases (p x)) [
    | inl t ↦ rw t (omega (arith, h))
    | inr f ↦ rw f h
  ]

  count_swap :
      (x y : A) (xs : List A) → length (filter p (x ∷ y ∷ xs)) ≡ length (filter p (y ∷ x ∷ xs))
  unfolding filter
  count_swap x y xs = elim (Bool-cases (p x)) [
    | inl t ↦ elim (Bool-cases (p y)) [ inl u ↦ rw (t, u) refl | inr u ↦ rw (t, u) refl ]
    | inr t ↦ elim (Bool-cases (p y)) [ inl u ↦ rw (t, u) refl | inr u ↦ rw (t, u) refl ]
  ]

-- Sorting loses and adds nothing.
module _ (p : Backup → Bool) where
  count_insert :
      (a : Backup) (xs : List Backup)
      → length (filter p (insert newer a xs)) ≡ length (filter p (a ∷ xs))
  unfolding insert
  count_insert a [] = refl
  count_insert a (x ∷ xs) = elim (Bool-cases (newer x a)) [
    | inl t ↦
        rw t (count_cons p x (insert newer a xs) (a ∷ xs) (count_insert a xs) ∙ count_swap p x a xs)
    | inr f ↦ rw f refl
  ]

  count_sort : (xs : List Backup) → length (filter p (sort newer xs)) ≡ length (filter p xs)
  unfolding sort
  count_sort [] = refl
  count_sort (x ∷ xs) =
      count_insert x (sort newer xs) ∙ count_cons p x (sort newer xs) xs (count_sort xs)

-- A full that completed no earlier than `b`.
abbrev pub is_full_since : Backup → Backup → Bool
is_full_since b x = is_full x && leb b.completed x.completed

pub mem_middle : (xs : List Backup) (b : Backup) (ys : List Backup) → Memᴰ b (xs ++ b ∷ ys)
mem_middle [] b ys = Memᴰ.head refl
mem_middle (x ∷ xs) b ys = Memᴰ.tail (mem_middle xs b ys)

fulls_before :
    (xs : List Backup) (b : Backup) (ys : List Backup)
    → is_full b ≡ true
    → Descends (xs ++ b ∷ ys)
    → length (filter is_full xs) < length (filter (is_full_since b) (xs ++ b ∷ ys))
unfolding filter
fulls_before [] b ys full h =
    let own : is_full_since b b ≡ true = rw full (le→leb b.completed b.completed (omega arith)) in
    rw own (omega arith)
fulls_before (x ∷ xs) b ys full h =
    let ih = fulls_before xs b ys full h.1 in
    elim (Bool-cases (is_full x)) [
      | inl t ↦
          let since : b.completed ≤ x.completed =
            All-mem (λ y. y.completed ≤ x.completed) (xs ++ b ∷ ys) (mem_middle xs b ys) h.0 in
          rw (t, le→leb b.completed x.completed since) (omega (arith, ih))
      | inr f ↦ rw f ih
    ]

-- The fulls in front of a candidate are among those that completed no earlier.
pub few_before :
    (backups : List Backup) (path : Route) (xs : List Backup) (b : Backup) (ys : List Backup)
    → candidates backups path ≡ xs ++ b ∷ ys
    → is_full b ≡ true
    → length (filter is_full xs)
      < length (filter (is_full_since b) (filter (λ x. reachable x path) backups))
unfolding candidates
few_before backups path xs b ys split full =
    let usable = filter (λ x. reachable x path) backups in
    let sorted = subst (λ (l : List Backup). Descends l) split (sort-Descends usable) in
    let counted =
      ap (λ (l : List Backup). length (filter (is_full_since b) l)) (sym split)
      ∙ count_sort (is_full_since b) usable in
    omega (arith, counted, fulls_before xs b ys full sorted)

-- The first candidate that completed no later than the cutoff, and what stands before it.
pub record IsFirst (cutoff : ℕ) (l : List Backup) : Type 0 where
  pub before : List Backup
  pub first : Backup
  pub behind : List Backup
  pub split : l ≡ before ++ first ∷ behind
  pub late : All (λ x. leb x.completed cutoff ≡ false) before
  pub early : leb first.completed cutoff ≡ true
  pub newest : (x : Backup) → Memᴰ x l → x.completed ≤ cutoff → x.completed ≤ first.completed

pub find-IsFirst :
    (cutoff : ℕ) (l : List Backup) (b : Backup)
    → Memᴰ b l
    → b.completed ≤ cutoff
    → Descends l
    → IsFirst cutoff l
find-IsFirst cutoff [] b m early h = elim m [ ]
find-IsFirst cutoff (x ∷ l) b m early h = elim (Bool-cases (leb x.completed cutoff)) [
  | inl t ↦ record {
    before = [];
    first = x;
    behind = l;
    split = refl;
    late = tt;
    early = t;
    newest = λ y n _. at_head y (cases_cons n);
  }
  | inr f ↦
      let ih = find-IsFirst cutoff l b (in_tail f (cases_cons m)) early h.1 in
      record {
        before = x ∷ ih.before;
        first = ih.first;
        behind = ih.behind;
        split = ap (◌∷◌ x) ih.split;
        late = (f, ih.late);
        early = ih.early;
        newest = λ y n low. elim (cases_cons n) [
          | inl e ↦ absurd (not_late y (rw e f) low)
          | inr k ↦ ih.newest y k low
        ];
      }
]
  where
    at_head : (y : Backup) → (y ≡ x) ⊎ Memᴰ y l → y.completed ≤ x.completed
    at_head y (inl e) = rw e (omega arith)
    at_head y (inr k) = All-mem (λ z. z.completed ≤ x.completed) l k h.0

    not_late : (y : Backup) → leb y.completed cutoff ≡ false → y.completed ≤ cutoff → ⊥
    not_late y f low = let e = le→leb y.completed cutoff low in cc (f, e)

    in_tail : leb x.completed cutoff ≡ false → (b ≡ x) ⊎ Memᴰ b l → Memᴰ b l
    in_tail f (inl e) = absurd (not_late b (rw e f) early)
    in_tail f (inr k) = k

pub candidates-Descends :
    (backups : List Backup) (path : Route) → Descends (candidates backups path)
unfolding candidates
candidates-Descends backups path = sort-Descends (filter (λ x. reachable x path) backups)

-- The first candidate of all.
pub find_newest :
    (l : List Backup) (b : Backup)
    → Memᴰ b l
    → Descends l
    → (y : Backup) × (ys : List Backup) × (l ≡ y ∷ ys)
      × ((x : Backup) → Memᴰ x l → x.completed ≤ y.completed)
find_newest [] b m h = elim m [ ]
find_newest (y ∷ ys) b m h = (y, ys, refl, λ x n. at_head x (cases_cons n))
  where
    at_head : (x : Backup) → (x ≡ y) ⊎ Memᴰ x ys → x.completed ≤ y.completed
    at_head x (inl e) = rw e (omega arith)
    at_head x (inr k) = All-mem (λ z. z.completed ≤ y.completed) ys k h.0
