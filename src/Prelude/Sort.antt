-- ===== src/Prelude/Sort.antt =====
-- Sorting by a comparison function, as `sort.Slice` does. The order of elements that compare
-- alike is not specified there; every use below compares elements with distinct keys.
use mathlib.Core.Path.{◌≡◌, refl}
use mathlib.Core.Logic.{◌⊎◌, inl, inr}
use mathlib.Core.Bool.{Bool, true, false}
use mathlib.Core.List.Memᴰ.{cases_cons}
use mathlib.Core.List.{List, [], ◌∷◌, Memᴰ}
use cnpg_backup.Prelude.Tests.{if◌then◌else◌, Bool-cases}
use cnpg_backup.Prelude.Lists.{All, All-of-mem, All-mem}

module _ {ℓ} {A : Type ℓ} (before : A → A → Bool) where
  unfoldable pub insert : A → List A → List A
  insert a [] = a ∷ []
  insert a (x ∷ xs) = let rest = insert a xs in if before x a then x ∷ rest else a ∷ x ∷ xs

  unfoldable pub sort : List A → List A
  unfolding insert
  sort [] = []
  sort (x ∷ xs) = insert x (sort xs)

  -- No later element comes before an earlier one.
  abbrev pub IsSorted : List A → Type ℓ
  IsSorted [] = Unit
  IsSorted (x ∷ xs) = All (λ y. before y x ≡ false) xs × IsSorted xs

  pub mem-insert : {b : A} (a : A) (xs : List A) → Memᴰ b (insert a xs) → (b ≡ a) ⊎ Memᴰ b xs
  unfolding insert
  mem-insert a [] m = cases_cons m
  mem-insert a (x ∷ xs) m = elim (Bool-cases (before x a)) [
    | inl t ↦ elim (cases_cons (rw t at m)) [
      | inl e ↦ inr (Memᴰ.head e)
      | inr n ↦ elim (mem-insert a xs n) [ inl e ↦ inl e | inr k ↦ inr (Memᴰ.tail k) ]
    ]
    | inr f ↦ cases_cons (rw f at m)
  ]

  pub insert-mem_self : (a : A) (xs : List A) → Memᴰ a (insert a xs)
  unfolding insert
  insert-mem_self a [] = Memᴰ.head refl
  insert-mem_self a (x ∷ xs) = elim (Bool-cases (before x a)) [
    | inl t ↦ rw t (Memᴰ.tail (insert-mem_self a xs))
    | inr f ↦ rw f (Memᴰ.head refl)
  ]

  pub insert-mem : {b : A} (a : A) (xs : List A) → Memᴰ b xs → Memᴰ b (insert a xs)
  unfolding insert
  insert-mem a [] m = elim m [ ]
  insert-mem a (x ∷ xs) (Memᴰ.head e) = elim (Bool-cases (before x a)) [
    | inl t ↦ rw t (Memᴰ.head e)
    | inr f ↦ rw f (Memᴰ.tail (Memᴰ.head e))
  ]
  insert-mem a (x ∷ xs) (Memᴰ.tail m) = elim (Bool-cases (before x a)) [
    | inl t ↦ rw t (Memᴰ.tail (insert-mem a xs m))
    | inr f ↦ rw f (Memᴰ.tail (Memᴰ.tail m))
  ]

  pub mem-sort : {b : A} (xs : List A) → Memᴰ b (sort xs) → Memᴰ b xs
  unfolding sort
  mem-sort [] m = m
  mem-sort (x ∷ xs) m = elim (mem-insert x (sort xs) m) [
    | inl e ↦ Memᴰ.head e
    | inr n ↦ Memᴰ.tail (mem-sort xs n)
  ]

  pub sort-mem : {b : A} (xs : List A) → Memᴰ b xs → Memᴰ b (sort xs)
  unfolding sort
  sort-mem [] m = m
  sort-mem (x ∷ xs) (Memᴰ.head e) = rw e (insert-mem_self x (sort xs))
  sort-mem (x ∷ xs) (Memᴰ.tail m) = insert-mem x (sort xs) (sort-mem xs m)

  -- For a comparison that is asymmetric and whose complement is transitive.
  module _ (asym : (a b : A) → before a b ≡ true → before b a ≡ false)
      (chain : (a b c : A) → before b a ≡ false → before c b ≡ false → before c a ≡ false) where
    insert-IsSorted : (a : A) (xs : List A) → IsSorted xs → IsSorted (insert a xs)
    unfolding insert
    insert-IsSorted a [] h = (tt, tt)
    insert-IsSorted a (x ∷ xs) h = elim (Bool-cases (before x a)) [
      | inl t ↦ rw t (
        All-of-mem (λ y. before y x ≡ false) (insert a xs)
            (λ b m. elim (mem-insert a xs m) [
              | inl e ↦ rw e (asym x a t)
              | inr k ↦ All-mem (λ y. before y x ≡ false) xs k h.0
            ]),
        insert-IsSorted a xs h.1,
      )
      | inr f ↦ rw f (
        (
          f,
          All-of-mem (λ y. before y a ≡ false) xs
              (λ b m. chain a x b f (All-mem (λ y. before y x ≡ false) xs m h.0)),
        ),
        h,
      )
    ]

    pub sort-IsSorted : (xs : List A) → IsSorted (sort xs)
    unfolding sort
    sort-IsSorted [] = tt
    sort-IsSorted (x ∷ xs) = insert-IsSorted x (sort xs) (sort-IsSorted xs)
