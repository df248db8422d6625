-- ===== src/Prelude/Lists.antt =====
-- Lists measured by native numbers, and searched by Boolean tests.
use Prim.Native.Nat.{ℕ, zero, suc, ◌+◌, ◌≤◌}
use mathlib.Core.Path.{◌≡◌, refl, ap, sym}
use mathlib.Core.Logic.{inl, inr}
use mathlib.Core.Bool.{Bool, true, false, ◌&&◌, ◌||◌}
use mathlib.Core.Option.{Option, none, some}
use mathlib.Core.List.Memᴰ.{cases_cons}
use mathlib.Core.List.{List, [], ◌∷◌, ◌++◌, Memᴰ}
use native.Mathlib.Omega.{arith}
use cnpg_backup.Prelude.Tests.{if◌then◌else◌, Bool-cases}

module _ {ℓ} {A : Type ℓ} where
  abbrev pub length : List A → ℕ
  length [] = 0
  length (x ∷ xs) = suc (length xs)

  abbrev pub get_elem? : List A → ℕ → Option A
  get_elem? [] i = none
  get_elem? (x ∷ xs) zero = some x
  get_elem? (x ∷ xs) (suc i) = get_elem? xs i

  abbrev pub take : ℕ → List A → List A
  take zero xs = []
  take (suc n) [] = []
  take (suc n) (x ∷ xs) = x ∷ take n xs

  abbrev pub drop : ℕ → List A → List A
  drop zero xs = xs
  drop (suc n) [] = []
  drop (suc n) (x ∷ xs) = drop n xs

  -- The elements that pass a test, in their order.
  unfoldable pub filter : (A → Bool) → List A → List A
  filter p [] = []
  filter p (x ∷ xs) = let rest = filter p xs in if p x then x ∷ rest else rest

  unfoldable pub any : (A → Bool) → List A → Bool
  any p [] = false
  any p (x ∷ xs) = p x || any p xs

  unfoldable pub all : (A → Bool) → List A → Bool
  all p [] = true
  all p (x ∷ xs) = p x && all p xs

  -- The first element that passes a test.
  unfoldable pub find : (A → Bool) → List A → Option A
  find p [] = none
  find p (x ∷ xs) = let rest = find p xs in if p x then some x else rest

  unfoldable pub get_last? : List A → Option A
  get_last? [] = none
  get_last? (x ∷ []) = some x
  get_last? (x ∷ y ∷ xs) = get_last? (y ∷ xs)

  -- A predicate of every element.
  abbrev pub All {κ} : (A → Type κ) → List A → Type κ
  All P [] = Unit
  All P (x ∷ xs) = P x × All P xs

module _ {ℓ} {A : Type ℓ} where
  pub length-append : (xs ys : List A) → length (xs ++ ys) ≡ length xs + length ys
  length-append [] ys = omega arith
  length-append (x ∷ xs) ys = omega (arith, length-append xs ys)

  pub length-take-le : (n : ℕ) (xs : List A) → length (take n xs) ≤ n
  length-take-le zero xs = omega arith
  length-take-le (suc n) [] = omega arith
  length-take-le (suc n) (x ∷ xs) = omega (arith, length-take-le n xs)

  pub All-mem {κ} : (P : A → Type κ) {a : A} (xs : List A) → Memᴰ a xs → All P xs → P a
  All-mem P [] m h = elim m [ ]
  All-mem P (x ∷ xs) (Memᴰ.head e) h = rw e h.0
  All-mem P (x ∷ xs) (Memᴰ.tail m) h = All-mem P xs m h.1

  pub All-of-mem {κ} : (P : A → Type κ) (xs : List A) → ((a : A) → Memᴰ a xs → P a) → All P xs
  All-of-mem P [] h = tt
  All-of-mem P (x ∷ xs) h = (h x (Memᴰ.head refl), All-of-mem P xs (λ a m. h a (Memᴰ.tail m)))

  pub mem-filter :
      {a : A} (p : A → Bool) (xs : List A) → Memᴰ a xs → p a ≡ true → Memᴰ a (filter p xs)
  unfolding filter
  mem-filter p [] m h = elim m [ ]
  mem-filter {a} p (x ∷ xs) (Memᴰ.head e) h = rw (ap p (sym e)) (rw h (Memᴰ.head e))
  mem-filter {a} p (x ∷ xs) (Memᴰ.tail m) h = elim (Bool-cases (p x)) [
    | inl t ↦ rw t (Memᴰ.tail (mem-filter p xs m h))
    | inr f ↦ rw f (mem-filter p xs m h)
  ]

  pub mem_of_filter :
      {a : A} (p : A → Bool) (xs : List A) → Memᴰ a (filter p xs) → Memᴰ a xs × (p a ≡ true)
  unfolding filter
  mem_of_filter p [] m = elim m [ ]
  mem_of_filter {a} p (x ∷ xs) m = elim (Bool-cases (p x)) [
    | inl t ↦ elim (cases_cons (rw t at m)) [
      | inl e ↦ (Memᴰ.head e, rw e t)
      | inr n ↦ let r = mem_of_filter p xs n in (Memᴰ.tail r.0, r.1)
    ]
    | inr f ↦ let r = mem_of_filter p xs (rw f at m) in (Memᴰ.tail r.0, r.1)
  ]

  pub all-mem : {a : A} (p : A → Bool) (xs : List A) → all p xs ≡ true → Memᴰ a xs → p a ≡ true
  unfolding all
  all-mem p [] h m = elim m [ ]
  all-mem p (x ∷ xs) h (Memᴰ.head e) = rw e (ground arith)
  all-mem p (x ∷ xs) h (Memᴰ.tail m) = all-mem p xs (ground arith) m

  pub find-eq-some :
      {a : A} (p : A → Bool) (xs : List A) → find p xs ≡ some a → Memᴰ a xs × (p a ≡ true)
  unfolding find
  find-eq-some p [] h = cc
  find-eq-some {a} p (x ∷ xs) h = elim (Bool-cases (p x)) [
    | inl t ↦ let e : x ≡ a = ground arith in (Memᴰ.head (sym e), rw (← e) t)
    | inr f ↦ let r = find-eq-some p xs (rw f at h) in (Memᴰ.tail r.0, r.1)
  ]
