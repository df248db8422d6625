-- ===== src/Prelude/Texts.antt =====
-- Go strings: sequences of bytes, compared byte by byte.
use Prim.Native.Nat.{ℕ}
use Prim.Native.Char.{code}
use Prim.Native.String.{String}
use mathlib.Core.Path.{◌≡◌, refl, ap₂}
use mathlib.Core.Bool.{Bool, true, false, ◌&&◌}
use mathlib.Core.List.{List, [], ◌∷◌}
use native.Mathlib.Omega.{arith}
use cnpg_backup.Prelude.Tests.{ltb, ◌==◌, if◌then◌else◌}

abbrev pub Text : Type 0
Text = List ℕ

-- The bytes of an ASCII literal.
abbrev pub codes : String → Text
codes String.[] = []
codes (String.◌∷◌ c s) = code c ∷ codes s

-- `a == b` on strings.
unfoldable pub text_eq : Text → Text → Bool
text_eq [] [] = true
text_eq (x ∷ xs) (y ∷ ys) = x == y && text_eq xs ys
text_eq _ _ = false

-- `a < b` on strings.
unfoldable pub text_lt : Text → Text → Bool
text_lt [] [] = false
text_lt [] (y ∷ ys) = true
text_lt (x ∷ xs) [] = false
text_lt (x ∷ xs) (y ∷ ys) =
    let rest = text_lt xs ys in if ltb x y then true else if x == y then rest else false

pub text_eq_refl : (s : Text) → text_eq s s ≡ true
unfolding text_eq
text_eq_refl [] = refl
text_eq_refl (x ∷ xs) = ground (arith, text_eq_refl xs)

pub text_eq→eq : (s t : Text) → text_eq s t ≡ true → s ≡ t
unfolding text_eq
text_eq→eq [] [] h = refl
text_eq→eq (x ∷ xs) (y ∷ ys) h =
    let p : x ≡ y = ground arith in
    let q : text_eq xs ys ≡ true = ground arith in ap₂ ◌∷◌ p (text_eq→eq xs ys q)
text_eq→eq _ _ h = cc

pub text_lt_irrefl : (s : Text) → text_lt s s ≡ false
unfolding text_lt
text_lt_irrefl [] = refl
text_lt_irrefl (x ∷ xs) = ground (arith, text_lt_irrefl xs)

pub text_lt_trans : (s t u : Text) → text_lt s t ≡ true → text_lt t u ≡ true → text_lt s u ≡ true
unfolding text_lt
text_lt_trans [] [] u h k = cc
text_lt_trans [] (y ∷ t) [] h k = cc
text_lt_trans [] (y ∷ t) (z ∷ u) h k = refl
text_lt_trans (x ∷ s) [] u h k = cc
text_lt_trans (x ∷ s) (y ∷ t) [] h k = cc
text_lt_trans (x ∷ s) (y ∷ t) (z ∷ u) h k = ground (arith, text_lt_trans s t u)

pub text_lt_total : (s t : Text) → text_lt s t ≡ false → text_lt t s ≡ false → s ≡ t
unfolding text_lt
text_lt_total [] [] h k = refl
text_lt_total [] (y ∷ t) h k = cc
text_lt_total (x ∷ s) [] h k = cc
text_lt_total (x ∷ s) (y ∷ t) h k =
    let p : x ≡ y = ground arith in ap₂ ◌∷◌ p (text_lt_total s t (ground arith) (ground arith))

pub text_lt_asymm : (s t : Text) → text_lt s t ≡ true → text_lt t s ≡ false
unfolding text_lt
text_lt_asymm [] [] h = cc
text_lt_asymm [] (y ∷ t) h = refl
text_lt_asymm (x ∷ s) [] h = cc
text_lt_asymm (x ∷ s) (y ∷ t) h = ground (arith, text_lt_asymm s t)

-- `≥` on texts is transitive.
pub text_ge_trans : (s t u : Text) → text_lt t s ≡ false → text_lt u t ≡ false → text_lt u s ≡ false
unfolding text_lt
text_ge_trans [] [] u h k = k
text_ge_trans [] (y ∷ t) [] h k = cc
text_ge_trans [] (y ∷ t) (z ∷ u) h k = refl
text_ge_trans (x ∷ s) [] u h k = cc
text_ge_trans (x ∷ s) (y ∷ t) [] h k = cc
text_ge_trans (x ∷ s) (y ∷ t) (z ∷ u) h k = ground (arith, text_ge_trans s t u)
