-- ===== src/Repository/Names/Lsn.antt =====
-- schema.go: log sequence numbers, and their text `%X/%X`.
use native.Mathlib.Nat.{pow-suc}
use cnpg_backup.Prelude.{
  ℕ, zero, suc, ◌+◌, ◌*◌, ◌/◌, ◌%◌, ◌^◌, ◌<◌, Bool, true, false, not, ◌&&◌, ◌||◌, ◌≡◌, refl, ap,
  ◌∙◌, inl, inr, [], ◌∷◌, ◌++◌, Text, ltb, leb, ◌==◌, if◌then◌else◌, length, all, arith, Result, ok,
  err, Error, Bool-cases, length-append,
}
use cnpg_backup.Repository.Names.Hex.{is_upper_hex, digit_value, parse_digits, parse_hex, is_digit}

-- The texts before and behind the first slash.
unfoldable pub before_slash : Text → Text
before_slash [] = []
before_slash (c ∷ cs) = let rest = before_slash cs in if c == b'/' then [] else c ∷ rest

unfoldable pub after_slash : Text → Text
after_slash [] = []
after_slash (c ∷ cs) = let rest = after_slash cs in if c == b'/' then cs else rest

-- `0|[1-9A-F][0-9A-F]{0,7}`.
unfoldable pub lsn_part_ok : Text → Bool
unfolding is_upper_hex all
lsn_part_ok [] = false
lsn_part_ok (c ∷ cs) =
    is_upper_hex c
    && all is_upper_hex cs
    && leb (length cs) 7
    && (not (c == b'0') || length cs == 0)

-- A slash in neither part is guaranteed by the digits; one must stand between them.
unfoldable pub lsn_ok : Text → Bool
unfolding before_slash after_slash lsn_part_ok
lsn_ok s = lsn_part_ok (before_slash s) && lsn_part_ok (after_slash s)

unfoldable pub parse_lsn : Text → Result ℕ
unfolding lsn_ok parse_digits
parse_lsn s =
    if lsn_ok s
    then ok (parse_hex (before_slash s) * 2 ^ 32 + parse_hex (after_slash s))
    else err Error.invalid

-- The value that the source uses where it drops the error: 0 for an invalid text.
unfoldable pub lsn_or_zero : Text → ℕ
unfolding parse_lsn
lsn_or_zero s = elim (parse_lsn s) [ ok n ↦ n | err e ↦ 0 ]

unfoldable pub hex_digit : ℕ → ℕ
hex_digit n = if ltb n 10 then n + b'0' else n + 55

-- `%X`, for a number below 16 ^ fuel.
unfoldable pub format_hex : ℕ → ℕ → Text
unfolding hex_digit
format_hex zero n = []
format_hex (suc fuel) n =
    let rest = format_hex fuel (n / 16) in
    if ltb n 16 then hex_digit n ∷ [] else rest ++ hex_digit (n % 16) ∷ []

-- `%X/%X` of the two halves of a 64-bit number.
unfoldable pub format_lsn : ℕ → Text
unfolding format_hex
format_lsn n = format_hex 8 (n / 2 ^ 32) ++ b'/' ∷ format_hex 8 (n % 2 ^ 32)

-- A text of the form of one part, with at most `n` digits behind the first.
abbrev part_within : ℕ → Text → Bool
part_within n [] = false
part_within n (c ∷ cs) =
    is_upper_hex c
    && all is_upper_hex cs
    && leb (length cs) n
    && (not (c == b'0') || length cs == 0)

digit_round_trip : (n : ℕ) → n < 16 → digit_value (hex_digit n) ≡ n
unfolding digit_value hex_digit
digit_round_trip n h = ground arith

hex_digit-upper : (n : ℕ) → n < 16 → is_upper_hex (hex_digit n) ≡ true
unfolding is_upper_hex hex_digit is_digit
hex_digit-upper n h = ground arith

parse_digits-append :
    (base n : ℕ) (s t : Text)
    → parse_digits base n (s ++ t) ≡ parse_digits base (parse_digits base n s) t
unfolding parse_digits
parse_digits-append base n [] t = refl
parse_digits-append base n (c ∷ s) t = parse_digits-append base (n * base + digit_value c) s t

parse_format_hex : (fuel n : ℕ) → n < 16 ^ fuel → parse_hex (format_hex fuel n) ≡ n
unfolding format_hex parse_digits
parse_format_hex zero n h = omega arith
parse_format_hex (suc fuel) n h = elim (Bool-cases (ltb n 16)) [
  | inl small ↦ rw small (omega (arith, digit_round_trip n (ground arith)))
  | inr large ↦
      let rest = parse_format_hex fuel (n / 16) (omega (arith, pow-suc 16 fuel)) in
      rw large (
        parse_digits-append 16 0 (format_hex fuel (n / 16)) (hex_digit (n % 16) ∷ [])
        ∙ rw rest (rw (digit_round_trip (n % 16) (omega arith)) (omega arith)))
]

abbrev head_nonzero : Text → Bool
head_nonzero [] = false
head_nonzero (c ∷ cs) = not (c == b'0')

head_nonzero-append : (s t : Text) → head_nonzero s ≡ true → head_nonzero (s ++ t) ≡ true
head_nonzero-append [] t h = cc
head_nonzero-append (c ∷ s) t h = h

all-snoc :
    (s : Text) (d : ℕ)
    → all is_upper_hex s ≡ true
    → is_upper_hex d ≡ true
    → all is_upper_hex (s ++ d ∷ []) ≡ true
unfolding all
all-snoc [] d h k = ground arith
all-snoc (c ∷ s) d h k = ground (arith, all-snoc s d)

part_within-snoc :
    (n : ℕ) (s : Text) (d : ℕ)
    → part_within n s ≡ true
    → head_nonzero s ≡ true
    → is_upper_hex d ≡ true
    → part_within (n + 1) (s ++ d ∷ []) ≡ true
part_within-snoc n [] d h k u = cc
part_within-snoc n (c ∷ s) d h k u = ground (arith, all-snoc s d, length-append {0} s (d ∷ []))

hex_digit_nonzero : (n : ℕ) → 0 < n → n < 16 → (hex_digit n == b'0') ≡ false
unfolding hex_digit
hex_digit_nonzero n h k = ground arith

format_hex-head : (fuel n : ℕ) → 0 < n → n < 16 ^ fuel → head_nonzero (format_hex fuel n) ≡ true
unfolding format_hex
format_hex-head zero n pos h = absurd (omega arith)
format_hex-head (suc fuel) n pos h = elim (Bool-cases (ltb n 16)) [
  | inl small ↦ rw small (ground (arith, hex_digit_nonzero n))
  | inr large ↦
      let more : 0 < n / 16 = ground arith in
      rw large (
        head_nonzero-append (format_hex fuel (n / 16)) (hex_digit (n % 16) ∷ [])
          (format_hex-head fuel (n / 16) more (omega (arith, pow-suc 16 fuel))))
]

format_hex-part :
    (fuel n : ℕ) → n < 16 ^ suc fuel → part_within fuel (format_hex (suc fuel) n) ≡ true
unfolding format_hex all
format_hex-part zero n h = ground (arith, hex_digit-upper n)
format_hex-part (suc fuel) n h = elim (Bool-cases (ltb n 16)) [
  | inl small ↦ rw small (ground (arith, hex_digit-upper n))
  | inr large ↦
      let more : 0 < n / 16 = ground arith in
      let low : n / 16 < 16 ^ suc fuel = omega (arith, pow-suc 16 (suc fuel)) in
      let e : suc fuel ≡ fuel + 1 = omega arith in
      rw large (
        rw e (
          part_within-snoc fuel (format_hex (suc fuel) (n / 16)) (hex_digit (n % 16))
            (format_hex-part fuel (n / 16) low) (format_hex-head (suc fuel) (n / 16) more low)
            (hex_digit-upper (n % 16) (omega arith))))
]

slash_parts :
    (s t : Text)
    → all is_upper_hex s ≡ true
    → (before_slash (s ++ b'/' ∷ t) ≡ s) × (after_slash (s ++ b'/' ∷ t) ≡ t)
unfolding before_slash after_slash all is_upper_hex is_digit
slash_parts [] t h = (refl, refl)
slash_parts (c ∷ s) t h =
    let (p, q) = slash_parts s t (ground arith) in
    let other : (c == b'/') ≡ false = ground arith in (rw other (ap (◌∷◌ c) p), rw other q)

part_within-all : (n : ℕ) (s : Text) → part_within n s ≡ true → all is_upper_hex s ≡ true
unfolding all
part_within-all n [] h = refl
part_within-all n (c ∷ s) h = ground arith

lsn_part_ok_lem : (s : Text) → part_within 7 s ≡ true → lsn_part_ok s ≡ true
unfolding lsn_part_ok
lsn_part_ok_lem [] h = h
lsn_part_ok_lem (c ∷ s) h = h

halves : (n : ℕ) → n / 2 ^ 32 * 2 ^ 32 + n % 2 ^ 32 ≡ n
halves n = omega arith

-- Every 64-bit position is printed to a text that is accepted and read back as that position.
pub parse_lsn-format_lsn : (n : ℕ) → n < 2 ^ 64 → parse_lsn (format_lsn n) ≡ ok n
unfolding parse_lsn format_lsn
parse_lsn-format_lsn n h =
    let hi = n / 2 ^ 32 in
    let lo = n % 2 ^ 32 in
    let first = format_hex-part 7 hi (omega arith) in
    let second = format_hex-part 7 lo (omega arith) in
    let (before, after) =
      slash_parts (format_hex 8 hi) (format_hex 8 lo) (part_within-all 7 (format_hex 8 hi) first) in
    let accepted : lsn_ok (format_hex 8 hi ++ b'/' ∷ format_hex 8 lo) ≡ true =
      unfold lsn_ok in
      rw (before, after)
        (rw (lsn_part_ok_lem (format_hex 8 hi) first) (lsn_part_ok_lem (format_hex 8 lo) second)) in
    let p = parse_format_hex 8 hi (omega arith) in
    let q = parse_format_hex 8 lo (omega arith) in
    rw accepted (rw (before, after) (rw (p, q) (ap {B = Result ℕ} ok (halves n))))
