-- ===== src/Repository/Names/Keys.antt =====
-- internal/repository/repository.go and gc.go: the keys of a repository's objects.
use native.Mathlib.Nat.{pow-suc}
use cnpg_backup.Prelude.{
  ℕ, zero, suc, ◌+◌, ◌*◌, ◌/◌, ◌%◌, ◌^◌, ◌<◌, Bool, true, false, not, ◌&&◌, ◌||◌, ◌≡◌, refl, ap,
  ◌∙◌, inl, inr, [], ◌∷◌, ◌++◌, some, Text, text_eq, codes, ltb, ◌==◌, if◌then◌else◌, length, all,
  arith, Result, ok, ◌>>=◌, Bool-cases, and_left, and_right, lt→ltb,
}
use cnpg_backup.Repository.Names.Hex.{is_digit, parse_digits, digit_value, decimal}
use cnpg_backup.Repository.Names.Lsn.{hex_digit}
use cnpg_backup.Repository.Names.Wal.{wal_timeline}
use cnpg_backup.Repository.Schema.Records.{Identity, Artifact, Commit}

-- `strconv.FormatInt` of a number below 10 ^ fuel.
unfoldable pub format_digits : ℕ → ℕ → Text
format_digits zero n = []
format_digits (suc fuel) n =
    let rest = format_digits fuel (n / 10) in
    if ltb n 10 then (n + b'0') ∷ [] else rest ++ (n % 10 + b'0') ∷ []

-- The decimal text of a number of 64 bits.
abbrev pub format_decimal : ℕ → Text
format_decimal n = format_digits 20 n

-- `%0wX` of a number below 16 ^ width.
unfoldable pub pad_hex : ℕ → ℕ → Text
unfolding hex_digit
pad_hex zero n = []
pad_hex (suc width) n = pad_hex width (n / 16) ++ hex_digit (n % 16) ∷ []

module _ (id : Identity) where
  abbrev pub root : Text
  root = codes "v1/" ++ (id.repository_id ++ codes "/")

  unfoldable pub backup_key : Text → Text
  backup_key uid = root ++ (codes "backups/" ++ (uid ++ codes "/"))

  unfoldable pub attempt_key : Text → Text → Text
  unfolding backup_key
  attempt_key uid attempt = backup_key uid ++ (codes "attempts/" ++ (attempt ++ codes "/"))

  unfoldable pub artifact_key : Commit → Artifact → Text
  unfolding attempt_key format_digits text_eq
  artifact_key c a =
      let s =
        attempt_key c.backup_uid c.attempt_id
        ++ (codes "data/" ++ (format_decimal a.index ++ codes ".tar")) in
      if text_eq a.compression (codes "gzip") then s ++ codes ".gz" else s

  -- `WALKey`.
  unfoldable pub wal_key : Text → Result Text
  unfolding wal_timeline pad_hex
  wal_key name = do
    timeline ← wal_timeline name id.wal_segment_bytes
    ok (root ++ (codes "wal/" ++ (pad_hex 8 timeline ++ (codes "/" ++ name))))

parse_digits-snoc :
    (n d : ℕ) (s : Text)
    → parse_digits 10 n (s ++ d ∷ []) ≡ parse_digits 10 n s * 10 + digit_value d
unfolding parse_digits
parse_digits-snoc n d [] = refl
parse_digits-snoc n d (c ∷ s) = parse_digits-snoc (n * 10 + digit_value c) d s

digit_value_lem : (n : ℕ) → n < 10 → digit_value (n + b'0') ≡ n
unfolding digit_value
digit_value_lem n h = ground arith

parse_digits-format_digits :
    (fuel n : ℕ) → n < 10 ^ fuel → parse_digits 10 0 (format_digits fuel n) ≡ n
unfolding format_digits parse_digits
parse_digits-format_digits zero n h = omega arith
parse_digits-format_digits (suc fuel) n h = elim (Bool-cases (ltb n 10)) [
  | inl small ↦ rw small (omega (arith, digit_value_lem n (ground arith)))
  | inr large ↦
      let rest = parse_digits-format_digits fuel (n / 10) (omega (arith, pow-suc 10 fuel)) in
      rw large (
        parse_digits-snoc 0 (n % 10 + b'0') (format_digits fuel (n / 10))
        ∙ rw rest (rw (digit_value_lem (n % 10) (omega arith)) (omega arith)))
]

-- A text of digits with no zero in front of others.
abbrev is_plain : Text → Bool
is_plain [] = false
is_plain (c ∷ cs) = all is_digit (c ∷ cs) && (not (c == b'0') || length cs == 0)

abbrev is_leading : Text → Bool
is_leading [] = false
is_leading (c ∷ cs) = all is_digit (c ∷ cs) && not (c == b'0')

all_digits-snoc :
    (s : Text) (d : ℕ)
    → all is_digit s ≡ true
    → is_digit d ≡ true
    → all is_digit (s ++ d ∷ []) ≡ true
unfolding all
all_digits-snoc [] d h k = ground arith
all_digits-snoc (c ∷ s) d h k = ground (arith, all_digits-snoc s d)

is_leading-snoc :
    (s : Text) (d : ℕ) → is_leading s ≡ true → is_digit d ≡ true → is_leading (s ++ d ∷ []) ≡ true
unfolding all
is_leading-snoc [] d h k = cc
is_leading-snoc (c ∷ s) d h k = ground (arith, all_digits-snoc s d)

digit_lem : (n : ℕ) → n < 10 → is_digit (n + b'0') ≡ true
unfolding is_digit
digit_lem n h = ground arith

format_digits-leading :
    (fuel n : ℕ) → 0 < n → n < 10 ^ fuel → is_leading (format_digits fuel n) ≡ true
unfolding format_digits all is_digit
format_digits-leading zero n pos h = absurd (omega arith)
format_digits-leading (suc fuel) n pos h = elim (Bool-cases (ltb n 10)) [
  | inl small ↦ rw small (ground (arith, digit_lem n))
  | inr large ↦
      let more : 0 < n / 10 = ground arith in
      rw large (
        is_leading-snoc (format_digits fuel (n / 10)) (n % 10 + b'0')
          (format_digits-leading fuel (n / 10) more (omega (arith, pow-suc 10 fuel)))
          (digit_lem (n % 10) (omega arith)))
]

leading-plain : (s : Text) → is_leading s ≡ true → is_plain s ≡ true
unfolding all
leading-plain [] h = cc
leading-plain (c ∷ s) h = ground arith

plain-decimal :
    (s : Text)
    → is_plain s ≡ true
    → ltb (parse_digits 10 0 s) (2 ^ 64) ≡ true
    → decimal s ≡ some (parse_digits 10 0 s)
unfolding decimal
plain-decimal [] h k = cc
plain-decimal (c ∷ s) h k =
    rw
      (
        and_left (all is_digit (c ∷ s)) (not (c == b'0') || length s == 0) h,
        and_right (all is_digit (c ∷ s)) (not (c == b'0') || length s == 0) h,
        k,
      )
      refl

zero_lem : decimal (format_decimal 0) ≡ some 0
unfolding decimal format_digits is_digit all parse_digits digit_value
zero_lem = refl

-- Every number of 64 bits is printed to a text that is read back as that number.
pub decimal-format_decimal : (n : ℕ) → n < 2 ^ 64 → decimal (format_decimal n) ≡ some n
decimal-format_decimal zero h = zero_lem
decimal-format_decimal (suc n) h =
    let read = parse_digits-format_digits 20 (suc n) (omega arith) in
    plain-decimal (format_decimal (suc n))
      (leading-plain (format_decimal (suc n))
        (format_digits-leading 20 (suc n) (omega arith) (omega arith)))
      (rw read (lt→ltb (suc n) (2 ^ 64) h))
    ∙ ap some read
