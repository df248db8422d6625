-- ===== src/Repository/Names/Hex.antt =====
-- schema.go: digits, identifiers, hashes and decimal numbers.
use Prim.Native.Nat.{bit_and}
use cnpg_backup.Prelude.{
  ℕ, suc, ◌+◌, ◌-◌, ◌*◌, ◌^◌, Bool, false, not, ◌&&◌, ◌||◌, List, [], ◌∷◌, Option, none, some, Text,
  text_eq, codes, ltb, leb, ◌==◌, if◌then◌else◌, length, take, drop, all,
}

unfoldable pub is_digit : ℕ → Bool
is_digit c = leb b'0' c && leb c b'9'

-- `[0-9A-F]` and `[0-9a-f]`.
unfoldable pub is_upper_hex : ℕ → Bool
unfolding is_digit
is_upper_hex c = is_digit c || leb b'A' c && leb c b'F'

unfoldable pub is_lower_hex : ℕ → Bool
unfolding is_digit
is_lower_hex c = is_digit c || leb b'a' c && leb c b'f'

unfoldable pub digit_value : ℕ → ℕ
digit_value c = if leb c b'9' then c - b'0' else (if leb c b'F' then c - 55 else c - 87)

-- `strconv.ParseUint` of a text of digits, where it does not overflow.
unfoldable pub parse_digits : (base : ℕ) → ℕ → Text → ℕ
unfolding digit_value
parse_digits base n [] = n
parse_digits base n (c ∷ cs) = parse_digits base (n * base + digit_value c) cs

abbrev pub parse_hex : Text → ℕ
parse_hex s = parse_digits 16 0 s

-- Groups of lower-case hexadecimal digits of the given lengths, with dashes between them.
unfoldable pub matches_groups : List ℕ → Text → Bool
unfolding is_lower_hex all
matches_groups [] s = false
matches_groups (n ∷ []) s = length s == n && all is_lower_hex s
matches_groups (n ∷ m ∷ ns) s =
    let rest = matches_groups (m ∷ ns) (drop (suc n) s) in
    length (take n s) == n
    && all is_lower_hex (take n s)
    && text_eq (take 1 (drop n s)) (codes "-")
    && rest

abbrev pub nil_uuid : Text
nil_uuid = codes "00000000-0000-0000-0000-000000000000"

unfoldable pub valid_id : Text → Bool
unfolding matches_groups
valid_id s = matches_groups (8 ∷ 4 ∷ 4 ∷ 4 ∷ 12 ∷ []) s && not (text_eq s nil_uuid)

unfoldable pub valid_hash : Text → Bool
unfolding is_lower_hex all
valid_hash s = length s == 64 && all is_lower_hex s

-- The canonical decimal text of a 64-bit number.
unfoldable pub decimal : Text → Option ℕ
unfolding is_digit all parse_digits
decimal [] = none
decimal (c ∷ cs) =
    if all is_digit (c ∷ cs)
      && (not (c == b'0') || length cs == 0)
      && ltb (parse_digits 10 0 (c ∷ cs)) (2 ^ 64)
    then some (parse_digits 10 0 (c ∷ cs))
    else none

-- A segment size: a power of two between 1 MiB and 1 GiB.
unfoldable pub valid_segment_size : ℕ → Bool
valid_segment_size size = leb (2 ^ 20) size && leb size (2 ^ 30) && bit_and size (size - 1) == 0
