-- ===== src/Repository/Names/Wal.antt =====
-- plan.go, retention_inventory.go and coverage.go: the names of WAL files and the positions that
-- they stand for.
use cnpg_backup.Prelude.{
  ℕ, ◌+◌, ◌*◌, ◌/◌, ◌^◌, Bool, true, false, not, ◌&&◌, [], ◌∷◌, Option, none, some, Text, text_eq,
  codes, ltb, ◌==◌, if◌then◌else◌, length, take, drop, all, Result, ok, err, Error, guard, reject,
  ◌>>=◌, ◌>>◌,
}
use cnpg_backup.Repository.Names.Hex.{is_upper_hex, parse_hex, parse_digits, valid_segment_size}

-- The alternatives of `walRE`.
pub data Shape : Type 0 where
  segment partial history label : Shape

-- The `n` bytes from byte `i` on.
abbrev pub slice : ℕ → ℕ → Text → Text
slice i n s = take n (drop i s)

abbrev pub is_hex_of : ℕ → Text → Bool
is_hex_of n s = length s == n && all is_upper_hex s

-- What follows the 24 digits of a segment name.
unfoldable pub segment_shape : Text → Option Shape
unfolding text_eq all is_upper_hex
segment_shape [] = some segment
segment_shape (c ∷ cs) =
    if text_eq (c ∷ cs) (codes ".partial")
    then some partial
    else (if c == b'.' && is_hex_of 8 (take 8 cs) && text_eq (drop 8 cs) (codes ".backup")
        then some label
        else none)

-- `walRE.MatchString`, with the alternative that matches.
unfoldable pub wal_shape : Text → Option Shape
unfolding segment_shape
wal_shape s =
    if is_hex_of 24 (take 24 s)
    then segment_shape (drop 24 s)
    else (if is_hex_of 8 (take 8 s) && text_eq (drop 8 s) (codes ".history")
        then some history
        else none)

unfoldable pub wal_offsets_ok : Shape → Text → ℕ → Bool
unfolding parse_digits
wal_offsets_ok history s size = true
wal_offsets_ok label s size =
    ltb (parse_hex (slice 16 8 s)) (2 ^ 32 / size) && ltb (parse_hex (slice 25 8 s)) size
wal_offsets_ok segment s size = ltb (parse_hex (slice 16 8 s)) (2 ^ 32 / size)
wal_offsets_ok partial s size = ltb (parse_hex (slice 16 8 s)) (2 ^ 32 / size)

unfoldable pub wal_timeline : Text → ℕ → Result ℕ
unfolding wal_shape wal_offsets_ok valid_segment_size parse_digits
wal_timeline s size = do
  guard (valid_segment_size size) Error.invalid
  shape ← elim (wal_shape s) [ none ↦ err Error.invalid | some k ↦ ok k ]
  reject (parse_hex (take 8 s) == 0) Error.invalid
  guard (wal_offsets_ok shape s size) Error.invalid
  ok (parse_hex (take 8 s))

-- `ValidWALFilename`: the grammar alone.
unfoldable pub valid_wal_filename : Text → Bool
unfolding wal_shape
valid_wal_filename s =
    (elim (wal_shape s) [ none ↦ false | some k ↦ true ])
    && not (text_eq (take 8 s) (codes "00000000"))

-- Where a segment begins: `log << 32 | segment * size`.
unfoldable pub segment_start : Text → ℕ → ℕ
unfolding parse_digits
segment_start s size = parse_hex (slice 8 8 s) * 2 ^ 32 + parse_hex (slice 16 8 s) * size

unfoldable pub archive_position : Text → ℕ → Result (ℕ × ℕ)
unfolding wal_timeline segment_start
archive_position s size = do
  timeline ← wal_timeline s size
  guard (length s == 24) Error.invalid
  ok (timeline, segment_start s size)
