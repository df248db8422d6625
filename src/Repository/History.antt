-- ===== src/Repository/History.antt =====
-- internal/repository/recovery.go: timeline histories.
-- `strings.TrimSpace` and `strings.Fields` are parameters; nothing is assumed of them.
pub mod Path
pub mod Inventory
pub mod Covered
pub mod Resolve
use cnpg_backup.Prelude.{
  ℕ, zero, suc, ◌+◌, ◌^◌, Bool, true, false, not, ◌&&◌, ◌||◌, List, [], ◌∷◌, ◌++◌, Option, none,
  some, Text, text_eq, codes, ltb, leb, ◌==◌, if◌then◌else◌, length, take, all, Result, ok, err,
  Error, guard, ◌>>=◌, ◌>>◌,
}
use cnpg_backup.Repository.Names.Hex.{is_digit, parse_digits}
use cnpg_backup.Repository.Names.Lsn.{parse_lsn, format_lsn}
use cnpg_backup.Repository.Recovery.Target.{Timeline}

pub record Strings : Type 0 where
  pub trim : Text → Text
  pub fields : Text → List Text

-- `strings.Split(s, "\n")`.
unfoldable pub join_first : ℕ → List Text → List Text
join_first c [] = (c ∷ []) ∷ []
join_first c (line ∷ lines) = (c ∷ line) ∷ lines

unfoldable pub split_lines : Text → List Text
unfolding join_first
split_lines [] = [] ∷ []
split_lines (c ∷ cs) = let rest = split_lines cs in if c == 10 then [] ∷ rest else join_first c rest

-- `strconv.ParseUint(s, 10, 32)`.
unfoldable pub parse_uint32 : Text → Option ℕ
unfolding is_digit all parse_digits
parse_uint32 s =
    if not (length s == 0) && all is_digit s && ltb (parse_digits 10 0 s) (2 ^ 32)
    then some (parse_digits 10 0 s)
    else none

-- The tests on the fields of a line: the timeline and the position of its end.
unfoldable pub parse_entry : (timeline count previous last : ℕ) → List Text → Result (ℕ × ℕ)
unfolding parse_uint32 parse_lsn
parse_entry timeline count previous last (first ∷ second ∷ third ∷ rest) = do
  guard (ltb count 1023) Error.corrupt
  n ← elim (parse_uint32 first) [ none ↦ err Error.corrupt | some n ↦ ok n ]
  last_end ← elim (parse_lsn second) [ err e ↦ err Error.corrupt | ok n ↦ ok n ]
  guard (not (n == 0) && ltb previous n && ltb n timeline && (count == 0 || leb last last_end))
      Error.corrupt
  ok (n, last_end)
parse_entry timeline count previous last _ = err Error.corrupt

unfoldable pub is_comment : Text → Bool
unfolding text_eq
is_comment line = length line == 0 || text_eq (take 1 line) (codes "#")

unfoldable pub fork_of : ℕ → ℕ → Option Text
unfolding format_lsn
fork_of count last = if count == 0 then none else some (format_lsn last)

-- The loop over the lines. `count` is the length of the path so far.
unfoldable pub history_lines :
    Strings → (timeline : ℕ) → List Text → (count previous last : ℕ) → Result (List Timeline)
unfolding is_comment parse_entry fork_of format_lsn
history_lines lib timeline [] count previous last = do
  guard (not (count == 0)) Error.corrupt
  ok (record { id = timeline; fork_lsn = some (format_lsn last) } ∷ [])
history_lines lib timeline (line ∷ lines) count previous last = elim (is_comment (lib.trim line)) [
  | true ↦ history_lines lib timeline lines count previous last
  | false ↦ parse_entry timeline count previous last (lib.fields (lib.trim line)) >>= λ v.
      history_lines lib timeline lines (count + 1) v.0 v.1 >>= λ rest.
      ok (record { id = v.0; fork_lsn = fork_of count last } ∷ rest)
]

unfoldable pub parse_history : Strings → ℕ → Text → Result (List Timeline)
unfolding split_lines history_lines
parse_history lib timeline b = do
  guard (ltb 1 timeline && not (length b == 0) && leb (length b) (2 ^ 20)) Error.invalid
  history_lines lib timeline (split_lines b) 0 0 0
