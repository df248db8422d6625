-- ===== src/Witnesses/History.antt =====
-- repository: a timeline history, and the archive along a path.
use cnpg_backup.Prelude.{◌≡◌, refl, List, [], ◌∷◌, none, some, codes, any, all, text_eq, ok, arith}
use cnpg_backup.Repository.Names.Hex.{is_upper_hex, is_digit, parse_digits, digit_value}
use cnpg_backup.Repository.Names.Lsn.{
  parse_lsn, lsn_or_zero, lsn_ok, lsn_part_ok, before_slash, after_slash, format_lsn, format_hex,
  hex_digit,
}
use cnpg_backup.Repository.Schema.Records.{WalRange}
use cnpg_backup.Repository.Recovery.Target.{Timeline}
use cnpg_backup.Repository.History.{
  Strings, parse_history, split_lines, join_first, parse_uint32, parse_entry, is_comment, fork_of,
  history_lines,
}
use cnpg_backup.Repository.History.Path.{IsPath, parse_history-IsPath}
use cnpg_backup.Repository.History.Inventory.{has_segment}
use cnpg_backup.Repository.History.Covered.{
  Archive, archive_end, walk_segments, frontier_of, require_path, IsCovered, require_path-IsCovered,
}

abbrev strings : Strings
strings = record {
  trim = λ s. s;
  fields = λ s. codes "1" ∷ codes "0/1000000" ∷ codes "switch" ∷ [];
}

abbrev path : List Timeline
path =
    record { id = 1; fork_lsn = none } ∷ record { id = 2; fork_lsn = some (codes "0/1000000") } ∷ []

parsed : parse_history strings 2 (codes "1 0/1000000 switch") ≡ ok path
unfolding parse_history split_lines join_first parse_uint32 parse_entry is_comment fork_of
    history_lines parse_lsn lsn_ok lsn_part_ok before_slash after_slash format_lsn format_hex
    hex_digit is_upper_hex is_digit parse_digits digit_value all text_eq
parsed = refl

parse_history-IsPath_example : IsPath 2 path
parse_history-IsPath_example =
    parse_history-IsPath strings 2 (codes "1 0/1000000 switch") path parsed

-- Three segments on two timelines; the backup ends at position 5 of the first, which forks at 20.
abbrev site : Archive
site = record { step = 16; segments = (1, 0) ∷ (1, 16) ∷ (2, 16) ∷ [] }

abbrev route : List Timeline
route = record { id = 1; fork_lsn = none } ∷ record { id = 2; fork_lsn = some (codes "0/14") } ∷ []

abbrev ranges : List WalRange
ranges =
    record { timeline = 1; start_lsn = codes "0/5"; end_lsn = codes "0/14" }
    ∷ record { timeline = 2; start_lsn = codes "0/14"; end_lsn = codes "0/20" }
    ∷ []

required : require_path site 1 route 5 ≡ ok ranges
unfolding require_path frontier_of archive_end walk_segments has_segment any format_lsn format_hex
    hex_digit lsn_or_zero parse_lsn lsn_ok lsn_part_ok before_slash after_slash is_upper_hex
    is_digit parse_digits digit_value all
required = refl

require_path-IsCovered_example : IsCovered site 1 route 5
require_path-IsCovered_example = require_path-IsCovered site 1 route 5 ranges (omega arith) required
