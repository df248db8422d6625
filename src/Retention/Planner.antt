-- ===== src/Retention/Planner.antt =====
-- internal/retention/planner.go: the facts about an inventory and the decision `Plan`.
-- An instant is a number of nanoseconds after Go's zero time, so `IsZero` is `== 0`; maps keyed by
-- a string or a number are lists searched from the front, or functions; an `int` or `uint64` is a
-- number, with the wrap-around of `start += step` written out.
pub mod Facts
pub mod Paths
pub mod Select
pub mod Cover
mod Trace
mod Index
mod Kept
mod Rules
pub mod Newest
pub mod Keeping
pub mod Expiry
pub mod Continuity
pub mod Coverage
pub mod Samples
use cnpg_backup.Prelude.{
  ℕ, ◌-◌, ◌^◌, ◌/◌, ◌*◌, Bool, true, false, not, ◌&&◌, ◌||◌, List, [], Option, none, some, Result,
  ok, coverage, reject, guard, ◌>>=◌, ◌>>◌, ltb, leb, ◌==◌, if◌then◌else◌, length, min,
}
use Prim.Native.Nat.{bit_and}
use cnpg_backup.Retention.Planner.Facts.{Inventory, Hint, Decision, is_empty}
use cnpg_backup.Retention.Planner.Paths.{index_paths, find_current, index_backups, check_parents}
use cnpg_backup.Retention.Planner.Select.{select_paths, no_keep, keep_parents, expire_ids}
use cnpg_backup.Retention.Planner.Cover.{index_segments, no_segments, cover_kept, u64_max, Site}

-- The first test of `Plan`.
unfoldable pub parameters_ok : Inventory → ℕ → ℕ → Bool
parameters_ok inv cutoff minimum =
    let step = inv.segment_bytes in
    not (cutoff == 0)
    && leb 1 minimum
    && leb minimum 100
    && leb (2 ^ 20) step
    && leb step (2 ^ 30)
    && bit_and step (step - 1) == 0
    && not (is_empty inv.backups)
    && not (is_empty inv.paths)
    && leb (length inv.paths) 1024

-- The last lines: no floor found is a failure, and a hint can only lower the floor.
unfoldable pub apply_hint : ℕ → ℕ → ℕ → Option Hint → ℕ
apply_hint step current floor none = floor
apply_hint step current floor (some hint) =
    if hint.timeline == current then min floor (hint.start / step * step) else floor

unfoldable pub plan : Inventory → (cutoff minimum : ℕ) → Option Hint → Result Decision
plan inv cutoff minimum hint = do
  guard (parameters_ok inv cutoff minimum) coverage
  indexed ← index_paths inv.paths [] []
  current ← find_current indexed.0 indexed.1 indexed.0 0
  by_id ← index_backups indexed.0 inv.backups []
  guard (check_parents by_id inv.backups) coverage
  let chosen = select_paths inv.backups cutoff minimum inv.paths no_keep
  let keep = keep_parents by_id chosen.keep
  let expire = expire_ids by_id keep inv.backups
  segments ← index_segments indexed.0 inv.segment_bytes inv.segments no_segments
  let site : Site = record {
    segments = segments;
    step = inv.segment_bytes;
    current = current;
    by_id = by_id;
    paths = inv.paths;
    total = length inv.segments;
  }
  floor ← cover_kept site keep u64_max
  reject (floor == u64_max) coverage
  ok record {
    keep = keep;
    expire = expire;
    current = current;
    wal_floor = apply_hint inv.segment_bytes current floor hint;
    shortened = chosen.shortened;
  }
