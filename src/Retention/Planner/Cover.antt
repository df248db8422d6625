-- ===== src/Retention/Planner/Cover.antt =====
-- planner.go: the archived segments, their continuity behind each kept backup, and
-- the floor below which the current timeline's segments are no longer needed.
use cnpg_backup.Prelude.{
  ℕ, zero, suc, ◌+◌, ◌-◌, ◌*◌, ◌/◌, ◌%◌, ◌^◌, Bool, true, false, ◌&&◌, List, [], ◌∷◌, ◌++◌, Option,
  none, some, Result, ok, coverage, reject, guard, ◌>>=◌, ◌>>◌, ltb, leb, ◌==◌, if◌then◌else◌, find,
  min, max,
}
use cnpg_backup.Retention.Planner.Facts.{Backup, Timeline, Segment, Keep, get_backup}
use cnpg_backup.Retention.Planner.Paths.{Route, PathMap, has_path}
use cnpg_backup.Retention.Planner.Select.{reachable}

abbrev pub u64_max : ℕ
u64_max = 2 ^ 64 - 1

abbrev pub u64 : ℕ → ℕ
u64 n = n % 2 ^ 64

-- The maps `live` and `frontier`.
pub record Segments : Type 0 where
  pub seen : List Segment
  pub frontier : ℕ → ℕ

abbrev pub no_segments : Segments
no_segments = record { seen = []; frontier = λ t. 0 }

abbrev pub is_at : ℕ → ℕ → Segment → Bool
is_at t start s = s.timeline == t && s.start == start

unfoldable pub find_segment : ℕ → ℕ → List Segment → Option Segment
unfolding find
find_segment t start seen = find (is_at t start) seen

-- `live[t][start]`, which is false where the key is missing.
unfoldable pub is_live : List Segment → ℕ → ℕ → Bool
unfolding find_segment
is_live seen t start = elim (find_segment t start seen) [ none ↦ false | some s ↦ s.live ]

unfoldable pub segment_ok : PathMap → ℕ → Segment → Bool
unfolding has_path
segment_ok m step s = has_path s.timeline m && s.start % step == 0 && leb s.start (u64_max - step)

unfoldable pub raise_frontier : ℕ → Segment → (ℕ → ℕ) → ℕ → ℕ
raise_frontier step s frontier t =
    if t == s.timeline then max (frontier t) (s.start + step) else frontier t

unfoldable pub is_seen : List Segment → Segment → Bool
unfolding find_segment
is_seen seen s = elim (find_segment s.timeline s.start seen) [ none ↦ false | some f ↦ true ]

unfoldable pub index_segments : PathMap → ℕ → List Segment → Segments → Result Segments
unfolding segment_ok is_seen raise_frontier
index_segments m step [] ix = ok ix
index_segments m step (s ∷ ss) ix = do
  guard (segment_ok m step s) coverage
  reject (is_seen ix.seen s) coverage
  index_segments m step ss
      (record { seen = ix.seen ++ s ∷ []; frontier = raise_frontier step s ix.frontier })

-- What the last loops read and do not change.
pub record Site : Type 0 where
  pub segments : Segments
  pub step : ℕ
  pub current : ℕ
  pub by_id : List Backup
  pub paths : List Route
  pub total : ℕ

-- `for ; start < end; start += step`, by the rounds that are left.
unfoldable pub all_live : Site → ℕ → ℕ → ℕ → Bool
unfolding is_live
all_live site t zero start = true
all_live site t (suc rounds) start =
    is_live site.segments.seen t start && all_live site t rounds (u64 (start + site.step))

-- The rounds of that loop: the multiples of `step` from the one at or below `pos` up to `end`.
abbrev pub rounds_to : (step pos end : ℕ) → ℕ
rounds_to step pos end = (end - pos / step * step + (step - 1)) / step

unfoldable pub range_ok : Site → (t pos end : ℕ) → Bool
unfolding all_live
range_ok site t pos end =
    leb pos end
    && leb ((end - pos) / site.step) site.total
    && (if ltb pos end
        then all_live site t (rounds_to site.step pos end) (pos / site.step * site.step)
        else true)

-- Where the coverage of one timeline ends: at the next fork, or at the last archived segment.
unfoldable pub range_end : Site → Timeline → Route → ℕ → ℕ
range_end site t [] pos = max pos (site.segments.frontier t.id)
range_end site t (next ∷ ts) pos = next.fork

unfoldable pub lower_floor : Site → Backup → Timeline → ℕ → ℕ
lower_floor site b t floor =
    if t.id == site.current
    then min floor (
        (if b.timeline == site.current then min b.start b.redo else t.fork) / site.step * site.step)
    else floor

-- The loop over the timelines of one path from the backup's own on.
unfoldable pub walk : Site → Backup → Route → (pos floor : ℕ) → Result ℕ
unfolding range_ok range_end lower_floor
walk site b [] pos floor = ok floor
walk site b (t ∷ ts) pos floor = do
  let end = range_end site t ts pos
  guard (range_ok site t.id pos end) coverage
  walk site b ts end (lower_floor site b t floor)

-- The timelines before the backup's own are skipped.
unfoldable pub from_own : Backup → Route → Route
from_own b [] = []
from_own b (t ∷ ts) = let rest = from_own b ts in if t.id == b.timeline then t ∷ ts else rest

unfoldable pub cover_paths : Site → Backup → List Route → ℕ → Result ℕ
unfolding reachable walk from_own
cover_paths site b [] floor = ok floor
cover_paths site b (path ∷ rest) floor = do
  next ← (if reachable b path then walk site b (from_own b path) b.end floor else ok floor)
  cover_paths site b rest next

unfoldable pub cover_kept : Site → Keep → ℕ → Result ℕ
unfolding get_backup cover_paths
cover_kept site [] floor = ok floor
cover_kept site ((id, r) ∷ rest) floor = do
  next ← cover_paths site (get_backup id site.by_id) site.paths floor
  cover_kept site rest next
