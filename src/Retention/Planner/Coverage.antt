-- ===== src/Retention/Planner/Coverage.antt =====
-- What `Plan` of planner.go promises about the archive: no gap behind a kept backup, and a floor
-- below everything on the current timeline that a kept backup needs.
use native.Mathlib.Nat.{le_trans, div-lt_iff_lt-mul}
use cnpg_backup.Prelude.{
  ℕ, ◌+◌, ◌*◌, ◌/◌, ◌^◌, ◌≤◌, ◌<◌, true, ◌≡◌, refl, sym, ap, ◌∙◌, subst, inl, inr, List, [], ◌∷◌,
  Memᴰ, Option, none, some, ok, coverage, guard-eq-ok, >>=-eq-ok, ok-injective, arith, max, min,
  Bool-cases, ◌⊎◌, ◌==◌, if◌then◌else◌, Text, text_eq, text_eq→eq,
}
use cnpg_backup.Retention.Planner.{plan, parameters_ok, apply_hint}
use cnpg_backup.Retention.Planner.Facts.{
  Backup, Timeline, Segment, Inventory, Hint, Decision, Keep, is_kept, get_backup,
}
use cnpg_backup.Retention.Planner.Paths.{Route, backup_ok}
use cnpg_backup.Retention.Planner.Select.{reachable}
use cnpg_backup.Retention.Planner.Cover.{
  Site, no_segments, range_end, lower_floor, walk, from_own, cover_paths, cover_kept, u64_max,
}
use cnpg_backup.Retention.Planner.Trace.{Trace, site_of, final_keep}
use cnpg_backup.Retention.Planner.Index.{index_backups-ok, get_backup-mem}
use cnpg_backup.Retention.Planner.Keeping.{trace, by_id-IsKeyed}
use cnpg_backup.Retention.Planner.Continuity.{
  Gapless, Continuous, IsSite, index_segments-IsIndexed, range_ok-Gapless,
}

-- From `pos` on, along a path: no segment of timeline `current` that is met starts below `floor`.
pub FloorBelow : (current floor step : ℕ) → ℕ → Route → Type 0
FloorBelow current floor step pos [] = Unit
FloorBelow current floor step pos (t ∷ []) =
    t.id ≡ current → (n : ℕ) → pos < n * step + step → floor ≤ n * step
FloorBelow current floor step pos (t ∷ u ∷ ts) =
    (t.id ≡ current → (n : ℕ) → pos < n * step + step → floor ≤ n * step)
    × FloorBelow current floor step u.fork (u ∷ ts)

-- From where on a restored backup needs its own timeline.
abbrev pub needed_from : Backup → ℕ
needed_from b = min b.start b.redo

needed_first : (b : Backup) → b.start < b.end → needed_from b ≤ b.end
needed_first b h = omega arith

FloorBelow-mono :
    (current low high step : ℕ) (pos : ℕ) (ts : Route)
    → low ≤ high
    → FloorBelow current high step pos ts
    → FloorBelow current low step pos ts
unfolding FloorBelow
FloorBelow-mono current low high step pos [] le h = tt
FloorBelow-mono current low high step pos (t ∷ []) le h = λ on n met. le_trans le (h on n met)
FloorBelow-mono current low high step pos (t ∷ u ∷ ts) le h = (
  λ on n met. le_trans le (h.0 on n met),
  FloorBelow-mono current low high step u.fork (u ∷ ts) le h.1,
)

lower_floor-le :
    (site : Site) (b : Backup) (t : Timeline) (floor : ℕ) → lower_floor site b t floor ≤ floor
unfolding lower_floor
lower_floor-le site b t floor = ground arith

walk-le :
    (site : Site) (b : Backup) (ts : Route) (pos floor : ℕ) {r : ℕ}
    → walk site b ts pos floor ≡ ok r
    → r ≤ floor
unfolding walk
walk-le site b [] pos floor h = omega (arith, ok-injective h)
walk-le site b (t ∷ ts) pos floor {r} h =
    let h1 = (guard-eq-ok _ coverage _ h).1 in
    le_trans (walk-le site b ts (range_end site t ts pos) (lower_floor site b t floor) {r = r} h1)
      (lower_floor-le site b t floor)

head_fork : (u v : Timeline) (ts us : Route) → ◌≡◌ {A = Route} (u ∷ ts) (v ∷ us) → u.fork ≡ v.fork
head_fork u v ts us e = let same : u ≡ v = cc in ap (λ (w : Timeline). w.fork) same

-- `x` rounded down is below every segment that ends behind `x`.
round_down : (x n step : ℕ) → 0 < step → x < n * step + step → x / step * step ≤ n * step
round_down x n step pos h =
    let q : x / step < n + 1 = (div-lt_iff_lt-mul pos).1 (omega arith) in grind arith

module _ {segments : List Segment} {step : ℕ} {site : Site} (fit : IsSite segments step site)
    (b : Backup) where
  -- The floor is lowered enough for a timeline that is entered at its fork or is the backup's own.
  lower_floor-below :
      (t : Timeline) (need floor : ℕ)
      → needed_from b ≤ need
      → (t.id ≡ b.timeline) ⊎ (need ≡ t.fork)
      → t.id ≡ site.current
      → (n : ℕ) → need < n * step + step
      → lower_floor site b t floor ≤ n * step
  unfolding lower_floor
  lower_floor-below t need floor late entered on n met =
      let base : ℕ = if b.timeline == site.current then min b.start b.redo else t.fork in
      let low : base ≤ need = elim (Bool-cases (b.timeline == site.current)) [
        | inl own ↦ rw own late
        | inr other ↦ rw other (ground (arith, on, entered))
      ] in
      let e = fit.same_step in
      let rounded : base / site.step * site.step ≤ n * step =
        rw e (round_down base n step fit.positive (omega arith)) in
      elim (Bool-cases (t.id == site.current)) [
        | inl same ↦ rw same (omega (arith, rounded))
        | inr other ↦ absurd (ground (arith, on))
      ]

  walk_sound :
      (ts : Route) (pos need floor : ℕ) {r : ℕ}
      → needed_from b ≤ pos
      → needed_from b ≤ need
      → ((t : Timeline) (us : Route) → ts ≡ t ∷ us → (t.id ≡ b.timeline) ⊎ (need ≡ t.fork))
      → walk site b ts pos floor ≡ ok r
      → Continuous segments step pos ts × FloorBelow site.current r step need ts
  unfolding walk Continuous FloorBelow range_end Gapless
  walk_sound [] pos need floor first late entered h = (tt, tt)
  walk_sound (t ∷ []) pos need floor {r} first late entered h =
      let (range, h1) = guard-eq-ok _ coverage _ h in
      let (le, gapless) =
        range_ok-Gapless fit t.id pos (max pos (site.segments.frontier t.id)) range in
      let e : lower_floor site b t floor ≡ r = ok-injective h1 in
      (
        λ s m at_t n before after some_range.
            gapless n (reach s m at_t n before) after (reach_pos s m at_t some_range),
        λ on n met. rw (← e) (lower_floor-below t need floor late (entered t [] refl) on n met),
      )
    where
      reach :
          (s : Segment)
          → Memᴰ s segments
          → s.timeline ≡ t.id
          → (n : ℕ) → n * step < s.start + step
          → n * step < max pos (site.segments.frontier t.id)
      reach s m at_t n before =
          let f =
            subst (λ (x : ℕ). s.start + step ≤ site.segments.frontier x) at_t (fit.reached s m) in
          omega (arith, f)

      reach_pos :
          (s : Segment)
          → Memᴰ s segments
          → s.timeline ≡ t.id
          → pos < s.start + step
          → pos < max pos (site.segments.frontier t.id)
      reach_pos s m at_t some_range =
          let f =
            subst (λ (x : ℕ). s.start + step ≤ site.segments.frontier x) at_t (fit.reached s m) in
          omega (arith, f)
  walk_sound (t ∷ u ∷ ts) pos need floor {r} first late entered h =
      let (range, h1) = guard-eq-ok _ coverage _ h in
      let (le, gapless) = range_ok-Gapless fit t.id pos u.fork range in
      let (rest, below) =
        walk_sound (u ∷ ts) u.fork u.fork (lower_floor site b t floor) {r = r} (le_trans first le)
          (le_trans first le) (λ v us e. inr (head_fork u v ts us e)) h1 in
      (
        (le, gapless, rest),
        (
          λ on n met.
              le_trans (walk-le site b (u ∷ ts) u.fork (lower_floor site b t floor) {r = r} h1)
                (lower_floor-below t need floor late (entered t (u ∷ ts) refl) on n met),
          below,
        ),
      )

from_own_head :
    (b : Backup) (path : Route) (t : Timeline) (us : Route)
    → from_own b path ≡ t ∷ us
    → t.id ≡ b.timeline
unfolding from_own
from_own_head b [] t us h = cc
from_own_head b (v ∷ path) t us h = elim (Bool-cases (v.id == b.timeline)) [
  | inl own ↦ ground (arith, own)
  | inr other ↦ from_own_head b path t us (rw other at h)
]

visit-le :
    (site : Site) (b : Backup) (path : Route) (floor : ℕ) {r : ℕ}
    → (if reachable b path then walk site b (from_own b path) b.end floor else ok floor) ≡ ok r
    → r ≤ floor
visit-le site b path floor {r} h = elim (Bool-cases (reachable b path)) [
  | inl yes_reach ↦ walk-le site b (from_own b path) b.end floor {r = r} (rw yes_reach at h)
  | inr not_reach ↦ let e : floor ≡ r = ok-injective (rw not_reach at h) in omega (arith, e)
]

cover_paths-le :
    (site : Site) (b : Backup) (paths : List Route) (floor : ℕ) {r : ℕ}
    → cover_paths site b paths floor ≡ ok r
    → r ≤ floor
unfolding cover_paths
cover_paths-le site b [] floor h = omega (arith, ok-injective h)
cover_paths-le site b (path ∷ rest) floor {r} h =
    let (next, e, h1) = >>=-eq-ok _ _ h in
    le_trans (cover_paths-le site b rest next {r = r} h1) (visit-le site b path floor {r = next} e)

cover_kept-le :
    (site : Site) (keep : Keep) (floor : ℕ) {r : ℕ} → cover_kept site keep floor ≡ ok r → r ≤ floor
unfolding cover_kept
cover_kept-le site [] floor h = omega (arith, ok-injective h)
cover_kept-le site ((i, q) ∷ keep) floor {r} h =
    let (next, e, h1) = >>=-eq-ok _ _ h in
    le_trans (cover_kept-le site keep next {r = r} h1)
      (cover_paths-le site (get_backup i site.by_id) site.paths floor {r = next} e)

module _ {segments : List Segment} {step : ℕ} {site : Site} (fit : IsSite segments step site)
    (b : Backup) (ends : b.start < b.end) (path : Route) (reach : reachable b path ≡ true) where
  -- The archive serves `b` along `path`, and `floor` is below what that needs.
  abbrev pub Serves : ℕ → Type 0
  Serves floor =
      Continuous segments step b.end (from_own b path)
      × FloorBelow site.current floor step (needed_from b) (from_own b path)

  cover_paths-Serves :
      (paths : List Route) (floor : ℕ) {r : ℕ}
      → Memᴰ path paths
      → cover_paths site b paths floor ≡ ok r
      → Serves r
  unfolding cover_paths
  cover_paths-Serves [] floor m h = elim m [ ]
  cover_paths-Serves (p ∷ rest) floor {r} (Memᴰ.head same) h =
      let (next, e, h1) = >>=-eq-ok _ _ h in
      let le = cover_paths-le site b rest next {r = r} h1 in
      let taken =
        subst
          (λ (x : Route).
            (if reachable b x then walk site b (from_own b x) b.end floor else ok floor) ≡ ok next)
          (sym same) e in
      let (joined, below) =
        walk_sound fit b (from_own b path) b.end (needed_from b) floor {r = next}
          (needed_first b ends) (omega arith) (λ t us f. inl (from_own_head b path t us f))
          (rw reach at taken) in
      (joined, FloorBelow-mono site.current r next step (needed_from b) (from_own b path) le below)
  cover_paths-Serves (p ∷ rest) floor {r} (Memᴰ.tail m) h =
      let first = if reachable b p then walk site b (from_own b p) b.end floor else ok floor in
      let (next, e, h1) = >>=-eq-ok first (cover_paths site b rest) h in
      cover_paths-Serves rest next {r = r} m h1

  cover_kept-Serves :
      (keep : Keep) (floor : ℕ) {r : ℕ}
      → get_backup b.id site.by_id ≡ b
      → Memᴰ path site.paths
      → is_kept b.id keep ≡ true
      → cover_kept site keep floor ≡ ok r
      → Serves r
  unfolding cover_kept is_kept
  cover_kept-Serves [] floor own m kept h = cc
  cover_kept-Serves ((i, q) ∷ keep) floor {r} own m kept h =
      let (next, e, h1) = >>=-eq-ok _ _ h in
      elim (Bool-cases (text_eq i b.id)) [
        | inl same ↦
            let id = text_eq→eq i b.id same in
            let mine : get_backup i site.by_id ≡ b =
              ap (λ (t : Text). get_backup t site.by_id) id ∙ own in
            let (joined, below) =
              cover_paths-Serves site.paths floor {r = next} m
                (subst (λ (x : Backup). cover_paths site x site.paths floor ≡ ok next) mine e) in
            (
              joined,
              FloorBelow-mono site.current r next step (needed_from b) (from_own b path)
                  (cover_kept-le site keep next {r = r} h1) below,
            )
        | inr other ↦ cover_kept-Serves keep next {r = r} own m (rw other at kept) h1
      ]

step_bounds :
    (inv : Inventory) (cutoff minimum : ℕ)
    → parameters_ok inv cutoff minimum ≡ true
    → (0 < inv.segment_bytes) × (inv.segment_bytes ≤ 2 ^ 30)
unfolding parameters_ok
step_bounds inv cutoff minimum h = ground arith

backup_ok-ends : (m : _) (b : Backup) → backup_ok m b ≡ true → b.start < b.end
unfolding backup_ok
backup_ok-ends m b h = ground arith

apply_hint-le :
    (step current floor : ℕ) (hint : Option Hint) → apply_hint step current floor hint ≤ floor
unfolding apply_hint
apply_hint-le step current floor none = omega arith
apply_hint-le step current floor (some hint) = ground arith

module _ (inv : Inventory) (cutoff minimum : ℕ) (hint : Option Hint) {d : Decision}
    (planned : plan inv cutoff minimum hint ≡ ok d) where
  abbrev facts : Trace inv cutoff minimum hint d
  facts = trace inv cutoff minimum hint planned

  abbrev site : Site
  site = site_of inv cutoff minimum facts.by_id facts.segments facts.current

  site-IsSite : IsSite inv.segments inv.segment_bytes site
  site-IsSite =
      let ix =
        index_segments-IsIndexed facts.paths inv.segment_bytes inv.segments [] no_segments
          (record { seen = refl; bounded = λ s m. elim m [ ]; reached = λ s m. elim m [ ] })
          facts.archived in
      let (positive, small) = step_bounds inv cutoff minimum facts.parameters in
      record {
        seen = ix.seen;
        same_step = refl;
        positive = positive;
        small = small;
        bounded = ix.bounded;
        reached = ix.reached;
      }

  plan-Serves :
      (b : Backup) (path : Route)
      → Memᴰ b inv.backups
      → Memᴰ path inv.paths
      → reachable b path ≡ true
      → is_kept b.id d.keep ≡ true
      → Continuous inv.segments inv.segment_bytes b.end (from_own b path)
        × FloorBelow d.current d.wal_floor inv.segment_bytes (needed_from b) (from_own b path)
  plan-Serves b path m at_path reach kept =
      let (same, keyed) = by_id-IsKeyed inv cutoff minimum hint planned in
      let fits = index_backups-ok facts.paths inv.backups [] facts.backups m in
      let own =
        get_backup-mem facts.by_id b keyed (subst (λ (l : List Backup). Memᴰ b l) (sym same) m) in
      let (joined, below) =
        cover_kept-Serves site-IsSite b (backup_ok-ends facts.paths b fits) path reach
          (final_keep inv cutoff minimum facts.by_id) u64_max own at_path (rw facts.keep at kept)
          facts.covered in
      let low : d.wal_floor ≤ facts.floor =
        rw facts.wal_floor (apply_hint-le inv.segment_bytes facts.current facts.floor hint) in
      (
        joined,
        rw facts.on (
            FloorBelow-mono facts.current d.wal_floor facts.floor inv.segment_bytes (needed_from b)
              (from_own b path) low below),
      )

  -- When `plan` succeeds, behind every known backup that is kept, along every known path that can use
  -- it, the archive has no gap: all segments are live that meet the positions from its end up to each
  -- later fork of the path and, on the last timeline, up to the end of any archived segment.
  pub plan-Continuous :
      (b : Backup) (path : Route)
      → Memᴰ b inv.backups
      → Memᴰ path inv.paths
      → reachable b path ≡ true
      → is_kept b.id d.keep ≡ true
      → Continuous inv.segments inv.segment_bytes b.end (from_own b path)
  plan-Continuous b path m at_path reach kept = (plan-Serves b path m at_path reach kept).0

  -- When `plan` succeeds, the floor is not above the start of any segment of the current timeline that
  -- a known kept backup needs along a known path that can use it: one that reaches behind its start or
  -- its redo position if the backup is on that timeline, and behind the fork at which the path enters
  -- the timeline if it is on an older one.
  pub plan-FloorBelow :
      (b : Backup) (path : Route)
      → Memᴰ b inv.backups
      → Memᴰ path inv.paths
      → reachable b path ≡ true
      → is_kept b.id d.keep ≡ true
      → FloorBelow d.current d.wal_floor inv.segment_bytes (needed_from b) (from_own b path)
  plan-FloorBelow b path m at_path reach kept = (plan-Serves b path m at_path reach kept).1
