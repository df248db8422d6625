-- ===== src/Retention/Planner/Continuity.antt =====
-- The archived segments of an inventory, and what it means that they cover a path without a gap.
-- This describes the obligation of planner.go without its loops.
use mathlib.Core.List.Memᴰ.{append_cases, eq_of_singleton}
use mathlib.Core.List.{append_assoc, append-nil}
use cnpg_backup.Prelude.{
  ℕ, zero, suc, ◌+◌, ◌-◌, ◌*◌, ◌/◌, ◌^◌, ◌≤◌, ◌<◌, true, ◌≡◌, ap, ◌∙◌, subst, inl, inr, List, [],
  ◌∷◌, ◌++◌, Memᴰ, ok, coverage, guard-eq-ok, reject-eq-ok, arith, find, find-eq-some, Option-cases,
  and_left, and_right,
}
use native.Mathlib.Nat.{le-div_iff_mul-le, div-lt_iff_lt-mul}
use cnpg_backup.Retention.Planner.Facts.{Segment}
use cnpg_backup.Retention.Planner.Paths.{Route, PathMap}
use cnpg_backup.Retention.Planner.Cover.{
  Segments, u64_max, u64, is_at, find_segment, is_live, segment_ok, raise_frontier, index_segments,
  Site, all_live, rounds_to, range_ok,
}

module _ (segments : List Segment) (step : ℕ) where
  -- A live segment of timeline `t` starts at `start`.
  unfoldable pub Present : (t start : ℕ) → Type 0
  Present t start =
      (s : Segment) × Memᴰ s segments × (s.timeline ≡ t) × (s.start ≡ start) × (s.live ≡ true)

  -- Every segment of timeline `t` that meets the positions from `pos` up to `end` is there.
  unfoldable pub Gapless : (t pos end : ℕ) → Type 0
  Gapless t pos end =
      (n : ℕ) → n * step < end → pos < n * step + step → pos < end → Present t (n * step)

  -- From `pos` on, along a path: up to each fork, and on the last timeline up to every segment.
  unfoldable pub Continuous : ℕ → Route → Type 0
  Continuous pos [] = Unit
  Continuous pos (t ∷ []) =
      (s : Segment) → Memᴰ s segments → s.timeline ≡ t.id → Gapless t.id pos (s.start + step)
  Continuous pos (t ∷ u ∷ ts) =
      (pos ≤ u.fork) × Gapless t.id pos u.fork × Continuous u.fork (u ∷ ts)

  -- What `index_segments` establishes of the maps that the loops read.
  pub record IsSite (site : Site) : Type 0 where
    pub seen : site.segments.seen ≡ segments
    pub same_step : site.step ≡ step
    pub positive : 0 < step
    pub small : step ≤ 2 ^ 30
    pub bounded : (s : Segment) → Memᴰ s segments → s.start ≤ u64_max - step
    pub reached :
        (s : Segment) → Memᴰ s segments → s.start + step ≤ site.segments.frontier s.timeline

  is_live-Present : (t start : ℕ) → is_live segments t start ≡ true → Present t start
  unfolding is_live find_segment Present
  is_live-Present t start h = elim (Option-cases (find (is_at t start) segments)) [
    | inl absent ↦ cc (rw (absent, is_live) at h)
    | inr (s, found) ↦
        let (m, at_s) = find-eq-some (is_at t start) segments found in
        (s, m, ground arith, ground arith, rw (found, is_live) at h)
  ]

-- The maps after the loop over the segments.
pub record IsIndexed (step : ℕ) (segments : List Segment) (ix : Segments) : Type 0 where
  pub seen : ix.seen ≡ segments
  pub bounded : (s : Segment) → Memᴰ s segments → s.start ≤ u64_max - step
  pub reached : (s : Segment) → Memᴰ s segments → s.start + step ≤ ix.frontier s.timeline

segment_bounded :
    (m : PathMap) (step : ℕ) (s : Segment) → segment_ok m step s ≡ true → s.start ≤ u64_max - step
unfolding segment_ok
segment_bounded m step s h = ground arith

raise_old : (step : ℕ) (s : Segment) (f : ℕ → ℕ) (t : ℕ) → f t ≤ raise_frontier step s f t
unfolding raise_frontier
raise_old step s f t = ground arith

raise_self :
    (step : ℕ) (s : Segment) (f : ℕ → ℕ) → s.start + step ≤ raise_frontier step s f s.timeline
unfolding raise_frontier
raise_self step s f = ground arith

pub index_segments-IsIndexed :
    (m : PathMap) (step : ℕ) (ss old : List Segment) (ix : Segments) {r : Segments}
    → IsIndexed step old ix
    → index_segments m step ss ix ≡ ok r
    → IsIndexed step (old ++ ss) r
unfolding index_segments
index_segments-IsIndexed m step [] old ix {r} inv h =
    let e : ix ≡ r = cc in
    rw (append-nil old) (subst (λ (x : Segments). IsIndexed step old x) e inv)
index_segments-IsIndexed m step (s ∷ ss) old ix {r} inv h =
    let (fits, h1) = guard-eq-ok _ coverage _ h in
    let (fresh, h2) = reject-eq-ok _ coverage _ h1 in
    let next : Segments = record {
      seen = ix.seen ++ s ∷ [];
      frontier = raise_frontier step s ix.frontier;
    } in
    let grown : IsIndexed step (old ++ s ∷ []) next = record {
      seen = rw inv.seen;
      bounded = λ x at_x. elim (append_cases old at_x) [
        | inl o ↦ inv.bounded x o
        | inr n ↦ rw (eq_of_singleton n) (segment_bounded m step s fits)
      ];
      reached = λ x at_x. elim (append_cases old at_x) [
        | inl o ↦ omega (arith, inv.reached x o, raise_old step s ix.frontier x.timeline)
        | inr n ↦ rw (eq_of_singleton n) (raise_self step s ix.frontier)
      ];
    } in
    subst (λ (l : List Segment). IsIndexed step l r) (append_assoc old (s ∷ []) ss)
      (index_segments-IsIndexed m step ss (old ++ s ∷ []) next grown h2)

module _ {segments : List Segment} {step : ℕ} {site : Site} (fit : IsSite segments step site) where
  live-Present :
      (t start : ℕ) → is_live site.segments.seen t start ≡ true → Present segments step t start
  live-Present t start h = is_live-Present segments step t start (rw fit.seen at h)

  -- No position wraps round: a live segment ends within 64 bits.
  live_step :
      (t start : ℕ)
      → is_live site.segments.seen t start ≡ true
      → u64 (start + site.step) ≡ start + step
  unfolding Present
  live_step t start h =
      let (s, m, at_t, at_start, live) = live-Present t start h in
      omega (arith, fit.bounded s m, fit.same_step, fit.small)

  all_live-Present :
      (t rounds start k : ℕ)
      → all_live site t rounds start ≡ true
      → k < rounds
      → Present segments step t (start + k * step)
  unfolding all_live
  all_live-Present t zero start k h lt = absurd (omega arith)
  all_live-Present t (suc rounds) start zero h lt =
      let e : start + 0 * step ≡ start = omega arith in rw e (live-Present t start (and_left _ _ h))
  all_live-Present t (suc rounds) start (suc k) h lt =
      let e : start + suc k * step ≡ (start + step) + k * step = omega arith in
      let here = live_step t start (and_left _ _ h) in
      let rest : all_live site t rounds (u64 (start + site.step)) ≡ true = and_right _ _ h in
      rw e (all_live-Present t rounds (start + step) k (rw here at rest) (omega arith))

  round_inside :
      (n pos end : ℕ)
      → n * step < end
      → pos < n * step + step
      → (k : ℕ) × (k < rounds_to step pos end) × (n * step ≡ pos / step * step + k * step)
  round_inside n pos end before after =
      let q = pos / step in
      let low : q < n + 1 = (div-lt_iff_lt-mul fit.positive).1 (omega arith) in
      let e : n * step ≡ (n - q) * step + q * step =
        let k : n ≡ (n - q) + q = omega arith in ap (λ x. x * step) k ∙ omega arith in
      (n - q, (le-div_iff_mul-le fit.positive).1 (omega (arith, e)), omega (arith, e))

  pub range_ok-Gapless :
      (t pos end : ℕ)
      → range_ok site t pos end ≡ true
      → (pos ≤ end) × Gapless segments step t pos end
  unfolding range_ok Gapless
  range_ok-Gapless t pos end h = (
    ground arith,
    λ n before after some_range.
        let (k, inside, e) = round_inside n pos end before after in
        let live : all_live site t (rounds_to site.step pos end) (pos / site.step * site.step)
            ≡ true =
          ground arith in
        rw e (
          all_live-Present t (rounds_to step pos end) (pos / step * step) k
            (subst (λ (x : ℕ). all_live site t (rounds_to x pos end) (pos / x * x) ≡ true)
              fit.same_step live)
            inside),
  )
