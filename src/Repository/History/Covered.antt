-- ===== src/Repository/History/Covered.antt =====
-- internal/repository/recovery.go: the archive that `Resolve` requires, and that it is there.
use native.Mathlib.Nat.{add-mul, suc-mul, le-div_iff_mul-le, div-lt_iff_lt-mul}
use cnpg_backup.Prelude.{
  lt→ltb, then_true, then_false, ℕ, zero, suc, ◌+◌, ◌-◌, ◌*◌, ◌/◌, ◌^◌, ◌≤◌, ◌<◌, true, false, ◌&&◌,
  ◌≡◌, refl, ap, sym, ◌⊎◌, Memᴰ, All, leb→le, ==→eq, ok-injective, ◌∙◌, subst, inl, inr, List, [],
  ◌∷◌, none, some, ltb, leb, ltb→lt, ◌==◌, max, arith, Result, ok, Error, guard, ◌>>=◌, ◌>>◌,
  >>=-eq-ok, guard-eq-ok, Bool-cases, and_right,
}
use cnpg_backup.Repository.Names.Lsn.{lsn_or_zero, format_lsn}
use cnpg_backup.Repository.Schema.Records.{WalRange}
use cnpg_backup.Repository.Recovery.Target.{Timeline}
use cnpg_backup.Repository.History.Inventory.{has_segment}

abbrev pub max_catalog_records : ℕ
max_catalog_records = 1000000

-- The segments of a timeline, and the segment size.
pub record Archive : Type 0 where
  pub step : ℕ
  pub segments : List (ℕ × ℕ)

-- The end of the last segment of a timeline, at `low` or behind it.
unfoldable pub archive_end : ℕ → ℕ → List (ℕ × ℕ) → ℕ → Result ℕ
archive_end step t [] low = ok low
archive_end step t (s ∷ rest) low = elim (s.0 == t) [
  | false ↦ archive_end step t rest low
  | true ↦
      guard (leb (s.1 + step) (2 ^ 64 - 1)) Error.capacity
      >> archive_end step t rest (max low (s.1 + step))
]

-- The loop over the segments of a range, by the rounds that are left.
unfoldable pub walk_segments : Archive → (t rounds count start : ℕ) → Result (Unit {0})
unfolding has_segment
walk_segments site t zero count start = ok tt
walk_segments site t (suc rounds) count start = do
  guard (leb (count + 1) max_catalog_records && has_segment t start site.segments) Error.blocked
  guard (leb (start + site.step) (2 ^ 64 - 1)) Error.capacity
  walk_segments site t rounds (count + 1) (start + site.step)

-- The multiples of the step from the one at or below `pos` up to `frontier`.
abbrev pub rounds_between : (step pos frontier : ℕ) → ℕ
rounds_between step pos frontier = (frontier - pos / step * step + (step - 1)) / step

abbrev pub fork_position : Timeline → ℕ
fork_position t = elim t.fork_lsn [ none ↦ 0 | some s ↦ lsn_or_zero s ]

-- Where a timeline's part of the archive ends: at the fork of the next, or with its last segment.
unfoldable pub frontier_of : Archive → Timeline → List Timeline → ℕ → Result ℕ
unfolding archive_end lsn_or_zero
frontier_of site t [] pos = archive_end site.step t.id site.segments pos
frontier_of site t (u ∷ rest) pos = ok (fork_position u)

-- The loop over the path, from the selected backup's timeline on.
unfoldable pub require_path : Archive → (own : ℕ) → List Timeline → ℕ → Result (List WalRange)
unfolding frontier_of walk_segments format_lsn
require_path site own [] pos = ok []
require_path site own (t ∷ rest) pos = elim (ltb t.id own) [
  | true ↦ require_path site own rest pos
  | false ↦ frontier_of site t rest pos >>= λ frontier. elim (ltb pos frontier) [
    | false ↦ require_path site own rest frontier
    | true ↦
        walk_segments site t.id (rounds_between site.step pos frontier) 0
          (pos / site.step * site.step)
        >> (require_path site own rest frontier >>= λ ranges. ok (
            record { timeline = t.id; start_lsn = format_lsn pos; end_lsn = format_lsn frontier }
            ∷ ranges))
  ]
]

-- A walk that ends without an error has met every segment.
walked :
    (site : Archive) (t rounds count start k : ℕ)
    → walk_segments site t rounds count start ≡ ok tt
    → k < rounds
    → has_segment t (start + k * site.step) site.segments ≡ true
unfolding walk_segments
walked site t zero count start k h p = absurd (omega arith)
walked site t (suc rounds) count start zero h p =
    let (a, h) =
      guard-eq-ok (leb (count + 1) max_catalog_records && has_segment t start site.segments)
        Error.blocked _ h in
    let e : start + 0 * site.step ≡ start = omega arith in
    rw e (and_right (leb (count + 1) max_catalog_records) (has_segment t start site.segments) a)
walked site t (suc rounds) count start (suc k) h p =
    let (a, h) =
      guard-eq-ok (leb (count + 1) max_catalog_records && has_segment t start site.segments)
        Error.blocked _ h in
    let (b, h) = guard-eq-ok (leb (start + site.step) (2 ^ 64 - 1)) Error.capacity _ h in
    let ih = walked site t rounds (count + 1) (start + site.step) k h (omega arith) in
    let e : start + site.step + k * site.step ≡ start + suc k * site.step =
      omega (arith, suc-mul k site.step) in
    subst (λ n. has_segment t n site.segments ≡ true) e ih

shift : (q n step : ℕ) → q ≤ n → q * step + (n - q) * step ≡ n * step
shift q n step h =
    let e : q + (n - q) ≡ n = omega arith in sym (add-mul q (n - q) step) ∙ ap (λ m. m * step) e

-- Where the segment `n` lies among the rounds of a range that it meets.
round_of :
    (step pos frontier n : ℕ)
    → 0 < step
    → pos < (n + 1) * step
    → n * step < frontier
    → (k : ℕ) × (k < rounds_between step pos frontier) × (pos / step * step + k * step ≡ n * step)
round_of step pos frontier n positive h p =
    let q = pos / step in
    let low : q < n + 1 = (div-lt_iff_lt-mul positive).1 h in
    let e : q * step + (n - q) * step ≡ n * step = shift q n step (omega arith) in
    let one : suc (n - q) * step ≡ (n - q) * step + step = suc-mul (n - q) step in
    (n - q, (le-div_iff_mul-le positive).1 (omega (arith, e, one)), e)

-- Every segment that meets the positions from `pos` up to `frontier` is there, if there are any.
pub IsThere : Archive → (t pos frontier : ℕ) → Type 0
IsThere site t pos frontier =
    (n : ℕ)
    → pos < frontier
    → pos < (n + 1) * site.step
    → n * site.step < frontier
    → has_segment t (n * site.step) site.segments ≡ true

-- The end of the segments of a timeline: none of them ends behind it, and it is the end of one or, if
-- none ends behind `low`, `low` itself.
pub record IsEnd (step t : ℕ) (segments : List (ℕ × ℕ)) (low f : ℕ) : Type 0 where
  pub above : low ≤ f
  pub holds_all : All (λ s. s.0 ≡ t → s.1 + step ≤ f) segments
  pub attained : (f ≡ low) ⊎ ((s : ℕ × ℕ) × Memᴰ s segments × (s.0 ≡ t) × (s.1 + step ≡ f))

attained_tail :
    (step t : ℕ) (s : ℕ × ℕ) (rest : List (ℕ × ℕ)) (low f : ℕ)
    → s.0 ≡ t
    → (f ≡ max low (s.1 + step)) ⊎ ((u : ℕ × ℕ) × Memᴰ u rest × (u.0 ≡ t) × (u.1 + step ≡ f))
    → (f ≡ low) ⊎ ((u : ℕ × ℕ) × Memᴰ u (s ∷ rest) × (u.0 ≡ t) × (u.1 + step ≡ f))
attained_tail step t s rest low f own (inr (u, m, p, q)) = inr (u, Memᴰ.tail m, p, q)
attained_tail step t s rest low f own (inl e) = elim (Bool-cases (leb (s.1 + step) low)) [
  | inl h ↦ let le = leb→le (s.1 + step) low h in inl (omega (arith, e, le))
  | inr h ↦ inr (s, Memᴰ.head refl, own, ground (arith, e))
]

archive_end-IsEnd :
    (step t : ℕ) (segments : List (ℕ × ℕ)) (low : ℕ) {f : ℕ}
    → archive_end step t segments low ≡ ok f
    → IsEnd step t segments low f
unfolding archive_end
archive_end-IsEnd step t [] low h =
    let e : low ≡ _ = ok-injective h in
    record { above = omega (arith, e); holds_all = tt; attained = inl (sym e) }
archive_end-IsEnd step t (s ∷ rest) low {f} h =
    let more = archive_end step t rest (max low (s.1 + step)) in
    let taken = guard (leb (s.1 + step) (2 ^ 64 - 1)) Error.capacity >> more in
    elim (Bool-cases (s.0 == t)) [
      | inl e ↦
          let (a, g) =
            guard-eq-ok (leb (s.1 + step) (2 ^ 64 - 1)) Error.capacity _
              (then_true (s.0 == t) taken (archive_end step t rest low) e h) in
          let ih = archive_end-IsEnd step t rest (max low (s.1 + step)) {f = f} g in
          record {
            above = omega (arith, ih.above);
            holds_all = (λ own. omega (arith, ih.above), ih.holds_all);
            attained = attained_tail step t s rest low f (==→eq s.0 t e) ih.attained;
          }
      | inr e ↦
          let ih =
            archive_end-IsEnd step t rest low {f = f}
              (then_false (s.0 == t) taken (archive_end step t rest low) e h) in
          record {
            above = ih.above;
            holds_all = (λ own. absurd (apart s.0 t e own), ih.holds_all);
            attained = elim ih.attained [
              | inl q ↦ inl q
              | inr (u, m, p, q) ↦ inr (u, Memᴰ.tail m, p, q)
            ];
          }
    ]
  where
    apart : (a b : ℕ) → (a == b) ≡ false → a ≡ b → ⊥
    apart a b p q = ground arith

-- Where the part of a path on a timeline ends: where the next timeline forks off, or else with the last
-- of the timeline's segments in the archive.
pub IsFrontier : Archive → Timeline → List Timeline → (pos frontier : ℕ) → Type 0
IsFrontier site t [] pos frontier = IsEnd site.step t.id site.segments pos frontier
IsFrontier site t (u ∷ rest) pos frontier = frontier ≡ fork_position u

frontier_of-IsFrontier :
    (site : Archive) (t : Timeline) (rest : List Timeline) (pos : ℕ) {f : ℕ}
    → frontier_of site t rest pos ≡ ok f
    → IsFrontier site t rest pos f
unfolding frontier_of IsFrontier
frontier_of-IsFrontier site t [] pos h = archive_end-IsEnd site.step t.id site.segments pos h
frontier_of-IsFrontier site t (u ∷ rest) pos h = sym (ok-injective h)

-- The archive is whole along a path from `pos` on: on each timeline from `own` on, up to where the next
-- forks off or the archive ends.
pub data IsCovered (site : Archive) (own : ℕ) : List Timeline → ℕ → Type 0 where
  at_end : (pos : ℕ) → IsCovered site own [] pos
  before_own :
      (t : Timeline) (rest : List Timeline) (pos : ℕ)
      → t.id < own
      → IsCovered site own rest pos
      → IsCovered site own (t ∷ rest) pos
  covered :
      (t : Timeline) (rest : List Timeline) (pos frontier : ℕ)
      → IsFrontier site t rest pos frontier
      → IsThere site t.id pos frontier
      → IsCovered site own rest frontier
      → IsCovered site own (t ∷ rest) pos

abbrev required :
    Archive → ℕ → Timeline → List Timeline → (pos frontier : ℕ) → Result (List WalRange)
required site own t rest pos frontier = require_path site own rest frontier >>= λ ranges.
    ok (
      record { timeline = t.id; start_lsn = format_lsn pos; end_lsn = format_lsn frontier }
      ∷ ranges)

abbrev further :
    Archive → ℕ → Timeline → List Timeline → (pos frontier : ℕ) → Result (List WalRange)
further site own t rest pos frontier = elim (ltb pos frontier) [
  | false ↦ require_path site own rest frontier
  | true ↦
      walk_segments site t.id (rounds_between site.step pos frontier) 0
        (pos / site.step * site.step)
      >> required site own t rest pos frontier
]

walk-IsThere :
    (site : Archive) (t pos frontier : ℕ)
    → 0 < site.step
    → walk_segments site t (rounds_between site.step pos frontier) 0 (pos / site.step * site.step)
      ≡ ok tt
    → IsThere site t pos frontier
unfolding IsThere
walk-IsThere site t pos frontier positive h = λ n p q r.
    let (k, inside, e) = round_of site.step pos frontier n positive q r in
    subst (λ m. has_segment t m site.segments ≡ true) e
      (walked site t (rounds_between site.step pos frontier) 0 (pos / site.step * site.step) k h
        inside)

not_below : {C : Type 0} (pos f : ℕ) → ltb pos f ≡ false → pos < f → C
not_below pos f h p = let e = lt→ltb pos f p in absurd cc

-- If the loop of `Resolve` over the path fixes ranges, every segment that meets the way along the path
-- is in the archive's inventory: on each timeline from the backup's own on, up to where the next forks
-- off, and on the last up to the end of its last segment there.
pub require_path-IsCovered :
    (site : Archive) (own : ℕ) (path : List Timeline) (pos : ℕ) (ranges : List WalRange)
    → 0 < site.step
    → require_path site own path pos ≡ ok ranges
    → IsCovered site own path pos
unfolding require_path IsThere
require_path-IsCovered site own [] pos ranges positive h = at_end pos
require_path-IsCovered site own (t ∷ rest) pos ranges positive h =
    let skipped = require_path site own rest pos in
    let after : ℕ → Result (List WalRange) = λ f. further site own t rest pos f in
    let taken = frontier_of site t rest pos >>= after in
    elim (Bool-cases (ltb t.id own)) [
      | inl e ↦ before_own t rest pos (ltb→lt t.id own e) (
          require_path-IsCovered site own rest pos ranges positive
            (then_true (ltb t.id own) skipped taken e h))
      | inr e ↦
          let (f, a, b) =
            >>=-eq-ok (frontier_of site t rest pos) after
              (then_false (ltb t.id own) skipped taken e h) in
          let walk =
            walk_segments site t.id (rounds_between site.step pos f) 0
              (pos / site.step * site.step) in
          elim (Bool-cases (ltb pos f)) [
            | inl c ↦
                let (u, d, g) =
                  >>=-eq-ok walk (λ u. required site own t rest pos f)
                    (then_true (ltb pos f) (walk >> required site own t rest pos f)
                      (require_path site own rest f) c b) in
                let (more, i, j) = >>=-eq-ok (require_path site own rest f) _ g in
                covered t rest pos f (frontier_of-IsFrontier site t rest pos {f = f} a)
                  (walk-IsThere site t.id pos f positive d)
                  (require_path-IsCovered site own rest f more positive i)
            | inr c ↦
                covered t rest pos f (frontier_of-IsFrontier site t rest pos {f = f} a)
                  (λ n p q r. not_below pos f c p)
                  (require_path-IsCovered site own rest f ranges positive (
                    then_false (ltb pos f) (walk >> required site own t rest pos f)
                      (require_path site own rest f) c b))
          ]
    ]
