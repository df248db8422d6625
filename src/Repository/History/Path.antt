-- ===== src/Repository/History/Path.antt =====
-- internal/repository/recovery.go: the path that a history file yields.
use native.Mathlib.Nat.{pow-suc}
use cnpg_backup.Prelude.{
  ℕ, zero, suc, ◌+◌, ◌-◌, ◌*◌, ◌^◌, ◌≤◌, ◌<◌, Bool, true, false, not, ◌&&◌, ◌||◌, ◌≡◌, refl, ◌⊎◌,
  subst, inl, inr, List, [], ◌∷◌, none, some, Text, ltb, leb, leb→le, ==→eq, ltb→lt, lt→ltb, le→leb,
  then_true, then_false, ◌==◌, if◌then◌else◌, length, all, arith, Result, ok, err, Error, ◌>>=◌,
  >>=-eq-ok, guard-eq-ok, ok-injective, Bool-cases, and_left, and_right,
}
use cnpg_backup.Repository.Names.Hex.{is_upper_hex, is_digit, digit_value, parse_digits, parse_hex}
use cnpg_backup.Repository.Names.Lsn.{
  parse_lsn, lsn_ok, lsn_part_ok, before_slash, after_slash, format_lsn, parse_lsn-format_lsn,
}
use cnpg_backup.Repository.Recovery.Target.{Timeline}
use cnpg_backup.Repository.Recovery.Path.{later_timelines_ok, path_timelines_ok, last_timeline}
use cnpg_backup.Repository.History.{
  Strings, parse_entry, parse_uint32, is_comment, fork_of, history_lines, parse_history,
  split_lines,
}

digit_bound : (c : ℕ) → is_upper_hex c ≡ true → digit_value c < 16
unfolding is_upper_hex is_digit digit_value
digit_bound c h = ground arith

-- The value of some digits behind a value below `16 ^ k`.
digits_bound :
    (k n : ℕ) (s : Text)
    → n < 16 ^ k
    → all is_upper_hex s ≡ true
    → parse_digits 16 n s < 16 ^ (k + length s)
unfolding parse_digits all
digits_bound k n [] h u = subst (λ m. n < 16 ^ m) (omega arith) h
digits_bound k n (c ∷ s) h u =
    let d = digit_bound c (and_left (is_upper_hex c) (all is_upper_hex s) u) in
    let more =
      digits_bound (suc k) (n * 16 + digit_value c) s (omega (arith, pow-suc 16 k))
        (and_right (is_upper_hex c) (all is_upper_hex s) u) in
    subst (λ m. parse_digits 16 (n * 16 + digit_value c) s < 16 ^ m) (omega arith) more

pow_grows : (k d : ℕ) → 16 ^ k ≤ 16 ^ (k + d)
pow_grows k zero = let e : k + 0 ≡ k = omega arith in rw e (omega arith)
pow_grows k (suc d) =
    let e : k + suc d ≡ suc (k + d) = omega arith in
    rw e (omega (arith, pow_grows k d, pow-suc 16 (k + d)))

digits_within : (s : Text) → all is_upper_hex s ≡ true → length s ≤ 8 → parse_hex s < 2 ^ 32
digits_within s u h =
    let first : parse_hex s < 16 ^ (0 + length s) = digits_bound 0 0 s (omega arith) u in
    let grown = pow_grows (0 + length s) (8 - length s) in
    let e : 0 + length s + (8 - length s) ≡ 8 = omega arith in
    let bound : 16 ^ (0 + length s) ≤ 16 ^ 8 = subst (λ m. 16 ^ (0 + length s) ≤ 16 ^ m) e grown in
    omega arith

part_bound : (s : Text) → lsn_part_ok s ≡ true → parse_hex s < 2 ^ 32
unfolding lsn_part_ok all
part_bound [] h = absurd cc
part_bound (c ∷ s) h =
    let front =
      and_left (is_upper_hex c && all is_upper_hex s && leb (length s) 7)
        (not (c == b'0') || length s == 0) h in
    let short : length s ≤ 7 =
      leb→le (length s) 7
        (and_right (is_upper_hex c && all is_upper_hex s) (leb (length s) 7) front) in
    digits_within (c ∷ s) (and_left (is_upper_hex c && all is_upper_hex s) (leb (length s) 7) front)
      (omega arith)

value : (t : Bool) {m n : ℕ} → t ≡ true → (if t then ok m else err Error.invalid) ≡ ok n → m ≡ n
value true p h = ok-injective h
value false p h = absurd cc

refused :
    (t : Bool) (m : ℕ) {C : Type 0} {n : ℕ}
    → t ≡ false
    → (if t then ok m else err Error.invalid) ≡ ok n
    → C
refused true m p h = absurd cc
refused false m p h = absurd cc

parse_lsn-bounded : (s : Text) {n : ℕ} → parse_lsn s ≡ ok n → n < 2 ^ 64
unfolding parse_lsn lsn_ok
parse_lsn-bounded s {n = n} h = elim (Bool-cases (lsn_ok s)) [
  | inl p ↦
      let hi =
        part_bound (before_slash s)
          (and_left (lsn_part_ok (before_slash s)) (lsn_part_ok (after_slash s)) p) in
      let lo =
        part_bound (after_slash s)
          (and_right (lsn_part_ok (before_slash s)) (lsn_part_ok (after_slash s)) p) in
      let same : parse_hex (before_slash s) * 2 ^ 32 + parse_hex (after_slash s) ≡ n =
        value (lsn_ok s) p h in
      subst (λ m. m < 2 ^ 64) same (omega arith)
  | inr p ↦ refused (lsn_ok s) (parse_hex (before_slash s) * 2 ^ 32 + parse_hex (after_slash s)) p h
]

-- What a line of the file has passed.
record IsEntry (timeline count previous last : ℕ) (v : ℕ × ℕ) : Type 0 where
  later : previous < v.0
  earlier : v.0 < timeline
  forward : (count ≡ 0) ⊎ (last ≤ v.1)
  short : v.1 < 2 ^ 64
  room : count < 1023

or_right : (a b : Bool) → a ≡ false → (a || b) ≡ true → b ≡ true
or_right true b p h = absurd cc
or_right false b p h = h

stripped :
    (r : Result ℕ) {n : ℕ} → (elim r [ err e ↦ err Error.corrupt | ok n ↦ ok n ]) ≡ ok n → r ≡ ok n
stripped (err e) h = absurd cc
stripped (ok n) h = h

entry :
    (timeline count previous last n e : ℕ)
    → (not (n == 0) && ltb previous n && ltb n timeline && (count == 0 || leb last e)) ≡ true
    → e < 2 ^ 64
    → count < 1023
    → IsEntry timeline count previous last (n, e)
entry timeline count previous last n e g short room =
    let front =
      and_left (not (n == 0) && ltb previous n && ltb n timeline) (count == 0 || leb last e) g in
    record {
      later = ltb→lt previous n (
          and_right (not (n == 0)) (ltb previous n)
            (and_left (not (n == 0) && ltb previous n) (ltb n timeline) front));
      earlier =
          ltb→lt n timeline (and_right (not (n == 0) && ltb previous n) (ltb n timeline) front);
      forward = elim (Bool-cases (count == 0)) [
        | inl p ↦ inl (==→eq count 0 p)
        | inr p ↦ inr (
            leb→le last e (
              or_right (count == 0) (leb last e) p (
                and_right (not (n == 0) && ltb previous n && ltb n timeline)
                  (count == 0 || leb last e) g)))
      ];
      short = short;
      room = room;
    }

parse_entry-IsEntry :
    (timeline count previous last : ℕ) (words : List Text) (v : ℕ × ℕ)
    → parse_entry timeline count previous last words ≡ ok v
    → IsEntry timeline count previous last v
unfolding parse_entry
parse_entry-IsEntry timeline count previous last [] v h = absurd cc
parse_entry-IsEntry timeline count previous last (a ∷ []) v h = absurd cc
parse_entry-IsEntry timeline count previous last (a ∷ b ∷ []) v h = absurd cc
parse_entry-IsEntry timeline count previous last (a ∷ b ∷ c ∷ words) v h =
    let (room, h) = guard-eq-ok (ltb count 1023) Error.corrupt _ h in
    let (n, p, h) =
      >>=-eq-ok (elim (parse_uint32 a) [ none ↦ err Error.corrupt | some n ↦ ok n ]) _ h in
    let (e, q, h) =
      >>=-eq-ok (elim (parse_lsn b) [ err e ↦ err Error.corrupt | ok n ↦ ok n ]) _ h in
    let (g, h) =
      guard-eq-ok (not (n == 0) && ltb previous n && ltb n timeline && (count == 0 || leb last e))
        Error.corrupt _ h in
    let same : (n, e) ≡ v = ok-injective h in
    let short = parse_lsn-bounded b (stripped (parse_lsn b) q) in
    subst (IsEntry timeline count previous last) same
      (entry timeline count previous last n e g short (ltb→lt count 1023 room))

timeline_ok :
    (previous low n last : ℕ) (path : List Timeline)
    → previous < n
    → last < 2 ^ 64
    → low ≤ last
    → later_timelines_ok n last path ≡ true
    → later_timelines_ok previous low (record { id = n; fork_lsn = some (format_lsn last) } ∷ path)
      ≡ true
unfolding later_timelines_ok
timeline_ok previous low n last path p q r h =
    rw (lt→ltb previous n p) (rw (parse_lsn-format_lsn last q) (rw (le→leb low last r, h) refl))

-- What a path has behind an entry: timelines that rise to the file's, and forks that do not fall.
record IsTail (timeline previous low room : ℕ) (path : List Timeline) : Type 0 where
  rising : later_timelines_ok previous low path ≡ true
  last : last_timeline path ≡ timeline
  bounded : length path ≤ room

forward_lem : (count last e : ℕ) → (count + 1 ≡ 0) ⊎ (last ≤ e) → last ≤ e
forward_lem count last e (inl p) = absurd (omega arith)
forward_lem count last e (inr p) = p

fork_lem : (count last : ℕ) → fork_of (count + 1) last ≡ some (format_lsn last)
unfolding fork_of
fork_lem count last = let e : (count + 1 == 0) ≡ false = ground arith in rw e refl

last_cons :
    (t : Timeline) (path : List Timeline) (timeline : ℕ)
    → last_timeline path ≡ timeline
    → 0 < timeline
    → last_timeline (t ∷ path) ≡ timeline
unfolding last_timeline
last_cons t [] timeline h p = absurd (omega arith)
last_cons t (u ∷ path) timeline h p = h

first_ok :
    (n : ℕ) (path : List Timeline)
    → 0 < n
    → later_timelines_ok n 0 path ≡ true
    → path_timelines_ok (record { id = n; fork_lsn = none } ∷ path) ≡ true
unfolding path_timelines_ok
first_ok n path p h = let e : (n == 0) ≡ false = ground arith in rw (e, h) refl

-- A path that a recovery plan accepts.
pub record IsPath (timeline : ℕ) (path : List Timeline) : Type 0 where
  pub accepted : path_timelines_ok path ≡ true
  pub last : last_timeline path ≡ timeline
  pub bounded : length path ≤ 1024

module _ (lib : Strings) (timeline : ℕ) where
  lines-IsTail :
      (lines : List Text) (count previous last low : ℕ) (path : List Timeline)
      → history_lines lib timeline lines (count + 1) previous last ≡ ok path
      → previous < timeline
      → last < 2 ^ 64
      → low ≤ last
      → count < 1023
      → IsTail timeline previous low (1023 - count) path
  unfolding history_lines last_timeline
  lines-IsTail [] count previous last low path h p q r u =
      let (a, h) = guard-eq-ok (not (count + 1 == 0)) Error.corrupt _ h in
      subst (IsTail timeline previous low (1023 - count)) (ok-injective h) (record {
        rising =
            timeline_ok previous low timeline last [] p q r (unfold later_timelines_ok in refl);
        last = refl;
        bounded = omega arith;
      })
  lines-IsTail (line ∷ lines) count previous last low path h p q r u =
      let skipped = history_lines lib timeline lines (count + 1) previous last in
      let words = lib.fields (lib.trim line) in
      let rest : ℕ × ℕ → Result (List Timeline) = λ v.
        history_lines lib timeline lines (count + 1 + 1) v.0 v.1 >>= λ rest.
        ok (record { id = v.0; fork_lsn = fork_of (count + 1) last } ∷ rest) in
      let taken = parse_entry timeline (count + 1) previous last words >>= rest in
      elim (Bool-cases (is_comment (lib.trim line))) [
        | inl e ↦
            lines-IsTail lines count previous last low path
              (then_true (is_comment (lib.trim line)) skipped taken e h) p q r u
        | inr e ↦
            let (v, a, b) =
              >>=-eq-ok (parse_entry timeline (count + 1) previous last words) rest
                (then_false (is_comment (lib.trim line)) skipped taken e h) in
            let (tail, c, d) =
              >>=-eq-ok (history_lines lib timeline lines (count + 1 + 1) v.0 v.1) _ b in
            let found = parse_entry-IsEntry timeline (count + 1) previous last words v a in
            let ih =
              lines-IsTail lines (count + 1) v.0 v.1 last tail c found.earlier found.short
                (forward_lem count last v.1 found.forward) found.room in
            let fork = fork_lem count last in
            let whole =
              subst (λ f. (record { id = v.0; fork_lsn = f }) ∷ tail ≡ path) fork
                (ok-injective d) in
            subst (IsTail timeline previous low (1023 - count)) whole (record {
              rising = timeline_ok previous low v.0 last tail found.later q r ih.rising;
              last =
                  last_cons (record { id = v.0; fork_lsn = some (format_lsn last) }) tail timeline
                    ih.last (omega (arith, found.earlier));
              bounded = omega (arith, ih.bounded, found.room);
            })
      ]

  -- The whole loop: the first entry has no fork.
  lines-IsPath :
      (lines : List Text) (path : List Timeline)
      → history_lines lib timeline lines 0 0 0 ≡ ok path
      → IsPath timeline path
  unfolding history_lines fork_of
  lines-IsPath [] path h = absurd cc
  lines-IsPath (line ∷ lines) path h =
      let skipped = history_lines lib timeline lines 0 0 0 in
      let words = lib.fields (lib.trim line) in
      let rest : ℕ × ℕ → Result (List Timeline) = λ v.
        history_lines lib timeline lines (0 + 1) v.0 v.1 >>= λ rest.
        ok (record { id = v.0; fork_lsn = none } ∷ rest) in
      let taken = parse_entry timeline 0 0 0 words >>= rest in
      elim (Bool-cases (is_comment (lib.trim line))) [
        | inl e ↦ lines-IsPath lines path (then_true (is_comment (lib.trim line)) skipped taken e h)
        | inr e ↦
            let (v, a, b) =
              >>=-eq-ok (parse_entry timeline 0 0 0 words) rest
                (then_false (is_comment (lib.trim line)) skipped taken e h) in
            let (tail, c, d) = >>=-eq-ok (history_lines lib timeline lines (0 + 1) v.0 v.1) _ b in
            let found = parse_entry-IsEntry timeline 0 0 0 words v a in
            let ih =
              lines-IsTail lines 0 v.0 v.1 0 tail c found.earlier found.short (omega arith)
                (omega arith) in
            subst (IsPath timeline) (ok-injective d) (record {
              accepted = first_ok v.0 tail found.later ih.rising;
              last =
                  last_cons (record { id = v.0; fork_lsn = none }) tail timeline ih.last
                    (omega (arith, found.earlier));
              bounded = omega (arith, ih.bounded);
            })
      ]

-- The path of a history file that is accepted passes the checks of a recovery plan's path, ends at the
-- file's own timeline and has at most 1024 timelines.
pub parse_history-IsPath :
    (lib : Strings) (timeline : ℕ) (b : Text) (path : List Timeline)
    → parse_history lib timeline b ≡ ok path
    → IsPath timeline path
unfolding parse_history
parse_history-IsPath lib timeline b path h =
    let (a, h) =
      guard-eq-ok (ltb 1 timeline && not (length b == 0) && leb (length b) (2 ^ 20)) Error.invalid _
        h in
    lines-IsPath lib timeline (split_lines b) path h
