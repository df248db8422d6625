-- ===== src/Retention/Planner/Rules.antt =====
-- What the loop over the candidates of one path keeps of planner.go.
use cnpg_backup.Prelude.{
  ℕ, ◌+◌, ◌≤◌, ◌<◌, Bool, true, false, ◌≡◌, refl, inl, inr, List, [], ◌∷◌, ◌++◌, arith, Bool-cases,
  leb, length, filter, All,
}
use cnpg_backup.Retention.Planner.Facts.{Backup, Keep, Reason, put, is_kept, is_empty}
use cnpg_backup.Retention.Planner.Select.{
  Scan, Chosen, keep_window, keep_anchor, keep_root, scan, last_backup, finish_path,
  select_candidates,
}
use cnpg_backup.Retention.Planner.Kept.{
  put_self, put_old, scan_old, finish_old, anchor_old, root_old,
}

abbrev pub is_full : Backup → Bool
is_full b = is_empty b.parent

module _ (cutoff minimum : ℕ) where
  next : Backup → Scan → Scan
  next b s = keep_root minimum b (keep_anchor cutoff b (keep_window cutoff b s))

  -- A newest-first list of candidates reaches `b` in the state that `xs` leaves behind.
  scan-append :
      (xs ys : List Backup) (s : Scan)
      → scan cutoff minimum (xs ++ ys) s ≡ scan cutoff minimum ys (scan cutoff minimum xs s)
  unfolding scan
  scan-append [] ys s = refl
  scan-append (x ∷ xs) ys s = scan-append xs ys _

  next_window :
      (b : Backup) (s : Scan) → leb cutoff b.completed ≡ true → is_kept b.id (next b s).keep ≡ true
  unfolding next keep_window
  next_window b s h =
      root_old cutoff minimum b.id b _
        (anchor_old cutoff minimum b.id b _ (rw h (put_self b.id Reason.inside_window s.keep)))

  next_anchor :
      (b : Backup) (s : Scan)
      → leb b.completed cutoff ≡ true
      → s.anchor ≡ false
      → is_kept b.id (next b s).keep ≡ true
  unfolding next keep_anchor keep_window
  next_anchor b s h free = root_old cutoff minimum b.id b _ (
      ground (
        arith,
        put_self b.id Reason.window_anchor s.keep,
        put_self b.id Reason.window_anchor (put b.id Reason.inside_window s.keep),
      ))

  next_root :
      (b : Backup) (s : Scan)
      → is_full b ≡ true
      → s.roots < minimum
      → is_kept b.id (next b s).keep ≡ true
  unfolding next keep_root keep_anchor keep_window
  next_root b s full few =
      let before = keep_anchor cutoff b (keep_window cutoff b s) in
      ground (arith, put_self b.id Reason.minimum_root before.keep)

  -- How the counters move.
  next-roots :
      (b : Backup) (s : Scan) → (next b s).roots ≤ s.roots + length (filter is_full (b ∷ []))
  unfolding next keep_root keep_anchor keep_window filter
  next-roots b s = ground arith

  next-anchor_free :
      (b : Backup) (s : Scan)
      → s.anchor ≡ false
      → leb b.completed cutoff ≡ false
      → (next b s).anchor ≡ false
  unfolding next keep_root keep_anchor keep_window
  next-anchor_free b s free h = ground arith

  length-filter_cons :
      (x : Backup) (xs : List Backup)
      → length (filter is_full (x ∷ xs))
        ≡ length (filter is_full (x ∷ [])) + length (filter is_full xs)
  unfolding filter
  length-filter_cons x xs = elim (Bool-cases (is_full x)) [
    | inl t ↦ rw t (omega arith)
    | inr f ↦ rw f (omega arith)
  ]

  scan-roots :
      (xs : List Backup) (s : Scan)
      → (scan cutoff minimum xs s).roots ≤ s.roots + length (filter is_full xs)
  unfolding scan next
  scan-roots [] s = omega arith
  scan-roots (x ∷ xs) s =
      omega (arith, next-roots x s, scan-roots xs (next x s), length-filter_cons x xs)

  scan-anchor_free :
      (xs : List Backup) (s : Scan)
      → s.anchor ≡ false
      → All (λ b. leb b.completed cutoff ≡ false) xs
      → (scan cutoff minimum xs s).anchor ≡ false
  unfolding scan next
  scan-anchor_free [] s free h = free
  scan-anchor_free (x ∷ xs) s free h =
      scan-anchor_free xs (next x s) (next-anchor_free x s free h.0) h.1

  abbrev fresh : Keep → Scan
  fresh keep = record { keep = keep; roots = 0; anchor = false }

  -- A candidate that is kept in the state in which the loop meets it is kept in the end.
  candidates_met :
      (xs : List Backup) (b : Backup) (ys : List Backup) (c : Chosen)
      → is_kept b.id (next b (scan cutoff minimum xs (fresh c.keep))).keep ≡ true
      → is_kept b.id (select_candidates cutoff minimum (xs ++ b ∷ ys) c).keep ≡ true
  unfolding select_candidates
  candidates_met [] b ys c h =
      finish_old cutoff minimum b.id b ys c.shortened (scan cutoff minimum (b ∷ ys) (fresh c.keep))
        (unfold scan next in scan_old cutoff minimum b.id ys _ h)
  candidates_met (x ∷ xs) b ys c h =
      finish_old cutoff minimum b.id x (xs ++ b ∷ ys) c.shortened
        (scan cutoff minimum (x ∷ xs ++ b ∷ ys) (fresh c.keep))
        (rw (scan-append (x ∷ xs) (b ∷ ys) (fresh c.keep))
          (unfold scan next in scan_old cutoff minimum b.id ys _ h))

  pub candidates_window :
      (xs : List Backup) (b : Backup) (ys : List Backup) (c : Chosen)
      → leb cutoff b.completed ≡ true
      → is_kept b.id (select_candidates cutoff minimum (xs ++ b ∷ ys) c).keep ≡ true
  candidates_window xs b ys c h = candidates_met xs b ys c (next_window b _ h)

  pub candidates_root :
      (xs : List Backup) (b : Backup) (ys : List Backup) (c : Chosen)
      → is_full b ≡ true
      → length (filter is_full xs) < minimum
      → is_kept b.id (select_candidates cutoff minimum (xs ++ b ∷ ys) c).keep ≡ true
  candidates_root xs b ys c full few =
      candidates_met xs b ys c (next_root b _ full (omega (arith, scan-roots xs (fresh c.keep))))

  pub candidates_anchor :
      (xs : List Backup) (b : Backup) (ys : List Backup) (c : Chosen)
      → All (λ x. leb x.completed cutoff ≡ false) xs
      → leb b.completed cutoff ≡ true
      → is_kept b.id (select_candidates cutoff minimum (xs ++ b ∷ ys) c).keep ≡ true
  candidates_anchor xs b ys c newer h =
      candidates_met xs b ys c (next_anchor b _ h (scan-anchor_free xs (fresh c.keep) refl newer))

  -- The newest candidate is kept in any case.
  pub candidates_latest :
      (b : Backup) (ys : List Backup) (c : Chosen)
      → is_kept b.id (select_candidates cutoff minimum (b ∷ ys) c).keep ≡ true
  unfolding select_candidates finish_path
  candidates_latest b ys c =
      let s = scan cutoff minimum (b ∷ ys) (fresh c.keep) in
      let newest = put b.id Reason.latest_usable s.keep in
      ground (
        arith,
        put_self b.id Reason.latest_usable s.keep,
        put_old b.id (last_backup b ys).id Reason.earliest_usable newest,
      )
