-- ===== src/Retention/Planner/Kept.antt =====
-- The map `Keep` of planner.go only grows, and what each part of the selection puts into it.
use cnpg_backup.Prelude.{
  ℕ, Bool, true, false, ◌||◌, ◌≡◌, sym, ◌∙◌, ◌⊎◌, inl, inr, List, [], ◌∷◌, Memᴰ, Text, text_eq,
  text_eq_refl, text_eq→eq, arith, Bool-cases,
}
use cnpg_backup.Retention.Planner.Facts.{Backup, Keep, Reason, put, is_kept, get_backup, is_empty}
use cnpg_backup.Retention.Planner.Paths.{Route}
use cnpg_backup.Retention.Planner.Select.{
  Scan, Chosen, keep_window, keep_anchor, keep_root, scan, last_backup, finish_path,
  select_candidates, candidates, select_paths, keep_parent, keep_parents_of,
}

pub is_kept-put :
    (j i : Text) (r : Reason) (k : Keep) → is_kept j (put i r k) ≡ (text_eq i j || is_kept j k)
unfolding is_kept put
is_kept-put j i r [] = ground arith
is_kept-put j i r ((h, q) ∷ k) = elim (Bool-cases (text_eq h i)) [
  | inl same ↦ let e = text_eq→eq h i same in rw same (rw e (ground arith))
  | inr other ↦ rw other (ground (arith, is_kept-put j i r k))
]

pub put_self : (i : Text) (r : Reason) (k : Keep) → is_kept i (put i r k) ≡ true
put_self i r k = rw is_kept-put (rw (text_eq_refl i))

pub put_old :
    (j i : Text) (r : Reason) (k : Keep) → is_kept j k ≡ true → is_kept j (put i r k) ≡ true
put_old j i r k h = ground (arith, is_kept-put j i r k)

module _ (cutoff minimum : ℕ) (j : Text) where
  visit : Backup → Scan → Scan
  visit b s = keep_root minimum b (keep_anchor cutoff b (keep_window cutoff b s))

  window_old :
      (b : Backup) (s : Scan)
      → is_kept j s.keep ≡ true
      → is_kept j (keep_window cutoff b s).keep ≡ true
  unfolding keep_window
  window_old b s h = ground (arith, put_old j b.id Reason.inside_window s.keep h)

  pub anchor_old :
      (b : Backup) (s : Scan)
      → is_kept j s.keep ≡ true
      → is_kept j (keep_anchor cutoff b s).keep ≡ true
  unfolding keep_anchor
  anchor_old b s h = ground (arith, put_old j b.id Reason.window_anchor s.keep h)

  pub root_old :
      (b : Backup) (s : Scan)
      → is_kept j s.keep ≡ true
      → is_kept j (keep_root minimum b s).keep ≡ true
  unfolding keep_root
  root_old b s h = ground (arith, put_old j b.id Reason.minimum_root s.keep h)

  visit_old : (b : Backup) (s : Scan) → is_kept j s.keep ≡ true → is_kept j (visit b s).keep ≡ true
  unfolding visit
  visit_old b s h = root_old b _ (anchor_old b _ (window_old b s h))

  pub scan_old :
      (bs : List Backup) (s : Scan)
      → is_kept j s.keep ≡ true
      → is_kept j (scan cutoff minimum bs s).keep ≡ true
  unfolding scan visit
  scan_old [] s h = h
  scan_old (b ∷ bs) s h = scan_old bs (visit b s) (visit_old b s h)

  pub finish_old :
      (b : Backup) (bs : List Backup) (w : Bool) (s : Scan)
      → is_kept j s.keep ≡ true
      → is_kept j (finish_path b bs w s).keep ≡ true
  unfolding finish_path
  finish_old b bs w s h =
      let new = put b.id Reason.latest_usable s.keep in
      let kept = put_old j b.id Reason.latest_usable s.keep h in
      ground (arith, kept, put_old j (last_backup b bs).id Reason.earliest_usable new kept)

  select_candidates_old :
      (bs : List Backup) (c : Chosen)
      → is_kept j c.keep ≡ true
      → is_kept j (select_candidates cutoff minimum bs c).keep ≡ true
  unfolding select_candidates
  select_candidates_old [] c h = h
  select_candidates_old (b ∷ bs) c h =
      let first : Scan = record { keep = c.keep; roots = 0; anchor = false } in
      finish_old b bs c.shortened (scan cutoff minimum (b ∷ bs) first) (scan_old (b ∷ bs) first h)

  pub select_paths_old :
      (backups : List Backup) (paths : List Route) (c : Chosen)
      → is_kept j c.keep ≡ true
      → is_kept j (select_paths backups cutoff minimum paths c).keep ≡ true
  unfolding select_paths
  select_paths_old backups [] c h = h
  select_paths_old backups (path ∷ rest) c h =
      select_paths_old backups rest _ (select_candidates_old (candidates backups path) c h)

  -- What one path's candidates keep, whatever was chosen before, is in the result.
  pub select_paths_keep :
      (backups : List Backup) (paths : List Route) (path : Route) (c : Chosen)
      → Memᴰ path paths
      → ((c : Chosen)
          → is_kept j (select_candidates cutoff minimum (candidates backups path) c).keep ≡ true)
      → is_kept j (select_paths backups cutoff minimum paths c).keep ≡ true
  unfolding select_paths
  select_paths_keep backups [] path c m keeps = elim m [ ]
  select_paths_keep backups (p ∷ rest) path c (Memᴰ.head e) keeps =
      select_paths_old backups rest _ (subst_candidates e (keeps c))
    where
      subst_candidates :
          path ≡ p
          → is_kept j (select_candidates cutoff minimum (candidates backups path) c).keep ≡ true
          → is_kept j (select_candidates cutoff minimum (candidates backups p) c).keep ≡ true
      subst_candidates e h = rw e at h
  select_paths_keep backups (p ∷ rest) path c (Memᴰ.tail m) keeps =
      select_paths_keep backups rest path _ m keeps

module _ (by_id : List Backup) where
  keep_parent_old :
      (j id : Text) (keep : Keep)
      → is_kept j keep ≡ true
      → is_kept j (keep_parent by_id id keep) ≡ true
  unfolding keep_parent
  keep_parent_old j id keep h =
      ground (arith, put_old j (get_backup id by_id).parent Reason.full_parent keep h)

  pub keep_parents_of_old :
      (j : Text) (l keep : Keep)
      → is_kept j keep ≡ true
      → is_kept j (keep_parents_of by_id l keep) ≡ true
  unfolding keep_parents_of
  keep_parents_of_old j [] keep h = h
  keep_parents_of_old j ((id, r) ∷ l) keep h =
      keep_parents_of_old j l _ (keep_parent_old j id keep h)

  keep_parent_self :
      (id : Text) (keep : Keep)
      → is_empty (get_backup id by_id).parent ≡ false
      → is_kept (get_backup id by_id).parent (keep_parent by_id id keep) ≡ true
  unfolding keep_parent
  keep_parent_self id keep h = rw h (put_self _ _ keep)

  -- The parent of every key of the list is kept.
  pub keep_parents_of_parent :
      (id : Text) (l keep : Keep)
      → is_kept id l ≡ true
      → is_empty (get_backup id by_id).parent ≡ false
      → is_kept (get_backup id by_id).parent (keep_parents_of by_id l keep) ≡ true
  unfolding keep_parents_of is_kept
  keep_parents_of_parent id [] keep h e = cc
  keep_parents_of_parent id ((i, r) ∷ l) keep h e = elim (Bool-cases (text_eq i id)) [
    | inl same ↦
        keep_parents_of_old (get_backup id by_id).parent l (keep_parent by_id i keep)
          (rw (text_eq→eq i id same) (keep_parent_self id keep e))
    | inr other ↦ keep_parents_of_parent id l _ (rw other at h) e
  ]

  -- Nothing else is added.
  pub keep_parents_of_cases :
      (j : Text) (l keep : Keep)
      → is_kept j (keep_parents_of by_id l keep) ≡ true
      → (is_kept j keep ≡ true)
        ⊎ ((i : Text) × ((get_backup i by_id).parent ≡ j)
            × (is_empty (get_backup i by_id).parent ≡ false))
  unfolding keep_parents_of keep_parent
  keep_parents_of_cases j [] keep h = inl h
  keep_parents_of_cases j ((i, r) ∷ l) keep h =
      elim (keep_parents_of_cases j l (keep_parent by_id i keep) h) [
        | inr found ↦ inr found
        | inl k ↦ elim (Bool-cases (is_empty (get_backup i by_id).parent)) [
          | inl full ↦ inl (rw full at k)
          | inr child ↦ elim (Bool-cases (text_eq (get_backup i by_id).parent j)) [
            | inl same ↦ inr (i, text_eq→eq _ _ same, child)
            | inr other ↦ inl (rw (sym (is_kept-put_other j _ keep other)) (rw child at k))
          ]
        ]
      ]
    where
      is_kept-put_other :
          (a i : Text) (m : Keep)
          → text_eq i a ≡ false
          → is_kept a (put i Reason.full_parent m) ≡ is_kept a m
      is_kept-put_other a i m e = is_kept-put a i Reason.full_parent m ∙ rw e
