-- ===== src/Retention/Planner/Keeping.antt =====
-- What `Plan` of planner.go keeps: the obligations of a retention policy.
use cnpg_backup.Prelude.{
  ℕ, ◌≤◌, true, false, ◌≡◌, sym, ap, ◌∙◌, subst, inl, inr, List, [], ◌∷◌, ◌++◌, Memᴰ, Option, none,
  ok, Text, arith, length, filter, mem-filter, mem_of_filter, leb→le, refl,
}
use cnpg_backup.Prelude.Sort.{sort-mem, mem-sort}
use cnpg_backup.Retention.Planner.{plan}
use cnpg_backup.Retention.Planner.Facts.{
  Backup, Inventory, Hint, Decision, Keep, is_kept, get_backup, find_backup, is_empty,
}
use cnpg_backup.Retention.Planner.Paths.{Route, is_parent_of, check_parents}
use cnpg_backup.Retention.Planner.Select.{
  reachable, newer, candidates, select_candidates, keep_parents, keep_parents_of,
}
use cnpg_backup.Retention.Planner.Trace.{Trace, plan-trace, chosen}
use cnpg_backup.Retention.Planner.Index.{
  index_backups-IsKeyed, get_backup-mem, get_backup-cases, get_backup-parent, IsKeyed,
}
use cnpg_backup.Retention.Planner.Kept.{
  select_paths_keep, keep_parents_of_old, keep_parents_of_parent, keep_parents_of_cases,
}
use cnpg_backup.Retention.Planner.Newest.{
  is_full_since, few_before, find-IsFirst, find_newest, mem_middle, candidates-Descends,
}
use cnpg_backup.Retention.Planner.Rules.{
  is_full, candidates_window, candidates_root, candidates_anchor, candidates_latest,
}

-- An element of a list stands between two parts of it.
pub Splits {ℓ} : {A : Type ℓ} → A → List A → Type ℓ
Splits {A = A} a l = (xs : List A) × (ys : List A) × (l ≡ xs ++ a ∷ ys)

mem-Splits {ℓ} : {A : Type ℓ} {a : A} (l : List A) → Memᴰ a l → Splits a l
unfolding Splits
mem-Splits [] m = elim m [ ]
mem-Splits (x ∷ l) (Memᴰ.head e) = ([], l, rw e)
mem-Splits (x ∷ l) (Memᴰ.tail m) = let (xs, ys, e) = mem-Splits l m in (x ∷ xs, ys, ap (◌∷◌ x) e)

missing_parent :
    (i : Text) (m : List Backup) → find_backup i m ≡ none → is_empty (get_backup i m).parent ≡ true
unfolding get_backup is_empty
missing_parent i m h = rw (h, get_backup)

not_full : (b c : Backup) → is_parent_of b c ≡ true → is_empty b.parent ≡ false → ⊥
unfolding is_parent_of
not_full b c p q = ground arith

-- After the parents are added every kept backup has its parent among the kept.
keep_parents_closed :
    (m : List Backup) (keep : Keep) (b : Backup)
    → IsKeyed m
    → check_parents m m ≡ true
    → Memᴰ b m
    → is_kept b.id (keep_parents_of m keep keep) ≡ true
    → is_empty b.parent ≡ false
    → is_kept b.parent (keep_parents_of m keep keep) ≡ true
keep_parents_closed m keep b keyed checked at_b kept child =
    let own : get_backup b.id m ≡ b = get_backup-mem m b keyed at_b in
    elim (keep_parents_of_cases m b.id keep keep kept) [
      | inl before ↦
          subst (λ (c : Backup). is_kept c.parent (keep_parents_of m keep keep) ≡ true) own
            (keep_parents_of_parent m b.id keep keep before
              (subst (λ (c : Backup). is_empty c.parent ≡ false) (sym own) child))
      | inr (i, e, has) ↦ elim (get_backup-cases m i) [
        | inl (at_i, _) ↦
            let full = get_backup-parent m (get_backup i m) checked at_i has in
            absurd (
              not_full b (get_backup i m)
                (subst (λ (f : Backup). is_parent_of f (get_backup i m) ≡ true)
                  (ap (λ (t : Text). get_backup t m) e ∙ own) full)
                child)
        | inr missing ↦ cc (missing_parent i m missing, has)
      ]
    ]

-- A known backup that a path can still use.
abbrev pub IsUsable : Inventory → Route → Backup → Type 0
IsUsable inv path b = Memᴰ b inv.backups × (reachable b path ≡ true)

-- A backup that fits and that completed no earlier than any other that fits.
pub record IsNewest (Fits : Backup → Type 0) (y : Backup) : Type 0 where
  pub fits : Fits y
  pub newest : (x : Backup) → Fits x → x.completed ≤ y.completed

module _ (inv : Inventory) (cutoff minimum : ℕ) (hint : Option Hint) {d : Decision}
    (planned : plan inv cutoff minimum hint ≡ ok d) where
  pub trace : Trace inv cutoff minimum hint d
  trace = plan-trace inv cutoff minimum hint planned

  pub by_id-IsKeyed : (trace.by_id ≡ inv.backups) × IsKeyed trace.by_id
  by_id-IsKeyed = index_backups-IsKeyed trace.paths inv.backups [] trace.backups (λ b m. elim m [ ])

  -- What one path keeps is in the decision.
  path_keeps :
      (j : Text) (path : Route)
      → Memᴰ path inv.paths
      → ((c : _)
          → is_kept j (select_candidates cutoff minimum (candidates inv.backups path) c).keep
            ≡ true)
      → is_kept j d.keep ≡ true
  unfolding keep_parents
  path_keeps j path m keeps = rw (trace.keep) (
      keep_parents_of_old trace.by_id j (chosen inv cutoff minimum).keep
        (chosen inv cutoff minimum).keep
        (select_paths_keep cutoff minimum j inv.backups inv.paths path _ m keeps))

  -- The candidates of a path are the known backups that it can still use.
  candidates-mem :
      (path : Route) (b : Backup)
      → Memᴰ b inv.backups
      → reachable b path ≡ true
      → Memᴰ b (candidates inv.backups path)
  unfolding candidates
  candidates-mem path b m reach =
      sort-mem newer _ (mem-filter (λ c. reachable c path) inv.backups m reach)

  mem-candidates :
      (path : Route) (b : Backup) → Memᴰ b (candidates inv.backups path) → IsUsable inv path b
  unfolding candidates
  mem-candidates path b m = mem_of_filter (λ c. reachable c path) inv.backups (mem-sort newer _ m)

  usable-Splits :
      (path : Route) (b : Backup)
      → Memᴰ b inv.backups
      → reachable b path ≡ true
      → (xs : List Backup) × (ys : List Backup) × (candidates inv.backups path ≡ xs ++ b ∷ ys)
  unfolding Splits
  usable-Splits path b m reach = mem-Splits _ (candidates-mem path b m reach)

  -- When `plan` succeeds, every known backup that some known path can still use and that completed
  -- no earlier than the cutoff is kept.
  pub plan-keeps_window :
      (path : Route) (b : Backup)
      → Memᴰ path inv.paths
      → Memᴰ b inv.backups
      → reachable b path ≡ true
      → cutoff ≤ b.completed
      → is_kept b.id d.keep ≡ true
  plan-keeps_window path b in_paths in_backups reach late =
      let (xs, ys, split) = usable-Splits path b in_backups reach in
      path_keeps b.id path in_paths
        (λ c. rw split (candidates_window cutoff minimum xs b ys c (ground arith)))

  -- When `plan` succeeds, a known full that a known path can still use is kept, if at most `minimum` of
  -- the fulls that this path can use, itself included, completed no earlier.
  pub plan-keeps_roots :
      (path : Route) (b : Backup)
      → Memᴰ path inv.paths
      → Memᴰ b inv.backups
      → reachable b path ≡ true
      → is_full b ≡ true
      → length (filter (is_full_since b) (filter (λ x. reachable x path) inv.backups)) ≤ minimum
      → is_kept b.id d.keep ≡ true
  plan-keeps_roots path b in_paths in_backups reach full few =
      let (xs, ys, split) = usable-Splits path b in_backups reach in
      let fewer = few_before inv.backups path xs b ys split full in
      path_keeps b.id path in_paths
        (λ c. rw split (candidates_root cutoff minimum xs b ys c full (omega (arith, few, fewer))))

  -- When `plan` succeeds and a known path can use a known backup that completed no later than the cutoff,
  -- a latest of all those backups is kept.
  pub plan-keeps_anchor :
      (path : Route) (b : Backup)
      → Memᴰ path inv.paths
      → IsUsable inv path b
      → b.completed ≤ cutoff
      → (y : Backup) × IsNewest (λ x. IsUsable inv path x × (x.completed ≤ cutoff)) y
        × (is_kept y.id d.keep ≡ true)
  plan-keeps_anchor path b in_paths usable early =
      let (xs, ys, split) = usable-Splits path b usable.0 usable.1 in
      let f =
        find-IsFirst cutoff (candidates inv.backups path) b
          (candidates-mem path b usable.0 usable.1) early (candidates-Descends inv.backups path) in
      (
        f.first,
        record {
          fits = (
            mem-candidates path f.first (rw f.split (mem_middle f.before f.first f.behind)),
            leb→le f.first.completed cutoff f.early,
          );
          newest = λ x u. f.newest x (candidates-mem path x u.0.0 u.0.1) u.1;
        },
        path_keeps f.first.id path in_paths (λ c.
            rw f.split
              (candidates_anchor cutoff minimum f.before f.first f.behind c f.late f.early)),
      )

  -- When `plan` succeeds and a known path can use a known backup, a latest of all those backups is kept.
  pub plan-keeps_latest :
      (path : Route) (b : Backup)
      → Memᴰ path inv.paths
      → IsUsable inv path b
      → (y : Backup) × IsNewest (IsUsable inv path) y × (is_kept y.id d.keep ≡ true)
  plan-keeps_latest path b in_paths usable =
      let (y, ys, split, top) =
        find_newest (candidates inv.backups path) b (candidates-mem path b usable.0 usable.1)
          (candidates-Descends inv.backups path) in
      (
        y,
        record {
          fits = mem-candidates path y (rw split (Memᴰ.head refl));
          newest = λ x u. top x (candidates-mem path x u.0 u.1);
        },
        path_keeps y.id path in_paths (λ c. rw split (candidates_latest cutoff minimum y ys c)),
      )

  -- When `plan` succeeds, the parent of every known backup that is kept and has one is kept too.
  pub plan-keeps_parents :
      (b : Backup)
      → Memᴰ b inv.backups
      → is_kept b.id d.keep ≡ true
      → is_empty b.parent ≡ false
      → is_kept b.parent d.keep ≡ true
  unfolding keep_parents
  plan-keeps_parents b m kept child =
      let keep = (chosen inv cutoff minimum).keep in
      let (same, keyed) = by_id-IsKeyed in
      rw trace.keep (
        keep_parents_closed trace.by_id keep b keyed
          (subst (λ (l : List Backup). check_parents trace.by_id l ≡ true) (sym same) trace.parents)
          (subst (λ (l : List Backup). Memᴰ b l) (sym same) m) (rw trace.keep at kept) child)
