-- ===== src/Retention/Planner/Select.antt =====
-- planner.go: which backups are kept, and the order in which the others expire.
use cnpg_backup.Prelude.{
  ℕ, ◌+◌, Bool, true, false, not, ◌&&◌, List, [], ◌∷◌, ltb, leb, ◌==◌, if◌then◌else◌, filter, Text,
  text_lt,
}
use cnpg_backup.Prelude.Sort.{sort}
use cnpg_backup.Retention.Planner.Facts.{
  Backup, Keep, put, is_kept, is_empty, get_backup, inside_window, window_anchor, minimum_root,
  latest_usable, earliest_usable, full_parent,
}
use cnpg_backup.Retention.Planner.Paths.{Route}

-- The backup ends before the timeline after its own forks off.
unfoldable pub ends_before : Backup → Route → Bool
ends_before b [] = true
ends_before b (next ∷ ts) = ltb b.end next.fork

unfoldable pub reachable : Backup → Route → Bool
unfolding ends_before
reachable b [] = false
reachable b (t ∷ ts) =
    let rest = reachable b ts in if t.id == b.timeline then ends_before b ts else rest

unfoldable pub newer : Backup → Backup → Bool
newer a b = if a.completed == b.completed then text_lt b.id a.id else ltb b.completed a.completed

-- The variables of the loop over the candidates of one path.
pub record Scan : Type 0 where
  pub keep : Keep
  pub roots : ℕ
  pub anchor : Bool

unfoldable pub keep_window : ℕ → Backup → Scan → Scan
unfolding put
keep_window cutoff b s =
    if leb cutoff b.completed then record s { keep = put b.id inside_window s.keep } else s

unfoldable pub keep_anchor : ℕ → Backup → Scan → Scan
unfolding put
keep_anchor cutoff b s =
    if not s.anchor && leb b.completed cutoff
    then record s { keep = put b.id window_anchor s.keep; anchor = true }
    else s

unfoldable pub keep_root : ℕ → Backup → Scan → Scan
unfolding put is_empty
keep_root minimum b s =
    if is_empty b.parent && ltb s.roots minimum
    then record s { keep = put b.id minimum_root s.keep; roots = s.roots + 1 }
    else s

unfoldable pub scan : (cutoff minimum : ℕ) → List Backup → Scan → Scan
unfolding keep_window keep_anchor keep_root
scan cutoff minimum [] s = s
scan cutoff minimum (b ∷ bs) s =
    scan cutoff minimum bs (keep_root minimum b (keep_anchor cutoff b (keep_window cutoff b s)))

-- What the loop over the paths changes.
pub record Chosen : Type 0 where
  pub keep : Keep
  pub shortened : Bool

abbrev pub no_keep : Chosen
no_keep = record { keep = []; shortened = false }

unfoldable pub last_backup : Backup → List Backup → Backup
last_backup b [] = b
last_backup b (c ∷ cs) = last_backup c cs

-- The lines behind the loop over the candidates `b ∷ bs`.
unfoldable pub finish_path : Backup → List Backup → Bool → Scan → Chosen
unfolding put last_backup
finish_path b bs shortened s =
    let keep = put b.id latest_usable s.keep in
    if s.anchor
    then record { keep = keep; shortened = shortened }
    else record { keep = put (last_backup b bs).id earliest_usable keep; shortened = true }

unfoldable pub select_candidates : (cutoff minimum : ℕ) → List Backup → Chosen → Chosen
unfolding scan finish_path
select_candidates cutoff minimum [] c = c
select_candidates cutoff minimum (b ∷ bs) c =
    finish_path b bs c.shortened
      (scan cutoff minimum (b ∷ bs) (record { keep = c.keep; roots = 0; anchor = false }))

unfoldable pub candidates : List Backup → Route → List Backup
unfolding sort filter reachable newer
candidates backups path = sort newer (filter (λ b. reachable b path) backups)

unfoldable pub select_paths : List Backup → (cutoff minimum : ℕ) → List Route → Chosen → Chosen
unfolding candidates select_candidates
select_paths backups cutoff minimum [] c = c
select_paths backups cutoff minimum (path ∷ rest) c =
    select_paths backups cutoff minimum rest
      (select_candidates cutoff minimum (candidates backups path) c)

-- One round of the loop that keeps the parents of kept backups.
unfoldable pub keep_parent : List Backup → Text → Keep → Keep
unfolding put get_backup is_empty
keep_parent by_id id keep =
    let parent = (get_backup id by_id).parent in
    if is_empty parent then keep else put parent full_parent keep

unfoldable pub keep_parents_of : List Backup → Keep → Keep → Keep
unfolding keep_parent
keep_parents_of by_id [] keep = keep
keep_parents_of by_id ((id, r) ∷ rest) keep = keep_parents_of by_id rest (keep_parent by_id id keep)

-- Go may or may not visit a key that the loop adds; an added key is a full, which has no parent.
unfoldable pub keep_parents : List Backup → Keep → Keep
unfolding keep_parents_of
keep_parents by_id keep = keep_parents_of by_id keep keep

-- Differentials go first, then by identifier.
unfoldable pub expires_before : List Backup → Text → Text → Bool
unfolding get_backup is_empty
expires_before by_id i j =
    let a = get_backup i by_id in
    let b = get_backup j by_id in
    if is_empty a.parent
    then (if is_empty b.parent then text_lt a.id b.id else false)
    else (if is_empty b.parent then true else text_lt a.id b.id)

unfoldable pub unkept_ids : Keep → List Backup → List Text
unfolding is_kept
unkept_ids keep [] = []
unkept_ids keep (b ∷ bs) =
    let rest = unkept_ids keep bs in if is_kept b.id keep then rest else b.id ∷ rest

unfoldable pub expire_ids : List Backup → Keep → List Backup → List Text
unfolding unkept_ids sort expires_before
expire_ids by_id keep backups = sort (expires_before by_id) (unkept_ids keep backups)
