-- ===== src/Retention/Planner/Paths.antt =====
-- planner.go: the checks of the timeline paths and of the backups.
use cnpg_backup.Prelude.{
  ℕ, ◌+◌, Bool, true, false, not, ◌&&◌, List, [], ◌∷◌, ◌++◌, Option, none, some, Result, ok, err,
  coverage, reject, guard, ◌>>=◌, ◌>>◌, ltb, leb, ◌==◌, if◌then◌else◌, length, take, any, all,
}
use cnpg_backup.Retention.Planner.Facts.{Backup, Timeline, is_empty, find_backup}

abbrev pub Route : Type 0
Route = List Timeline

-- `map[uint32][]Timeline`.
abbrev pub PathMap : Type 0
PathMap = List (ℕ × Route)

-- `paths[id]`; every stored path is nonempty, so `nil` is `none`.
unfoldable pub get_path : ℕ → PathMap → Option Route
get_path id [] = none
get_path id ((i, p) ∷ m) = let rest = get_path id m in if i == id then some p else rest

unfoldable pub has_path : ℕ → PathMap → Bool
unfolding get_path
has_path id m = elim (get_path id m) [ none ↦ false | some p ↦ true ]

-- The identifiers and the forks grow along a path.
unfoldable pub follows : Option Timeline → Timeline → Bool
follows none t = true
follows (some p) t = ltb p.id t.id && leb p.fork t.fork

unfoldable pub path_grows : Option Timeline → Route → Bool
unfolding follows
path_grows previous [] = true
path_grows previous (t ∷ ts) = not (t.id == 0) && follows previous t && path_grows (some t) ts

unfoldable pub starts_unforked : Route → Bool
starts_unforked [] = false
starts_unforked (t ∷ ts) = t.fork == 0

-- The first loop's tests of one path.
unfoldable pub path_ok : Route → Bool
unfolding path_grows starts_unforked
path_ok path = leb (length path) 1024 && starts_unforked path && path_grows none path

unfoldable pub last_id : Route → ℕ
last_id [] = 0
last_id (t ∷ []) = t.id
last_id (t ∷ u ∷ ts) = last_id (u ∷ ts)

-- The identifiers of all but the last timeline.
unfoldable pub ancestor_ids : Route → List ℕ
ancestor_ids [] = []
ancestor_ids (t ∷ []) = []
ancestor_ids (t ∷ u ∷ ts) = t.id ∷ ancestor_ids (u ∷ ts)

unfoldable pub index_paths : List Route → PathMap → List ℕ → Result (PathMap × List ℕ)
unfolding path_ok has_path last_id ancestor_ids
index_paths [] m ancestors = ok (m, ancestors)
index_paths (path ∷ rest) m ancestors = do
  guard (path_ok path) coverage
  reject (has_path (last_id path) m) coverage
  index_paths rest (m ++ (last_id path, path) ∷ []) (ancestors ++ ancestor_ids path)

unfoldable pub same_route : Route → Route → Bool
same_route [] [] = true
same_route (t ∷ ts) (u ∷ us) = t.id == u.id && t.fork == u.fork && same_route ts us
same_route _ _ = false

-- The timeline at place `i` of `path` has a path of its own, which is the prefix of `path`.
unfoldable pub prefix_ok : PathMap → Route → ℕ → Timeline → Bool
unfolding get_path same_route
prefix_ok m path i t = elim (get_path t.id m) [
  | none ↦ false
  | some prefix ↦ length prefix == i + 1 && same_route prefix (take (i + 1) path)
]

unfoldable pub prefixes_ok : PathMap → Route → ℕ → Route → Bool
unfolding prefix_ok
prefixes_ok m path i [] = true
prefixes_ok m path i (t ∷ ts) = prefix_ok m path i t && prefixes_ok m path (i + 1) ts

-- A timeline that is no ancestor is the current one; there may be one such.
unfoldable pub note_leaf : List ℕ → ℕ → ℕ → Result ℕ
unfolding any
note_leaf ancestors id current =
    if any (λ a. a == id) ancestors
    then ok current
    else (if current == 0 then ok id else err coverage)

unfoldable pub find_current : PathMap → List ℕ → PathMap → ℕ → Result ℕ
unfolding prefixes_ok note_leaf
find_current m ancestors [] current = ok current
find_current m ancestors ((id, path) ∷ rest) current = do
  guard (prefixes_ok m path 0 path) coverage
  next ← note_leaf ancestors id current
  find_current m ancestors rest next

unfoldable pub backup_ok : PathMap → Backup → Bool
unfolding has_path is_empty
backup_ok m b =
    not (is_empty b.id)
    && not (b.completed == 0)
    && ltb b.start b.end
    && leb b.redo b.start
    && has_path b.timeline m

unfoldable pub is_indexed : List Backup → Backup → Bool
unfolding find_backup
is_indexed by_id b = elim (find_backup b.id by_id) [ none ↦ false | some f ↦ true ]

unfoldable pub index_backups : PathMap → List Backup → List Backup → Result (List Backup)
unfolding backup_ok is_indexed
index_backups m [] by_id = ok by_id
index_backups m (b ∷ bs) by_id = do
  guard (backup_ok m b) coverage
  reject (is_indexed by_id b) coverage
  index_backups m bs (by_id ++ b ∷ [])

-- A full `f` is a fit parent of `b`.
unfoldable pub is_parent_of : Backup → Backup → Bool
unfolding is_empty
is_parent_of f b =
    is_empty f.parent
    && f.timeline == b.timeline
    && leb f.completed b.completed
    && leb f.end b.start

unfoldable pub parent_ok : List Backup → Backup → Bool
unfolding is_parent_of find_backup
parent_ok by_id b =
    if is_empty b.parent
    then true
    else elim (find_backup b.parent by_id) [ none ↦ false | some f ↦ is_parent_of f b ]

unfoldable pub check_parents : List Backup → List Backup → Bool
unfolding all parent_ok
check_parents by_id backups = all (parent_ok by_id) backups
