-- ===== src/Repository/History/Inventory.antt =====
-- internal/repository/recovery.go: what `Resolve` reads from the archive's names and histories.
use cnpg_backup.Prelude.{
  ℕ, ◌-◌, Bool, true, false, ◌&&◌, ◌||◌, List, [], ◌∷◌, ◌++◌, Option, none, some, Text, text_eq,
  codes, ltb, leb, ◌==◌, if◌then◌else◌, length, drop, any, Result, ok, err, Error, guard, ◌>>=◌,
  ◌>>◌,
}
use cnpg_backup.Repository.Names.Keys.{pad_hex}
use cnpg_backup.Repository.Names.Wal.{wal_timeline, segment_start}
use cnpg_backup.Repository.Schema.Records.{Commit}
use cnpg_backup.Repository.Recovery.Target.{Timeline}
use cnpg_backup.Repository.History.{Strings, parse_history}

unfoldable pub has_suffix : Text → Text → Bool
unfolding text_eq
has_suffix suffix s =
    leb (length suffix) (length s) && text_eq (drop (length s - length suffix) s) suffix

-- The maps of the loop over the names.
pub record Inventory : Type 0 where
  pub timelines : List ℕ
  pub segments : List (ℕ × ℕ)
  pub histories : List ℕ

-- The keys of a map of timelines, in their order.
unfoldable pub add_id : ℕ → List ℕ → List ℕ
add_id n [] = n ∷ []
add_id n (m ∷ ms) =
    let rest = add_id n ms in if n == m then m ∷ ms else (if ltb n m then n ∷ m ∷ ms else m ∷ rest)

abbrev pub has_id : ℕ → List ℕ → Bool
has_id n l = any (λ m. m == n) l

unfoldable pub has_segment : ℕ → ℕ → List (ℕ × ℕ) → Bool
unfolding any
has_segment t start l = any (λ s. s.0 == t && s.1 == start) l

unfoldable pub add_name : ℕ → ℕ → Text → Inventory → Inventory
unfolding add_id has_suffix segment_start
add_name size t name inv = if has_suffix (codes ".partial") name then inv else record {
  timelines = add_id t inv.timelines;
  segments =
      if length name == 24 then (t, segment_start name size) ∷ inv.segments else inv.segments;
  histories = if has_suffix (codes ".history") name then t ∷ inv.histories else inv.histories;
}

unfoldable pub index_names : ℕ → List Text → Inventory → Result Inventory
unfolding wal_timeline add_name
index_names size [] inv = ok inv
index_names size (name ∷ names) inv = do
  t ← wal_timeline name size
  index_names size names (add_name size t name inv)

-- The timelines of the commits that are not retired.
unfoldable pub index_commits : List (Commit × Bool) → List ℕ → List ℕ
unfolding add_id
index_commits [] ids = ids
index_commits (e ∷ rest) ids =
    index_commits rest (if e.1 then ids else add_id (Commit.timeline e.0) ids)

-- `reflect.DeepEqual` of two paths.
unfoldable pub same_fork : Option Text → Option Text → Bool
unfolding text_eq
same_fork none none = true
same_fork (some s) (some t) = text_eq s t
same_fork _ _ = false

unfoldable pub same_path : List Timeline → List Timeline → Bool
unfolding same_fork
same_path [] [] = true
same_path (t ∷ ts) (u ∷ us) = t.id == u.id && same_fork t.fork_lsn u.fork_lsn && same_path ts us
same_path _ _ = false

abbrev pub Paths : Type 0
Paths = List (ℕ × List Timeline)

unfoldable pub find_path : ℕ → Paths → Option (List Timeline)
find_path t [] = none
find_path t (p ∷ ps) = let rest = find_path t ps in if p.0 == t then some p.1 else rest

-- The loop over the ancestors, with the path up to the present one.
unfoldable pub ancestors_ok : List ℕ → Paths → (seen rest : List Timeline) → Bool
unfolding find_path same_path any
ancestors_ok histories paths seen [] = true
ancestors_ok histories paths seen (a ∷ []) = true
ancestors_ok histories paths seen (a ∷ b ∷ rest) =
    (leb a.id 1 || has_id a.id histories)
    && (elim (find_path a.id paths) [ none ↦ true | some known ↦ same_path known (seen ++ a ∷ []) ])
    && ancestors_ok histories paths (seen ++ a ∷ []) (b ∷ rest)

unfoldable pub ancestor_ids : List Timeline → List ℕ
ancestor_ids [] = []
ancestor_ids (a ∷ []) = []
ancestor_ids (a ∷ b ∷ rest) = a.id ∷ ancestor_ids (b ∷ rest)

-- The loop over the timelines. `read` is `readHistory`.
unfoldable pub read_paths :
    Strings
    → (read : Text → Result Text) → List ℕ
    → List ℕ
    → Paths
    → List ℕ
    → Result (Paths × List ℕ)
unfolding pad_hex parse_history ancestors_ok ancestor_ids any
read_paths lib read histories [] paths ancestors = ok (paths, ancestors)
read_paths lib read histories (t ∷ ts) paths ancestors = elim (t == 1) [
  | true ↦ read_paths lib read histories ts paths ancestors
  | false ↦
      guard (has_id t histories) Error.corrupt
      >> (read (pad_hex 8 t ++ codes ".history") >>= λ b. parse_history lib t b >>= λ p.
          guard (ancestors_ok histories ((t, p) ∷ paths) [] p) Error.corrupt
          >> read_paths lib read histories ts ((t, p) ∷ paths) (ancestor_ids p ++ ancestors))
]

-- The one timeline that is no ancestor.
unfoldable pub find_leaf : List ℕ → List ℕ → ℕ → Result ℕ
unfolding any
find_leaf ancestors [] found = ok found
find_leaf ancestors (t ∷ ts) found = elim (has_id t ancestors) [
  | true ↦ find_leaf ancestors ts found
  | false ↦ elim (found == 0) [ true ↦ find_leaf ancestors ts t | false ↦ err Error.blocked ]
]
