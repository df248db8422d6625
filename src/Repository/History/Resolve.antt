-- ===== src/Repository/History/Resolve.antt =====
-- internal/repository/recovery.go: `ReadSource`, `ArchiveNames` and `Resolve`.
-- `checked` says what `h.check` answers when the source is read; `Lookups` holds the callers' functions
-- and the answers of storage.
use cnpg_backup.Prelude.{
  ℕ, ◌+◌, Bool, not, ◌&&◌, List, [], ◌∷◌, ◌++◌, none, some, Text, text_eq, codes, leb, ltb, ◌==◌,
  if◌then◌else◌, length, take, drop, Result, ok, err, Error, guard, ◌>>=◌, ◌>>◌,
}
use cnpg_backup.Repository.Names.Keys.{root, pad_hex}
use cnpg_backup.Repository.Names.Lsn.{lsn_or_zero}
use cnpg_backup.Repository.Names.Wal.{wal_timeline}
use cnpg_backup.Repository.Schema.Records.{Library, Identity, Commit}
use cnpg_backup.Repository.Gate.{Gate}
use cnpg_backup.Repository.Gate.Holds.{Hold}
use cnpg_backup.Repository.Recovery.Target.{Target, Timeline, validate_target, target_is}
use cnpg_backup.Repository.Recovery.Eligible.{choose}
use cnpg_backup.Repository.Recovery.Frozen.{Plan}
use cnpg_backup.Repository.Recovery.Select.{Source, select}
use cnpg_backup.Repository.History.{Strings}
use cnpg_backup.Repository.History.Inventory.{
  Inventory, index_names, index_commits, add_id, read_paths, find_path, find_leaf,
}
use cnpg_backup.Repository.History.Covered.{require_path, max_catalog_records}

unfoldable pub read_source {ℓ} : {A : Type ℓ} → Hold → Result (Unit {0}) → Result A → Result A
unfolding text_eq
read_source h checked answer = do
  guard (text_eq h.holder.kind (codes "restore-reader")) Error.identity
  checked
  answer

-- The callback of the listing, on one key and the number of names so far.
unfoldable pub archive_name : Identity → ℕ → Text → Result Text
unfolding text_eq wal_timeline pad_hex
archive_name id count key = do
  let prefix = root id ++ codes "wal/"
  let folder = take 8 (drop (length prefix) key)
  let name = drop (length prefix + 9) key
  guard
      (text_eq (take (length prefix) key) prefix
        && text_eq (take 1 (drop (length prefix + 8) key)) (codes "/")
        && ltb count max_catalog_records)
      Error.corrupt
  t ← elim (wal_timeline name id.wal_segment_bytes) [ err e ↦ err Error.corrupt | ok t ↦ ok t ]
  guard (text_eq folder (pad_hex 8 t)) Error.corrupt
  ok name

unfoldable pub archive_names : Identity → ℕ → List Text → Result (List Text)
unfolding archive_name
archive_names id count [] = ok []
archive_names id count (key ∷ keys) = do
  name ← archive_name id count key
  names ← archive_names id (count + 1) keys
  ok (name ∷ names)

-- `checkInput`, `readHistory` and `readParent`, and the answer of `check` while the parent is read.
pub record Lookups : Type 0 where
  pub check_input : Commit → Result (Unit {0})
  pub read_history : Text → Result Text
  pub parent : Commit → Result Commit
  pub checked : Result (Unit {0})

module _ (lib : Library) (strings : Strings) (operation : Text → Text → Result Text) (id : Identity)
    (encoded_size : Gate → ℕ) where
  -- The timelines that are known, in their order.
  unfoldable pub known_timelines : Inventory → List (Commit × Bool) → Target → List ℕ
  unfolding index_commits add_id
  known_timelines inv entries target =
      let ids = index_commits entries inv.timelines in
      if target.timeline == 0 then ids else add_id target.timeline ids

  -- The target's timeline: the one asked for, or the one leaf.
  unfoldable pub target_timeline : List ℕ → List ℕ → Target → Result ℕ
  unfolding find_leaf
  target_timeline ids ancestors target =
      if target.timeline == 0 then find_leaf ancestors ids 0 else ok target.timeline

  -- The path of the target, which the target is then set to.
  unfoldable pub target_path :
      Lookups → Inventory → List ℕ → Target → Result (Target × List Timeline)
  unfolding read_paths target_timeline find_path validate_target
  target_path look inv ids target = do
    found ←
        read_paths strings look.read_history inv.histories ids
          ((1, record { id = 1; fork_lsn = none } ∷ []) ∷ []) []
    t ← target_timeline ids found.1 target
    let set : Target = record target { timeline = t }
    path ← elim (find_path t found.0) [ none ↦ err Error.invalid | some p ↦ ok p ]
    elim (validate_target lib set) [ err e ↦ err Error.invalid | ok u ↦ ok tt ]
    ok (set, path)

  -- `checkInput` of the selected backup, and of its parent under the hold.
  unfoldable pub check_inputs : Hold → Lookups → Commit → Result (Unit {0})
  unfolding read_source text_eq
  check_inputs h look c = do
    look.check_input c
    if text_eq c.kind (codes "differential")
        then read_source h look.checked (look.parent c >>= look.check_input)
        else ok tt

  unfoldable pub resolve :
      Hold
      → (owned : Bool) → Result (List (Commit × Bool))
      → Source
      → Lookups
      → Plan
      → List Text
      → Result Plan
  unfolding index_names known_timelines target_path choose check_inputs require_path lsn_or_zero
      select text_eq
  resolve h owned catalog source look template names = do
    guard (owned && leb (length names) max_catalog_records) Error.invalid
    inv ←
        index_names id.wal_segment_bytes names
          (record { timelines = []; segments = []; histories = [] })
    entries ← catalog
    let ids = known_timelines inv entries template.target
    guard (not (length ids == 0) && leb (length ids) 1024) Error.capacity
    aimed ← target_path look inv ids template.target
    chosen ← elim (choose lib aimed.0 aimed.1 entries none) [
      | none ↦ err Error.blocked
      | some c ↦ ok c
    ]
    check_inputs h look chosen
    ranges ←
        if target_is aimed.0 (codes "immediate")
        then ok []
        else require_path (record { step = id.wal_segment_bytes; segments = inv.segments })
            chosen.timeline aimed.1 (lsn_or_zero chosen.bundled_wal_end_lsn)
    select lib operation id encoded_size h owned catalog source
        (record template { target = aimed.0; path = aimed.1; required_archive = ranges })
