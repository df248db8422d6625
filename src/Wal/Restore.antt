-- ===== src/Wal/Restore.antt =====
-- internal/wal/wal.go: `Restore`, as the states that the directory goes through.
use cnpg_backup.Prelude.{
  Bool, ◌&&◌, ◌||◌, List, [], ◌∷◌, ◌++◌, map, Option, none, some, Text, text_eq, codes,
  if◌then◌else◌, Result, ok, err, Error, wal_local,
}
use cnpg_backup.Wal.Objects.{Codec, Files, limits}
use cnpg_backup.Wal.Retrieve.{Remote, Local, retrieve}

-- The files of the physical WAL directory, by their names.
abbrev pub Directory : Type 0
Directory = Text → Option Text

unfoldable pub set_file : Text → Option Text → Directory → Directory
unfolding text_eq
set_file name content dir other = if text_eq other name then content else dir other

abbrev pub temporary : Text
temporary = codes ".cnpg-wal-restore"

unfoldable pub destination_ok : Text → Text → Bool
unfolding text_eq
destination_ok name destination =
    text_eq destination name
    || text_eq destination (codes "RECOVERYXLOG")
    || text_eq destination (codes "RECOVERYHISTORY")

-- The answers of the file system, and the contents of the temporary file while it is written.
pub record Disk : Type 0 where
  pub opened : Bool
  pub locked : Bool
  pub reclaimed : Bool
  pub created : Bool
  pub partials : List Text
  pub closed : Bool
  pub canceled : Bool
  pub renamed : Bool
  pub removed : Bool
  pub synced : Bool

-- How a call ends, and every state of the directory behind the one it begins in, the latest first.
pub record Outcome : Type 0 where
  pub result : Result (Unit {0})
  pub visited : List Directory

abbrev fail_at : Error → List Directory → Outcome
fail_at e visited = record { result = err e; visited = visited }

-- The deferred removal of the temporary, whose error is dropped.
unfoldable pub leave : Disk → Directory → List Directory → Result (Unit {0}) → Outcome
unfolding set_file
leave disk dir visited result = record {
  result = result;
  visited = if disk.removed then set_file temporary none dir ∷ visited else visited;
}

-- Behind the close of the verified temporary.
unfoldable pub publish_file : Disk → Text → Text → Directory → List Directory → Outcome
unfolding set_file leave
publish_file disk destination content full visited =
    if disk.canceled
    then leave disk full visited (err Error.canceled)
    else (if disk.renamed
        then (let published = set_file destination (some content) (set_file temporary none full) in
            leave disk published (published ∷ visited)
              (if disk.synced then ok tt else err wal_local))
        else leave disk full visited (err wal_local))

-- Behind the creation of the temporary.
unfoldable pub fill_file :
    Codec → Files → Remote → Local → Disk → Text → Text → Directory → List Directory → Outcome
unfolding retrieve set_file leave publish_file
fill_file codec w remote reader disk name destination dir visited =
    let write : Text → Directory = λ content. set_file temporary (some content) dir in
    let writing = map write disk.partials ++ visited in
    elim (retrieve codec w remote reader name) [
      | err e ↦ leave disk dir writing (err e)
      | ok got ↦
          let full = write got.1 in
          if disk.closed
          then publish_file disk destination got.1 full (full ∷ writing)
          else leave disk full (full ∷ writing) (err wal_local)
    ]

unfoldable pub restore : Codec → Files → Remote → Local → Disk → Text → Text → Directory → Outcome
unfolding limits destination_ok set_file fill_file
restore codec w remote reader disk name destination dir = elim (limits w name) [
  | err e ↦ fail_at e []
  | ok bounds ↦
      if destination_ok name destination
      then (if disk.opened && disk.locked && disk.reclaimed
          then (let clean = set_file temporary none dir in
              if disk.created
              then fill_file codec w remote reader disk name destination
                  (set_file temporary (some []) clean)
                  (set_file temporary (some []) clean ∷ clean ∷ [])
              else fail_at wal_local (clean ∷ []))
          else fail_at wal_local [])
      else fail_at Error.invalid []
]
