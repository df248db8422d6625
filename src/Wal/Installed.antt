-- ===== src/Wal/Installed.antt =====
-- internal/wal/wal.go: `Restore` on a disk where nothing fails.
use cnpg_backup.Prelude.{
  true, false, ◌≡◌, refl, List, [], ◌∷◌, none, some, Text, text_eq, text_eq_refl, ok,
}
use cnpg_backup.Wal.Objects.{Codec, Files, Integrity}
use cnpg_backup.Wal.Retrieve.{Remote, Local, retrieve}
use cnpg_backup.Wal.Restore.{
  Directory, set_file, temporary, destination_ok, Disk, Outcome, leave, publish_file, fill_file,
  restore,
}
use cnpg_backup.Wal.Verified.{retrieve-IsRetrieved}
use cnpg_backup.Wal.Atomic.{destination_apart}

-- A disk on which nothing fails, whatever it shows while the file is written.
abbrev pub sound_disk : List Text → Disk
sound_disk partials = record {
  opened = true;
  locked = true;
  reclaimed = true;
  created = true;
  partials = partials;
  closed = true;
  canceled = false;
  renamed = true;
  removed = true;
  synced = true;
}

-- The directory at the end of a call that begins in `dir`.
unfoldable pub latest : Directory → Outcome → Directory
latest dir o = elim o.visited [ [] ↦ dir | now ∷ earlier ↦ now ]

-- The call returned without an error, the file is in place, and no temporary is left.
pub IsInstalled : Text → Text → Directory → Outcome → Type 0
IsInstalled destination content dir o =
    (o.result ≡ ok tt) × (latest dir o destination ≡ some content) × (latest dir o temporary ≡ none)

publish_installs :
    (partials : List Text) (destination content : Text) (dir full : Directory)
    (visited : List Directory)
    → text_eq destination temporary ≡ false
    → IsInstalled destination content dir
        (publish_file (sound_disk partials) destination content full visited)
unfolding IsInstalled publish_file leave latest set_file
publish_installs partials destination content dir full visited apart =
    (refl, rw (apart, text_eq_refl destination) refl, refl)

fill_installs :
    (codec : Codec) (w : Files) (remote : Remote) (reader : Local) (partials : List Text)
    (name destination : Text) (dir now : Directory) (visited : List Directory) (raw : Integrity)
    (content : Text)
    → retrieve codec w remote reader name ≡ ok (raw, content)
    → text_eq destination temporary ≡ false
    → IsInstalled destination content dir
        (fill_file codec w remote reader (sound_disk partials) name destination now visited)
unfolding fill_file
fill_installs codec w remote reader partials name destination dir now visited raw content h apart =
    rw (h, fill_file) (publish_installs partials destination content dir _ _ apart)

-- On a disk where nothing fails, a file that can be retrieved and whose destination is allowed is put in
-- place under that name, whatever stood there, without an error and with no temporary left.
pub restore-IsInstalled :
    (codec : Codec) (w : Files) (remote : Remote) (reader : Local) (partials : List Text)
    (name destination : Text) (dir : Directory) (raw : Integrity) (content : Text)
    → retrieve codec w remote reader name ≡ ok (raw, content)
    → destination_ok name destination ≡ true
    → IsInstalled destination content dir
        (restore codec w remote reader (sound_disk partials) name destination dir)
unfolding restore
restore-IsInstalled codec w remote reader partials name destination dir raw content h k =
    let v = retrieve-IsRetrieved codec w remote reader name raw content h in
    let apart = destination_apart w name destination v.bounded k in
    rw (v.bounded, k, restore)
      (fill_installs codec w remote reader partials name destination dir _ _ raw content h apart)
