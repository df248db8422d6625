-- ===== src/Witnesses/Batches.antt =====
-- retention/run.go on what the planner decides about the archive of the samples.
use cnpg_backup.Prelude.{
  ap, sym, none, some, Memᴰ, false, ◌*◌, true, ◌≡◌, refl, List, [], ◌∷◌, Text, codes,
}
use cnpg_backup.Retention.Planner.Facts.{Segment}
use cnpg_backup.Retention.Planner.Samples.{
  mib, archive, full, differential, archive_decision, plan-archive,
}
use cnpg_backup.Retention.Batch.{
  WalObject, batch, batch-IsBatch, IsBatch, fill, fill_wal, is_obsolete, retire_backup_victim,
  retire_wal_victim,
}
use cnpg_backup.Repository.Gc.{Entry}
use cnpg_backup.Repository.Gc.Order.{Ordered}
use cnpg_backup.Retention.Batch.Order.{Catalogued, RetiresNone, batch-Ordered}

abbrev hashes : Text → Text
hashes id = id

abbrev first_segment : Segment
first_segment = record { timeline = 1; start = 0; live = true }

abbrev floor_segment : Segment
floor_segment = record { timeline = 1; start = 2 * mib; live = true }

abbrev object : WalObject
object = record {
  name = codes "000000010000000000000000";
  etag = codes "e";
  sha256 = codes "h";
  raw_bytes = mib;
  retired = false;
}

abbrev segments : List (Segment × WalObject)
segments = (first_segment, object) ∷ (floor_segment, object) ∷ []

-- The expired backup goes first, then the one segment below the floor.
batch_test :
    batch hashes archive_decision [] segments
    ≡ retire_backup_victim hashes (codes "a") ∷ retire_wal_victim object ∷ []
unfolding batch fill fill_wal is_obsolete
batch_test = refl

batch-IsBatch_example :
    IsBatch hashes archive_decision segments (batch hashes archive_decision [] segments)
batch-IsBatch_example = batch-IsBatch hashes archive_decision [] segments

abbrev live_entry : Entry
live_entry = record {
  backup_uid = differential.id;
  parent_backup_uid = some full.id;
  retired = false;
}

catalogued : Catalogued (live_entry ∷ []) archive.backups
unfolding Catalogued
catalogued e uid (Memᴰ.head same) live child = (
  differential,
  Memᴰ.tail (Memᴰ.tail (Memᴰ.head refl)),
  sym (ap (λ (x : Entry). x.backup_uid) same),
  cc (ap (λ (x : Entry). x.parent_backup_uid) same, child),
)
catalogued e uid (Memᴰ.tail m) live child = elim m [ ]

harmless : RetiresNone []
unfolding RetiresNone
harmless v m = elim m [ ]

batch-Ordered_example :
    Ordered (live_entry ∷ []) [] false (batch hashes archive_decision [] segments)
batch-Ordered_example =
    batch-Ordered archive 100 1 none plan-archive (live_entry ∷ []) catalogued hashes [] segments
      harmless
