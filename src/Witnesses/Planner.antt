-- ===== src/Witnesses/Planner.antt =====
-- retention/planner.go on the archive of the samples: three backups on one timeline.
use cnpg_backup.Prelude.{true, false, ◌≡◌, ◌≤◌, refl, [], ◌∷◌, Memᴰ, none, arith, text_eq, filter}
use cnpg_backup.Retention.Planner.Facts.{Backup, is_kept, is_empty}
use cnpg_backup.Retention.Planner.Paths.{Route}
use cnpg_backup.Retention.Planner.Select.{reachable}
use cnpg_backup.Retention.Planner.Cover.{from_own}
use cnpg_backup.Retention.Planner.Samples.{
  archive, full, old_full, differential, archive_decision, plan-archive,
}
use cnpg_backup.Retention.Planner.Keeping.{
  plan-keeps_window, plan-keeps_roots, plan-keeps_anchor, plan-keeps_latest, plan-keeps_parents,
  IsUsable, IsNewest,
}
use cnpg_backup.Retention.Planner.Expiry.{plan-expire, plan-ChildrenFirst, ChildrenFirst}
use cnpg_backup.Retention.Planner.Continuity.{Continuous}
use cnpg_backup.Retention.Planner.Coverage.{
  needed_from, plan-Continuous, plan-FloorBelow, FloorBelow,
}

abbrev main : Route
main = record { id = 1; fork = 0 } ∷ []

in_paths : Memᴰ main archive.paths
in_paths = Memᴰ.head refl

full_known : Memᴰ full archive.backups
full_known = Memᴰ.head refl

differential_known : Memᴰ differential archive.backups
differential_known = Memᴰ.tail (Memᴰ.tail (Memᴰ.head refl))

differential_reaches : reachable differential main ≡ true
unfolding reachable
differential_reaches = refl

full_reaches : reachable full main ≡ true
unfolding reachable
full_reaches = refl

differential_kept : is_kept differential.id archive_decision.keep ≡ true
unfolding is_kept text_eq
differential_kept = refl

full_kept : is_kept full.id archive_decision.keep ≡ true
unfolding is_kept text_eq
full_kept = refl

has_parent : is_empty differential.parent ≡ false
unfolding is_empty
has_parent = refl

full-IsUsable : IsUsable archive main full
full-IsUsable = (full_known, full_reaches)

full_is_full : is_empty full.parent ≡ true
unfolding is_empty
full_is_full = refl

plan-keeps_parents_example : is_kept differential.parent archive_decision.keep ≡ true
plan-keeps_parents_example =
    plan-keeps_parents archive 100 1 none plan-archive differential differential_known
      differential_kept has_parent

plan-keeps_window_example : is_kept differential.id archive_decision.keep ≡ true
plan-keeps_window_example =
    plan-keeps_window archive 100 1 none plan-archive main differential in_paths differential_known
      differential_reaches (omega arith)

plan-keeps_roots_example : is_kept full.id archive_decision.keep ≡ true
unfolding filter is_empty reachable
plan-keeps_roots_example =
    plan-keeps_roots archive 100 1 none plan-archive main full in_paths full_known full_reaches
      full_is_full (omega arith)

plan-keeps_anchor_example :
    (y : Backup) × IsNewest (λ x. IsUsable archive main x × (x.completed ≤ 100)) y
    × (is_kept y.id archive_decision.keep ≡ true)
plan-keeps_anchor_example =
    plan-keeps_anchor archive 100 1 none plan-archive main full in_paths full-IsUsable (omega arith)

plan-keeps_latest_example :
    (y : Backup) × IsNewest (IsUsable archive main) y × (is_kept y.id archive_decision.keep ≡ true)
plan-keeps_latest_example =
    plan-keeps_latest archive 100 1 none plan-archive main full in_paths full-IsUsable

plan-ChildrenFirst_example : ChildrenFirst archive.backups archive_decision.expire
plan-ChildrenFirst_example = plan-ChildrenFirst archive 100 1 none plan-archive

plan-Continuous_example :
    Continuous archive.segments archive.segment_bytes full.end (from_own full main)
plan-Continuous_example =
    plan-Continuous archive 100 1 none plan-archive full main full_known in_paths full_reaches
      full_kept

plan-FloorBelow_example :
    FloorBelow archive_decision.current archive_decision.wal_floor archive.segment_bytes
      (needed_from full)
      (from_own full main)
plan-FloorBelow_example =
    plan-FloorBelow archive 100 1 none plan-archive full main full_known in_paths full_reaches
      full_kept

old_full_known : Memᴰ old_full archive.backups
old_full_known = Memᴰ.tail (Memᴰ.head refl)

old_full_lost : is_kept old_full.id archive_decision.keep ≡ false
unfolding is_kept text_eq
old_full_lost = refl

plan-expire_example : Memᴰ old_full.id archive_decision.expire
plan-expire_example =
    ((plan-expire archive 100 1 none plan-archive).0 old_full old_full_known).1 old_full_lost
