-- ===== src/Retention/Planner/Samples.antt =====
-- A small archive with three backups, and what the planner decides about it.
use cnpg_backup.Prelude.{
  ℕ, ◌+◌, ◌*◌, ◌≡◌, refl, true, false, [], ◌∷◌, none, ok, codes, text_eq, text_lt, filter, find,
  any, all,
}
use cnpg_backup.Prelude.Sort.{insert, sort}
use cnpg_backup.Retention.Planner.{plan, parameters_ok, apply_hint}
use cnpg_backup.Retention.Planner.Facts.{
  Backup, Segment, Inventory, Decision, is_empty, put, is_kept, get_backup, latest_usable,
  full_parent,
}
use cnpg_backup.Retention.Planner.Paths.{
  index_paths, find_current, index_backups, check_parents, same_route,
}
use cnpg_backup.Retention.Planner.Select.{select_paths, keep_parents, expire_ids}
use cnpg_backup.Retention.Planner.Cover.{index_segments, cover_kept}

abbrev pub mib : ℕ
mib = 1048576

abbrev pub old_full : Backup
old_full = record {
  id = codes "a";
  parent = [];
  timeline = 1;
  completed = 10;
  start = 1 * mib;
  redo = 1 * mib;
  end = 1 * mib + 50;
}

abbrev pub full : Backup
full = record {
  id = codes "f";
  parent = [];
  timeline = 1;
  completed = 50;
  start = 2 * mib;
  redo = 2 * mib;
  end = 2 * mib + 70;
}

abbrev pub differential : Backup
differential = record {
  id = codes "g";
  parent = codes "f";
  timeline = 1;
  completed = 120;
  start = 3 * mib + 5;
  redo = 3 * mib;
  end = 3 * mib + 90;
}

abbrev archived : ℕ → Segment
archived n = record { timeline = 1; start = n * mib; live = true }

abbrev pub archive : Inventory
archive = record {
  backups = full ∷ old_full ∷ differential ∷ [];
  paths = (record { id = 1; fork = 0 } ∷ []) ∷ [];
  segments = archived 0 ∷ archived 1 ∷ archived 2 ∷ archived 3 ∷ archived 4 ∷ [];
  segment_bytes = mib;
}

-- What the planner computes with.
pub program : Unit {0}
unfolding plan parameters_ok apply_hint index_paths find_current index_backups check_parents
    same_route select_paths keep_parents expire_ids index_segments cover_kept is_empty put is_kept
    get_backup text_eq text_lt filter find any all insert sort
program = tt

abbrev pub archive_decision : Decision
archive_decision = record {
  keep = (codes "g", latest_usable) ∷ (codes "f", full_parent) ∷ [];
  expire = codes "a" ∷ [];
  current = 1;
  wal_floor = 2 * mib;
  shortened = false;
}

pub plan-archive : plan archive 100 1 none ≡ ok archive_decision
unfolding program
plan-archive = refl
