-- ===== src/Retention/Planner/Trace.antt =====
-- What a successful `plan` of planner.go has computed on its way.
use cnpg_backup.Prelude.{
  ℕ, true, false, ◌≡◌, ◌==◌, List, [], Option, ok, coverage, >>=-eq-ok, guard-eq-ok, reject-eq-ok,
  ok-injective, sym, length,
}
use cnpg_backup.Retention.Planner.{plan, parameters_ok, apply_hint}
use cnpg_backup.Retention.Planner.Facts.{Backup, Inventory, Hint, Decision, Keep}
use cnpg_backup.Retention.Planner.Paths.{
  PathMap, index_paths, find_current, index_backups, check_parents,
}
use cnpg_backup.Retention.Planner.Select.{Chosen, select_paths, no_keep, keep_parents, expire_ids}
use cnpg_backup.Retention.Planner.Cover.{
  Segments, Site, index_segments, no_segments, cover_kept, u64_max,
}

module _ (inv : Inventory) (cutoff minimum : ℕ) where
  abbrev pub chosen : Chosen
  chosen = select_paths inv.backups cutoff minimum inv.paths no_keep

  abbrev pub final_keep : List Backup → Keep
  final_keep by_id = keep_parents by_id chosen.keep

  abbrev pub site_of : List Backup → Segments → ℕ → Site
  site_of by_id segments current = record {
    segments = segments;
    step = inv.segment_bytes;
    current = current;
    by_id = by_id;
    paths = inv.paths;
    total = length inv.segments;
  }

  pub record Trace (hint : Option Hint) (d : Decision) : Type 0 where
    pub paths : PathMap
    pub ancestors : List ℕ
    pub current : ℕ
    pub by_id : List Backup
    pub segments : Segments
    pub floor : ℕ
    pub parameters : parameters_ok inv cutoff minimum ≡ true
    pub indexed : index_paths inv.paths [] [] ≡ ok (paths, ancestors)
    pub found : find_current paths ancestors paths 0 ≡ ok current
    pub backups : index_backups paths inv.backups [] ≡ ok by_id
    pub parents : check_parents by_id inv.backups ≡ true
    pub archived : index_segments paths inv.segment_bytes inv.segments no_segments ≡ ok segments
    pub covered : cover_kept (site_of by_id segments current) (final_keep by_id) u64_max ≡ ok floor
    pub bounded : (floor == u64_max) ≡ false
    pub keep : d.keep ≡ final_keep by_id
    pub expire : d.expire ≡ expire_ids by_id (final_keep by_id) inv.backups
    pub on : d.current ≡ current
    pub wal_floor : d.wal_floor ≡ apply_hint inv.segment_bytes current floor hint
    pub shortened : d.shortened ≡ chosen.shortened

  pub plan-trace :
      (hint : Option Hint) {d : Decision} → plan inv cutoff minimum hint ≡ ok d → Trace hint d
  unfolding plan
  plan-trace hint h =
      let (parameters, h1) = guard-eq-ok _ coverage _ h in
      let (indexed, e1, h2) = >>=-eq-ok _ _ h1 in
      let (current, e2, h3) = >>=-eq-ok _ _ h2 in
      let (by_id, e3, h4) = >>=-eq-ok _ _ h3 in
      let (parents, h5) = guard-eq-ok _ coverage _ h4 in
      let (segments, e4, h6) = >>=-eq-ok _ _ h5 in
      let (floor, e5, h7) = >>=-eq-ok _ _ h6 in
      let (bounded, h8) = reject-eq-ok _ coverage _ h7 in
      let e = ok-injective h8 in
      record {
        paths = indexed.0;
        ancestors = indexed.1;
        current = current;
        by_id = by_id;
        segments = segments;
        floor = floor;
        parameters = parameters;
        indexed = e1;
        found = e2;
        backups = e3;
        parents = parents;
        archived = e4;
        covered = e5;
        bounded = bounded;
        keep = λ i. (sym e i).keep;
        expire = λ i. (sym e i).expire;
        on = λ i. (sym e i).current;
        wal_floor = λ i. (sym e i).wal_floor;
        shortened = λ i. (sym e i).shortened;
      }
