-- ===== src/Witnesses/Guards.antt =====
-- recoveryguard/session.go and configuration/capacity.go on concrete runs.
use cnpg_backup.Prelude.{
  ◌+◌, ◌-◌, ◌*◌, ◌/◌, ◌^◌, ◌≤◌, ◌<◌, Bool, true, ◌≡◌, refl, [], Text, text_eq, codes, arith, ok,
}
use cnpg_backup.Guard.Admission.{
  Owner, Tuple, Admission, new_admission, begin, admit, task_done, close, start_drain, same_owner,
  is_tuple,
}
use cnpg_backup.Guard.Admission.Invariant.{
  IsValid, Reach, here, next, begins, admits, ends, drains, Reach-IsValid, Reach_terminal,
  new_admission-IsValid,
}
use cnpg_backup.Capacity.{
  FilesystemBudget, Statfs, gib, check_space, budget_ok, space_ok, blocks_needed, capture_capacity,
  capacity_margin,
}
use cnpg_backup.Capacity.Bounds.{check_space_bounds, capture_capacity_bounds}

abbrev any_uuid : Text → Bool
any_uuid t = true

abbrev established : Owner → Bool
established o = true

abbrev owner : Owner
owner = record {
  cluster_uid = codes "c";
  operation_uid = codes "o";
  pod_uid = codes "p";
  guard_uid = codes "g";
}

abbrev session : Tuple
session = record { owner = owner; sidecar_uid = codes "s" }

abbrev fresh : Admission
fresh = new_admission (codes "c") (codes "o") (codes "p") (codes "s")

abbrev begun : Admission
begun = (begin any_uuid established owner fresh).0

abbrev admitted : Admission
admitted = (admit session begun).0

abbrev draining : Admission
draining = (start_drain session admitted).0

abbrev drained : Admission
drained = task_done draining

busy : 0 < draining.active
unfolding new_admission begin admit start_drain close same_owner is_tuple text_eq
busy = omega arith

fresh-IsValid : IsValid fresh
fresh-IsValid = new_admission-IsValid (codes "c") (codes "o") (codes "p") (codes "s")

-- One task runs, the session drains, the task ends: the gate is closed and drained once.
drained_test : (drained.closed ≡ true) × (drained.active ≡ 0) × (drained.drained ≡ 1)
unfolding new_admission begin admit start_drain close task_done same_owner is_tuple text_eq
drained_test = (refl, refl, refl)

run : Reach any_uuid established fresh drained
run = next (next (next (next here (begins owner)) (admits session)) (drains session)) (ends busy)

draining_closed : draining.closed ≡ true
unfolding new_admission begin admit start_drain close same_owner is_tuple text_eq
draining_closed = refl

Reach-IsValid_example : IsValid drained
Reach-IsValid_example = Reach-IsValid any_uuid established run fresh-IsValid

Reach_terminal_example :
    (drained.closed ≡ true) × (drained.active ≤ draining.active) × (drained.tuple ≡ draining.tuple)
Reach_terminal_example = Reach_terminal any_uuid established (next here (ends busy)) draining_closed

abbrev budget : FilesystemBudget
budget = record { mount = codes "/data"; limit_bytes = 10 * gib; required_bytes = 3 * gib }

abbrev space : Statfs
space = record { block_size = 4096; blocks = 2000000; available = 900000 }

accepted : check_space budget space ≡ ok tt
unfolding check_space budget_ok space_ok blocks_needed
accepted = refl

check_space_bounds_example :
    (budget.required_bytes ≤ space.available * space.block_size)
    × (space.available * space.block_size ≤ space.blocks * space.block_size)
    × (space.blocks * space.block_size ≤ budget.limit_bytes)
check_space_bounds_example = check_space_bounds budget space (omega arith) accepted

-- The sum wraps below zero at such a block size, and no free block is demanded.
wrapped :
    check_space
      (record { mount = []; limit_bytes = 8; required_bytes = 5 })
      (record { block_size = 2 ^ 63 - 1; blocks = 0; available = 0 })
    ≡ ok tt
unfolding check_space budget_ok space_ok blocks_needed
wrapped = refl

captured : capture_capacity (100 * gib) (10 * gib) ≡ ok 250116597351
unfolding capture_capacity capacity_margin
captured = refl

capture_capacity_bounds_example :
    (100 * gib + 100 * gib + 10 * gib + (100 * gib + 100 * gib + 10 * gib) / 10 ≤ 250116597351)
    × (250116597351 < 2 ^ 63)
capture_capacity_bounds_example = capture_capacity_bounds (100 * gib) (10 * gib) captured
