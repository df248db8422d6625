-- ===== src/Guard/Admission.antt =====
-- internal/recoveryguard/session.go: the admission gate of one process incarnation.
-- Each method holds the lock throughout and is one step; the channel `drained` is a count of its
-- closings, since a second closing would panic. `verify` stands for `verifyOwner`, which reads locks.
pub mod Invariant
use cnpg_backup.Prelude.{
  ℕ, zero, suc, ◌+◌, ◌-◌, Bool, true, false, not, ◌&&◌, ◌||◌, List, [], ◌∷◌, Option, none, some,
  Text, text_eq, ltb, leb, ◌==◌, if◌then◌else◌,
}
use cnpg_backup.Repository.Names.Hex.{valid_id}

pub record Owner : Type 0 where
  pub cluster_uid : Text
  pub operation_uid : Text
  pub pod_uid : Text
  pub guard_uid : Text

pub record Tuple : Type 0 where
  pub owner : Owner
  pub sidecar_uid : Text

pub data Status : Type 0 where
  failed_precondition resource_exhausted already_bound : Status

-- `config`, `pod` and `process` do not change.
pub record Admission : Type 0 where
  pub cluster_uid : Text
  pub operation_uid : Text
  pub pod : Text
  pub process : Text
  pub tuple : Option Tuple
  pub started : Bool
  pub closed : Bool
  pub active : ℕ
  pub drained : ℕ
  pub after_drain : Bool

abbrev pub max_active : ℕ
max_active = 4

unfoldable pub same_owner : Owner → Owner → Bool
unfolding text_eq
same_owner a b =
    text_eq a.cluster_uid b.cluster_uid
    && text_eq a.operation_uid b.operation_uid
    && text_eq a.pod_uid b.pod_uid
    && text_eq a.guard_uid b.guard_uid

-- `tuple != a.tuple`, where the session's tuple is known.
unfoldable pub is_tuple : Tuple → Option Tuple → Bool
unfolding same_owner text_eq
is_tuple t none = false
is_tuple t (some u) = same_owner t.owner u.owner && text_eq t.sidecar_uid u.sidecar_uid

unfoldable pub new_admission : (cluster operation pod process : Text) → Admission
new_admission cluster operation pod process = record {
  cluster_uid = cluster;
  operation_uid = operation;
  pod = pod;
  process = process;
  tuple = none;
  started = false;
  closed = false;
  active = 0;
  drained = 0;
  after_drain = false;
}

abbrev expected_owner : Admission → Owner → Bool
expected_owner a o = same_owner o (record {
  cluster_uid = a.cluster_uid;
  operation_uid = a.operation_uid;
  pod_uid = a.pod;
  guard_uid = o.guard_uid;
})

-- `begin`; `valid_uuid` stands for the match of `uuidPattern`.
unfoldable pub begin :
    (valid_uuid : Text → Bool)
    → (verify : Owner → Bool) → Owner
    → Admission
    → Admission × Option Status
unfolding same_owner
begin valid_uuid verify o a =
    if not (valid_uuid o.guard_uid)
      || not (expected_owner a o)
      || a.started
      || a.closed
      || not (verify o)
    then (a, some failed_precondition)
    else (
      record a { started = true; tuple = some (record { owner = o; sidecar_uid = a.process }) },
      none,
    )

unfoldable pub admit : Tuple → Admission → Admission × Option Status
unfolding is_tuple
admit t a =
    if not a.started || a.closed || not (is_tuple t a.tuple)
    then (a, some failed_precondition)
    else (if leb max_active a.active
        then (a, some resource_exhausted)
        else (record a { active = a.active + 1 }, none))

-- `Task.Done` of one task, whose `once` lets it run once.
unfoldable pub task_done : Admission → Admission
task_done a =
    let left = a.active - 1 in
    record a { active = left; drained = if a.closed && left == 0 then a.drained + 1 else a.drained }

unfoldable pub close : Admission → Admission
close a =
    if a.closed
    then a
    else record a { closed = true; drained = if a.active == 0 then a.drained + 1 else a.drained }

unfoldable pub bind_after_drain : Admission → Admission × Option Status
bind_after_drain a =
    if a.started || a.closed || a.after_drain
    then (a, some already_bound)
    else (record a { after_drain = true }, none)

-- `drain` up to its wait: the test, and the closing that follows it.
unfoldable pub start_drain : Tuple → Admission → Admission × Option Status
unfolding is_tuple close
start_drain t a =
    if a.started && not a.closed && is_tuple t a.tuple
    then (close a, none)
    else (a, some failed_precondition)
