-- ===== src/Guard/Admission/Invariant.antt =====
-- session.go: what holds of an admission gate after any run of its methods.
use cnpg_backup.Prelude.{◌≤◌, ◌<◌, Bool, true, false, ◌≡◌, ◌≢◌, refl, none, Text, arith}
use cnpg_backup.Guard.Admission.{
  Owner, Tuple, Admission, max_active, new_admission, begin, admit, task_done, close,
  bind_after_drain, start_drain,
}

pub record IsValid (a : Admission) : Type 0 where
  pub few : a.active ≤ max_active
  pub idle_before : a.started ≡ false → a.active ≡ 0
  pub bound : a.started ≡ true → a.tuple ≢ none
  pub busy : 0 < a.active → a.drained ≡ 0
  pub open_gate : a.closed ≡ false → a.drained ≡ 0
  pub drained_once : a.closed ≡ true → a.active ≡ 0 → a.drained ≡ 1

-- One method call of some goroutine; a task that ends was admitted before.
pub data Step (valid_uuid : Text → Bool) (verify : Owner → Bool) (a : Admission)
    : Admission → Type 0 where
  begins : (o : Owner) → Step valid_uuid verify a (begin valid_uuid verify o a).0
  admits : (t : Tuple) → Step valid_uuid verify a (admit t a).0
  ends : 0 < a.active → Step valid_uuid verify a (task_done a)
  closes : Step valid_uuid verify a (close a)
  binds : Step valid_uuid verify a (bind_after_drain a).0
  drains : (t : Tuple) → Step valid_uuid verify a (start_drain t a).0

pub data Reach (valid_uuid : Text → Bool) (verify : Owner → Bool) (a : Admission)
    : Admission → Type 0 where
  here : Reach valid_uuid verify a a
  next :
      {b c : Admission}
      → Reach valid_uuid verify a b
      → Step valid_uuid verify b c
      → Reach valid_uuid verify a c

module _ (valid_uuid : Text → Bool) (verify : Owner → Bool) where
  begin-IsValid : (o : Owner) (a : Admission) → IsValid a → IsValid (begin valid_uuid verify o a).0
  unfolding begin
  begin-IsValid o a v = ground arith

  admit-IsValid : (t : Tuple) (a : Admission) → IsValid a → IsValid (admit t a).0
  unfolding admit
  admit-IsValid t a v = ground arith

  done-IsValid : (a : Admission) → 0 < a.active → IsValid a → IsValid (task_done a)
  unfolding task_done
  done-IsValid a h v = ground arith

  close-IsValid : (a : Admission) → IsValid a → IsValid (close a)
  unfolding close
  close-IsValid a v = ground arith

  bind-IsValid : (a : Admission) → IsValid a → IsValid (bind_after_drain a).0
  unfolding bind_after_drain
  bind-IsValid a v = ground arith

  drain-IsValid : (t : Tuple) (a : Admission) → IsValid a → IsValid (start_drain t a).0
  unfolding start_drain
  drain-IsValid t a v = ground (arith, close-IsValid a v)

  Step-IsValid : {a b : Admission} → Step valid_uuid verify a b → IsValid a → IsValid b
  Step-IsValid {a} (begins o) v = begin-IsValid o a v
  Step-IsValid {a} (admits t) v = admit-IsValid t a v
  Step-IsValid {a} (ends h) v = done-IsValid a h v
  Step-IsValid {a} closes v = close-IsValid a v
  Step-IsValid {a} binds v = bind-IsValid a v
  Step-IsValid {a} (drains t) v = drain-IsValid t a v

  -- From a valid gate, any calls in any order lead to a valid one: at most four tasks run; no task runs
  -- before `begin`; a started gate has its session; and the drain is signalled once when the gate is
  -- closed and no task runs, and not before.
  pub Reach-IsValid : {a b : Admission} → Reach valid_uuid verify a b → IsValid a → IsValid b
  Reach-IsValid here v = v
  Reach-IsValid (next r s) v = Step-IsValid s (Reach-IsValid r v)

  closed_for_good :
      {a b : Admission}
      → Step valid_uuid verify a b
      → a.closed ≡ true
      → (b.closed ≡ true) × (b.active ≤ a.active) × (b.tuple ≡ a.tuple)
  unfolding begin admit task_done close bind_after_drain start_drain
  closed_for_good {a} (begins o) h = ground arith
  closed_for_good {a} (admits t) h = ground arith
  closed_for_good {a} (ends p) h = ground arith
  closed_for_good {a} closes h = ground arith
  closed_for_good {a} binds h = ground arith
  closed_for_good {a} (drains t) h = ground arith

  -- Whatever is called in any order, a closed gate stays closed, runs no more tasks than before and
  -- keeps its session.
  pub Reach_terminal :
      {a b : Admission}
      → Reach valid_uuid verify a b
      → a.closed ≡ true
      → (b.closed ≡ true) × (b.active ≤ a.active) × (b.tuple ≡ a.tuple)
  Reach_terminal here h = (h, omega arith, refl)
  Reach_terminal (next r s) h =
      let (p, q, t) = Reach_terminal r h in
      let (p', q', t') = closed_for_good s p in (p', omega arith, ground arith)

pub new_admission-IsValid : (c o p s : Text) → IsValid (new_admission c o p s)
unfolding new_admission
new_admission-IsValid c o p s = ground arith
