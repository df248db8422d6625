-- ===== src/Retention/Planner/Facts.antt =====
-- planner.go: the compact catalog facts and the decision.
use cnpg_backup.Prelude.{
  ℕ, Bool, true, false, List, [], ◌∷◌, Option, none, some, Text, text_eq, if◌then◌else◌, find,
}

pub record Backup : Type 0 where
  pub id : Text
  pub parent : Text
  pub timeline : ℕ
  pub completed : ℕ
  pub start : ℕ
  pub redo : ℕ
  pub end : ℕ

pub record Timeline : Type 0 where
  pub id : ℕ
  pub fork : ℕ

pub record Segment : Type 0 where
  pub timeline : ℕ
  pub start : ℕ
  pub live : Bool

pub record Inventory : Type 0 where
  pub backups : List Backup
  pub paths : List (List Timeline)
  pub segments : List Segment
  pub segment_bytes : ℕ

pub record Hint : Type 0 where
  pub timeline : ℕ
  pub start : ℕ

-- The texts that `Keep` gives as the reason for a backup; none of them is empty.
pub data Reason : Type 0 where
  inside_window window_anchor minimum_root latest_usable earliest_usable full_parent : Reason

-- `map[string]string`: each identifier stands in the list once.
abbrev pub Keep : Type 0
Keep = List (Text × Reason)

pub record Decision : Type 0 where
  pub keep : Keep
  pub expire : List Text
  pub current : ℕ
  pub wal_floor : ℕ
  pub shortened : Bool

unfoldable pub is_empty {ℓ} : {A : Type ℓ} → List A → Bool
is_empty [] = true
is_empty (x ∷ xs) = false

-- `keep[id] = reason`.
unfoldable pub put : Text → Reason → Keep → Keep
put id r [] = (id, r) ∷ []
put id r ((i, q) ∷ m) = let rest = put id r m in if text_eq i id then (i, r) ∷ m else (i, q) ∷ rest

-- `keep[id] != ""`.
unfoldable pub is_kept : Text → Keep → Bool
is_kept id [] = false
is_kept id ((i, q) ∷ m) = let rest = is_kept id m in if text_eq i id then true else rest

abbrev pub zero_backup : Backup
zero_backup = record {
  id = [];
  parent = [];
  timeline = 0;
  completed = 0;
  start = 0;
  redo = 0;
  end = 0;
}

unfoldable pub find_backup : Text → List Backup → Option Backup
unfolding find
find_backup id m = find (λ b. text_eq b.id id) m

-- `byID[id]`, which is the zero value where the key is missing.
unfoldable pub get_backup : Text → List Backup → Backup
unfolding find_backup
get_backup id m = elim (find_backup id m) [ none ↦ zero_backup | some b ↦ b ]
