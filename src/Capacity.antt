-- ===== src/Capacity.antt =====
-- internal/configuration/capacity.go: finite filesystems and their budgets.
-- `Statfs` is what the kernel answers; its counts are unsigned 64-bit numbers, and a block size,
-- which the kernel's type signs, is one of 63 bits (the code refuses the others).
pub mod Bounds
use cnpg_backup.Prelude.{
  ℕ, ◌+◌, ◌-◌, ◌*◌, ◌/◌, ◌^◌, Bool, true, false, not, ◌&&◌, ◌||◌, List, [], ◌∷◌, Option, none, some,
  Text, text_eq, codes, ltb, leb, ◌==◌, if◌then◌else◌, length, filter, take, any, Result, ok, err,
  Error, guard, reject, ◌>>=◌, ◌>>◌, max,
}

abbrev pub gib : ℕ
gib = 2 ^ 30

pub record FilesystemBudget : Type 0 where
  pub mount : Text
  pub limit_bytes : ℕ
  pub required_bytes : ℕ

pub record MountRecord : Type 0 where
  pub device : Text
  pub root : Text
  pub path : Text
  pub fs : Text
  pub read_only : Bool

pub record Statfs : Type 0 where
  pub block_size : ℕ
  pub blocks : ℕ
  pub available : ℕ

unfoldable pub mounts_at : Text → List MountRecord → List MountRecord
unfolding filter text_eq
mounts_at path inventory = filter (λ m. text_eq m.path path) inventory

unfoldable pub is_dedicated : MountRecord → Bool
unfolding text_eq
is_dedicated m =
    text_eq m.root (codes "/")
    && (text_eq m.fs (codes "ext4") || text_eq m.fs (codes "xfs"))
    && not m.read_only
    && not (text_eq (take 2 m.device) (codes "0:"))

-- The one mount of that path, if it is a finite writable filesystem of its own.
unfoldable pub finite_mount : List MountRecord → Text → Result MountRecord
unfolding mounts_at is_dedicated
finite_mount inventory path = elim (mounts_at path inventory) [
  | [] ↦ err Error.foreign
  | m ∷ ms ↦ if length ms == 0 && is_dedicated m then ok m else err Error.foreign
]

unfoldable pub budget_ok : FilesystemBudget → Statfs → Bool
budget_ok b st =
    not (b.limit_bytes == 0)
    && leb b.limit_bytes (8192 * gib)
    && leb b.required_bytes b.limit_bytes
    && not (st.block_size == 0)
    && leb st.blocks (b.limit_bytes / st.block_size)

-- `uint64((b.RequiredBytes+st.Bsize-1)/st.Bsize)`: the sum wraps in 64 bits with a sign, and a negative
-- quotient is cut off towards 0 before the conversion.
unfoldable pub blocks_needed : (required size : ℕ) → ℕ
blocks_needed required size =
    let sum = required + size - 1 in
    let below = (2 ^ 64 - sum) / size in
    if ltb sum (2 ^ 63) then sum / size else (if below == 0 then 0 else 2 ^ 64 - below)

unfoldable pub space_ok : FilesystemBudget → Statfs → Bool
unfolding blocks_needed
space_ok b st =
    leb st.available st.blocks && leb (blocks_needed b.required_bytes st.block_size) st.available

unfoldable pub check_space : FilesystemBudget → Statfs → Result (Unit {0})
unfolding budget_ok space_ok
check_space b st = do guard (budget_ok b st) Error.foreign; guard (space_ok b st) Error.foreign

unfoldable pub capacity_margin : ℕ → ℕ
capacity_margin bytes = max gib ((bytes + 9) / 10)

unfoldable pub capture_capacity : (max_backup max_wal : ℕ) → Result ℕ
unfolding capacity_margin
capture_capacity max_backup max_wal = do
  guard
      (leb 1 max_backup
        && leb max_backup (1024 * gib)
        && leb 1 max_wal
        && leb max_wal (256 * gib)
        && leb max_wal max_backup)
      Error.foreign
  let spool = max_backup + max gib ((max_backup + 99) / 100)
  let peak = max_backup + spool + max_wal + 8192 * 100000
  ok (peak + capacity_margin peak)

-- The loop of `CheckCapacity`, with the devices seen and the kernel's answer for each mount.
unfoldable pub check_budgets :
    List MountRecord → (Text → Statfs) → List FilesystemBudget → List Text → Result (Unit {0})
unfolding finite_mount check_space any text_eq
check_budgets inventory stat [] seen = ok tt
check_budgets inventory stat (b ∷ bs) seen = do
  mount ← finite_mount inventory b.mount
  reject (any (text_eq mount.device) seen) Error.foreign
  check_space b (stat b.mount)
  check_budgets inventory stat bs (mount.device ∷ seen)
