-- ===== src/Capacity/Bounds.antt =====
-- capacity.go: what the accepted budgets guarantee.
use native.Mathlib.Nat.{add-mul, le-div_iff_mul-le, div-lt_iff_lt-mul, mul-le-mul_right}
use cnpg_backup.Prelude.{
  ℕ, ◌+◌, ◌-◌, ◌*◌, ◌/◌, ◌^◌, ◌≤◌, ◌<◌, Bool, true, false, ◌≡◌, refl, ok, Error, guard, guard-eq-ok,
  arith, max, lt→ltb, ok-injective,
}
use cnpg_backup.Capacity.{
  FilesystemBudget, Statfs, gib, budget_ok, space_ok, check_space, blocks_needed, capacity_margin,
  capture_capacity,
}

-- Where a block is of at most 2^62 bytes, an accepted filesystem has at least the required bytes free,
-- and no more than its limit in all.
pub check_space_bounds :
    (b : FilesystemBudget) (st : Statfs)
    → st.block_size ≤ 2 ^ 62
    → check_space b st ≡ ok tt
    → (b.required_bytes ≤ st.available * st.block_size)
      × (st.available * st.block_size ≤ st.blocks * st.block_size)
      × (st.blocks * st.block_size ≤ b.limit_bytes)
unfolding check_space budget_ok space_ok
check_space_bounds b st sized h =
    let (fits, h1) = guard-eq-ok (budget_ok b st) Error.foreign _ h in
    let space : space_ok b st ≡ true = guard_holds (space_ok b st) h1 in
    let positive : 0 < st.block_size = ground arith in
    let few : st.blocks ≤ b.limit_bytes / st.block_size = ground arith in
    let free : st.available ≤ st.blocks = ground arith in
    let modest : b.required_bytes ≤ 8192 * gib = ground arith in
    let needed : blocks_needed b.required_bytes st.block_size ≤ st.available = ground arith in
    let enough =
      no_wrap b.required_bytes st.block_size st.available (omega (arith, modest, sized)) needed in
    let below = (div-lt_iff_lt-mul positive).0 enough in
    (
      round_up b.required_bytes st.available st.block_size positive below,
      mul-le-mul_right st.block_size free,
      (le-div_iff_mul-le positive).0 few,
    )
  where
    guard_holds : (t : Bool) → guard t Error.foreign ≡ ok tt → t ≡ true
    guard_holds true k = refl
    guard_holds false k = cc k

    no_wrap : (r k n : ℕ) → r + k - 1 < 2 ^ 63 → blocks_needed r k ≤ n → (r + k - 1) / k < n + 1
    no_wrap r k n small h =
        let e = lt→ltb (r + k - 1) (2 ^ 63) small in
        let q = rw (blocks_needed, e) at h in omega (arith, q)

    round_up : (r a k : ℕ) → 0 < k → r + k - 1 < (a + 1) * k → r ≤ a * k
    round_up r a k p q = let e = add-mul a 1 k in omega (arith, e)

-- The capacity of a capture is at least the raw backup, its compressed copy and the bootstrap WAL, with
-- a tenth to spare, and fits a signed 64-bit number.
pub capture_capacity_bounds :
    (a w : ℕ) {r : ℕ}
    → capture_capacity a w ≡ ok r
    → (a + a + w + (a + a + w) / 10 ≤ r) × (r < 2 ^ 63)
unfolding capture_capacity capacity_margin
capture_capacity_bounds a w {r} h =
    let (fits, h1) = guard-eq-ok _ Error.foreign _ h in
    let e = ok-injective h1 in
    let big : a ≤ 1024 * gib = ground arith in
    let small : w ≤ 256 * gib = ground arith in
    let raw = a + a + w in
    let spool = a + max gib ((a + 99) / 100) in
    let peak = a + spool + w + 8192 * 100000 in
    let value : peak + max gib ((peak + 9) / 10) ≡ r = e in
    let above : raw ≤ peak = omega arith in
    let below : peak ≤ 4096 * gib = omega arith in
    (omega (arith, value, above), omega (arith, value, below))
