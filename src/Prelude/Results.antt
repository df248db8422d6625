-- ===== src/Prelude/Results.antt =====
-- The errors of the repository packages, and fallible results.
use mathlib.Core.Path.{◌≡◌, refl}
use mathlib.Core.Bool.{Bool, true, false}

-- The kinds of a storage error.
pub data StoreKind : Type 0 where
  invalid_input not_found head_missing precondition conflict auth tls transient : StoreKind
  canceled_io corrupt_io limit unsupported unknown local_io : StoreKind

-- Sentinel errors, those of package wal behind the shared ones, a storage error with its ambiguity,
-- and any other error. Only a storage error can be unambiguous.
pub data Error : Type 0 where
  invalid identity corrupt capacity blocked closed uncertain retired contention coverage : Error
  canceled : Error
  wal_expired wal_conflict wal_local : Error
  store : StoreKind → Bool → Error
  foreign : Error

pub data Result {ℓ} (A : Type ℓ) : Type ℓ where
  err : Error → Result A
  ok : A → Result A

-- Go on if the test holds; `reject` stops if it holds, as `if bad { return err }` does.
abbrev pub guard : Bool → Error → Result (Unit {0})
guard false failure = err failure
guard true failure = ok tt

abbrev pub reject : Bool → Error → Result (Unit {0})
reject false failure = ok tt
reject true failure = err failure

-- What follows a result that is no error.
infixl 5 ◌>>=◌ ◌>>◌
abbrev pub ◌>>=◌ {ℓ κ} : {A : Type ℓ} {B : Type κ} → Result A → (A → Result B) → Result B
err failure >>= next = err failure
ok value >>= next = next value

abbrev pub ◌>>◌ {κ} : {B : Type κ} → Result (Unit {0}) → Result B → Result B
test >> next = test >>= (λ _. next)

-- A chain that succeeds went through its first step.
pub >>=-eq-ok {ℓ κ} :
    {A : Type ℓ} {B : Type κ} (first : Result A) (next : A → Result B) {last : B}
    → first >>= next ≡ ok last
    → (value : A) × (first ≡ ok value) × (next value ≡ ok last)
>>=-eq-ok (err failure) next h = cc
>>=-eq-ok (ok value) next h = (value, refl, h)

pub reject-eq-ok :
    {A : Type 0} (t : Bool) (e : Error) (k : Result A) {b : A}
    → (reject t e >> k) ≡ ok b
    → (t ≡ false) × (k ≡ ok b)
reject-eq-ok true e k h = cc
reject-eq-ok false e k h = (refl, h)

pub guard-eq-ok :
    {A : Type 0} (t : Bool) (e : Error) (k : Result A) {b : A}
    → (guard t e >> k) ≡ ok b
    → (t ≡ true) × (k ≡ ok b)
guard-eq-ok true e k h = (refl, h)
guard-eq-ok false e k h = cc

pub ok-injective : {A : Type 0} {a b : A} → ok a ≡ ok b → a ≡ b
ok-injective h = cc

pub guard_passed : (t : Bool) (e : Error) {u : Unit {0}} → guard t e ≡ ok u → t ≡ true
guard_passed true e h = refl
guard_passed false e h = cc

-- Behind a success, a chain is what follows.
pub >>=-ok {ℓ κ} :
    {A : Type ℓ} {B : Type κ} (first : Result A) (next : A → Result B) {a : A}
    → first ≡ ok a
    → first >>= next ≡ next a
>>=-ok (err e) next h = absurd cc
>>=-ok (ok v) next h = cc
