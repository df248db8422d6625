-- ===== src/Repository/Publication/Acts.antt =====
-- internal/repository/publication.go: the calls of the object store, in their order.
-- The store, the disk and the clock answer each call as a function of all calls before it, so other
-- processes and failures are among what they may show.
use cnpg_backup.Prelude.{
  ℕ, Bool, true, ◌≡◌, refl, ap, List, ◌∷◌, Option, none, some, Text, Result, ok, err, Error,
  if◌then◌else◌,
}
use cnpg_backup.Repository.Gate.{Round, ambiguous}
use cnpg_backup.Repository.Publication.Files.{File}

pub data Call : Type 0 where
  read_object : (key : Text) → Call
  put_object : (key content : Text) → Call
  upload_object : (key : Text) → Call
  download_object : (key : Text) → (size : ℕ) → (hash : Text) → Call
  final_check : Call

-- An object's bytes and the time it was published at.
pub record Object : Type 0 where
  pub content : Text
  pub modified : ℕ

-- The answers, by the calls so far, the latest first. `put` and `upload` answer with their error.
pub record World : Type 0 where
  pub read : List Call → Text → Result Object
  pub put : List Call → Text → Text → Option Error
  pub upload : List Call → Text → Option Error
  pub download : List Call → Text → ℕ → Text → Result File
  pub check : List Call → Option Error
  pub has_temp : List Call → Bool
  pub canceled : List Call → Bool
  pub gate : List Call → Round

-- The calls so far, the flag `uncertain` of the hold, and the flag `used` of the attempt.
pub record State : Type 0 where
  pub calls : List Call
  pub uncertain : Bool
  pub used : Bool

abbrev pub Act {ℓ} : Type ℓ → Type ℓ
Act A = State → Result A × State

unfoldable pub continue {ℓ κ} :
    {A : Type ℓ} {B : Type κ} → Result A → State → (A → Act B) → Result B × State
continue (err e) s next = (err e, s)
continue (ok a) s next = next a s

infixl 5 ◌>>=◌ ◌>>◌
unfoldable pub ◌>>=◌ {ℓ κ} : {A : Type ℓ} {B : Type κ} → Act A → (A → Act B) → Act B
unfolding continue
(act >>= next) s = continue (act s).0 (act s).1 next

abbrev pub ◌>>◌ {κ} : {B : Type κ} → Act (Unit {0}) → Act B → Act B
act >> next = act >>= (λ _. next)

-- A result that needs no call.
unfoldable pub lift {ℓ} : {A : Type ℓ} → Result A → Act A
lift r s = (r, s)

-- The result of an act as a value, for code that goes on behind an error.
unfoldable pub try_act {ℓ} : {A : Type ℓ} → Act A → Act (Result A)
try_act act s = (ok (act s).0, (act s).1)

unfoldable pub record_call : Call → State → State
record_call c s = record s { calls = c ∷ s.calls }

-- `if ambiguous(e) { h.uncertain = true }`.
unfoldable pub mark : Option Error → Act (Unit {0})
unfolding ambiguous
mark none s = (ok tt, s)
mark (some e) s = (ok tt, if ambiguous e then record s { uncertain = true } else s)

unfoldable pub answer_of : Option Error → Result (Unit {0})
answer_of none = ok tt
answer_of (some e) = err e

module _ (world : World) where
  unfoldable pub read_key : Text → Act Object
  unfolding record_call
  read_key key s = (world.read s.calls key, record_call (read_object key) s)

  -- The error of the write is a value: the code goes on behind it.
  unfoldable pub put_key : Text → Text → Act (Option Error)
  unfolding record_call
  put_key key content s =
      (ok (world.put s.calls key content), record_call (put_object key content) s)

  unfoldable pub upload_key : Text → Act (Option Error)
  unfolding record_call
  upload_key key s = (ok (world.upload s.calls key), record_call (upload_object key) s)

  unfoldable pub download_key : Text → ℕ → Text → Act File
  unfolding record_call
  download_key key size hash s =
      (world.download s.calls key size hash, record_call (download_object key size hash) s)

  -- The source continuity check of the native caller, if there is one.
  unfoldable pub run_check : Bool → Act (Unit {0})
  unfolding record_call answer_of
  run_check given s =
      if given then (answer_of (world.check s.calls), record_call final_check s) else (ok tt, s)

  -- `ctx.Err()`.
  unfoldable pub check_canceled : Act (Unit {0})
  check_canceled s = (if world.canceled s.calls then err Error.canceled else ok tt, s)

  unfoldable pub make_temp : Act (Unit {0})
  make_temp s = (if world.has_temp s.calls then ok tt else err Error.foreign, s)

continue-eq-ok {ℓ κ} :
    {A : Type ℓ} {B : Type κ} (r : Result A) (s : State) (next : A → Act B) {b : B} {t : State}
    → continue r s next ≡ (ok b, t)
    → (a : A) × (r ≡ ok a) × (next a s ≡ (ok b, t))
unfolding continue
continue-eq-ok (err e) s next h = absurd cc
continue-eq-ok (ok a) s next h = (a, refl, h)

-- A chain of acts that succeeds went through its first act.
pub >>=-eq-ok {ℓ κ} :
    {A : Type ℓ} {B : Type κ} (act : Act A) (next : A → Act B) (s : State) {b : B} {t : State}
    → (act >>= next) s ≡ (ok b, t)
    → (a : A) × (m : State) × (act s ≡ (ok a, m)) × (next a m ≡ (ok b, t))
unfolding ◌>>=◌
>>=-eq-ok act next s h =
    let (a, p, q) = continue-eq-ok (act s).0 (act s).1 next h in
    (a, (act s).1, ap (λ r. (r, (act s).1)) p, q)
