-- ===== src/Repository/Gate.antt =====
-- internal/repository/gate.go: the gate object, which admits holders and excludes deletion.
-- `generation` is the number that the canonical decimal text in the object stands for, and a
-- decoded list of holders is never nil.
pub mod Exclusion
pub mod Holds
use cnpg_backup.Prelude.{
  ℕ, zero, suc, ◌+◌, ◌-◌, ◌^◌, Bool, true, false, not, ◌&&◌, ◌||◌, List, [], ◌∷◌, ◌++◌, Option,
  none, some, Text, text_eq, text_lt, codes, ltb, leb, ◌==◌, if◌then◌else◌, length, find, filter,
  Result, ok, err, Error, store, StoreKind, precondition, conflict, guard, reject, ◌>>=◌, ◌>>◌,
}
use cnpg_backup.Prelude.Sort.{sort}
use cnpg_backup.Repository.Names.Hex.{valid_id}
use cnpg_backup.Repository.Schema.Records.{Identity, is_none}

pub record Holder : Type 0 where
  pub id : Text
  pub kind : Text
  pub target_cluster_uid : Text
  pub operation_id : Text
  pub process_id : Option Text

pub record Owner : Type 0 where
  pub operation_id : Text
  pub process_id : Text
  pub kind : Text

pub record Gate : Type 0 where
  pub schema : ℕ
  pub repository_id : Text
  pub generation : ℕ
  pub nonce : Text
  pub owner : Option Owner
  pub holders : List Holder

abbrev pub max_holders : ℕ
max_holders = 1024

abbrev pub max_generation : ℕ
max_generation = 2 ^ 64 - 1

abbrev pub gate_limit : ℕ
gate_limit = 2 ^ 20

unfoldable pub holder_kind_ok : Holder → Bool
unfolding text_eq valid_id is_none
holder_kind_ok h =
    if text_eq h.kind (codes "restore-lifetime")
    then is_none h.process_id && text_eq h.id h.operation_id
    else (if text_eq h.kind (codes "backup") || text_eq h.kind (codes "restore-reader")
        then elim h.process_id [ none ↦ false | some p ↦ valid_id p ]
        else false)

-- `Holder.validate`; its only error is `ErrInvalid`.
unfoldable pub holder_ok : Holder → Bool
unfolding holder_kind_ok
holder_ok h =
    valid_id h.id && valid_id h.target_cluster_uid && valid_id h.operation_id && holder_kind_ok h

-- The loop over the holders: each is valid, and their identifiers grow.
unfoldable pub holders_ok : Text → List Holder → Bool
unfolding holder_ok text_lt
holders_ok last [] = true
holders_ok last (h ∷ hs) = holder_ok h && text_lt last h.id && holders_ok h.id hs

unfoldable pub owner_ok : Option Owner → List Holder → Bool
unfolding valid_id text_eq
owner_ok none hs = true
owner_ok (some o) hs =
    valid_id o.operation_id
    && valid_id o.process_id
    && text_eq o.kind (codes "gc")
    && length hs == 0

unfoldable pub validate_gate : Identity → Gate → Result (Unit {0})
unfolding owner_ok holders_ok
validate_gate id g = do
  guard (g.schema == 1 && text_eq g.repository_id id.repository_id && valid_id g.nonce)
      Error.corrupt
  guard (leb g.generation max_generation) Error.corrupt
  guard (leb (length g.holders) max_holders) Error.capacity
  guard (owner_ok g.owner g.holders) Error.corrupt
  guard (holders_ok [] g.holders) Error.corrupt

unfoldable pub same_process : Option Text → Option Text → Bool
unfolding text_eq
same_process (some a) (some b) = text_eq a b
same_process none none = true
same_process _ _ = false

unfoldable pub same_holder : Holder → Holder → Bool
unfolding same_process text_eq
same_holder a b =
    text_eq a.id b.id
    && text_eq a.kind b.kind
    && text_eq a.target_cluster_uid b.target_cluster_uid
    && text_eq a.operation_id b.operation_id
    && same_process a.process_id b.process_id

unfoldable pub same_owner : Owner → Owner → Bool
unfolding text_eq
same_owner a b =
    text_eq a.operation_id b.operation_id
    && text_eq a.process_id b.process_id
    && text_eq a.kind b.kind

-- A change of the gate: `none` is "nothing to do".
abbrev pub Change : Type 0
Change = Gate → Result (Option Gate)

unfoldable pub find_holder : Text → List Holder → Option Holder
unfolding find text_eq
find_holder id hs = find (λ v. text_eq v.id id) hs

-- The change of `addHolder`.
unfoldable pub add_change : Holder → Change
unfolding find_holder same_holder is_none
add_change h g = elim (find_holder h.id g.holders) [
  | some v ↦ if same_holder v h then ok none else err Error.identity
  | none ↦ do
    guard (is_none g.owner) Error.blocked
    reject (length g.holders == max_holders) Error.capacity
    ok (some (record g { holders = g.holders ++ h ∷ [] }))
]

-- `append(holders[:i], holders[i+1:]...)` at the first holder with the identifier.
unfoldable pub remove_first : Text → List Holder → List Holder
unfolding text_eq
remove_first id [] = []
remove_first id (v ∷ vs) = let rest = remove_first id vs in if text_eq v.id id then vs else v ∷ rest

-- The change of `removeHolder`.
unfoldable pub remove_change : Holder → Change
unfolding find_holder same_holder remove_first
remove_change h g = elim (find_holder h.id g.holders) [
  | none ↦ ok none
  | some v ↦
      if same_holder v h
      then ok (some (record g { holders = remove_first h.id g.holders }))
      else err Error.identity
]

-- The change of `AcquireGC` in gc.go.
unfoldable pub acquire_change : Owner → Change
unfolding same_owner
acquire_change o g = elim g.owner [
  | some p ↦ if same_owner p o then ok none else err Error.blocked
  | none ↦
      if length g.holders == 0 then ok (some (record g { owner = some o })) else err Error.blocked
]

-- The change of `GCOwner.Close` in gc.go.
unfoldable pub release_change : Owner → Change
unfolding same_owner
release_change o g = elim g.owner [
  | none ↦ ok none
  | some p ↦ if same_owner p o then ok (some (record g { owner = none })) else err Error.identity
]

abbrev pub keep_change : Change
keep_change g = ok (some g)

-- `ambiguous` in repository.go: every error but a storage error that says otherwise.
unfoldable pub ambiguous : Error → Bool
ambiguous (store k a) = a
ambiguous _ = true

unfoldable pub is_lost_race : Error → Bool
is_lost_race (store precondition a) = true
is_lost_race (store conflict a) = true
is_lost_race _ = false

-- What the world answers in one round: the object that is read, a fresh nonce, and the error of the
-- conditional write, which is sent to replace exactly the object read.
pub record Round : Type 0 where
  pub read : Result Gate
  pub nonce : Text
  pub outcome : Option Error

-- A write that was sent: over which gate, as a barrier or not, and how it ended.
pub record Sent : Type 0 where
  pub base : Gate
  pub next : Gate
  pub barrier : Bool
  pub outcome : Option Error

-- What follows an answered write: the end, or another round, as a barrier or not.
pub data Next : Type 0 where
  finish : Result (Unit {0}) → Next
  again : Bool → Next

unfoldable pub settle : Option Error → Bool → Next
unfolding ambiguous is_lost_race
settle none true = again false
settle none false = finish (ok tt)
settle (some e) barrier =
    if ambiguous e then again true else (if is_lost_race e then again barrier else finish (err e))

-- A round up to its write.
pub data Attempt : Type 0 where
  stop : Result (Unit {0}) → Attempt
  write : (base next : Gate) → Attempt

abbrev pub precedes : Holder → Holder → Bool
precedes a b = text_lt a.id b.id

module _ (id : Identity) (encoded_size : Gate → ℕ) where
  -- `readGate`.
  unfoldable pub read_gate : Round → Result Gate
  unfolding validate_gate
  read_gate round = do g ← round.read; validate_gate id g; ok g

  -- The new generation and nonce, the order of the holders, and the last checks.
  unfoldable pub seal : Gate → Text → Result Gate
  unfolding sort validate_gate
  seal g nonce = do
    reject (g.generation == max_generation) Error.capacity
    let next : Gate = record g {
      generation = g.generation + 1;
      nonce = nonce;
      holders = sort precedes g.holders;
    }
    validate_gate id next
    reject (ltb gate_limit (encoded_size next)) Error.capacity
    ok next

  -- One round up to the write; `none` ends the operation with success.
  unfoldable pub prepare : Change → Bool → Gate → Text → Result (Option Gate)
  unfolding seal
  prepare change barrier g nonce = do
    changed ← (if barrier then keep_change else change) g
    elim changed [ none ↦ ok none | some g' ↦ do next ← seal g' nonce; ok (some next) ]

  unfoldable pub attempt : Change → Bool → Round → Attempt
  unfolding read_gate prepare
  attempt change barrier round = elim (read_gate round) [
    | err e ↦ stop (err e)
    | ok g ↦ elim (prepare change barrier g round.nonce) [
      | err e ↦ stop (err e)
      | ok none ↦ stop (ok tt)
      | ok (some next) ↦ write g next
    ]
  ]

  -- The loop of `changeGate` from round `i` on: the writes sent, and the result.
  unfoldable pub change_rounds : Change → (ℕ → Round) → ℕ → ℕ → Bool → List Sent × Result (Unit {0})
  unfolding attempt settle
  change_rounds change world zero i barrier = ([], err Error.contention)
  change_rounds change world (suc left) i barrier = elim (attempt change barrier (world i)) [
    | stop r ↦ ([], r)
    | write base next ↦
        let sent : Sent = record {
          base = base;
          next = next;
          barrier = barrier;
          outcome = (world i).outcome;
        } in
        elim (settle (world i).outcome barrier) [
          | finish r ↦ (sent ∷ [], r)
          | again mode ↦
              let rest = change_rounds change world left (i + 1) mode in (sent ∷ rest.0, rest.1)
        ]
  ]

  unfoldable pub change_gate : Change → (ℕ → Round) → List Sent × Result (Unit {0})
  unfolding change_rounds
  change_gate change world = change_rounds change world 10 0 false

  -- `addHolder`, with its check before the gate is read.
  unfoldable pub add_holder : Holder → (ℕ → Round) → List Sent × Result (Unit {0})
  unfolding change_gate add_change holder_ok
  add_holder h world =
      if holder_ok h then change_gate (add_change h) world else ([], err Error.invalid)

  unfoldable pub remove_holder : Holder → (ℕ → Round) → List Sent × Result (Unit {0})
  unfolding change_gate remove_change
  remove_holder h world = change_gate (remove_change h) world
