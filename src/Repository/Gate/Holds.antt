-- ===== src/Repository/Gate/Holds.antt =====
-- internal/repository/gate.go: the holds of backups and restores on the gate.
-- `fresh` is the answer of `UUID()`, `process` the identifier of the running process, `safety` the
-- answer of `CheckBucketSafety`. Each call of `changeGate` has a world of its own.
use cnpg_backup.Prelude.{
  ℕ, Bool, true, false, not, ◌&&◌, ◌||◌, ◌≡◌, refl, ap, subst, ◌∙◌, inl, inr, List, [], ◌∷◌, ◌++◌,
  Memᴰ, ◌==◌, length, arith, guard_passed, Bool-cases, text_eq→eq, text_eq_refl, Option, none, some,
  Text, text_eq, codes, if◌then◌else◌, any, Result, ok, err, Error, guard, reject, ◌>>=◌, ◌>>◌,
  reject-eq-ok, >>=-eq-ok, and_left, and_right, ok-injective,
}
use cnpg_backup.Repository.Names.Hex.{valid_id}
use cnpg_backup.Repository.Schema.Records.{Identity, is_none}
use cnpg_backup.Repository.Gate.{
  Gate, Holder, Owner, acquire_change, same_process, Round, Sent, same_holder, holder_ok, read_gate,
  add_holder, remove_holder, validate_gate,
}
use cnpg_backup.Repository.Gate.Exclusion.{IsSound, validate_gate-IsSound}

pub record Hold : Type 0 where
  pub holder : Holder
  pub closed : Bool
  pub uncertain : Bool

abbrev pub lifetime_holder : (target operation : Text) → Holder
lifetime_holder target operation = record {
  id = operation;
  kind = codes "restore-lifetime";
  target_cluster_uid = target;
  operation_id = operation;
  process_id = none;
}

abbrev pub Ended : Type 0
Ended = List Sent × Result (Unit {0})

-- `v.Kind == "restore-lifetime"` with the identifier and the cluster of the hold.
unfoldable pub is_lifetime_of : Holder → Holder → Bool
unfolding text_eq
is_lifetime_of h v =
    text_eq v.kind (codes "restore-lifetime")
    && text_eq v.id h.operation_id
    && text_eq v.target_cluster_uid h.target_cluster_uid

-- The tests of `check` on the gate that was read.
unfoldable pub hold_admitted : Holder → Gate → Bool
unfolding any same_holder is_lifetime_of text_eq is_none
hold_admitted h g =
    any (λ v. same_holder v h) g.holders
    && (not (text_eq h.kind (codes "restore-reader")) || any (is_lifetime_of h) g.holders)
    && is_none g.owner

same_process-eq : (a b : Option Text) → same_process a b ≡ true → a ≡ b
unfolding same_process
same_process-eq (some a) (some b) h = ap some (text_eq→eq a b h)
same_process-eq none none h = refl
same_process-eq (some a) none h = absurd cc
same_process-eq none (some b) h = absurd cc

same_holder-eq : (a b : Holder) → same_holder a b ≡ true → a ≡ b
unfolding same_holder
same_holder-eq a b h =
    let first = text_eq a.id b.id in
    let second = text_eq a.kind b.kind in
    let third = text_eq a.target_cluster_uid b.target_cluster_uid in
    let fourth = text_eq a.operation_id b.operation_id in
    let front =
      and_left (first && second && third && fourth) (same_process a.process_id b.process_id) h in
    let front3 = and_left (first && second && third) fourth front in
    let front2 = and_left (first && second) third front3 in
    cc (
      text_eq→eq a.id b.id (and_left first second front2),
      text_eq→eq a.kind b.kind (and_right first second front2),
      text_eq→eq a.target_cluster_uid b.target_cluster_uid
          (and_right (first && second) third front3),
      text_eq→eq a.operation_id b.operation_id (and_right (first && second && third) fourth front),
      same_process-eq a.process_id b.process_id
          (and_right (first && second && third && fourth) _ h),
    )

any-mem :
    (p : Holder → Bool) (l : List Holder) → any p l ≡ true → (v : Holder) × Memᴰ v l × (p v ≡ true)
unfolding any
any-mem p [] h = absurd cc
any-mem p (x ∷ l) h = elim (Bool-cases (p x)) [
  | inl t ↦ (x, Memᴰ.head refl, t)
  | inr f ↦ let (v, m, t) = any-mem p l (rw f at h) in (v, Memᴰ.tail m, t)
]

-- A gate on which a holder may go on.
pub record IsAdmitted (h : Holder) (g : Gate) : Type 0 where
  pub sound : IsSound g
  pub unowned : g.owner ≡ none
  pub held : Memᴰ h g.holders
  pub lifetime :
      h.kind ≡ codes "restore-reader"
      → (v : Holder) × Memᴰ v g.holders
        × (v.kind ≡ codes "restore-lifetime")
        × (v.id ≡ h.operation_id)
        × (v.target_cluster_uid ≡ h.target_cluster_uid)
  pub excludes : (o : Owner) → acquire_change o g ≡ err Error.blocked

some_holder : {h : Holder} (l : List Holder) → Memᴰ h l → (length l == 0) ≡ false
some_holder [] m = elim m [ ]
some_holder (x ∷ l) m = ground arith

none_of : {A : Type 0} (o : Option A) → is_none o ≡ true → o ≡ none
unfolding is_none
none_of none k = refl
none_of (some a) k = cc k

is_lifetime_of-parts :
    (h v : Holder)
    → is_lifetime_of h v ≡ true
    → (v.kind ≡ codes "restore-lifetime")
      × (v.id ≡ h.operation_id)
      × (v.target_cluster_uid ≡ h.target_cluster_uid)
unfolding is_lifetime_of
is_lifetime_of-parts h v e =
    let kind = text_eq v.kind (codes "restore-lifetime") in
    let same = text_eq v.id h.operation_id in
    let front = and_left (kind && same) (text_eq v.target_cluster_uid h.target_cluster_uid) e in
    (
      text_eq→eq v.kind (codes "restore-lifetime") (and_left kind same front),
      text_eq→eq v.id h.operation_id (and_right kind same front),
      text_eq→eq v.target_cluster_uid h.target_cluster_uid (and_right (kind && same) _ e),
    )

hold_admitted-IsAdmitted :
    (h : Holder) (g : Gate) → IsSound g → hold_admitted h g ≡ true → IsAdmitted h g
unfolding hold_admitted acquire_change
hold_admitted-IsAdmitted h g sound admitted =
    let present = any (λ v. same_holder v h) g.holders in
    let reader = text_eq h.kind (codes "restore-reader") in
    let lives = any (is_lifetime_of h) g.holders in
    let front = and_left (present && (not reader || lives)) (is_none g.owner) admitted in
    let (v, m, same) = any-mem (λ v. same_holder v h) g.holders (and_left present _ front) in
    let held : Memᴰ h g.holders =
      subst (λ (x : Holder). Memᴰ x g.holders) (same_holder-eq v h same) m in
    let unowned = none_of g.owner (and_right (present && (not reader || lives)) _ admitted) in
    record {
      sound = sound;
      unowned = unowned;
      held = held;
      lifetime = λ kind.
          let (w, n, owns) = any-mem (is_lifetime_of h) g.holders (
            lives_lem reader lives (and_right present _ front)
              (subst (λ t. text_eq h.kind t ≡ true) kind (text_eq_refl h.kind))) in
          let (p, q, t) = is_lifetime_of-parts h w owns in (w, n, p, q, t);
      excludes = λ o. rw unowned (rw (some_holder g.holders held) refl);
    }
  where
    lives_lem : (r l : Bool) → (not r || l) ≡ true → r ≡ true → l ≡ true
    lives_lem true l k p = k
    lives_lem false l k p = cc p

module _ (id : Identity) (encoded_size : Gate → ℕ) where
  unfoldable pub admit :
      (process fresh kind target operation : Text) → (ℕ → Round) → List Sent × Result Hold
  unfolding add_holder
  admit process fresh kind target operation world =
      let h : Holder = record {
        id = fresh;
        kind = kind;
        target_cluster_uid = target;
        operation_id = operation;
        process_id = some process;
      } in
      let run = add_holder id encoded_size h world in
      (run.0, run.1 >>= λ _. ok (record { holder = h; closed = false; uncertain = false }))

  unfoldable pub admit_backup :
      Result (Unit {0})
      → (process fresh writer operation : Text) → (ℕ → Round)
      → List Sent × Result Hold
  unfolding admit valid_id text_eq
  admit_backup safety process fresh writer operation world =
      if not (text_eq writer id.writer_cluster_uid) || not (valid_id operation)
      then ([], err Error.identity)
      else (elim safety [
        | err e ↦ ([], err e)
        | ok u ↦ admit process fresh (codes "backup") writer operation world
      ])

  unfoldable pub establish_lifetime : (target operation : Text) → (ℕ → Round) → Ended
  unfolding add_holder
  establish_lifetime target operation world =
      add_holder id encoded_size (lifetime_holder target operation) world

  unfoldable pub admit_restore :
      (process fresh target operation : Text) → (first second : ℕ → Round) → List Sent × Result Hold
  unfolding establish_lifetime admit
  admit_restore process fresh target operation first second =
      let run = establish_lifetime target operation first in
      elim run.1 [
        | err e ↦ (run.0, err e)
        | ok u ↦
            let next = admit process fresh (codes "restore-reader") target operation second in
            (run.0 ++ next.0, next.1)
      ]

  unfoldable pub release_lifetime : (target operation : Text) → (ℕ → Round) → Ended
  unfolding holder_ok remove_holder
  release_lifetime target operation world =
      if holder_ok (lifetime_holder target operation)
      then remove_holder id encoded_size (lifetime_holder target operation) world
      else ([], err Error.invalid)

  unfoldable pub check_hold : Hold → Round → Result (Unit {0})
  unfolding read_gate hold_admitted
  check_hold h round = do
    reject h.closed Error.closed
    reject h.uncertain Error.uncertain
    g ← read_gate id encoded_size round
    guard (hold_admitted h.holder g) Error.blocked

  -- `Close`, and the hold afterwards.
  unfoldable pub close_hold : Hold → (ℕ → Round) → Hold × Ended
  unfolding remove_holder
  close_hold h world = (
    record h { closed = true },
    if h.uncertain then ([], err Error.uncertain) else remove_holder id encoded_size h.holder world,
  )

  -- A check of a hold succeeds only if the hold is open and certain and the gate that is read is sound,
  -- has no owner, has this very holder among its holders and, for a reader of a restore, a holder for
  -- the lifetime of its operation and its cluster as well; and then nobody can take that gate for
  -- deletion.
  pub check_hold-Admitted :
      (h : Hold) (round : Round)
      → check_hold h round ≡ ok tt
      → (h.closed ≡ false)
        × (h.uncertain ≡ false)
        × ((g : Gate) × (round.read ≡ ok g) × IsAdmitted h.holder g)
  unfolding check_hold read_gate
  check_hold-Admitted h round e =
      let (opened, e1) = reject-eq-ok h.closed Error.closed _ e in
      let (certain, e2) = reject-eq-ok h.uncertain Error.uncertain _ e1 in
      let (g, read, e3) = >>=-eq-ok (read_gate id encoded_size round) _ e2 in
      let (g', answered, r1) = >>=-eq-ok round.read _ read in
      let (u, valid, r2) = >>=-eq-ok (validate_gate id g') _ r1 in
      let same : g' ≡ g = ok-injective r2 in
      (
        opened,
        certain,
        (
          g,
          answered ∙ ap (λ x. ok x) same,
          hold_admitted-IsAdmitted h.holder g
              (subst (λ (x : Gate). IsSound x) same (validate_gate-IsSound id g' (valid ∙ refl)))
              (guard_passed (hold_admitted h.holder g) Error.blocked e3),
        ),
      )
