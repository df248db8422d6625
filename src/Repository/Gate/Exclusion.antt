-- ===== src/Repository/Gate/Exclusion.antt =====
-- gate.go: what the loop of `changeGate` guarantees of every write that it sends.
use cnpg_backup.Prelude.{
  ℕ, zero, suc, ◌+◌, ◌≤◌, Bool, true, false, ◌>>=◌, ◌≡◌, refl, ap, ◌∙◌, subst, ◌⊎◌, inl, inr, List,
  [], ◌∷◌, Memᴰ, Option, none, some, Result, ok, err, Error, arith, guard-eq-ok, reject-eq-ok,
  >>=-eq-ok, ok-injective, length, All, leb→le, and_right, ◌==◌, if◌then◌else◌, Bool-cases, Text,
}
use cnpg_backup.Prelude.Sort.{sort}
use cnpg_backup.Repository.Schema.Records.{Identity}
use cnpg_backup.Repository.Gate.{
  Gate, Owner, Holder, Change, Round, Sent, validate_gate, owner_ok, seal, prepare, read_gate,
  keep_change, attempt, settle, Attempt, Next, stop, write, finish, again, change_rounds,
  change_gate, ambiguous, is_lost_race, max_generation, max_holders, precedes,
}

-- Deletion and readers or writers exclude one another.
abbrev pub IsExclusive : Gate → Type 0
IsExclusive g = (g.owner ≡ none) ⊎ (g.holders ≡ [])

no_holders : {A : Type 0} (l : List A) → (length l == 0) ≡ true → l ≡ []
no_holders [] h = refl
no_holders (x ∷ l) h = ground arith

owner_ok-IsExclusive :
    (o : Option Owner) (hs : List Holder) → owner_ok o hs ≡ true → (o ≡ none) ⊎ (hs ≡ [])
unfolding owner_ok
owner_ok-IsExclusive none hs h = inl refl
owner_ok-IsExclusive (some o) hs h = inr (no_holders hs (and_right _ _ h))

-- What validation says of a gate.
pub record IsSound (g : Gate) : Type 0 where
  pub exclusive : IsExclusive g
  pub few : length g.holders ≤ max_holders
  pub generation_fits : g.generation ≤ max_generation

pub validate_gate-IsSound : (id : Identity) (g : Gate) → validate_gate id g ≡ ok tt → IsSound g
unfolding validate_gate
validate_gate-IsSound id g h =
    let (_, h1) = guard-eq-ok _ Error.corrupt _ h in
    let (fits, h2) = guard-eq-ok _ Error.corrupt _ h1 in
    let (few, h3) = guard-eq-ok _ Error.capacity _ h2 in
    let (owned, _) = guard-eq-ok _ Error.corrupt _ h3 in
    record {
      exclusive = owner_ok-IsExclusive g.owner g.holders owned;
      few = leb→le (length g.holders) max_holders few;
      generation_fits = leb→le g.generation max_generation fits;
    }

-- In a list of writes, one that follows an unsettled write is a barrier until a barrier is accepted.
abbrev pub mode_after : Bool → Option Error → Bool
mode_after b none = false
mode_after b (some e) = if ambiguous e then true else b

pub Fenced : Bool → List Sent → Type 0
Fenced barrier [] = Unit
Fenced barrier (s ∷ rest) = (s.barrier ≡ barrier) × Fenced (mode_after barrier s.outcome) rest

-- `next` is `g` with new generation and nonce, and the holders in their order.
pub record IsSealed (g next : Gate) : Type 0 where
  pub owner : next.owner ≡ g.owner
  pub holders : next.holders ≡ sort precedes g.holders
  pub generation : next.generation ≡ g.generation + 1
  pub sound : IsSound next

module _ (id : Identity) (encoded_size : Gate → ℕ) where
  seal-IsSealed :
      (g : Gate) (nonce : Text) {next : Gate}
      → seal id encoded_size g nonce ≡ ok next
      → IsSealed g next
  unfolding seal
  seal-IsSealed g nonce {next} h =
      let sealed : Gate = record g {
        generation = g.generation + 1;
        nonce = nonce;
        holders = sort precedes g.holders;
      } in
      let (_, h1) = reject-eq-ok (g.generation == max_generation) Error.capacity _ h in
      let (u, valid, h2) = >>=-eq-ok (validate_gate id sealed) _ h1 in
      let (_, h3) = reject-eq-ok _ Error.capacity _ h2 in
      subst (λ (n : Gate). IsSealed g n) (ok-injective h3)
        (record {
          owner = refl;
          holders = refl;
          generation = refl;
          sound = validate_gate-IsSound id sealed (valid ∙ refl);
        })

  -- What a round writes: the change, or nothing new as a barrier.
  pub record IsWrite (change : Change) (barrier : Bool) (base next : Gate) : Type 0 where
    pub changed : Gate
    pub by_change : (if barrier then keep_change else change) base ≡ ok (some changed)
    pub is_sealed : IsSealed changed next

  prepare-IsWrite :
      (change : Change) (barrier : Bool) (g : Gate) (nonce : Text) {next : Gate}
      → prepare id encoded_size change barrier g nonce ≡ ok (some next)
      → IsWrite change barrier g next
  unfolding prepare
  prepare-IsWrite change barrier g nonce {next} h =
      let (changed, e, h1) = >>=-eq-ok ((if barrier then keep_change else change) g) _ h in
      by_cases changed e h1
    where
      by_cases :
          (changed : Option Gate)
          → (if barrier then keep_change else change) g ≡ ok changed
          → elim changed [
            | none ↦ ok none
            | some g' ↦ seal id encoded_size g' nonce >>= λ n. ok (some n)
          ]
            ≡ ok (some next)
          → IsWrite change barrier g next
      by_cases none e k = cc
      by_cases (some g') e k =
          let (n, sealed, last) = >>=-eq-ok (seal id encoded_size g' nonce) _ k in
          let same : n ≡ next = cc last in
          record {
            changed = g';
            by_change = e;
            is_sealed =
                subst (λ (x : Gate). IsSealed g' x) same (seal-IsSealed g' nonce {next = n} sealed);
          }

  -- A gate that passes the reading is the one that was read.
  read_gate-read :
      (round : Round) (g : Gate) → read_gate id encoded_size round ≡ ok g → round.read ≡ ok g
  unfolding read_gate
  read_gate-read round g h =
      let (g', answered, h) = >>=-eq-ok round.read _ h in
      let (u, valid, h) = >>=-eq-ok (validate_gate id g') _ h in
      answered ∙ ap (λ x. ok x) (ok-injective h)

  -- What a round leads to.
  AttemptIs : Change → Bool → Round → Attempt → Type 0
  AttemptIs change barrier round (stop r) =
      r ≡ ok tt → (barrier ≡ false) × ((g : Gate) × (round.read ≡ ok g) × (change g ≡ ok none))
  AttemptIs change barrier round (write base next) =
      (round.read ≡ ok base) × IsWrite change barrier base next

  prepare-none :
      (change : Change) (barrier : Bool) (g : Gate) (nonce : Text)
      → prepare id encoded_size change barrier g nonce ≡ ok none
      → (barrier ≡ false) × (change g ≡ ok none)
  unfolding prepare
  prepare-none change true g nonce h =
      let (n, sealed, last) = >>=-eq-ok (seal id encoded_size g nonce) _ h in cc last
  prepare-none change false g nonce h =
      let (changed, e, h1) = >>=-eq-ok (change g) _ h in by_cases changed e h1
    where
      by_cases :
          (changed : Option Gate)
          → change g ≡ ok changed
          → elim changed [
            | none ↦ ok none
            | some g' ↦ seal id encoded_size g' nonce >>= λ n. ok (some n)
          ]
            ≡ ok none
          → ◌≡◌ {A = Bool} false false × (change g ≡ ok none)
      by_cases none e k = (refl, e)
      by_cases (some g') e k =
          let (n, sealed, last) = >>=-eq-ok (seal id encoded_size g' nonce) _ k in cc last

  attempt-AttemptIs :
      (change : Change) (barrier : Bool) (round : Round)
      → AttemptIs change barrier round (attempt id encoded_size change barrier round)
  unfolding attempt AttemptIs
  attempt-AttemptIs change barrier round = by_read (read_gate id encoded_size round) refl
    where
      by_prepared :
          (g : Gate) (r : Result (Option Gate))
          → round.read ≡ ok g
          → prepare id encoded_size change barrier g round.nonce ≡ r
          → AttemptIs change barrier round (elim r [
            | err e ↦ stop (err e)
            | ok none ↦ stop (ok tt)
            | ok (some next) ↦ write g next
          ])
      by_prepared g (err x) q e = λ h. cc h
      by_prepared g (ok none) q e = λ h.
          let (mode, done) = prepare-none change barrier g round.nonce e in (mode, (g, q, done))
      by_prepared g (ok (some next)) q e =
          (q, prepare-IsWrite change barrier g round.nonce {next = next} e)

      by_read :
          (r : Result Gate)
          → read_gate id encoded_size round ≡ r
          → AttemptIs change barrier round (elim r [
            | err e ↦ stop (err e)
            | ok g ↦ elim (prepare id encoded_size change barrier g round.nonce) [
              | err e ↦ stop (err e)
              | ok none ↦ stop (ok tt)
              | ok (some next) ↦ write g next
            ]
          ])
      by_read (err x) e = λ h. cc h
      by_read (ok g) e =
          by_prepared g (prepare id encoded_size change barrier g round.nonce)
            (read_gate-read round g e) refl

  -- Every write is sealed over the gate that was read: by the change, or as a barrier.
  abbrev pub IsSent : Change → Sent → Type 0
  IsSent change s = IsWrite change s.barrier s.base s.next

  -- One write for each round from round `i` on, over the gate that the round read, with its outcome.
  pub FromRounds : (ℕ → Round) → ℕ → List Sent → Type 0
  FromRounds world i [] = Unit
  FromRounds world i (s ∷ rest) =
      ((world i).read ≡ ok s.base) × (s.outcome ≡ (world i).outcome) × FromRounds world (i + 1) rest

  -- How a successful operation took effect: an acknowledged write of the change, or a gate that the
  -- round behind the last write read and that needs no change.
  pub Applied : Change → (ℕ → Round) → ℕ → List Sent → Type 0
  Applied change world i sent =
      ((s : Sent) × Memᴰ s sent × (s.barrier ≡ false) × (s.outcome ≡ none))
      ⊎ ((g : Gate) × ((world (i + length sent)).read ≡ ok g) × (change g ≡ ok none))

  pub record IsRun (change : Change) (world : ℕ → Round) (i fuel : ℕ) (barrier : Bool)
      (run : List Sent × Result (Unit {0})) : Type 0 where
    pub all_sent : All (IsSent change) run.0
    pub from_rounds : FromRounds world i run.0
    pub fenced : Fenced barrier run.0
    pub few : length run.0 ≤ fuel
    pub applied : run.1 ≡ ok tt → Applied change world i run.0

  -- A finished write settles as success only unfenced and acknowledged; another round follows else.
  SettledIs : Bool → Option Error → Next → Type 0
  SettledIs barrier outcome (finish r) = r ≡ ok tt → (barrier ≡ false) × (outcome ≡ none)
  SettledIs barrier outcome (again mode) = mode ≡ mode_after barrier outcome

  settle-SettledIs :
      (barrier : Bool) (outcome : Option Error) → SettledIs barrier outcome (settle outcome barrier)
  unfolding settle SettledIs
  settle-SettledIs true none = refl
  settle-SettledIs false none = λ h. (refl, refl)
  settle-SettledIs barrier (some e) = elim (Bool-cases (ambiguous e)) [
    | inl open_end ↦ rw open_end (rw open_end)
    | inr settled ↦ elim (Bool-cases (is_lost_race e)) [
      | inl lost ↦ rw settled (rw lost (rw settled))
      | inr other ↦ rw settled (rw other (λ h. cc h))
    ]
  ]

  Applied-cons :
      (change : Change) (world : ℕ → Round) (i : ℕ) (s : Sent) (rest : List Sent)
      → Applied change world (i + 1) rest
      → Applied change world i (s ∷ rest)
  unfolding Applied
  Applied-cons change world i s rest (inl (x, m, p, q)) = inl (x, Memᴰ.tail m, p, q)
  Applied-cons change world i s rest (inr (g, p, q)) =
      let e : i + 1 + length rest ≡ i + length (s ∷ rest) = omega arith in
      inr (g, subst (λ (n : ℕ). (world n).read ≡ ok g) e p, q)

  change_rounds-IsRun :
      (change : Change) (world : ℕ → Round) (fuel i : ℕ) (barrier : Bool)
      → IsRun change world i fuel barrier
          (change_rounds id encoded_size change world fuel i barrier)
  unfolding change_rounds FromRounds Fenced SettledIs Applied AttemptIs
  change_rounds-IsRun change world zero i barrier = record {
    all_sent = tt;
    from_rounds = tt;
    fenced = tt;
    few = omega arith;
    applied = λ h. cc h;
  }
  change_rounds-IsRun change world (suc fuel) i barrier =
      by_attempt (attempt id encoded_size change barrier (world i))
        (attempt-AttemptIs change barrier (world i))
        (λ mode. change_rounds-IsRun change world fuel (i + 1) mode)
    where
      rest : Bool → List Sent × Result (Unit {0})
      rest mode = change_rounds id encoded_size change world fuel (i + 1) mode

      wrote : Gate → Gate → Sent
      wrote base next = record {
        base = base;
        next = next;
        barrier = barrier;
        outcome = (world i).outcome;
      }

      by_settled :
          (base next : Gate) (n : Next)
          → (world i).read ≡ ok base
          → IsWrite change barrier base next
          → SettledIs barrier (world i).outcome n
          → ((mode : Bool) → IsRun change world (i + 1) fuel mode (rest mode))
          → IsRun change world i (suc fuel) barrier (elim n [
            | finish r ↦ (wrote base next ∷ [], r)
            | again mode ↦ (wrote base next ∷ (rest mode).0, (rest mode).1)
          ])
      by_settled base next (finish r) q w s ih = record {
        all_sent = (w, tt);
        from_rounds = (q, refl, tt);
        fenced = (refl, tt);
        few = omega arith;
        applied = λ h.
            let (mode, accepted) = s h in inl (wrote base next, Memᴰ.head refl, mode, accepted);
      }
      by_settled base next (again mode) q w s ih = record {
        all_sent = (w, (ih mode).all_sent);
        from_rounds = (q, refl, (ih mode).from_rounds);
        fenced = (refl, rw (← s) (ih mode).fenced);
        few = omega (arith, (ih mode).few);
        applied =
            λ h. Applied-cons change world i (wrote base next) (rest mode).0 ((ih mode).applied h);
      }

      by_attempt :
          (a : Attempt)
          → AttemptIs change barrier (world i) a
          → ((mode : Bool) → IsRun change world (i + 1) fuel mode (rest mode))
          → IsRun change world i (suc fuel) barrier (elim a [
            | stop r ↦ ([], r)
            | write base next ↦ elim (settle (world i).outcome barrier) [
              | finish r ↦ (wrote base next ∷ [], r)
              | again mode ↦ (wrote base next ∷ (rest mode).0, (rest mode).1)
            ]
          ])
      by_attempt (stop r) is ih = record {
        all_sent = tt;
        from_rounds = tt;
        fenced = tt;
        few = omega arith;
        applied = λ h.
            let (g, p, q) = (is h).1 in
            let e : i ≡ i + length {A = Sent} [] = omega arith in
            inr (g, subst (λ (n : ℕ). (world n).read ≡ ok g) e p, q);
      }
      by_attempt (write base next) is ih =
          by_settled base next (settle (world i).outcome barrier) is.0 is.1
            (settle-SettledIs barrier (world i).outcome) ih

  -- Whatever the world answers: at most ten writes are sent, one for each round, over the gate that
  -- this round read; each has no owner beside a holder, at most 1024 holders, and the next generation
  -- over that gate; after an unsettled write only barriers, which change neither owner nor holders, are
  -- sent until one is accepted; and success means that a write of the change was acknowledged or that
  -- the round behind the last write read a gate which the change leaves as it is.
  pub change_gate-IsRun :
      (change : Change) (world : ℕ → Round)
      → IsRun change world 0 10 false (change_gate id encoded_size change world)
  unfolding change_gate
  change_gate-IsRun change world = change_rounds-IsRun change world 10 0 false
