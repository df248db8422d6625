-- ===== src/Repository/Gc/Order.antt =====
-- gc.go: the order of a batch, and what is dispatched when it is cut short.
use cnpg_backup.Prelude.{
  ℕ, ◌+◌, ◌≤◌, ◌<◌, Bool, true, false, ◌&&◌, ◌||◌, ◌≡◌, refl, sym, ap, ◌∙◌, subst, ◌⊎◌, inl, inr,
  List, [], ◌∷◌, ◌++◌, Option, none, some, Text, Result, ok, err, Error, guard-eq-ok, reject-eq-ok,
  >>=-eq-ok, ok-injective, arith, length, any, leb, if◌then◌else◌, Bool-cases, ◌>>=◌, reject, max,
}
use cnpg_backup.Repository.Schema.Records.{Library, Identity}
use cnpg_backup.Repository.Gate.{ambiguous}
use cnpg_backup.Repository.Gc.{
  Victim, GcPlan, GcOwner, Entry, Reads, Turn, Answers, kind_is, retire_backup, retire_wal,
  validate_victim, depends_on, retire_next, validate_victims, dispatch, destroy_all, admit_plan,
  execute, check_owner, start_phase,
}

abbrev pub now_retired : Victim → List Text → List Text
now_retired v retired =
    if kind_is v retire_backup
    then (elim v.backup_uid [ none ↦ retired | some uid ↦ uid ∷ retired ])
    else retired

-- A victim may stand behind the victims before it: a backup is retired behind no segment, and each
-- live catalog entry with it as parent was retired before.
unfoldable pub FitsAfter : List Entry → List Text → Bool → Victim → Type 0
FitsAfter entries retired wal v =
    kind_is v retire_backup ≡ true
    → (wal ≡ false)
      × ((uid : Text) → v.backup_uid ≡ some uid → any (depends_on uid retired) entries ≡ false)

-- Every victim of the list fits behind the victims before it.
unfoldable pub Ordered : List Entry → List Text → Bool → List Victim → Type 0
Ordered entries retired wal [] = Unit
Ordered entries retired wal (v ∷ vs) =
    FitsAfter entries retired wal v
    × Ordered entries (now_retired v retired) (wal || kind_is v retire_wal) vs

-- The first of two lists begins the second.
pub Begins : List Victim → List Victim → Type 0
Begins xs ys = (rest : List Victim) × (xs ++ rest ≡ ys)

retire_next-now :
    (entries : List Entry) (retired : List Text) (v : Victim) {next : List Text}
    → retire_next entries retired v ≡ ok next
    → (next ≡ now_retired v retired)
      × (kind_is v retire_backup ≡ true
          → (uid : Text) → v.backup_uid ≡ some uid
          → any (depends_on uid retired) entries ≡ false)
unfolding retire_next
retire_next-now entries retired v {next} h = elim (Bool-cases (kind_is v retire_backup)) [
  | inl backup ↦ by_uid v.backup_uid refl (rw backup at h) backup
  | inr other ↦
      let same : retired ≡ next = ok-injective (rw other at h) in
      (rw other (sym same), λ k. cc (k, other))
]
  where
    by_uid :
        (o : Option Text)
        → v.backup_uid ≡ o
        → (elim o [
          | none ↦ err Error.invalid
          | some uid ↦ reject (any (depends_on uid retired) entries) Error.blocked >>= λ _.
              ok (uid ∷ retired)
        ])
          ≡ ok next
        → kind_is v retire_backup ≡ true
        → (next ≡ now_retired v retired)
          × (kind_is v retire_backup ≡ true
              → (uid : Text) → v.backup_uid ≡ some uid
              → any (depends_on uid retired) entries ≡ false)
    by_uid none e k backup = cc
    by_uid (some uid) e k backup =
        let (free, last) = reject-eq-ok (any (depends_on uid retired) entries) Error.blocked _ k in
        let same : uid ∷ retired ≡ next = ok-injective last in
        (
          rw backup (rw e (sym same)),
          λ _ other f.
              let id : uid ≡ other = cc (e, f) in
              subst (λ (u : Text). any (depends_on u retired) entries ≡ false) id free,
        )

module _ (lib : Library) (id : Identity) (reads : Reads) (entries : List Entry) where
  validate_victims-Ordered :
      (vs : List Victim) (retired : List Text) (wal : Bool)
      → validate_victims lib id reads entries vs retired wal ≡ ok tt
      → Ordered entries retired wal vs
  unfolding validate_victims Ordered FitsAfter
  validate_victims-Ordered [] retired wal h = tt
  validate_victims-Ordered (v ∷ vs) retired wal h =
      let after = wal || kind_is v retire_wal in
      let (order, h1) = reject-eq-ok (kind_is v retire_backup && after) Error.invalid _ h in
      let (u, valid, h2) = >>=-eq-ok (validate_victim lib id reads retired v) _ h1 in
      let (next, fits, h3) = >>=-eq-ok (retire_next entries retired v) _ h2 in
      let (now, free) = retire_next-now entries retired v {next = next} fits in
      (
        λ backup. (
          before_wal wal (kind_is v retire_wal) (kind_is v retire_backup) order backup,
          free backup,
        ),
        subst (λ (r : List Text). Ordered entries r after vs) now
            (validate_victims-Ordered vs next after h3),
      )
    where
      before_wal : (w k b : Bool) → (b && (w || k)) ≡ false → b ≡ true → w ≡ false
      before_wal w k b p q = ground arith

-- The dispatched victims begin the plan, and each is counted.
dispatch-counts :
    (g : GcOwner) (turn : Turn) {g' : GcOwner}
    → dispatch g turn ≡ ok g'
    → (g'.requests ≡ g.requests + 1) × (g.requests < 128) × (g'.executed ≡ g.executed)
unfolding dispatch start_phase
dispatch-counts g turn {g'} h =
    let (few, h1) = reject-eq-ok (leb 128 g.requests) Error.capacity _ h in
    let (u, checked, h2) = >>=-eq-ok (check_owner g turn.read) _ h1 in
    let (g1, started, h3) = >>=-eq-ok (start_phase g turn.now) _ h2 in
    let same = start_requests g turn.now started in
    let last = ok-injective h3 in
    (
      ap (λ (o : GcOwner). o.requests) (sym last) ∙ ap (λ (n : ℕ). n + 1) same,
      not_more g.requests few,
      ap (λ (o : GcOwner). o.executed) (sym last) ∙ start_executed g turn.now started,
    )
  where
    start_requests :
        (o : GcOwner) (now : ℕ) {o' : GcOwner}
        → start_phase o now ≡ ok o'
        → o'.requests ≡ o.requests
    start_requests o now e = ground arith

    start_executed :
        (o : GcOwner) (now : ℕ) {o' : GcOwner}
        → start_phase o now ≡ ok o'
        → o'.executed ≡ o.executed
    start_executed o now e = ground arith

    not_more : (n : ℕ) → leb 128 n ≡ false → n < 128
    not_more n e = ground arith

-- What the loop leaves: a beginning of the plan was dispatched, within the budget of requests, all
-- of it on success, and the owner stays marked as spent.
pub record IsDestroyed (g : GcOwner) (vs : List Victim)
    (r : GcOwner × List Victim × Result (Unit {0})) : Type 0 where
  pub begins : Begins r.1 vs
  pub counted : length r.1 + g.requests ≤ max 128 g.requests
  pub complete : r.2 ≡ ok tt → r.1 ≡ vs
  pub marked : r.0.executed ≡ g.executed

nothing-IsDestroyed :
    (g : GcOwner) (vs : List Victim) (r : Result (Unit {0}))
    → (r ≡ ok tt → ◌≡◌ {A = List Victim} [] vs)
    → IsDestroyed g vs (g, [], r)
unfolding Begins
nothing-IsDestroyed g vs r complete = record {
  begins = (vs, refl);
  counted = omega arith;
  complete = complete;
  marked = refl;
}

destroy_all-IsDestroyed :
    (g : GcOwner) (vs : List Victim) (world : ℕ → Turn) (i : ℕ)
    → IsDestroyed g vs (destroy_all g vs world i)
unfolding destroy_all
destroy_all-IsDestroyed g [] world i = nothing-IsDestroyed g [] (ok tt) (λ h. refl)
destroy_all-IsDestroyed g (v ∷ vs) world i =
    by_dispatch (dispatch g (world i)) refl (λ o. destroy_all-IsDestroyed o vs world (i + 1))
  where
    rest : GcOwner → GcOwner × List Victim × Result (Unit {0})
    rest o = destroy_all o vs world (i + 1)

    marked : GcOwner → Error → GcOwner
    marked o e = record o { uncertain = if ambiguous e then true else o.uncertain }

    by_outcome :
        (o : GcOwner) (r : Result (Unit {0}))
        → (o.requests ≡ g.requests + 1) × (g.requests < 128) × (o.executed ≡ g.executed)
        → IsDestroyed o vs (rest o)
        → IsDestroyed g (v ∷ vs) (elim r [
          | ok u ↦ ((rest o).0, v ∷ (rest o).1, (rest o).2)
          | err e ↦ (marked o e, v ∷ [], err e)
        ])
    by_outcome o (ok u) (same, few, spent) ih = record {
      begins = unfold Begins in (ih.begins.0, ap (◌∷◌ v) ih.begins.1);
      counted = omega (arith, ih.counted);
      complete = λ h. ap (◌∷◌ v) (ih.complete h);
      marked = ih.marked ∙ spent;
    }
    by_outcome o (err e) (same, few, spent) ih = record {
      begins = unfold Begins in (vs, refl);
      counted = omega arith;
      complete = λ h. cc h;
      marked = spent;
    }

    by_dispatch :
        (d : Result GcOwner)
        → dispatch g (world i) ≡ d
        → ((o : GcOwner) → IsDestroyed o vs (rest o))
        → IsDestroyed g (v ∷ vs) (elim d [
          | err e ↦ (g, [], err e)
          | ok o ↦ elim (world i).outcome [
            | ok u ↦ ((rest o).0, v ∷ (rest o).1, (rest o).2)
            | err e ↦ (marked o e, v ∷ [], err e)
          ]
        ])
    by_dispatch (err e) same ih = nothing-IsDestroyed g (v ∷ vs) (err e) (λ h. cc h)
    by_dispatch (ok o) same ih =
        by_outcome o (world i).outcome (dispatch-counts g (world i) {g' = o} same) (ih o)

Ordered-append_left :
    (entries : List Entry) (retired : List Text) (wal : Bool) (xs ys : List Victim)
    → Ordered entries retired wal (xs ++ ys)
    → Ordered entries retired wal xs
unfolding Ordered
Ordered-append_left entries retired wal [] ys h = tt
Ordered-append_left entries retired wal (x ∷ xs) ys h = (
  h.0,
  Ordered-append_left entries (now_retired x retired) (wal || kind_is x retire_wal) xs ys h.1,
)

-- What one call of `Execute` may have dispatched.
pub record IsExecuted (g : GcOwner) (p : GcPlan) (answers : Answers)
    (r : GcOwner × List Victim × Result (Unit {0})) : Type 0 where
  pub begins : Begins r.1 p.victims
  pub once : g.executed ≡ true → r.1 ≡ []
  pub latched : check_owner g answers.read ≡ ok tt → r.0.executed ≡ true
  pub stays : g.executed ≡ true → r.0.executed ≡ true
  pub spent : (r.1 ≡ []) ⊎ (r.0.executed ≡ true)
  pub few : length r.1 + g.requests ≤ max 128 g.requests
  pub ordered :
      (r.1 ≡ [])
      ⊎ ((entries : List Entry) × (answers.entries ≡ ok entries) × Ordered entries [] false r.1)
  pub complete : r.2 ≡ ok tt → r.1 ≡ p.victims

module _ (lib : Library) (id : Identity) (reads : Reads) (encoded_size : GcPlan → ℕ) (g : GcOwner)
    (p : GcPlan) (answers : Answers) where
  refused :
      (o : GcOwner) (e : Error)
      → (check_owner g answers.read ≡ ok tt → o.executed ≡ true)
      → (g.executed ≡ true → o.executed ≡ true)
      → IsExecuted g p answers (o, [], err e)
  unfolding Begins
  refused o e latched stays = record {
    begins = (p.victims, refl);
    once = λ h. refl;
    latched = latched;
    stays = stays;
    spent = inl refl;
    few = omega arith;
    ordered = inl refl;
    complete = λ h. cc h;
  }

  admit_plan-Ordered :
      (o : GcOwner)
      → admit_plan lib id reads encoded_size o p answers ≡ ok tt
      → (entries : List Entry) × (answers.entries ≡ ok entries) × Ordered entries [] false p.victims
  unfolding admit_plan
  admit_plan-Ordered o h =
      let (header, h1) = guard-eq-ok _ Error.invalid _ h in
      let (entries, read, h2) = >>=-eq-ok answers.entries _ h1 in
      let (u, valid, h3) =
        >>=-eq-ok (validate_victims lib id reads entries p.victims [] false) _ h2 in
      (entries, read, validate_victims-Ordered lib id reads entries p.victims [] false valid)

  -- One call of `Execute` dispatches a beginning of its plan, at most 128 requests of the owner in all,
  -- and everything if it succeeds. An owner that is marked as executed dispatches nothing and stays
  -- marked; a call whose check of the owner passes, and any that dispatches something, returns the owner
  -- marked. What it dispatches is in the
  -- validated order: no backup behind a segment, and every live dependent before its parent.
  pub execute-IsExecuted : IsExecuted g p answers (execute lib id reads encoded_size g p answers)
  unfolding execute Begins
  execute-IsExecuted = by_check (check_owner g answers.read) refl
    where
      o : GcOwner
      o = record g { executed = true }

      marked : Error → GcOwner
      marked e = record o { uncertain = if ambiguous e then true else o.uncertain }

      run : GcOwner × List Victim × Result (Unit {0})
      run = destroy_all o p.victims answers.turns 0

      by_write :
          (w : Option Error)
          → g.executed ≡ false
          → admit_plan lib id reads encoded_size o p answers ≡ ok tt
          → IsExecuted g p answers (elim w [ none ↦ run | some e ↦ (marked e, [], err e) ])
      by_write (some e) fresh admitted = refused (marked e) e (λ h. refl) (λ h. refl)
      by_write none fresh admitted =
          let d = destroy_all-IsDestroyed o p.victims answers.turns 0 in
          let (entries, read, all_ordered) = admit_plan-Ordered o admitted in
          let (rest, split) = d.begins in
          record {
            begins = d.begins;
            once = λ h. cc (h, fresh);
            latched = λ h. d.marked;
            stays = λ h. d.marked;
            spent = inr d.marked;
            few = d.counted;
            ordered = inr (
              entries,
              read,
              Ordered-append_left entries [] false run.1 rest
                  (subst (λ (l : List Victim). Ordered entries [] false l) (sym split) all_ordered),
            );
            complete = d.complete;
          }

      by_admission :
          (a : Result (Unit {0}))
          → g.executed ≡ false
          → admit_plan lib id reads encoded_size o p answers ≡ a
          → IsExecuted g p answers (elim a [
            | err e ↦ (o, [], err e)
            | ok w ↦ elim answers.plan_write [ none ↦ run | some e ↦ (marked e, [], err e) ]
          ])
      by_admission (err e) fresh same = refused o e (λ h. refl) (λ h. refl)
      by_admission (ok w) fresh same = by_write answers.plan_write fresh same

      by_executed :
          (b : Bool)
          → g.executed ≡ b
          → IsExecuted g p answers (
              if b
              then (g, [], err Error.closed)
              else (elim (admit_plan lib id reads encoded_size o p answers) [
                | err e ↦ (o, [], err e)
                | ok w ↦ elim answers.plan_write [ none ↦ run | some e ↦ (marked e, [], err e) ]
              ]))
      by_executed true e = refused g Error.closed (λ h. e) (λ h. h)
      by_executed false e = by_admission (admit_plan lib id reads encoded_size o p answers) e refl

      by_check :
          (c : Result (Unit {0}))
          → check_owner g answers.read ≡ c
          → IsExecuted g p answers (elim c [
            | err e ↦ (g, [], err e)
            | ok u ↦
                if g.executed
                then (g, [], err Error.closed)
                else (elim (admit_plan lib id reads encoded_size o p answers) [
                  | err e ↦ (o, [], err e)
                  | ok w ↦ elim answers.plan_write [ none ↦ run | some e ↦ (marked e, [], err e) ]
                ])
          ])
      by_check (err e) same = refused g e (λ h. cc (h, same)) (λ h. h)
      by_check (ok u) same = by_executed g.executed refl
