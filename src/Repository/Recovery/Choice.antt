-- ===== src/Repository/Recovery/Choice.antt =====
-- plan.go: which commit `Select` chooses.
use mathlib.Core.List.Memᴰ.{cases_cons}
use cnpg_backup.Prelude.{
  Bool, true, false, not, ◌||◌, ◌≡◌, refl, subst, ◌⊎◌, inl, inr, List, [], ◌∷◌, Memᴰ, Option, none,
  some, if◌then◌else◌, arith, Bool-cases, text_ge_trans, text_lt_asymm,
}
use cnpg_backup.Repository.Schema.Records.{Library, Commit}
use cnpg_backup.Repository.Recovery.Target.{Target, Timeline}
use cnpg_backup.Repository.Recovery.Eligible.{eligible, newer_commit, choose}

module _ (lib : Library) where
  newer_irrefl : (a : Commit) → newer_commit lib a a ≡ false
  unfolding newer_commit
  newer_irrefl a = ground (arith, text_lt_asymm a.backup_uid a.backup_uid)

  newer_asymm : (a b : Commit) → newer_commit lib a b ≡ true → newer_commit lib b a ≡ false
  unfolding newer_commit
  newer_asymm a b h = ground (arith, text_lt_asymm b.backup_uid a.backup_uid)

  -- Not being newer passes on.
  newer_chain :
      (a b c : Commit)
      → newer_commit lib a b ≡ false
      → newer_commit lib b c ≡ false
      → newer_commit lib a c ≡ false
  unfolding newer_commit
  newer_chain a b c p q = ground (arith, text_ge_trans a.backup_uid b.backup_uid c.backup_uid)

  module _ (t : Target) (path : List Timeline) where
    -- An entry that may be chosen.
    abbrev pub Usable : Commit × Bool → Type 0
    Usable e = (e.1 ≡ false) × (eligible lib e.0 t path ≡ true)

    -- No usable entry of the list is newer than the commit.
    pub IsNewest : List (Commit × Bool) → Commit → Type 0
    IsNewest entries c =
        (e : Commit × Bool) → Memᴰ e entries → Usable e → newer_commit lib e.0 c ≡ false

    pub record IsChoice (entries : List (Commit × Bool)) (start : Option Commit) (c : Commit)
        : Type 0 where
      pub known : ((e : Commit × Bool) × Memᴰ e entries × Usable e × (e.0 ≡ c)) ⊎ (start ≡ some c)
      pub newest : IsNewest entries c
      pub after_start : (b : Commit) → start ≡ some b → newer_commit lib b c ≡ false

    -- One entry's part of the loop.
    abbrev next_choice : Commit × Bool → Option Commit → Option Commit
    next_choice e start = if e.1 || not (eligible lib e.0 t path) then start else (elim start [
      | none ↦ some e.0
      | some best ↦ if newer_commit lib e.0 best then some e.0 else some best
    ])

    -- What one entry does: it is taken, or it is no usable entry that is newer than the best so far.
    record IsNext (e : Commit × Bool) (start next : Option Commit) : Type 0 where
      from : ((next ≡ some e.0) × Usable e) ⊎ (next ≡ start)
      kept :
          (b : Commit)
          → start ≡ some b
          → (c : Commit) × (next ≡ some c) × (newer_commit lib b c ≡ false)
      seen : Usable e → (c : Commit) × (next ≡ some c) × (newer_commit lib e.0 c ≡ false)

    next_choice-IsNext :
        (e : Commit × Bool) (start : Option Commit) → IsNext e start (next_choice e start)
    next_choice-IsNext e start = elim (Bool-cases (e.1 || not (eligible lib e.0 t path))) [
      | inl skipped ↦ rw skipped (record {
        from = inr refl;
        kept = λ b h. (b, h, newer_irrefl b);
        seen = λ u. cc (skip_usable e.1 (eligible lib e.0 t path) skipped u.0 u.1);
      })
      | inr usable ↦ rw usable (by_start start (used e.1 (eligible lib e.0 t path) usable))
    ]
      where
        skip_usable : (r l : Bool) → (r || not l) ≡ true → r ≡ false → l ≡ true → true ≡ false
        skip_usable r l p q s = ground arith

        used : (r l : Bool) → (r || not l) ≡ false → (r ≡ false) × (l ≡ true)
        used r l p = ground arith

        by_start :
            (s : Option Commit)
            → Usable e
            → IsNext e s (elim s [
              | none ↦ some e.0
              | some best ↦ if newer_commit lib e.0 best then some e.0 else some best
            ])
        by_start none u = record {
          from = inl (refl, u);
          kept = λ b h. cc h;
          seen = λ _. (e.0, refl, newer_irrefl e.0);
        }
        by_start (some best) u = elim (Bool-cases (newer_commit lib e.0 best)) [
          | inl newer ↦ rw newer (record {
            from = inl (refl, u);
            kept = λ b h. (
              e.0,
              refl,
              subst (λ x. newer_commit lib x e.0 ≡ false) (cc h) (newer_asymm e.0 best newer),
            );
            seen = λ _. (e.0, refl, newer_irrefl e.0);
          })
          | inr older ↦ rw older (record {
            from = inr refl;
            kept = λ b h. (b, h, newer_irrefl b);
            seen = λ _. (best, refl, older);
          })
        ]

    choose-IsChoice_from :
        (entries : List (Commit × Bool)) (start : Option Commit) {c : Commit}
        → choose lib t path entries start ≡ some c
        → IsChoice entries start c
    unfolding choose IsNewest
    choose-IsChoice_from [] start {c} h = record {
      known = inr h;
      newest = λ e m. elim m [ ];
      after_start =
          λ b k. subst (λ x. newer_commit lib b x ≡ false) (start_is b k) (newer_irrefl b);
    }
      where
        start_is : (b : Commit) → start ≡ some b → b ≡ c
        start_is b k = cc (h, k)
    choose-IsChoice_from (e ∷ entries) start {c} h =
        let later = choose-IsChoice_from entries (next_choice e start) h in
        let one = next_choice-IsNext e start in
        record {
          known = by_known later.known one.from;
          newest = λ x m u. elim (cases_cons m) [
            | inl same ↦
                let (b, next, older) = one.seen (subst (λ (y : Commit × Bool). Usable y) same u) in
                rw same (newer_chain e.0 b c older (later.after_start b next))
            | inr n ↦ later.newest x n u
          ];
          after_start = λ b k.
              let (b', next, older) = one.kept b k in
              newer_chain b b' c older (later.after_start b' next);
        }
      where
        by_known :
            (((x : Commit × Bool) × Memᴰ x entries × Usable x × (x.0 ≡ c))
              ⊎ (next_choice e start ≡ some c))
            → ((next_choice e start ≡ some e.0) × Usable e) ⊎ (next_choice e start ≡ start)
            → ((x : Commit × Bool) × Memᴰ x (e ∷ entries) × Usable x × (x.0 ≡ c)) ⊎ (start ≡ some c)
        by_known (inl (x, m, u, same)) from = inl (x, Memᴰ.tail m, u, same)
        by_known (inr k) (inl (taken, u)) = inl (e, Memᴰ.head refl, u, cc (k, taken))
        by_known (inr k) (inr same) = inr (cc (k, same))

    -- The commit that is chosen from a catalog is that of an entry of it which is not retired and is
    -- eligible for the target, and no other such entry has a newer commit.
    pub choose-IsChoice :
        (entries : List (Commit × Bool)) {c : Commit}
        → choose lib t path entries none ≡ some c
        → ((e : Commit × Bool) × Memᴰ e entries × Usable e × (e.0 ≡ c)) × IsNewest entries c
    choose-IsChoice entries {c} h =
        let choice = choose-IsChoice_from entries none h in (known_of choice.known, choice.newest)
      where
        known_of :
            (((e : Commit × Bool) × Memᴰ e entries × Usable e × (e.0 ≡ c))
              ⊎ (◌≡◌ {A = Option Commit} none (some c)))
            → (e : Commit × Bool) × Memᴰ e entries × Usable e × (e.0 ≡ c)
        known_of (inl k) = k
        known_of (inr k) = cc k
