-- ===== src/Repository/Cleanup/Orphans.antt =====
-- internal/repository/retention_inventory.go: what `Cleanup` may return.
use cnpg_backup.Prelude.{
  ℕ, zero, suc, ◌+◌, ◌≤◌, Bool, true, false, not, ◌&&◌, ◌||◌, ◌≡◌, refl, subst, List, [], ◌∷◌, ◌++◌,
  Option, none, some, Text, leb, leb→le, codes, if◌then◌else◌, length, length-append, All, arith,
  Result, ok, err, Error, ◌>>=◌, >>=-eq-ok, guard-eq-ok, ok-injective, and_right,
}
use cnpg_backup.Repository.Schema.Records.{Library, Identity, is_none, valid_text}
use cnpg_backup.Repository.Gate.{Gate}
use cnpg_backup.Repository.Gc.{GcOwner, Victim, check_owner, validate_victim}
use cnpg_backup.Repository.History.Inventory.{has_suffix}
use cnpg_backup.Repository.Publication.Stored.{Claim, Json}
use cnpg_backup.Repository.Cleanup.{
  Snapshot, contains, catalog_key, read_claim, check_listed, eligible_attempt, victim_kind,
  make_victim, payload_victim, attempt_file, candidate, listed_object, listed_upload, collect,
  cleanup,
}

some-injective : {v w : Victim} → some v ≡ some w → v ≡ w
some-injective h = cc

module _ (lib : Library) (json : Json) (id : Identity) (now : Snapshot) where
  -- A victim names a claimed attempt that no live commit stands on, and passes `validateVictim`.
  pub record IsLeft (v : Victim) : Type 0 where
    pub uid : Text
    pub attempt : Text
    pub names_backup : v.backup_uid ≡ some uid
    pub names_attempt : v.attempt_id ≡ some attempt
    pub orphaned : eligible_attempt lib json id now uid attempt ≡ ok true
    pub claim : Claim
    pub claimed : read_claim lib json id now uid attempt ≡ ok claim
    pub same_request : v.sha256 ≡ claim.request_sha256
    pub accepted : validate_victim lib id now.reads [] v ≡ ok tt

  make_victim-IsLeft :
      (uid attempt : Text) (rest : List Text) (upload : Option Text) (v : Victim)
      → eligible_attempt lib json id now uid attempt ≡ ok true
      → make_victim lib json id now uid attempt rest upload ≡ ok (some v)
      → IsLeft v
  unfolding make_victim
  make_victim-IsLeft uid attempt rest upload v orphaned h =
      let (cl, a, h) = >>=-eq-ok (read_claim lib json id now uid attempt) _ h in
      let (kind, b, h) = >>=-eq-ok (victim_kind lib json id now rest (not (is_none upload))) _ h in
      let made = payload_victim lib json id now uid attempt kind upload cl in
      let (u, c, h) = >>=-eq-ok (validate_victim lib id now.reads [] made) _ h in
      let left : IsLeft made = record {
        uid = uid;
        attempt = attempt;
        names_backup = refl;
        names_attempt = refl;
        orphaned = orphaned;
        claim = cl;
        claimed = a;
        same_request = refl;
        accepted = c;
      } in
      subst IsLeft (some-injective (ok-injective h)) left

  none_left :
      {C : Type 0} {v : Victim} → ◌≡◌ {A = Result (Option Victim)} (ok none) (ok (some v)) → C
  none_left h = absurd cc

  attempt_file-IsLeft :
      (uid : Text) (parts : List Text) (upload : Option Text) (v : Victim)
      → attempt_file lib json id now uid parts upload ≡ ok (some v)
      → IsLeft v
  unfolding attempt_file
  attempt_file-IsLeft uid [] upload v h = absurd cc
  attempt_file-IsLeft uid (a ∷ []) upload v h = absurd cc
  attempt_file-IsLeft uid (a ∷ b ∷ []) upload v h = absurd cc
  attempt_file-IsLeft uid (a ∷ b ∷ attempt ∷ rest) upload v h =
      let (u, c, h) = >>=-eq-ok (check_listed lib json id now uid attempt) _ h in
      let (orphaned, d, h) = >>=-eq-ok (eligible_attempt lib json id now uid attempt) _ h in
      judged orphaned d h
    where
      judged :
          (b : Bool)
          → eligible_attempt lib json id now uid attempt ≡ ok b
          → (if b then make_victim lib json id now uid attempt rest upload else ok none)
            ≡ ok (some v)
          → IsLeft v
      judged true p q = make_victim-IsLeft uid attempt rest upload v p q
      judged false p q = none_left q

  candidate-IsLeft :
      (key : Text) (upload : Option Text) (v : Victim)
      → candidate lib json id now key upload ≡ ok (some v)
      → IsLeft v
  unfolding candidate
  candidate-IsLeft key upload v h =
      let (parts, a, h) =
        >>=-eq-ok
          (elim (catalog_key lib json id now key) [ none ↦ err Error.corrupt | some v ↦ ok v ]) _
          h in
      attempt_file-IsLeft parts.0 parts.1 upload v h

  object-IsLeft :
      (key : Text) (v : Victim) → listed_object lib json id now key ≡ ok (some v) → IsLeft v
  unfolding listed_object
  object-IsLeft key v h =
      inspected (is_none (catalog_key lib json id now key))
        (has_suffix (codes "/manifest.pg.json") key || contains (codes "/data/") key) h
    where
      inspected :
          (a b : Bool)
          → (if a
              then err Error.corrupt
              else (if b then candidate lib json id now key none else ok none))
            ≡ ok (some v)
          → IsLeft v
      inspected true b q = absurd cc
      inspected false true q = candidate-IsLeft key none v q
      inspected false false q = none_left q

  upload-IsLeft :
      (u : Text × Text) (v : Victim) → listed_upload lib json id now u ≡ ok (some v) → IsLeft v
  unfolding listed_upload
  upload-IsLeft u v h =
      let (a, h) = guard-eq-ok (valid_text lib u.1 2048) Error.corrupt _ h in
      candidate-IsLeft u.0 (some u.1) v h

  -- What a scan has found: victims of the kind, and as many fewer left to find.
  abbrev Found : ℕ → ℕ × List Victim → Type 0
  Found left found = All IsLeft found.1 × (length found.1 + found.0 ≡ left)

  module _ {A : Type 0} (inspect : A → Result (Option Victim))
      (sound : (x : A) (v : Victim) → inspect x ≡ ok (some v) → IsLeft v) where
    abbrev search_for : List A → ℕ → Result (ℕ × List Victim)
    search_for xs left = collect lib json id now inspect xs left

    abbrev keep : List A → ℕ → Option Victim → Result (ℕ × List Victim)
    keep xs left o = elim o [
      | none ↦ search_for xs left
      | some v ↦ elim left [
        | zero ↦ search_for xs zero
        | suc fewer ↦ search_for xs fewer >>= λ rest. ok (rest.0, v ∷ rest.1)
      ]
    ]

    kept :
        (x : A) (xs : List A) (left : ℕ) (o : Option Victim) (found : ℕ × List Victim)
        → inspect x ≡ ok o
        → ((n : ℕ) (f : ℕ × List Victim) → search_for xs n ≡ ok f → Found n f)
        → keep xs left o ≡ ok found
        → Found left found
    kept x xs left none found p ih h = ih left found h
    kept x xs zero (some v) found p ih h = ih zero found h
    kept x xs (suc fewer) (some v) found p ih h =
        let (rest, a, b) = >>=-eq-ok (search_for xs fewer) _ h in
        let (sound_rest, count) = ih fewer rest a in
        subst (Found (suc fewer)) (ok-injective b) ((sound x v p, sound_rest), omega (arith, count))

    scanned :
        (xs : List A) (left : ℕ) (found : ℕ × List Victim)
        → search_for xs left ≡ ok found
        → Found left found
    unfolding collect
    scanned [] left found h = subst (Found left) (ok-injective h) (tt, omega arith)
    scanned (x ∷ xs) left found h =
        let (o, a, b) = >>=-eq-ok (inspect x) (λ o. keep xs left o) h in
        kept x xs left o found a (scanned xs) b

  both : (vs ws : List Victim) → All IsLeft vs → All IsLeft ws → All IsLeft (vs ++ ws)
  both [] ws h k = k
  both (v ∷ vs) ws h k = (h.0, both vs ws h.1 k)

  -- What `Cleanup` returns are at most as many victims as asked for and no more than 128; each names an
  -- attempt that was claimed with the victim's digest, on which no live commit stands, and passes
  -- `validateVictim`.
  pub cleanup-IsLeft :
      (g : GcOwner) (gate : Result Gate) (objects : List Text) (uploads : List (Text × Text))
      (limit : ℕ) (victims : List Victim)
      → cleanup lib json id now g gate objects uploads limit ≡ ok victims
      → All IsLeft victims × ((length victims ≤ limit) × (limit ≤ 128))
  unfolding cleanup
  cleanup-IsLeft g gate objects uploads limit victims h =
      let (u, a, h) = >>=-eq-ok (check_owner g gate) _ h in
      let (b, h) = guard-eq-ok (leb 1 limit && leb limit 128) Error.invalid _ h in
      let (first, c, h) =
        >>=-eq-ok (collect lib json id now (listed_object lib json id now) objects limit) _ h in
      let (second, d, h) =
        >>=-eq-ok (collect lib json id now (listed_upload lib json id now) uploads first.0) _ h in
      let (left, count) =
        scanned (listed_object lib json id now) object-IsLeft objects limit first c in
      let (more, rest) =
        scanned (listed_upload lib json id now) upload-IsLeft uploads first.0 second d in
      let whole : length (first.1 ++ second.1) ≡ length first.1 + length second.1 =
        length-append first.1 second.1 in
      let bound : limit ≤ 128 = leb→le limit 128 (and_right (leb 1 limit) (leb limit 128) b) in
      subst (λ vs. All IsLeft vs × ((length vs ≤ limit) × (limit ≤ 128))) (ok-injective h)
        (both first.1 second.1 left more, (omega (arith, count, rest, whole), bound))
