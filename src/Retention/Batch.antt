-- ===== src/Retention/Batch.antt =====
-- internal/retention/run.go: the batch of destructive requests that one run asks for.
-- `hashes` is the map of the commits' digests; an archived object stands beside its segment, as the
-- slices `in.Segments` and `objects` grow together.
pub mod Order
use mathlib.Core.List.{append_assoc, append-nil}
use cnpg_backup.Prelude.{
  ℕ, ◌+◌, ◌≤◌, ◌<◌, Bool, true, false, ◌&&◌, ◌≡◌, refl, ap, ◌∙◌, sym, and_left, ◌⊎◌, inl, inr, List,
  [], ◌∷◌, ◌++◌, map, Memᴰ, none, some, Text, if◌then◌else◌, length, ltb, leb, ◌==◌, arith,
  Bool-cases, length-append, leb→le,
}
use cnpg_backup.Retention.Planner.Facts.{Segment, Decision}
use cnpg_backup.Repository.Gc.{Victim, retire_backup, retire_wal}

pub record WalObject : Type 0 where
  pub name : Text
  pub etag : Text
  pub sha256 : Text
  pub raw_bytes : ℕ
  pub retired : Bool

abbrev pub batch_limit : ℕ
batch_limit = 128

abbrev pub retire_backup_victim : (hashes : Text → Text) → Text → Victim
retire_backup_victim hashes id = record {
  kind = retire_backup;
  backup_uid = some id;
  attempt_id = none;
  index = none;
  compression = none;
  upload_id = none;
  wal_name = none;
  expected_etag = none;
  sha256 = hashes id;
  raw_bytes = 0;
}

abbrev pub retire_wal_victim : WalObject → Victim
retire_wal_victim ob = record {
  kind = retire_wal;
  backup_uid = none;
  attempt_id = none;
  index = none;
  compression = none;
  upload_id = none;
  wal_name = some ob.name;
  expected_etag = some ob.etag;
  sha256 = ob.sha256;
  raw_bytes = ob.raw_bytes;
}

-- A loop that appends until the batch is full.
unfoldable pub fill : List Victim → List Victim → List Victim
fill victims [] = victims
fill victims (v ∷ vs) =
    let rest = fill (victims ++ v ∷ []) vs in
    if length victims == batch_limit then victims else rest

unfoldable pub is_obsolete : (current floor : ℕ) → Segment → Bool
is_obsolete current floor seg = seg.live && seg.timeline == current && ltb seg.start floor

-- The loop over the segments, each with its object.
unfoldable pub fill_wal :
    (current floor : ℕ) → List Victim → List (Segment × WalObject) → List Victim
unfolding is_obsolete
fill_wal current floor victims [] = victims
fill_wal current floor victims ((seg, ob) ∷ rest) =
    if length victims == batch_limit
    then victims
    else fill_wal current floor
        (if is_obsolete current floor seg then victims ++ retire_wal_victim ob ∷ [] else victims)
        rest

unfoldable pub batch :
    (hashes : Text → Text)
    → Decision
    → (cleanup : List Victim) → List (Segment × WalObject)
    → List Victim
unfolding fill fill_wal
batch hashes d cleanup segments =
    let first = fill (fill [] (map (retire_backup_victim hashes) d.expire)) cleanup in
    if leb (length d.expire) batch_limit && ltb (length first) batch_limit
    then fill_wal d.current d.wal_floor first segments
    else first

grown :
    (victims : List Victim) (v : Victim)
    → length victims ≤ 128
    → (length victims == batch_limit) ≡ false
    → length (victims ++ v ∷ []) ≤ 128
grown victims v h space =
    let less : length victims < 128 = ground arith in omega (arith, length-append victims (v ∷ []))

-- What a loop adds to a batch, which stays within its limit.
unfoldable pub Adds : List Victim → List Victim → Type 0
Adds victims r = (length r ≤ 128) × (added : List Victim) × (r ≡ victims ++ added)

pub fill-Adds :
    (victims more : List Victim) → length victims ≤ 128 → Adds victims (fill victims more)
unfolding fill Adds
fill-Adds victims [] h = (h, [], sym (append-nil victims))
fill-Adds victims (v ∷ vs) h = elim (Bool-cases (length victims == batch_limit)) [
  | inl full ↦ rw full (h, [], sym (append-nil victims))
  | inr space ↦
      let (few, added, e) = fill-Adds (victims ++ v ∷ []) vs (grown victims v h space) in
      rw space (few, v ∷ added, e ∙ append_assoc victims (v ∷ []) added)
]

fill-all :
    (victims more : List Victim)
    → length victims + length more ≤ 128
    → fill victims more ≡ victims ++ more
unfolding fill
fill-all victims [] h = sym (append-nil victims)
fill-all victims (v ∷ vs) h =
    let space : (length victims == batch_limit) ≡ false = ground arith in
    let fits : length (victims ++ v ∷ []) + length vs ≤ 128 =
      omega (arith, length-append victims (v ∷ [])) in
    rw space (fill-all (victims ++ v ∷ []) vs fits ∙ append_assoc victims (v ∷ []) vs)

-- The segments that a batch retires are obsolete ones of the list.
unfoldable pub AddsWal :
    (current floor : ℕ) → List Victim → List (Segment × WalObject) → List Victim → Type 0
AddsWal current floor victims segments r =
    (length r ≤ 128)
    × (wal : List (Segment × WalObject)) × (r ≡ victims ++ map (λ x. retire_wal_victim x.1) wal)
    × ((x : Segment × WalObject)
        → Memᴰ x wal
        → Memᴰ x segments × (is_obsolete current floor x.0 ≡ true))

pub fill_wal-AddsWal :
    (current floor : ℕ) (victims : List Victim) (segments : List (Segment × WalObject))
    → length victims ≤ 128
    → AddsWal current floor victims segments (fill_wal current floor victims segments)
unfolding fill_wal AddsWal
fill_wal-AddsWal current floor victims [] h = (h, [], sym (append-nil victims), λ x m. elim m [ ])
fill_wal-AddsWal current floor victims ((seg, ob) ∷ rest) h =
    elim (Bool-cases (length victims == batch_limit)) [
      | inl full ↦ rw full (h, [], sym (append-nil victims), λ x m. elim m [ ])
      | inr space ↦ elim (Bool-cases (is_obsolete current floor seg)) [
        | inl old ↦
            let (few, wal, e, from) =
              fill_wal-AddsWal current floor (victims ++ retire_wal_victim ob ∷ []) rest
                (grown victims (retire_wal_victim ob) h space) in
            rw space (
              rw old (
                few,
                (seg, ob) ∷ wal,
                e ∙ append_assoc victims (retire_wal_victim ob ∷ []) _,
                among seg ob wal from old,
              ))
        | inr needed ↦
            let (few, wal, e, from) = fill_wal-AddsWal current floor victims rest h in
            rw space (rw needed (few, wal, e, λ x m. let (n, o) = from x m in (Memᴰ.tail n, o)))
      ]
    ]
  where
    among :
        (seg : Segment) (ob : WalObject) (wal : List (Segment × WalObject))
        → ((x : Segment × WalObject)
            → Memᴰ x wal
            → Memᴰ x rest × (is_obsolete current floor x.0 ≡ true))
        → is_obsolete current floor seg ≡ true
        → (x : Segment × WalObject) → Memᴰ x ((seg, ob) ∷ wal)
        → Memᴰ x ((seg, ob) ∷ rest) × (is_obsolete current floor x.0 ≡ true)
    among seg ob wal from old x (Memᴰ.head e) = (Memᴰ.head e, rw e old)
    among seg ob wal from old x (Memᴰ.tail m) = let (n, o) = from x m in (Memᴰ.tail n, o)

-- What a batch is made of.
pub record IsBatch (hashes : Text → Text) (d : Decision) (segments : List (Segment × WalObject))
    (r : List Victim) : Type 0 where
  pub few : length r ≤ 128
  pub before : List Victim
  pub wal : List (Segment × WalObject)
  pub split : r ≡ before ++ map (λ x. retire_wal_victim x.1) wal
  pub obsolete :
      (x : Segment × WalObject)
      → Memᴰ x wal
      → Memᴰ x segments × (is_obsolete d.current d.wal_floor x.0 ≡ true)
  pub complete :
      (wal ≡ [])
      ⊎ ((cleaned : List Victim) × (before ≡ map (retire_backup_victim hashes) d.expire ++ cleaned))

length-map : (f : Text → Victim) (l : List Text) → length (map f l) ≡ length l
length-map f [] = refl
length-map f (x ∷ l) = omega (arith, length-map f l)

-- A batch has at most 128 requests. The segments that it retires come last; each is a live segment
-- of the list, on the current timeline and below the floor. A batch that retires any segment retires
-- every expired backup before.
pub batch-IsBatch :
    (hashes : Text → Text) (d : Decision) (cleanup : List Victim)
    (segments : List (Segment × WalObject))
    → IsBatch hashes d segments (batch hashes d cleanup segments)
unfolding batch Adds AddsWal
batch-IsBatch hashes d cleanup segments =
    elim (Bool-cases (leb (length d.expire) batch_limit && ltb (length first) batch_limit)) [
      | inl room ↦
          let (few, wal, e, from) =
            fill_wal-AddsWal d.current d.wal_floor first segments first_few in
          rw room (record {
            few = few;
            before = first;
            wal = wal;
            split = e;
            obsolete = from;
            complete = inr (all_expired (and_left _ _ room));
          })
      | inr full ↦ rw full (record {
        few = first_few;
        before = first;
        wal = [];
        split = sym (append-nil first);
        obsolete = λ x m. elim m [ ];
        complete = inl refl;
      })
    ]
  where
    expired : List Victim
    expired = map (retire_backup_victim hashes) d.expire

    first : List Victim
    first = fill (fill [] expired) cleanup

    first_few : length first ≤ 128
    first_few = (fill-Adds (fill [] expired) cleanup (fill-Adds [] expired (omega arith)).0).0

    all_expired :
        leb (length d.expire) batch_limit ≡ true
        → (cleaned : List Victim) × (first ≡ expired ++ cleaned)
    all_expired h =
        let fits : length expired ≤ 128 =
          omega (arith, length-map (retire_backup_victim hashes) d.expire, leb→le _ _ h) in
        let all_of = fill-all [] expired (omega (arith, fits)) in
        let (few, cleaned, e) = fill-Adds expired cleanup fits in
        (cleaned, ap (λ l. fill l cleanup) all_of ∙ e)
