-- ===== src/Retention/Planner/Expiry.antt =====
-- What `Plan` of planner.go lets expire, and in which order.
use mathlib.Core.List.Memᴰ.{cases_cons}
use cnpg_backup.Prelude.{
  ◌∙◌, ℕ, true, false, ◌≡◌, ◌≢◌, refl, sym, ap, subst, ◌↔◌, inl, inr, List, [], ◌∷◌, Memᴰ, Option,
  ok, Text, arith, All, All-of-mem, All-mem, Bool-cases, text_lt_asymm, text_ge_trans,
}
use cnpg_backup.Prelude.Sort.{sort, mem-sort, sort-mem, sort-IsSorted, IsSorted}
use cnpg_backup.Retention.Planner.{plan}
use cnpg_backup.Retention.Planner.Facts.{
  Backup, Inventory, Hint, Decision, Keep, is_kept, get_backup, is_empty,
}
use cnpg_backup.Retention.Planner.Paths.{PathMap, is_parent_of, backup_ok, check_parents}
use cnpg_backup.Retention.Planner.Select.{expires_before, unkept_ids, expire_ids}
use cnpg_backup.Retention.Planner.Trace.{Trace, final_keep}
use cnpg_backup.Retention.Planner.Index.{
  get_backup-mem, get_backup-parent, index_backups-ok, IsKeyed,
}
use cnpg_backup.Retention.Planner.Keeping.{trace, by_id-IsKeyed}

module _ (by_id : List Backup) where
  before_asymm : (i j : Text) → expires_before by_id i j ≡ true → expires_before by_id j i ≡ false
  unfolding expires_before
  before_asymm i j h = ground (arith, text_lt_asymm (get_backup i by_id).id (get_backup j by_id).id)

  before_chain :
      (i j k : Text)
      → expires_before by_id j i ≡ false
      → expires_before by_id k j ≡ false
      → expires_before by_id k i ≡ false
  unfolding expires_before
  before_chain i j k p q =
      ground (
        arith,
        text_ge_trans (get_backup i by_id).id (get_backup j by_id).id (get_backup k by_id).id,
      )

  -- Behind a full there are fulls only.
  full_behind_full :
      (i j : Text)
      → expires_before by_id j i ≡ false
      → is_empty (get_backup i by_id).parent ≡ true
      → is_empty (get_backup j by_id).parent ≡ true
  unfolding expires_before
  full_behind_full i j h full = ground arith

module _ (keep : Keep) where
  unkept-mem :
      (id : Text) (bs : List Backup)
      → Memᴰ id (unkept_ids keep bs)
      → (b : Backup) × Memᴰ b bs × (b.id ≡ id) × (is_kept id keep ≡ false)
  unfolding unkept_ids
  unkept-mem id [] m = elim m [ ]
  unkept-mem id (b ∷ bs) m = elim (Bool-cases (is_kept b.id keep)) [
    | inl kept ↦
        let (c, at_c, e, out) = unkept-mem id bs (rw kept at m) in (c, Memᴰ.tail at_c, e, out)
    | inr lost ↦ elim (cases_cons (rw lost at m)) [
      | inl e ↦ (b, Memᴰ.head refl, sym e, rw e lost)
      | inr n ↦ let (c, at_c, e, out) = unkept-mem id bs n in (c, Memᴰ.tail at_c, e, out)
    ]
  ]

  mem-unkept :
      (b : Backup) (bs : List Backup)
      → Memᴰ b bs
      → is_kept b.id keep ≡ false
      → Memᴰ b.id (unkept_ids keep bs)
  unfolding unkept_ids
  mem-unkept b [] m lost = elim m [ ]
  mem-unkept b (c ∷ bs) (Memᴰ.head e) lost =
      let e' = ap (λ (x : Backup). x.id) e in
      rw (subst (λ t. is_kept t keep ≡ false) e' lost) (Memᴰ.head e')
  mem-unkept b (c ∷ bs) (Memᴰ.tail m) lost = elim (Bool-cases (is_kept c.id keep)) [
    | inl kept ↦ rw kept (mem-unkept b bs m lost)
    | inr out ↦ rw out (Memᴰ.tail (mem-unkept b bs m lost))
  ]

-- In a list of identifiers no backup stands before one of its children.
unfoldable pub ChildrenFirst : List Backup → List Text → Type 0
ChildrenFirst backups [] = Unit
ChildrenFirst backups (i ∷ rest) =
    All (λ j. (c : Backup) → Memᴰ c backups → c.id ≡ j → c.parent ≢ i) rest
    × ChildrenFirst backups rest

module _ (m : List Backup) (keyed : IsKeyed m)
    (parent_full : (c : Backup)
      → Memᴰ c m
      → is_empty c.parent ≡ false
      → is_empty (get_backup c.parent m).parent ≡ true)
    (named : (c : Backup) → Memᴰ c m → is_empty c.id ≡ false) where
  sorted-ChildrenFirst :
      (ids : List Text)
      → ((i : Text) → Memᴰ i ids → is_empty i ≡ false)
      → IsSorted (expires_before m) ids
      → ChildrenFirst m ids
  unfolding ChildrenFirst
  sorted-ChildrenFirst [] some h = tt
  sorted-ChildrenFirst (i ∷ ids) some (low, h) = (
    All-of-mem (λ j. (c : Backup) → Memᴰ c m → c.id ≡ j → c.parent ≢ i) ids
        (λ j at_j c at_c e is_child.
          let own : get_backup j m ≡ c =
            subst (λ t. get_backup t m ≡ c) e (get_backup-mem m c keyed at_c) in
          let child : is_empty c.parent ≡ false =
            subst (λ t. is_empty t ≡ false) (sym is_child) (some i (Memᴰ.head refl)) in
          let full : is_empty (get_backup i m).parent ≡ true =
            subst (λ t. is_empty (get_backup t m).parent ≡ true) is_child
              (parent_full c at_c child) in
          let also =
            full_behind_full m i j (All-mem (λ k. expires_before m k i ≡ false) ids at_j low)
              full in
          cc (subst (λ (f : Backup). is_empty f.parent ≡ true) own also, child)),
    sorted-ChildrenFirst ids (λ j n. some j (Memᴰ.tail n)) h,
  )

named_of_ok : (m : PathMap) (b : Backup) → backup_ok m b ≡ true → is_empty b.id ≡ false
unfolding backup_ok is_empty
named_of_ok m b h = ground arith

full_of_parent : (f b : Backup) → is_parent_of f b ≡ true → is_empty f.parent ≡ true
unfolding is_parent_of is_empty
full_of_parent f b h = ground arith

module _ (inv : Inventory) (cutoff minimum : ℕ) (hint : Option Hint) {d : Decision}
    (planned : plan inv cutoff minimum hint ≡ ok d) where
  abbrev facts : Trace inv cutoff minimum hint d
  facts = trace inv cutoff minimum hint planned

  -- When `plan` succeeds, a known backup expires exactly when it is not kept, and only identifiers of
  -- known backups expire.
  pub plan-expire :
      ((b : Backup) → Memᴰ b inv.backups → Memᴰ b.id d.expire ↔ (is_kept b.id d.keep ≡ false))
      × ((i : Text) → Memᴰ i d.expire → (b : Backup) × Memᴰ b inv.backups × (b.id ≡ i))
  unfolding expire_ids
  plan-expire =
      let before = expires_before facts.by_id in
      let keep = final_keep inv cutoff minimum facts.by_id in
      let ids = unkept_ids keep inv.backups in
      (
        λ b m. (
          λ at_b.
              let (c, at_c, e, out) =
                unkept-mem keep b.id inv.backups (mem-sort before ids (rw facts.expire at at_b)) in
              rw facts.keep out,
          λ out.
              rw facts.expire
                (sort-mem before ids (mem-unkept keep b inv.backups m (rw facts.keep at out))),
        ),
        λ i at_i.
            let (c, at_c, e, out) =
              unkept-mem keep i inv.backups (mem-sort before ids (rw facts.expire at at_i)) in
            (c, at_c, e),
      )

  -- When `plan` succeeds, no identifier in the list of expiring backups stands before that of a known
  -- backup whose parent it is.
  pub plan-ChildrenFirst : ChildrenFirst inv.backups d.expire
  unfolding expire_ids
  plan-ChildrenFirst =
      let (same, keyed) = by_id-IsKeyed inv cutoff minimum hint planned in
      let m = facts.by_id in
      let keep = final_keep inv cutoff minimum m in
      let ids = unkept_ids keep inv.backups in
      let checked : check_parents m m ≡ true =
        subst (λ (l : List Backup). check_parents m l ≡ true) (sym same) facts.parents in
      let named : (c : Backup) → Memᴰ c m → is_empty c.id ≡ false = λ c at_c.
        named_of_ok facts.paths c (
          index_backups-ok facts.paths inv.backups [] facts.backups
            (subst (λ (l : List Backup). Memᴰ c l) same at_c)) in
      subst (λ (l : List Backup). ChildrenFirst l d.expire) same
        (rw facts.expire (
          sorted-ChildrenFirst m keyed
            (λ c at_c child. full_of_parent _ c (get_backup-parent m c checked at_c child)) named
            (sort (expires_before m) ids)
            (λ i at_i.
              let (c, at_c, e, out) =
                unkept-mem keep i inv.backups (mem-sort (expires_before m) ids at_i) in
              subst (λ t. is_empty t ≡ false) e
                (named c (subst (λ (l : List Backup). Memᴰ c l) (sym same) at_c)))
            (sort-IsSorted (expires_before m) (before_asymm m) (before_chain m) ids)))

  -- Every identifier that expires is a text of its own.
  pub plan-named : (i : Text) → Memᴰ i d.expire → is_empty i ≡ false
  plan-named i at_i =
      let (c, at_c, e) = plan-expire.1 i at_i in
      subst (λ t. is_empty t ≡ false) e
        (named_of_ok facts.paths c (index_backups-ok facts.paths inv.backups [] facts.backups at_c))

  -- No known backup is its own parent.
  pub plan-parent_other :
      (c : Backup) → Memᴰ c inv.backups → is_empty c.parent ≡ false → c.parent ≢ c.id
  plan-parent_other c at_c child self =
      let (same, keyed) = by_id-IsKeyed inv cutoff minimum hint planned in
      let m = facts.by_id in
      let known : Memᴰ c m = subst (λ (l : List Backup). Memᴰ c l) (sym same) at_c in
      let checked : check_parents m m ≡ true =
        subst (λ (l : List Backup). check_parents m l ≡ true) (sym same) facts.parents in
      let full : is_empty (get_backup c.parent m).parent ≡ true =
        full_of_parent (get_backup c.parent m) c (get_backup-parent m c checked known child) in
      let own : get_backup c.parent m ≡ c =
        ap (λ (t : Text). get_backup t m) self ∙ get_backup-mem m c keyed known in
      let none_left : is_empty c.parent ≡ true =
        subst (λ (f : Backup). is_empty f.parent ≡ true) own full in
      cc (none_left, child)
