-- ===== src/Repository/Recovery/Path.antt =====
-- plan.go: the checks of the timeline path of a plan.
use cnpg_backup.Prelude.{
  ℕ, Bool, true, false, not, ◌&&◌, List, [], ◌∷◌, none, some, ltb, leb, ◌==◌, ok, err,
}
use cnpg_backup.Repository.Names.Lsn.{parse_lsn}
use cnpg_backup.Repository.Recovery.Target.{Timeline}

-- The timelines behind the first: identifiers grow, so none comes twice, and forks do not fall.
unfoldable pub later_timelines_ok : ℕ → ℕ → List Timeline → Bool
unfolding parse_lsn
later_timelines_ok previous last [] = true
later_timelines_ok previous last (t ∷ ts) = ltb previous t.id && (elim t.fork_lsn [
  | none ↦ false
  | some s ↦ elim (parse_lsn s) [
    | err e ↦ false
    | ok n ↦ leb last n && later_timelines_ok t.id n ts
  ]
])

unfoldable pub path_timelines_ok : List Timeline → Bool
unfolding later_timelines_ok
path_timelines_ok [] = true
path_timelines_ok (t ∷ ts) =
    not (t.id == 0)
    && (elim t.fork_lsn [ none ↦ true | some s ↦ false ])
    && later_timelines_ok t.id 0 ts

unfoldable pub last_timeline : List Timeline → ℕ
last_timeline [] = 0
last_timeline (t ∷ []) = t.id
last_timeline (t ∷ u ∷ ts) = last_timeline (u ∷ ts)
