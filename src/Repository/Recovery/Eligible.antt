-- ===== src/Repository/Recovery/Eligible.antt =====
-- plan.go: which backup can reach a target, and which one is newer.
use cnpg_backup.Prelude.{
  ℕ, Bool, true, false, not, ◌&&◌, ◌||◌, List, [], ◌∷◌, Option, none, some, text_eq, text_lt, codes,
  ltb, leb, ◌==◌, if◌then◌else◌, ok, err,
}
use cnpg_backup.Repository.Names.Lsn.{parse_lsn, lsn_or_zero}
use cnpg_backup.Repository.Schema.Records.{Library, Commit, stamp}
use cnpg_backup.Repository.Schema.Commits.{stamp_or_zero}
use cnpg_backup.Repository.Recovery.Target.{Target, Timeline, target_is, time_target}

-- The path from the backup's own timeline on, and `none` where the path lacks it.
unfoldable pub path_from : ℕ → List Timeline → Option (List Timeline)
path_from timeline [] = none
path_from timeline (v ∷ vs) =
    let rest = path_from timeline vs in if v.id == timeline then some vs else rest

-- A fork whose position passes a test; an absent or malformed one passes none.
unfoldable pub fork_passes : (ℕ → Bool) → Timeline → Bool
unfolding parse_lsn
fork_passes p t = elim t.fork_lsn [
  | none ↦ false
  | some s ↦ elim (parse_lsn s) [ err e ↦ false | ok fork ↦ p fork ]
]

unfoldable pub ends_before_fork : ℕ → List Timeline → Bool
unfolding fork_passes
ends_before_fork end [] = true
ends_before_fork end (next ∷ ts) = fork_passes (λ fork. ltb end fork) next

unfoldable pub reaches_forks : ℕ → List Timeline → Bool
unfolding fork_passes
reaches_forks target [] = true
reaches_forks target (next ∷ ts) =
    fork_passes (λ fork. leb fork target) next && reaches_forks target ts

-- `switch t.Kind`, over the timelines behind the backup's own.
unfoldable pub target_reachable : Library → Commit → Target → List Timeline → Bool
unfolding stamp time_target parse_lsn lsn_or_zero reaches_forks text_eq
target_reachable lib c t later =
    if target_is t (codes "time")
    then elim (stamp lib c.stopped_at) [
      | none ↦ false
      | some stop ↦ elim (time_target lib t.value) [ err e ↦ false | ok target ↦ ltb stop target ]
    ]
    else (if target_is t (codes "lsn")
        then (elim (parse_lsn t.value) [
          | err e ↦ false
          | ok target ↦ ltb (lsn_or_zero c.stop_lsn) target && reaches_forks target later
        ])
        else true)

unfoldable pub eligible : Library → Commit → Target → List Timeline → Bool
unfolding path_from ends_before_fork target_reachable text_eq lsn_or_zero
eligible lib c t path =
    (elim t.backup_uid [ none ↦ true | some uid ↦ text_eq uid c.backup_uid ])
    && (elim (path_from c.timeline path) [
      | none ↦ false
      | some later ↦
          ends_before_fork (lsn_or_zero c.stop_lsn) later && target_reachable lib c t later
    ])

unfoldable pub newer_commit : Library → Commit → Commit → Bool
unfolding stamp_or_zero text_lt
newer_commit lib a b =
    let ta = stamp_or_zero lib a.stopped_at in
    let tb = stamp_or_zero lib b.stopped_at in
    if ta == tb then text_lt b.backup_uid a.backup_uid else ltb tb ta

-- The callback of `Select`: the newest eligible commit that is not retired in plan.go.
unfoldable pub choose :
    Library → Target → List Timeline → List (Commit × Bool) → Option Commit → Option Commit
unfolding eligible newer_commit
choose lib t path [] chosen = chosen
choose lib t path ((c, retired) ∷ rest) chosen = choose lib t path rest (
    if retired || not (eligible lib c t path) then chosen else (elim chosen [
      | none ↦ some c
      | some best ↦ if newer_commit lib c best then some c else some best
    ]))
