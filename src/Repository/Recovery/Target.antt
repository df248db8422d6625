-- ===== src/Repository/Recovery/Target.antt =====
-- plan.go: the recovery target and its validation.
use cnpg_backup.Prelude.{
  ℕ, ◌-◌, ◌^◌, Bool, true, false, not, ◌&&◌, Option, none, some, Text, text_eq, codes, leb, ◌==◌,
  if◌then◌else◌, length, Result, ok, err, Error, guard, ◌>>=◌, ◌>>◌,
}
use cnpg_backup.Repository.Names.Hex.{valid_id, decimal}
use cnpg_backup.Repository.Names.Lsn.{parse_lsn}
use cnpg_backup.Repository.Schema.Records.{Library, is_none, valid_text}

pub record Target : Type 0 where
  pub kind : Text
  pub value : Text
  pub exclusive : Bool
  pub backup_uid : Option Text
  pub timeline : ℕ

-- `ForkLSN` is absent only at the initial timeline.
pub record Timeline : Type 0 where
  pub id : ℕ
  pub fork_lsn : Option Text

abbrev pub target_is : Target → Text → Bool
target_is t k = text_eq t.kind k

unfoldable pub time_target : Library → Text → Result ℕ
time_target lib s = elim (lib.parse_time s) [ none ↦ err Error.invalid | some t ↦ ok t ]

-- `switch t.Kind`.
unfoldable pub target_kind : Library → Target → Result (Unit {0})
unfolding time_target parse_lsn valid_text decimal is_none text_eq
target_kind lib t =
    if target_is t (codes "latest")
    then guard (length t.value == 0 && not t.exclusive) Error.invalid
    else (if target_is t (codes "time")
        then (time_target lib t.value >>= λ n. ok tt)
        else (if target_is t (codes "lsn")
            then (parse_lsn t.value >>= λ n. ok tt)
            else (if target_is t (codes "name")
                then guard
                    (valid_text lib t.value 63 && not t.exclusive && not (is_none t.backup_uid))
                    Error.invalid
                else (if target_is t (codes "xid")
                    then guard
                        ((elim (decimal t.value) [
                          | none ↦ false
                          | some n ↦ leb 3 n && leb n (2 ^ 32 - 1)
                        ])
                          && not (is_none t.backup_uid))
                        Error.invalid
                    else (if target_is t (codes "immediate")
                        then guard
                            (length t.value == 0 && not t.exclusive && not (is_none t.backup_uid))
                            Error.invalid
                        else err Error.invalid)))))

unfoldable pub validate_target : Library → Target → Result (Unit {0})
unfolding target_kind valid_id
validate_target lib t = do
  guard (not (t.timeline == 0) && (elim t.backup_uid [ none ↦ true | some uid ↦ valid_id uid ]))
      Error.invalid
  target_kind lib t
