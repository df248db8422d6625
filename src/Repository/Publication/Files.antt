-- ===== src/Repository/Publication/Files.antt =====
-- internal/repository/publication.go: `verifyFile`, on an open file and what reading it gives.
use cnpg_backup.Prelude.{
  ℕ, [], ◌+◌, Bool, false, not, ◌&&◌, ◌||◌, Option, none, some, Text, text_eq, codes, ◌==◌,
  if◌then◌else◌, length, take, Result, ok, err, Error, guard, ◌>>◌,
}
use cnpg_backup.Wal.Objects.{Member, no_header, member}

-- `Stat` and the first pass may fail; the second pass reads the same bytes, or fails.
pub record File : Type 0 where
  pub unknown : Option Error
  pub regular : Bool
  pub content : Text
  pub unread : Option Error
  pub reread : Bool

-- Size, hash and compression of what is stored, and size and hash of what it stands for.
pub record Expected : Type 0 where
  pub size : ℕ
  pub hash : Text
  pub compression : Text
  pub raw : ℕ
  pub raw_hash : Text

abbrev pub no_failure : Option Error → Result (Unit {0})
no_failure none = ok tt
no_failure (some e) = err e

module _ (sha256 : Text → Text) (gunzip : Text → Member) where
  -- The second pass, over at most one byte more than the raw size.
  unfoldable pub verify_raw : Bool → Expected → Member → Result (Unit {0})
  unfolding text_eq
  verify_raw reread want no_header = err Error.corrupt
  verify_raw reread want (member content rest broken) =
      let copy = take (want.raw + 1) content in
      guard
        (reread
          && not broken
          && length copy == want.raw
          && text_eq (sha256 copy) want.raw_hash
          && (not (text_eq want.compression (codes "gzip")) || length rest == 0))
        Error.corrupt

  unfoldable pub verify_file : Option File → Expected → Result (Unit {0})
  unfolding text_eq verify_raw
  verify_file none want = err Error.invalid
  verify_file (some f) want = do
    no_failure f.unknown
    guard (f.regular && length f.content == want.size) Error.corrupt
    no_failure f.unread
    guard (text_eq (sha256 f.content) want.hash) Error.corrupt
    if text_eq want.compression (codes "gzip")
        then verify_raw f.reread want (gunzip f.content)
        else (if text_eq want.compression (codes "none")
            then verify_raw f.reread want (member f.content [] false)
            else err Error.invalid)
