-- ===== src/Transfer/Scripts.antt =====
-- What the scripts of internal/controller/s3_transfer.go do: s3UploadContainer, s3DownloadInitContainer
-- and restoreDataContainer. A snapshot is an `A`. The folders under the prefix are a list; the time in a
-- folder's name is a number, since texts of eight and of six digits are ordered as the numbers are. The
-- S3 client and `date` are parameters.
use hyperbytedb_operator.Prelude.{
  ℕ, String, Bool, false, ◌&&◌, List, [], ◌∷◌, ◌++◌, Option, none, some, ltb, if◌then◌else◌, Result,
  ok, err, Failure,
}
use hyperbytedb_operator.Prelude.Int.{ℤ, pos, ltb_ℤ}

-- The name of a folder: eight digits, a dash and six digits; or another.
pub data Folder : Type 0 where
  stamped : ℕ → Folder
  named : String → Folder

-- What lies under the prefix: the folders, and what lies beside them.
pub record Prefix (A : Type 0) : Type 0 where
  pub folders : List (Folder × A)
  pub root : A

unfoldable pub retention : ℤ → ℤ
retention days = if ltb_ℤ days (pos 1) then pos 7 else days

-- A folder that is a backup from before the cutoff.
unfoldable pub is_expired : ℕ → Folder → Bool
is_expired cutoff (stamped t) = ltb t cutoff
is_expired cutoff (named n) = false

module _ {A : Type 0} where
  -- The loop that cleans up. A removal that fails, of which `removes` tells, ends nothing.
  unfoldable pub clean_up : (removes : Folder → Bool) → ℕ → List (Folder × A) → List (Folder × A)
  unfolding is_expired
  clean_up removes cutoff [] = []
  clean_up removes cutoff ((f, a) ∷ fs) =
      let rest = clean_up removes cutoff fs in
      if is_expired cutoff f && removes f then rest else (f, a) ∷ rest

  -- The upload at a time. `synced` is the error, if any, of the copy, behind which the script stops; then
  -- `sent`, the part of the snapshot that was copied, is there.
  unfoldable pub upload :
      (days_ago : ℤ → ℕ → ℕ) (removes : Folder → Bool) (synced : Option Failure) (sent : Option A)
      → ℤ
      → ℕ
      → A
      → Prefix A
      → Result (Unit {0}) × Prefix A
  unfolding clean_up retention
  upload days_ago removes (some e) none days now snapshot p = (err e, p)
  upload days_ago removes (some e) (some part) days now snapshot p =
      (err e, record p { folders = p.folders ++ (stamped now, part) ∷ [] })
  upload days_ago removes none sent days now snapshot p = (
    ok tt,
    record p {
      folders =
          clean_up removes (days_ago (retention days) now)
            (p.folders ++ (stamped now, snapshot) ∷ []);
    },
  )

  -- The greater of two backups, of which the first is by `sort` and `tail` the last one of a time.
  abbrev pub later : ℕ × A → Option (ℕ × A) → Option (ℕ × A)
  later x none = some x
  later (t, a) (some (u, b)) = if ltb u t then some (t, a) else some (u, b)

  -- LATEST
  unfoldable pub latest : List (Folder × A) → Option (ℕ × A)
  latest [] = none
  latest ((stamped t, a) ∷ fs) = later (t, a) (latest fs)
  latest ((named n, a) ∷ fs) = latest fs

  abbrev pub fetched : (empty : A) → Prefix A → Option (ℕ × A) → Prefix A
  fetched empty p none = p
  fetched empty p (some (t, a)) = record { folders = (stamped t, a) ∷ []; root = empty }

  -- /snapshot after the download. `listed` is whether the client could list the folders: the script goes
  -- on if not.
  unfoldable pub download : (empty : A) → (listed : Bool) → Prefix A → Prefix A
  download empty listed p = fetched empty p (if listed then latest p.folders else none)

  -- SUBDIR: the greatest name in the order of `sort`
  unfoldable pub greatest :
      (before : Folder → Folder → Bool) → List (Folder × A) → Option (Folder × A)
  greatest before [] = none
  greatest before ((f, a) ∷ fs) = elim (greatest before fs) [
    | none ↦ some (f, a)
    | some (g, b) ↦ if before f g then some (g, b) else some (f, a)
  ]

  -- The directory that `hyperbytedb restore` is given.
  unfoldable pub restore_dir :
      (before : Folder → Folder → Bool) → (has_manifest : A → Bool) → Prefix A → A
  unfolding greatest
  restore_dir before has_manifest p =
      if has_manifest p.root then p.root else elim (greatest before p.folders) [
        | none ↦ p.root
        | some (g, b) ↦ if has_manifest b then b else p.root
      ]
