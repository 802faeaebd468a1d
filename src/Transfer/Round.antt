-- ===== src/Transfer/Round.antt =====
-- A backup and a restore behind it.
use hyperbytedb_operator.Prelude.{
  ℕ, ◌≤◌, ◌<◌, ◌≡◌, refl, ap, ◌∙◌, Bool, true, false, ◌&&◌, List, [], ◌∷◌, ◌++◌, Option, none, some,
  Bool-cases, inl, inr, All, arith,
}
use hyperbytedb_operator.Prelude.Int.{ℤ}
use hyperbytedb_operator.Transfer.Scripts.{
  Folder, stamped, named, Prefix, retention, is_expired, clean_up, upload, latest, fetched,
  download, greatest, restore_dir,
}

-- A folder that is no backup, or one from before a time.
abbrev pub IsBefore {ℓ} : {A : Type ℓ} → ℕ → Folder × A → Type 0
IsBefore now (stamped t, a) = t < now
IsBefore now (named n, a) = Unit {0}

module _ {A : Type 0} (removes : Folder → Bool) (cutoff : ℕ) where
  clean_up-append :
      (xs ys : List (Folder × A))
      → clean_up removes cutoff (xs ++ ys)
        ≡ clean_up removes cutoff xs ++ clean_up removes cutoff ys
  unfolding clean_up
  clean_up-append [] ys = refl
  clean_up-append ((f, a) ∷ xs) ys = elim (Bool-cases (is_expired cutoff f && removes f)) [
    | inl b ↦ simp (b) (clean_up-append xs ys)
    | inr b ↦ simp (b) (ap (λ l. (f, a) ∷ l) (clean_up-append xs ys))
  ]

  clean_up-IsBefore :
      (now : ℕ) (xs : List (Folder × A))
      → All (IsBefore now) xs
      → All (IsBefore now) (clean_up removes cutoff xs)
  unfolding clean_up
  clean_up-IsBefore now [] h = tt
  clean_up-IsBefore now ((f, a) ∷ xs) h = elim (Bool-cases (is_expired cutoff f && removes f)) [
    | inl b ↦ simp (b) (clean_up-IsBefore now xs h.1)
    | inr b ↦ simp (b) (h.0, clean_up-IsBefore now xs h.1)
  ]

  clean_up-new :
      (now : ℕ) (a : A)
      → cutoff ≤ now
      → clean_up removes cutoff ((stamped now, a) ∷ []) ≡ (stamped now, a) ∷ []
  unfolding clean_up is_expired
  clean_up-new now a h = ground (arith, h)

module _ {A : Type 0} where
  latest-append :
      (now : ℕ) (a : A) (xs : List (Folder × A))
      → All (IsBefore now) xs
      → latest (xs ++ (stamped now, a) ∷ []) ≡ some (now, a)
  unfolding latest
  latest-append now a [] h = refl
  latest-append now a ((stamped t, b) ∷ xs) h =
      rw (latest-append now a xs h.1) (ground (arith, h.0))
  latest-append now a ((named n, b) ∷ xs) h = latest-append now a xs h.1

  -- what the download leaves of a latest backup
  abbrev only : A → Folder → A → Prefix A
  only empty f a = record { folders = (f, a) ∷ []; root = empty }

  download-latest :
      (empty : A) (t : ℕ) (a : A) (p : Prefix A)
      → latest p.folders ≡ some (t, a)
      → download empty true p ≡ only empty (stamped t) a
  unfolding download
  download-latest empty t a p e = ap (fetched empty p) e

  restore_dir-one :
      (before : Folder → Folder → Bool) (has_manifest : A → Bool) (empty a : A) (f : Folder)
      → has_manifest a ≡ true
      → has_manifest empty ≡ false
      → restore_dir before has_manifest (only empty f a) ≡ a
  unfolding restore_dir greatest
  restore_dir-one before has_manifest empty a f full bare = simp (bare, full) refl

  latest-upload :
      (days_ago : ℤ → ℕ → ℕ) (removes : Folder → Bool) (sent : Option A) (days : ℤ) (now : ℕ)
      (snapshot : A) (p : Prefix A)
      → ((d : ℤ) → days_ago d now ≤ now)
      → All (IsBefore now) p.folders
      → latest (upload days_ago removes none sent days now snapshot p).1.folders
        ≡ some (now, snapshot)
  unfolding upload
  latest-upload days_ago removes sent days now snapshot p past old =
      let cutoff = days_ago (retention days) now in
      ap latest (clean_up-append removes cutoff p.folders ((stamped now, snapshot) ∷ []))
      ∙ ap (λ l. latest (clean_up removes cutoff p.folders ++ l))
          (clean_up-new removes cutoff now snapshot (past (retention days)))
      ∙ latest-append now snapshot (clean_up removes cutoff p.folders)
          (clean_up-IsBefore removes cutoff now p.folders old)

-- What is restored behind an upload that did not fail is what was uploaded: if no backup under the prefix
-- is from that second or later, `date` does not put the cutoff behind the present, and the snapshot has a
-- manifest, whatever else lies under the prefix and whichever removals fail.
pub restore_dir-upload :
    {A : Type 0} (days_ago : ℤ → ℕ → ℕ) (removes : Folder → Bool) (sent : Option A) (days : ℤ)
    (now : ℕ) (snapshot empty : A) (p : Prefix A) (before : Folder → Folder → Bool)
    (has_manifest : A → Bool)
    → ((d : ℤ) → days_ago d now ≤ now)
    → All (IsBefore now) p.folders
    → has_manifest snapshot ≡ true
    → has_manifest empty ≡ false
    → restore_dir before has_manifest
        (download empty true (upload days_ago removes none sent days now snapshot p).1)
      ≡ snapshot
restore_dir-upload days_ago removes sent days now snapshot empty p before has_manifest past old full
      bare =
    let found = latest-upload days_ago removes sent days now snapshot p past old in
    ap (restore_dir before has_manifest) (download-latest empty now snapshot _ found)
    ∙ restore_dir-one before has_manifest empty snapshot (stamped now) full bare
