-- ===== src/Watch/Kinds.antt =====
-- What the watcher makes of the flags of an event.
use gd_sync_harness.Prelude.{
  ℕ, Bool, ◌⊎◌, Option, ◌≡◌, ◌↔◌, ◌||◌, ◌&&◌, true, false, some, none, [], ◌∷◌, arith, ◌==◌,
  if◌then◌else◌,
}
use gd_sync_harness.Db.Schema.{EventKind, modify, rename, other}
use gd_sync_harness.Watch.{
  any_flag, has_flag, classify, platform_specific, created, updated, removed, renamed, moved_from,
  moved_to, is_file, is_dir, is_symlink, overflow,
}

-- The order of the tests, on any outcomes of them.
abbrev kind_by : Bool → Bool → Bool → Bool → Bool → Bool → Option EventKind
kind_by unsafe symlink dir named gone plain =
    if unsafe
    then some other
    else if symlink
    then some other
    else if dir
    then (if named then some other else none)
    else if gone
    then some rename
    else if plain
    then some modify
    else some other

kind_by-modify :
    (z s d m r w : Bool)
    → (kind_by z s d m r w ≡ some modify)
      ↔ ((z ≡ false) × (s ≡ false) × (d ≡ false) × (r ≡ false) × (w ≡ true))
kind_by-modify z s d m r w = (λ h. ground arith, λ h. ground arith)

kind_by-none :
    (z s d m r w : Bool)
    → (kind_by z s d m r w ≡ none) ↔ ((z ≡ false) × (s ≡ false) × (d ≡ true) × (m ≡ false))
kind_by-none z s d m r w = (λ h. ground arith, λ h. ground arith)

kind_by-total :
    (z s d m r w : Bool)
    → (kind_by z s d m r w ≡ some modify)
      ⊎ (kind_by z s d m r w ≡ none)
      ⊎ (kind_by z s d m r w ≡ some rename)
      ⊎ (kind_by z s d m r w ≡ some other)
kind_by-total z s d m r w = ground arith

-- A plain content change of a file, and nothing that took a name away.
abbrev pub IsUpload : ℕ → Type 0
IsUpload flags =
    ((flags == 0 || any_flag (overflow ∷ platform_specific ∷ []) flags) ≡ false)
    × (has_flag is_symlink flags ≡ false)
    × (has_flag is_dir flags ≡ false)
    × (any_flag (removed ∷ renamed ∷ moved_from ∷ []) flags ≡ false)
    × ((any_flag (created ∷ updated ∷ moved_to ∷ []) flags && has_flag is_file flags) ≡ true)

-- Nothing but a change inside a directory that moves no name.
abbrev pub IsDropped : ℕ → Type 0
IsDropped flags =
    ((flags == 0 || any_flag (overflow ∷ platform_specific ∷ []) flags) ≡ false)
    × (has_flag is_symlink flags ≡ false)
    × (has_flag is_dir flags ≡ true)
    × (any_flag (created ∷ removed ∷ renamed ∷ moved_from ∷ moved_to ∷ []) flags ≡ false)

-- The watcher decides of every number of flags: the event is a change of content exactly if its flags
-- are neither zero, overflow nor platform specific, it is of a file that is no link and no
-- directory, it was created, updated or moved to, and its name was not taken away; it is dropped
-- exactly if it is of a directory, complete, and moves no name; all else is a rename or unknown.
pub classify_exact :
    (flags : ℕ)
    → ((classify flags ≡ some modify) ↔ IsUpload flags)
      × ((classify flags ≡ none) ↔ IsDropped flags)
      × ((classify flags ≡ some modify)
          ⊎ (classify flags ≡ none)
          ⊎ (classify flags ≡ some rename)
          ⊎ (classify flags ≡ some other))
unfolding classify
classify_exact flags =
    let unsafe = flags == 0 || any_flag (overflow ∷ platform_specific ∷ []) flags in
    let symlink = has_flag is_symlink flags in
    let dir = has_flag is_dir flags in
    let named = any_flag (created ∷ removed ∷ renamed ∷ moved_from ∷ moved_to ∷ []) flags in
    let gone = any_flag (removed ∷ renamed ∷ moved_from ∷ []) flags in
    let plain = any_flag (created ∷ updated ∷ moved_to ∷ []) flags && has_flag is_file flags in
    (
      kind_by-modify unsafe symlink dir named gone plain,
      kind_by-none unsafe symlink dir named gone plain,
      kind_by-total unsafe symlink dir named gone plain,
    )
