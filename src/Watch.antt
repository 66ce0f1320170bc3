-- ===== src/Watch.antt =====
-- The watcher: internal/watch/watcher.go. Its readers get the bytes that fswatch writes, pairs of a
-- path and a number of flags, each ended by NUL.
pub mod Flags
pub mod Stream
pub mod Kinds
pub mod Window
pub mod Firing
pub mod Handling
use gd_sync_harness.Prelude.{
  ℕ, ◌+◌, ◌*◌, ◌/◌, ◌%◌, ◌-◌, ◌^◌, String, Bool, true, false, not, ◌&&◌, ◌||◌, Option, none, some,
  List, [], ◌∷◌, ◌++◌, map, length, leb, ltb, ◌==◌, str_eq, elem, if◌then◌else◌,
}
use mathlib.Core.Option
use gd_sync_harness.Db.Table.{select_where, count_where}
use gd_sync_harness.Db.Schema.{Db, EventKind, modify, rename, other, PendingEvent}
use gd_sync_harness.Db.Ledger.{Store}
use gd_sync_harness.Sync.{has_debt}
use gd_sync_harness.Events.{is_of, has_destructive_pending, promote_to_full_reconcile}
use gd_sync_harness.Paths.{Text, slash}

-- splitNUL, as the scanner applies it: the records, where the last one may lack its NUL; `token` is
-- what was read of the current record.
unfoldable pub nul_records : Text → Text → List Text
nul_records token [] = elim token [ [] ↦ [] | c ∷ s ↦ (c ∷ s) ∷ [] ]
nul_records token (c ∷ s) =
    let next = token ∷ nul_records [] s in
    let more = nul_records (token ++ c ∷ []) s in if c == 0 then next else more

-- strings.TrimSpace, on ASCII
abbrev pub is_space : ℕ → Bool
is_space c = (leb 9 c && leb c 13) || c == 32

abbrev pub drop_leading : Text → Text
drop_leading [] = []
drop_leading (c ∷ s) = let rest = drop_leading s in if is_space c then rest else c ∷ s

abbrev pub is_blank : Text → Bool
is_blank [] = true
is_blank (c ∷ s) = is_space c && is_blank s

abbrev pub drop_trailing : Text → Text
drop_trailing [] = []
drop_trailing (c ∷ s) = if is_space c && is_blank s then [] else c ∷ drop_trailing s

-- A step of the loop of parseFlags, in uint64; none once a byte was no digit.
abbrev pub read_digit : ℕ → ℕ → Option ℕ
read_digit n c = if leb b'0' c && leb c b'9' then some ((n * 10 + (c - b'0')) % 2 ^ 64) else none

unfoldable pub read_digits : ℕ → Text → Option ℕ
read_digits n [] = some n
read_digits n (c ∷ s) = elim (read_digit n c) [ none ↦ none | some m ↦ read_digits m s ]

abbrev pub or_zero : Option ℕ → ℕ
or_zero none = 0
or_zero (some n) = n

-- parseFlags
unfoldable pub parse_flags : Text → ℕ
unfolding read_digits
parse_flags s = or_zero (read_digits 0 (drop_trailing (drop_leading s)))

-- The loop of readLoop: an empty record where a path is due is skipped, and a path without its flags
-- has none.
unfoldable pub pair_records : Text → List Text → List (Text × ℕ)
unfolding parse_flags
pair_records [] [] = []
pair_records (c ∷ s) [] = (c ∷ s, 0) ∷ []
pair_records [] (r ∷ rs) = pair_records r rs
pair_records (c ∷ s) (r ∷ rs) = (c ∷ s, parse_flags r) ∷ pair_records [] rs

-- scanner.Buffer: the scanner stops at the first record that does not fit, with its NUL, in 2^20
-- bytes.
abbrev pub max_record : ℕ
max_record = 1048576

unfoldable pub scanned_records : List Text → List Text
scanned_records [] = []
scanned_records (r ∷ rs) =
    let rest = scanned_records rs in if ltb (length r) max_record then r ∷ rest else []

-- The events in what fswatch wrote.
unfoldable pub events_in : Text → List (Text × ℕ)
unfolding nul_records scanned_records pair_records
events_in s = pair_records [] (scanned_records (nul_records [] s))

-- flags&mask != 0, for a mask of one bit
abbrev pub has_flag : ℕ → ℕ → Bool
has_flag mask flags = (flags / mask) % 2 == 1

abbrev pub platform_specific : ℕ
platform_specific = 1

abbrev pub created : ℕ
created = 2

abbrev pub updated : ℕ
updated = 4

abbrev pub removed : ℕ
removed = 8

abbrev pub renamed : ℕ
renamed = 16

abbrev pub moved_from : ℕ
moved_from = 128

abbrev pub moved_to : ℕ
moved_to = 256

abbrev pub is_file : ℕ
is_file = 512

abbrev pub is_dir : ℕ
is_dir = 1024

abbrev pub is_symlink : ℕ
is_symlink = 2048

abbrev pub overflow : ℕ
overflow = 8192

abbrev pub any_flag : List ℕ → ℕ → Bool
any_flag [] flags = false
any_flag (mask ∷ masks) flags = has_flag mask flags || any_flag masks flags

-- classify; none for an event that is dropped
unfoldable pub classify : ℕ → Option EventKind
classify flags =
    if flags == 0 || any_flag (overflow ∷ platform_specific ∷ []) flags
    then some other
    else if has_flag is_symlink flags
    then some other
    else if has_flag is_dir flags
    then (if any_flag (created ∷ removed ∷ renamed ∷ moved_from ∷ moved_to ∷ []) flags
        then some other
        else none)
    else if any_flag (removed ∷ renamed ∷ moved_from ∷ []) flags
    then some rename
    else if any_flag (created ∷ updated ∷ moved_to ∷ []) flags && has_flag is_file flags
    then some modify
    else some other

-- What fireBatch asks its listeners for.
pub data Fired : Type 0 where
  reconcile quiet missing_runtime : Fired
  batch : List String → Fired

abbrev pub in_window : List String → PendingEvent → Bool
in_window window e = elem e.path window

-- The backlog that is too large for the fast lane.
abbrev pub too_many : ℕ → ℕ → Bool
too_many pending manifest =
    ltb 500 pending || (ltb 0 manifest && ltb (manifest * 5) (pending * 100))

abbrev owes_run : String → Db → Bool
owes_run p db = elim (db.sync_state p) [ none ↦ false | some s ↦ has_debt s ]

-- The listener that hears of a batch in the fast lane.
abbrev pub told : String → Db → List PendingEvent → Fired
told p db [] = if owes_run p db then reconcile else quiet
told p db (e ∷ es) = batch (map (λ v. v.path) (e ∷ es))

-- fireBatch
unfoldable pub fire_batch : String → List String → ℕ → Store → Store × Fired
fire_batch p window now st =
    let pending = select_where (is_of p) st.db.pending_events in
    let chosen = select_where (in_window window) pending in
    let manifest = count_where (λ e. str_eq e.profile_id p) st.manifest in
    if has_destructive_pending p st.db || too_many (length pending) manifest
    then (elim (st.db.runtime p) [
      | none ↦ (st, missing_runtime)
      | some r ↦
          (record st { db = promote_to_full_reconcile p r.source_generation now st.db }, reconcile)
    ])
    else (st, told p st.db chosen)
