-- ===== src/Manifest/Refresh.antt =====
-- What a refresh of the managed ledger does to each entry.
use gd_sync_harness.Prelude.{ℕ, String, ◌≡◌, ◌&&◌, ◌||◌, List, str_eq, elem, if◌then◌else◌}
use gd_sync_harness.Db.Ledger.{
  ManifestEntry, EntryState, active, suppressed, protected, is_suppressed,
}
use gd_sync_harness.Manifest.{suppress, reactivate}

-- The transition table of one entry of the profile.
abbrev pub transition :
    String → ℕ → List String → List String → EntryState → ManifestEntry → ManifestEntry
transition policy_hash generation scanned proven active e =
    if elem e.rel_path scanned || elem e.rel_path proven
    then e
    else suppress policy_hash generation e
transition policy_hash generation scanned proven suppressed e =
    if elem e.rel_path scanned then reactivate e else e
transition policy_hash generation scanned proven protected e = e

abbrev pub refresh_entry :
    String → String → ℕ → List String → List String → ManifestEntry → ManifestEntry
refresh_entry p policy_hash generation scanned proven e =
    if str_eq e.profile_id p then transition policy_hash generation scanned proven e.state e else e

abbrev revived : String → List String → ManifestEntry → ManifestEntry
revived p paths e =
    if str_eq e.profile_id p && is_suppressed e.state && elem e.rel_path paths
    then reactivate e
    else e

data StateCases (s : EntryState) : Type 0 where
  at_active : s ≡ active → StateCases s
  at_suppressed : s ≡ suppressed → StateCases s
  at_protected : s ≡ protected → StateCases s
