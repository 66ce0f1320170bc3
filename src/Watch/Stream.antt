-- ===== src/Watch/Stream.antt =====
-- The stream that the readers of a watcher take apart.
use gd_sync_harness.Prelude.{
  length, ltb, true, ℕ, ◌<◌, ◌≡◌, ◌≢◌, ◌∙◌, refl, ap, false, List, [], ◌∷◌, ◌++◌, All, ◌==◌, arith,
  cons_cong,
}
use mathlib.Core.List.{append_assoc, append-nil}
use gd_sync_harness.Paths.{Text}
use gd_sync_harness.Watch.{
  max_record, scanned_records, nul_records, pair_records, parse_flags, events_in,
}
use gd_sync_harness.Watch.Flags.{
  flag_text, wide, flag_text-no_nul, flag_text-short, parse_flags-flag_text,
}

-- What fswatch is asked to write of an event: `%p%0%f`, ended by NUL.
abbrev pub event_bytes : Text × ℕ → Text → Text
event_bytes e rest = e.0 ++ 0 ∷ (flag_text e.1 ++ 0 ∷ rest)

abbrev pub stream : List (Text × ℕ) → Text
stream [] = []
stream (e ∷ es) = event_bytes e (stream es)

-- An event that the reader takes: a path that is not empty, has no NUL and fits the scanner's buffer,
-- and flags that fit.
abbrev pub Reported : Text × ℕ → Type 0
Reported e = (e.0 ≢ []) × All (λ c. c ≢ 0) e.0 × (length e.0 < max_record) × (e.1 < wide)

nul_records-record :
    (token s rest : Text)
    → All (λ c. c ≢ 0) s
    → nul_records token (s ++ 0 ∷ rest) ≡ (token ++ s) ∷ nul_records [] rest
unfolding nul_records
nul_records-record token [] rest h = rw (append-nil token) refl
nul_records-record token (c ∷ s) rest h =
    let plain : (c == 0) ≡ false = ground (arith, h.0) in
    rw plain (
      nul_records-record (token ++ c ∷ []) s rest h.1
      ∙ ap (λ x. x ∷ nul_records [] rest) (append_assoc token (c ∷ []) s))

pair_records-event :
    (path flags : Text) (rs : List Text)
    → path ≢ []
    → pair_records [] (path ∷ flags ∷ rs) ≡ (path, parse_flags flags) ∷ pair_records [] rs
unfolding pair_records
pair_records-event [] flags rs h = absurd (h refl)
pair_records-event (c ∷ path) flags rs h = refl

nul_records-event :
    (e : Text × ℕ) (rest : Text)
    → Reported e
    → nul_records [] (event_bytes e rest) ≡ e.0 ∷ flag_text e.1 ∷ nul_records [] rest
nul_records-event e rest h =
    let path : nul_records [] (event_bytes e rest)
        ≡ e.0 ∷ nul_records [] (flag_text e.1 ++ 0 ∷ rest) =
      nul_records-record [] e.0 (flag_text e.1 ++ 0 ∷ rest) h.1 in
    let flags : nul_records [] (flag_text e.1 ++ 0 ∷ rest) ≡ flag_text e.1 ∷ nul_records [] rest =
      nul_records-record [] (flag_text e.1) rest (flag_text-no_nul e.1) in
    path ∙ ap (λ t. e.0 ∷ t) flags

scanned_records-two :
    (r t : Text) (rs : List Text)
    → length r < max_record
    → length t < max_record
    → scanned_records (r ∷ t ∷ rs) ≡ r ∷ t ∷ scanned_records rs
unfolding scanned_records
scanned_records-two r t rs h k =
    let first : ltb (length r) max_record ≡ true = ground (arith, h) in
    let second : ltb (length t) max_record ≡ true = ground (arith, k) in rw (first, second) refl

-- The stream of a watcher round trips: of the bytes that fswatch writes for any events, each with a
-- path that is not empty, has no NUL and is shorter than 2^20 bytes, and with flags below 2^64, the
-- reader makes exactly those events with those flags, in their order.
pub events_in-stream : (es : List (Text × ℕ)) → All Reported es → events_in (stream es) ≡ es
unfolding events_in
events_in-stream [] h = unfold nul_records scanned_records pair_records in refl
events_in-stream (e ∷ es) h =
    let rest = nul_records [] (stream es) in
    let short : length (flag_text e.1) < max_record =
      let few = flag_text-short e.1 h.0.3 in omega (arith, few) in
    ap (λ rs. pair_records [] (scanned_records rs)) (nul_records-event e (stream es) h.0)
    ∙ ap (pair_records []) (scanned_records-two e.0 (flag_text e.1) rest h.0.2 short)
    ∙ pair_records-event e.0 (flag_text e.1) (scanned_records rest) h.0.0
    ∙ cons_cong (ap (λ n. (e.0, n)) (parse_flags-flag_text e.1 h.0.3)) (events_in-stream es h.1)
