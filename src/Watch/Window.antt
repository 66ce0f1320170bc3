-- ===== src/Watch/Window.antt =====
-- The debounce window: firstSeen, lastSeen and debouncer of internal/watch/watcher.go. Times are in
-- milliseconds.
use mathlib.Core.List.Memᴰ.{head, tail}
use mathlib.Core.List.{Memᴰ}
use mathlib.Core.Option.{Option, none, some}
use gd_sync_harness.Db.Schema.{Db, ok, err}
use gd_sync_harness.Events.{record_event, is_destructive}
use gd_sync_harness.Watch.{classify}
use gd_sync_harness.Prelude.{
  eq_iff, mem-map, sym, ap, ◌∙◌, subst, ℕ, ◌+◌, ◌*◌, ◌≤◌, ◌≡◌, ◌↔◌, ◌⊎◌, String, Bool, true, false,
  ◌||◌, List, [], ◌∷◌, All, map, leb, ltb, str_eq, arith, Bool-cases, inl, inr, if◌then◌else◌, refl,
}

pub record Seen : Type 0 where
  rel : String
  first : ℕ
  last : ℕ

-- The two maps after an event on a path; `known` tells that the path has an entry.
unfoldable pub note_seen : String → ℕ → List Seen → List Seen
note_seen rel now [] = record { rel = rel; first = now; last = now } ∷ []
note_seen rel now (s ∷ window) =
    let later = note_seen rel now window in
    if str_eq s.rel rel then record s { last = now } ∷ window else s ∷ later

-- handleEvent, on the path under the source, if it is one: an event that could not be stored opens no
-- window.
unfoldable pub handle_event : String → Option String → ℕ → ℕ → Db × List Seen → Db × List Seen
unfolding classify record_event note_seen
handle_event p none flags now (db, window) = (db, window)
handle_event p (some rel) flags now (db, window) = elim (classify flags) [
  | none ↦ (db, window)
  | some kind ↦
      let (stored, db1) = record_event p rel kind (is_destructive kind) "" now db in
      (db1, elim stored [ ok g ↦ note_seen rel now window | err e ↦ window ])
]

abbrev pub first_of : ℕ → List Seen → ℕ
first_of first [] = first
first_of first (s ∷ window) = first_of (if ltb s.first first then s.first else first) window

abbrev pub last_of : ℕ → List Seen → ℕ
last_of last [] = last
last_of last (s ∷ window) = last_of (if ltb last s.last then s.last else last) window

-- A tick of debouncer: the paths it fires, none if there is nothing to fire yet.
unfoldable pub due : ℕ → ℕ → ℕ → List Seen → Bool
due settle max_delay now [] = false
due settle max_delay now (s ∷ window) =
    leb (last_of s.last window + settle * 1000) now
    || leb (first_of s.first window + max_delay * 1000) now

unfoldable pub tick : ℕ → ℕ → ℕ → List Seen → List Seen × List String
unfolding due
tick settle max_delay now window =
    if due settle max_delay now window then ([], map (λ s. s.rel) window) else (window, [])

last_of-bound :
    (k now last : ℕ) (window : List Seen)
    → (last_of last window + k ≤ now) ↔ ((last + k ≤ now) × All (λ s. s.last + k ≤ now) window)
last_of-bound k now last [] = (λ h. (h, tt), λ h. h.0)
last_of-bound k now last (s ∷ window) = elim (Bool-cases (ltb last s.last)) [
  | inl b ↦
      let ih = last_of-bound k now s.last window in
      rw b (λ h. (ground (arith, (ih.0 h).0), ih.0 h), λ h. ih.1 h.1)
  | inr b ↦
      let ih = last_of-bound k now last window in
      rw b (λ h. ((ih.0 h).0, (ground (arith, (ih.0 h).0), (ih.0 h).1)), λ h. ih.1 (h.0, h.1.1))
]

-- An entry of the window that has waited since `t` at least.
abbrev pub Waits : String → ℕ → List Seen → Type 0
Waits rel t window = (s : Seen) × Memᴰ s window × (s.rel ≡ rel) × (s.first ≤ t)

first_of-first : (first : ℕ) (window : List Seen) → first_of first window ≤ first
first_of-first first [] = omega arith
first_of-first first (s ∷ window) = elim (Bool-cases (ltb s.first first)) [
  | inl b ↦ let ih = first_of-first s.first window in rw b (ground arith)
  | inr b ↦ rw b (first_of-first first window)
]

first_of-mem :
    (first : ℕ) (s : Seen) (window : List Seen) → Memᴰ s window → first_of first window ≤ s.first
first_of-mem first s [] m = elim m [ ]
first_of-mem first s (v ∷ window) (head same) = elim (Bool-cases (ltb v.first first)) [
  | inl b ↦
      let lower = first_of-first v.first window in
      rw b (subst (λ x. first_of v.first window ≤ x.first) (sym same) lower)
  | inr b ↦
      let lower = first_of-first first window in
      let bound : first ≤ v.first = ground arith in
      rw b (subst (λ x. first_of first window ≤ x.first) (sym same) (omega (arith, lower, bound)))
]
first_of-mem first s (v ∷ window) (tail m) =
    first_of-mem (if ltb v.first first then v.first else first) s window m

-- A window that holds an entry as old as the longest delay is due.
overdue :
    (settle max_delay now t : ℕ) (rel : String) (window : List Seen)
    → Waits rel t window
    → t + max_delay * 1000 ≤ now
    → due settle max_delay now window ≡ true
unfolding due
overdue settle max_delay now t rel [] (s, m, same, old) late = elim m [ ]
overdue settle max_delay now t rel (v ∷ window) (s, m, same, old) late =
    let lower : first_of v.first window ≤ s.first = oldest m in ground arith
  where
    oldest : Memᴰ s (v ∷ window) → first_of v.first window ≤ s.first
    oldest (head e) =
        subst (λ x. first_of v.first window ≤ x.first) (sym e) (first_of-first v.first window)
    oldest (tail k) = first_of-mem v.first s window k

-- An event on any path leaves the first time of every entry as it is.
note_seen-Waits :
    (rel other : String) (t now : ℕ) (window : List Seen)
    → Waits rel t window
    → Waits rel t (note_seen other now window)
unfolding note_seen
note_seen-Waits rel other t now [] (s, m, same, old) = elim m [ ]
note_seen-Waits rel other t now (v ∷ window) (s, head e, same, old) =
    let named : v.rel ≡ rel = ap (λ x. x.rel) (sym e) ∙ same in
    let aged : v.first ≤ t = subst (λ x. x.first ≤ t) e old in
    elim (Bool-cases (str_eq v.rel other)) [
      | inl b ↦ rw b (record v { last = now }, head refl, named, aged)
      | inr b ↦ rw b (v, head refl, named, aged)
    ]
note_seen-Waits rel other t now (v ∷ window) (s, tail k, same, old) =
    elim (Bool-cases (str_eq v.rel other)) [
      | inl b ↦ rw b (s, tail k, same, old)
      | inr b ↦
          let (x, m, named, aged) = note_seen-Waits rel other t now window (s, k, same, old) in
          rw b (x, tail m, named, aged)
    ]

note_seen-starts :
    (rel : String) (t : ℕ) (window : List Seen)
    → All (λ s. s.first ≤ t) window
    → Waits rel t (note_seen rel t window)
unfolding note_seen
note_seen-starts rel t [] h = (_, head refl, refl, omega arith)
note_seen-starts rel t (v ∷ window) h = elim (Bool-cases (str_eq v.rel rel)) [
  | inl b ↦ rw b (record v { last = t }, head refl, (eq_iff v.rel rel).0 b, h.0)
  | inr b ↦
      let (x, m, named, aged) = note_seen-starts rel t window h.1 in rw b (x, tail m, named, aged)
]

-- The window after further events, each with its path and its time.
abbrev pub note_all : List (String × ℕ) → List Seen → List Seen
note_all [] window = window
note_all (e ∷ es) window = note_all es (note_seen e.0 e.1 window)

note_all-Waits :
    (rel : String) (t : ℕ) (es : List (String × ℕ)) (window : List Seen)
    → Waits rel t window
    → Waits rel t (note_all es window)
note_all-Waits rel t [] window h = h
note_all-Waits rel t (e ∷ es) window h =
    note_all-Waits rel t es (note_seen e.0 e.1 window) (note_seen-Waits rel e.0 t e.1 window h)

-- An event is reported in bounded time: whatever came before it, no entry of the window being
-- younger, and whatever events follow on any paths, a tick of the debouncer at the longest delay after
-- the event or later, if none fired before, fires a window with its path, and starts the next one
-- empty.
pub event_fires_by :
    (settle max_delay t now : ℕ) (rel : String) (es : List (String × ℕ)) (window : List Seen)
    → All (λ s. s.first ≤ t) window
    → t + max_delay * 1000 ≤ now
    → ((tick settle max_delay now (note_all es (note_seen rel t window))).0 ≡ [])
      × Memᴰ rel (tick settle max_delay now (note_all es (note_seen rel t window))).1
unfolding tick
event_fires_by settle max_delay t now rel es window past late =
    let after = note_all es (note_seen rel t window) in
    let waits =
      note_all-Waits rel t es (note_seen rel t window) (note_seen-starts rel t window past) in
    let fires = overdue settle max_delay now t rel after waits late in
    rw fires (
      refl,
      subst (λ r. Memᴰ r (map (λ s. s.rel) after)) waits.2
          (mem-map (λ s. s.rel) waits.0 after waits.1),
    )

first_of-reached :
    (first : ℕ) (window : List Seen)
    → (first_of first window ≡ first)
      ⊎ ((s : Seen) × Memᴰ s window × (first_of first window ≡ s.first))
first_of-reached first [] = inl refl
first_of-reached first (s ∷ window) = elim (Bool-cases (ltb s.first first)) [
  | inl b ↦ rw b (elim (first_of-reached s.first window) [
    | inl e ↦ inr (s, head refl, e)
    | inr (v, m, e) ↦ inr (v, tail m, e)
  ])
  | inr b ↦
      rw b (elim (first_of-reached first window) [
        | inl e ↦ inl e
        | inr (v, m, e) ↦ inr (v, tail m, e)
      ])
]

-- What the debounce waits for.
abbrev pub MayFire : ℕ → ℕ → ℕ → List Seen → Type 0
MayFire settle max_delay now window =
    All (λ v. v.last + settle * 1000 ≤ now) window
    ⊎ ((v : Seen) × Memᴰ v window × (v.first + max_delay * 1000 ≤ now))

-- A window that is not empty fires exactly if every path of it has been quiet for the settling time,
-- or some path has waited for the longest delay.
pub due_exact :
    (settle max_delay now : ℕ) (s : Seen) (window : List Seen)
    → (due settle max_delay now (s ∷ window) ≡ true) ↔ MayFire settle max_delay now (s ∷ window)
unfolding due
due_exact settle max_delay now s window = (fires, allowed)
  where
    settled :
        (last_of s.last window + settle * 1000 ≤ now)
        ↔ All (λ v. v.last + settle * 1000 ≤ now) (s ∷ window)
    settled = last_of-bound (settle * 1000) now s.last window

    fires : due settle max_delay now (s ∷ window) ≡ true → MayFire settle max_delay now (s ∷ window)
    fires h = elim (Bool-cases (leb (last_of s.last window + settle * 1000) now)) [
      | inl b ↦ inl (settled.0 (ground (arith, b)))
      | inr b ↦
          let late : first_of s.first window + max_delay * 1000 ≤ now = ground (arith, h, b) in
          elim (first_of-reached s.first window) [
            | inl e ↦ inr (s, head refl, omega (arith, e, late))
            | inr (v, m, e) ↦ inr (v, tail m, omega (arith, e, late))
          ]
    ]

    allowed :
        MayFire settle max_delay now (s ∷ window) → due settle max_delay now (s ∷ window) ≡ true
    allowed (inl quiet) = let b = settled.1 quiet in ground (arith, b)
    allowed (inr (v, m, late)) =
        overdue settle max_delay now v.first v.rel (s ∷ window) (v, m, refl, omega arith) late
