-- ===== src/Paths/Cleaning.antt =====
-- What path.Clean leaves alone: a path of proper segments.
use gd_sync_harness.Prelude.{
  ℕ, ◌≡◌, ◌∙◌, refl, sym, ap, subst, true, false, ◌||◌, List, [], ◌∷◌, ◌==◌, inl, inr, arith, All,
  Bool, Bool-cases, cons_cong, ◌⊎◌, if◌then◌else◌,
}
use gd_sync_harness.Paths.{
  Text, text_eq, has_prefix, slash, dot, dots, onto_first, split, join, clean, clean_segment,
  clean_segments, in_order, is_proper, written,
}
use gd_sync_harness.Paths.Joining.{text_eq_iff, IsPlain, join-split, split-join, split-cons_cases}

abbrev pub IsProper : Text → Type 0
IsProper seg = is_proper seg ≡ true

-- The segments of a split have no slash.
pub split-IsPlain : (s : Text) → All IsPlain (split s)
unfolding split
split-IsPlain [] = (refl, tt)
split-IsPlain (c ∷ s) = elim (Bool-cases (c == slash)) [
  | inl b ↦ rw b (refl, split-IsPlain s)
  | inr b ↦ rw b (onto_first-IsPlain c (split s) b (split-IsPlain s))
]
  where
    onto_first-IsPlain :
        (c : ℕ) (segs : List Text)
        → (c == slash) ≡ false
        → All IsPlain segs
        → All IsPlain (onto_first c segs)
    onto_first-IsPlain c [] b h = (ground arith, tt)
    onto_first-IsPlain c (seg ∷ segs) b (h, hs) = (ground arith, hs)

clean_segment-proper :
    (rooted : Bool) (seg : Text) (out : List Text)
    → IsProper seg
    → clean_segment rooted seg out ≡ seg ∷ out
unfolding clean_segment
clean_segment-proper rooted seg out h = ground arith

-- Cleaning proper segments collects them, last first; put in order they are the segments again.
pub clean_segments-IsProper :
    (rooted : Bool) (segs out : List Text)
    → All IsProper segs
    → in_order (clean_segments rooted segs out) [] ≡ in_order out segs
unfolding clean_segments in_order
clean_segments-IsProper rooted [] out h = refl
clean_segments-IsProper rooted (seg ∷ segs) out (h, hs) =
    rw (clean_segment-proper rooted seg out h) (clean_segments-IsProper rooted segs (seg ∷ out) hs)

-- A path of proper segments that does not start at the root is clean.
pub clean-proper :
    (s : Text) → has_prefix (slash ∷ []) s ≡ false → All IsProper (split s) → clean s ≡ s
unfolding clean
clean-proper s relative h =
    let (seg, segs, e) = split-cons_cases s in
    rw (relative, clean_segments-IsProper false (split s) [] h)
      (rw e (ap join (sym e) ∙ join-split s))

-- The segments that were written end, from the last on, with a climb to the parent.
abbrev Climbs : List Text → Type 0
Climbs [] = ⊥
Climbs (seg ∷ []) = seg ≡ dots
Climbs (seg ∷ next ∷ segs) = Climbs (next ∷ segs)

-- Without a root the segments are proper, or the first is a climb.
abbrev Cleaned : List Text → Type 0
Cleaned out = All IsProper out ⊎ Climbs out

Climbs-cons : (seg : Text) (out : List Text) → Climbs out → Climbs (seg ∷ out)
Climbs-cons seg [] h = elim h [ ]
Climbs-cons seg (next ∷ out) h = h

-- What one segment does to the segments that were written, without a root.
data Wrote (seg : Text) : List Text → List Text → Type 0 where
  skip : {out : List Text} → Wrote seg out out
  keep : {out : List Text} → IsProper seg → Wrote seg out (seg ∷ out)
  back : {top : Text} {below : List Text} → text_eq top dots ≡ false → Wrote seg (top ∷ below) below
  start : Wrote seg [] (dots ∷ [])
  climb :
      {top : Text} {below : List Text}
      → text_eq top dots ≡ true
      → Wrote seg (top ∷ below) (dots ∷ top ∷ below)

dots_lem :
    (seg : Text) (out : List Text)
    → Wrote seg out (elim out [
      | [] ↦ dots ∷ []
      | top ∷ below ↦ if text_eq top dots then dots ∷ top ∷ below else below
    ])
dots_lem seg [] = start
dots_lem seg (top ∷ below) = elim (Bool-cases (text_eq top dots)) [
  | inl b ↦ rw b (climb b)
  | inr b ↦ rw b (back b)
]

wrote : (seg : Text) (out : List Text) → Wrote seg out (clean_segment false seg out)
unfolding clean_segment
wrote seg out = elim (Bool-cases (text_eq seg [] || text_eq seg (dot ∷ []))) [
  | inl b ↦ rw b skip
  | inr b ↦ elim (Bool-cases (text_eq seg dots)) [
    | inl c ↦ rw (b, c) (dots_lem seg out)
    | inr c ↦ rw (b, c) (keep (rw (b, c) refl))
  ]
]

Wrote-All :
    (P : Text → Type 0) {seg : Text} {out out' : List Text}
    → Wrote seg out out'
    → P seg
    → P dots
    → All P out
    → All P out'
Wrote-All P skip h d hs = hs
Wrote-All P (keep proper) h d hs = (h, hs)
Wrote-All P (back b) h d hs = hs.1
Wrote-All P start h d hs = (d, tt)
Wrote-All P (climb b) h d hs = (d, hs)

Climbs-below :
    (top : Text) (below : List Text)
    → text_eq top dots ≡ false
    → Climbs (top ∷ below)
    → Climbs below
Climbs-below top [] b h = absurd (ground (arith, text_eq_iff top dots))
Climbs-below top (next ∷ below) b h = h

Wrote-Cleaned :
    {seg : Text} {out out' : List Text} → Wrote seg out out' → Cleaned out → Cleaned out'
Wrote-Cleaned skip h = h
Wrote-Cleaned (keep proper) (inl hs) = inl (proper, hs)
Wrote-Cleaned (keep {out} proper) (inr h) = inr (Climbs-cons _ out h)
Wrote-Cleaned (back b) (inl hs) = inl hs.1
Wrote-Cleaned (back {top} {below} b) (inr h) = inr (Climbs-below top below b h)
Wrote-Cleaned start h = inr refl
Wrote-Cleaned (climb {top} {below} b) (inl hs) = absurd (ground arith)
Wrote-Cleaned (climb b) (inr h) = inr h

clean_segments-Cleaned :
    (segs out : List Text)
    → All IsPlain segs
    → All IsPlain out
    → Cleaned out
    → All IsPlain (clean_segments false segs out) × Cleaned (clean_segments false segs out)
unfolding clean_segments
clean_segments-Cleaned [] out plain before h = (before, h)
clean_segments-Cleaned (seg ∷ segs) out (p, plain) before h =
    let w = wrote seg out in
    clean_segments-Cleaned segs (clean_segment false seg out) plain
      (Wrote-All IsPlain w p refl before) (Wrote-Cleaned w h)

in_order-All :
    (P : Text → Type 0) (out segs : List Text) → All P out → All P segs → All P (in_order out segs)
unfolding in_order
in_order-All P [] segs h k = k
in_order-All P (seg ∷ out) segs (h, hs) k = in_order-All P out (seg ∷ segs) hs (h, k)

in_order-Climbs :
    (out segs : List Text) → Climbs out → (rest : List Text) × (in_order out segs ≡ dots ∷ rest)
unfolding in_order
in_order-Climbs [] segs h = elim h [ ]
in_order-Climbs (seg ∷ []) segs h = (segs, cons_cong h refl)
in_order-Climbs (seg ∷ next ∷ out) segs h = in_order-Climbs (next ∷ out) (seg ∷ segs) h

abbrev pub above_root : Text
above_root = dot ∷ dot ∷ slash ∷ []

climb-absurd :
    (rest : List Text)
    → text_eq (written false (dots ∷ rest)) dots ≡ false
    → has_prefix above_root (written false (dots ∷ rest)) ≡ false
    → ⊥
unfolding join
climb-absurd [] up above = cc
climb-absurd (next ∷ rest) up above = cc

-- Segments that are joined to a path which neither stays nor climbs are proper.
segments-IsProper :
    (s : Text) (segs : List Text)
    → All IsPlain segs
    → All IsProper segs ⊎ ((rest : List Text) × (segs ≡ dots ∷ rest))
    → written false segs ≡ s
    → text_eq (written false segs) (dot ∷ []) ≡ false
    → text_eq (written false segs) dots ≡ false
    → has_prefix above_root (written false segs) ≡ false
    → All IsProper (split s)
segments-IsProper s [] plain shape same here up above = absurd (cc)
segments-IsProper s (seg ∷ segs) plain (inl proper) same here up above =
    subst (λ x. All IsProper (split x)) same
      (subst (All IsProper) (sym (split-join seg segs plain)) proper)
segments-IsProper s (seg ∷ segs) plain (inr (rest, e)) same here up above =
    absurd (climb-absurd rest (rw e at up) (rw e at above))

Cleaned-ordered :
    (out : List Text)
    → Cleaned out
    → All IsProper (in_order out []) ⊎ ((rest : List Text) × (in_order out [] ≡ dots ∷ rest))
Cleaned-ordered out (inl proper) = inl (in_order-All IsProper out [] proper tt)
Cleaned-ordered out (inr climbs) = inr (in_order-Climbs out [] climbs)

-- A path that is clean, not rooted, not `.`, not `..` and does not start with `../` has proper
-- segments only.
pub IsProper-clean :
    (s : Text)
    → has_prefix (slash ∷ []) s ≡ false
    → clean s ≡ s
    → text_eq (clean s) (dot ∷ []) ≡ false
    → text_eq (clean s) dots ≡ false
    → has_prefix above_root (clean s) ≡ false
    → All IsProper (split s)
unfolding clean
IsProper-clean s relative same here up above =
    let out = clean_segments false (split s) [] in
    let (plain, shape) = clean_segments-Cleaned (split s) [] (split-IsPlain s) tt (inl tt) in
    segments-IsProper s (in_order out []) (in_order-All IsPlain out [] plain tt)
      (Cleaned-ordered out shape) (rw relative at same) (rw relative at here) (rw relative at up)
      (rw relative at above)
