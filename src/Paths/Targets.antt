-- ===== src/Paths/Targets.antt =====
-- What the two checks of a target path accept.
use gd_sync_harness.Prelude.{
  ◌≡◌, ◌↔◌, refl, subst, true, false, List, [], ◌∷◌, ◌==◌, inl, inr, arith, All, Bool, Bool-cases,
}
use gd_sync_harness.Paths.{
  Text, text_eq, has_prefix, contains_any, slash, dot, dots, split, clean, all_proper,
  validate_canonical, validate_prune_target,
}
use gd_sync_harness.Paths.Joining.{text_eq_iff}
use gd_sync_harness.Paths.Cleaning.{IsProper, clean-proper, IsProper-clean, above_root}

-- A path of proper segments is relative, and not empty.
proper-relative :
    (s : Text)
    → All IsProper (split s)
    → (text_eq s [] ≡ false) × (has_prefix (slash ∷ []) s ≡ false)
unfolding split
proper-relative [] h = absurd (cc)
proper-relative (c ∷ s) h =
    (refl, elim (Bool-cases (c == slash)) [ inl b ↦ absurd (ground arith) | inr b ↦ ground arith ])

not_of : (b : Bool) → (b ≡ true → ⊥) → b ≡ false
not_of true h = absurd (h refl)
not_of false h = refl

has_prefix-rest :
    (s : Text) → has_prefix above_root s ≡ true → (rest : Text) × (s ≡ dot ∷ dot ∷ slash ∷ rest)
has_prefix-rest (c ∷ d ∷ e ∷ rest) h = (rest, ground arith)
has_prefix-rest (c ∷ d ∷ []) h = absurd (ground arith)
has_prefix-rest (c ∷ []) h = absurd (ground arith)
has_prefix-rest [] h = absurd (cc)

abbrev pub AllProper : Text → Type 0
AllProper s = All IsProper (split s)

here-improper : AllProper (dot ∷ []) → ⊥
unfolding split
here-improper h = cc

up-improper : AllProper dots → ⊥
unfolding split
up-improper h = cc

above-improper : (rest : Text) → AllProper (dot ∷ dot ∷ slash ∷ rest) → ⊥
unfolding split
above-improper rest h = cc

-- It neither stays where it is nor climbs.
pub proper-descends :
    (s : Text)
    → AllProper s
    → (text_eq s (dot ∷ []) ≡ false) × (text_eq s dots ≡ false) × (has_prefix above_root s ≡ false)
proper-descends s h = (
  not_of _ (λ b. here-improper (subst AllProper ((text_eq_iff s (dot ∷ [])).0 b) h)),
  not_of _ (λ b. up-improper (subst AllProper ((text_eq_iff s dots).0 b) h)),
  not_of _ (λ b. let (rest, e) = has_prefix-rest s b in above-improper rest (subst AllProper e h)),
)

all_proper_iff : (segs : List Text) → (all_proper segs ≡ true) ↔ All IsProper segs
all_proper_iff [] = (λ h. tt, λ h. refl)
all_proper_iff (seg ∷ segs) =
    let rest = all_proper_iff segs in
    (λ h. (ground arith, rest.0 (ground arith)), λ h. ground (arith, rest.1 h.1))

-- ValidateCanonicalRelativeTarget accepts exactly the paths without backslash and NUL all of whose
-- segments are neither empty nor `.` nor `..`: the comparison with path.Clean refuses nothing more.
canonical_exact :
    (v : Text)
    → (validate_canonical v ≡ true)
      ↔ ((contains_any (b'\\' ∷ 0 ∷ []) v ≡ false) × All IsProper (split v))
unfolding validate_canonical
canonical_exact v = (
  λ h. (ground arith, (all_proper_iff (split v)).0 (ground arith)),
  λ h.
      let (named, relative) = proper-relative v h.1 in
      let same = (text_eq_iff (clean v) v).1 (clean-proper v relative h.1) in
      let proper = (all_proper_iff (split v)).1 h.1 in ground arith,
)

-- validatePruneTargetPath accepts exactly the paths without line breaks and NUL all of whose segments
-- are neither empty nor `.` nor `..`.
pub prune_target_exact :
    (v : Text)
    → (validate_prune_target v ≡ true)
      ↔ ((contains_any (b'\r' ∷ b'\n' ∷ 0 ∷ []) v ≡ false) × All IsProper (split v))
unfolding validate_prune_target
prune_target_exact v = (
  λ h. (
    ground arith,
    IsProper-clean v (ground arith) ((text_eq_iff (clean v) v).0 (ground arith)) (ground arith)
        (ground arith) (ground arith),
  ),
  λ h.
      let (named, relative) = proper-relative v h.1 in
      let clean_same = clean-proper v relative h.1 in
      let same = (text_eq_iff (clean v) v).1 clean_same in
      let (here, up, above) = proper-descends v h.1 in ground arith,
)
