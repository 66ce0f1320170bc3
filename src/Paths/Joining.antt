-- ===== src/Paths/Joining.antt =====
-- Split and Join are inverse to one another.
use gd_sync_harness.Prelude.{
  ℕ, ◌≡◌, ◌↔◌, ◌∙◌, refl, sym, ap, true, false, List, [], ◌∷◌, ◌++◌, ◌==◌, inl, inr, arith, All,
  Bool-cases, cons_cong,
}
use gd_sync_harness.Paths.{Text, text_eq, elem_byte, slash, onto_first, split, join}

pub text_eq_iff : (s t : Text) → (text_eq s t ≡ true) ↔ (s ≡ t)
text_eq_iff [] [] = (λ h. refl, λ h. refl)
text_eq_iff [] (d ∷ t) = (λ h. cc, λ h. cc)
text_eq_iff (c ∷ s) [] = (λ h. cc, λ h. cc)
text_eq_iff (c ∷ s) (d ∷ t) =
    (λ h. ground (arith, text_eq_iff s t), λ h. ground (arith, text_eq_iff s t))

pub split-cons_cases : (s : Text) → (seg : Text) × (segs : List Text) × (split s ≡ seg ∷ segs)
unfolding split
split-cons_cases [] = ([], [], refl)
split-cons_cases (c ∷ s) =
    let (seg, segs, e) = split-cons_cases s in
    elim (Bool-cases (c == slash)) [
      | inl b ↦ ([], split s, rw b refl)
      | inr b ↦ (c ∷ seg, segs, rw (b, e) refl)
    ]

join-onto_first :
    (c : ℕ) (seg : Text) (segs : List Text)
    → join (onto_first c (seg ∷ segs)) ≡ c ∷ join (seg ∷ segs)
unfolding join
join-onto_first c seg [] = refl
join-onto_first c seg (next ∷ segs) = refl

-- Joining the segments of a path gives the path.
pub join-split : (s : Text) → join (split s) ≡ s
unfolding split join split-cons_cases
join-split [] = refl
join-split (c ∷ s) =
    let (seg, segs, e) = split-cons_cases s in
    elim (Bool-cases (c == slash)) [
      | inl b ↦ rw (b, e) (cons_cong (ground arith) (ap join (sym e) ∙ join-split s))
      | inr b ↦
          rw (b, e) (join-onto_first c seg segs ∙ cons_cong refl (ap join (sym e) ∙ join-split s))
    ]

-- A text without a slash.
abbrev pub IsPlain : Text → Type 0
IsPlain s = elem_byte slash s ≡ false

pub split-plain : (seg : Text) → IsPlain seg → split seg ≡ seg ∷ []
unfolding split
split-plain [] h = refl
split-plain (c ∷ s) h = ground (arith, split-plain s)

pub split-plain_slash :
    (seg rest : Text) → IsPlain seg → split (seg ++ slash ∷ rest) ≡ seg ∷ split rest
unfolding split
split-plain_slash [] rest h = refl
split-plain_slash (c ∷ s) rest h = ground (arith, split-plain_slash s rest)

-- Splitting what was joined gives the segments, if there is one and none has a slash.
pub split-join :
    (seg : Text) (segs : List Text)
    → All IsPlain (seg ∷ segs)
    → split (join (seg ∷ segs)) ≡ seg ∷ segs
unfolding join
split-join seg [] (h, hs) = split-plain seg h
split-join seg (next ∷ segs) (h, hs) =
    split-plain_slash seg (join (next ∷ segs)) h ∙ cons_cong refl (split-join next segs hs)
