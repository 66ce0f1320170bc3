-- ===== src/Paths/Ancestors.antt =====
-- The loop over the ancestors of a prune target ends, at the root, with all of them.
use gd_sync_harness.Prelude.{
  ℕ, zero, suc, ◌≤◌, ◌≡◌, ◌∙◌, refl, sym, ap, subst, true, false, some, List, [], ◌∷◌, ◌++◌, arith,
  All, map, length, Bool, cons_cong,
}
use mathlib.Core.List.{append_assoc, map-append, reverse, reverse-append}
use gd_sync_harness.Paths.{
  Text, text_eq, has_prefix, contains_any, slash, dot, split, join, clean, clean_segments,
  clean_segment, written, dir, dir_part, all_but_last, validate_prune_target, ancestors,
}
use gd_sync_harness.Paths.Joining.{
  IsPlain, split-plain, split-plain_slash, split-join, join-split, split-cons_cases,
}
use gd_sync_harness.Paths.Cleaning.{IsProper, split-IsPlain, clean_segments-IsProper}
use gd_sync_harness.Paths.Targets.{prune_target_exact, proper-descends}
use gd_sync_harness.Paths.Lists.{breaks}

split-trailing :
    (seg : Text) (segs : List Text)
    → All IsPlain (seg ∷ segs)
    → split (join (seg ∷ segs) ++ slash ∷ []) ≡ (seg ∷ segs) ++ [] ∷ []
unfolding join split
split-trailing seg [] (h, hs) = split-plain_slash seg [] h
split-trailing seg (next ∷ segs) (h, hs) =
    ap split (append_assoc seg (slash ∷ join (next ∷ segs)) (slash ∷ []))
    ∙ split-plain_slash seg (join (next ∷ segs) ++ slash ∷ []) h
    ∙ cons_cong refl (split-trailing next segs hs)

clean_segments-append :
    (rooted : Bool) (xs ys out : List Text)
    → clean_segments rooted (xs ++ ys) out ≡ clean_segments rooted ys (clean_segments rooted xs out)
unfolding clean_segments
clean_segments-append rooted [] ys out = refl
clean_segments-append rooted (x ∷ xs) ys out =
    clean_segments-append rooted xs ys (clean_segment rooted x out)

relative-trailing :
    (seg : Text) (segs : List Text)
    → IsProper seg
    → IsPlain seg
    → has_prefix (slash ∷ []) (join (seg ∷ segs) ++ slash ∷ []) ≡ false
unfolding join
relative-trailing [] segs proper plain = absurd (cc)
relative-trailing (c ∷ s) [] proper plain = ground arith
relative-trailing (c ∷ s) (next ∷ segs) proper plain = ground arith

-- The parent of a path with proper segments.
dir-proper :
    (seg : Text) (segs : List Text)
    → All IsProper (seg ∷ segs)
    → All IsPlain (seg ∷ segs)
    → clean (dir_part (seg ∷ segs)) ≡ join (seg ∷ segs)
unfolding clean clean_segments clean_segment
dir-proper seg segs proper plain =
    rw
      (
        relative-trailing seg segs proper.0 plain.0,
        split-trailing seg segs plain,
        clean_segments-append false (seg ∷ segs) ([] ∷ []) [],
      )
      (ap (written false) (clean_segments-IsProper false (seg ∷ segs) [] proper))

-- The proper beginnings of a list, the shortest first.
abbrev pub prefixes : List Text → List (List Text)
prefixes [] = []
prefixes (seg ∷ []) = []
prefixes (seg ∷ next ∷ segs) = (seg ∷ []) ∷ map (λ p. seg ∷ p) (prefixes (next ∷ segs))

prefixes-last :
    (seg next : Text) (segs : List Text)
    → prefixes (seg ∷ next ∷ segs)
      ≡ prefixes (all_but_last (seg ∷ next ∷ segs)) ++ all_but_last (seg ∷ next ∷ segs) ∷ []
prefixes-last seg next [] = refl
prefixes-last seg next (last ∷ segs) = cons_cong refl (
    ap (map (λ p. seg ∷ p)) (prefixes-last next last segs)
    ∙ map-append (λ p. seg ∷ p) (prefixes (all_but_last (next ∷ last ∷ segs))) _)

All-all_but_last : (P : Text → Type 0) (segs : List Text) → All P segs → All P (all_but_last segs)
All-all_but_last P [] h = tt
All-all_but_last P (seg ∷ []) h = tt
All-all_but_last P (seg ∷ next ∷ segs) (h, hs) = (h, All-all_but_last P (next ∷ segs) hs)

length-all_but_last :
    (seg : Text) (segs : List Text) → length (seg ∷ segs) ≡ suc (length (all_but_last (seg ∷ segs)))
length-all_but_last seg [] = refl
length-all_but_last seg (next ∷ segs) = omega (arith, length-all_but_last next segs)

-- The parent's path is the beginning of the path.
join-all_but_last :
    (seg next : Text) (segs : List Text)
    → (rest : Text) × (join (seg ∷ next ∷ segs)
        ≡ join (all_but_last (seg ∷ next ∷ segs)) ++ slash ∷ rest)
unfolding join
join-all_but_last seg next [] = (next, refl)
join-all_but_last seg next (last ∷ segs) =
    let (rest, e) = join-all_but_last next last segs in
    (rest, ap (λ t. seg ++ slash ∷ t) e ∙ sym (append_assoc seg _ (slash ∷ rest)))

contains_any-append :
    (chars s t : Text) → contains_any chars (s ++ t) ≡ false → contains_any chars s ≡ false
contains_any-append chars [] t h = refl
contains_any-append chars (c ∷ s) t h = ground (arith, contains_any-append chars s t)

-- The paths of all proper beginnings, the deepest first.
abbrev pub ancestors_of : List Text → List Text
ancestors_of segs = map join (reverse (prefixes segs))

dir-single : (seg : Text) → IsPlain seg → dir seg ≡ dot ∷ []
unfolding dir clean_segment
dir-single seg plain = rw (split-plain seg plain) refl

dir-many :
    (seg next : Text) (segs : List Text)
    → All IsProper (seg ∷ next ∷ segs)
    → All IsPlain (seg ∷ next ∷ segs)
    → dir (join (seg ∷ next ∷ segs)) ≡ join (all_but_last (seg ∷ next ∷ segs))
unfolding dir
dir-many seg next segs proper plain = rw (split-join seg (next ∷ segs) plain) (
    dir-proper seg (all_but_last (next ∷ segs))
      (All-all_but_last IsProper (seg ∷ next ∷ segs) proper)
      (All-all_but_last IsPlain (seg ∷ next ∷ segs) plain))

ancestors-end : (fuel : ℕ) (rel : Text) → dir rel ≡ dot ∷ [] → ancestors (suc fuel) rel ≡ some []
unfolding ancestors
ancestors-end fuel rel h = rw h refl

ancestors-step :
    (fuel : ℕ) (rel d : Text) (rest : List Text)
    → dir rel ≡ d
    → text_eq d (dot ∷ []) ≡ false
    → validate_prune_target d ≡ true
    → ancestors fuel d ≡ some rest
    → ancestors (suc fuel) rel ≡ some (d ∷ rest)
unfolding ancestors
ancestors-step fuel rel d rest h other taken ih = rw (h, other, taken, ih) refl

ancestors_of-step :
    (seg next : Text) (segs : List Text)
    → ancestors_of (seg ∷ next ∷ segs)
      ≡ join (all_but_last (seg ∷ next ∷ segs)) ∷ ancestors_of (all_but_last (seg ∷ next ∷ segs))
ancestors_of-step seg next segs =
    ap (λ x. map join (reverse x)) (prefixes-last seg next segs)
    ∙ ap (map join) (reverse-append (prefixes (all_but_last (seg ∷ next ∷ segs))) _)

ancestors-segments :
    (fuel : ℕ) (seg : Text) (segs : List Text)
    → All IsProper (seg ∷ segs)
    → All IsPlain (seg ∷ segs)
    → contains_any breaks (join (seg ∷ segs)) ≡ false
    → length (seg ∷ segs) ≤ fuel
    → ancestors fuel (join (seg ∷ segs)) ≡ some (ancestors_of (seg ∷ segs))
unfolding join
ancestors-segments zero seg segs proper plain whole enough = absurd (omega arith)
ancestors-segments (suc fuel) seg [] proper plain whole enough =
    ancestors-end fuel seg (dir-single seg plain.0)
ancestors-segments (suc fuel) seg (next ∷ segs) proper plain whole enough =
    let up = all_but_last (next ∷ segs) in
    let proper' = All-all_but_last IsProper (seg ∷ next ∷ segs) proper in
    let plain' = All-all_but_last IsPlain (seg ∷ next ∷ segs) plain in
    let (rest, e) = join-all_but_last seg next segs in
    let whole' = contains_any-append breaks (join (seg ∷ up)) (slash ∷ rest) (rw e at whole) in
    let inner : All IsProper (split (join (seg ∷ up))) =
      subst (All IsProper) (sym (split-join seg up plain')) proper' in
    ancestors-step fuel (join (seg ∷ next ∷ segs)) (join (seg ∷ up)) (ancestors_of (seg ∷ up))
      (dir-many seg next segs proper plain) (proper-descends (join (seg ∷ up)) inner).0
      ((prune_target_exact (join (seg ∷ up))).1 (whole', inner))
      (ancestors-segments fuel seg up proper' plain' whole'
        (omega (arith, length-all_but_last seg (next ∷ segs))))
    ∙ ap some (sym (ancestors_of-step seg next segs))

-- The loop over the ancestors of a target that is accepted ends: as many rounds as the target has
-- segments are enough, no ancestor is refused on the way, and the ancestors are the paths of all
-- proper beginnings of the target's segments, the deepest first. The root is not one of them.
ancestors_total :
    (rel : Text) (fuel : ℕ)
    → validate_prune_target rel ≡ true
    → length (split rel) ≤ fuel
    → ancestors fuel rel ≡ some (ancestors_of (split rel))
ancestors_total rel fuel taken enough =
    let (whole, proper) = (prune_target_exact rel).0 taken in
    let (seg, segs, e) = split-cons_cases rel in
    let back = ap join (sym e) ∙ join-split rel in
    subst (λ x. ancestors fuel x ≡ some (ancestors_of (split x))) back
      (ancestors-segments fuel seg segs (rw e at proper) (rw e at (split-IsPlain rel))
          (subst (λ x. contains_any breaks x ≡ false) (sym back) whole) (rw e at enough)
        ∙ ap (λ x. some (ancestors_of x)) (sym (split-join seg segs (rw e at (split-IsPlain rel)))))
