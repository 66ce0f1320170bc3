-- ===== src/Paths/Lists.antt =====
-- The list of paths that a prune hands to rclone, one to a line.
use gd_sync_harness.Prelude.{
  some_injective, ◌≡◌, ◌≢◌, ◌↔◌, ◌∙◌, refl, sym, ap, if◌then◌else◌, true, false, some, none, List,
  [], ◌∷◌, ◌++◌, ◌==◌, inl, inr, arith, All, Bool-cases, Option-cases, cons_cong,
}
use mathlib.Core.List.{append_assoc, append-nil}
use gd_sync_harness.Paths.{Text, contains_any, validate_prune_target, write_path_list}
use gd_sync_harness.Paths.Targets.{prune_target_exact}

abbrev pub breaks : Text
breaks = b'\r' ∷ b'\n' ∷ 0 ∷ []

-- A line without the carriage return at its end.
abbrev drop_return : Text → Text
drop_return [] = []
drop_return (c ∷ []) = if c == b'\r' then [] else c ∷ []
drop_return (c ∷ d ∷ s) = c ∷ drop_return (d ∷ s)

-- The lines of a text, without the carriage return at the end of one; `line` is what was read of
-- the current line.
unfoldable scan_lines : Text → Text → List Text
scan_lines line [] = elim line [ [] ↦ [] | c ∷ s ↦ drop_return (c ∷ s) ∷ [] ]
scan_lines line (c ∷ s) =
    let next = drop_return line ∷ scan_lines [] s in
    let more = scan_lines (line ++ c ∷ []) s in if c == b'\n' then next else more

drop_return-plain : (s : Text) → contains_any breaks s ≡ false → drop_return s ≡ s
drop_return-plain [] h = refl
drop_return-plain (c ∷ []) h = ground arith
drop_return-plain (c ∷ d ∷ s) h = cons_cong refl (drop_return-plain (d ∷ s) (ground arith))

-- A line without a break is read to its end.
scan_lines-line :
    (line s rest : Text)
    → contains_any breaks s ≡ false
    → scan_lines line (s ++ b'\n' ∷ rest) ≡ drop_return (line ++ s) ∷ scan_lines [] rest
unfolding scan_lines
scan_lines-line line [] rest h = rw (append-nil line) refl
scan_lines-line line (c ∷ s) rest h =
    let plain : (c == b'\n') ≡ false = ground arith in
    rw plain (
      scan_lines-line (line ++ c ∷ []) s rest (ground arith)
      ∙ ap (λ x. drop_return x ∷ scan_lines [] rest) (append_assoc line (c ∷ []) s))

read_first :
    (rel t : Text) (paths : List Text)
    → validate_prune_target rel ≡ true
    → scan_lines [] t ≡ paths
    → scan_lines [] (rel ++ b'\n' ∷ t) ≡ rel ∷ paths
read_first rel t paths taken ih =
    let plain = ((prune_target_exact rel).0 taken).0 in
    scan_lines-line [] rel t plain ∙ cons_cong (drop_return-plain rel plain) ih

-- The lines of the list that is written for some paths are those paths, in their order.
scan_lines-write :
    (paths : List Text) (text : Text)
    → write_path_list paths ≡ some text
    → scan_lines [] text ≡ paths
unfolding write_path_list
scan_lines-write [] text h = rw (← some_injective h) (unfold scan_lines in refl)
scan_lines-write (rel ∷ paths) text h = elim (Option-cases (write_path_list paths)) [
  | inl e ↦ absurd (ground arith)
  | inr (t, e) ↦
      let taken : validate_prune_target rel ≡ true = ground arith in
      let whole : rel ++ b'\n' ∷ t ≡ text = ground arith in
      rw (← whole) (read_first rel t paths taken (scan_lines-write paths t e))
]

-- The list that writePrunePathList writes names its paths without ambiguity: if it writes the same
-- bytes for two lists of paths, the lists are the same, in the same order.
pub write_path_list-injective :
    (paths others : List Text) (text : Text)
    → write_path_list paths ≡ some text
    → write_path_list others ≡ some text
    → paths ≡ others
write_path_list-injective paths others text h k =
    sym (scan_lines-write paths text h) ∙ scan_lines-write others text k

-- And it writes a list exactly if every path is a target.
pub write_path_list-exact :
    (paths : List Text)
    → (write_path_list paths ≢ none) ↔ All (λ rel. validate_prune_target rel ≡ true) paths
unfolding write_path_list
write_path_list-exact [] = (λ h. tt, λ h. cc)
write_path_list-exact (rel ∷ paths) = (
  λ h.
      let rest = write_path_list-exact paths in
      elim (Bool-cases (validate_prune_target rel)) [
        | inl b ↦ (b, rest.0 (λ e. h (rw (b, e) refl)))
        | inr b ↦ absurd (h (rw b refl))
      ],
  λ h.
      let rest = write_path_list-exact paths in
      elim (Option-cases (write_path_list paths)) [
        | inl e ↦ absurd (rest.1 h.1 e)
        | inr (t, e) ↦ rw (h.0, e) (λ k. cc)
      ],
)
