-- ===== src/Paths.antt =====
-- Relative paths on the remote: ValidateCanonicalRelativeTarget of internal/source/eligibility.go,
-- IsDerivedPath of internal/namespace/derived.go, validatePruneTargetPath of
-- internal/cli/pruneworker.go, and what they use of Go's `strings` and `path`: Split, HasPrefix,
-- ContainsAny, Clean and Dir. A text is the list of its bytes.
pub mod Joining
pub mod Cleaning
pub mod Targets
pub mod Lists
pub mod Ancestors
pub mod Tests
use Prim.Native.Char.{code}
use Prim.Native.String.{String}
use gd_sync_harness.Prelude.{
  ℕ, Bool, true, false, not, ◌&&◌, ◌||◌, List, [], ◌∷◌, ◌++◌, ◌==◌, if◌then◌else◌, Option, none,
  some, zero, suc,
}
use mathlib.Core.Option

abbrev pub Text : Type 0
Text = List ℕ

-- The codes of a native text. The checks of a path look at ASCII codes only, which are bytes.
abbrev pub codes_of : String → Text
codes_of String.[] = []
codes_of (String.◌∷◌ c s) = code c ∷ codes_of s

abbrev pub text_eq : Text → Text → Bool
text_eq [] [] = true
text_eq [] (d ∷ t) = false
text_eq (c ∷ s) [] = false
text_eq (c ∷ s) (d ∷ t) = c == d && text_eq s t

-- strings.HasPrefix(s, prefix), the prefix first
abbrev pub has_prefix : Text → Text → Bool
has_prefix [] s = true
has_prefix (c ∷ t) [] = false
has_prefix (c ∷ t) (d ∷ s) = c == d && has_prefix t s

abbrev pub elem_byte : ℕ → Text → Bool
elem_byte c [] = false
elem_byte c (d ∷ s) = c == d || elem_byte c s

-- strings.ContainsAny(s, chars), for chars of one byte each; the chars first
abbrev pub contains_any : Text → Text → Bool
contains_any chars [] = false
contains_any chars (c ∷ s) = elem_byte c chars || contains_any chars s

abbrev pub slash : ℕ
slash = b'/'

abbrev pub dot : ℕ
dot = b'.'

abbrev pub dots : Text
dots = dot ∷ dot ∷ []

-- The byte is put before the first segment.
abbrev pub onto_first : ℕ → List Text → List Text
onto_first c [] = (c ∷ []) ∷ []
onto_first c (seg ∷ segs) = (c ∷ seg) ∷ segs

-- strings.Split(s, "/")
unfoldable pub split : Text → List Text
split [] = [] ∷ []
split (c ∷ s) = let rest = split s in if c == slash then [] ∷ rest else onto_first c rest

-- strings.Join(segs, "/")
unfoldable pub join : List Text → Text
join [] = []
join (seg ∷ []) = seg
join (seg ∷ next ∷ segs) = seg ++ slash ∷ join (next ∷ segs)

-- One segment of path.Clean; `out` is what was written, its last segment first.
unfoldable pub clean_segment : Bool → Text → List Text → List Text
clean_segment rooted seg out =
    if text_eq seg [] || text_eq seg (dot ∷ [])
    then out
    else if text_eq seg dots
    then (elim out [
      | [] ↦ if rooted then [] else dots ∷ []
      | top ∷ below ↦ if text_eq top dots then dots ∷ top ∷ below else below
    ])
    else seg ∷ out

unfoldable pub clean_segments : Bool → List Text → List Text → List Text
unfolding clean_segment
clean_segments rooted [] out = out
clean_segments rooted (seg ∷ segs) out = clean_segments rooted segs (clean_segment rooted seg out)

-- The segments in the order of the path.
unfoldable pub in_order : List Text → List Text → List Text
in_order [] segs = segs
in_order (seg ∷ out) segs = in_order out (seg ∷ segs)

abbrev pub written : Bool → List Text → Text
written true segs = slash ∷ join segs
written false [] = dot ∷ []
written false (seg ∷ segs) = join (seg ∷ segs)

-- path.Clean
unfoldable pub clean : Text → Text
unfolding split clean_segments in_order join
clean s =
    let rooted = has_prefix (slash ∷ []) s in
    written rooted (in_order (clean_segments rooted (split s) []) [])

-- A segment that ValidateCanonicalRelativeTarget takes.
abbrev pub is_proper : Text → Bool
is_proper seg = not (text_eq seg [] || text_eq seg (dot ∷ []) || text_eq seg dots)

abbrev pub all_proper : List Text → Bool
all_proper [] = true
all_proper (seg ∷ segs) = is_proper seg && all_proper segs

-- ValidateCanonicalRelativeTarget, whether it returns no error
unfoldable pub validate_canonical : Text → Bool
unfolding split clean
validate_canonical v =
    not (text_eq v [])
    && not (contains_any (b'\\' ∷ 0 ∷ []) v)
    && not (has_prefix (slash ∷ []) v)
    && all_proper (split v)
    && text_eq (clean v) v

-- validatePruneTargetPath, whether it returns no error
unfoldable pub validate_prune_target : Text → Bool
unfolding clean
validate_prune_target rel =
    let c = clean rel in
    not (text_eq rel [] || contains_any (b'\r' ∷ b'\n' ∷ 0 ∷ []) rel || has_prefix (slash ∷ []) rel)
    && not (
        not (text_eq c rel)
        || text_eq c (dot ∷ [])
        || text_eq c dots
        || has_prefix (dot ∷ dot ∷ slash ∷ []) c)

-- path.Dir: what stands before the last slash, cleaned
abbrev pub all_but_last : List Text → List Text
all_but_last [] = []
all_but_last (seg ∷ []) = []
all_but_last (seg ∷ next ∷ segs) = seg ∷ all_but_last (next ∷ segs)

-- path.Split keeps the slash behind the directory.
abbrev pub dir_part : List Text → Text
dir_part [] = []
dir_part (seg ∷ segs) = join (seg ∷ segs) ++ slash ∷ []

unfoldable pub dir : Text → Text
unfolding split clean join
dir s = clean (dir_part (all_but_last (split s)))

-- ".knowledge-derived"
abbrev derived_root : Text
derived_root =
    b'.' ∷ b'k' ∷ b'n' ∷ b'o' ∷ b'w' ∷ b'l' ∷ b'e' ∷ b'd' ∷ b'g' ∷ b'e' ∷ b'-' ∷ b'd' ∷ b'e' ∷ b'r'
    ∷ b'i' ∷ b'v' ∷ b'e' ∷ b'd' ∷ []

-- IsDerivedPath
unfoldable pub is_derived_path : Text → Bool
is_derived_path rel = text_eq rel derived_root || has_prefix (derived_root ++ slash ∷ []) rel

-- The lines of writePrunePathList, or none where a path is refused.
unfoldable pub write_path_list : List Text → Option Text
unfolding validate_prune_target
write_path_list [] = some []
write_path_list (rel ∷ paths) =
    let rest = write_path_list paths in
    if validate_prune_target rel then Option.map (λ t. rel ++ b'\n' ∷ t) rest else none

-- The ancestors of one target, by the loop of pruneTargetAncestorDirs: none where one is refused, or
-- where the fuel runs out.
unfoldable pub ancestors : ℕ → Text → Option (List Text)
unfolding dir validate_prune_target
ancestors zero rel = none
ancestors (suc fuel) rel =
    let d = dir rel in
    let rest = ancestors fuel d in
    if text_eq d (dot ∷ [])
    then some []
    else if validate_prune_target d
    then Option.map (λ ds. d ∷ ds) rest
    else none
