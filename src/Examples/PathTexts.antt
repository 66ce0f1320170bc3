-- ===== src/Examples/PathTexts.antt =====
-- Paths, as lists of their bytes.
use gd_sync_harness.Prelude.{◌≡◌, ◌↔◌, true, false, some, [], ◌∷◌, ◌++◌, All, refl}
use gd_sync_harness.Paths.{
  Text, codes_of, split, join, contains_any, validate_prune_target, write_path_list,
}
use gd_sync_harness.Paths.Cleaning.{IsProper}
use gd_sync_harness.Paths.Targets.{prune_target_exact}
use gd_sync_harness.Paths.Lists.{write_path_list-injective}
use gd_sync_harness.Paths.Ancestors.{ancestors_of}

abbrev nested : Text
nested = codes_of "notes/2024/a.md"

abbrev plain : Text
plain = codes_of "b c.md"

prune_target_exact_example :
    (validate_prune_target nested ≡ true)
    ↔ ((contains_any (b'\r' ∷ b'\n' ∷ 0 ∷ []) nested ≡ false) × All IsProper (split nested))
prune_target_exact_example = prune_target_exact nested

abbrev listing : Text
listing = nested ++ b'\n' ∷ plain ++ b'\n' ∷ []

written_out : write_path_list (nested ∷ plain ∷ []) ≡ some listing
unfolding write_path_list
written_out = refl

nested_taken : validate_prune_target nested ≡ true
unfolding validate_prune_target
nested_taken = refl

ancestors_found : ancestors_of (split nested) ≡ codes_of "notes/2024" ∷ codes_of "notes" ∷ []
unfolding split join
ancestors_found = refl

write_path_list-injective_example : nested ∷ plain ∷ [] ≡ nested ∷ plain ∷ []
write_path_list-injective_example =
    write_path_list-injective (nested ∷ plain ∷ []) (nested ∷ plain ∷ []) listing written_out
      written_out
