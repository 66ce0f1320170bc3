-- ===== src/Paths/Tests.antt =====
-- Runs of the path functions.
use gd_sync_harness.Prelude.{◌≡◌, refl, true, false}
use gd_sync_harness.Paths.{codes_of, clean, validate_canonical, validate_prune_target}

clean_mixed : clean (codes_of "a//b/./c/../d") ≡ codes_of "a/b/d"
unfolding clean
clean_mixed = refl

clean_above : clean (codes_of "../../a") ≡ codes_of "../../a"
unfolding clean
clean_above = refl

clean_rooted : clean (codes_of "/../a/") ≡ codes_of "/a"
unfolding clean
clean_rooted = refl

clean_to_dot : clean (codes_of "a/..") ≡ codes_of "."
unfolding clean
clean_to_dot = refl

canonical_taken : validate_canonical (codes_of "a/b.md") ≡ true
unfolding validate_canonical
canonical_taken = refl

climb_refused : validate_prune_target (codes_of "../b.md") ≡ false
unfolding validate_prune_target
climb_refused = refl
