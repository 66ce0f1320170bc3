-- ===== src/Worker/PrunePass/Batches.antt =====
-- The batches of a prune: what they hold, and how the loop over them ends.
use gd_sync_harness.Prelude.{
  ℕ, zero, suc, ◌+◌, ◌≤◌, String, ◌≡◌, ◌≢◌, ◌∙◌, refl, ap, List, [], ◌∷◌, ◌++◌, arith, All, length,
  cons_cong,
}
use gd_sync_harness.Worker.PrunePass.{split_batch, batches}

abbrev pub flatten : List (List String) → List String
flatten [] = []
flatten (xs ∷ xss) = xs ++ flatten xss

split_batch-whole : (n : ℕ) (xs : List String) → (split_batch n xs).0 ++ (split_batch n xs).1 ≡ xs
unfolding split_batch
split_batch-whole zero xs = refl
split_batch-whole (suc n) [] = refl
split_batch-whole (suc n) (x ∷ xs) = cons_cong refl (split_batch-whole n xs)

split_batch-length :
    (n : ℕ) (xs : List String)
    → (length (split_batch n xs).0 ≤ n)
      × (length (split_batch n xs).0 + length (split_batch n xs).1 ≡ length xs)
unfolding split_batch
split_batch-length zero xs = (omega arith, omega arith)
split_batch-length (suc n) [] = (omega arith, omega arith)
split_batch-length (suc n) (x ∷ xs) =
    let (a, b) = split_batch-length n xs in (omega arith, omega arith)

split_batch-first : (n : ℕ) (x : String) (xs : List String) → (split_batch (suc n) (x ∷ xs)).0 ≢ []
unfolding split_batch
split_batch-first n x xs h = ground arith

split_batch-shorter :
    (n : ℕ) (x : String) (xs : List String) → length (split_batch (suc n) (x ∷ xs)).1 ≤ length xs
unfolding split_batch
split_batch-shorter n x xs = let (a, b) = split_batch-length n xs in omega arith

-- On as much fuel as there are paths the loop ends with all of them: the batches hold the paths in
-- their order, and each has at least one and at most `size`.
pub batches_exact :
    (fuel size : ℕ) (xs : List String)
    → length xs ≤ fuel
    → (flatten (batches fuel (suc size) xs) ≡ xs)
      × All (λ b. (b ≢ []) × (length b ≤ suc size)) (batches fuel (suc size) xs)
unfolding batches
batches_exact zero size [] enough = (refl, tt)
batches_exact zero size (x ∷ xs) enough = absurd (omega arith)
batches_exact (suc fuel) size [] enough = (refl, tt)
batches_exact (suc fuel) size (x ∷ xs) enough =
    let r = split_batch (suc size) (x ∷ xs) in
    let shorter = split_batch-shorter size x xs in
    let (whole, fine) = batches_exact fuel size r.1 (omega arith) in
    (
      ap (λ t. r.0 ++ t) whole ∙ split_batch-whole (suc size) (x ∷ xs),
      ((split_batch-first size x xs, (split_batch-length (suc size) (x ∷ xs)).0), fine),
    )
