-- ===== src/Sorted.antt =====
-- The keys of a map of paths, sorted by `sort.Strings`: each path once.
use Prim.Native.Nat.{Ordering}
use Prim.Native.String.{compare}
use gd_sync_harness.Prelude.{String, List, [], ◌∷◌, All}

abbrev pub insert_path : String → List String → List String
insert_path x [] = x ∷ []
insert_path x (y ∷ ys) =
    let rest = insert_path x ys in
    elim (compare x y) [ Ordering.lt ↦ x ∷ y ∷ ys | Ordering.eq ↦ y ∷ ys | Ordering.gt ↦ y ∷ rest ]

unfoldable pub sorted_paths : List String → List String
sorted_paths [] = []
sorted_paths (x ∷ xs) = insert_path x (sorted_paths xs)

All-insert_path :
    (P : String → Type 0) (x : String) (ys : List String)
    → P x
    → All P ys
    → All P (insert_path x ys)
All-insert_path P x [] px h = (px, tt)
All-insert_path P x (y ∷ ys) px (py, h) =
    elim (compare x y)
      as (λ c. All P (elim c [
        | Ordering.lt ↦ x ∷ y ∷ ys
        | Ordering.eq ↦ y ∷ ys
        | Ordering.gt ↦ y ∷ insert_path x ys
      ])) [
        | Ordering.lt ↦ (px, (py, h))
        | Ordering.eq ↦ (py, h)
        | Ordering.gt ↦ (py, All-insert_path P x ys px h)
      ]

pub All-sorted_paths : (P : String → Type 0) (xs : List String) → All P xs → All P (sorted_paths xs)
unfolding sorted_paths
All-sorted_paths P [] h = tt
All-sorted_paths P (x ∷ xs) (px, h) =
    All-insert_path P x (sorted_paths xs) px (All-sorted_paths P xs h)
