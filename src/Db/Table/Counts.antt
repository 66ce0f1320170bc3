-- ===== src/Db/Table/Counts.antt =====
-- Numbers of rows before and after a statement, and keys that only one row has.
use mathlib.Core.List.{Memᴰ}
use mathlib.Core.List.Memᴰ.{head, tail}
use gd_sync_harness.Prelude.{
  ap, ◌&&◌, ◌∙◌, sym, All, ◌≤◌, ◌+◌, ◌≡◌, refl, Bool, true, false, List, [], ◌∷◌, ◌++◌, arith,
  if◌then◌else◌,
}
use gd_sync_harness.Db.Table.{delete_where, update_where, exists_where, count_where}

module _ {ℓ} {V : Type ℓ} (test : V → Bool) where
  pub count-delete_le :
      (gone : V → Bool) (vs : List V)
      → count_where test (delete_where gone vs) ≤ count_where test vs
  unfolding count_where delete_where
  count-delete_le gone [] = omega arith
  count-delete_le gone (v ∷ vs) = ground (arith, count-delete_le gone vs)

  -- An UPDATE of the rows that pass `hit` adds at most those that pass the test after it.
  pub count-update_le :
      (hit : V → Bool) (f : V → V) (vs : List V)
      → count_where test (update_where hit f vs)
        ≤ count_where test vs + count_where (λ v. hit v && test (f v)) vs
  unfolding count_where update_where
  count-update_le hit f [] = omega arith
  count-update_le hit f (v ∷ vs) = ground (arith, count-update_le hit f vs)

  -- Two tests that exclude each other share the count.
  pub count-split :
      (a b : V → Bool) (vs : List V)
      → ((v : V) → a v ≡ true → b v ≡ false)
      → count_where (λ v. test v && a v) vs + count_where (λ v. test v && b v) vs
        ≤ count_where test vs
  unfolding count_where
  count-split a b [] apart = omega arith
  count-split a b (v ∷ vs) apart = ground (arith, count-split a b vs apart, apart v)

  pub count-and_le :
      (a : V → Bool) (vs : List V) → count_where (λ v. test v && a v) vs ≤ count_where test vs
  unfolding count_where
  count-and_le a [] = omega arith
  count-and_le a (v ∷ vs) = ground (arith, count-and_le a vs)

  pub count-mem : (v : V) (vs : List V) → Memᴰ v vs → test v ≡ true → 1 ≤ count_where test vs
  unfolding count_where
  count-mem v [] m h = elim m [ ]
  count-mem v (w ∷ vs) (head same) h = ground (arith, ap test same)
  count-mem v (w ∷ vs) (tail m) h = ground (arith, count-mem v vs m h)

  -- An UPDATE that does not change the test adds none.
  pub count-update_same :
      (hit : V → Bool) (f : V → V) (vs : List V)
      → ((v : V) → test (f v) ≡ test v)
      → count_where test (update_where hit f vs) ≡ count_where test vs
  unfolding count_where update_where
  count-update_same hit f [] same = refl
  count-update_same hit f (v ∷ vs) same = ground (arith, count-update_same hit f vs same, same v)

  pub count-insert :
      (vs : List V) (v : V)
      → count_where test (vs ++ v ∷ []) ≡ count_where test vs + (if test v then 1 else 0)
  unfolding count_where
  count-insert [] v = ground arith
  count-insert (w ∷ vs) v = ground (arith, count-insert vs v)

  pub exists-count : (vs : List V) → exists_where test vs ≡ false → count_where test vs ≡ 0
  unfolding count_where exists_where
  exists-count [] h = refl
  exists-count (v ∷ vs) h = ground (arith, exists-count vs)

  -- Where at most one row passes the test, it is the one that is known to.
  pub All-unique :
      (v : V) (vs : List V)
      → Memᴰ v vs
      → test v ≡ true
      → count_where test vs ≤ 1
      → All (λ w. test w ≡ true → w ≡ v) vs
  unfolding count_where
  All-unique v [] m h one = tt
  All-unique v (w ∷ vs) (head same) h one = (
    λ k. sym same,
    All-none vs (let first : test w ≡ true = sym (ap test same) ∙ h in ground (arith, first)),
  )
    where
      All-none : (ws : List V) → count_where test ws ≡ 0 → All (λ w. test w ≡ true → w ≡ v) ws
      All-none [] e = tt
      All-none (w ∷ ws) e = (λ k. ground (arith, k), All-none ws (ground arith))
  All-unique v (w ∷ vs) (tail m) h one =
      let more = count-mem v vs m h in
      (λ k. ground (arith, k, more), All-unique v vs m h (ground (arith, more)))

  -- A DELETE leaves no row that passes its test.
  pub count-delete_self : (vs : List V) → count_where test (delete_where test vs) ≡ 0
  unfolding count_where delete_where
  count-delete_self [] = refl
  count-delete_self (v ∷ vs) = ground (arith, count-delete_self vs)

  pub count-none : (vs : List V) → All (λ v. test v ≡ false) vs → count_where test vs ≡ 0
  unfolding count_where
  count-none [] h = refl
  count-none (v ∷ vs) (h, hs) = rw h (count-none vs hs)
