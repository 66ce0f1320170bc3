-- ===== src/Db/Table/Laws.antt =====
-- What a DELETE leaves.
use mathlib.Core.List.Memᴰ.{head, tail}
use mathlib.Core.List.{Memᴰ}
use gd_sync_harness.Prelude.{
  cons_cong, ◌≡◌, Bool, true, false, inl, inr, List, [], ◌∷◌, All, Bool-cases, subst, refl, sym,
}
use gd_sync_harness.Db.Table.{delete_where, select_where, update_where}

module _ {ℓ κ} {V : Type ℓ} (P : V → Type κ) (test : V → Bool) where
  -- The rows that stay keep what held of all rows, and fail the test.
  pub All-delete_where :
      (vs : List V) → All P vs → All (λ v. P v × (test v ≡ false)) (delete_where test vs)
  unfolding delete_where
  All-delete_where [] h = tt
  All-delete_where (v ∷ vs) (h, hs) = elim (Bool-cases (test v)) [
    | inl b ↦ rw b (All-delete_where vs hs)
    | inr b ↦ rw b ((h, b), All-delete_where vs hs)
  ]

-- A row that fails the test of a DELETE stays.
pub mem-delete_where {ℓ} :
    {V : Type ℓ} (test : V → Bool) (v : V) (vs : List V)
    → test v ≡ false
    → Memᴰ v vs
    → Memᴰ v (delete_where test vs)
unfolding delete_where
mem-delete_where test v [] e m = elim m [ ]
mem-delete_where test v (w ∷ vs) e (head same) = rw (subst (λ x. test x ≡ false) same e) (head same)
mem-delete_where test v (w ∷ vs) e (tail m) = elim (Bool-cases (test w)) [
  | inl b ↦ rw b (mem-delete_where test v vs e m)
  | inr b ↦ rw b (tail (mem-delete_where test v vs e m))
]

-- Where no row passes the test, a SELECT is empty.
pub select_where-nil {ℓ} :
    {V : Type ℓ} (test : V → Bool) (vs : List V)
    → All (λ v. test v ≡ false) vs
    → select_where test vs ≡ []
unfolding select_where
select_where-nil test [] h = refl
select_where-nil test (v ∷ vs) (h, hs) = rw h (select_where-nil test vs hs)

delete_where-mem_kept {ℓ} :
    {V : Type ℓ} (test : V → Bool) (v w : V) (vs : List V)
    → test w ≡ false
    → (Memᴰ v (delete_where test vs) → Memᴰ v vs × (test v ≡ false))
    → Memᴰ v (w ∷ delete_where test vs)
    → Memᴰ v (w ∷ vs) × (test v ≡ false)
delete_where-mem_kept test v w vs b rest (head same) =
    (head same, subst (λ x. test x ≡ false) (sym same) b)
delete_where-mem_kept test v w vs b rest (tail m) = (tail (rest m).0, (rest m).1)

-- A row that a DELETE leaves was there, and fails the test.
pub delete_where-mem {ℓ} :
    {V : Type ℓ} (test : V → Bool) (v : V) (vs : List V)
    → Memᴰ v (delete_where test vs)
    → Memᴰ v vs × (test v ≡ false)
unfolding delete_where
delete_where-mem test v [] m = elim m [ ]
delete_where-mem test v (w ∷ vs) m = elim (Bool-cases (test w)) [
  | inl b ↦ let (there, fails) = delete_where-mem test v vs (rw b at m) in (tail there, fails)
  | inr b ↦ delete_where-mem_kept test v w vs b (delete_where-mem test v vs) (rw b at m)
]

-- An UPDATE keeps what every row has, if it keeps it on the rows that it changes.
pub All-update_where {ℓ κ} :
    {V : Type ℓ} (P : V → Type κ) (test : V → Bool) (f : V → V) (vs : List V)
    → All (λ v. P v × (test v ≡ true → P (f v))) vs
    → All P (update_where test f vs)
unfolding update_where
All-update_where P test f [] h = tt
All-update_where P test f (v ∷ vs) ((keep, change), hs) = elim (Bool-cases (test v)) [
  | inl b ↦ rw b (change b, All-update_where P test f vs hs)
  | inr b ↦ rw b (keep, All-update_where P test f vs hs)
]

pub All-and {ℓ κ} :
    {V : Type ℓ} (P Q : V → Type κ) (vs : List V) → All P vs → All Q vs → All (λ v. P v × Q v) vs
All-and P Q [] h k = tt
All-and P Q (v ∷ vs) h k = ((h.0, k.0), All-and P Q vs h.1 k.1)

pub All-mem {ℓ κ} : {V : Type ℓ} (P : V → Type κ) (v : V) (vs : List V) → All P vs → Memᴰ v vs → P v
All-mem P v [] h m = elim m [ ]
All-mem P v (w ∷ vs) h (head same) = subst P (sym same) h.0
All-mem P v (w ∷ vs) h (tail m) = All-mem P v vs h.1 m

-- An UPDATE that no row passes changes nothing.
pub update_where-none {ℓ} :
    {V : Type ℓ} (test : V → Bool) (f : V → V) (vs : List V)
    → All (λ v. test v ≡ false) vs
    → update_where test f vs ≡ vs
unfolding update_where
update_where-none test f [] h = refl
update_where-none test f (v ∷ vs) (h, hs) = rw h (cons_cong refl (update_where-none test f vs hs))
