-- ===== src/Db/Table.antt =====
-- The SQL statements that the state package sends to SQLite (internal/state), on two kinds of table:
-- one that has the profile id for its primary key, and a list of rows in the order of insertion.
pub mod Laws
pub mod Counts
use gd_sync_harness.Prelude.{
  ℕ, suc, String, Bool, true, false, Option, none, some, List, [], ◌∷◌, str_eq, if◌then◌else◌,
}
use mathlib.Core.Option

abbrev pub Table {ℓ} : Type ℓ → Type ℓ
Table V = String → Option V

module _ {ℓ} {V : Type ℓ} where
  -- UPDATE t SET … WHERE profile_id = k
  abbrev pub update_row : String → (V → V) → Table V → Table V
  update_row k f t j = if str_eq k j then Option.map f (t j) else t j

  -- INSERT OR IGNORE INTO t …
  abbrev pub insert_or_ignore : String → V → Table V → Table V
  insert_or_ignore k v t j =
      if str_eq k j then (elim (t j) [ none ↦ some v | some w ↦ some w ]) else t j

  -- UPDATE t SET … WHERE test
  unfoldable pub update_where : (V → Bool) → (V → V) → List V → List V
  update_where test f [] = []
  update_where test f (v ∷ vs) = (if test v then f v else v) ∷ update_where test f vs

  -- DELETE FROM t WHERE test
  unfoldable pub delete_where : (V → Bool) → List V → List V
  delete_where test [] = []
  delete_where test (v ∷ vs) = let rest = delete_where test vs in if test v then rest else v ∷ rest

  -- SELECT * FROM t WHERE test
  unfoldable pub select_where : (V → Bool) → List V → List V
  select_where test [] = []
  select_where test (v ∷ vs) = let rest = select_where test vs in if test v then v ∷ rest else rest

  -- EXISTS (SELECT 1 FROM t WHERE test)
  unfoldable pub exists_where : (V → Bool) → List V → Bool
  exists_where test [] = false
  exists_where test (v ∷ vs) = if test v then true else exists_where test vs

  -- SELECT COUNT(*) FROM t WHERE test
  unfoldable pub count_where : (V → Bool) → List V → ℕ
  count_where test [] = 0
  count_where test (v ∷ vs) = let rest = count_where test vs in if test v then suc rest else rest

  -- INSERT INTO t … ON CONFLICT (key) DO UPDATE SET …, where `test` finds the key
  unfoldable pub upsert_where : (V → Bool) → V → (V → V) → List V → List V
  upsert_where test new merge [] = new ∷ []
  upsert_where test new merge (v ∷ vs) =
      let rest = upsert_where test new merge vs in if test v then merge v ∷ vs else v ∷ rest
