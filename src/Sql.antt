-- ===== src/Sql.antt =====
-- The SQL that the queries of spoolctl/store.py are made of, over a table as the list of its rows
-- in the order of their ids: SELECT ... WHERE, UPDATE ... WHERE, DELETE ... WHERE, COUNT(*), MAX,
-- ORDER BY and LIMIT. LIMIT 1 is `head?`, LIMIT n is `take n`.
pub mod Laws
pub mod Keys
pub mod Order
pub mod Limit
pub mod Sorted
use spoolctl.Base.{
  ℕ, suc, min, max, Bool, true, false, not, List, [], ◌∷◌, Option, none, some, head?, if◌then◌else◌,
}

abbrev least : ℕ → Option ℕ → ℕ
least a none = a
least a (some b) = min a b

module _ {ℓ} {A : Type ℓ} where
  -- SELECT * ... WHERE p
  unfoldable pub select : (A → Bool) → List A → List A
  select p [] = []
  select p (x ∷ xs) = let rest = select p xs in if p x then x ∷ rest else rest

  -- UPDATE ... SET f WHERE p
  unfoldable pub update : (A → Bool) → (A → A) → List A → List A
  update p f [] = []
  update p f (x ∷ xs) = (if p x then f x else x) ∷ update p f xs

  -- DELETE ... WHERE p
  unfoldable pub delete : (A → Bool) → List A → List A
  delete p [] = []
  delete p (x ∷ xs) = let rest = delete p xs in if p x then rest else x ∷ rest

  -- SELECT COUNT(*) ... WHERE p; the rowcount of an UPDATE or a DELETE.
  unfoldable pub count : (A → Bool) → List A → ℕ
  count p [] = 0
  count p (x ∷ xs) = let rest = count p xs in if p x then suc rest else rest

  -- SELECT ... WHERE p LIMIT 1, in the order of the ids.
  unfoldable pub first : (A → Bool) → List A → Option A
  first p [] = none
  first p (x ∷ xs) = let rest = first p xs in if p x then some x else rest

  -- SELECT COALESCE(MAX(column), 0) ... WHERE p
  unfoldable pub max_of : (A → ℕ) → (A → Bool) → List A → ℕ
  max_of column p [] = 0
  max_of column p (x ∷ xs) =
      let rest = max_of column p xs in if p x then max (column x) rest else rest

  unfoldable pub insert_by : (A → A → Bool) → A → List A → List A
  insert_by before x [] = x ∷ []
  insert_by before x (y ∷ ys) =
      let rest = insert_by before x ys in if before y x then y ∷ rest else x ∷ y ∷ ys

  -- SELECT MIN(column) ... WHERE p; NULL where no row is selected.
  unfoldable pub min_of : (A → ℕ) → (A → Bool) → List A → Option ℕ
  min_of column p [] = none
  min_of column p (x ∷ xs) =
      let rest = min_of column p xs in if p x then some (least (column x) rest) else rest

  -- ORDER BY: `before x y` says that x may not stand behind y.
  unfoldable pub order_by : (A → A → Bool) → List A → List A
  unfolding insert_by
  order_by before [] = []
  order_by before (x ∷ xs) = insert_by before x (order_by before xs)
