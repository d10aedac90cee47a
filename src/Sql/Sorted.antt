-- ===== src/Sql/Sorted.antt =====
-- ORDER BY a numeric column, ascending: the last row has the greatest value.
use spoolctl.Base.{
  ℕ, ◌≤◌, ◌≡◌, inl, inr, Bool, List, [], ◌∷◌, some, arith, All, last?, ltb, Bool-cases,
}
use spoolctl.Sql.{insert_by, order_by}
use spoolctl.Sql.Laws.{All-imp}
use spoolctl.Sql.Order.{All-insert_by}

module _ {ℓ κ} {A : Type ℓ} (P : A → Type κ) where
  All-uninsert :
      (before : A → A → Bool) (x : A) (xs : List A) → All P (insert_by before x xs) → P x × All P xs
  unfolding insert_by
  All-uninsert before x [] h = h
  All-uninsert before x (y ∷ ys) h = elim (Bool-cases (before y x)) [
    | inl t ↦
        let (hy, rest) = rw t at h in
        let (hx, more) = All-uninsert before x ys rest in (hx, (hy, more))
    | inr t ↦ rw t at h
  ]

  -- What holds of the ordered rows holds of the rows.
  pub All-unorder : (before : A → A → Bool) (xs : List A) → All P (order_by before xs) → All P xs
  unfolding order_by
  All-unorder before [] h = tt
  All-unorder before (x ∷ xs) h =
      let (hx, rest) = All-uninsert before x (order_by before xs) h in
      (hx, All-unorder before xs rest)

  pub All-last : (xs : List A) (a : A) → All P xs → last? xs ≡ some a → P a
  All-last [] a h e = cc
  All-last (x ∷ []) a h e = ground (arith, h.0)
  All-last (x ∷ y ∷ xs) a h e = All-last (y ∷ xs) a h.1 e

module _ {A : Type 0} (key : A → ℕ) where
  abbrev Sorted : List A → Type 0
  Sorted [] = Unit {0}
  Sorted (x ∷ xs) = All (λ y. key x ≤ key y) xs × Sorted xs

  abbrev below : A → A → Bool
  below x y = ltb (key x) (key y)

  insert_by-Sorted : (x : A) (xs : List A) → Sorted xs → Sorted (insert_by below x xs)
  unfolding insert_by
  insert_by-Sorted x [] h = (tt, tt)
  insert_by-Sorted x (y ∷ ys) h = elim (Bool-cases (below y x)) [
    | inl t ↦ rw t (
      All-insert_by (λ z. key y ≤ key z) below x ys (ground (arith, t)) h.0,
      insert_by-Sorted x ys h.1,
    )
    | inr t ↦
        let least : key x ≤ key y = ground (arith, t) in
        rw t ((least, All-imp (λ z. key y ≤ key z) _ (λ z l. omega (arith, l, least)) ys h.0), h)
  ]

  order_by-Sorted : (xs : List A) → Sorted (order_by below xs)
  unfolding order_by
  order_by-Sorted [] = tt
  order_by-Sorted (x ∷ xs) = insert_by-Sorted x (order_by below xs) (order_by-Sorted xs)

  last-Sorted : (xs : List A) (a : A) → Sorted xs → last? xs ≡ some a → All (λ x. key x ≤ key a) xs
  last-Sorted [] a h e = tt
  last-Sorted (x ∷ []) a h e = (ground (arith, e), tt)
  last-Sorted (x ∷ y ∷ xs) a h e =
      (All-last (λ z. key x ≤ key z) (y ∷ xs) a h.0 e, last-Sorted (y ∷ xs) a h.1 e)

  -- The last of the rows ordered by a column is one whose value is the greatest.
  pub last-order_by :
      (xs : List A) (a : A) → last? (order_by below xs) ≡ some a → All (λ x. key x ≤ key a) xs
  last-order_by xs a e =
      All-unorder (λ x. key x ≤ key a) below xs
        (last-Sorted (order_by below xs) a (order_by-Sorted xs) e)
