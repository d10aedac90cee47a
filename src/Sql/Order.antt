-- ===== src/Sql/Order.antt =====
-- ORDER BY, and the row that comes first: what holds of every row holds of it, and no row stands
-- strictly before it.
use spoolctl.Base.{
  ◌≡◌, refl, sym, ◌∙◌, subst, inl, inr, Bool, true, false, List, [], ◌∷◌, none, some, arith, All,
  head?, if◌then◌else◌, Bool-cases, Option-cases,
}
use spoolctl.Sql.Laws.{All-imp}
use spoolctl.Sql.{select, insert_by, order_by}

module _ {ℓ κ} {A : Type ℓ} (P : A → Type κ) where
  pub All-select :
      (p : A → Bool) (xs : List A) → All P xs → All (λ x. (p x ≡ true) × P x) (select p xs)
  unfolding select
  All-select p [] h = tt
  All-select p (x ∷ xs) h = elim (Bool-cases (p x)) [
    | inl e ↦ rw e ((e, h.0), All-select p xs h.1)
    | inr e ↦ rw e (All-select p xs h.1)
  ]

  pub All-unselect :
      (p : A → Bool) (xs : List A) → All P (select p xs) → All (λ x. p x ≡ true → P x) xs
  unfolding select
  All-unselect p [] h = tt
  All-unselect p (x ∷ xs) h = elim (Bool-cases (p x)) [
    | inl e ↦ let (hx, rest) = rw e at h in ((λ _. hx), All-unselect p xs rest)
    | inr e ↦ ((λ t. absurd (ground arith)), All-unselect p xs (rw e at h))
  ]

  pub All-insert_by :
      (before : A → A → Bool) (x : A) (xs : List A) → P x → All P xs → All P (insert_by before x xs)
  unfolding insert_by
  All-insert_by before x [] hx h = (hx, tt)
  All-insert_by before x (y ∷ ys) hx h = elim (Bool-cases (before y x)) [
    | inl e ↦ rw e (h.0, All-insert_by before x ys hx h.1)
    | inr e ↦ rw e (hx, (h.0, h.1))
  ]

  pub All-order_by : (before : A → A → Bool) (xs : List A) → All P xs → All P (order_by before xs)
  unfolding order_by
  All-order_by before [] h = tt
  All-order_by before (x ∷ xs) h =
      All-insert_by before x (order_by before xs) h.0 (All-order_by before xs h.1)

  pub All-head : (xs : List A) (x : A) → All P xs → head? xs ≡ some x → P x
  All-head [] x h e = cc
  All-head (y ∷ ys) x h e = ground (arith, h.0)

-- The order is strict and total up to ties.
pub record IsWeakOrder {ℓ} {A : Type ℓ} (before : A → A → Bool) : Type ℓ where
  pub asym : (x y : A) → before x y ≡ true → before y x ≡ false
  pub negtrans : (x y z : A) → before x y ≡ false → before y z ≡ false → before x z ≡ false

module _ {ℓ} {A : Type ℓ} (before : A → A → Bool) where
  head-insert_by :
      (x : A) (xs : List A)
      → head? (insert_by before x xs)
        ≡ elim (head? xs) [ none ↦ some x | some y ↦ if before y x then some y else some x ]
  unfolding insert_by
  head-insert_by x [] = refl
  head-insert_by x (y ∷ ys) = ground arith

  pub order_by-none : (xs : List A) → head? (order_by before xs) ≡ none → xs ≡ []
  unfolding order_by
  order_by-none [] e = refl
  order_by-none (x ∷ xs) e = ground (arith, head-insert_by x (order_by before xs), e)

  module _ (w : IsWeakOrder before) where
    irrefl : (x : A) → before x x ≡ false
    irrefl x = ground (arith, w.asym x x)

    -- The least of the rest against the row that is put in.
    least_of_two :
        {y x : A} (ys : List A) (m : A)
        → All (λ z. before z m ≡ false) ys
        → (if before m y then some m else some y) ≡ some x
        → (before y x ≡ false) × All (λ z. before z x ≡ false) ys
    least_of_two {y} {x} ys m h e = elim (Bool-cases (before m y)) [
      | inl t ↦
          let same : m ≡ x = ground arith in
          subst (λ z. (before y z ≡ false) × All (λ u. before u z ≡ false) ys) same
            (w.asym m y t, h)
      | inr t ↦
          let same : y ≡ x = ground arith in
          subst (λ z. (before y z ≡ false) × All (λ u. before u z ≡ false) ys) same
            (irrefl y, All-imp _ _ (λ z b. w.negtrans z m y b t) ys h)
    ]

    pub head-order_by-least :
        (xs : List A) (x : A)
        → head? (order_by before xs) ≡ some x
        → All (λ y. before y x ≡ false) xs
    unfolding order_by
    head-order_by-least [] x e = tt
    head-order_by-least (y ∷ ys) x e = elim (Option-cases (head? (order_by before ys))) [
      | inl n ↦
          let same : y ≡ x = ground (arith, head-insert_by y (order_by before ys), n, e) in
          (
            subst (λ z. before y z ≡ false) same (irrefl y),
            subst (All (λ z. before z x ≡ false)) (sym (order_by-none ys n)) tt,
          )
      | inr (m, f) ↦
          least_of_two ys m (head-order_by-least ys m f)
            (sym (rw (f) at (head-insert_by y (order_by before ys))) ∙ e)
    ]
