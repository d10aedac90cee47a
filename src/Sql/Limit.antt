-- ===== src/Sql/Limit.antt =====
-- LIMIT: `take` of a table, and of a selection of its rows by ascending id.
use spoolctl.Base.{
  ℕ, suc, zero, ◌≤◌, ◌<◌, ◌≡◌, ◌≢◌, refl, sym, ap, ◌∙◌, Bool, true, false, ◌&&◌, List, [], ◌∷◌,
  none, some, All, take, length, last?, leb, arith, Bool-cases, Option-cases, inl, inr,
}
use spoolctl.Sql.{select}
use spoolctl.Sql.Laws.{All-imp}
use spoolctl.Sql.Keys.{Ascending, Ascending-above, Ascending-weaken}

leb-true : (m n : ℕ) → m ≤ n → leb m n ≡ true
leb-true m n h = ground (arith, h)

leb-false : (m n : ℕ) → n < m → leb m n ≡ false
leb-false m n h = ground (arith, h)

module _ {ℓ} {A : Type ℓ} where
  pub take-all : (n : ℕ) (xs : List A) → length xs ≤ n → take n xs ≡ xs
  take-all zero [] h = refl
  take-all zero (x ∷ xs) h = absurd (omega (arith, h))
  take-all (suc n) [] h = refl
  take-all (suc n) (x ∷ xs) h = ap (λ ys. x ∷ ys) (take-all n xs (omega (arith, h)))

  -- One row more than asked for says whether there are more.
  pub length-take_more : (n : ℕ) (xs : List A) → length (take (suc n) xs) ≤ n → length xs ≤ n
  length-take_more n [] h = omega arith
  length-take_more zero (x ∷ xs) h = absurd (omega (arith, h))
  length-take_more (suc n) (x ∷ xs) h = omega (arith, length-take_more n xs (omega (arith, h)))

  pub take-take_more : (n : ℕ) (xs : List A) → take n (take (suc n) xs) ≡ take n xs
  take-take_more zero xs = refl
  take-take_more (suc n) [] = refl
  take-take_more (suc n) (x ∷ xs) = ap (λ ys. x ∷ ys) (take-take_more n xs)

  pub select-select :
      (p q : A → Bool) (xs : List A) → select p (select q xs) ≡ select (λ x. q x && p x) xs
  unfolding select
  select-select p q [] = refl
  select-select p q (x ∷ xs) = elim (Bool-cases (q x)) [
    | inl e ↦ ground (arith, e, select-select p q xs)
    | inr e ↦ ground (arith, e, select-select p q xs)
  ]

  pub select-All : (p : A → Bool) (xs : List A) → All (λ x. p x ≡ true) xs → select p xs ≡ xs
  unfolding select
  select-All p [] h = refl
  select-All p (x ∷ xs) h = rw h.0 (ap (λ ys. x ∷ ys) (select-All p xs h.1))

  pub select-none : (p : A → Bool) (xs : List A) → All (λ x. p x ≡ false) xs → select p xs ≡ []
  unfolding select
  select-none p [] h = refl
  select-none p (x ∷ xs) h = rw h.0 (select-none p xs h.1)

  last-none : (xs : List A) → last? xs ≡ none → xs ≡ []
  last-none [] e = refl
  last-none (x ∷ []) e = cc
  last-none (x ∷ y ∷ xs) e = cc (last-none (y ∷ xs) e)

  pub last-take-none : (n : ℕ) (xs : List A) → 0 < n → 0 < length xs → last? (take n xs) ≢ none
  last-take-none zero xs h k e = omega (arith, h)
  last-take-none (suc n) [] h k e = omega (arith, k)
  last-take-none (suc n) (x ∷ xs) h k e = cc (last-none (take (suc n) (x ∷ xs)) e)

  pub length-take : (n : ℕ) (xs : List A) → length (take n xs) ≤ n
  length-take zero xs = omega arith
  length-take (suc n) [] = omega arith
  length-take (suc n) (x ∷ xs) = omega (arith, length-take n xs)

  pub length-take_whole : (n : ℕ) (xs : List A) → length (take n xs) ≤ length xs
  length-take_whole zero xs = omega arith
  length-take_whole (suc n) [] = omega arith
  length-take_whole (suc n) (x ∷ xs) = omega (arith, length-take_whole n xs)

  last-cons : (x y : A) (xs : List A) → last? xs ≡ some y → last? (x ∷ xs) ≡ some y
  last-cons x y [] e = cc
  last-cons x y (z ∷ xs) e = e

  module _ (key : A → ℕ) where
    pub Ascending-select :
        (p : A → Bool) (low : ℕ) (xs : List A)
        → Ascending key low xs
        → Ascending key low (select p xs)
    unfolding select
    Ascending-select p low [] h = tt
    Ascending-select p low (x ∷ xs) h = elim (Bool-cases (p x)) [
      | inl e ↦ rw e (h.0, Ascending-select p (key x) xs h.1)
      | inr e ↦
          rw e (
            Ascending-select p low xs
              (Ascending-weaken key low (key x) xs (omega (arith, h.0)) h.1))
    ]

    -- Above a bound that all selected keys pass, the rows ascend from the bound.
    pub Ascending-from :
        (low low' : ℕ) (xs : List A)
        → All (λ x. low < key x) xs
        → Ascending key low' xs
        → Ascending key low xs
    Ascending-from low low' [] a h = tt
    Ascending-from low low' (x ∷ xs) a h = (a.0, h.1)

    -- The first n rows are those whose key is at most the key of the last of them.
    pub take-by_key :
        (n low : ℕ) (xs : List A) (y : A)
        → Ascending key low xs
        → last? (take n xs) ≡ some y
        → (low < key y) × (select (λ x. leb (key x) (key y)) xs ≡ take n xs)
    unfolding select
    take-by_key zero low xs y h e = cc
    take-by_key (suc n) low [] y h e = cc
    take-by_key (suc n) low (x ∷ xs) y h e = elim (Option-cases (last? (take n xs))) [
      | inl stop ↦
          let empty : take n xs ≡ [] = last-none (take n xs) stop in
          let same : x ≡ y = cc (ap (λ t. last? (x ∷ t)) empty, e) in
          (
            omega (arith, h.0, ap key same),
            rw (leb-true (key x) (key y) (omega (arith, ap key same))) (
                ap (λ t. x ∷ t)
                  (select-none _ xs (
                      All-imp (λ z. key x < key z) _
                        (λ z b. leb-false (key z) (key y) (omega (arith, b, ap key same))) xs
                        (Ascending-above key (key x) xs h.1))
                    ∙ sym empty)),
          )
      | inr (z, more) ↦
          let same : z ≡ y = cc (last-cons x z (take n xs) more, e) in
          let (above, rest) = take-by_key n (key x) xs y h.1 (more ∙ ap some same) in
          (
            omega (arith, h.0, above),
            rw (leb-true (key x) (key y) (omega (arith, above))) (ap (λ t. x ∷ t) rest),
          )
    ]
