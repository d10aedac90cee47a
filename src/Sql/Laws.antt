-- ===== src/Sql/Laws.antt =====
-- What the rows of a table keep under SELECT, UPDATE, DELETE and INSERT, for any test.
use spoolctl.Base.{
  ℕ, ◌+◌, ◌≤◌, ◌≡◌, refl, inl, inr, Bool, true, false, List, [], ◌∷◌, ◌++◌, Option, none, some,
  arith, All, if◌then◌else◌, Bool-cases,
}
use spoolctl.Sql.{select, update, delete, count, first, max_of}

-- The row that an UPDATE leaves in the place of x.
abbrev pub set_if {ℓ} : {A : Type ℓ} → (A → Bool) → (A → A) → A → A
set_if p f x = if p x then f x else x

abbrev pub map_if {ℓ} : {A : Type ℓ} → (A → Bool) → (A → A) → Option A → Option A
map_if p f none = none
map_if p f (some x) = some (set_if p f x)

abbrev pub or_else {ℓ} : {A : Type ℓ} → Option A → Option A → Option A
or_else none b = b
or_else (some a) b = some a

module _ {ℓ κ} {A : Type ℓ} (P : A → Type κ) where
  pub All-of : ((x : A) → P x) → (xs : List A) → All P xs
  All-of h [] = tt
  All-of h (x ∷ xs) = (h x, All-of h xs)

  pub All-update :
      (p : A → Bool) (f : A → A) (xs : List A)
      → ((x : A) → p x ≡ true → P x → P (f x))
      → All P xs
      → All P (update p f xs)
  unfolding update
  All-update p f [] keep h = tt
  All-update p f (x ∷ xs) keep h = elim (Bool-cases (p x)) [
    | inl e ↦ rw e (keep x e h.0, All-update p f xs keep h.1)
    | inr e ↦ rw e (h.0, All-update p f xs keep h.1)
  ]

  -- The same with a second fact about each row.
  pub All-update_with {μ} :
      (R : A → Type μ) (p : A → Bool) (f : A → A) (xs : List A)
      → ((x : A) → p x ≡ true → R x → P x → P (f x))
      → All R xs
      → All P xs
      → All P (update p f xs)
  unfolding update
  All-update_with R p f [] keep r h = tt
  All-update_with R p f (x ∷ xs) keep r h = elim (Bool-cases (p x)) [
    | inl e ↦ rw e (keep x e r.0 h.0, All-update_with R p f xs keep r.1 h.1)
    | inr e ↦ rw e (h.0, All-update_with R p f xs keep r.1 h.1)
  ]

  pub All-delete : (p : A → Bool) (xs : List A) → All P xs → All P (delete p xs)
  unfolding delete
  All-delete p [] h = tt
  All-delete p (x ∷ xs) h = elim (Bool-cases (p x)) [
    | inl e ↦ rw e (All-delete p xs h.1)
    | inr e ↦ rw e (h.0, All-delete p xs h.1)
  ]

  pub All-append : (xs ys : List A) → All P xs → All P ys → All P (xs ++ ys)
  All-append [] ys hx hy = hy
  All-append (x ∷ xs) ys hx hy = (hx.0, All-append xs ys hx.1 hy)

  pub All-first : (p : A → Bool) (xs : List A) (x : A) → All P xs → first p xs ≡ some x → P x
  unfolding first
  All-first p [] x h e = cc
  All-first p (y ∷ ys) x h e = elim (Bool-cases (p y)) [
    | inl t ↦ ground (arith, h.0)
    | inr t ↦ All-first p ys x h.1 (ground arith)
  ]

pub All-imp {ℓ κ μ} :
    {A : Type ℓ} (P : A → Type κ) (Q : A → Type μ)
    → ((x : A) → P x → Q x)
    → (xs : List A) → All P xs
    → All Q xs
All-imp P Q f [] h = tt
All-imp P Q f (x ∷ xs) h = (f x h.0, All-imp P Q f xs h.1)

-- A column that an UPDATE does not set.
pub set_if-column {ℓ κ} :
    {A : Type ℓ} {B : Type κ} (column : A → B) (p : A → Bool) (f : A → A) (x : A)
    → column (f x) ≡ column x
    → column (set_if p f x) ≡ column x
set_if-column column p f x e = elim (Bool-cases (p x)) [ inl t ↦ rw t e | inr t ↦ rw t refl ]

pub All-set {ℓ κ μ} :
    {A : Type ℓ} (P : A → Type κ) (Q : A → Type μ) (p : A → Bool) (f : A → A)
    → ((x : A) → P x → Q (set_if p f x))
    → (xs : List A) → All P xs
    → All Q (update p f xs)
unfolding update
All-set P Q p f step [] h = tt
All-set P Q p f step (x ∷ xs) h = (step x h.0, All-set P Q p f step xs h.1)

module _ {ℓ} {A : Type ℓ} where
  -- A row that is read satisfies what was asked for.
  pub first-holds : (p : A → Bool) (xs : List A) (x : A) → first p xs ≡ some x → p x ≡ true
  unfolding first
  first-holds p [] x e = cc
  first-holds p (y ∷ ys) x e = ground (arith, first-holds p ys x)

  pub first-update :
      (q p : A → Bool) (f : A → A) (xs : List A)
      → ((x : A) → q (f x) ≡ q x)
      → first q (update p f xs) ≡ map_if p f (first q xs)
  unfolding first update
  first-update q p f [] keep = refl
  first-update q p f (x ∷ xs) keep = ground (arith, keep x, first-update q p f xs keep)

  pub first-append :
      (q : A → Bool) (xs : List A) (y : A)
      → first q (xs ++ y ∷ []) ≡ or_else (first q xs) (if q y then some y else none)
  unfolding first
  first-append q [] y = refl
  first-append q (x ∷ xs) y = ground (arith, first-append q xs y)

  pub first-delete_self : (q : A → Bool) (xs : List A) → first q (delete q xs) ≡ none
  unfolding first delete
  first-delete_self q [] = refl
  first-delete_self q (x ∷ xs) = ground (arith, first-delete_self q xs)

  pub first-delete_other :
      (q p : A → Bool) (xs : List A)
      → ((x : A) → p x ≡ true → q x ≡ false)
      → first q (delete p xs) ≡ first q xs
  unfolding first delete
  first-delete_other q p [] apart = refl
  first-delete_other q p (x ∷ xs) apart = ground (arith, apart x, first-delete_other q p xs apart)

  pub count-append : (q : A → Bool) (xs ys : List A) → count q (xs ++ ys) ≡ count q xs + count q ys
  unfolding count
  count-append q [] ys = omega arith
  count-append q (x ∷ xs) ys = ground (arith, count-append q xs ys)

  pub count-update :
      (q p : A → Bool) (f : A → A) (xs : List A)
      → All (λ x. q (set_if p f x) ≡ q x) xs
      → count q (update p f xs) ≡ count q xs
  unfolding count update
  count-update q p f [] keep = refl
  count-update q p f (x ∷ xs) keep = ground (arith, keep.0, count-update q p f xs keep.1)

  -- An UPDATE after which no row passes the test.
  pub count-update_none :
      (q p : A → Bool) (f : A → A) (xs : List A)
      → ((x : A) → q (set_if p f x) ≡ false)
      → count q (update p f xs) ≡ 0
  unfolding count update
  count-update_none q p f [] gone = refl
  count-update_none q p f (x ∷ xs) gone = ground (arith, gone x, count-update_none q p f xs gone)

  -- An UPDATE that matches no row changes nothing.
  pub update-none : (p : A → Bool) (f : A → A) (xs : List A) → count p xs ≡ 0 → update p f xs ≡ xs
  unfolding count update
  update-none p f [] e = refl
  update-none p f (x ∷ xs) e = ground (arith, update-none p f xs)

  pub count-delete_self : (q : A → Bool) (xs : List A) → count q (delete q xs) ≡ 0
  unfolding count delete
  count-delete_self q [] = refl
  count-delete_self q (x ∷ xs) = ground (arith, count-delete_self q xs)

  pub count-delete_other :
      (q p : A → Bool) (xs : List A)
      → ((x : A) → p x ≡ true → q x ≡ false)
      → count q (delete p xs) ≡ count q xs
  unfolding count delete
  count-delete_other q p [] apart = refl
  count-delete_other q p (x ∷ xs) apart = ground (arith, apart x, count-delete_other q p xs apart)

  -- A test that implies another counts no more rows.
  pub count-le :
      (q p : A → Bool) (xs : List A) → ((x : A) → q x ≡ true → p x ≡ true) → count q xs ≤ count p xs
  unfolding count
  count-le q p [] imp = omega arith
  count-le q p (x ∷ xs) imp = ground (arith, imp x, count-le q p xs imp)

  pub max_of_bound :
      (column : A → ℕ) (p : A → Bool) (n : ℕ) (xs : List A)
      → max_of column p xs ≤ n
      → All (λ x. p x ≡ true → column x ≤ n) xs
  unfolding max_of
  max_of_bound column p n [] h = tt
  max_of_bound column p n (x ∷ xs) h = elim (Bool-cases (p x)) [
    | inl e ↦ (λ _. ground arith, max_of_bound column p n xs (ground arith))
    | inr e ↦ (λ t. absurd (ground arith), max_of_bound column p n xs (ground arith))
  ]

  pub first-none : (p : A → Bool) (xs : List A) → All (λ x. p x ≡ false) xs → first p xs ≡ none
  unfolding first
  first-none p [] h = refl
  first-none p (x ∷ xs) h = ground (arith, h.0, first-none p xs h.1)

  pub select-nil : (p : A → Bool) (xs : List A) → select p xs ≡ [] → All (λ x. p x ≡ false) xs
  unfolding select
  select-nil p [] e = tt
  select-nil p (x ∷ xs) e = elim (Bool-cases (p x)) [
    | inl t ↦ cc (rw t at e)
    | inr t ↦ (t, select-nil p xs (rw t at e))
  ]
