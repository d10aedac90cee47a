-- ===== src/Sql/Keys.antt =====
-- Tables whose rows are in the order of a key, as with INTEGER PRIMARY KEY AUTOINCREMENT.
use spoolctl.Base.{
  ℕ, suc, ◌≤◌, ◌<◌, ◌≡◌, refl, inl, inr, Bool, true, false, ◌&&◌, List, [], ◌∷◌, ◌++◌, Option, none,
  some, arith, All, if◌then◌else◌, ◌==◌, Bool-cases,
}
use spoolctl.Sql.{update, delete, count, first}

abbrev pub one_if {ℓ} : {A : Type ℓ} → (A → Bool) → Option A → ℕ
one_if r none = 0
one_if r (some x) = if r x then 1 else 0

abbrev pub some_if {ℓ} : {A : Type ℓ} → (A → Bool) → Option A → Option A
some_if r none = none
some_if r (some x) = if r x then some x else none

module _ {ℓ} {A : Type ℓ} (key : A → ℕ) where
  -- The keys grow along the table, from above `low`.
  abbrev pub Ascending : ℕ → List A → Type 0
  Ascending low [] = Unit {0}
  Ascending low (x ∷ xs) = (low < key x) × Ascending (key x) xs

  pub Ascending-weaken :
      (low low' : ℕ) (xs : List A) → low ≤ low' → Ascending low' xs → Ascending low xs
  Ascending-weaken low low' [] l h = tt
  Ascending-weaken low low' (x ∷ xs) l h = (omega arith, h.1)

  pub Ascending-above : (low : ℕ) (xs : List A) → Ascending low xs → All (λ x. low < key x) xs
  Ascending-above low [] h = tt
  Ascending-above low (x ∷ xs) h =
      (h.0, Ascending-above low xs (Ascending-weaken low (key x) xs (omega arith) h.1))

  pub Ascending-update :
      (p : A → Bool) (f : A → A) (low : ℕ) (xs : List A)
      → ((x : A) → key (f x) ≡ key x)
      → Ascending low xs
      → Ascending low (update p f xs)
  unfolding update
  Ascending-update p f low [] keep h = tt
  Ascending-update p f low (x ∷ xs) keep h = elim (Bool-cases (p x)) [
    | inl e ↦ rw (e, keep x) (h.0, Ascending-update p f (key x) xs keep h.1)
    | inr e ↦ rw e (h.0, Ascending-update p f (key x) xs keep h.1)
  ]

  pub Ascending-delete :
      (p : A → Bool) (low : ℕ) (xs : List A) → Ascending low xs → Ascending low (delete p xs)
  unfolding delete
  Ascending-delete p low [] h = tt
  Ascending-delete p low (x ∷ xs) h = elim (Bool-cases (p x)) [
    | inl e ↦ rw e (Ascending-delete p low xs (Ascending-weaken low (key x) xs (omega arith) h.1))
    | inr e ↦ rw e (h.0, Ascending-delete p (key x) xs h.1)
  ]

  -- INSERT: the new row has the next key.
  pub Ascending-append :
      (low n : ℕ) (xs : List A) (y : A)
      → key y ≡ suc n
      → low ≤ n
      → All (λ x. key x ≤ n) xs
      → Ascending low xs
      → Ascending low (xs ++ y ∷ [])
  Ascending-append low n [] y e l b h = (omega arith, tt)
  Ascending-append low n (x ∷ xs) y e l b h = (h.0, Ascending-append (key x) n xs y e b.0 b.1 h.1)

  pub first-none_above :
      (k : ℕ) (r : A → Bool) (xs : List A)
      → All (λ x. k < key x) xs
      → first (λ x. key x == k && r x) xs ≡ none
  unfolding first
  first-none_above k r [] h = refl
  first-none_above k r (x ∷ xs) h = ground (arith, h.0, first-none_above k r xs h.1)

  pub count-zero_above :
      (k : ℕ) (r : A → Bool) (xs : List A)
      → All (λ x. k < key x) xs
      → count (λ x. key x == k && r x) xs ≡ 0
  unfolding count
  count-zero_above k r [] h = refl
  count-zero_above k r (x ∷ xs) h = ground (arith, h.0, count-zero_above k r xs h.1)

  -- A key names one row: a test that names the key reads that row, or nothing.
  pub first-at_key :
      (k : ℕ) (r : A → Bool) (low : ℕ) (xs : List A)
      → Ascending low xs
      → first (λ x. key x == k && r x) xs ≡ some_if r (first (λ x. key x == k) xs)
  unfolding first
  first-at_key k r low [] h = refl
  first-at_key k r low (x ∷ xs) h = elim (Bool-cases (key x == k)) [
    | inl e ↦ ground (
      arith,
      first-none_above k r xs
          (Ascending-above k xs (Ascending-weaken k (key x) xs (ground arith) h.1)),
    )
    | inr e ↦ ground (arith, first-at_key k r (key x) xs h.1)
  ]

  pub count-at_key :
      (k : ℕ) (r : A → Bool) (low : ℕ) (xs : List A)
      → Ascending low xs
      → count (λ x. key x == k && r x) xs ≡ one_if r (first (λ x. key x == k) xs)
  unfolding first count
  count-at_key k r low [] h = refl
  count-at_key k r low (x ∷ xs) h = elim (Bool-cases (key x == k)) [
    | inl e ↦ ground (
      arith,
      count-zero_above k r xs
          (Ascending-above k xs (Ascending-weaken k (key x) xs (ground arith) h.1)),
    )
    | inr e ↦ ground (arith, count-at_key k r (key x) xs h.1)
  ]

  none_at_key :
      (k : ℕ) (a : A) (xs : List A)
      → All (λ x. k < key x) xs
      → All (λ x. (key x == k) ≡ true → x ≡ a) xs
  none_at_key k a [] b = tt
  none_at_key k a (x ∷ xs) b = (λ t. absurd (ground (arith, b.0)), none_at_key k a xs b.1)

  -- The row that a key names is the only one with that key.
  pub All-at_key :
      (k : ℕ) (low : ℕ) (xs : List A) (a : A)
      → Ascending low xs
      → first (λ x. key x == k) xs ≡ some a
      → All (λ x. (key x == k) ≡ true → x ≡ a) xs
  unfolding first
  All-at_key k low [] a h e = tt
  All-at_key k low (x ∷ xs) a h e = elim (Bool-cases (key x == k)) [
    | inl t ↦ (
      λ _. ground arith,
      none_at_key k a xs (Ascending-above k xs (Ascending-weaken k (key x) xs (ground arith) h.1)),
    )
    | inr t ↦ (λ u. absurd (ground arith), All-at_key k (key x) xs a h.1 (ground arith))
  ]

  count-update_above :
      (k : ℕ) (q r : A → Bool) (f : A → A) (xs : List A)
      → All (λ x. k < key x) xs
      → count q (update (λ x. key x == k && r x) f xs) ≡ count q xs
  unfolding count update
  count-update_above k q r f [] b = refl
  count-update_above k q r f (x ∷ xs) b = ground (arith, b.0, count-update_above k q r f xs b.1)

  -- An UPDATE of the row with a key, after which that row does not pass the test.
  pub count-update_drop :
      (k : ℕ) (q r : A → Bool) (f : A → A) (low : ℕ) (xs : List A) (a : A)
      → Ascending low xs
      → first (λ x. key x == k) xs ≡ some a
      → r a ≡ true
      → q a ≡ true
      → q (f a) ≡ false
      → suc (count q (update (λ x. key x == k && r x) f xs)) ≡ count q xs
  unfolding first count update
  count-update_drop k q r f low [] a h e ra qa qf = cc
  count-update_drop k q r f low (x ∷ xs) a h e ra qa qf = elim (Bool-cases (key x == k)) [
    | inl t ↦
        let same : x ≡ a = ground arith in
        rw same (
          ground (
            arith,
            count-update_above k q r f xs
                (Ascending-above k xs (Ascending-weaken k (key x) xs (ground arith) h.1)),
          ))
    | inr t ↦ ground (arith, count-update_drop k q r f (key x) xs a h.1 (ground arith) ra qa qf)
  ]

  found_later :
      (x : A) (xs ys : List A)
      → All (λ y. key x < key y) ys
      → All (λ y. first (λ z. key z == key y) xs ≡ some y) ys
      → All (λ y. first (λ z. key z == key y) (x ∷ xs) ≡ some y) ys
  unfolding first
  found_later x xs [] b h = tt
  found_later x xs (y ∷ ys) b h = (ground (arith, b.0, h.0), found_later x xs ys b.1 h.1)

  -- Every row is found under its own key.
  pub All-found :
      (low : ℕ) (xs : List A)
      → Ascending low xs
      → All (λ y. first (λ z. key z == key y) xs ≡ some y) xs
  unfolding first
  All-found low [] h = tt
  All-found low (x ∷ xs) h = (
    ground arith,
    found_later x xs xs (Ascending-above (key x) xs h.1) (All-found (key x) xs h.1),
  )
