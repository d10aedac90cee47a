-- ===== src/Validation/Floats/Durations.antt =====
-- The grammar of durations: a number of seconds, or a number with one of the units s, m, h and d.
use spoolctl.Base.{
  ℕ, ◌≡◌, ◌↔◌, refl, sym, ap, ◌∙◌, subst, inl, inr, Bool, true, false, not, ◌||◌, [], ◌∷◌, ◌++◌,
  none, some, All, all, arith, ◌==◌, Bool-cases, Option-cases, and_true,
}
use spoolctl.Models.Suggest.{Word}
use spoolctl.Validation.{Python, value, ◌>>◌, require, passed}
use spoolctl.Validation.Floats.Decimals.{IsDecimal, is_decimal-IsDecimal, IsDecimal-is_decimal}
use spoolctl.Validation.Floats.Units.{IsUnit, multiplier-IsUnit, IsUnit-multiplier}
use spoolctl.Validation.Floats.{
  Floats, point, is_digit, are_digits, decimal_tail, is_decimal, split_last, multiplier,
  max_duration_seconds, finite_decimal, duration_of, parse_duration_seconds,
}

-- How a text spells a number and its factor.
pub data Spelled (raw : Word) : Word → ℕ → Type 0 where
  bare : Spelled raw raw 1
  in_unit :
      {number : Word} {factor : ℕ} (unit : ℕ)
      → raw ≡ number ++ unit ∷ []
      → IsUnit unit factor
      → Spelled raw number factor

-- The same, as the code finds the unit.
data SpelledBy (raw : Word) : Word → ℕ → Type 0 where
  bare : SpelledBy raw raw 1
  in_unit :
      {number : Word} {factor : ℕ} (unit : ℕ)
      → raw ≡ number ++ unit ∷ []
      → multiplier unit ≡ some factor
      → SpelledBy raw number factor

split_last-append : (x : ℕ) (w : Word) → x ∷ w ≡ (split_last x w).0 ++ (split_last x w).1 ∷ []
unfolding split_last
split_last-append x [] = refl
split_last-append x (y ∷ w) = ap (λ v. x ∷ v) (split_last-append y w)

split_last-snoc : (x u : ℕ) (w : Word) → split_last x (w ++ u ∷ []) ≡ (x ∷ w, u)
unfolding split_last
split_last-snoc x u [] = refl
split_last-snoc x u (y ∷ w) = ap (λ (r : Word × ℕ). (x ∷ r.0, r.1)) (split_last-snoc y u w)

All-last : (P : ℕ → Type 0) (x : ℕ) (w : Word) → All P (x ∷ w) → P (split_last x w).1
unfolding split_last
All-last P x [] h = h.0
All-last P x (y ∷ w) h = All-last P y w h.1

module _ (py : Python) where
  abbrev is_part : ℕ → Bool
  is_part c = is_digit py c || c == point

  digits-parts : (w : Word) → are_digits py w ≡ true → All (λ c. is_part c ≡ true) w
  unfolding are_digits
  digits-parts [] h = tt
  digits-parts (c ∷ w) h =
      let (a, b) = and_true (is_digit py c) (all (is_digit py) w) h in
      (ground (arith, a), digits-parts w b)

  tail-parts : (w : Word) → decimal_tail py w ≡ true → All (λ c. is_part c ≡ true) w
  unfolding decimal_tail
  tail-parts [] h = tt
  tail-parts (c ∷ w) h = elim (Bool-cases (c == point)) [
    | inl t ↦ (ground (arith, t), digits-parts w (rw t at h))
    | inr t ↦
        let (a, b) = and_true (is_digit py c) (decimal_tail py w) (rw t at h) in
        (ground (arith, a), tail-parts w b)
  ]

  decimal-parts : (w : Word) → is_decimal py w ≡ true → All (λ c. is_part c ≡ true) w
  unfolding is_decimal
  decimal-parts [] h = tt
  decimal-parts (c ∷ []) h = (ground (arith, h), tt)
  decimal-parts (c ∷ d ∷ w) h = elim (Bool-cases (c == point)) [
    | inl t ↦ (ground (arith, t), digits-parts (d ∷ w) (rw t at h))
    | inr t ↦
        let (a, b) = and_true (is_digit py c) (decimal_tail py (d ∷ w)) (rw t at h) in
        (ground (arith, a), tail-parts (d ∷ w) b)
  ]

module _ {F : Type 0} (py : Python) (fl : Floats F) where
  -- The number is a decimal without a sign that float reads; it and its product with the factor are
  -- finite, and the product is at most a thousand years of 365 days.
  pub record Accepted (number : Word) (factor : ℕ) (seconds : F) : Type 0 where
    pub decimal : IsDecimal py number
    pub v : F
    pub reads : fl.read number ≡ some v
    pub finite : fl.is_finite v ≡ true
    pub product : seconds ≡ fl.times v (fl.whole factor)
    pub finite_product : fl.is_finite seconds ≡ true
    pub within : fl.less (fl.whole 31536000000) seconds ≡ false

  -- The same, by the code's own test: the number is a decimal without a sign that float reads; it and its product with the factor are
  -- finite, and the product is at most the maximum.
  record AcceptedBy (number : Word) (factor : ℕ) (seconds : F) : Type 0 where
    pub decimal : is_decimal py number ≡ true
    pub v : F
    pub reads : fl.read number ≡ some v
    pub finite : fl.is_finite v ≡ true
    pub product : seconds ≡ fl.times v (fl.whole factor)
    pub finite_product : fl.is_finite seconds ≡ true
    pub within : fl.less (fl.whole max_duration_seconds) seconds ≡ false

  -- The check of the product.
  bounded :
      (number : Word) (factor : ℕ) (seconds v : F)
      → is_decimal py number ≡ true
      → fl.read number ≡ some v
      → fl.is_finite v ≡ true
      → (let s = fl.times v (fl.whole factor) in
          require (not (not (fl.is_finite s) || fl.less (fl.whole max_duration_seconds) s)) none
          >> value s)
        ≡ value seconds
      → AcceptedBy number factor seconds
  bounded number factor seconds v t r f e =
      let s = fl.times v (fl.whole factor) in
      let (ok, same) =
        passed (not (not (fl.is_finite s) || fl.less (fl.whole max_duration_seconds) s)) none
          (value s) e in
      let eq : s ≡ seconds = cc same in
      record {
        decimal = t;
        v = v;
        reads = r;
        finite = f;
        product = sym eq;
        finite_product = subst (λ x. fl.is_finite x ≡ true) eq (ground (arith, ok));
        within =
            subst (λ x. fl.less (fl.whole max_duration_seconds) x ≡ false) eq (ground (arith, ok));
      }

  duration_of-AcceptedBy :
      (number : Word) (factor : ℕ) (seconds : F)
      → duration_of py fl number factor ≡ value seconds
      → AcceptedBy number factor seconds
  unfolding duration_of finite_decimal
  duration_of-AcceptedBy number factor seconds e = elim (Bool-cases (is_decimal py number)) [
    | inr t ↦ cc (rw t at e)
    | inl t ↦ elim (Option-cases (fl.read number)) [
      | inl n ↦ cc (rw (t, n) at e)
      | inr (v, r) ↦ elim (Bool-cases (fl.is_finite v)) [
        | inr i ↦ cc (rw (t, r, i) at e)
        | inl f ↦ bounded number factor seconds v t r f (rw (t, r, f) at e)
      ]
    ]
  ]

  AcceptedBy-duration_of :
      (number : Word) (factor : ℕ) (seconds : F)
      → AcceptedBy number factor seconds
      → duration_of py fl number factor ≡ value seconds
  unfolding duration_of finite_decimal
  AcceptedBy-duration_of number factor seconds a =
      rw (a.decimal, a.reads, a.finite, ← a.product, a.finite_product, a.within) refl

  module _ (is_alpha : ℕ → Bool) (letters : (c : ℕ) → is_alpha c ≡ true → is_digit py c ≡ false)
      (no_point : is_alpha point ≡ false)
      (units : (c factor : ℕ) → IsUnit c factor → is_alpha c ≡ true)
      (no_digit : py.digit_value 46 ≡ none) where
    -- The last character of a decimal is no letter.
    decimal-last :
        (x : ℕ) (w : Word) → is_decimal py (x ∷ w) ≡ true → is_alpha (split_last x w).1 ≡ false
    decimal-last x w d = no_letter (split_last x w).1 (All-last _ x w (decimal-parts py (x ∷ w) d))
      where
        no_letter : (c : ℕ) → is_part py c ≡ true → is_alpha c ≡ false
        no_letter c p = elim (Bool-cases (is_alpha c)) [
          | inr f ↦ f
          | inl t ↦
              let at_point : (c == point) ≡ true = ground (arith, p, letters c t) in
              let same : c ≡ point = ground (arith, at_point) in cc (no_point, ap is_alpha same)
        ]

    parse-SpelledBy :
        (raw : Word) (seconds : F)
        → parse_duration_seconds py fl is_alpha raw ≡ value seconds
        → (number : Word) × (factor : ℕ) × SpelledBy raw number factor
          × AcceptedBy number factor seconds
    unfolding parse_duration_seconds
    parse-SpelledBy [] seconds e = ([], 1, bare, duration_of-AcceptedBy [] 1 seconds e)
    parse-SpelledBy (x ∷ w) seconds e = elim (Bool-cases (is_alpha (split_last x w).1)) [
      | inr f ↦ (x ∷ w, 1, bare, duration_of-AcceptedBy (x ∷ w) 1 seconds (rw f at e))
      | inl t ↦ elim (Option-cases (multiplier (split_last x w).1)) [
        | inl n ↦ cc (rw (t, n) at e)
        | inr (factor, m) ↦ (
          (split_last x w).0,
          factor,
          in_unit (split_last x w).1 (split_last-append x w) m,
          duration_of-AcceptedBy (split_last x w).0 factor seconds (rw (t, m) at e),
        )
      ]
    ]

    unit-parse :
        (number : Word) (u factor : ℕ) (seconds : F)
        → multiplier u ≡ some factor
        → AcceptedBy number factor seconds
        → parse_duration_seconds py fl is_alpha (number ++ u ∷ []) ≡ value seconds
    unfolding parse_duration_seconds is_decimal
    unit-parse [] u factor seconds m a = cc a.decimal
    unit-parse (x ∷ w) u factor seconds m a =
        rw (split_last-snoc x u w, units u factor (multiplier-IsUnit u factor m), m)
          (AcceptedBy-duration_of (x ∷ w) factor seconds a)

    SpelledBy-parse :
        (raw number : Word) (factor : ℕ) (seconds : F)
        → SpelledBy raw number factor
        → AcceptedBy number factor seconds
        → parse_duration_seconds py fl is_alpha raw ≡ value seconds
    unfolding parse_duration_seconds
    SpelledBy-parse [] number factor seconds bare a = AcceptedBy-duration_of [] 1 seconds a
    SpelledBy-parse (x ∷ w) number factor seconds bare a =
        rw (decimal-last x w a.decimal) (AcceptedBy-duration_of (x ∷ w) 1 seconds a)
    SpelledBy-parse raw number factor seconds (in_unit u e m) a =
        ap (parse_duration_seconds py fl is_alpha) e ∙ unit-parse number u factor seconds m a

    plain :
        (number : Word) (factor : ℕ) (seconds : F)
        → AcceptedBy number factor seconds
        → Accepted number factor seconds
    plain number factor seconds a = record {
      decimal = is_decimal-IsDecimal py number a.decimal;
      v = a.v;
      reads = a.reads;
      finite = a.finite;
      product = a.product;
      finite_product = a.finite_product;
      within = a.within;
    }

    tested :
        (number : Word) (factor : ℕ) (seconds : F)
        → Accepted number factor seconds
        → AcceptedBy number factor seconds
    tested number factor seconds a = record {
      decimal = IsDecimal-is_decimal py no_digit number a.decimal;
      v = a.v;
      reads = a.reads;
      finite = a.finite;
      product = a.product;
      finite_product = a.finite_product;
      within = a.within;
    }

    spelling :
        (raw number : Word) (factor : ℕ) → SpelledBy raw number factor → Spelled raw number factor
    spelling raw number factor SpelledBy.bare = Spelled.bare
    spelling raw number factor (SpelledBy.in_unit u e m) =
        Spelled.in_unit u e (multiplier-IsUnit u factor m)

    unspelling :
        (raw number : Word) (factor : ℕ) → Spelled raw number factor → SpelledBy raw number factor
    unspelling raw number factor Spelled.bare = SpelledBy.bare
    unspelling raw number factor (Spelled.in_unit u e m) =
        SpelledBy.in_unit u e (IsUnit-multiplier u factor m)

    -- A text is accepted with a number of seconds exactly when it is a decimal number without a sign
    -- (digits, with a point and any digits behind them or without, or a point and digits), alone or with
    -- one of the units s, m, h and d behind it, whose value times that of the unit (1, 60, 3600, 86400;
    -- 1 where there is none) is the number of seconds, both finite and the product at most
    -- 31,536,000,000. This asks of the interpreter that no decimal digit and not the point is a letter,
    -- that the four units are letters, and that the point is no digit.
    pub parse_duration_seconds_iff :
        (raw : Word) (seconds : F)
        → (parse_duration_seconds py fl is_alpha raw ≡ value seconds) ↔ (
            (number : Word) × (factor : ℕ) × Spelled raw number factor
            × Accepted number factor seconds)
    parse_duration_seconds_iff raw seconds = (
      λ e.
          let (number, factor, sp, a) = parse-SpelledBy raw seconds e in
          (number, factor, spelling raw number factor sp, plain number factor seconds a),
      λ (number, factor, sp, a).
          SpelledBy-parse raw number factor seconds (unspelling raw number factor sp)
            (tested number factor seconds a),
    )
