-- ===== src/Validation/Floats/Decimals.antt =====
-- The texts that DECIMAL_RE matches, spelled out.
use spoolctl.Base.{
  ℕ, ◌≡◌, ◌⊎◌, refl, ap, ◌∙◌, inl, inr, true, false, [], ◌∷◌, ◌++◌, none, All, all, is_some, arith,
  ◌==◌, ==_iff, Bool-cases, and_true,
}
use spoolctl.Models.Suggest.{Word}
use spoolctl.Validation.{Python}
use spoolctl.Validation.Floats.{is_digit, are_digits, decimal_tail, is_decimal}

module _ (py : Python) where
  abbrev pub AreDigits : Word → Type 0
  AreDigits w = All (λ c. is_some (py.digit_value c) ≡ true) w

  -- Digits, with a point (code point 46) and any digits behind them or without; or a point and digits.
  pub data IsDecimal (w : Word) : Type 0 where
    integral : (d : ℕ) (ds : Word) → w ≡ d ∷ ds → AreDigits (d ∷ ds) → IsDecimal w
    pointed :
        (d : ℕ) (ds fs : Word)
        → w ≡ d ∷ ds ++ 46 ∷ fs
        → AreDigits (d ∷ ds)
        → AreDigits fs
        → IsDecimal w
    fraction : (f : ℕ) (fs : Word) → w ≡ 46 ∷ f ∷ fs → AreDigits (f ∷ fs) → IsDecimal w

  digits-all : (w : Word) → are_digits py w ≡ true → AreDigits w
  unfolding are_digits
  digits-all [] e = tt
  digits-all (c ∷ w) e =
      let (a, b) = and_true (is_digit py c) (all (is_digit py) w) e in (a, digits-all w b)

  all-digits : (w : Word) → AreDigits w → are_digits py w ≡ true
  unfolding are_digits
  all-digits [] h = refl
  all-digits (c ∷ w) (a, b) = ground (arith, a, all-digits w b)

  abbrev TailParts : Word → Type 0
  TailParts w =
      AreDigits w ⊎ ((ds : Word) × (fs : Word) × (w ≡ ds ++ 46 ∷ fs) × AreDigits ds × AreDigits fs)

  consed : (c : ℕ) (w : Word) → is_some (py.digit_value c) ≡ true → TailParts w → TailParts (c ∷ w)
  consed c w a (inl h) = inl (a, h)
  consed c w a (inr (ds, fs, e, h, k)) = inr (c ∷ ds, fs, ap (λ v. c ∷ v) e, (a, h), k)

  tail-parts : (w : Word) → decimal_tail py w ≡ true → TailParts w
  unfolding decimal_tail
  tail-parts [] e = inl tt
  tail-parts (c ∷ w) e = elim (Bool-cases (c == 46)) [
    | inl t ↦ inr ([], w, ap (λ x. x ∷ w) ((==_iff c 46).0 t), tt, digits-all w (rw t at e))
    | inr t ↦
        let (a, b) = and_true (is_digit py c) (decimal_tail py w) (rw t at e) in
        consed c w a (tail-parts w b)
  ]

  of_tail : (c : ℕ) (w : Word) → is_some (py.digit_value c) ≡ true → TailParts w → IsDecimal (c ∷ w)
  of_tail c w a (inl h) = integral c w refl (a, h)
  of_tail c w a (inr (ds, fs, e, h, k)) = pointed c ds fs (ap (λ v. c ∷ v) e) (a, h) k

  pub is_decimal-IsDecimal : (w : Word) → is_decimal py w ≡ true → IsDecimal w
  unfolding is_decimal
  is_decimal-IsDecimal [] e = cc e
  is_decimal-IsDecimal (c ∷ []) e = integral c [] refl (e, tt)
  is_decimal-IsDecimal (c ∷ d ∷ w) e = elim (Bool-cases (c == 46)) [
    | inl t ↦
        fraction d w (ap (λ x. x ∷ d ∷ w) ((==_iff c 46).0 t)) (digits-all (d ∷ w) (rw t at e))
    | inr t ↦
        let (a, b) = and_true (is_digit py c) (decimal_tail py (d ∷ w)) (rw t at e) in
        of_tail c (d ∷ w) a (tail-parts (d ∷ w) b)
  ]

  module _ (no_digit : py.digit_value 46 ≡ none) where
    not_point : (c : ℕ) → is_some (py.digit_value c) ≡ true → (c == 46) ≡ false
    not_point c a = elim (Bool-cases (c == 46)) [
      | inr f ↦ f
      | inl t ↦ cc (ap is_some (ap py.digit_value ((==_iff c 46).0 t) ∙ no_digit), a)
    ]

    tail-digits : (w : Word) → AreDigits w → decimal_tail py w ≡ true
    unfolding decimal_tail
    tail-digits [] h = refl
    tail-digits (c ∷ w) (a, b) = rw (not_point c a, a) (tail-digits w b)

    tail-pointed :
        (ds fs : Word) → AreDigits ds → AreDigits fs → decimal_tail py (ds ++ 46 ∷ fs) ≡ true
    unfolding decimal_tail
    tail-pointed [] fs h k = all-digits fs k
    tail-pointed (c ∷ ds) fs (a, b) k = rw (not_point c a, a) (tail-pointed ds fs b k)

    front :
        (d : ℕ) (w : Word)
        → is_some (py.digit_value d) ≡ true
        → decimal_tail py w ≡ true
        → is_decimal py (d ∷ w) ≡ true
    unfolding is_decimal
    front d [] a t = a
    front d (x ∷ w) a t = rw (not_point d a, a) t

    pub IsDecimal-is_decimal : (w : Word) → IsDecimal w → is_decimal py w ≡ true
    unfolding is_decimal
    IsDecimal-is_decimal w (integral d ds e (a, b)) = rw e (front d ds a (tail-digits ds b))
    IsDecimal-is_decimal w (pointed d ds fs e (a, b) k) =
        rw e (front d (ds ++ 46 ∷ fs) a (tail-pointed ds fs b k))
    IsDecimal-is_decimal w (fraction f fs e h) = rw e (all-digits (f ∷ fs) h)
