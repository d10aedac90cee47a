-- ===== src/Validation/Ints/Printed.antt =====
-- What str prints of an integer is read back.
use spoolctl.Base.{
  ℕ, zero, suc, ◌+◌, ◌*◌, ◌/◌, ◌%◌, ◌≤◌, ◌<◌, ◌≡◌, refl, ◌∙◌, ap, inl, inr, Bool, true, false, List,
  [], ◌∷◌, ◌++◌, map, some, All, arith, ltb, length, if◌then◌else◌, Bool-cases,
}
use spoolctl.Base.Int.{ℤ, pos, negsuc}
use spoolctl.Sql.Laws.{All-append}
use spoolctl.Models.Suggest.{Word}
use spoolctl.Validation.{Python}
use spoolctl.Validation.Ints.{
  minus, sign_of, number_of, signed, some_digits, digits_of, is_readable, int_of, in_bounds,
  parse_int_bound,
}

-- The decimal digits of n < 10 ^ fuel, the highest first.
unfoldable pub digits_on : ℕ → ℕ → List ℕ
digits_on zero n = []
digits_on (suc fuel) n =
    let rest = digits_on fuel (n / 10) in if ltb n 10 then n ∷ [] else rest ++ n % 10 ∷ []

unfoldable pub decimal : ℕ → List ℕ
unfolding digits_on
decimal n = digits_on (suc n) n

abbrev pub numerals : List ℕ → Word
numerals ds = map (λ d. 48 + d) ds

-- str(v)
unfoldable pub str_int : ℤ → Word
unfolding decimal
str_int (pos n) = numerals (decimal n)
str_int (negsuc n) = minus ∷ numerals (decimal (suc n))

-- Python reads the ASCII digits as what they are.
abbrev pub ReadsNumerals : Python → Type 0
ReadsNumerals py = (d : ℕ) → d < 10 → py.digit_value (48 + d) ≡ some d

number_of-append : (n d : ℕ) (ds : List ℕ) → number_of n (ds ++ d ∷ []) ≡ number_of n ds * 10 + d
unfolding number_of
number_of-append n d [] = refl
number_of-append n d (e ∷ ds) = number_of-append (n * 10 + e) d ds

number_of-digits_on : (fuel n : ℕ) → n < fuel → number_of 0 (digits_on fuel n) ≡ n
unfolding digits_on number_of
number_of-digits_on zero n h = absurd (omega (arith, h))
number_of-digits_on (suc fuel) n h = elim (Bool-cases (ltb n 10)) [
  | inl t ↦ rw t (omega arith)
  | inr t ↦
      let big : 10 ≤ n = ground (arith, t) in
      rw
        (
          t,
          number_of-append 0 (n % 10) (digits_on fuel (n / 10)),
          number_of-digits_on fuel (n / 10) (omega (arith, big, h)),
        )
        (omega arith)
]

digits_small : (fuel n : ℕ) → All (λ d. d < 10) (digits_on fuel n)
unfolding digits_on
digits_small zero n = tt
digits_small (suc fuel) n = elim (Bool-cases (ltb n 10)) [
  | inl t ↦ rw t (ground (arith, t), tt)
  | inr t ↦ rw t (
      All-append (λ d. d < 10) (digits_on fuel (n / 10)) _ (digits_small fuel (n / 10))
        (omega arith, tt))
]

append_some : (xs : List ℕ) (x : ℕ) → some_digits (some (xs ++ x ∷ [])) ≡ some (xs ++ x ∷ [])
append_some [] x = refl
append_some (y ∷ xs) x = refl

digits_some :
    (fuel n : ℕ) → some_digits (some (digits_on (suc fuel) n)) ≡ some (digits_on (suc fuel) n)
unfolding digits_on
digits_some fuel n = elim (Bool-cases (ltb n 10)) [
  | inl t ↦ rw t refl
  | inr t ↦ rw t (append_some (digits_on fuel (n / 10)) (n % 10))
]

module _ (py : Python) (ascii : ReadsNumerals py) where
  digits_of-numerals : (ds : List ℕ) → All (λ d. d < 10) ds → digits_of py (numerals ds) ≡ some ds
  unfolding digits_of
  digits_of-numerals [] h = refl
  digits_of-numerals (d ∷ ds) h = rw (ascii d h.0, digits_of-numerals ds h.1) refl

  sign_of-numerals : (ds : List ℕ) → sign_of (numerals ds) ≡ (false, numerals ds)
  unfolding sign_of
  sign_of-numerals [] = refl
  sign_of-numerals (d ∷ ds) = ground arith

  reads_as :
      (minimum maximum : ℤ) (raw w : Word) (negative : Bool) (ds : List ℕ)
      → sign_of raw ≡ (negative, w)
      → some_digits (digits_of py w) ≡ some ds
      → is_readable py.max_digits (length ds) ≡ true
      → parse_int_bound py minimum maximum raw
        ≡ in_bounds minimum maximum (signed negative (number_of 0 ds))
  unfolding parse_int_bound int_of
  reads_as minimum maximum raw w negative ds e f short =
      rw (ap (λ s. s.1) e, f, short, parse_int_bound)
        (ap (λ s. in_bounds minimum maximum (signed s.0 (number_of 0 ds))) e)

  numerals_read : (n : ℕ) → some_digits (digits_of py (numerals (decimal n))) ≡ some (decimal n)
  unfolding decimal
  numerals_read n =
      ap some_digits (digits_of-numerals (digits_on (suc n) n) (digits_small (suc n) n))
      ∙ digits_some n n

-- The absolute value.
abbrev pub magnitude : ℤ → ℕ
magnitude (pos n) = n
magnitude (negsuc n) = suc n

-- An integer that str prints is read back as itself, and then held against the bounds: whatever the
-- bounds are, it is accepted with its value exactly when it lies within them. This asks of the
-- interpreter that it reads the ten ASCII digits as such, and that the number has no more digits than
-- int takes.
pub parse_int_bound-str_int :
    (py : Python)
    → ReadsNumerals py
    → (minimum maximum v : ℤ) → is_readable py.max_digits (length (decimal (magnitude v))) ≡ true
    → parse_int_bound py minimum maximum (str_int v) ≡ in_bounds minimum maximum v
unfolding str_int decimal signed
parse_int_bound-str_int py ascii minimum maximum (pos n) short =
    reads_as py ascii minimum maximum _ (numerals (decimal n)) false (decimal n)
      (sign_of-numerals py ascii (decimal n)) (numerals_read py ascii n) short
    ∙ ap (λ m. in_bounds minimum maximum (pos m)) (number_of-digits_on (suc n) n (omega arith))
parse_int_bound-str_int py ascii minimum maximum (negsuc n) short =
    reads_as py ascii minimum maximum (minus ∷ numerals (decimal (suc n)))
      (numerals (decimal (suc n))) true (decimal (suc n)) (unfold sign_of in refl)
      (numerals_read py ascii (suc n)) short
    ∙ ap (λ m. in_bounds minimum maximum (signed true m))
        (number_of-digits_on (suc (suc n)) (suc n) (omega arith))
