-- ===== src/Validation/Ints.antt =====
-- validation._parse_int_bound, _parse_priority and _job_id_arg.
pub mod Printed
use spoolctl.Base.{
  ℕ, suc, ◌+◌, ◌-◌, ◌*◌, ◌^◌, Bool, true, false, ◌&&◌, List, [], ◌∷◌, Option, none, some, ltb, leb,
  ◌==◌, length, if◌then◌else◌,
}
use spoolctl.Base.Int.{ℤ, pos, negsuc, leb_ℤ}
use spoolctl.Models.Suggest.{Word}
use spoolctl.Validation.{Python, Parsed, value, refused, raised, ◌>>=◌, ◌>>◌, require}

abbrev pub plus : ℕ
plus = 43

abbrev pub minus : ℕ
minus = 45

-- [+-]?
unfoldable pub sign_of : Word → Bool × Word
sign_of [] = (false, [])
sign_of (c ∷ w) = if c == minus then (true, w) else if c == plus then (false, w) else (false, c ∷ w)

-- The value that digits spell behind `n`.
unfoldable pub number_of : ℕ → List ℕ → ℕ
number_of n [] = n
number_of n (d ∷ ds) = number_of (n * 10 + d) ds

unfoldable pub signed : Bool → ℕ → ℤ
signed true (suc n) = negsuc n
signed _ n = pos n

abbrev pub cons_digit : Option ℕ → Option (List ℕ) → Option (List ℕ)
cons_digit (some d) (some ds) = some (d ∷ ds)
cons_digit _ _ = none

-- \d+
abbrev pub some_digits : Option (List ℕ) → Option (List ℕ)
some_digits (some (d ∷ ds)) = some (d ∷ ds)
some_digits _ = none

-- The bounds: all that is checked of an integer that is given as one.
abbrev pub in_bounds : ℤ → ℤ → ℤ → Parsed ℤ
in_bounds minimum maximum v = require (leb_ℤ minimum v && leb_ℤ v maximum) none >> value v

-- Whether int reads that many digits.
abbrev pub is_readable : Option ℕ → ℕ → Bool
is_readable none n = true
is_readable (some limit) n = leb n limit

module _ (py : Python) where
  -- \d*, with the values of the digits.
  unfoldable pub digits_of : Word → Option (List ℕ)
  digits_of [] = some []
  digits_of (c ∷ w) = cons_digit (py.digit_value c) (digits_of w)

  -- int(raw, 10), on a text that matches INT_RE.
  unfoldable pub int_of : Bool → List ℕ → Parsed ℤ
  unfolding number_of signed
  int_of negative ds =
      if is_readable py.max_digits (length ds)
      then value (signed negative (number_of 0 ds))
      else raised

  unfoldable pub parse_int_bound : ℤ → ℤ → Word → Parsed ℤ
  unfolding sign_of digits_of int_of
  parse_int_bound minimum maximum raw =
      let (negative, w) = sign_of raw in
      elim (some_digits (digits_of w)) [
        | none ↦ refused none
        | some ds ↦ int_of negative ds >>= in_bounds minimum maximum
      ]

  unfoldable pub parse_priority : Word → Parsed ℤ
  unfolding parse_int_bound
  parse_priority raw = parse_int_bound (negsuc (2 ^ 31 - 1)) (pos (2 ^ 31 - 1)) raw

  unfoldable pub job_id_arg : Word → Parsed ℤ
  unfolding parse_int_bound
  job_id_arg raw = parse_int_bound (pos 1) (pos (2 ^ 63 - 1)) raw
