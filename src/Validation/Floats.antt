-- ===== src/Validation/Floats.antt =====
-- validation._parse_positive_float, _finite_decimal, _parse_duration_seconds and _parse_at, with the
-- floats of the interpreter and datetime as parameters.
pub mod Decimals
pub mod Units
pub mod Durations
use spoolctl.Base.{
  ℕ, Bool, true, false, not, ◌&&◌, ◌||◌, List, [], ◌∷◌, ◌++◌, Option, none, some, is_some, all,
  ◌==◌, if◌then◌else◌,
}
use spoolctl.Models.Suggest.{Word, codes}
use spoolctl.Validation.{Python, Parsed, value, refused, raised, ◌>>=◌, ◌>>◌, require}
use spoolctl.Validation.Ints.{sign_of}

-- `read` is float(raw), or none where it raises; a comparison with NaN is false.
pub record Floats (F : Type 0) : Type 0 where
  pub read : Word → Option F
  pub whole : ℕ → F
  pub is_finite : F → Bool
  pub less : F → F → Bool
  pub leq : F → F → Bool
  pub times : F → F → F
  pub abs : F → F

abbrev pub max_duration_seconds : ℕ
max_duration_seconds = 31536000000

abbrev pub max_wait_seconds : ℕ
max_wait_seconds = 86400

abbrev pub max_poll_interval_seconds : ℕ
max_poll_interval_seconds = 3600

abbrev pub point : ℕ
point = 46

module _ (py : Python) where
  abbrev pub is_digit : ℕ → Bool
  is_digit c = is_some (py.digit_value c)

  -- \d*
  unfoldable pub are_digits : Word → Bool
  are_digits w = all is_digit w

  -- \d*(?:\.\d*)?, behind a digit.
  unfoldable pub decimal_tail : Word → Bool
  unfolding are_digits
  decimal_tail [] = true
  decimal_tail (c ∷ w) =
      let rest = decimal_tail w in if c == point then are_digits w else is_digit c && rest

  -- \d+(?:\.\d*)?|\.\d+
  unfoldable pub is_decimal : Word → Bool
  unfolding decimal_tail
  is_decimal [] = false
  is_decimal (c ∷ []) = is_digit c
  is_decimal (c ∷ d ∷ w) =
      if c == point then are_digits (d ∷ w) else is_digit c && decimal_tail (d ∷ w)

  -- [+-]?(?:\d+(?:\.\d*)?|\.\d+)
  unfoldable pub is_signed_decimal : Word → Bool
  unfolding sign_of is_decimal
  is_signed_decimal w = let (negative, rest) = sign_of w in is_decimal rest

-- raw[:-1] and raw[-1:], where raw is not empty.
unfoldable pub split_last : ℕ → Word → Word × ℕ
split_last x [] = ([], x)
split_last x (y ∷ w) = let (front, last) = split_last y w in (x ∷ front, last)

-- raw[:-1] + "+00:00" where raw ends with Z
unfoldable pub utc_suffix : Word → Word
unfolding split_last
utc_suffix [] = []
utc_suffix (x ∷ w) =
    let (front, last) = split_last x w in if last == b'Z' then front ++ codes "+00:00" else x ∷ w

-- multipliers
unfoldable pub multiplier : ℕ → Option ℕ
multiplier c =
    if c == b's'
    then some 1
    else if c == b'm'
    then some 60
    else if c == b'h'
    then some 3600
    else if c == b'd'
    then some 86400
    else none

-- What float makes of a text, or the refusal.
abbrev pub or_refuse : {F : Type 0} → Option F → Parsed F
or_refuse none = refused none
or_refuse (some v) = value v

-- The same where no ValueError is caught.
abbrev pub or_raise : {F : Type 0} → Option F → Parsed F
or_raise none = raised
or_raise (some v) = value v

module _ {F : Type 0} (py : Python) (fl : Floats F) where
  unfoldable pub parse_positive_float : ℕ → Word → Parsed F
  parse_positive_float maximum raw = do
    v ← or_refuse (fl.read raw)
    require (not (not (fl.is_finite v) || fl.leq v (fl.whole 0))) none
    require (not (fl.less (fl.whole maximum) v)) none
    value v

  unfoldable pub finite_decimal : Bool → Word → Parsed F
  unfolding is_decimal is_signed_decimal
  finite_decimal signed raw = do
    require (if signed then is_signed_decimal py raw else is_decimal py raw) none
    v ← or_raise (fl.read raw)
    require (fl.is_finite v) none
    value v

  -- Seconds, once the number and the unit are apart.
  unfoldable pub duration_of : Word → ℕ → Parsed F
  unfolding finite_decimal
  duration_of number factor = do
    v ← finite_decimal false number
    let seconds = fl.times v (fl.whole factor)
    require (not (not (fl.is_finite seconds) || fl.less (fl.whole max_duration_seconds) seconds))
        none
    value seconds

  abbrev pub with_unit : Word → Option ℕ → Parsed F
  with_unit number none = refused none
  with_unit number (some factor) = duration_of number factor

  unfoldable pub parse_duration_seconds : (ℕ → Bool) → Word → Parsed F
  unfolding split_last multiplier duration_of
  parse_duration_seconds is_alpha [] = duration_of [] 1
  parse_duration_seconds is_alpha (x ∷ w) =
      let (number, unit) = split_last x w in
      if is_alpha unit then with_unit number (multiplier unit) else duration_of (x ∷ w) 1

  -- `from_iso` is the timestamp of datetime.fromisoformat in the time zone given, or none where it
  -- raises ValueError.
  unfoldable pub parse_at : (Word → Option F) → Word → Parsed F
  unfolding is_signed_decimal finite_decimal utc_suffix
  parse_at from_iso raw =
      if is_signed_decimal py raw
      then (do
        v ← finite_decimal true raw
        require (not (fl.less (fl.whole max_duration_seconds) (fl.abs v))) none
        value v)
      else elim (from_iso (utc_suffix raw)) [
        | none ↦ refused none
        | some v ↦ do
          require (not (fl.less (fl.whole max_duration_seconds) (fl.abs v))) none
          value v
      ]
