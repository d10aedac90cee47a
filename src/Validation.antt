-- ===== src/Validation.antt =====
-- spoolctl/validation.py: from the texts of a command line to the values that the operations take. A
-- text is the list of its code points. What Python's own text methods say is a parameter.
pub mod Ints
pub mod Names
pub mod Tags
pub mod Envs
pub mod States
pub mod Floats
use spoolctl.Base.{
  ℕ, ◌≡◌, refl, Bool, true, false, ◌&&◌, List, [], ◌∷◌, ◌++◌, Option, none, some, ltb, leb, any,
  ◌==◌, if◌then◌else◌,
}
use spoolctl.Models.Suggest.{Word}

-- The interpreter: the value of a decimal digit (`\d`, int), the tests behind strip and isprintable,
-- and how many digits int reads before it raises ValueError, where it has such a limit.
pub record Python : Type 0 where
  pub digit_value : ℕ → Option ℕ
  pub is_space : ℕ → Bool
  pub is_printable : ℕ → Bool
  pub max_digits : Option ℕ

-- `refused` is CliError("INVALID_INPUT", ...) with its did_you_mean; `raised` is ValueError.
pub data Parsed (A : Type 0) : Type 0 where
  value : A → Parsed A
  refused : Option Word → Parsed A
  raised : Parsed A

infixl 5 ◌>>=◌ ◌>>◌
abbrev pub ◌>>=◌ : {A B : Type 0} → Parsed A → (A → Parsed B) → Parsed B
value a >>= f = f a
refused hint >>= f = refused hint
raised >>= f = raised

abbrev pub ◌>>◌ : {A B : Type 0} → Parsed A → Parsed B → Parsed B
m >> k = m >>= λ _. k

-- `if not b: raise CliError(...)`
abbrev pub require : Bool → Option Word → Parsed (Unit {0})
require true hint = value tt
require false hint = refused hint

-- What is accepted has passed the check.
pub passed :
    {A : Type 0} {a : A} (b : Bool) (hint : Option Word) (k : Parsed A)
    → (require b hint >> k) ≡ value a
    → (b ≡ true) × (k ≡ value a)
passed true hint k e = (refl, e)
passed false hint k e = cc e

-- What a chain accepts, its first part has accepted.
pub bound :
    {A B : Type 0} {b : B} (m : Parsed A) (k : A → Parsed B)
    → (m >>= k) ≡ value b
    → (a : A) × (m ≡ value a) × (k a ≡ value b)
bound (value a) k e = (a, refl, e)
bound (refused hint) k e = cc e
bound raised k e = cc e

abbrev pub equals_sign : ℕ
equals_sign = 61

abbrev pub comma : ℕ
comma = 44

-- `c in raw`, for a single character.
unfoldable pub contains : ℕ → Word → Bool
contains c w = any (λ x. x == c) w

-- raw.split(c, 1), where c is in raw.
unfoldable pub split_once : ℕ → Word → Word × Word
split_once c [] = ([], [])
split_once c (x ∷ w) =
    let (before, after) = split_once c w in if x == c then ([], w) else (x ∷ before, after)

abbrev pub extend_first : ℕ → List Word → List Word
extend_first x [] = (x ∷ []) ∷ []
extend_first x (w ∷ ws) = (x ∷ w) ∷ ws

-- raw.split(c)
unfoldable pub split_all : ℕ → Word → List Word
split_all c [] = [] ∷ []
split_all c (x ∷ w) = let rest = split_all c w in if x == c then [] ∷ rest else extend_first x rest

-- raw.strip()
module _ (py : Python) where
  unfoldable pub lstrip : Word → Word
  lstrip [] = []
  lstrip (x ∷ w) = let rest = lstrip w in if py.is_space x then rest else x ∷ w

  abbrev pub drop_blank : ℕ → Word → Word
  drop_blank x [] = if py.is_space x then [] else x ∷ []
  drop_blank x (y ∷ w) = x ∷ y ∷ w

  unfoldable pub rstrip : Word → Word
  rstrip [] = []
  rstrip (x ∷ w) = drop_blank x (rstrip w)

  unfoldable pub strip : Word → Word
  unfolding lstrip rstrip
  strip w = rstrip (lstrip w)
