-- ===== src/Validation/Envs.antt =====
-- validation._parse_job_env: `--env K=V`.
pub mod Overrides
use spoolctl.Base.{
  ℕ, Bool, true, false, not, ◌||◌, List, [], ◌∷◌, ◌++◌, Option, none, some, leb, length,
  if◌then◌else◌,
}
use spoolctl.Models.Suggest.{Word, word_eq, codes}
use spoolctl.Validation.{
  Parsed, value, refused, ◌>>=◌, ◌>>◌, require, contains, equals_sign, split_once,
}
use spoolctl.Validation.Names.{is_empty}

-- env[key] = value
unfoldable pub put : Word → Word → List (Word × Word) → List (Word × Word)
unfolding word_eq
put key v [] = (key, v) ∷ []
put key v ((k, u) ∷ env) =
    let rest = put key v env in if word_eq k key then (k, v) ∷ env else (k, u) ∷ rest

-- env.get(key)
unfoldable pub get : Word → List (Word × Word) → Option Word
unfolding word_eq
get key [] = none
get key ((k, v) ∷ env) = let rest = get key env in if word_eq k key then some v else rest

abbrev pub hint : Option Word
hint = some (codes "K=V")

-- One round of the loop.
unfoldable pub add_variable : Word → List (Word × Word) → Parsed (List (Word × Word))
unfolding contains split_once put
add_variable raw env = do
  require (contains equals_sign raw) hint
  let parts = split_once equals_sign raw
  require (not (is_empty parts.0)) hint
  require (leb (length parts.0) 128) hint
  require (leb (length parts.1) 4096) hint
  require (not (contains 0 parts.0 || contains 0 parts.1)) hint
  value (put parts.0 parts.1 env)

unfoldable pub add_variables : List Word → List (Word × Word) → Parsed (List (Word × Word))
unfolding add_variable
add_variables [] env = value env
add_variables (raw ∷ raws) env = do more ← add_variable raw env; add_variables raws more

unfoldable pub parse_job_env : List Word → Parsed (List (Word × Word))
unfolding add_variables
parse_job_env raw_env = add_variables raw_env []
