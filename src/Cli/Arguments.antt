-- ===== src/Cli/Arguments.antt =====
-- cli._json_requested, _explicit_add_boundary and _verbless_error: what main reads off the arguments
-- before argparse does. An argument is the list of its code points.
pub mod Boundary
use spoolctl.Base.{
  ℕ, Bool, true, false, not, ◌&&◌, ◌||◌, List, [], ◌∷◌, Option, none, some, any, all, ◌==◌,
  if◌then◌else◌,
}
use spoolctl.Models.Suggest.{Word, codes, word_eq, suggest}
use spoolctl.Operations.Errors.{ErrorCode, CliError, exit_input}

abbrev pub boundary : Word
boundary = codes "--"

abbrev pub add_verb : Word
add_verb = codes "add"

-- tok.startswith(prefix)
unfoldable pub starts_with : Word → Word → Bool
starts_with [] tok = true
starts_with (c ∷ prefix) [] = false
starts_with (c ∷ prefix) (d ∷ tok) = c == d && starts_with prefix tok

-- tok == "--json" or tok.startswith("--json=")
unfoldable pub is_json : Word → Bool
unfolding starts_with
is_json tok = word_eq tok (codes "--json") || starts_with (codes "--json=") tok

unfoldable pub json_requested : List Word → Bool
unfolding is_json
json_requested [] = false
json_requested (tok ∷ argv) =
    let rest = json_requested argv in
    if word_eq tok boundary then false else if is_json tok then true else rest

-- tok in argv
abbrev pub holds_word : Word → List Word → Bool
holds_word w argv = any (λ tok. word_eq tok w) argv

-- "--" behind the first "add".
unfoldable pub explicit_add_boundary : List Word → Bool
explicit_add_boundary [] = false
explicit_add_boundary (tok ∷ argv) =
    let rest = explicit_add_boundary argv in
    if word_eq tok add_verb then holds_word boundary argv else rest

-- VERBS
abbrev pub verbs : List Word
verbs =
    codes "add"
    ∷ codes "work"
    ∷ codes "wait"
    ∷ codes "status"
    ∷ codes "list"
    ∷ codes "show"
    ∷ codes "retry"
    ∷ codes "cancel"
    ∷ codes "prune"
    ∷ codes "output"
    ∷ codes "feedback"
    ∷ codes "events"
    ∷ codes "config-show"
    ∷ codes "config-validate"
    ∷ codes "doctor"
    ∷ codes "brief"
    ∷ codes "schema"
    ∷ codes "capabilities"
    ∷ codes "robot-docs"
    ∷ []

-- argv in (["--help"], ["-h"], ["--version"])
unfoldable pub asks_help : List Word → Bool
asks_help (tok ∷ []) = holds_word tok (codes "--help" ∷ codes "-h" ∷ codes "--version" ∷ [])
asks_help _ = false

-- tok.startswith("-"), and it is not --json.
abbrev pub is_unknown_flag : Word → Bool
is_unknown_flag tok = starts_with (codes "-") tok && not (is_json tok)

abbrev pub first_word : (Word → Bool) → List Word → Option Word
first_word p [] = none
first_word p (tok ∷ argv) = let rest = first_word p argv in if p tok then some tok else rest

-- The error, with its did_you_mean.
unfoldable pub verbless_error : List Word → Option (CliError × Option Word)
unfolding asks_help is_json starts_with suggest
verbless_error [] =
    some (record { code = ErrorCode.missing_required; exit_code = exit_input }, none)
verbless_error (tok ∷ argv) =
    if asks_help (tok ∷ argv)
    then none
    else if any (λ t. holds_word t verbs) (tok ∷ argv)
    then none
    else elim (first_word is_unknown_flag (tok ∷ argv)) [
      | some flag ↦ some (
        record { code = ErrorCode.unknown_flag; exit_code = exit_input },
        suggest flag (codes "--help" ∷ codes "--version" ∷ codes "--json" ∷ []),
      )
      | none ↦
          if all is_json (tok ∷ argv)
          then some (record { code = ErrorCode.missing_required; exit_code = exit_input }, none)
          else none
    ]
