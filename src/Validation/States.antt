-- ===== src/Validation/States.antt =====
-- validation._parse_states and _parse_prune_states: lists of states, separated by commas.
pub mod Named
use spoolctl.Base.{ℕ, Bool, true, false, List, [], ◌∷◌, Option, none, some, if◌then◌else◌}
use spoolctl.Models.{JobState}
use spoolctl.Models.Suggest.{Word, codes, word_eq, suggest}
use spoolctl.Validation.{Python, Parsed, value, refused, ◌>>=◌, comma, split_all, strip}

abbrev pub state_name : JobState → Word
state_name JobState.queued = codes "queued"
state_name JobState.running = codes "running"
state_name JobState.done = codes "done"
state_name JobState.failed = codes "failed"
state_name JobState.dead = codes "dead"
state_name JobState.canceled = codes "canceled"

-- JOB_STATES
abbrev pub job_states : List JobState
job_states =
    JobState.queued ∷ JobState.running ∷ JobState.done ∷ JobState.failed ∷ JobState.dead
    ∷ JobState.canceled ∷ []

-- PRUNABLE_STATES
abbrev pub prunable_states : List JobState
prunable_states = JobState.canceled ∷ JobState.dead ∷ JobState.done ∷ []

abbrev pub names_of : List JobState → List Word
names_of [] = []
names_of (s ∷ ss) = state_name s ∷ names_of ss

-- `tok in ...`, with the state that is named.
unfoldable pub state_named : Word → List JobState → Option JobState
unfolding word_eq
state_named tok [] = none
state_named tok (s ∷ ss) =
    let rest = state_named tok ss in if word_eq (state_name s) tok then some s else rest

module _ (py : Python) (allowed : List JobState) where
  unfoldable pub parse_state : Word → Parsed JobState
  unfolding strip state_named suggest
  parse_state tok = elim (state_named (strip py tok) allowed) [
    | some s ↦ value s
    | none ↦ refused (suggest (strip py tok) (names_of allowed))
  ]

  -- The loop.
  unfoldable pub parse_each : List Word → Parsed (List JobState)
  unfolding parse_state
  parse_each [] = value []
  parse_each (tok ∷ toks) = do s ← parse_state tok; ss ← parse_each toks; value (s ∷ ss)

module _ (py : Python) where
  unfoldable pub parse_prune_states : Word → Parsed (List JobState)
  unfolding split_all parse_each
  parse_prune_states raw = parse_each py prunable_states (split_all comma raw)

  unfoldable pub parse_states : Option Word → Parsed (Option (List JobState))
  unfolding split_all parse_each
  parse_states none = value none
  parse_states (some raw) = parse_each py job_states (split_all comma raw) >>= λ ss. value (some ss)
