-- ===== src/Validation/States/Named.antt =====
-- States that are named with commas between them are read back.
use spoolctl.Base.{
  suc, ◌≤◌, ◌≡◌, refl, subst, length, sym, ◌∙◌, ap, inl, inr, true, false, List, [], ◌∷◌, ◌++◌,
  some, All, arith, ◌==◌, Bool-cases, all, Option-cases,
}
use spoolctl.Models.{JobState, is_wait_terminal}
use spoolctl.Models.Suggest.{Word, word_eq}
use spoolctl.Validation.{
  Python, Parsed, value, refused, raised, ◌>>=◌, comma, split_all, extend_first, strip,
}
use spoolctl.Validation.Names.{is_queue_char}
use spoolctl.Validation.Names.Accepted.{KeepsNames, all-All, strip-kept, not_blank}
use spoolctl.Validation.States.{
  state_name, job_states, prunable_states, names_of, state_named, parse_state, parse_each,
  parse_prune_states, parse_states,
}

-- ",".join(...) of a list that is not empty.
abbrev pub joined : Word → List Word → Word
joined w [] = w
joined w (v ∷ vs) = w ++ comma ∷ joined v vs

split_all-word : (w : Word) → All (λ c. (c == comma) ≡ false) w → split_all comma w ≡ w ∷ []
unfolding split_all
split_all-word [] h = refl
split_all-word (c ∷ w) h = rw (h.0, split_all-word w h.1) refl

split_all-comma :
    (w rest : Word)
    → All (λ c. (c == comma) ≡ false) w
    → split_all comma (w ++ comma ∷ rest) ≡ w ∷ split_all comma rest
unfolding split_all
split_all-comma [] rest h = refl
split_all-comma (c ∷ w) rest h = rw (h.0, split_all-comma w rest h.1) refl

split_all-joined :
    (w : Word) (ws : List Word)
    → All (λ v. All (λ c. (c == comma) ≡ false) v) (w ∷ ws)
    → split_all comma (joined w ws) ≡ w ∷ ws
split_all-joined w [] h = split_all-word w h.0
split_all-joined w (v ∷ ws) h =
    split_all-comma w (joined v ws) h.0 ∙ ap (λ vs. w ∷ vs) (split_all-joined v ws h.1)

split_some : (w : Word) → 1 ≤ length (split_all comma w)
unfolding split_all
split_some [] = omega arith
split_some (c ∷ w) = elim (Bool-cases (c == comma)) [
  | inl t ↦ rw t (omega arith)
  | inr t ↦ rw t (extended (split_all comma w))
]
  where
    extended : (ws : List Word) → 1 ≤ length (extend_first c ws)
    extended [] = omega arith
    extended (v ∷ vs) = omega arith

-- Names of states are made of characters of queue names.
abbrev pub IsName : Word → Type 0
IsName w = All (λ c. is_queue_char c ≡ true) w

state_name-IsName : (s : JobState) → IsName (state_name s)
state_name-IsName s = (all-All is_queue_char (state_name s)).0 (by_state s)
  where
    by_state : (t : JobState) → all is_queue_char (state_name t) ≡ true
    by_state JobState.queued = refl
    by_state JobState.running = refl
    by_state JobState.done = refl
    by_state JobState.failed = refl
    by_state JobState.dead = refl
    by_state JobState.canceled = refl

no_comma : (w : Word) → IsName w → All (λ c. (c == comma) ≡ false) w
no_comma [] h = tt
no_comma (c ∷ w) h = (ground (arith, h.0), no_comma w h.1)

no_commas : (ss : List JobState) → All (λ v. All (λ c. (c == comma) ≡ false) v) (names_of ss)
no_commas [] = tt
no_commas (s ∷ ss) = (no_comma (state_name s) (state_name-IsName s), no_commas ss)

state_named_lem : (s : JobState) → state_named (state_name s) job_states ≡ some s
unfolding state_named word_eq
state_named_lem JobState.queued = refl
state_named_lem JobState.running = refl
state_named_lem JobState.done = refl
state_named_lem JobState.failed = refl
state_named_lem JobState.dead = refl
state_named_lem JobState.canceled = refl

module _ (py : Python) (keeps : KeepsNames py) where
  parse_state-name : (s : JobState) → parse_state py job_states (state_name s) ≡ value s
  unfolding parse_state
  parse_state-name s =
      rw
        (
          strip-kept py (state_name s) (not_blank py keeps (state_name s) (state_name-IsName s)),
          state_named_lem s,
          parse_state,
        )
        refl

  parse_each-names : (ss : List JobState) → parse_each py job_states (names_of ss) ≡ value ss
  unfolding parse_each
  parse_each-names [] = refl
  parse_each-names (s ∷ ss) = rw (parse_state-name s, parse_each-names ss) refl

-- The names of one or more states, with commas between them, are read back as these states, in their
-- order. This asks of the interpreter that strip takes no letter for blank.
pub parse_states-joined :
    (py : Python)
    → KeepsNames py
    → (s : JobState) (ss : List JobState)
    → parse_states py (some (joined (state_name s) (names_of ss))) ≡ value (some (s ∷ ss))
unfolding parse_states
parse_states-joined py keeps s ss =
    rw
      (
        split_all-joined (state_name s) (names_of ss) (no_commas (s ∷ ss)),
        parse_each-names py keeps (s ∷ ss),
      )
      refl

state_named-allowed :
    (tok : Word) (s : JobState)
    → state_named tok prunable_states ≡ some s
    → is_wait_terminal s ≡ true
unfolding state_named
state_named-allowed tok s e = ground (arith, e)

round_of :
    (r : Parsed JobState) (rest : Parsed (List JobState)) (out : List JobState)
    → (r >>= λ s. rest >>= λ ss. value (s ∷ ss)) ≡ value out
    → (s : JobState) × (ss : List JobState) × (r ≡ value s) × (rest ≡ value ss) × (out ≡ s ∷ ss)
round_of (value s) (value ss) out e = (s, ss, refl, refl, cc e)
round_of (value s) (refused hint) out e = cc e
round_of (value s) raised out e = cc e
round_of (refused hint) rest out e = cc e
round_of raised rest out e = cc e

module _ (py : Python) where
  parse_state-terminal :
      (tok : Word) (s : JobState)
      → parse_state py prunable_states tok ≡ value s
      → is_wait_terminal s ≡ true
  unfolding parse_state
  parse_state-terminal tok s e = elim (Option-cases (state_named (strip py tok) prunable_states)) [
    | inl n ↦ cc (rw (n, parse_state) at e)
    | inr (t, n) ↦ state_named-allowed (strip py tok) s (n ∙ cc (rw (n, parse_state) at e))
  ]

  parse_each-terminal :
      (toks : List Word) (ss : List JobState)
      → parse_each py prunable_states toks ≡ value ss
      → All (λ s. is_wait_terminal s ≡ true) ss × (length ss ≡ length toks)
  unfolding parse_each
  parse_each-terminal [] ss e =
      let same : [] ≡ ss = cc e in
      subst (λ l. All (λ s. is_wait_terminal s ≡ true) l × (length l ≡ 0)) same (tt, refl)
  parse_each-terminal (tok ∷ toks) ss e =
      let (t, ts, f, g, same) =
        round_of (parse_state py prunable_states tok) (parse_each py prunable_states toks) ss e in
      let (rest, long) = parse_each-terminal toks ts g in
      subst (λ l. All (λ s. is_wait_terminal s ≡ true) l × (length l ≡ suc (length toks)))
        (sym same) ((parse_state-terminal tok t f, rest), ap suc long)

-- If _parse_prune_states accepts a text, it returns one state for each part between commas (so at
-- least one), and each of them is terminal: prune can not be told to touch a queued or a running job,
-- nor one in the reserved state 'failed'.
pub parse_prune_states-terminal :
    (py : Python) (raw : Word) (ss : List JobState)
    → parse_prune_states py raw ≡ value ss
    → All (λ s. is_wait_terminal s ≡ true) ss
      × (length ss ≡ length (split_all comma raw))
      × (1 ≤ length ss)
unfolding parse_prune_states
parse_prune_states-terminal py raw ss e =
    let (good, long) = parse_each-terminal py (split_all comma raw) ss e in
    (good, long, omega (arith, long, split_some raw))
