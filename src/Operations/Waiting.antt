-- ===== src/Operations/Waiting.antt =====
-- operations.wait_operation and the long poll of events_operation. A wait is given the list of its
-- polls: the database as each reads it, and the clock after; the sleeps between are left out.
use spoolctl.Base.{
  ℕ, ◌+◌, ◌≡◌, ◌≢◌, refl, ◌⊎◌, inl, inr, Bool, true, false, List, [], ◌∷◌, Option, none, some, All,
  all, leb, map, arith, is_none, any,
}
use spoolctl.Models.{Time, Job, Event, is_wait_terminal, is_done}
use spoolctl.Store.Db.{Db, get_job}
use spoolctl.Store.Queries.{list_events}
use spoolctl.Operations.Errors.{ErrorCode, CliError, cli_error, exit_transient}

-- What a poll sees: the reads of its ids, each a statement of its own, are taken to be of one database.
pub record Poll : Type 0 where
  pub db : Db
  pub clock : Time

-- `waiting` is a wait that the polls given do not end; `raised` is the AttributeError of reading
-- `state` from a job that is not there.
pub data WaitOutcome : Type 0 where
  waiting raised : WaitOutcome
  refused : CliError → WaitOutcome
  settled : Bool → List (Option Job) → WaitOutcome

-- all(j.state in _WAIT_TERMINAL for j in jobs): it stops at the first job that is not.
abbrev unless_open : Bool → Option Bool → Option Bool
unless_open true rest = rest
unless_open false rest = some false

unfoldable pub all_settled : List (Option Job) → Option Bool
all_settled [] = some true
all_settled (none ∷ jobs) = none
all_settled (some j ∷ jobs) = unless_open (is_wait_terminal j.state) (all_settled jobs)

abbrev pub has_state_done : Option Job → Bool
has_state_done none = false
has_state_done (some j) = is_done j.state

abbrev pub is_past : Option Time → Time → Bool
is_past none clock = false
is_past (some deadline) clock = leb deadline clock

-- The jobs of one pass, one for each id asked for (an id asked for twice stands twice).
abbrev pub jobs_of : List ℕ → Db → List (Option Job)
jobs_of ids db = map (λ i. get_job i db) ids

abbrev pub wait_step : Option Bool → Bool → List (Option Job) → WaitOutcome → WaitOutcome
wait_step none past jobs rest = WaitOutcome.raised
wait_step (some true) past jobs rest = WaitOutcome.settled (all has_state_done jobs) jobs
wait_step (some false) true jobs rest =
    WaitOutcome.refused (record { code = ErrorCode.timeout; exit_code = exit_transient })
wait_step (some false) false jobs rest = rest

unfoldable pub wait_loop : List ℕ → Option Time → List Poll → WaitOutcome
unfolding all_settled
wait_loop ids deadline [] = WaitOutcome.waiting
wait_loop ids deadline (p ∷ ps) =
    let jobs = jobs_of ids p.db in
    wait_step (all_settled jobs) (is_past deadline p.clock) jobs (wait_loop ids deadline ps)

abbrev pub deadline_of : Option Time → Time → Option Time
deadline_of none started = none
deadline_of (some timeout) started = some (started + timeout)

-- The ids are looked up first, in the database `db`.
unfoldable pub wait_operation : List ℕ → Option Time → Time → Db → List Poll → WaitOutcome
unfolding wait_loop
wait_operation ids timeout started db polls = elim (any is_none (jobs_of ids db)) [
  | true ↦ WaitOutcome.refused (cli_error ErrorCode.not_found)
  | false ↦ wait_loop ids (deadline_of timeout started) polls
]

abbrev pub Any {ℓ} : {A : Type ℓ} → (A → Type 0) → List A → Type 0
Any P [] = ⊥
Any P (x ∷ xs) = P x ⊎ Any P xs

-- The job is there, and settled.
abbrev pub is_settled : Option Job → Bool
is_settled none = false
is_settled (some j) = is_wait_terminal j.state

abbrev IsGone : Option Job → Type 0
IsGone o = o ≡ none

abbrev SettledMeans : List (Option Job) → Option Bool → Type 0
SettledMeans jobs none = Any IsGone jobs
SettledMeans jobs (some b) = all is_settled jobs ≡ b

settled-step :
    (j : Job) (t : Bool) (o : Option Bool) (jobs : List (Option Job))
    → is_wait_terminal j.state ≡ t
    → SettledMeans jobs o
    → SettledMeans (some j ∷ jobs) (unless_open t o)
settled-step j true none jobs e h = inr h
settled-step j true (some b) jobs e h = ground (arith, e, h)
settled-step j false o jobs e h = ground (arith, e)

all_settled-Means : (jobs : List (Option Job)) → SettledMeans jobs (all_settled jobs)
unfolding all_settled
all_settled-Means [] = refl
all_settled-Means (none ∷ jobs) = inl refl
all_settled-Means (some j ∷ jobs) =
    settled-step j (is_wait_terminal j.state) (all_settled jobs) jobs refl (all_settled-Means jobs)

module _ (ids : List ℕ) (deadline : Option Time) where
  -- What each outcome says of the polls.
  abbrev pub WaitMeans : List Poll → WaitOutcome → Type 0
  WaitMeans polls WaitOutcome.waiting =
      All (λ p. (all is_settled (jobs_of ids p.db) ≡ false) × (is_past deadline p.clock ≡ false))
        polls
  WaitMeans polls WaitOutcome.raised = Any (λ p. Any IsGone (jobs_of ids p.db)) polls
  WaitMeans polls (WaitOutcome.refused e) =
      (e.code ≡ ErrorCode.timeout)
      × Any (λ p. (all is_settled (jobs_of ids p.db) ≡ false) × (is_past deadline p.clock ≡ true))
          polls
  WaitMeans polls (WaitOutcome.settled b jobs) =
      Any
        (λ p.
          (jobs ≡ jobs_of ids p.db) × (all is_settled jobs ≡ true) × (b ≡ all has_state_done jobs))
        polls

  step-Means :
      (p : Poll) (ps : List Poll) (o : Option Bool) (past : Bool) (rest : WaitOutcome)
      → SettledMeans (jobs_of ids p.db) o
      → is_past deadline p.clock ≡ past
      → WaitMeans ps rest
      → WaitMeans (p ∷ ps) (wait_step o past (jobs_of ids p.db) rest)
  step-Means p ps none past rest h e w = inl h
  step-Means p ps (some true) past rest h e w = inl (refl, h, refl)
  step-Means p ps (some false) true rest h e w = (refl, inl (h, e))
  step-Means p ps (some false) false WaitOutcome.waiting h e w = ((h, e), w)
  step-Means p ps (some false) false WaitOutcome.raised h e w = inr w
  step-Means p ps (some false) false (WaitOutcome.refused c) h e w = (w.0, inr w.1)
  step-Means p ps (some false) false (WaitOutcome.settled b jobs) h e w = inr w

  wait_loop-Means : (polls : List Poll) → WaitMeans polls (wait_loop ids deadline polls)
  unfolding wait_loop
  wait_loop-Means [] = tt
  wait_loop-Means (p ∷ ps) =
      step-Means p ps (all_settled (jobs_of ids p.db)) (is_past deadline p.clock)
        (wait_loop ids deadline ps) (all_settled-Means (jobs_of ids p.db)) refl (wait_loop-Means ps)

-- A wait for an id that is not there is refused as NOT_FOUND. Otherwise: it answers only with the jobs
-- of one of its polls, all of them settled, and says that all succeeded exactly when each is done; it
-- is refused as TIMEOUT only at a poll at which some job is not settled and the deadline has passed;
-- it raises only at a poll at which a job is gone; and it still waits only if at each poll some job
-- is not settled and the deadline has not passed.
pub wait_operation-Means :
    (ids : List ℕ) (timeout : Option Time) (started : Time) (db : Db) (polls : List Poll)
    → (any is_none (jobs_of ids db) ≡ true
        → wait_operation ids timeout started db polls
          ≡ WaitOutcome.refused (cli_error ErrorCode.not_found))
      × (any is_none (jobs_of ids db) ≡ false
          → WaitMeans ids
              (deadline_of timeout started)
              polls
              (wait_operation ids timeout started db polls))
unfolding wait_operation
wait_operation-Means ids timeout started db polls = (
  (λ e. rw (e, wait_operation) refl),
  (λ e. rw (e, wait_operation) (wait_loop-Means ids (deadline_of timeout started) polls)),
)

pub data WaitReason : Type 0 where
  records_available timeout : WaitReason

abbrev probe_step : List Event → Bool → Option WaitReason → Option WaitReason
probe_step (e ∷ es) past rest = some WaitReason.records_available
probe_step [] true rest = some WaitReason.timeout
probe_step [] false rest = rest

-- The long poll of events_operation, or `none` where the polls given do not end it.
unfoldable pub events_wait : ℕ → Option ℕ → Time → List Poll → Option WaitReason
events_wait since_id job_id deadline [] = none
events_wait since_id job_id deadline (p ∷ ps) =
    probe_step (list_events since_id job_id 1 p.db) (leb deadline p.clock)
      (events_wait since_id job_id deadline ps)

module _ (since_id : ℕ) (job_id : Option ℕ) (deadline : Time) where
  abbrev pub probe : Poll → List Event
  probe p = list_events since_id job_id 1 p.db

  -- What each result of the long poll says of the polls.
  abbrev pub LongPollMeans : List Poll → Option WaitReason → Type 0
  LongPollMeans polls none = All (λ p. (probe p ≡ []) × (leb deadline p.clock ≡ false)) polls
  LongPollMeans polls (some WaitReason.records_available) = Any (λ p. probe p ≢ []) polls
  LongPollMeans polls (some WaitReason.timeout) =
      Any (λ p. (probe p ≡ []) × (leb deadline p.clock ≡ true)) polls

  probe-Means :
      (p : Poll) (ps : List Poll) (es : List Event) (past : Bool) (rest : Option WaitReason)
      → probe p ≡ es
      → leb deadline p.clock ≡ past
      → LongPollMeans ps rest
      → LongPollMeans (p ∷ ps) (probe_step es past rest)
  probe-Means p ps (e ∷ es) past rest h k w = inl (λ n. cc (h, n))
  probe-Means p ps [] true rest h k w = inl (h, k)
  probe-Means p ps [] false none h k w = ((h, k), w)
  probe-Means p ps [] false (some WaitReason.records_available) h k w = inr w
  probe-Means p ps [] false (some WaitReason.timeout) h k w = inr w

  -- The long poll says that records are available only where a poll found an event after `since_id`;
  -- it times out only at a poll that found none with the deadline passed; and while it waits, each
  -- poll found none and the deadline has not passed.
  pub events_wait-Means :
      (polls : List Poll) → LongPollMeans polls (events_wait since_id job_id deadline polls)
  unfolding events_wait
  events_wait-Means [] = tt
  events_wait-Means (p ∷ ps) =
      probe-Means p ps (probe p) (leb deadline p.clock) (events_wait since_id job_id deadline ps)
        refl refl (events_wait-Means ps)
