-- ===== src/Cli/Verbs.antt =====
-- cli.cmd_cancel, cmd_retry, cmd_prune and cmd_wait: what the handlers check of the arguments, before
-- the operations do anything, and the exit code that they give.
pub mod Consent
pub mod Exits
use spoolctl.Base.{
  ℕ, Bool, true, false, not, ◌&&◌, List, [], ◌∷◌, Option, none, some, ◌-◌, if◌then◌else◌,
}
use spoolctl.Base.Int.{ℤ, pos, negsuc}
use spoolctl.Models.{Time, JobState}
use spoolctl.Models.Suggest.{Word}
use spoolctl.Store.Db.{Db}
use spoolctl.Operations.Errors.{
  ErrorCode, CliError, Result, ok, err, cli_error, exit_input, exit_safety, exit_environment,
}
use spoolctl.Operations.Requests.{CancelData, cancel_operation, retry_operation}
use spoolctl.Operations.Pruning.{FileCalls, PruneData, prune_operation}
use spoolctl.Operations.Waiting.{Poll, WaitOutcome, wait_operation}
use spoolctl.Validation.{Python, Parsed, value, refused, raised, ◌>>=◌}
use spoolctl.Validation.Ints.{job_id_arg}
use spoolctl.Validation.States.{parse_prune_states}
use spoolctl.Validation.Floats.{
  Floats, parse_positive_float, parse_duration_seconds, max_wait_seconds, max_poll_interval_seconds,
}

abbrev pub exit_job_failure : ℕ
exit_job_failure = 6

-- An exception that main does not know ends as INTERNAL.
abbrev pub internal_error : CliError
internal_error = record { code = ErrorCode.internal; exit_code = exit_environment }

abbrev pub safety_block : CliError
safety_block = record { code = ErrorCode.safety_block; exit_code = exit_safety }

-- Ids and numbers above zero.
abbrev pub nat_of : ℤ → ℕ
nat_of (pos n) = n
nat_of (negsuc n) = 0

abbrev pub nats_of : List ℤ → List ℕ
nats_of [] = []
nats_of (i ∷ is) = nat_of i ∷ nats_of is

abbrev pub micros_of : {F : Type 0} → (F → Time) → Option F → Option Time
micros_of micros none = none
micros_of micros (some v) = some (micros v)

-- A handler goes on with the value that was parsed; an error of the parser ends it, with the state as
-- it was.
abbrev pub with_value {ℓ} :
    {A : Type 0} {S : Type ℓ} {B : Type ℓ} → S → Parsed A → (A → S × Result B) → S × Result B
with_value s (value a) k = k a
with_value s (refused hint) k = (s, err (cli_error ErrorCode.invalid_input))
with_value s raised k = (s, err internal_error)

-- cancel ends a running job only with --yes.
abbrev pub cancel_gate : {S A : Type 0} → S → Bool → Bool → S × Result A → S × Result A
cancel_gate s running confirmed rest =
    if running && not confirmed then (s, err safety_block) else rest

-- prune deletes only with --yes, and previews only with --dry-run.
abbrev pub prune_gate : {S A : Type 0} → S → Bool → Bool → S × Result A → S × Result A
prune_gate s confirmed dry_run rest =
    if confirmed && dry_run
    then (s, err (cli_error ErrorCode.invalid_input))
    else if not confirmed && not dry_run
    then (s, err safety_block)
    else rest

module _ (py : Python) where
  unfoldable pub cmd_cancel : Word → Bool → Bool → Time → Db → Db × Result CancelData
  cmd_cancel id running confirmed now db =
      with_value db (job_id_arg py id)
        λ job_id. cancel_gate db running confirmed (cancel_operation (nat_of job_id) running now db)

  unfoldable pub cmd_retry : Word → Bool → Time → Db → Db × Result ℕ
  cmd_retry id force now db =
      with_value db (job_id_arg py id) λ job_id. retry_operation (nat_of job_id) force now db

  abbrev pub job_ids : List Word → Parsed (List ℤ)
  job_ids [] = value []
  job_ids (raw ∷ raws) = do i ← job_id_arg py raw; is ← job_ids raws; value (i ∷ is)

  module _ {F Files : Type 0} (fl : Floats F) (is_alpha : ℕ → Bool) where
    -- time.time() - seconds is `cutoff_of seconds`.
    unfoldable pub cmd_prune :
        FileCalls Files
        → (F → Time)
        → Word
        → Word
        → Bool
        → Bool
        → (Db → Db)
        → Db
        → Files
        → (Db × Files) × Result PruneData
    cmd_prune os cutoff_of older_than state confirmed dry_run meanwhile db files =
        with_value (db, files) (parse_duration_seconds py fl is_alpha older_than)
          λ seconds.
            with_value (db, files) (parse_prune_states py state)
              λ states.
                prune_gate (db, files) confirmed dry_run
                  (let (s, d) =
                      prune_operation os states (cutoff_of seconds) dry_run meanwhile db files in
                    (s, ok d))

  module _ {F : Type 0} (fl : Floats F) where
    abbrev pub optional_float : ℕ → Option Word → Parsed (Option F)
    optional_float maximum none = value none
    optional_float maximum (some raw) = do
      v ← parse_positive_float py fl maximum raw
      value (some v)

    -- The arguments of a wait: the ids, the timeout and the interval, in the order in which they are
    -- parsed.
    unfoldable pub wait_args : List Word → Option Word → Word → Parsed (List ℤ × Option F)
    wait_args ids timeout poll_interval = do
      is ← job_ids ids
      limit ← optional_float max_wait_seconds timeout
      interval ← parse_positive_float py fl max_poll_interval_seconds poll_interval
      value (is, limit)

-- The exit code of a wait, or none while it goes on.
unfoldable pub wait_exit : WaitOutcome → Option ℕ
wait_exit WaitOutcome.waiting = none
wait_exit WaitOutcome.raised = some exit_environment
wait_exit (WaitOutcome.refused e) = some e.exit_code
wait_exit (WaitOutcome.settled all_succeeded jobs) =
    some (if all_succeeded then 0 else exit_job_failure)

module _ (py : Python) {F : Type 0} (fl : Floats F) where
  unfoldable pub cmd_wait :
      (F → Time) → List Word → Option Word → Word → Time → Db → List Poll → Option ℕ
  unfolding wait_args wait_exit
  cmd_wait micros ids timeout poll_interval started db polls =
      elim (wait_args py fl ids timeout poll_interval) [
        | refused hint ↦ some exit_input
        | raised ↦ some exit_environment
        | value (is, limit) ↦
            wait_exit (wait_operation (nats_of is) (micros_of micros limit) started db polls)
      ]
