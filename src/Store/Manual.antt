-- ===== src/Store/Manual.antt =====
-- store.retry_job and store.cancel_job: the operator's transitions, each with its outcomes.
pub mod Stale
pub mod Outcomes
use spoolctl.Base.{
  ℕ, String, Bool, true, false, ◌&&◌, List, Option, none, some, ◌==◌, if◌then◌else◌,
}
use spoolctl.Models.{
  Time, Job, JobState, Attempt, AttemptState, FailureReason, EventType, ErrorText, force_retried,
  forced, forced_was_running, is_running,
}
use spoolctl.Models
use spoolctl.Sql.{update, count}
use spoolctl.Store.Db.{Db, has_id, running_of_job, add_event, get_job}
use spoolctl.Store.Record.{unlock}
use spoolctl.Store.Reap.{close_attempt}

pub data RetryOutcome : Type 0 where
  ok not_found already_queued done running_unforced raced : RetryOutcome

-- A fresh retry budget.
unfoldable pub requeue_job : Time → Job → Job
requeue_job now j = record (unlock j) {
  state = JobState.queued;
  attempts = 0;
  crashes = 0;
  next_run_at = now;
  finished_at = none;
  last_exit_code = none;
  last_error = none;
}

-- The checks before the writes: `none` lets the requeue go on.
unfoldable pub retry_refusal : Bool → JobState → Option RetryOutcome
retry_refusal true JobState.running = none
retry_refusal true _ = some RetryOutcome.raced
retry_refusal false JobState.queued = some RetryOutcome.already_queued
retry_refusal false JobState.done = some RetryOutcome.done
retry_refusal false JobState.running = some RetryOutcome.running_unforced
retry_refusal false _ = none

abbrev pub retry_detail : Bool → Option Models.Detail
retry_detail true = some forced
retry_detail false = none

-- With `force` the running attempt is abandoned before the job is requeued.
unfoldable pub abandon_if : Bool → ℕ → Time → List Attempt → List Attempt
abandon_if false job_id now attempts = attempts
abandon_if true job_id now attempts =
    update (running_of_job job_id)
      (close_attempt AttemptState.abandoned force_retried FailureReason.canceled now) attempts

unfoldable pub write_retry : ℕ → Bool → Time → Db → Db
unfolding requeue_job abandon_if add_event
write_retry job_id force now db =
    add_event job_id now EventType.retried none (retry_detail force) (record db {
      jobs = update (has_id job_id) (requeue_job now) db.jobs;
      attempts = abandon_if force job_id now db.attempts;
    })

-- The outcome and the job's argv.
unfoldable pub retry_job : ℕ → Bool → Time → Db → Db × RetryOutcome × Option (List String)
unfolding retry_refusal write_retry get_job
retry_job job_id force now db = elim (get_job job_id db) [
  | none ↦ (db, RetryOutcome.not_found, none)
  | some row ↦ elim (retry_refusal force row.state) [
    | some outcome ↦ (db, outcome, some row.argv)
    | none ↦ (write_retry job_id force now db, RetryOutcome.ok, some row.argv)
  ]
]

pub data CancelOutcome : Type 0 where
  ok ok_running not_found running_unforced terminal raced : CancelOutcome

unfoldable pub cancel_queued_job : Time → Job → Job
cancel_queued_job now j = record j { state = JobState.canceled; finished_at = some now }

unfoldable pub cancel_running_job : Time → Job → Job
cancel_running_job now j = record (unlock j) { state = JobState.canceled; finished_at = some now }

-- WHERE id=? AND state='running'
abbrev pub is_running_job : ℕ → Job → Bool
is_running_job job_id j = has_id job_id j && is_running j.state

module _ (job_id : ℕ) (now : Time) where
  unfoldable pub write_cancel_queued : Db → Db
  unfolding cancel_queued_job add_event
  write_cancel_queued db =
      add_event job_id now EventType.canceled none none
        (record db { jobs = update (has_id job_id) (cancel_queued_job now) db.jobs })

  unfoldable pub write_cancel_running : Db → Db
  unfolding cancel_running_job add_event
  write_cancel_running db =
      add_event job_id now EventType.canceled none (some forced_was_running) (record db {
        jobs = update (is_running_job job_id) (cancel_running_job now) db.jobs;
        attempts =
            update (running_of_job job_id)
              (close_attempt AttemptState.canceled ErrorText.canceled FailureReason.canceled now)
              db.attempts;
      })

  -- The branch for a running row that may be canceled: a zero rowcount would be a race.
  unfoldable pub cancel_running : Job → Db → Db × CancelOutcome × Option JobState
  unfolding write_cancel_running
  cancel_running row db =
      if count (is_running_job job_id) db.jobs == 0
      then (db, CancelOutcome.raced, some row.state)
      else (write_cancel_running db, CancelOutcome.ok_running, some JobState.running)

  unfoldable pub cancel_found : Bool → Job → JobState → Db → Db × CancelOutcome × Option JobState
  unfolding write_cancel_queued cancel_running
  cancel_found allow_running row JobState.queued db =
      (write_cancel_queued db, CancelOutcome.ok, some JobState.queued)
  cancel_found false row JobState.running db =
      (db, CancelOutcome.running_unforced, some JobState.running)
  cancel_found true row JobState.running db = cancel_running row db
  cancel_found allow_running row state db = (db, CancelOutcome.terminal, some state)

  -- The outcome and the job's state when it was decided.
  unfoldable pub cancel_job : Bool → Db → Db × CancelOutcome × Option JobState
  unfolding cancel_found get_job
  cancel_job allow_running db = elim (get_job job_id db) [
    | none ↦ (db, CancelOutcome.not_found, none)
    | some row ↦ cancel_found allow_running row row.state db
  ]
