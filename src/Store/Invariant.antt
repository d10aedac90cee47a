-- ===== src/Store/Invariant.antt =====
-- The well-formedness of the database that every operation of spoolctl/store.py keeps.
pub mod Effects
pub mod Edits
pub mod Attempts
pub mod Recorded
pub mod Recovered
pub mod Requested
pub mod Grown
pub mod Pruned
use spoolctl.Base.{
  ℕ, suc, ◌+◌, ◌-◌, ◌≤◌, ◌<◌, ◌≡◌, ◌≢◌, Bool, true, false, ◌&&◌, List, [], ◌∷◌, Option, none, some,
  is_some, is_none, All, leb,
}
use spoolctl.Models.{
  Job, JobState, Attempt, AttemptState, FailureReason, Event, is_queued, is_running, is_dead,
  is_wait_terminal, is_att_running, number, text,
}
use spoolctl.Sql.{count}
use spoolctl.Sql.Keys.{Ascending, one_if}
use spoolctl.Store.Reap.{may_redeliver}
use spoolctl.Store.Db.{Db, of_job, event_of_job, running_of_job, get_job}

-- What holds of each row of jobs: the lock columns are set exactly while it runs; it never is in the
-- reserved state 'failed'; a settled job has the time at which it finished; crashes are among the
-- attempts; and while it may still run it is within its two budgets.
pub record JobOk (j : Job) : Type 0 where
  pub has_owner : is_some j.locked_by ≡ is_running j.state
  pub has_pid : is_some j.locked_pid ≡ is_running j.state
  pub has_lock_time : is_some j.locked_at ≡ is_running j.state
  pub has_heartbeat : is_some j.heartbeat_at ≡ is_running j.state
  pub never_failed : j.state ≢ JobState.failed
  pub has_finish : is_wait_terminal j.state ≡ true → is_some j.finished_at ≡ true
  pub crashes_counted : j.crashes ≤ j.attempts
  pub in_budget : is_wait_terminal j.state ≡ false → j.attempts ≤ j.max_retries + j.crashes
  pub in_crash_budget :
      is_wait_terminal j.state ≡ false → may_redeliver j.max_crashes j.crashes ≡ true

abbrev pub is_unsuccessful : AttemptState → Bool
is_unsuccessful AttemptState.running = false
is_unsuccessful AttemptState.succeeded = false
is_unsuccessful _ = true

-- What holds of each row of attempts: it has a finish time and (success apart) a failure reason
-- exactly when it no longer runs; its output files are named after the job and the attempt number.
pub record AttemptOk (a : Attempt) : Type 0 where
  pub open_until : is_none a.finished_at ≡ is_att_running a.state
  pub explained : is_some a.failure_reason ≡ is_unsuccessful a.state
  pub numbered : 0 < a.attempt_no
  pub stdout_at : a.stdout_path.parts ≡ number a.job_id ∷ number a.attempt_no ∷ text "stdout" ∷ []
  pub stderr_at : a.stderr_path.parts ≡ number a.job_id ∷ number a.attempt_no ∷ text "stderr" ∷ []

-- Attempt numbers of one job grow along the table, so (job_id, attempt_no) is unique.
abbrev pub Rising : List Attempt → Type 0
Rising [] = Unit {0}
Rising (a ∷ as') = All (λ b. b.job_id ≡ a.job_id → a.attempt_no < b.attempt_no) as' × Rising as'

abbrev pub is_running_row : Job → Bool
is_running_row j = is_running j.state

pub record Inv (db : Db) : Type 0 where
  pub jobs_ok : All JobOk db.jobs
  pub job_ids : Ascending (λ j. j.id) 0 db.jobs
  pub jobs_below : All (λ j. j.id ≤ db.last_job) db.jobs
  pub attempts_ok : All AttemptOk db.attempts
  pub attempt_ids : Ascending (λ a. a.id) 0 db.attempts
  pub attempts_below : All (λ a. a.id ≤ db.last_attempt) db.attempts
  pub rising : Rising db.attempts
  pub event_ids : Ascending (λ e. e.id) 0 db.events
  pub events_below : All (λ e. e.id ≤ db.last_event) db.events
  -- A running job has one running attempt, and any other job has none.
  pub one_open :
      (k : ℕ) → count (running_of_job k) db.attempts ≡ one_if is_running_row (get_job k db)
  -- The foreign keys.
  pub attempt_refs : (k : ℕ) → get_job k db ≡ none → count (of_job k) db.attempts ≡ 0
  pub event_refs : (k : ℕ) → get_job k db ≡ none → count (event_of_job k) db.events ≡ 0
