-- ===== src/Store/Record.antt =====
-- store.record_success, store.record_failure and store.update_heartbeat: what a worker writes about
-- the job that it owns. Every write is guarded by _OWNERSHIP_GUARD.
pub mod Ownership
pub mod Budget
use spoolctl.Base.{
  ℕ, suc, ◌+◌, ◌-◌, String, Bool, true, false, ◌&&◌, not, Option, none, some, leb, ◌==◌, is_some,
  is_none, if◌then◌else◌,
}
use spoolctl.Base.Int.{ℤ, pos}
use spoolctl.Models.{
  Time, Job, JobState, Attempt, AttemptState, FailureReason, EventType, ErrorText, of_error,
  backoff, is_att_running,
}
use spoolctl.Sql.{update, count, first}
use spoolctl.Store.Db.{Db, owned_by, add_event}

-- The columns that every end of a run clears.
abbrev pub unlock : Job → Job
unlock j = record j { locked_by = none; locked_pid = none; locked_at = none; heartbeat_at = none }

-- WHERE id=? AND state='running', on attempts.
abbrev pub is_open_attempt : ℕ → Attempt → Bool
is_open_attempt attempt_id a = a.id == attempt_id && is_att_running a.state

abbrev pub finish_done : Time → Job → Job
finish_done now j = record (unlock j) {
  state = JobState.done;
  finished_at = some now;
  last_exit_code = some (pos 0);
  last_error = none;
}

abbrev pub attempt_succeeds : Time → Attempt → Attempt
attempt_succeeds now a = record a {
  state = AttemptState.succeeded;
  finished_at = some now;
  exit_code = some (pos 0);
}

-- The kinds of a job-owned failure: 'failed' and 'timed_out'.
pub data FailureKind : Type 0 where
  failed timed_out : FailureKind

abbrev pub kind_state : FailureKind → AttemptState
kind_state FailureKind.failed = AttemptState.failed
kind_state FailureKind.timed_out = AttemptState.timed_out

abbrev pub kind_event : FailureKind → EventType
kind_event FailureKind.failed = EventType.failed
kind_event FailureKind.timed_out = EventType.timed_out

-- The failure reason where the caller gives none.
unfoldable pub default_reason : FailureKind → Option ℤ → FailureReason
default_reason FailureKind.timed_out code = FailureReason.timeout
default_reason FailureKind.failed (some code) = FailureReason.process_exit
default_reason FailureKind.failed none = FailureReason.unknown

-- _validate_failure_reason: false is ValueError.
unfoldable pub reason_fits : FailureKind → Option ℤ → FailureReason → Bool
reason_fits FailureKind.timed_out code FailureReason.timeout = true
reason_fits FailureKind.timed_out code _ = false
reason_fits FailureKind.failed (some code) FailureReason.process_exit = true
reason_fits FailureKind.failed (some code) _ = false
reason_fits FailureKind.failed none FailureReason.spawn_failed = true
reason_fits FailureKind.failed none FailureReason.unknown = true
reason_fits FailureKind.failed none _ = false

abbrev pub reason_or_default : FailureKind → Option ℤ → Option FailureReason → FailureReason
reason_or_default kind code none = default_reason kind code
reason_or_default kind code (some reason) = reason

-- job_failures <= max_retries, after one more failure.
unfoldable pub may_retry : Job → Bool
may_retry j = leb (suc j.attempts - j.crashes) j.max_retries

abbrev pub retry_state : Bool → JobState
retry_state true = JobState.queued
retry_state false = JobState.dead

abbrev pub retry_time : Bool → Time → ℕ → Time
retry_time true now attempts = now + backoff attempts
retry_time false now attempts = now

unfoldable pub fail_job : Bool → Option ℤ → ErrorText → Time → Job → Job
fail_job retry exit_code error now j = record (unlock j) {
  state = retry_state retry;
  attempts = suc j.attempts;
  next_run_at = retry_time retry now (suc j.attempts);
  finished_at = some now;
  last_exit_code = exit_code;
  last_error = some error;
}

abbrev pub attempt_fails :
    FailureKind → Option ℤ → ErrorText → FailureReason → Time → Attempt → Attempt
attempt_fails kind exit_code error reason now a = record a {
  state = kind_state kind;
  finished_at = some now;
  exit_code = exit_code;
  error = some error;
  failure_reason = some reason;
}

-- The 'dead' event, which follows where the job is dead-lettered.
unfoldable pub add_dead_event : Bool → ℕ → Time → String → Db → Db
unfolding add_event
add_dead_event true job_id now worker_id db = db
add_dead_event false job_id now worker_id db =
    add_event job_id now EventType.dead (some worker_id) none db

module _ (job_id attempt_id : ℕ) (worker_id : String) (worker_pid : ℕ) where
  unfoldable pub write_success : Time → Db → Db
  unfolding add_event
  write_success now db = add_event job_id now EventType.succeeded (some worker_id) none (record db {
    jobs = update (owned_by job_id worker_id worker_pid) (finish_done now) db.jobs;
    attempts = update (is_open_attempt attempt_id) (attempt_succeeds now) db.attempts;
  })

  -- `none`: the row was reclaimed, and nothing is written.
  unfoldable pub record_success : Time → Db → Db × Option JobState
  unfolding write_success
  record_success now db =
      if count (owned_by job_id worker_id worker_pid) db.jobs == 0
      then (db, none)
      else (write_success now db, some JobState.done)

  module _ (kind : FailureKind) (exit_code : Option ℤ) (error : ErrorText) (now : Time) where
    unfoldable pub write_failure : FailureReason → Bool → Db → Db
    unfolding fail_job add_event add_dead_event
    write_failure reason retry db = add_dead_event retry job_id now worker_id (
        add_event job_id now (kind_event kind) (some worker_id) (some (of_error error)) (record db {
          jobs =
              update (owned_by job_id worker_id worker_pid) (fail_job retry exit_code error now)
                db.jobs;
          attempts =
              update (is_open_attempt attempt_id) (attempt_fails kind exit_code error reason now)
                db.attempts;
        }))

    -- The transaction of record_failure, after its arguments are validated.
    unfoldable pub commit_failure : FailureReason → Db → Db × Option JobState
    unfolding may_retry write_failure
    commit_failure reason db = elim (first (owned_by job_id worker_id worker_pid) db.jobs) [
      | none ↦ (db, none)
      | some row ↦ (write_failure reason (may_retry row) db, some (retry_state (may_retry row)))
    ]

    -- `none` in front is ValueError: the failure reason does not fit the kind.
    unfoldable pub record_failure : Option FailureReason → Db → Option (Db × Option JobState)
    unfolding default_reason reason_fits commit_failure
    record_failure given db =
        let reason = reason_or_default kind exit_code given in
        if reason_fits kind exit_code reason then some (commit_failure reason db) else none

-- The number of rows matched: 0 is proof that the ownership is lost.
unfoldable pub update_heartbeat : ℕ → String → ℕ → Time → Db → Db × ℕ
update_heartbeat job_id worker_id worker_pid now db = (
  record db {
    jobs =
        update (owned_by job_id worker_id worker_pid) (λ j. record j { heartbeat_at = some now })
          db.jobs;
  },
  count (owned_by job_id worker_id worker_pid) db.jobs,
)
