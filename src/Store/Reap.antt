-- ===== src/Store/Reap.antt =====
-- store.stale_running_candidates and store.reap: recovery of a job whose worker has died.
pub mod Recovery
use spoolctl.Base.{
  ℕ, suc, String, Bool, true, ◌&&◌, List, Option, none, some, ltb, leb, ◌==◌, sql_eq, if◌then◌else◌,
}
use spoolctl.Models.{
  Time, Job, JobState, Attempt, AttemptState, FailureReason, EventType, ErrorText, worker_died,
  dead_worker_pid, is_running,
}
use spoolctl.Sql.{select, update, first, order_by}
use spoolctl.Store.Db.{Db, has_id, running_of_job, add_event}
use spoolctl.Store.Record.{unlock, retry_state, retry_time, add_dead_event}

-- heartbeat_at < cutoff; a NULL heartbeat is not.
abbrev pub is_stale : Time → Job → Bool
is_stale cutoff j = sql_eq ltb j.heartbeat_at cutoff

abbrev pub is_stale_running : Time → Job → Bool
is_stale_running cutoff j = is_running j.state && is_stale cutoff j

abbrev pub beat : Option Time → Time
beat none = 0
beat (some t) = t

-- ORDER BY heartbeat_at, id; the rows that are ordered have a heartbeat.
abbrev pub older : Job → Job → Bool
older j i =
    let s = beat j.heartbeat_at in
    let t = beat i.heartbeat_at in if ltb s t then true else s == t && ltb j.id i.id

unfoldable pub stale_running_candidates : Time → Db → List Job
stale_running_candidates cutoff db = order_by older (select (is_stale_running cutoff) db.jobs)

-- WHERE id=? AND state='running' AND locked_pid=? AND heartbeat_at < ?
abbrev pub is_reapable : ℕ → ℕ → Time → Job → Bool
is_reapable job_id locked_pid cutoff j =
    has_id job_id j
    && (is_running j.state && (sql_eq ◌==◌ j.locked_pid locked_pid && is_stale cutoff j))

unfoldable pub may_redeliver : Option ℕ → ℕ → Bool
may_redeliver none crashes = true
may_redeliver (some max_crashes) crashes = leb crashes max_crashes

unfoldable pub crash_job : Bool → Time → Job → Job
crash_job retry now j = record (unlock j) {
  state = retry_state retry;
  attempts = suc j.attempts;
  crashes = suc j.crashes;
  next_run_at = retry_time retry now (suc j.attempts);
  finished_at = some now;
  last_exit_code = none;
  last_error = some worker_died;
}

-- A running attempt is closed with an error and a reason (reap, forced retry, cancel).
abbrev pub close_attempt : AttemptState → ErrorText → FailureReason → Time → Attempt → Attempt
close_attempt state error reason now a = record a {
  state = state;
  finished_at = some now;
  error = some error;
  failure_reason = some reason;
}

module _ (job_id locked_pid : ℕ) (cutoff now : Time) (reaper_id : String) where
  unfoldable pub write_reap : Bool → Db → Db
  unfolding crash_job add_event add_dead_event
  write_reap retry db = add_dead_event retry job_id now reaper_id (
      add_event job_id now EventType.reaped (some reaper_id) (some (dead_worker_pid locked_pid))
        (record db {
          jobs = update (has_id job_id) (crash_job retry now) db.jobs;
          attempts =
              update (running_of_job job_id)
                (close_attempt AttemptState.abandoned worker_died FailureReason.worker_crash now)
                db.attempts;
        }))

  unfoldable pub reap : Db → Db × Option JobState
  unfolding may_redeliver write_reap
  reap db = elim (first (is_reapable job_id locked_pid cutoff) db.jobs) [
    | none ↦ (db, none)
    | some row ↦
        let retry = may_redeliver row.max_crashes (suc row.crashes) in
        (write_reap retry db, some (retry_state retry))
  ]
