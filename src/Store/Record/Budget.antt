-- ===== src/Store/Record/Budget.antt =====
-- The retry budget: what a recorded failure makes of the owner's job.
use spoolctl.Base.{
  ℕ, suc, ◌+◌, ◌≤◌, ◌<◌, ◌≡◌, refl, ◌∙◌, Bool, true, false, Option, none, some, arith, String,
}
use spoolctl.Base.Int.{ℤ}
use spoolctl.Models.{Time, Job, JobState, ErrorText, FailureReason, backoff}
use spoolctl.Store.Db.{Db, owned_by, get_job}
use spoolctl.Store.Record.{
  FailureKind, may_retry, retry_state, fail_job, write_failure, commit_failure,
}
use spoolctl.Store.Invariant.{Inv}
use spoolctl.Store.Invariant.Effects.{get_job-id, get_job-add_event, get_job-add_dead_event}
use spoolctl.Store.Invariant.Edits.{get_job-edited}
use spoolctl.Store.Invariant.Recorded.{owns, first-owned}

module _ (k attempt_id : ℕ) (w : String) (pid : ℕ) (kind : FailureKind) (code : Option ℤ)
    (error : ErrorText) (now : Time) (reason : FailureReason) (db : Db) (v : Inv db) (row : Job)
    (found : get_job k db ≡ some row) (own : owns w pid row ≡ true) where
  write_failure-row :
      get_job k (write_failure k attempt_id w pid kind code error now reason (may_retry row) db)
      ≡ some (fail_job (may_retry row) code error now row)
  unfolding write_failure
  write_failure-row =
      get_job-add_dead_event (may_retry row) k k now w _
      ∙ get_job-add_event k k now _ (some w) _ _
      ∙ get_job-edited db k row (owned_by k w pid) (fail_job (may_retry row) code error now) _ found
          (ground (arith, own, get_job-id k db row found)) (λ j. unfold fail_job in refl)

  commit_failure-row :
      (get_job k (commit_failure k attempt_id w pid kind code error now reason db).0
        ≡ some (fail_job (may_retry row) code error now row))
      × ((commit_failure k attempt_id w pid kind code error now reason db).1
          ≡ some (retry_state (may_retry row)))
  unfolding commit_failure
  commit_failure-row =
      rw (first-owned k w pid db v, found, own, commit_failure) (write_failure-row, refl)

  -- The outcome of an owned failure: the job gets one more attempt on its count and, if its failures
  -- that are not crashes are still at most max_retries, is queued again after the backoff; otherwise
  -- it is dead. Either way the lock is given up.
  pub record Outcome (job : Job) (state : JobState) : Type 0 where
    pub counted : job.attempts ≡ suc row.attempts
    pub same_crashes : job.crashes ≡ row.crashes
    pub unlocked : (job.locked_by ≡ none) × (job.locked_pid ≡ none) × (job.heartbeat_at ≡ none)
    pub reported : state ≡ job.state
    pub requeued :
        suc row.attempts ≤ row.max_retries + row.crashes
        → (job.state ≡ JobState.queued) × (job.next_run_at ≡ now + backoff (suc row.attempts))
    pub dead_lettered :
        row.max_retries + row.crashes < suc row.attempts
        → (job.state ≡ JobState.dead) × (job.next_run_at ≡ now)

  fail_job-Outcome :
      (retry : Bool)
      → may_retry row ≡ retry
      → Outcome (fail_job retry code error now row) (retry_state retry)
  unfolding fail_job may_retry
  fail_job-Outcome true e = record {
    counted = refl;
    same_crashes = refl;
    unlocked = (refl, refl, refl);
    reported = refl;
    requeued = λ h. (refl, refl);
    dead_lettered = λ h. absurd (ground arith);
  }
  fail_job-Outcome false e = record {
    counted = refl;
    same_crashes = refl;
    unlocked = (refl, refl, refl);
    reported = refl;
    requeued = λ h. absurd (ground arith);
    dead_lettered = λ h. (refl, refl);
  }

  -- In a well-formed database, when the worker that owns the job records a failure of it, the row after
  -- and the state reported satisfy Outcome: one more attempt, no more crashes, the lock given up; the
  -- job is queued after the backoff if its failures that are not crashes are then at most max_retries,
  -- and dead otherwise.
  pub commit_failure-Outcome :
      (job : Job) (state : JobState)
      → get_job k (commit_failure k attempt_id w pid kind code error now reason db).0 ≡ some job
      → (commit_failure k attempt_id w pid kind code error now reason db).1 ≡ some state
      → Outcome job state
  commit_failure-Outcome job state e f =
      let (row_after, state_after) = commit_failure-row in
      subst2 (ground (arith, e, row_after)) (ground (arith, f, state_after))
        (fail_job-Outcome (may_retry row) refl)
    where
      subst2 : {i j : Job} {s t : JobState} → i ≡ j → s ≡ t → Outcome i s → Outcome j t
      subst2 p q o = rw (← p, ← q) o
