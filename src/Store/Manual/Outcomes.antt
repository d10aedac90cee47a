-- ===== src/Store/Manual/Outcomes.antt =====
-- The outcomes of cancel_job and retry_job on every state of the job.
use spoolctl.Base.{ℕ, ◌≡◌, refl, ap, ◌∙◌, Bool, Option, is_some, true, false, none, some, arith}
use spoolctl.Models.{Time, Job, JobState, AttemptState, ErrorText, FailureReason, is_running}
use spoolctl.Sql.{count}
use spoolctl.Sql.Keys.{count-at_key}
use spoolctl.Store.Db.{Db, has_id, running_of_job, get_job, add_event}
use spoolctl.Store.Manual.{
  RetryOutcome, CancelOutcome, requeue_job, retry_refusal, write_retry, retry_job,
  cancel_queued_job, cancel_running_job, is_running_job, write_cancel_queued, write_cancel_running,
  cancel_running, cancel_found, cancel_job,
}
use spoolctl.Store.Invariant.{Inv, JobOk}
use spoolctl.Store.Invariant.Attempts.{count-closed}
use spoolctl.Sql.Laws.{All-first}
use spoolctl.Store.Invariant.Requested.{abandon-here}
use spoolctl.Store.Invariant.Effects.{get_job-id, get_job-add_event}
use spoolctl.Store.Invariant.Edits.{get_job-edited}

module _ (k : ℕ) (now : Time) (db : Db) (v : Inv db) (row : Job)
    (found : get_job k db ≡ some row) where
  hit : has_id k row ≡ true
  hit = ground (arith, get_job-id k db row found)

  cancel_running-ok :
      row.state ≡ JobState.running
      → cancel_running k now row db
        ≡ (write_cancel_running k now db, CancelOutcome.ok_running, some JobState.running)
  unfolding cancel_running get_job
  cancel_running-ok e =
      ground
        (arith, count-at_key (λ j. j.id) k (λ j. is_running j.state) 0 db.jobs v.job_ids, found, e)

  write_cancel_queued-row :
      get_job k (write_cancel_queued k now db) ≡ some (cancel_queued_job now row)
  unfolding write_cancel_queued
  write_cancel_queued-row =
      get_job-add_event k k now _ none _ _
      ∙ get_job-edited db k row (has_id k) (cancel_queued_job now) db.attempts found hit
          (λ j. unfold cancel_queued_job in refl)

  write_cancel_running-row :
      row.state ≡ JobState.running
      → get_job k (write_cancel_running k now db) ≡ some (cancel_running_job now row)
  unfolding write_cancel_running
  write_cancel_running-row e =
      get_job-add_event k k now _ none _ _
      ∙ get_job-edited db k row (is_running_job k) (cancel_running_job now) _ found
          (ground (arith, hit, e)) (λ j. unfold cancel_running_job in refl)

  -- A canceled row: finished, locked by nobody, and with its budgets, its due time and its history as
  -- they were.
  pub record IsCanceled (j : Job) : Type 0 where
    pub state : j.state ≡ JobState.canceled
    pub finished : j.finished_at ≡ some now
    pub locks :
        (j.locked_by ≡ none)
        × (j.locked_pid ≡ none)
        × (j.locked_at ≡ none)
        × (j.heartbeat_at ≡ none)
    pub budget :
        (j.attempts ≡ row.attempts) × (j.crashes ≡ row.crashes) × (j.max_retries ≡ row.max_retries)
    pub kept :
        (j.id ≡ row.id)
        × (j.argv ≡ row.argv)
        × (j.queue ≡ row.queue)
        × (j.next_run_at ≡ row.next_run_at)
        × (j.started_at ≡ row.started_at)

  abbrev pub Canceled : Db → Type 0
  Canceled db' = (j : Job) × (get_job k db' ≡ some j) × IsCanceled j

  unset : {A : Type 0} (o : Option A) → is_some o ≡ false → o ≡ none
  unset none e = refl
  unset (some a) e = cc e

  row_ok : JobOk row
  row_ok = All-first JobOk (has_id k) db.jobs row v.jobs_ok (unfold get_job in found)

  write_cancel_queued-Canceled :
      row.state ≡ JobState.queued → Canceled (write_cancel_queued k now db)
  unfolding cancel_queued_job
  write_cancel_queued-Canceled e =
      let idle = ap is_running e in
      (
        cancel_queued_job now row,
        write_cancel_queued-row,
        record {
          state = refl;
          finished = refl;
          locks = (
            unset row.locked_by (row_ok.has_owner ∙ idle),
            unset row.locked_pid (row_ok.has_pid ∙ idle),
            unset row.locked_at (row_ok.has_lock_time ∙ idle),
            unset row.heartbeat_at (row_ok.has_heartbeat ∙ idle),
          );
          budget = (refl, refl, refl);
          kept = (refl, refl, refl, refl, refl);
        },
      )

  write_cancel_running-Canceled :
      row.state ≡ JobState.running → Canceled (write_cancel_running k now db)
  unfolding cancel_running_job
  write_cancel_running-Canceled e = (
    cancel_running_job now row,
    write_cancel_running-row e,
    record {
      state = refl;
      finished = refl;
      locks = (refl, refl, refl, refl);
      budget = (refl, refl, refl);
      kept = (refl, refl, refl, refl, refl);
    },
  )

  closed : count (running_of_job k) (write_cancel_running k now db).attempts ≡ 0
  unfolding write_cancel_running add_event
  closed =
      count-closed k AttemptState.canceled ErrorText.canceled FailureReason.canceled now refl
        db.attempts

  -- The row that a cancellation leaves, with the outcome, by the state that it finds.
  abbrev pub CancelSpec : Bool → JobState → Db → CancelOutcome → Type 0
  CancelSpec allow JobState.queued db' o = (o ≡ CancelOutcome.ok) × Canceled db'
  CancelSpec true JobState.running db' o =
      (o ≡ CancelOutcome.ok_running) × Canceled db' × (count (running_of_job k) db'.attempts ≡ 0)
  CancelSpec false JobState.running db' o = (o ≡ CancelOutcome.running_unforced) × (db' ≡ db)
  CancelSpec allow _ db' o = (o ≡ CancelOutcome.terminal) × (db' ≡ db)

  cancel_found-CancelSpec :
      (allow : Bool) (s : JobState)
      → row.state ≡ s
      → CancelSpec allow s
          (cancel_found k now allow row s db).0
          (cancel_found k now allow row s db).1
  unfolding cancel_found
  cancel_found-CancelSpec allow JobState.queued e = (refl, write_cancel_queued-Canceled e)
  cancel_found-CancelSpec true JobState.running e =
      rw (cancel_running-ok e) (refl, write_cancel_running-Canceled e, closed)
  cancel_found-CancelSpec false JobState.running e = (refl, refl)
  cancel_found-CancelSpec allow JobState.done e = (refl, refl)
  cancel_found-CancelSpec allow JobState.failed e = (refl, refl)
  cancel_found-CancelSpec allow JobState.dead e = (refl, refl)
  cancel_found-CancelSpec allow JobState.canceled e = (refl, refl)

  -- Cancelling a job that exists, in a well-formed database: a queued job is canceled, and a running one if that is allowed, and then no
  -- attempt of it is running any more; the canceled row is finished and locked by nobody, with its budgets, due time and history as they were. In
  -- every other case the database is left alone with an outcome that names the reason. The outcome
  -- is never 'raced'.
  pub cancel_job-CancelSpec :
      (allow : Bool)
      → CancelSpec allow row.state (cancel_job k now allow db).0 (cancel_job k now allow db).1
  unfolding cancel_job
  cancel_job-CancelSpec allow =
      rw (found, cancel_job) (cancel_found-CancelSpec allow row.state refl)

  write_retry-row :
      (force : Bool) → get_job k (write_retry k force now db) ≡ some (requeue_job now row)
  unfolding write_retry
  write_retry-row force =
      get_job-add_event k k now _ none _ _
      ∙ get_job-edited db k row (has_id k) (requeue_job now) _ found hit
          (λ j. unfold requeue_job in refl)

  -- A requeued row: due at once, with none of its two budgets used, locked by nobody, and without the
  -- result of its last run.
  pub record IsFresh (j : Job) : Type 0 where
    pub state : j.state ≡ JobState.queued
    pub due : j.next_run_at ≡ now
    pub unused : (j.attempts ≡ 0) × (j.crashes ≡ 0)
    pub locks :
        (j.locked_by ≡ none)
        × (j.locked_pid ≡ none)
        × (j.locked_at ≡ none)
        × (j.heartbeat_at ≡ none)
    pub no_result : (j.finished_at ≡ none) × (j.last_exit_code ≡ none) × (j.last_error ≡ none)
    pub kept :
        (j.id ≡ row.id)
        × (j.argv ≡ row.argv)
        × (j.queue ≡ row.queue)
        × (j.priority ≡ row.priority)
        × (j.max_retries ≡ row.max_retries)
        × (j.max_crashes ≡ row.max_crashes)

  abbrev pub Fresh : Db → Type 0
  Fresh db' = (j : Job) × (get_job k db' ≡ some j) × IsFresh j

  write_retry-Fresh : (force : Bool) → Fresh (write_retry k force now db)
  unfolding requeue_job
  write_retry-Fresh force = (
    requeue_job now row,
    write_retry-row force,
    record {
      state = refl;
      due = refl;
      unused = (refl, refl);
      locks = (refl, refl, refl, refl);
      no_result = (refl, refl, refl);
      kept = (refl, refl, refl, refl, refl, refl);
    },
  )

  abbrev Requeued : Db → RetryOutcome → Type 0
  Requeued db' o = (o ≡ RetryOutcome.ok) × Fresh db' × (count (running_of_job k) db'.attempts ≡ 0)

  abbrev Refused : RetryOutcome → Db → RetryOutcome → Type 0
  Refused refusal db' o = (o ≡ refusal) × (db' ≡ db)

  -- The outcome of a retry by the state that it finds, with and without --force.
  abbrev pub RetrySpec : Bool → JobState → Db → RetryOutcome → Type 0
  RetrySpec true JobState.running = Requeued
  RetrySpec true _ = Refused RetryOutcome.raced
  RetrySpec false JobState.queued = Refused RetryOutcome.already_queued
  RetrySpec false JobState.running = Refused RetryOutcome.running_unforced
  RetrySpec false JobState.done = Refused RetryOutcome.done
  RetrySpec false _ = Requeued

  module _ (force : Bool) where
    requeues :
        retry_refusal force row.state ≡ none
        → Requeued (retry_job k force now db).0 (retry_job k force now db).1
    unfolding retry_job write_retry add_event
    requeues e =
        rw (found, e, retry_job)
          (refl, write_retry-Fresh force, abandon-here k now db v row found force e)

    refuses :
        (o : RetryOutcome)
        → retry_refusal force row.state ≡ some o
        → Refused o (retry_job k force now db).0 (retry_job k force now db).1
    unfolding retry_job
    refuses o e = rw (found, e, retry_job) (refl, refl)

  retry_found-RetrySpec :
      (force : Bool) (s : JobState)
      → row.state ≡ s
      → RetrySpec force s (retry_job k force now db).0 (retry_job k force now db).1
  unfolding retry_refusal
  retry_found-RetrySpec true JobState.queued e = refuses true _ (rw e refl)
  retry_found-RetrySpec true JobState.running e = requeues true (rw e refl)
  retry_found-RetrySpec true JobState.done e = refuses true _ (rw e refl)
  retry_found-RetrySpec true JobState.failed e = refuses true _ (rw e refl)
  retry_found-RetrySpec true JobState.dead e = refuses true _ (rw e refl)
  retry_found-RetrySpec true JobState.canceled e = refuses true _ (rw e refl)
  retry_found-RetrySpec false JobState.queued e = refuses false _ (rw e refl)
  retry_found-RetrySpec false JobState.running e = refuses false _ (rw e refl)
  retry_found-RetrySpec false JobState.done e = refuses false _ (rw e refl)
  retry_found-RetrySpec false JobState.failed e = requeues false (rw e refl)
  retry_found-RetrySpec false JobState.dead e = requeues false (rw e refl)
  retry_found-RetrySpec false JobState.canceled e = requeues false (rw e refl)

  -- Retrying a job that exists, in a well-formed database: a dead, canceled or (reserved) failed job, or with --force a running one and no other, is
  -- queued and due at once, with no attempt and no crash counted, locked by nobody, with no result, and it has no running attempt left; in every other case the database is
  -- left alone with an outcome that names the reason.
  pub retry_job-RetrySpec :
      (force : Bool)
      → RetrySpec force row.state (retry_job k force now db).0 (retry_job k force now db).1
  retry_job-RetrySpec force = retry_found-RetrySpec force row.state refl
