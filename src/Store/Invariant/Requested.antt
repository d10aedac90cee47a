-- ===== src/Store/Invariant/Requested.antt =====
-- The invariant under retry_job and cancel_job.
use spoolctl.Base.{
  ℕ, ◌≡◌, refl, ◌∙◌, ap, inl, inr, Bool, true, false, none, some, arith, ◌==◌, is_some, Bool-cases,
  Option-cases,
}
use spoolctl.Models.{Time, Job, JobState, AttemptState, ErrorText, force_retried, FailureReason}
use spoolctl.Sql.{count}
use spoolctl.Store.Db.{Db, has_id, running_of_job, get_job}
use spoolctl.Store.Manual.{
  requeue_job, retry_refusal, abandon_if, write_retry, retry_job, cancel_queued_job,
  cancel_running_job, is_running_job, write_cancel_queued, write_cancel_running, cancel_running,
  cancel_found, cancel_job,
}
use spoolctl.Store.Reap.{may_redeliver}
use spoolctl.Store.Invariant.{JobOk, Inv}
use spoolctl.Store.Invariant.Effects.{get_job-id, add_event-Inv, SameTries, SameTries-refl}
use spoolctl.Store.Invariant.Edits.{get_job-edited, edited-Inv}
use spoolctl.Store.Invariant.Attempts.{closed-SameTries, count-closed, count-closed_other}

requeue_job-JobOk : (now : Time) (j : Job) → JobOk j → JobOk (requeue_job now j)
unfolding requeue_job may_redeliver
requeue_job-JobOk now j ok = ground (arith, ok.crashes_counted)

cancel_queued_job-JobOk :
    (now : Time) (j : Job) → j.state ≡ JobState.queued → JobOk j → JobOk (cancel_queued_job now j)
unfolding cancel_queued_job
cancel_queued_job-JobOk now j e ok = ground (arith, ok.crashes_counted)

cancel_running_job-JobOk : (now : Time) (j : Job) → JobOk j → JobOk (cancel_running_job now j)
unfolding cancel_running_job
cancel_running_job-JobOk now j ok = ground (arith, ok.crashes_counted)

module _ (k : ℕ) (now : Time) (db : Db) (v : Inv db) (row : Job)
    (found : get_job k db ≡ some row) where
  hit : has_id k row ≡ true
  hit = ground (arith, get_job-id k db row found)

  abandon-SameTries : (force : Bool) → SameTries db.attempts (abandon_if force k now db.attempts)
  unfolding abandon_if
  abandon-SameTries false = SameTries-refl db.attempts
  abandon-SameTries true =
      closed-SameTries k AttemptState.abandoned force_retried FailureReason.canceled now refl
        db.attempts

  abandon-other :
      (force : Bool) (i : ℕ)
      → (i == k) ≡ false
      → count (running_of_job i) (abandon_if force k now db.attempts)
        ≡ count (running_of_job i) db.attempts
  unfolding abandon_if
  abandon-other false i ne = refl
  abandon-other true i ne =
      count-closed_other k AttemptState.abandoned force_retried FailureReason.canceled now refl
        db.attempts i ne

  pub abandon-here :
      (force : Bool)
      → retry_refusal force row.state ≡ none
      → count (running_of_job k) (abandon_if force k now db.attempts) ≡ 0
  unfolding abandon_if retry_refusal
  abandon-here false e = ground (arith, v.one_open k, found, e)
  abandon-here true e =
      count-closed k AttemptState.abandoned force_retried FailureReason.canceled now refl
        db.attempts

  write_retry-Inv :
      (force : Bool) → retry_refusal force row.state ≡ none → Inv (write_retry k force now db)
  unfolding write_retry
  write_retry-Inv force e =
      add_event-Inv k now _ none _ _
        (ap is_some (get_job-edited db k row (has_id k) (requeue_job now) _ found hit same_id))
        (edited-Inv db k row (has_id k) (requeue_job now) _ found hit same_id (λ j t. ground arith)
          (requeue_job-JobOk now row) (abandon-SameTries force) (abandon-other force)
          (abandon-here force e ∙ unfold requeue_job in refl) v)
    where
      same_id : (j : Job) → (requeue_job now j).id ≡ j.id
      same_id j = unfold requeue_job in refl

  write_cancel_queued-Inv : row.state ≡ JobState.queued → Inv (write_cancel_queued k now db)
  unfolding write_cancel_queued
  write_cancel_queued-Inv e =
      add_event-Inv k now _ none _ _
        (ap is_some
          (get_job-edited db k row (has_id k) (cancel_queued_job now) _ found hit same_id))
        (edited-Inv db k row (has_id k) (cancel_queued_job now) db.attempts found hit same_id
          (λ j t. ground arith) (cancel_queued_job-JobOk now row e) (SameTries-refl db.attempts)
          (λ i ne. refl) (unfold cancel_queued_job in ground (arith, v.one_open k, found, e)) v)
    where
      same_id : (j : Job) → (cancel_queued_job now j).id ≡ j.id
      same_id j = unfold cancel_queued_job in refl

  write_cancel_running-Inv : row.state ≡ JobState.running → Inv (write_cancel_running k now db)
  unfolding write_cancel_running
  write_cancel_running-Inv e =
      add_event-Inv k now _ none _ _
        (ap is_some (
          get_job-edited db k row (is_running_job k) (cancel_running_job now) _ found runs same_id))
        (edited-Inv db k row (is_running_job k) (cancel_running_job now) _ found runs same_id
          (λ j t. ground arith) (cancel_running_job-JobOk now row)
          (closed-SameTries k AttemptState.canceled ErrorText.canceled FailureReason.canceled now
            refl db.attempts)
          (count-closed_other k AttemptState.canceled ErrorText.canceled FailureReason.canceled now
            refl db.attempts)
          (count-closed k AttemptState.canceled ErrorText.canceled FailureReason.canceled now refl
              db.attempts
            ∙ unfold cancel_running_job in refl)
          v)
    where
      runs : is_running_job k row ≡ true
      runs = ground (arith, hit, e)

      same_id : (j : Job) → (cancel_running_job now j).id ≡ j.id
      same_id j = unfold cancel_running_job in refl

  cancel_running-Inv : row.state ≡ JobState.running → Inv (cancel_running k now row db).0
  unfolding cancel_running
  cancel_running-Inv e = elim (Bool-cases (count (is_running_job k) db.jobs == 0)) [
    | inl t ↦ rw t v
    | inr t ↦ rw t (write_cancel_running-Inv e)
  ]

  cancel_found-Inv :
      (allow : Bool) (s : JobState) → row.state ≡ s → Inv (cancel_found k now allow row s db).0
  unfolding cancel_found
  cancel_found-Inv allow JobState.queued e = write_cancel_queued-Inv e
  cancel_found-Inv false JobState.running e = v
  cancel_found-Inv true JobState.running e = cancel_running-Inv e
  cancel_found-Inv allow _ e = v

module _ (k : ℕ) (now : Time) (db : Db) (v : Inv db) where
  -- A manual retry keeps the database well formed, on each of its outcomes.
  pub retry_job-Inv : (force : Bool) → Inv (retry_job k force now db).0
  unfolding retry_job
  retry_job-Inv force = elim (Option-cases (get_job k db)) [
    | inl e ↦ rw (e, retry_job) v
    | inr (row, e) ↦ elim (Option-cases (retry_refusal force row.state)) [
      | inl go ↦ rw (e, go, retry_job) (write_retry-Inv k now db v row e force go)
      | inr (o, no_go) ↦ rw (e, no_go, retry_job) v
    ]
  ]

  -- So does a cancellation.
  pub cancel_job-Inv : (allow : Bool) → Inv (cancel_job k now allow db).0
  unfolding cancel_job
  cancel_job-Inv allow = elim (Option-cases (get_job k db)) [
    | inl e ↦ rw (e, cancel_job) v
    | inr (row, e) ↦ rw (e, cancel_job) (cancel_found-Inv k now db v row e allow row.state refl)
  ]
