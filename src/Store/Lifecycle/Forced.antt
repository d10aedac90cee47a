-- ===== src/Store/Lifecycle/Forced.antt =====
-- What reap, retry_job and cancel_job do to a job, in the abstract view.
use spoolctl.Base.{
  ℕ, suc, ◌≡◌, ◌≢◌, refl, sym, subst, inl, inr, Bool, true, false, none, some, String, ◌==◌,
  Option-cases, Bool-cases, and_true,
}
use spoolctl.Models.{Time, Job, JobState, is_running}
use spoolctl.Sql.{count}
use spoolctl.Sql.Laws.{All-first}
use spoolctl.Store.Db.{Db, has_id, get_job}
use spoolctl.Store.Reap.{reap, write_reap, crash_job, may_redeliver}
use spoolctl.Store.Manual.{
  requeue_job, retry_refusal, write_retry, retry_job, cancel_queued_job, cancel_running_job,
  is_running_job, write_cancel_queued, write_cancel_running, cancel_running, cancel_found,
  cancel_job,
}
use spoolctl.Store.Invariant.{Inv, JobOk}
use spoolctl.Store.Invariant.Recovered.{first-reapable, is_lost}
use spoolctl.Store.Lifecycle.{
  life, Turn, Move, withdrawn, stopped, revived, reinstated, goes_back, stays,
}
use spoolctl.Store.Lifecycle.Writes.{updated-Writes, row-Move, noted, noted_dead}
use spoolctl.Store.Lifecycle.Moves.{retry-Turn}

-- A manual retry that is not refused turns the job to queued.
requeue-Turn :
    (force : Bool) (s : JobState)
    → s ≢ JobState.failed
    → retry_refusal force s ≡ none
    → Turn s JobState.queued
unfolding retry_refusal
requeue-Turn true JobState.running ok e = goes_back
requeue-Turn true JobState.queued ok e = cc e
requeue-Turn true JobState.done ok e = cc e
requeue-Turn true JobState.failed ok e = cc e
requeue-Turn true JobState.dead ok e = cc e
requeue-Turn true JobState.canceled ok e = cc e
requeue-Turn false JobState.running ok e = cc e
requeue-Turn false JobState.queued ok e = cc e
requeue-Turn false JobState.done ok e = cc e
requeue-Turn false JobState.failed ok e = absurd (ok refl)
requeue-Turn false JobState.dead ok e = revived
requeue-Turn false JobState.canceled ok e = reinstated

module _ (k : ℕ) (now : Time) (db : Db) (v : Inv db) (i : ℕ) where
  write_reap-Move :
      (pid : ℕ) (cutoff : Time) (reaper : String) (row : Job)
      → get_job k db ≡ some row
      → is_running row.state ≡ true
      → (retry : Bool) → Move (life i db) (life i (write_reap k pid cutoff now reaper retry db))
  unfolding write_reap
  write_reap-Move pid cutoff reaper row found runs retry =
      row-Move k row (has_id k) (crash_job retry now) db _ found (λ j t. t)
        (unfold crash_job in retry-Turn retry row.state runs)
        (noted_dead _ _ _ _ (
          noted _ _ _ _ _ (
            updated-Writes (has_id k) (crash_job retry now) db _ (λ j. unfold crash_job in refl)
              refl refl)))
        i

  pub reap-Move :
      (pid : ℕ) (cutoff : Time) (reaper : String)
      → Move (life i db) (life i (reap k pid cutoff now reaper db).0)
  unfolding reap
  reap-Move pid cutoff reaper = elim (Option-cases (get_job k db)) [
    | inl e ↦ rw (first-reapable k pid cutoff db v, e, reap) (stays _)
    | inr (row, e) ↦ elim (Bool-cases (is_lost pid cutoff row)) [
      | inl lost ↦
          rw (first-reapable k pid cutoff db v, e, lost, reap)
            (write_reap-Move pid cutoff reaper row e (and_true _ _ lost).0
              (may_redeliver row.max_crashes (suc row.crashes)))
      | inr held ↦ rw (first-reapable k pid cutoff db v, e, held, reap) (stays _)
    ]
  ]

  never_failed_at : (row : Job) → get_job k db ≡ some row → row.state ≢ JobState.failed
  unfolding get_job
  never_failed_at row found = (All-first JobOk (has_id k) db.jobs row v.jobs_ok found).never_failed

  write_retry-Move :
      (force : Bool) (row : Job)
      → get_job k db ≡ some row
      → retry_refusal force row.state ≡ none
      → Move (life i db) (life i (write_retry k force now db))
  unfolding write_retry
  write_retry-Move force row e go =
      row-Move k row (has_id k) (requeue_job now) db _ e (λ j t. t)
        (unfold requeue_job in requeue-Turn force row.state (never_failed_at row e) go)
        (noted _ _ _ _ _ (
          updated-Writes (has_id k) (requeue_job now) db _ (λ j. unfold requeue_job in refl) refl
            refl))
        i

  pub retry_job-Move : (force : Bool) → Move (life i db) (life i (retry_job k force now db).0)
  unfolding retry_job
  retry_job-Move force = elim (Option-cases (get_job k db)) [
    | inl e ↦ rw (e, retry_job) (stays _)
    | inr (row, e) ↦ elim (Option-cases (retry_refusal force row.state)) [
      | inl go ↦ rw (e, go, retry_job) (write_retry-Move force row e go)
      | inr (o, no_go) ↦ rw (e, no_go, retry_job) (stays _)
    ]
  ]

  canceled-Move :
      (allow : Bool) (row : Job) (s : JobState)
      → get_job k db ≡ some row
      → row.state ≡ s
      → Move (life i db) (life i (cancel_found k now allow row s db).0)
  unfolding cancel_found write_cancel_queued
  canceled-Move allow row JobState.queued found e =
      row-Move k row (has_id k) (cancel_queued_job now) db _ found (λ j t. t)
        (unfold cancel_queued_job in subst (λ s. Turn s JobState.canceled) (sym e) withdrawn)
        (noted _ _ _ _ _ (
          updated-Writes (has_id k) (cancel_queued_job now) db _
            (λ j. unfold cancel_queued_job in refl) refl refl))
        i
  canceled-Move false row JobState.running found e = stays _
  canceled-Move true row JobState.running found e =
      unfold cancel_running write_cancel_running in
      elim (Bool-cases (count (is_running_job k) db.jobs == 0)) [
        | inl t ↦ rw t (stays _)
        | inr t ↦ rw t (
            row-Move k row (is_running_job k) (cancel_running_job now) db _ found
              (λ j h. (and_true _ _ h).0)
              (unfold cancel_running_job in subst (λ s. Turn s JobState.canceled) (sym e) stopped)
              (noted _ _ _ _ _ (
                updated-Writes (is_running_job k) (cancel_running_job now) db _
                  (λ j. unfold cancel_running_job in refl) refl refl))
              i)
      ]
  canceled-Move allow row _ found e = stays _

  pub cancel_job-Move : (allow : Bool) → Move (life i db) (life i (cancel_job k now allow db).0)
  unfolding cancel_job
  cancel_job-Move allow = elim (Option-cases (get_job k db)) [
    | inl e ↦ rw (e, cancel_job) (stays _)
    | inr (row, e) ↦ rw (e, cancel_job) (canceled-Move allow row row.state e refl)
  ]
