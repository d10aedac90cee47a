-- ===== src/Store/Lease/Forced.antt =====
-- A lease through reaps, manual retries and cancellations.
use spoolctl.Base.{
  ℕ, suc, ◌≡◌, refl, ◌∙◌, inl, inr, Bool, true, false, some, arith, String, ◌==◌, Option-cases,
  Bool-cases,
}
use spoolctl.Models.{
  Time, Job, Attempt, AttemptState, JobState, ErrorText, FailureReason, force_retried, worker_died,
}
use spoolctl.Sql.{update, count}
use spoolctl.Store.Db.{Db, has_id, running_of_job, get_job, get_attempt, add_event}
use spoolctl.Store.Invariant.{Inv}
use spoolctl.Store.Invariant.Attempts.{Open}
use spoolctl.Store.Invariant.Effects.{get_job-id}
use spoolctl.Store.Invariant.Recorded.{Holds}
use spoolctl.Store.Lifecycle.Writes.{updated-Writes, noted, noted_dead}
use spoolctl.Store.Lease.Writes.{Open-update, owns-running}
use spoolctl.Store.Reap.{reap, write_reap, crash_job, may_redeliver, close_attempt}
use spoolctl.Store.Manual.{
  requeue_job, retry_refusal, abandon_if, write_retry, retry_job, cancel_queued_job,
  cancel_running_job, is_running_job, write_cancel_queued, write_cancel_running, cancel_running,
  cancel_found, cancel_job,
}
use spoolctl.Store.Invariant.Recovered.{first-reapable, is_lost, crash_job-stops}
use spoolctl.Store.Lease.Kept.{ended-Holds}
use spoolctl.Store.Lease.Recorded.{dead-attempts}

-- Attempts of one job are closed: those of another stay open.
Open-closed :
    (db db' : Db) (k k' attempt_id : ℕ) (g : Attempt → Attempt)
    → db'.attempts ≡ update (running_of_job k') g db.attempts
    → ((a : Attempt) → (g a).id ≡ a.id)
    → Open db k attempt_id
    → (k == k') ≡ false
    → Open db' k attempt_id
Open-closed db db' k k' attempt_id g tries same_id o away =
    Open-update db db' k attempt_id (running_of_job k') g tries same_id o
      (ground (arith, o.of_k, away))

Open-same :
    (db db' : Db) (k attempt_id : ℕ)
    → db'.attempts ≡ db.attempts
    → Open db k attempt_id
    → Open db' k attempt_id
unfolding get_attempt
Open-same db db' k attempt_id same o = record {
  row = o.row;
  found = rw same o.found;
  of_k = o.of_k;
  runs = o.runs;
}

module _ (db : Db) (k attempt_id : ℕ) (w : String) (pid : ℕ) (holds : Holds db k attempt_id w pid)
    (k' : ℕ) (now : Time) where
  here_hit : (row : Job) → get_job k db ≡ some row → (k == k') ≡ true → has_id k' row ≡ true
  here_hit row found here = ground (arith, get_job-id k db row found, here)

  write_reap-Holds :
      (pid' : ℕ) (cutoff : Time) (reaper : String) (retry : Bool)
      → Holds (write_reap k' pid' cutoff now reaper retry db) k attempt_id w pid
  write_reap-Holds pid' cutoff reaper retry =
      ended-Holds db k attempt_id w pid holds (write_reap k' pid' cutoff now reaper retry db) k'
        (has_id k') (crash_job retry now)
        (unfold write_reap in
          noted_dead _ _ _ _ (
            noted _ _ _ _ _ (
              updated-Writes (has_id k') (crash_job retry now) db _ (λ j. unfold crash_job in refl)
                refl refl)))
        (crash_job-stops retry now) (λ row found own. here_hit row found)
        (Open-closed db (write_reap k' pid' cutoff now reaper retry db) k k' attempt_id
          (close_attempt AttemptState.abandoned worker_died FailureReason.worker_crash now)
          (unfold write_reap in dead-attempts retry k' now reaper _ ∙ unfold add_event in refl)
          (λ a. refl))

  pub reap-Holds :
      (pid' : ℕ) (cutoff : Time) (reaper : String)
      → Inv db
      → Holds (reap k' pid' cutoff now reaper db).0 k attempt_id w pid
  unfolding reap
  reap-Holds pid' cutoff reaper v = elim (Option-cases (get_job k' db)) [
    | inl e ↦ rw (first-reapable k' pid' cutoff db v, e, reap) holds
    | inr (row, e) ↦ elim (Bool-cases (is_lost pid' cutoff row)) [
      | inl lost ↦
          rw (first-reapable k' pid' cutoff db v, e, lost, reap)
            (write_reap-Holds pid' cutoff reaper (may_redeliver row.max_crashes (suc row.crashes)))
      | inr held ↦ rw (first-reapable k' pid' cutoff db v, e, held, reap) holds
    ]
  ]

  Open-abandon :
      (force : Bool) (db' : Db)
      → db'.attempts ≡ abandon_if force k' now db.attempts
      → Open db k attempt_id
      → (k == k') ≡ false
      → Open db' k attempt_id
  unfolding abandon_if
  Open-abandon true db' tries o away =
      Open-closed db db' k k' attempt_id
        (close_attempt AttemptState.abandoned force_retried FailureReason.canceled now) tries
        (λ a. refl) o away
  Open-abandon false db' tries o away = Open-same db db' k attempt_id tries o

  write_retry-Holds : (force : Bool) → Holds (write_retry k' force now db) k attempt_id w pid
  write_retry-Holds force =
      ended-Holds db k attempt_id w pid holds (write_retry k' force now db) k' (has_id k')
        (requeue_job now)
        (unfold write_retry in
          noted _ _ _ _ _ (
            updated-Writes (has_id k') (requeue_job now) db _ (λ j. unfold requeue_job in refl) refl
              refl))
        (λ j. unfold requeue_job in refl) (λ row found own. here_hit row found)
        (Open-abandon force (write_retry k' force now db) (unfold write_retry add_event in refl))

  pub retry_job-Holds : (force : Bool) → Holds (retry_job k' force now db).0 k attempt_id w pid
  unfolding retry_job
  retry_job-Holds force = elim (Option-cases (get_job k' db)) [
    | inl e ↦ rw (e, retry_job) holds
    | inr (row, e) ↦ elim (Option-cases (retry_refusal force row.state)) [
      | inl go ↦ rw (e, go, retry_job) (write_retry-Holds force)
      | inr (o, no_go) ↦ rw (e, no_go, retry_job) holds
    ]
  ]

  write_cancel_queued-Holds : Holds (write_cancel_queued k' now db) k attempt_id w pid
  write_cancel_queued-Holds =
      ended-Holds db k attempt_id w pid holds (write_cancel_queued k' now db) k' (has_id k')
        (cancel_queued_job now)
        (unfold write_cancel_queued in
          noted _ _ _ _ _ (
            updated-Writes (has_id k') (cancel_queued_job now) db _
              (λ j. unfold cancel_queued_job in refl) refl refl))
        (λ j. unfold cancel_queued_job in refl) (λ row found own. here_hit row found)
        (λ o away.
          Open-same db (write_cancel_queued k' now db) k attempt_id
            (unfold write_cancel_queued add_event in refl) o)

  write_cancel_running-Holds : Holds (write_cancel_running k' now db) k attempt_id w pid
  write_cancel_running-Holds =
      ended-Holds db k attempt_id w pid holds (write_cancel_running k' now db) k'
        (is_running_job k') (cancel_running_job now)
        (unfold write_cancel_running in
          noted _ _ _ _ _ (
            updated-Writes (is_running_job k') (cancel_running_job now) db _
              (λ j. unfold cancel_running_job in refl) refl refl))
        (λ j. unfold cancel_running_job in refl)
        (λ row found own here. ground (arith, here_hit row found here, owns-running w pid row own))
        (Open-closed db (write_cancel_running k' now db) k k' attempt_id
          (close_attempt AttemptState.canceled ErrorText.canceled FailureReason.canceled now)
          (unfold write_cancel_running add_event in refl) (λ a. refl))

  cancel_found-Holds :
      (allow : Bool) (row : Job) (s : JobState)
      → Holds (cancel_found k' now allow row s db).0 k attempt_id w pid
  unfolding cancel_found cancel_running
  cancel_found-Holds allow row JobState.queued = write_cancel_queued-Holds
  cancel_found-Holds false row JobState.running = holds
  cancel_found-Holds true row JobState.running =
      elim (Bool-cases (count (is_running_job k') db.jobs == 0)) [
        | inl t ↦ rw t holds
        | inr t ↦ rw t write_cancel_running-Holds
      ]
  cancel_found-Holds allow row _ = holds

  pub cancel_job-Holds : (allow : Bool) → Holds (cancel_job k' now allow db).0 k attempt_id w pid
  unfolding cancel_job
  cancel_job-Holds allow = elim (Option-cases (get_job k' db)) [
    | inl e ↦ rw (e, cancel_job) holds
    | inr (row, e) ↦ rw (e, cancel_job) (cancel_found-Holds allow row row.state)
  ]
