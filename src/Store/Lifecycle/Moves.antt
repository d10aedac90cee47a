-- ===== src/Store/Lifecycle/Moves.antt =====
-- What a worker's transactions do to a job, in the abstract view: claim_next, record_success,
-- record_failure, update_heartbeat.
use spoolctl.Base.{
  ℕ, ◌≡◌, refl, sym, subst, inl, inr, Bool, true, false, Option, some, String, arith, ◌==◌,
  Option-cases, Bool-cases, and_true,
}
use spoolctl.Base.Int.{ℤ}
use spoolctl.Models.{Time, Job, JobState, ErrorText, FailureReason, is_running, is_queued}
use spoolctl.Models.States.{running_state, queued_state}
use spoolctl.Sql.{count, first}
use spoolctl.Store.Db.{Db, has_id, owned_by, get_job}
use spoolctl.Store.Claim.{claim_next, take_job, lock, slots_full, next_eligible}
use spoolctl.Store.Claim.Choice.{next_eligible-eligible}
use spoolctl.Store.Record.{
  FailureKind, record_success, write_success, finish_done, commit_failure, write_failure, fail_job,
  may_retry, retry_state, record_failure, update_heartbeat, reason_or_default,
}
use spoolctl.Store.Invariant.{Inv}
use spoolctl.Store.Lifecycle.{life, Turn, Move, starts, succeeds, goes_back, dies, stays}
use spoolctl.Store.Lifecycle.Writes.{updated-Writes, write-Move, row-Move, noted, noted_dead}

-- A running job that is retried or not.
pub retry-Turn : (retry : Bool) (s : JobState) → is_running s ≡ true → Turn s (retry_state retry)
retry-Turn true s h = subst (λ t. Turn t JobState.queued) (sym (running_state s h)) goes_back
retry-Turn false s h = subst (λ t. Turn t JobState.dead) (sym (running_state s h)) dies

module _ (db : Db) (i : ℕ) where
  pub record_success-Move :
      (k attempt_id : ℕ) (w : String) (pid : ℕ) (now : Time)
      → Move (life i db) (life i (record_success k attempt_id w pid now db).0)
  unfolding record_success
  record_success-Move k attempt_id w pid now =
      elim (Bool-cases (count (owned_by k w pid) db.jobs == 0)) [
        | inl e ↦ rw e (stays _)
        | inr e ↦ rw e (
            write-Move (owned_by k w pid) (finish_done now) db _
              (unfold write_success in
                noted _ _ _ _ _
                  (updated-Writes (owned_by k w pid) (finish_done now) db _ (λ j. refl) refl refl))
              (λ n j f t. inr (
                subst (λ s. Turn s JobState.done) (sym (running_state j.state (ground arith)))
                  succeeds))
              i)
      ]

  write_failure-Move :
      (k attempt_id : ℕ) (w : String) (pid : ℕ) (kind : FailureKind) (code : Option ℤ)
      (error : ErrorText) (now : Time) (reason : FailureReason) (retry : Bool)
      → Move
          (life i db)
          (life i (write_failure k attempt_id w pid kind code error now reason retry db))
  unfolding write_failure
  write_failure-Move k attempt_id w pid kind code error now reason retry =
      write-Move (owned_by k w pid) (fail_job retry code error now) db _
        (noted_dead _ _ _ _ (
          noted _ _ _ _ _ (
            updated-Writes (owned_by k w pid) (fail_job retry code error now) db _
              (λ j. unfold fail_job in refl) refl refl)))
        (λ n j f t. inr (unfold fail_job in retry-Turn retry j.state (ground arith))) i

  pub record_failure-Move :
      (k attempt_id : ℕ) (w : String) (pid : ℕ) (kind : FailureKind) (code : Option ℤ)
      (error : ErrorText) (now : Time) (given : Option FailureReason) (db' : Db)
      (state : Option JobState)
      → record_failure k attempt_id w pid kind code error now given db ≡ some (db', state)
      → Move (life i db) (life i db')
  unfolding record_failure commit_failure
  record_failure-Move k attempt_id w pid kind code error now given db' state e =
      let reason = reason_or_default kind code given in
      let committed : commit_failure k attempt_id w pid kind code error now reason db
          ≡ (db', state) =
        ground (arith, e) in
      subst (λ s. Move (life i db) (life i s.0)) committed (by_row reason)
    where
      by_row :
          (reason : FailureReason)
          → Move
              (life i db)
              (life i (commit_failure k attempt_id w pid kind code error now reason db).0)
      by_row reason = elim (Option-cases (first (owned_by k w pid) db.jobs)) [
        | inl e ↦ rw (e, commit_failure) (stays _)
        | inr (row, e) ↦
            rw (e, commit_failure)
              (write_failure-Move k attempt_id w pid kind code error now reason (may_retry row))
      ]

  pub update_heartbeat-Move :
      (k : ℕ) (w : String) (pid : ℕ) (now : Time)
      → Move (life i db) (life i (update_heartbeat k w pid now db).0)
  unfolding update_heartbeat
  update_heartbeat-Move k w pid now =
      write-Move (owned_by k w pid) (λ j. record j { heartbeat_at = some now }) db _
        (updated-Writes (owned_by k w pid) _ db _ (λ j. refl) refl refl) (λ n j f t. inl refl) i

  take_job-Move :
      (w : String) (pid : ℕ) (now : Time) (out_root : String) (row : Job)
      → get_job row.id db ≡ some row
      → is_queued row.state ≡ true
      → Move (life i db) (life i (take_job w pid now out_root row.id db))
  unfolding take_job
  take_job-Move w pid now out_root row found queued =
      row-Move row.id row (has_id row.id) (lock w pid now) db _ found (λ j t. t)
        (subst (λ s. Turn s JobState.running) (sym (queued_state row.state queued)) starts)
        (noted _ _ _ _ _
          (updated-Writes (has_id row.id) (lock w pid now) db _ (λ j. refl) refl refl))
        i

  pub claim_next-Move :
      (w : String) (pid : ℕ) (now : Time) (out_root lane : String) (slots : Option ℕ)
      → Inv db
      → Move (life i db) (life i (claim_next w pid now out_root lane slots db).0)
  unfolding claim_next
  claim_next-Move w pid now out_root lane slots v = elim (Bool-cases (slots_full lane slots db)) [
    | inl full ↦ rw full (stays _)
    | inr free ↦ elim (Option-cases (next_eligible now lane db)) [
      | inl e ↦ rw (free, e, claim_next) (stays _)
      | inr (row, e) ↦
          let (eligible, found) = next_eligible-eligible now lane db row v.job_ids e in
          rw (free, e, claim_next)
            (take_job-Move w pid now out_root row found (and_true _ _ eligible).0)
    ]
  ]
