-- ===== src/Store/Lease/Recorded.antt =====
-- A lease through the failures and the heartbeats that others record.
use spoolctl.Base.{
  ℕ, ◌≡◌, refl, ◌∙◌, subst, inl, inr, Bool, true, false, Option, some, arith, String, Option-cases,
  Bool-cases,
}
use spoolctl.Base.Int.{ℤ}
use spoolctl.Models.{Time, Job, JobState, ErrorText, FailureReason, is_running}
use spoolctl.Store.Db.{Db, owned_by, get_job, get_attempt, add_event}
use spoolctl.Store.Invariant.{Inv}
use spoolctl.Store.Invariant.Recorded.{owns, Holds, first-owned}
use spoolctl.Store.Lifecycle.Writes.{updated-Writes, noted, noted_dead}
use spoolctl.Store.Lease.Writes.{Holds-Writes}
use spoolctl.Store.Record.{
  FailureKind, attempt_fails, commit_failure, write_failure, fail_job, may_retry, record_failure,
  update_heartbeat, reason_fits, reason_or_default, add_dead_event,
}
use spoolctl.Store.Lease.Kept.{settled-Holds}

pub dead-attempts :
    (retry : Bool) (k : ℕ) (now : Time) (w : String) (db : Db)
    → (add_dead_event retry k now w db).attempts ≡ db.attempts
unfolding add_dead_event add_event
dead-attempts true k now w db = refl
dead-attempts false k now w db = refl

fail_job-stops :
    (retry : Bool) (code : Option ℤ) (error : ErrorText) (now : Time) (j : Job)
    → is_running (fail_job retry code error now j).state ≡ false
unfolding fail_job
fail_job-stops true code error now j = refl
fail_job-stops false code error now j = refl

module _ (db : Db) (k attempt_id : ℕ) (w : String) (pid : ℕ)
    (holds : Holds db k attempt_id w pid) where
  module _ (k' attempt_id' : ℕ) (w' : String) (pid' : ℕ) (v : Inv db)
      (holds' : Holds db k' attempt_id' w' pid') (kind : FailureKind) (code : Option ℤ)
      (error : ErrorText) (now : Time) where
    write_failure-Holds :
        (reason : FailureReason) (retry : Bool) (row : Job)
        → get_job k' db ≡ some row
        → owns w' pid' row ≡ true
        → Holds
            (write_failure k' attempt_id' w' pid' kind code error now reason retry db)
            k
            attempt_id
            w
            pid
    write_failure-Holds reason retry row e own =
        settled-Holds db k attempt_id w pid holds k' attempt_id' w' pid' v holds'
          (write_failure k' attempt_id' w' pid' kind code error now reason retry db)
          (fail_job retry code error now) (attempt_fails kind code error reason now) row e own
          (unfold write_failure in
            noted_dead _ _ _ _ (
              noted _ _ _ _ _ (
                updated-Writes (owned_by k' w' pid') (fail_job retry code error now) db _
                  (λ j. unfold fail_job in refl) refl refl)))
          (unfold write_failure in dead-attempts retry k' now w' _ ∙ unfold add_event in refl)
          (fail_job-stops retry code error now) (λ a. refl)

    commit_failure-Holds :
        (reason : FailureReason)
        → Holds
            (commit_failure k' attempt_id' w' pid' kind code error now reason db).0
            k
            attempt_id
            w
            pid
    unfolding commit_failure
    commit_failure-Holds reason = elim (Option-cases (get_job k' db)) [
      | inl e ↦ rw (first-owned k' w' pid' db v, e, commit_failure) holds
      | inr (row, e) ↦ elim (Bool-cases (owns w' pid' row)) [
        | inl own ↦
            rw (first-owned k' w' pid' db v, e, own, commit_failure)
              (write_failure-Holds reason (may_retry row) row e own)
        | inr away ↦ rw (first-owned k' w' pid' db v, e, away, commit_failure) holds
      ]
    ]

    pub record_failure-Holds :
        (given : Option FailureReason) (db' : Db) (state : Option JobState)
        → record_failure k' attempt_id' w' pid' kind code error now given db ≡ some (db', state)
        → Holds db' k attempt_id w pid
    unfolding record_failure
    record_failure-Holds given db' state e =
        let reason = reason_or_default kind code given in
        elim (Bool-cases (reason_fits kind code reason)) [
          | inl t ↦
              subst (λ d. Holds d k attempt_id w pid) (ground (arith, e, t))
                (commit_failure-Holds reason)
          | inr t ↦ cc (rw t at e)
        ]

  pub update_heartbeat-Holds :
      (k' : ℕ) (w' : String) (pid' : ℕ) (now : Time)
      → Holds (update_heartbeat k' w' pid' now db).0 k attempt_id w pid
  unfolding update_heartbeat get_attempt
  update_heartbeat-Holds k' w' pid' now =
      Holds-Writes db _ k attempt_id w pid (owned_by k' w' pid')
        (λ j. record j { heartbeat_at = some now })
        (updated-Writes (owned_by k' w' pid') _ db _ (λ j. refl) refl refl)
        (λ row found hit own. own)
        (λ row found own o. record { row = o.row; found = o.found; of_k = o.of_k; runs = o.runs })
        holds
