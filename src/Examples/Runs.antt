-- ===== src/Examples/Runs.antt =====
-- The theorems on the store and the worker, at the small queue.
use spoolctl.Base.{◌≡◌, ◌≤◌, ◌*◌, refl, arith, true, none, some, All, ◌↔◌, ◌⊎◌}
use spoolctl.Base.Int.{pos}
use spoolctl.Models.{JobState, Job, FailureReason, exit_with, second}
use spoolctl.Sql.{count, first, select, update, order_by}
use spoolctl.Examples.States.{
  submitted, claimed, running_job, claimed-Reach, submitted-Inv, claimed-Inv, claimed_job,
}
use spoolctl.Store.Db.{Db, get_job, get_attempt}
use spoolctl.Store.Submit.{add_job_checked}
use spoolctl.Store.History.{Reach-empty-Inv}
use spoolctl.Store.Invariant.{Inv}
use spoolctl.Store.Claim.{claim_next, occupies}
use spoolctl.Store.Claim.Effect.{claim_next-Granted, Granted}
use spoolctl.Store.Claim.Slots.{IsFull, NothingReady, claim_next-none_iff, claim_next-le_slots}
use spoolctl.Store.Record.{FailureKind, fail_job, commit_failure, record_success, update_heartbeat}
use spoolctl.Store.Record.Budget.{commit_failure-Outcome, Outcome}
use spoolctl.Store.Record.Ownership.{record-not_owned}
use spoolctl.Store.Manual.{cancel_job, retry_job}
use spoolctl.Store.Manual.Stale.{cancel_job-stale}
use spoolctl.Store.Manual.Outcomes.{
  CancelSpec, RetrySpec, cancel_job-CancelSpec, retry_job-RetrySpec,
}
use spoolctl.Worker.Liveness.{
  alive, ps_ended, Probe, Dead, is_worker_pid_dead, is_worker_pid_dead-iff-Dead,
}
use spoolctl.Worker.Reaping.{Oracle, KeepsRow, last_or, pass_rounds, reap_pass, reap_pass-spares}
use spoolctl.Store.Invariant.Requested.{cancel_job-Inv}
use spoolctl.Base.{All, ℕ, not, ◌==◌}
use spoolctl.Models.{reap_threshold}

Reach-empty-Inv_example : Inv claimed
Reach-empty-Inv_example = Reach-empty-Inv claimed-Reach

claim_next-Granted_example :
    Granted "w1" 7 200 "/out" "default"
      (some 1)
      submitted
      submitted-Inv
      (some running_job)
      (get_attempt 1 claimed)
unfolding get_job get_attempt first add_job_checked claim_next count order_by select update
claim_next-Granted_example =
    claim_next-Granted "w1" 7 200 "/out" "default" (some 1) submitted submitted-Inv
      (some running_job) (get_attempt 1 claimed) refl

-- The job with its one failure, queued again.
abbrev failed_once : Job
failed_once = fail_job true (some (pos 2)) (exit_with (pos 2)) 300 running_job

commit_failure-Outcome_example :
    Outcome 1 1 "w1" 7 FailureKind.failed
      (some (pos 2))
      (exit_with (pos 2))
      300
      FailureReason.process_exit
      claimed
      claimed-Inv
      running_job
      claimed_job
      refl
      failed_once
      JobState.queued
unfolding get_job first add_job_checked claim_next count order_by select update commit_failure
    fail_job
commit_failure-Outcome_example =
    commit_failure-Outcome 1 1 "w1" 7 FailureKind.failed (some (pos 2)) (exit_with (pos 2)) 300
      FailureReason.process_exit claimed claimed-Inv running_job claimed_job refl failed_once
      JobState.queued refl refl

-- An hour later the heartbeat is stale, and the owner, of pid 7, is the only process not proved dead.
-- Before the round the operator cancels the job.
abbrev others_dead : Oracle
others_dead pid = not (pid == 7)

abbrev canceled_between : ℕ → Db → Db
canceled_between i db = (cancel_job 1 400 true db).0

reap_pass-spares_example :
    All
      (KeepsRow others_dead 1)
      (pass_rounds others_dead reap_threshold (3600 * second) "w2" canceled_between claimed)
    × (last_or claimed
          (pass_rounds others_dead reap_threshold (3600 * second) "w2" canceled_between claimed)
        ≡ (reap_pass others_dead reap_threshold (3600 * second) "w2" canceled_between claimed).0)
reap_pass-spares_example =
    reap_pass-spares others_dead reap_threshold (3600 * second) "w2" canceled_between
      (λ i db v. cancel_job-Inv 1 400 db v true) claimed 1 claimed-Inv

cancel_job-stale_example :
    ((update_heartbeat 1 "w1" 7 500 (cancel_job 1 400 true claimed).0).1 ≡ 0)
    × (record_success 1 1 "w1" 7 500 (cancel_job 1 400 true claimed).0
        ≡ ((cancel_job 1 400 true claimed).0, none))
    × (commit_failure 1 1 "w1" 7 FailureKind.timed_out none
          (exit_with (pos 2))
          500
          FailureReason.timeout
          (cancel_job 1 400 true claimed).0
        ≡ ((cancel_job 1 400 true claimed).0, none))
cancel_job-stale_example =
    cancel_job-stale 1 1 "w1" 7 400 500 FailureKind.timed_out none (exit_with (pos 2))
      FailureReason.timeout claimed running_job claimed-Inv claimed_job refl

-- Another worker than the owner.
record-not_owned_example :
    (record_success 1 1 "w2" 8 300 claimed ≡ (claimed, none))
    × (commit_failure 1 1 "w2" 8 FailureKind.failed
          (some (pos 2))
          (exit_with (pos 2))
          300
          FailureReason.process_exit
          claimed
        ≡ (claimed, none))
unfolding get_job first add_job_checked claim_next count order_by select update
record-not_owned_example =
    record-not_owned 1 1 "w2" 8 300 claimed claimed-Inv FailureKind.failed (some (pos 2))
      (exit_with (pos 2)) FailureReason.process_exit refl

-- The lane's one slot is taken.
claim_next-none_iff_example :
    ((claim_next "w2" 8 300 "/out" "default" (some 1) claimed).1 ≡ none) ↔ (
      IsFull "w2" 8 300 "/out" "default" (some 1) claimed
      ⊎ NothingReady "w2" 8 300 "/out" "default" claimed)
claim_next-none_iff_example =
    claim_next-none_iff "w2" 8 300 "/out" "default" (some 1) claimed claimed-Inv.job_ids

claim_next-le_slots_example :
    count (occupies "default") (claim_next "w1" 7 200 "/out" "default" (some 1) submitted).0.jobs
    ≤ 1
unfolding count add_job_checked
claim_next-le_slots_example =
    claim_next-le_slots "w1" 7 200 "/out" "default" 1 submitted submitted-Inv.job_ids (omega arith)

cancel_job-CancelSpec_example :
    CancelSpec 1 400 claimed claimed-Inv running_job claimed_job true JobState.running
      (cancel_job 1 400 true claimed).0
      (cancel_job 1 400 true claimed).1
cancel_job-CancelSpec_example =
    cancel_job-CancelSpec 1 400 claimed claimed-Inv running_job claimed_job true

retry_job-RetrySpec_example :
    RetrySpec 1 400 claimed claimed-Inv running_job claimed_job true JobState.running
      (retry_job 1 true 400 claimed).0
      (retry_job 1 true 400 claimed).1
retry_job-RetrySpec_example =
    retry_job-RetrySpec 1 400 claimed claimed-Inv running_job claimed_job true

abbrev recycled_pid : Probe
recycled_pid = record { kill = alive; ps = ps_ended 0 "/usr/bin/vim" }

is_worker_pid_dead-iff-Dead_example : (is_worker_pid_dead recycled_pid ≡ true) ↔ Dead recycled_pid
is_worker_pid_dead-iff-Dead_example = is_worker_pid_dead-iff-Dead recycled_pid
