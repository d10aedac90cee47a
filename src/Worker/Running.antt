-- ===== src/Worker/Running.antt =====
-- worker.execute_attempt, worker.process_one and the heartbeat thread.
use spoolctl.Base.{
  ℕ, zero, suc, ◌≤◌, ◌≡◌, ◌↔◌, refl, inl, inr, true, List, [], ◌∷◌, Option, none, some, arith,
  String, if◌then◌else◌, Bool-cases,
}
use spoolctl.Base.Int.{ℤ, pos, eq_ℤ}
use spoolctl.Models.{
  Time, Job, JobState, Attempt, ErrorText, exit_with, timed_out_after, spawn_failed, FailureReason,
}
use spoolctl.Store.Db.{Db}
use spoolctl.Store.Claim.{claim_next_among}
use spoolctl.Store.Record.{FailureKind, record_success, record_failure, reason_fits}
use spoolctl.Worker.Reaping.{Oracle, reap_pass}

-- How the child ends: Popen raises, or wait gives an exit code, or its timeout expires.
pub data Ending : Type 0 where
  spawn_error : String → Ending
  exited : ℤ → Ending
  expired : Ending

-- The result of execute_attempt: (kind, exit_code, error, failure_reason).
pub data RunResult : Type 0 where
  success : RunResult
  failure : FailureKind → Option ℤ → ErrorText → FailureReason → RunResult

unfoldable pub execute_attempt : Job → Ending → RunResult
execute_attempt job (spawn_error exc) =
    failure FailureKind.failed none (spawn_failed exc) FailureReason.spawn_failed
execute_attempt job expired =
    failure FailureKind.timed_out none (timed_out_after job.timeout_seconds) FailureReason.timeout
execute_attempt job (exited code) =
    if eq_ℤ code (pos 0)
    then success
    else failure FailureKind.failed (some code) (exit_with code) FailureReason.process_exit

abbrev pub FitsStore : RunResult → Type 0
FitsStore success = Unit {0}
FitsStore (failure kind code error reason) = reason_fits kind code reason ≡ true

-- Whatever the child does, the failure that the worker reports is one that the store accepts: no
-- spawn failure, exit code or timeout makes record_failure raise.
pub execute_attempt-FitsStore :
    (job : Job) (ending : Ending) → FitsStore (execute_attempt job ending)
unfolding execute_attempt reason_fits
execute_attempt-FitsStore job (spawn_error exc) = refl
execute_attempt-FitsStore job expired = refl
execute_attempt-FitsStore job (exited code) = elim (Bool-cases (eq_ℤ code (pos 0))) [
  | inl t ↦ rw t tt
  | inr t ↦ rw t refl
]

-- The surroundings of one cycle: the pids proved dead, the threshold of staleness, the clock at the
-- three places where it is read, how the child ends, and what other processes commit to the database:
-- before each round of the reap pass, before the claim, before each of the two reads behind the
-- claim's COMMIT, and while the child runs.
pub record Surroundings : Type 0 where
  pub dead : Oracle
  pub threshold : Time
  pub reaped_at : Time
  pub claimed_at : Time
  pub recorded_at : Time
  pub ending : Ending
  pub before_round : ℕ → Db → Db
  pub before_claim : Db → Db
  pub before_job : Db → Db
  pub before_attempt : Db → Db
  pub meanwhile : Db → Db

pub data Summary : Type 0 where
  executed : ℕ → ℕ → RunResult → Option JobState → Summary

module _ (w : String) (pid : ℕ) (out_root lane : String) (slots : Option ℕ) where
  -- The result is recorded; `none` in front is an exception of the store.
  unfoldable pub record_result :
      Time → Job → Attempt → RunResult → Db → Option (Db × Option JobState)
  record_result now job attempt success db = some (record_success job.id attempt.id w pid now db)
  record_result now job attempt (failure kind code error reason) db =
      record_failure job.id attempt.id w pid kind code error now (some reason) db

  -- The part of process_one after a claim.
  unfoldable pub run_claimed : Surroundings → Job → Attempt → Db → Option (Db × Option Summary)
  unfolding execute_attempt record_result
  run_claimed s job attempt db =
      let result = execute_attempt job s.ending in
      elim (record_result s.recorded_at job attempt result (s.meanwhile db)) [
        | none ↦ none
        | some (db', state) ↦ some (db', some (executed job.id attempt.attempt_no result state))
      ]

  -- `none`: the store raises, or a row that was claimed is not there any more when it is read back.
  unfoldable pub after_claim :
      Surroundings → Db × Option (Option Job × Option Attempt) → Option (Db × Option Summary)
  unfolding run_claimed
  after_claim s (db, none) = some (db, none)
  after_claim s (db, some (some job, some attempt)) = run_claimed s job attempt db
  after_claim s (db, some (some job, none)) = none
  after_claim s (db, some (none, attempt)) = none

  unfoldable pub process_one : Surroundings → Db → Option (Db × Option Summary)
  unfolding after_claim
  process_one s db =
      let (reaped, _) = reap_pass s.dead s.threshold s.reaped_at w s.before_round db in
      after_claim s (
        claim_next_among w pid s.claimed_at s.before_job s.before_attempt out_root lane slots
          (s.before_claim reaped))

-- One pass of the heartbeat thread: the update raises, or says how many rows it matched.
pub data Beat : Type 0 where
  raised : Beat
  matched : ℕ → Beat

-- How often on_lost is called, over the beats until the thread is told to stop.
unfoldable pub heartbeat_run : List Beat → ℕ
heartbeat_run [] = 0
heartbeat_run (raised ∷ beats) = heartbeat_run beats
heartbeat_run (matched zero ∷ beats) = 1
heartbeat_run (matched (suc n) ∷ beats) = heartbeat_run beats

abbrev pub SawLoss : List Beat → Type 0
SawLoss [] = ⊥
SawLoss (matched zero ∷ beats) = Unit {0}
SawLoss (raised ∷ beats) = SawLoss beats
SawLoss (matched (suc n) ∷ beats) = SawLoss beats

-- The thread reports a lost ownership at most once, and does exactly when some update succeeded and
-- matched no row; an exception is never taken for a loss.
pub heartbeat_run-once :
    (beats : List Beat) → (heartbeat_run beats ≤ 1) × ((heartbeat_run beats ≡ 1) ↔ SawLoss beats)
unfolding heartbeat_run
heartbeat_run-once [] = (omega arith, ((λ e. absurd (omega arith)), (λ s. absurd s)))
heartbeat_run-once (raised ∷ beats) = heartbeat_run-once beats
heartbeat_run-once (matched zero ∷ beats) = (omega arith, ((λ e. tt), (λ s. refl)))
heartbeat_run-once (matched (suc n) ∷ beats) = heartbeat_run-once beats
