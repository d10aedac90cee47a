-- ===== src/Store/Reap/Recovery.antt =====
-- The crash budget: what a reap makes of a job whose worker has died.
use spoolctl.Base.{
  ℕ, suc, ◌+◌, ◌≤◌, ◌<◌, ◌≡◌, refl, ◌∙◌, ap, Bool, true, false, Option, none, some, arith, String,
}
use spoolctl.Models.{Time, Job, JobState, backoff}
use spoolctl.Sql.{count}
use spoolctl.Sql.Keys.{one_if}
use spoolctl.Store.Db.{Db, has_id, running_of_job, get_job}
use spoolctl.Store.Record.{retry_state}
use spoolctl.Store.Reap.{may_redeliver, crash_job, write_reap, reap}
use spoolctl.Store.Invariant.{Inv, is_running_row}
use spoolctl.Store.Invariant.Effects.{get_job-id, get_job-add_event, get_job-add_dead_event}
use spoolctl.Store.Invariant.Edits.{get_job-edited}
use spoolctl.Store.Invariant.Recovered.{is_lost, first-reapable, reap-Inv}

-- A job may be delivered again where there is no bound, or one that the crashes have not passed.
abbrev pub InBudget : Option ℕ → ℕ → Type 0
InBudget none crashes = Unit {0}
InBudget (some max_crashes) crashes = crashes ≤ max_crashes

abbrev pub OverBudget : Option ℕ → ℕ → Type 0
OverBudget none crashes = ⊥
OverBudget (some max_crashes) crashes = max_crashes < crashes

in_budget_lem : (m : Option ℕ) (n : ℕ) → InBudget m n → may_redeliver m n ≡ true
unfolding may_redeliver
in_budget_lem none n h = refl
in_budget_lem (some m) n h = ground (arith, h)

over_budget_lem : (m : Option ℕ) (n : ℕ) → OverBudget m n → may_redeliver m n ≡ false
unfolding may_redeliver
over_budget_lem none n h = absurd h
over_budget_lem (some m) n h = ground (arith, h)

module _ (k pid : ℕ) (cutoff now : Time) (reaper : String) (db : Db) (v : Inv db) (row : Job)
    (found : get_job k db ≡ some row) (lost : is_lost pid cutoff row ≡ true) where
  abbrev retry : Bool
  retry = may_redeliver row.max_crashes (suc row.crashes)

  write_reap-row :
      get_job k (write_reap k pid cutoff now reaper retry db) ≡ some (crash_job retry now row)
  unfolding write_reap
  write_reap-row =
      get_job-add_dead_event retry k k now reaper _
      ∙ get_job-add_event k k now _ (some reaper) _ _
      ∙ get_job-edited db k row (has_id k) (crash_job retry now) _ found
          (ground (arith, get_job-id k db row found)) (λ j. unfold crash_job in refl)

  reap-row :
      (get_job k (reap k pid cutoff now reaper db).0 ≡ some (crash_job retry now row))
      × ((reap k pid cutoff now reaper db).1 ≡ some (retry_state retry))
  unfolding reap
  reap-row = rw (first-reapable k pid cutoff db v, found, lost, reap) (write_reap-row, refl)

  -- What the reap leaves, against the row before: `job` is the row after and `state` is reported.
  pub record Recovery (job : Job) (state : JobState) : Type 0 where
    pub counted : (job.attempts ≡ suc row.attempts) × (job.crashes ≡ suc row.crashes)
    pub unlocked : (job.locked_by ≡ none) × (job.locked_pid ≡ none) × (job.heartbeat_at ≡ none)
    pub reported : state ≡ job.state
    pub redelivered :
        InBudget row.max_crashes (suc row.crashes)
        → (job.state ≡ JobState.queued) × (job.next_run_at ≡ now + backoff (suc row.attempts))
    pub dead_lettered :
        OverBudget row.max_crashes (suc row.crashes)
        → (job.state ≡ JobState.dead) × (job.next_run_at ≡ now)
    pub closed : count (running_of_job k) (reap k pid cutoff now reaper db).0.attempts ≡ 0

  none_open :
      (r : Bool)
      → retry ≡ r
      → count (running_of_job k) (reap k pid cutoff now reaper db).0.attempts ≡ 0
  unfolding crash_job
  none_open true e =
      (reap-Inv k pid cutoff now reaper db v).one_open k
      ∙ ap (one_if is_running_row) (reap-row.0 ∙ ap (λ b. some (crash_job b now row)) e)
  none_open false e =
      (reap-Inv k pid cutoff now reaper db v).one_open k
      ∙ ap (one_if is_running_row) (reap-row.0 ∙ ap (λ b. some (crash_job b now row)) e)

  crash_job-Recovery : (r : Bool) → retry ≡ r → Recovery (crash_job r now row) (retry_state r)
  unfolding crash_job
  crash_job-Recovery true e = record {
    counted = (refl, refl);
    unlocked = (refl, refl, refl);
    reported = refl;
    redelivered = λ h. (refl, refl);
    dead_lettered = λ h. cc (over_budget_lem row.max_crashes (suc row.crashes) h, e);
    closed = none_open true e;
  }
  crash_job-Recovery false e = record {
    counted = (refl, refl);
    unlocked = (refl, refl, refl);
    reported = refl;
    redelivered = λ h. cc (in_budget_lem row.max_crashes (suc row.crashes) h, e);
    dead_lettered = λ h. (refl, refl);
    closed = none_open false e;
  }

  -- In a well-formed database, when a reap finds the job still running, stale and locked by the dead
  -- pid, the row after and the state reported satisfy Recovery: one more attempt and one more crash,
  -- the lock given up, no attempt left open; the job is queued after the backoff if its crashes are
  -- then within max_crashes, or there is no such bound, and dead if they are beyond it.
  pub reap-Recovery :
      (job : Job) (state : JobState)
      → get_job k (reap k pid cutoff now reaper db).0 ≡ some job
      → (reap k pid cutoff now reaper db).1 ≡ some state
      → Recovery job state
  reap-Recovery job state e f =
      both (cc (e, reap-row.0)) (cc (f, reap-row.1)) (crash_job-Recovery retry refl)
    where
      both : {i j : Job} {s t : JobState} → i ≡ j → s ≡ t → Recovery i s → Recovery j t
      both p q o = rw (← p, ← q) o
