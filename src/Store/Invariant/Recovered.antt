-- ===== src/Store/Invariant/Recovered.antt =====
-- The invariant under reap.
use spoolctl.Base.{
  ℕ, suc, ◌≡◌, refl, ◌∙◌, ap, inl, inr, Bool, true, false, ◌&&◌, some, arith, ◌==◌, is_some,
  Bool-cases, Option-cases, and_true, String, sql_eq,
}
use spoolctl.Models.{Time, Job, AttemptState, worker_died, FailureReason, is_running}
use spoolctl.Sql.{first}
use spoolctl.Sql.Keys.{first-at_key, some_if}
use spoolctl.Store.Db.{Db, has_id, get_job}
use spoolctl.Store.Reap.{is_stale, is_reapable, may_redeliver, crash_job, write_reap, reap}
use spoolctl.Store.Invariant.{JobOk, Inv}
use spoolctl.Store.Invariant.Effects.{
  get_job-id, get_job-add_event, get_job-add_dead_event, reported-Inv,
}
use spoolctl.Store.Invariant.Edits.{get_job-edited, get_job-grown_other, edited-Inv}
use spoolctl.Store.Invariant.Attempts.{closed-SameTries, count-closed, count-closed_other}

-- The test of reap, apart from the id.
abbrev pub is_lost : ℕ → Time → Job → Bool
is_lost pid cutoff j = is_running j.state && (sql_eq ◌==◌ j.locked_pid pid && is_stale cutoff j)

pub first-reapable :
    (k pid : ℕ) (cutoff : Time) (db : Db)
    → Inv db
    → first (is_reapable k pid cutoff) db.jobs ≡ some_if (is_lost pid cutoff) (get_job k db)
unfolding get_job
first-reapable k pid cutoff db v =
    first-at_key (λ j. j.id) k (is_lost pid cutoff) 0 db.jobs v.job_ids

crash_job-JobOk :
    (now : Time) (j : Job) (retry : Bool)
    → is_running j.state ≡ true
    → may_redeliver j.max_crashes (suc j.crashes) ≡ retry
    → JobOk j
    → JobOk (crash_job retry now j)
unfolding crash_job
crash_job-JobOk now j true runs e ok = ground (arith, ok.crashes_counted, ok.in_budget)
crash_job-JobOk now j false runs e ok = ground (arith, ok.crashes_counted)

pub crash_job-stops :
    (retry : Bool) (now : Time) (j : Job) → is_running (crash_job retry now j).state ≡ false
unfolding crash_job
crash_job-stops true now j = refl
crash_job-stops false now j = refl

module _ (k pid : ℕ) (cutoff now : Time) (reaper : String) (db : Db) (v : Inv db) where
  write_reap-Inv :
      (row : Job)
      → get_job k db ≡ some row
      → is_running row.state ≡ true
      → Inv
          (write_reap k pid cutoff now reaper (may_redeliver row.max_crashes (suc row.crashes)) db)
  unfolding write_reap
  write_reap-Inv row found runs =
      reported-Inv retry k now _ reaper _ _
        (ap is_some (get_job-edited db k row (has_id k) (crash_job retry now) _ found hit same_id))
        (edited-Inv db k row (has_id k) (crash_job retry now) _ found hit same_id
          (λ j t. ground arith) (crash_job-JobOk now row retry runs refl)
          (closed-SameTries k AttemptState.abandoned worker_died FailureReason.worker_crash now refl
            db.attempts)
          (count-closed_other k AttemptState.abandoned worker_died FailureReason.worker_crash now
            refl db.attempts)
          (count-closed k AttemptState.abandoned worker_died FailureReason.worker_crash now refl
              db.attempts
            ∙ rw (crash_job-stops retry now row) refl)
          v)
    where
      retry : Bool
      retry = may_redeliver row.max_crashes (suc row.crashes)

      hit : has_id k row ≡ true
      hit = ground (arith, get_job-id k db row found)

      same_id : (j : Job) → (crash_job retry now j).id ≡ j.id
      same_id j = unfold crash_job in refl

  -- Reaping keeps the database well formed, whether the job is redelivered or dead-lettered.
  pub reap-Inv : Inv (reap k pid cutoff now reaper db).0
  unfolding reap
  reap-Inv = elim (Option-cases (get_job k db)) [
    | inl e ↦ rw (first-reapable k pid cutoff db v, e, reap) v
    | inr (row, e) ↦ elim (Bool-cases (is_lost pid cutoff row)) [
      | inl lost ↦
          rw (first-reapable k pid cutoff db v, e, lost, reap)
            (write_reap-Inv row e (and_true _ _ lost).0)
      | inr held ↦ rw (first-reapable k pid cutoff db v, e, held, reap) v
    ]
  ]

  write_reap-other :
      (row : Job) (i : ℕ) (retry : Bool)
      → get_job k db ≡ some row
      → (i == k) ≡ false
      → get_job i (write_reap k pid cutoff now reaper retry db) ≡ get_job i db
  unfolding write_reap
  write_reap-other row i retry found ne =
      get_job-add_dead_event retry i k now reaper _
      ∙ get_job-add_event i k now _ (some reaper) _ _
      ∙ get_job-grown_other db k row (has_id k) (crash_job retry now) _ db.last_attempt found
          (ground (arith, get_job-id k db row found)) (λ j. unfold crash_job in refl)
          (λ j t. ground arith) i ne

  -- A reap touches no other job, and a job that is not lost to that pid stays as it is.
  pub reap-other :
      (i : ℕ) → (i == k) ≡ false → get_job i (reap k pid cutoff now reaper db).0 ≡ get_job i db
  unfolding reap
  reap-other i ne = elim (Option-cases (get_job k db)) [
    | inl e ↦ rw (first-reapable k pid cutoff db v, e, reap) refl
    | inr (row, e) ↦ elim (Bool-cases (is_lost pid cutoff row)) [
      | inl lost ↦
          rw (first-reapable k pid cutoff db v, e, lost, reap) (write_reap-other row i _ e ne)
      | inr held ↦ rw (first-reapable k pid cutoff db v, e, held, reap) refl
    ]
  ]

  pub reap-not_lost :
      (row : Job)
      → get_job k db ≡ some row
      → is_lost pid cutoff row ≡ false
      → (reap k pid cutoff now reaper db).0 ≡ db
  unfolding reap
  reap-not_lost row e held = rw (first-reapable k pid cutoff db v, e, held, reap) refl
