-- ===== src/Store/Invariant/Recorded.antt =====
-- The invariant under record_success, record_failure and update_heartbeat.
use spoolctl.Base.{
  ℕ, ◌≡◌, refl, ap, subst, inl, inr, Bool, true, false, ◌&&◌, List, Option, none, some, arith, ◌==◌,
  is_some, Bool-cases, Option-cases, and_true, String, sql_eq, str_eq,
}
use spoolctl.Base.Int.{ℤ}
use spoolctl.Models.{
  Time, Job, JobState, Attempt, ErrorText, FailureReason, is_running, is_att_running,
}
use spoolctl.Sql.{update, count, first}
use spoolctl.Sql.Laws.{update-none}
use spoolctl.Sql.Keys.{first-at_key, count-at_key, some_if, one_if}
use spoolctl.Store.Db.{Db, owned_by, get_job}
use spoolctl.Store.Record.{
  FailureKind, kind_state, reason_fits, reason_or_default, is_open_attempt, finish_done,
  attempt_succeeds, attempt_fails, fail_job, may_retry, write_success, record_success,
  write_failure, commit_failure, record_failure, update_heartbeat,
}
use spoolctl.Store.Invariant.{JobOk, Inv}
use spoolctl.Store.Invariant.Effects.{
  get_job-id, add_event-Inv, reported-Inv, SameTries, SameTries-refl, SameTries-update,
}
use spoolctl.Store.Invariant.Edits.{edited, get_job-edited, edited-Inv}
use spoolctl.Store.Invariant.Attempts.{Open, count-settled, count-settled_other}

-- The guard's test, apart from the id.
abbrev pub owns : String → ℕ → Job → Bool
owns worker_id worker_pid j =
    is_running j.state
    && (sql_eq str_eq j.locked_by worker_id && sql_eq ◌==◌ j.locked_pid worker_pid)

module _ (k : ℕ) (w : String) (pid : ℕ) (db : Db) (v : Inv db) where
  pub first-owned : first (owned_by k w pid) db.jobs ≡ some_if (owns w pid) (get_job k db)
  unfolding get_job
  first-owned = first-at_key (λ j. j.id) k (owns w pid) 0 db.jobs v.job_ids

  pub count-owned : count (owned_by k w pid) db.jobs ≡ one_if (owns w pid) (get_job k db)
  unfolding get_job
  count-owned = count-at_key (λ j. j.id) k (owns w pid) 0 db.jobs v.job_ids

-- A worker that owns the row of job k names the attempt that runs for it.
abbrev pub Holds : Db → ℕ → ℕ → String → ℕ → Type 0
Holds db k attempt_id w pid =
    (row : Job) → get_job k db ≡ some row → owns w pid row ≡ true → Open db k attempt_id

module _ (now : Time) where
  finish_done-JobOk : (j : Job) → JobOk j → JobOk (finish_done now j)
  finish_done-JobOk j ok = ground (arith, ok.crashes_counted)

  fail_job-JobOk :
      (code : Option ℤ) (error : ErrorText) (j : Job) (retry : Bool)
      → is_running j.state ≡ true
      → may_retry j ≡ retry
      → JobOk j
      → JobOk (fail_job retry code error now j)
  unfolding fail_job may_retry
  fail_job-JobOk code error j true runs e ok =
      ground (arith, ok.in_crash_budget, ok.crashes_counted)
  fail_job-JobOk code error j false runs e ok = ground (arith, ok.crashes_counted)

module _ (k attempt_id : ℕ) (w : String) (pid : ℕ) (now : Time) (db : Db) (v : Inv db)
    (holds : Holds db k attempt_id w pid) where
  -- The invariant after the rows of the owned job and of its attempt are written.
  settled-Inv :
      (f : Job → Job) (g : Attempt → Attempt) (row : Job)
      → get_job k db ≡ some row
      → owns w pid row ≡ true
      → ((j : Job) → (f j).id ≡ j.id)
      → is_running (f row).state ≡ false
      → (JobOk row → JobOk (f row))
      → ((a : Attempt) → (g a).job_id ≡ a.job_id)
      → ((a : Attempt) → is_att_running (g a).state ≡ false)
      → SameTries db.attempts (update (is_open_attempt attempt_id) g db.attempts)
      → Inv
          (edited db k row (owned_by k w pid) f (update (is_open_attempt attempt_id) g db.attempts))
  settled-Inv f g row found own same_id stops good same_job closes same =
      let o : Open db k attempt_id = holds row found own in
      edited-Inv db k row (owned_by k w pid) f _ found
        (ground (arith, own, get_job-id k db row found)) same_id (λ j t. ground arith) good same
        (count-settled_other db k attempt_id o v.attempt_ids g same_job closes)
        (ground (
          arith,
          own,
          stops,
          found,
          v.one_open k,
          count-settled db k attempt_id o v.attempt_ids g same_job closes,
        ))
        v

success-SameTries :
    (attempt_id : ℕ) (now : Time) (as' : List Attempt)
    → SameTries as' (update (is_open_attempt attempt_id) (attempt_succeeds now) as')
success-SameTries attempt_id now as' =
    SameTries-update (is_open_attempt attempt_id) (attempt_succeeds now)
      (record { same_id = λ a. refl; same_job = λ a. refl; same_no = λ a. refl }) as'
      (λ a t ok. ground arith)

failure-SameTries :
    (attempt_id : ℕ) (kind : FailureKind) (code : Option ℤ) (error : ErrorText)
    (reason : FailureReason) (now : Time) (as' : List Attempt)
    → SameTries as'
        (update (is_open_attempt attempt_id) (attempt_fails kind code error reason now) as')
failure-SameTries attempt_id kind code error reason now as' =
    SameTries-update (is_open_attempt attempt_id) (attempt_fails kind code error reason now)
      (record { same_id = λ a. refl; same_job = λ a. refl; same_no = λ a. refl }) as'
      (λ a t ok. ground arith)

kind-stops : (kind : FailureKind) → is_att_running (kind_state kind) ≡ false
kind-stops FailureKind.failed = refl
kind-stops FailureKind.timed_out = refl

module _ (k attempt_id : ℕ) (w : String) (pid : ℕ) (db : Db) (v : Inv db)
    (holds : Holds db k attempt_id w pid) where
  write_success-Inv :
      (now : Time) (row : Job)
      → get_job k db ≡ some row
      → owns w pid row ≡ true
      → Inv (write_success k attempt_id w pid now db)
  unfolding write_success
  write_success-Inv now row found own =
      add_event-Inv k now _ (some w) none _
        (ap is_some (
          get_job-edited db k row (owned_by k w pid) (finish_done now) _ found
            (ground (arith, own, get_job-id k db row found)) (λ j. refl)))
        (settled-Inv k attempt_id w pid now db v holds (finish_done now) (attempt_succeeds now) row
          found own (λ j. refl) refl (finish_done-JobOk now row) (λ a. refl) (λ a. refl)
          (success-SameTries attempt_id now db.attempts))

  -- A recorded success keeps the database well formed.
  pub record_success-Inv : (now : Time) → Inv (record_success k attempt_id w pid now db).0
  unfolding record_success
  record_success-Inv now = elim (Option-cases (get_job k db)) [
    | inl e ↦ ground (arith, count-owned k w pid db v, e)
    | inr (row, e) ↦ elim (Bool-cases (owns w pid row)) [
      | inl own ↦ rw (count-owned k w pid db v, e, own) (write_success-Inv now row e own)
      | inr foreign ↦ rw (count-owned k w pid db v, e, foreign) v
    ]
  ]

  module _ (kind : FailureKind) (code : Option ℤ) (error : ErrorText) (now : Time) where
    write_failure-Inv :
        (reason : FailureReason) (row : Job)
        → get_job k db ≡ some row
        → owns w pid row ≡ true
        → Inv (write_failure k attempt_id w pid kind code error now reason (may_retry row) db)
    unfolding write_failure
    write_failure-Inv reason row found own =
        reported-Inv (may_retry row) k now _ w _ _
          (ap is_some (
            get_job-edited db k row (owned_by k w pid) (fail_job (may_retry row) code error now) _
              found (ground (arith, own, get_job-id k db row found)) fail_job-id))
          (settled-Inv k attempt_id w pid now db v holds (fail_job (may_retry row) code error now)
            (attempt_fails kind code error reason now) row found own fail_job-id
            (fail_job-stops (may_retry row))
            (fail_job-JobOk now code error row (may_retry row) (and_true _ _ own).0 refl)
            (λ a. refl) (λ a. kind-stops kind)
            (failure-SameTries attempt_id kind code error reason now db.attempts))
      where
        fail_job-id : (j : Job) → (fail_job (may_retry row) code error now j).id ≡ j.id
        fail_job-id j = unfold fail_job in refl

        fail_job-stops :
            (retry : Bool) → is_running (fail_job retry code error now row).state ≡ false
        fail_job-stops true = unfold fail_job in refl
        fail_job-stops false = unfold fail_job in refl

    commit_failure-Inv :
        (reason : FailureReason)
        → Inv (commit_failure k attempt_id w pid kind code error now reason db).0
    unfolding commit_failure
    commit_failure-Inv reason = elim (Option-cases (get_job k db)) [
      | inl e ↦ rw (first-owned k w pid db v, e, commit_failure) v
      | inr (row, e) ↦ elim (Bool-cases (owns w pid row)) [
        | inl own ↦
            rw (first-owned k w pid db v, e, own, commit_failure)
              (write_failure-Inv reason row e own)
        | inr foreign ↦ rw (first-owned k w pid db v, e, foreign, commit_failure) v
      ]
    ]

    -- So does a recorded failure, whether the job is requeued or dead-lettered.
    pub record_failure-Inv :
        (given : Option FailureReason) (db' : Db) (state : Option JobState)
        → record_failure k attempt_id w pid kind code error now given db ≡ some (db', state)
        → Inv db'
    unfolding record_failure
    record_failure-Inv given db' state e =
        let reason = reason_or_default kind code given in
        elim (Bool-cases (reason_fits kind code reason)) [
          | inl t ↦ subst Inv (ground (arith, e, t)) (commit_failure-Inv reason)
          | inr t ↦ cc (rw t at e)
        ]

abbrev beats : Time → Job → Job
beats now j = record j { heartbeat_at = some now }

beats-JobOk : (now : Time) (j : Job) → is_running j.state ≡ true → JobOk j → JobOk (beats now j)
beats-JobOk now j runs ok = ground (arith, ok.crashes_counted)

-- So does a heartbeat.
pub update_heartbeat-Inv :
    (k : ℕ) (w : String) (pid : ℕ) (now : Time) (db : Db)
    → Inv db
    → Inv (update_heartbeat k w pid now db).0
unfolding update_heartbeat
update_heartbeat-Inv k w pid now db v = elim (Option-cases (get_job k db)) [
  | inl e ↦
      rw
        (update-none (owned_by k w pid) (beats now) db.jobs
          (ground (arith, count-owned k w pid db v, e)))
        v
  | inr (row, e) ↦ elim (Bool-cases (owns w pid row)) [
    | inl own ↦
        edited-Inv db k row (owned_by k w pid) (beats now) db.attempts e
          (ground (arith, own, get_job-id k db row e)) (λ j. refl) (λ j t. ground arith)
          (beats-JobOk now row (and_true _ _ own).0) (SameTries-refl db.attempts) (λ i ne. refl)
          (ground (arith, own, e, v.one_open k)) v
    | inr foreign ↦
        rw
          (update-none (owned_by k w pid) (beats now) db.jobs
            (ground (arith, count-owned k w pid db v, e, foreign)))
          v
  ]
]
