-- ===== src/Operations/Feedback/Agreement.antt =====
-- What a job's feedback says, against the job's state and the settled states of wait.
use spoolctl.Base.{
  ℕ, ◌≤◌, ◌<◌, ◌≡◌, ◌↔◌, refl, sym, ap, subst, ◌∙◌, true, ◌||◌, List, [], Option, none, some, ltb,
  arith, Bool-cases, Option-cases, inl, inr, is_some,
}
use mathlib.Core.Option
use spoolctl.Models.{Job, JobState, Attempt, FilePath, feedback_tail_max, is_wait_terminal}
use spoolctl.Sql.{count}
use spoolctl.Store.Prune.Matched.{length-get_attempts}
use spoolctl.Store.Db.{Db, get_job, get_attempts, of_job}
use spoolctl.Operations.Errors.{ok}
use spoolctl.Operations.Feedback.{
  Feedback, succeeded_of, outcome_of, feedback_of, feedback_operation,
}

-- It says whether the job succeeded exactly when the job is settled, that it did exactly when the
-- job is done; a running job has neither an exit code nor a reason; no attempt is a warning.
pub record Agrees (f : Feedback) : Type 0 where
  pub judged : is_some f.succeeded ≡ is_wait_terminal f.state
  pub as_wait : f.terminal ≡ is_some f.succeeded
  pub success : (f.succeeded ≡ some true) ↔ (f.state ≡ JobState.done)
  pub running : f.state ≡ JobState.running → (f.exit_code ≡ none) × (f.failure_reason ≡ none)
  pub warned : (f.warnings ≡ []) ↔ (0 < f.attempts_total)

succeeded_of-judged : (s : JobState) → is_some (succeeded_of s) ≡ is_wait_terminal s
unfolding succeeded_of
succeeded_of-judged JobState.queued = refl
succeeded_of-judged JobState.running = refl
succeeded_of-judged JobState.done = refl
succeeded_of-judged JobState.failed = refl
succeeded_of-judged JobState.dead = refl
succeeded_of-judged JobState.canceled = refl

succeeded_of-success : (s : JobState) → (succeeded_of s ≡ some true) ↔ (s ≡ JobState.done)
unfolding succeeded_of
succeeded_of-success JobState.done = ((λ e. refl), (λ e. refl))
succeeded_of-success JobState.queued = ((λ e. cc e), (λ e. cc e))
succeeded_of-success JobState.running = ((λ e. cc e), (λ e. cc e))
succeeded_of-success JobState.failed = ((λ e. cc e), (λ e. cc e))
succeeded_of-success JobState.dead = ((λ e. cc e), (λ e. cc e))
succeeded_of-success JobState.canceled = ((λ e. cc e), (λ e. cc e))

outcome_of-running :
    (job : Job) (attempts : List Attempt)
    → job.state ≡ JobState.running
    → outcome_of job attempts ≡ (none, none)
unfolding outcome_of
outcome_of-running job attempts e = rw (e, outcome_of) refl

module _ (read : FilePath → Option (List ℕ)) where
  feedback_of-Agrees :
      (job : Job) (attempts : List Attempt) (tail_bytes : ℕ)
      → Agrees (feedback_of read job attempts tail_bytes)
  unfolding feedback_of
  feedback_of-Agrees job attempts tail_bytes = record {
    judged = succeeded_of-judged job.state;
    as_wait = sym (succeeded_of-judged job.state);
    success = succeeded_of-success job.state;
    running = λ e. (
      ap (λ o. o.0) (outcome_of-running job attempts e),
      ap (λ o. o.1) (outcome_of-running job attempts e),
    );
    warned = ground arith;
  }

  -- An answer is given only for a tail of 1 to `feedback_tail_max` bytes and for a job that is there. It
  -- shows that job's state, and says whether the job succeeded exactly when that state is one of wait's
  -- settled states, and that it did exactly when the job is done; a running job gets no exit code and
  -- no reason; and its total is the number of the job's attempts in the database, with a warning exactly when there is none.
  pub feedback_operation-Agrees :
      (job_id tail_bytes : ℕ) (db : Db) (f : Feedback)
      → feedback_operation read job_id tail_bytes db ≡ ok f
      → (0 < tail_bytes)
        × (tail_bytes ≤ feedback_tail_max)
        × (Option.map (λ j. j.state) (get_job job_id db) ≡ some f.state)
        × (f.attempts_total ≡ count (of_job job_id) db.attempts)
        × ((f.warnings ≡ []) ↔ (0 < count (of_job job_id) db.attempts))
        × Agrees f
  unfolding feedback_operation feedback_of
  feedback_operation-Agrees job_id tail_bytes db f e =
      elim (Bool-cases (ltb tail_bytes 1 || ltb feedback_tail_max tail_bytes)) [
        | inl bad ↦ cc (rw (bad, feedback_operation) at e)
        | inr fits ↦ elim (Option-cases (get_job job_id db)) [
          | inl n ↦ cc (rw (fits, n, feedback_operation) at e)
          | inr (job, found) ↦
              let made : feedback_of read job (get_attempts job_id db) tail_bytes ≡ f =
                cc (rw (fits, found, feedback_operation) at e) in
              let agrees : Agrees f =
                subst Agrees made (feedback_of-Agrees job (get_attempts job_id db) tail_bytes) in
              let total : f.attempts_total ≡ count (of_job job_id) db.attempts =
                sym (ap (λ g. g.attempts_total) made) ∙ length-get_attempts db job_id in
              (
                ground (arith, fits),
                ground (arith, fits),
                rw found (ap (λ g. some g.state) made),
                total,
                subst (λ n. (f.warnings ≡ []) ↔ (0 < n)) total agrees.warned,
                agrees,
              )
        ]
      ]
