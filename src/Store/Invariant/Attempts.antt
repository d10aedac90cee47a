-- ===== src/Store/Invariant/Attempts.antt =====
-- How many attempts of a job run, after the writes that close attempts.
use spoolctl.Base.{
  ℕ, suc, ◌≡◌, refl, ◌∙◌, ap, inl, inr, true, false, List, some, arith, ◌==◌, Bool-cases,
}
use spoolctl.Models.{Time, Attempt, AttemptState, ErrorText, FailureReason, is_att_running}
use spoolctl.Sql.{update, count}
use spoolctl.Sql.Laws.{set_if, All-of, All-imp, count-update, count-update_none}
use spoolctl.Sql.Keys.{Ascending, All-at_key, count-update_drop}
use spoolctl.Store.Db.{Db, running_of_job, get_attempt}
use spoolctl.Store.Record.{is_open_attempt}
use spoolctl.Store.Reap.{close_attempt}
use spoolctl.Store.Invariant.{is_unsuccessful}
use spoolctl.Store.Invariant.Effects.{SameTries, SameTries-update}

-- The attempt that a worker holds for the job k.
pub record Open (db : Db) (k attempt_id : ℕ) : Type 0 where
  pub row : Attempt
  pub found : get_attempt attempt_id db ≡ some row
  pub of_k : row.job_id ≡ k
  pub runs : is_att_running row.state ≡ true

-- All running attempts of k are closed: none is left, and other jobs' attempts stay.
module _ (k : ℕ) (state : AttemptState) (error : ErrorText) (reason : FailureReason) (now : Time)
    (closes : is_unsuccessful state ≡ true) (as' : List Attempt) where
  abbrev closed : List Attempt
  closed = update (running_of_job k) (close_attempt state error reason now) as'

  pub closed-SameTries : SameTries as' closed
  closed-SameTries =
      SameTries-update (running_of_job k) (close_attempt state error reason now)
        (record { same_id = λ a. refl; same_job = λ a. refl; same_no = λ a. refl }) as'
        (λ a t ok. ground arith)

  pub count-closed : count (running_of_job k) closed ≡ 0
  count-closed = count-update_none (running_of_job k) _ _ as' (λ a. ground arith)

  pub count-closed_other :
      (i : ℕ) → (i == k) ≡ false → count (running_of_job i) closed ≡ count (running_of_job i) as'
  count-closed_other i ne =
      count-update (running_of_job i) _ _ as' (All-of _ (λ a. ground arith) as')

-- The attempt that the worker names is closed by f.
module _ (db : Db) (k attempt_id : ℕ) (o : Open db k attempt_id)
    (ids : Ascending (λ a. a.id) 0 db.attempts) (f : Attempt → Attempt)
    (same_job : (a : Attempt) → (f a).job_id ≡ a.job_id)
    (stops : (a : Attempt) → is_att_running (f a).state ≡ false) where
  abbrev settled : List Attempt
  settled = update (is_open_attempt attempt_id) f db.attempts

  pub count-settled : suc (count (running_of_job k) settled) ≡ count (running_of_job k) db.attempts
  unfolding get_attempt
  count-settled =
      count-update_drop (λ a. a.id) attempt_id (running_of_job k) (λ a. is_att_running a.state) f 0
        db.attempts o.row ids o.found o.runs (ground (arith, o.of_k, o.runs))
        (ground (arith, stops o.row))

  pub count-settled_other :
      (i : ℕ)
      → (i == k) ≡ false
      → count (running_of_job i) settled ≡ count (running_of_job i) db.attempts
  unfolding get_attempt
  count-settled_other i ne = count-update (running_of_job i) _ f db.attempts (
      All-imp (λ a. (a.id == attempt_id) ≡ true → a ≡ o.row) _ elsewhere db.attempts
        (All-at_key (λ a. a.id) attempt_id 0 db.attempts o.row ids o.found))
    where
      elsewhere :
          (a : Attempt)
          → ((a.id == attempt_id) ≡ true → a ≡ o.row)
          → running_of_job i (set_if (is_open_attempt attempt_id) f a) ≡ running_of_job i a
      elsewhere a only = elim (Bool-cases (a.id == attempt_id)) [
        | inl t ↦
            let job : a.job_id ≡ k = ap (λ b. b.job_id) (only t) ∙ o.of_k in
            ground (arith, job, same_job a)
        | inr t ↦ ground arith
      ]
