-- ===== src/Store/Submit/Idempotent.antt =====
-- Submissions under an idempotency key: a key has at most one active job.
use spoolctl.Base.{
  suc, ◌≡◌, refl, sym, ◌∙◌, ap, inl, inr, true, ◌∷◌, [], List, none, some, arith, String,
  str_eq_refl, Option-cases,
}
use spoolctl.Models.{Time, Job}
use spoolctl.Sql.Laws.{first-append}
use spoolctl.Store.Db.{Db, add_event}
use spoolctl.Store.Submit.{
  Execution, ExecutionField, Metadata, is_active_key, active_job, new_job, insert_job,
  compare_active, add_job_checked, execution_diff, execution_of_row,
}

module _ (x : Execution) (now : Time) (key : String) (m : Metadata) (db : Db) where
  new_job-active : is_active_key key (new_job x now (some key) m (suc db.last_job)) ≡ true
  unfolding new_job
  new_job-active = ground (arith, str_eq_refl key)

  active-inserted :
      active_job (some key) db ≡ none
      → active_job (some key) (insert_job x now (some key) m db)
        ≡ some (new_job x now (some key) m (suc db.last_job))
  unfolding active_job insert_job add_event
  active-inserted e =
      first-append (is_active_key key) db.jobs (new_job x now (some key) m (suc db.last_job))
      ∙ rw (e, new_job-active) refl

  compare_active-id : (row : Job) → (compare_active x now (some key) m row).job_id ≡ row.id
  unfolding compare_active
  compare_active-id row = by_differences (execution_diff (execution_of_row row) x) refl
    where
      by_differences :
          (ds : List ExecutionField)
          → execution_diff (execution_of_row row) x ≡ ds
          → (compare_active x now (some key) m row).job_id ≡ row.id
      by_differences [] e = rw (e, compare_active) refl
      by_differences (d ∷ ds) e = rw (e, compare_active) refl

  found_again :
      (row : Job)
      → active_job (some key) db ≡ some row
      → ((add_job_checked x now (some key) m db).0 ≡ db)
        × ((add_job_checked x now (some key) m db).1.job_id ≡ row.id)
  unfolding add_job_checked
  found_again row e = rw (e, add_job_checked) (refl, compare_active-id row)

  inserted_now :
      active_job (some key) db ≡ none
      → ((add_job_checked x now (some key) m db).0 ≡ insert_job x now (some key) m db)
        × ((add_job_checked x now (some key) m db).1.job_id ≡ suc db.last_job)
  unfolding add_job_checked
  inserted_now e = rw (e, add_job_checked) (refl, refl)

-- Whatever is submitted first under a key, a second submission under the same key, of whatever
-- payload and at whatever time, leaves the database as the first left it and answers with the
-- same job.
pub add_job_checked-again :
    (x x' : Execution) (now now' : Time) (key : String) (m m' : Metadata) (db : Db)
    → ((add_job_checked x' now' (some key) m' (add_job_checked x now (some key) m db).0).0
        ≡ (add_job_checked x now (some key) m db).0)
      × ((add_job_checked x' now' (some key) m' (add_job_checked x now (some key) m db).0).1.job_id
          ≡ (add_job_checked x now (some key) m db).1.job_id)
add_job_checked-again x x' now now' key m m' db = elim (Option-cases (active_job (some key) db)) [
  | inr (row, e) ↦
      let (same, id) = found_again x now key m db row e in
      let (again, id') = found_again x' now' key m' db row e in
      (
        ap (λ d. (add_job_checked x' now' (some key) m' d).0) same ∙ again ∙ sym same,
        ap (λ d. (add_job_checked x' now' (some key) m' d).1.job_id) same ∙ id' ∙ sym id,
      )
  | inl e ↦
      let (grown, id) = inserted_now x now key m db e in
      let (again, id') =
        found_again x' now' key m' (insert_job x now (some key) m db)
          (new_job x now (some key) m (suc db.last_job)) (active-inserted x now key m db e) in
      (
        ap (λ d. (add_job_checked x' now' (some key) m' d).0) grown ∙ again ∙ sym grown,
        ap (λ d. (add_job_checked x' now' (some key) m' d).1.job_id) grown
            ∙ id'
            ∙ unfold new_job in sym id,
      )
]
