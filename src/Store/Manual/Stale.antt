-- ===== src/Store/Manual/Stale.antt =====
-- A worker whose job was taken from it cannot write its result any more.
use spoolctl.Base.{ℕ, ◌≡◌, ap, arith, ◌∙◌, subst, true, false, refl, Option, none, some, String}
use spoolctl.Base.Int.{ℤ}
use spoolctl.Models.{Time, Job, JobState, is_running, ErrorText, FailureReason}
use spoolctl.Sql.Keys.{some_if}
use spoolctl.Store.Db.{Db, get_job}
use spoolctl.Store.Record.{FailureKind, record_success, commit_failure, update_heartbeat}
use spoolctl.Store.Record.Ownership.{record-not_owned, update_heartbeat-count}
use spoolctl.Store.Manual.{cancel_job}
use spoolctl.Store.Manual.Outcomes.{CancelSpec, cancel_job-CancelSpec}
use spoolctl.Store.Invariant.{Inv}
use spoolctl.Store.Invariant.Requested.{cancel_job-Inv}
use spoolctl.Store.Invariant.Recorded.{owns}

canceled-unowned :
    (w : String) (pid : ℕ) (j : Job) → j.state ≡ JobState.canceled → owns w pid j ≡ false
canceled-unowned w pid j e = ground (arith, ap is_running e)

canceled-not_owned :
    (w : String) (pid k : ℕ) (j : Job) (db : Db)
    → get_job k db ≡ some j
    → j.state ≡ JobState.canceled
    → some_if (owns w pid) (get_job k db) ≡ none
canceled-not_owned w pid k j db e canceled = rw e (ground (arith, ap is_running canceled))

-- Once a running job of a well-formed database is canceled, whichever worker ran it: its next heartbeat matches no row, and a
-- result that it still brings, success or failure, is discarded and changes nothing.
pub cancel_job-stale :
    (k attempt_id : ℕ) (w : String) (pid : ℕ) (now later : Time) (kind : FailureKind)
    (code : Option ℤ) (error : ErrorText) (reason : FailureReason) (db : Db) (row : Job)
    → Inv db
    → get_job k db ≡ some row
    → row.state ≡ JobState.running
    → let db' = (cancel_job k now true db).0 in
      ((update_heartbeat k w pid later db').1 ≡ 0)
      × (record_success k attempt_id w pid later db' ≡ (db', none))
      × (commit_failure k attempt_id w pid kind code error later reason db' ≡ (db', none))
cancel_job-stale k attempt_id w pid now later kind code error reason db row v found runs =
    let db' = (cancel_job k now true db).0 in
    let v' : Inv db' = cancel_job-Inv k now db v true in
    let spec = cancel_job-CancelSpec k now db v row found true in
    let (outcome, (j, stored, canceled), none_open) =
      subst (λ s. CancelSpec k now db v row found true s db' (cancel_job k now true db).1) runs
        spec in
    let lost = canceled-not_owned w pid k j db' stored canceled.state in
    let (no_success, no_failure) =
      record-not_owned k attempt_id w pid later db' v' kind code error reason lost in
    (
      update_heartbeat-count k attempt_id w pid later db' v'
          ∙ rw (stored, canceled-unowned w pid j canceled.state) refl,
      no_success,
      no_failure,
    )
